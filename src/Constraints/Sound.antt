-- ===== src/Constraints/Sound.antt =====
-- What the parsers accept.
use empire.Prelude.{
  ◌≡◌, refl, List, [], ◌∷◌, Option, none, some, arith, ok, Result-cases, Option-cases, ◌⊎◌,
  >>=-eq-ok, ◌∙◌, inl, inr,
}
use empire.Prelude.Int.{ℤ, pos, ◌≤ℤ◌}
use empire.Prelude.Text.{Text}
use empire.Prelude.Text.Split.{split, split_once}
use empire.Constraints.{
  Constraints, Floats, new_cpu_share, parse_cpu_share, parse_option, parse_options, parse_rest,
  parse_parts, at_colon, parse, parse_memory, parse_constraints, named_constraints,
}

parse_cpu_share-ge_two : (s : Text) (i : ℤ) → parse_cpu_share s ≡ ok i → pos 2 ≤ℤ i
unfolding parse_cpu_share new_cpu_share
parse_cpu_share-ge_two s i h = ground arith

parse_option-cpu_share :
    (c d : Constraints) (kv : Text × Option Text)
    → parse_option c kv ≡ ok d
    → d.cpu_share ≡ c.cpu_share
unfolding parse_option
parse_option-cpu_share c d (key, none) h = cc
parse_option-cpu_share c d (key, some v) h = ground arith

parse_options-cpu_share :
    (c d : Constraints) (kvs : List Text) → parse_options c kvs ≡ ok d → d.cpu_share ≡ c.cpu_share
unfolding parse_options
parse_options-cpu_share c d [] h = ground arith
parse_options-cpu_share c d (kv ∷ kvs) h =
    elim (Result-cases (parse_option c (split_once kv b'='))) [
      | inl (c', e) ↦
          parse_options-cpu_share c' d kvs (rw (e, parse_options) at h)
          ∙ parse_option-cpu_share c c' (split_once kv b'=') e
      | inr (x, e) ↦ cc (rw (e, parse_options) at h)
    ]

parse_rest-cpu_share :
    (c d : Constraints) (rest : Option Text) → parse_rest c rest ≡ ok d → d.cpu_share ≡ c.cpu_share
unfolding parse_rest
parse_rest-cpu_share c d none h = ground arith
parse_rest-cpu_share c d (some s) h = parse_options-cpu_share c d (split s b',') h

parse_parts-ge_two :
    (fl : Floats) (cpu : Text) (more : Text × Option Text) (c : Constraints)
    → parse_parts fl cpu more ≡ ok c
    → pos 2 ≤ℤ c.cpu_share
unfolding parse_parts
parse_parts-ge_two fl cpu (memory, rest) c h =
    let (i, e, g) = >>=-eq-ok (parse_cpu_share cpu) _ h in
    let (m, _, k) = >>=-eq-ok (parse_memory fl memory) _ g in
    rw (parse_rest-cpu_share (record { cpu_share = i; memory = m; nproc = 0 }) c rest k)
      (parse_cpu_share-ge_two cpu i e)

at_colon-ge_two :
    (fl : Floats) (p : Text × Option Text) (c : Constraints)
    → at_colon fl p ≡ ok c
    → pos 2 ≤ℤ c.cpu_share
unfolding at_colon
at_colon-ge_two fl (cpu, none) c h = cc
at_colon-ge_two fl (cpu, some s) c h = parse_parts-ge_two fl cpu (split_once s b':') c h

-- The CPU share of parsed constraints is at least 2, whatever follows it in the text.
pub parse-cpu_share_ge_two :
    (fl : Floats) (s : Text) (c : Constraints) → parse fl s ≡ ok c → pos 2 ≤ℤ c.cpu_share
unfolding parse
parse-cpu_share_ge_two fl s c h = at_colon-ge_two fl (split_once s b':') c h

named_constraints-ge_two :
    (n : Text) {c : Constraints} → named_constraints n ≡ some c → pos 2 ≤ℤ c.cpu_share
unfolding named_constraints
named_constraints-ge_two n h = ground arith

-- Constraints that a user can ask for, by a name or by numbers, have a CPU share of at least 2; and no
-- text but the empty one stands for no constraints.
pub parse_constraints_sound :
    (fl : Floats) (s : Text) (o : Option Constraints)
    → parse_constraints fl s ≡ ok o
    → ((s ≡ []) × (o ≡ none)) ⊎ ((c : Constraints) × (o ≡ some c) × (pos 2 ≤ℤ c.cpu_share))
unfolding parse_constraints
parse_constraints_sound fl [] o h = inl (refl, cc)
parse_constraints_sound fl (b ∷ s) o h = elim (Option-cases (named_constraints (b ∷ s))) [
  | inl e ↦
      let (c, g, k) = >>=-eq-ok (parse fl (b ∷ s)) _ (rw e at h) in
      inr (c, cc, parse-cpu_share_ge_two fl (b ∷ s) c g)
  | inr (c, e) ↦ inr (c, cc (rw e at h), named_constraints-ge_two (b ∷ s) e)
]
