-- ===== src/CloudFormation/Stacks/Outputs.antt =====
-- The outputs that map the processes to their services and deployments (`extractProcessData`).
use empire.Prelude.{
  ◌≤◌, ◌≡◌, refl, ap, ◌∙◌, ◌↔◌, inl, inr, true, List, [], ◌∷◌, ◌++◌, map, arith, Bool-cases, length,
  All, ok, >>=-eq-ok,
}
use empire.Prelude.Text.{Text, Lacks, codes}
use empire.Prelude.Text.Split.{
  split, join, contains, split-append, split-Lacks, Lacks-append_cons, Lacks-contains,
  two-le-length-split,
}
use empire.Prelude.Dict.{Dict, insert}
use empire.Twelvefactor.{copy_into}
use empire.CloudFormation.Stacks.{extract_process_data, put_pairs, put_pair}

-- `Join("=", process, value)`, as CloudFormation resolves it
abbrev pub joined : Text × Text → Text
joined (k, v) = k ++ b'=' ∷ v

-- No separator stands in the name or in the value.
abbrev pub IsPair : Text × Text → Type 0
IsPair (k, v) = (Lacks b'=' k × Lacks b',' k) × (Lacks b'=' v × Lacks b',' v)

put_pairs-joined :
    (m : List (Text × Text)) (found : Dict Text)
    → All IsPair m
    → put_pairs (map joined m) found ≡ ok (copy_into found m)
unfolding put_pairs copy_into put_pair
put_pairs-joined [] found h = refl
put_pairs-joined ((k, v) ∷ m) found (((e, _), (f, _)), h) =
    rw (split-append k v b'=' e, split-Lacks v b'=' f) (put_pairs-joined m (insert k v found) h)

split-joined :
    (e : Text × Text) (m : List (Text × Text))
    → All IsPair (e ∷ m)
    → split (join (map joined (e ∷ m)) (codes ",")) b',' ≡ map joined (e ∷ m)
unfolding join
split-joined (k, v) [] (((_, c), (_, d)), h) =
    split-Lacks (k ++ b'=' ∷ v) b',' (Lacks-append_cons k v b',' b'=' c (ground arith) d)
split-joined (k, v) (e ∷ m) (((_, c), (_, d)), h) =
    split-append (k ++ b'=' ∷ v) _ b',' (Lacks-append_cons k v b',' b'=' c (ground arith) d)
    ∙ ap (◌∷◌ (k ++ b'=' ∷ v)) (split-joined e m h)

-- The processes and their values are read back from the output that the template joins, if there is
-- a process, and no comma and no equals sign stands in a name or in a value.
pub extract_process_data-join :
    (e : Text × Text) (m : List (Text × Text))
    → All IsPair (e ∷ m)
    → extract_process_data (join (map joined (e ∷ m)) (codes ",")) ≡ ok (copy_into [] (e ∷ m))
unfolding extract_process_data
extract_process_data-join e m h = rw (split-joined e m h) (put_pairs-joined (e ∷ m) [] h)

-- The parts of a text without an equals sign are one, and of any other are two at least.
put_pair-contains :
    (p : Text) (found : Dict Text)
    → (contains p b'=' ≡ true) ↔ ((m : Dict Text) × (put_pair (split p b'=') found ≡ ok m))
unfolding put_pair
put_pair-contains p found = (to, from)
  where
    two : (parts : List Text) → 2 ≤ length parts → (m : Dict Text) × (put_pair parts found ≡ ok m)
    two [] h = absurd (omega arith)
    two (k ∷ []) h = absurd (omega arith)
    two (k ∷ v ∷ parts) h = (insert k v found, refl)

    to : contains p b'=' ≡ true → (m : Dict Text) × (put_pair (split p b'=') found ≡ ok m)
    to h = two (split p b'=') (two-le-length-split p b'=' h)

    single : (m : Dict Text) → put_pair (p ∷ []) found ≡ ok m → ⊥
    single m e = cc

    from : (m : Dict Text) × (put_pair (split p b'=') found ≡ ok m) → contains p b'=' ≡ true
    from (m, e) = elim (Bool-cases (contains p b'=')) [
      | inl h ↦ h
      | inr h ↦ absurd (single m (rw (split-Lacks p b'=' (Lacks-contains p b'=' h)) at e))
    ]

put_pairs-contains :
    (ps : List Text) (found : Dict Text)
    → All (λ p. contains p b'=' ≡ true) ps ↔ ((m : Dict Text) × (put_pairs ps found ≡ ok m))
unfolding put_pairs
put_pairs-contains [] found = (λ h. (found, refl), λ h. tt)
put_pairs-contains (p ∷ ps) found = (
  λ (h, hs).
      let (next, e) = (put_pair-contains p found).0 h in
      let (m, f) = (put_pairs-contains ps next).0 hs in (m, rw e f),
  λ (m, e).
      let (next, a, b) = >>=-eq-ok (put_pair (split p b'=') found) (put_pairs ps) e in
      ((put_pair-contains p found).1 (next, a), (put_pairs-contains ps next).1 (m, b)),
)

-- The data of the processes is read without a panic exactly if every part between two commas has an
-- equals sign; an empty text, which the template writes when no process is a service, has one part
-- without any.
pub extract_process_data_total :
    (value : Text)
    → All (λ p. contains p b'=' ≡ true) (split value b',')
      ↔ ((m : Dict Text) × (extract_process_data value ≡ ok m))
unfolding extract_process_data
extract_process_data_total value = put_pairs-contains (split value b',') []
