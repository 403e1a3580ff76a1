-- ===== src/CloudFormation/Stacks/Parameters.antt =====
-- The parameters of a stack update (`updateParameters`).
use empire.Prelude.{
  ◌≡◌, refl, sym, ap, ◌∙◌, inl, inr, Bool, true, false, not, ◌&&◌, ◌||◌, Option, none, some, List,
  [], ◌∷◌, ◌++◌, arith, Bool-cases, length, take, drop, All, take-length-append, drop-length-append,
}
use empire.Prelude.Text.{Text, text_eq, text_eq_iff}
use empire.CloudFormation.Stacks.{
  Parameter, Stack, update_parameters, fill_previous, settable_params, previous, names, member,
  set_of,
}

-- Whether the template has the parameter; without a template every parameter of the stack counts.
abbrev pub is_settable : Option (List Text) → Text → Bool
is_settable none k = true
is_settable (some keys) k = member k keys

member-append :
    (k : Text) (ps qs : List Parameter)
    → member k (names (ps ++ qs)) ≡ (member k (names ps) || member k (names qs))
unfolding member names
member-append k [] qs = refl
member-append k (p ∷ ps) qs = ground (arith, member-append k ps qs)

same_member :
    (j k : Text) (ks : List Text) → member j ks ≡ true → member k ks ≡ (text_eq j k || member k ks)
same_member j k ks h = elim (Bool-cases (text_eq j k)) [
  | inl e ↦ rw (e, ← (text_eq_iff j k).0 e) h
  | inr e ↦ rw e
]

member-set_of : (k : Text) (ks : List Text) → member k (set_of ks) ≡ member k ks
unfolding member set_of
member-set_of k [] = refl
member-set_of k (j ∷ ks) = elim (Bool-cases (member j (set_of ks))) [
  | inl e ↦ rw (e, member-set_of k ks) (same_member j k ks (sym (member-set_of j ks) ∙ e))
  | inr e ↦ rw e (ap (λ b. text_eq j k || b) (member-set_of k ks))
]

taken :
    (j k : Text) (provided existing : List Text) (b : Bool)
    → (not (member j provided) && member j existing) ≡ true
    → (text_eq j k || (b && (not (member k provided) && member k existing)))
      ≡ ((text_eq j k || b) && (not (member k provided) && member k existing))
taken j k provided existing b h = elim (Bool-cases (text_eq j k)) [
  | inl e ↦ rw (e, ← (text_eq_iff j k).0 e) (sym h)
  | inr e ↦ rw e
]

skipped :
    (j k : Text) (provided existing : List Text) (b : Bool)
    → (not (member j provided) && member j existing) ≡ false
    → (b && (not (member k provided) && member k existing))
      ≡ ((text_eq j k || b) && (not (member k provided) && member k existing))
skipped j k provided existing b h = elim (Bool-cases (text_eq j k)) [
  | inl e ↦ rw (e, ← (text_eq_iff j k).0 e, h) (and_false b)
  | inr e ↦ rw e
]
  where
    and_false : (b : Bool) → (b && false) ≡ false
    and_false true = refl
    and_false false = refl

member-fill_previous :
    (k : Text) (provided existing settable : List Text)
    → member k (names (fill_previous provided existing settable))
      ≡ (member k settable && (not (member k provided) && member k existing))
unfolding fill_previous previous member names
member-fill_previous k provided existing [] = refl
member-fill_previous k provided existing (j ∷ ks) =
    elim (Bool-cases (not (member j provided) && member j existing)) [
      | inl e ↦
          rw (e, member-fill_previous k provided existing ks)
            (taken j k provided existing (member k ks) e)
      | inr e ↦
          rw (e, member-fill_previous k provided existing ks)
            (skipped j k provided existing (member k ks) e)
    ]

All-fill_previous :
    (provided existing settable : List Text)
    → All (λ (p : Parameter). p.use_previous ≡ true) (fill_previous provided existing settable)
unfolding fill_previous previous
All-fill_previous provided existing [] = tt
All-fill_previous provided existing (k ∷ ks) =
    elim (Bool-cases (not (member k provided) && member k existing)) [
      | inl e ↦ rw e (refl, All-fill_previous provided existing ks)
      | inr e ↦ rw e (All-fill_previous provided existing ks)
    ]

-- An update sends the parameters that are provided, unchanged and first; behind them it sends, each
-- with its previous value, those that were not provided, that the stack has, and that the template
-- has if there is one.
pub member-update_parameters :
    (k : Text) (provided : List Parameter) (stack : Stack) (template : Option (List Text))
    → (take (length provided) (update_parameters provided stack template) ≡ provided)
      × (member k (names (drop (length provided) (update_parameters provided stack template))) ≡ (
          is_settable template k
          && (not (member k (names provided)) && member k (names stack.parameters))))
      × All
          (λ p. p.use_previous ≡ true)
          (drop (length provided) (update_parameters provided stack template))
unfolding update_parameters settable_params
member-update_parameters k provided stack template =
    let existing = set_of (names stack.parameters) in
    let filled = fill_previous (names provided) existing (settable_params template existing) in
    (
      take-length-append provided filled,
      rw (drop-length-append provided filled) (
          member-fill_previous k (names provided) existing (settable_params template existing)
          ∙ settled template),
      rw (drop-length-append provided filled)
          (All-fill_previous (names provided) existing (settable_params template existing)),
    )
  where
    same_and : (a b : Bool) → (b && (a && b)) ≡ (a && b)
    same_and true true = refl
    same_and true false = refl
    same_and false true = refl
    same_and false false = refl

    settled :
        (template : Option (List Text))
        → (member k (settable_params template (set_of (names stack.parameters)))
            && (not (member k (names provided)) && member k (set_of (names stack.parameters))))
          ≡ (is_settable template k
              && (not (member k (names provided)) && member k (names stack.parameters)))
    settled none =
        rw (member-set_of k (names stack.parameters))
          (same_and (not (member k (names provided))) (member k (names stack.parameters)))
    settled (some ks) = rw (member-set_of k (names stack.parameters), member-set_of k ks)
