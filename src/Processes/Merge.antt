-- ===== src/Processes/Merge.antt =====
-- What a new formation takes over from the one before it.
use empire.Prelude.{
  ◌≡◌, ◌↔◌, refl, ◌∙◌, Option, none, some, [], ◌∷◌, if◌then◌else◌, arith, Option-cases, inl, inr,
}
use empire.Prelude.Int.{pos}
use empire.Prelude.Text.{Text, codes, text_eq, text_eq_iff}
use empire.Prelude.Dict.{lookup, insert, Unique, lookup-insert, lookup-Lacks, insert-Unique}
use empire.Constraints.{default_constraints}
use empire.Processes.{
  Process, Formation, check_process, check_formation, merge_process, merge_into, merge,
}

-- The entry of a name after the loop: that of `f` merged with the old one, if `f` has the name.
abbrev pub merged : Formation → Text → Option Process → Option Process → Option Process
merged other name (some p) old = some (merge_process name p (lookup name other))
merged other name none old = old

lookup-merge_into :
    (other new f : Formation) (name : Text)
    → Unique f
    → lookup name (merge_into other new f) ≡ merged other name (lookup name f) (lookup name new)
unfolding merge_into lookup
lookup-merge_into other new [] name u = refl
lookup-merge_into other new ((n, p) ∷ f) name (l, u) =
    let v : Process = merge_process n p (lookup n other) in
    ground (
      arith,
      lookup-merge_into other (insert n v new) f name u,
      lookup-insert n name v new,
      text_eq_iff n name,
      lookup-Lacks n f l,
    )

-- What a name stands for after a merge, from what it stood for in the two formations.
abbrev pub inherited : Text → Option Process → Option Process → Option Process
inherited name none old = none
inherited name (some p) (some q) =
    some (record p { quantity = q.quantity; constraints = q.constraints })
inherited name (some p) none = some (record p {
  quantity = if text_eq name (codes "web") then pos 1 else pos 0;
  constraints = default_constraints;
})

merged-inherited :
    (other : Formation) (name : Text) (p : Option Process)
    → merged other name p none ≡ inherited name p (lookup name other)
unfolding merge_process
merged-inherited other name none = refl
merged-inherited other name (some p) = elim (Option-cases (lookup name other)) [
  | inl e ↦ rw e
  | inr (q, e) ↦ rw e
]

-- In a formation that names each process once, each keeps its command, ports and the rest through a
-- merge, and takes only
-- its quantity and its limits from the process of that name in the old formation. Where there is none
-- it has the default limits and runs once if it is the web process and not at all if not. A name that
-- the new formation does not have is dropped.
pub lookup-merge :
    (f other : Formation) (name : Text)
    → Unique f
    → lookup name (merge f other) ≡ inherited name (lookup name f) (lookup name other)
unfolding merge
lookup-merge f other name u =
    lookup-merge_into other [] f name u
    ∙ unfold lookup in merged-inherited other name (lookup name f)

merge_into-Unique : (other new f : Formation) → Unique new → Unique (merge_into other new f)
unfolding merge_into
merge_into-Unique other new [] h = h
merge_into-Unique other new ((n, p) ∷ f) h =
    let v : Process = merge_process n p (lookup n other) in
    merge_into-Unique other (insert n v new) f (insert-Unique n v new h)

pub merge-Unique : (f other : Formation) → Unique (merge f other)
unfolding merge
merge-Unique f other = merge_into-Unique other [] f tt

abbrev pub AllValid : Formation → Type 0
AllValid [] = Unit
AllValid ((n, p) ∷ f) = (check_process p ≡ none) × AllValid f

-- The loop of `Formation.IsValid` finds no error exactly when no process has one.
pub check_formation-AllValid : (f : Formation) → (check_formation f ≡ none) ↔ AllValid f
unfolding check_formation
check_formation-AllValid [] = (λ _. tt, λ _. refl)
check_formation-AllValid ((n, p) ∷ f) =
    let (sound, complete) = check_formation-AllValid f in
    elim (Option-cases (check_process p)) [
      | inl e ↦ rw (e, check_formation) (λ h. (refl, sound h), λ h. complete h.1)
      | inr (x, e) ↦ rw (e, check_formation) (λ h. cc, λ h. cc (h.0))
    ]
