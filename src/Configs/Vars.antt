-- ===== src/Configs/Vars.antt =====
-- What a change of variables leaves.
use empire.Prelude.{
  ◌≡◌, ◌≢◌, refl, ap, ◌∙◌, Option, none, some, [], ◌∷◌, arith, if◌then◌else◌, Bool-cases, inl, inr,
}
use empire.Prelude.Text.{Text, text_eq, text_eq_iff}
use empire.Prelude.Dict.{lookup, insert, erase, Unique, lookup-insert, lookup-erase, lookup-Lacks}
use empire.Configs.{Vars, copy_vars, apply_var, apply_vars, merge_vars}

-- The entry of a name that was `old` before a change.
abbrev pub updated : Option (Option Text) → Option (Option Text) → Option (Option Text)
updated none old = old
updated (some none) old = none
updated (some (some v)) old = some (some v)

abbrev pub or_old : Option (Option Text) → Option (Option Text) → Option (Option Text)
or_old none old = old
or_old (some v) old = some v

lookup-copy_vars :
    (vars old : Vars) (k : Text)
    → Unique old
    → lookup k (copy_vars vars old) ≡ or_old (lookup k old) (lookup k vars)
unfolding copy_vars lookup
lookup-copy_vars vars [] k u = refl
lookup-copy_vars vars ((n, v) ∷ old) k (l, u) = ground (
  arith,
  lookup-copy_vars (insert n v vars) old k u,
  lookup-insert n k v vars,
  text_eq_iff n k,
  lookup-Lacks n old l,
)

lookup-apply_var :
    (vars : Vars) (n : Text) (v : Option Text) (k : Text)
    → lookup k (apply_var vars n v) ≡ (if text_eq n k then updated (some v) none else lookup k vars)
unfolding apply_var
lookup-apply_var vars n none k = lookup-erase n k vars
lookup-apply_var vars n (some v) k = lookup-insert n k (some v) vars

lookup-apply_vars :
    (vars new : Vars) (k : Text)
    → Unique new
    → lookup k (apply_vars vars new) ≡ updated (lookup k new) (lookup k vars)
unfolding apply_vars lookup
lookup-apply_vars vars [] k u = refl
lookup-apply_vars vars ((n, v) ∷ new) k (l, u) = ground (
  arith,
  lookup-apply_vars (apply_var vars n v) new k u,
  lookup-apply_var vars n v k,
  text_eq_iff n k,
  lookup-Lacks n new l,
)

-- After a change a variable has its new value if the change sets it, has none if the change removes
-- it, and is as it was if the change does not name it, where neither map has a name twice.
pub lookup-merge_vars :
    (old new : Vars) (k : Text)
    → Unique old
    → Unique new
    → lookup k (merge_vars old new) ≡ updated (lookup k new) (lookup k old)
unfolding merge_vars
lookup-merge_vars old new k uo un =
    lookup-apply_vars (copy_vars [] old) new k un
    ∙ ap (updated (lookup k new)) (lookup-copy_vars [] old k uo ∙ or_old_none k (lookup k old))
  where
    or_old_none : (k : Text) (o : Option (Option Text)) → or_old o (lookup k []) ≡ o
    or_old_none k none = unfold lookup in refl
    or_old_none k (some v) = refl

-- No variable is the nil pointer, which a release's environment could not read.
abbrev pub AllSet : Vars → Type 0
AllSet [] = Unit
AllSet ((k, v) ∷ vars) = (v ≢ none) × AllSet vars

insert-AllSet : (k v : Text) (vars : Vars) → AllSet vars → AllSet (insert k (some v) vars)
unfolding insert
insert-AllSet k v [] h = (cc, tt)
insert-AllSet k v ((j, w) ∷ vars) (n, h) = elim (Bool-cases (text_eq j k)) [
  | inl e ↦ rw e (cc, h)
  | inr e ↦ rw e (n, insert-AllSet k v vars h)
]

erase-AllSet : (k : Text) (vars : Vars) → AllSet vars → AllSet (erase k vars)
unfolding erase
erase-AllSet k [] h = tt
erase-AllSet k ((j, w) ∷ vars) (n, h) = elim (Bool-cases (text_eq j k)) [
  | inl e ↦ rw e (erase-AllSet k vars h)
  | inr e ↦ rw e (n, erase-AllSet k vars h)
]

copy_vars-AllSet : (vars old : Vars) → AllSet vars → AllSet old → AllSet (copy_vars vars old)
unfolding copy_vars
copy_vars-AllSet vars [] h g = h
copy_vars-AllSet vars ((n, none) ∷ old) h (ne, g) = absurd (ne refl)
copy_vars-AllSet vars ((n, some v) ∷ old) h (ne, g) =
    copy_vars-AllSet (insert n (some v) vars) old (insert-AllSet n v vars h) g

apply_var-AllSet :
    (vars : Vars) (n : Text) (v : Option Text) → AllSet vars → AllSet (apply_var vars n v)
unfolding apply_var
apply_var-AllSet vars n none h = erase-AllSet n vars h
apply_var-AllSet vars n (some v) h = insert-AllSet n v vars h

apply_vars-AllSet : (vars new : Vars) → AllSet vars → AllSet (apply_vars vars new)
unfolding apply_vars
apply_vars-AllSet vars [] h = h
apply_vars-AllSet vars ((n, v) ∷ new) h =
    apply_vars-AllSet (apply_var vars n v) new (apply_var-AllSet vars n v h)

-- A change, whatever it removes, leaves no nil pointer behind if there was none before.
pub merge_vars-AllSet : (old new : Vars) → AllSet old → AllSet (merge_vars old new)
unfolding merge_vars
merge_vars-AllSet old new h =
    apply_vars-AllSet (copy_vars [] old) new (copy_vars-AllSet [] old tt h)
