-- ===== src/Scheduler/Removal.antt =====
-- The removal of the stack of an app (scheduler/cloudformation/cloudformation.go)
use empire.Prelude.{
  ◌≡◌, refl, sym, ap, ◌∙◌, ◌⊎◌, inl, inr, Option, none, some, List, ◌∷◌, arith, if◌then◌else◌,
  Result, ok, err,
}
use empire.Prelude.Text.{Text, text_eq, text_eq_iff}
use empire.Prelude.Dict.{Dict, lookup, erase, lookup-erase}
use empire.CloudFormation.Stacks.{Stack}
use empire.Scheduler.Calls.{
  SchedulerError, no_stack, AwsError, Aws, World, pure, raise, ◌>>=◌, continue, attempt, call,
  raised, answered, found, row, get_row, stacks_row, delete_row, unset_row, query_row,
  delete_stack_row,
}
use empire.Scheduler.Table.{
  Same, same_rules, Same-call, Same-bind, bind-eq-ok, Same-answered, Same-stacks_row,
  in_transaction_cases,
}
use empire.Scheduler.{deleted, delete_stack, remove_named, remove_stack, remove}

none-found : (o : Option Text) (w : World) → (found o w).0 ≡ err no_stack → o ≡ none
unfolding found pure
none-found none w e = refl
none-found (some t) w e = cc

-- What the query of the row comes to.
looked_up :
    (o : Option Text) (app_id : Text) (w : World)
    → (continue (raised o w).0 (λ _. get_row app_id) (raised o w).1).0 ≡ err no_stack
    → lookup app_id w.stacks ≡ none
unfolding continue raised get_row row raise pure
looked_up (some t) app_id w e = cc
looked_up none app_id w e = none-found (lookup app_id w.stacks) w e

pub stacks_row-no_stack :
    (a : Aws) (app_id : Text) (w : World)
    → (stacks_row a app_id w).0 ≡ err no_stack
    → lookup app_id w.stacks ≡ none
unfolding stacks_row answered call ◌>>=◌ continue
stacks_row-no_stack a app_id w e =
    looked_up (a.fault w.log (query_row app_id)) app_id
      (record w { log = query_row app_id ∷ w.log }) e

some-found : (o : Option Text) (w : World) {t : Text} → (found o w).0 ≡ ok t → o ≡ some t
unfolding found pure raise
some-found none w e = cc
some-found (some t) w e = cc

row_found :
    (o : Option Text) (app_id : Text) (w : World) {t : Text}
    → (continue (raised o w).0 (λ _. get_row app_id) (raised o w).1).0 ≡ ok t
    → lookup app_id w.stacks ≡ some t
unfolding continue raised get_row row raise pure
row_found (some t) app_id w e = cc
row_found none app_id w e = some-found (lookup app_id w.stacks) w e

pub stacks_row-ok :
    (a : Aws) (app_id : Text) (w : World) {t : Text}
    → (stacks_row a app_id w).0 ≡ ok t
    → lookup app_id w.stacks ≡ some t
unfolding stacks_row answered call ◌>>=◌ continue
stacks_row-ok a app_id w e =
    row_found (a.fault w.log (query_row app_id)) app_id
      (record w { log = query_row app_id ∷ w.log }) e

Same-deleted : (o : Option AwsError) → Same (deleted o)
unfolding deleted
Same-deleted none = search (same_rules)
Same-deleted (some e) = search (same_rules)

Same-delete_stack :
    (a : Aws) (name : Text) (r : Result AwsError (List Stack)) → Same (delete_stack a name r)
unfolding delete_stack
Same-delete_stack a name r = search (same_rules, Same-deleted) depth 12

-- The deletion of a row, where it is made.
delete_row-eq-ok :
    (a : Aws) (app_id : Text) (v u : World)
    → delete_row a app_id v ≡ (ok tt, u)
    → u.stacks ≡ erase app_id v.stacks
unfolding delete_row unset_row
delete_row-eq-ok a app_id v u e =
    let (b, t, gone, rest) =
      bind-eq-ok (answered a (delete_stack_row app_id)) (λ _. unset_row app_id) v u e in
    let kept : t.stacks ≡ v.stacks = sym (ap (λ p. p.1.stacks) gone) ∙ (Same-answered a _).same v in
    sym (ap (λ p. p.1.stacks) rest) ∙ ap (erase app_id) kept

-- The row of the app is gone, and those of the others are as they were.
abbrev pub IsErased : Text → Dict Text → Dict Text → Type 0
IsErased app_id before after =
    (k : Text) → lookup k after ≡ (if text_eq app_id k then none else lookup k before)

absent-IsErased :
    (app_id : Text) (before after : Dict Text)
    → lookup app_id before ≡ none
    → after ≡ before
    → IsErased app_id before after
absent-IsErased app_id before after e kept k = ground (arith, text_eq_iff app_id k)

remove_named_rows :
    (a : Aws) (app_id : Text) (r : Result SchedulerError Text) (v u : World)
    → (r ≡ err no_stack → lookup app_id v.stacks ≡ none)
    → remove_named a app_id r v ≡ (ok tt, u)
    → IsErased app_id v.stacks u.stacks
unfolding remove_named pure raise
remove_named_rows a app_id (err no_stack) v u absent e =
    absent-IsErased app_id v.stacks u.stacks (absent refl) (sym (ap (λ p. p.1.stacks) e))
remove_named_rows a app_id (ok name) v u absent e =
    let (b, t, gone, rest) = bind-eq-ok (delete_row a app_id) _ v u e in
    let kept : u.stacks ≡ t.stacks =
      ap (λ p. p.1.stacks) (sym rest)
      ∙ (Same-bind _ _ (Same-call _ _) (Same-delete_stack a name)).same t in
    λ k. ap (lookup k) (kept ∙ delete_row-eq-ok a app_id v t gone) ∙ lookup-erase app_id k v.stacks
remove_named_rows a app_id (err x) v u absent e = cc

remove_stack_rows :
    (a : Aws) (app_id : Text) (v u : World)
    → remove_stack a app_id v ≡ (ok tt, u)
    → IsErased app_id v.stacks u.stacks
unfolding remove_stack ◌>>=◌ continue attempt
remove_stack_rows a app_id v u e =
    let (r, t) = stacks_row a app_id v in
    let kept : t.stacks ≡ v.stacks = (Same-stacks_row a app_id).same v in
    λ k.
      remove_named_rows a app_id r t u
        (λ absent. ap (lookup app_id) kept ∙ stacks_row-no_stack a app_id v absent) e k
      ∙ ap (λ d. if text_eq app_id k then none else lookup k d) kept

-- Where the removal returns, the app has no row and the rows of the others are as they were; where it fails,
-- the table is as it was.
pub remove_rows :
    (a : Aws) (app_id : Text) (w : World)
    → ((remove a app_id w).0 ≡ ok tt × IsErased app_id w.stacks (remove a app_id w).1.stacks)
      ⊎ ((e : SchedulerError) × ((remove a app_id w).0 ≡ err e)
          × ((remove a app_id w).1.stacks ≡ w.stacks))
unfolding remove
remove_rows a app_id w = elim (in_transaction_cases a (remove_stack a app_id) w) [
  | inr (e, failed, kept) ↦ inr (e, failed, kept)
  | inl (x, v, u, ran, began, returned, left) ↦ inl (
    returned,
    λ k.
        ap (lookup k) left
        ∙ remove_stack_rows a app_id v u ran k
        ∙ ap (λ d. if text_eq app_id k then none else lookup k d) began,
  )
]
