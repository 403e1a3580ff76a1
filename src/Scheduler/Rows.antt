-- ===== src/Scheduler/Rows.antt =====
-- The table after a submission (scheduler/cloudformation/cloudformation.go)
use empire.Prelude.{Bool, true, Option, ◌≡◌, sym, ap, ◌∙◌, ◌⊎◌, inl, inr, ok, err}
use empire.Prelude.Text.{Text}
use empire.Prelude.Dict.{lookup}
use empire.Twelvefactor.{Manifest}
use empire.Scheduler.Calls.{SchedulerError, Aws, World}
use empire.Scheduler.Table.{Same-call, Same-bind, bind-eq-ok, in_transaction_cases}
use empire.Scheduler.Locking.Operations.{Same-status}
use empire.Scheduler.Submission.{
  IsNamed, IsStored, Same-create_template, Same-create_or_update, Same-settled, name_stack-eq-ok,
}
use empire.Scheduler.{Settings, name_stack, submit, submit_with_options}

submit_rows :
    (s : Settings) (a : Aws) (b : Bool) (no_dns : Option Bool) (app : Manifest) (v u : World)
    → submit s a b no_dns app v ≡ (ok tt, u)
    → (name : Text) × IsNamed s app name v.stacks × IsStored app.app_id name v.stacks u.stacks
unfolding submit
submit_rows s a b no_dns app v u e =
    let (name, t, chosen, rest) = bind-eq-ok (name_stack s a app) _ v u e in
    let (is_named, stored) = name_stack-eq-ok s a app v t chosen in
    let kept : u.stacks ≡ t.stacks =
      ap (λ p. p.1.stacks) (sym rest)
      ∙ (Same-bind _ _ (Same-create_template s a app _) λ t. Same-bind _ _ (Same-status b _) λ _.
            Same-bind _ _ (Same-bind _ _ (Same-call _ _) (Same-create_or_update a b name t _ _))
              (Same-settled b true)).same
          t in
    (name, is_named, λ k. ap (lookup k) kept ∙ stored k)

-- Where the submission returns, the app has a row with the name that it had, or with a new one where it
-- had none, and the rows of the others are as they were; where it fails, the table is as it was.
pub submit_with_options_rows :
    (s : Settings) (a : Aws) (b : Bool) (no_dns : Option Bool) (app : Manifest) (w : World)
    → (((submit_with_options s a b no_dns app w).0 ≡ ok tt)
        × (name : Text) × IsNamed s app name w.stacks
        × IsStored app.app_id name w.stacks (submit_with_options s a b no_dns app w).1.stacks)
      ⊎ ((e : SchedulerError) × ((submit_with_options s a b no_dns app w).0 ≡ err e)
          × ((submit_with_options s a b no_dns app w).1.stacks ≡ w.stacks))
unfolding submit_with_options
submit_with_options_rows s a b no_dns app w =
    elim (in_transaction_cases a (submit s a b no_dns app) w) [
      | inr (e, failed, kept) ↦ inr (e, failed, kept)
      | inl (x, v, u, ran, began, returned, left) ↦
          let (name, is_named, stored) = submit_rows s a b no_dns app v u ran in
          let moved : IsNamed s app name w.stacks × IsStored app.app_id name w.stacks u.stacks =
            rw (← began) (is_named, stored) in
          inl (returned, name, moved.0, λ k. ap (lookup k) left ∙ moved.1 k)
    ]
