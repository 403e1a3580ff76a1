-- ===== src/Scheduler/Submission.antt =====
-- The row of a submitted app (scheduler/cloudformation/cloudformation.go)
use empire.Prelude.{
  ℕ, ◌≡◌, refl, sym, ap, ◌∙◌, ◌⊎◌, inl, inr, Bool, true, false, Option, none, some, List, arith,
  if◌then◌else◌, Result, ok, err,
}
use empire.Prelude.Text.{Text, text_eq, text_eq_iff}
use empire.Prelude.Dict.{Dict, lookup, insert, lookup-insert}
use empire.Twelvefactor.{Manifest}
use empire.CloudFormation.{Tag}
use empire.CloudFormation.Stacks
use empire.CloudFormation.Stacks.{Parameter, Stack, StackError, deployments_to_watch}
use empire.Scheduler.Calls.{
  SchedulerError, no_stack, blocks, AwsError, Aws, World, pure, raise, ◌>>=◌, continue, attempt,
  stacks_row, answered, insert_row, set_row, insert_stack,
}
use empire.Scheduler.Table.{
  Same, same_rules, Same-raise, Same-attempt, Same-if, Same-bind, bind-eq-ok, Same-answered,
  Same-stacks_row,
}
use empire.Scheduler.Locking.Operations.{Same-create_stack, Same-update_stack}
use empire.Scheduler.Removal.{stacks_row-no_stack, stacks_row-ok}
use empire.Scheduler.Locking.{StackTemplate, Submitted, is_missing}
use empire.Scheduler.{
  Settings, watched, settled, returned, validated, uploaded, store_template, lifted,
  create_template, creation, update_outcome, create_or_update, name_stack, named, new_stack,
}

Same-lifted : {A : Type 0} (f : Text → Text) (r : Result Text A) → Same (lifted f r)
unfolding lifted
Same-lifted f (ok x) = search (same_rules)
Same-lifted f (err t) = search (same_rules)

Same-uploaded : (key : Text) (o : Option Text) → Same (uploaded key o)
unfolding uploaded
Same-uploaded key none = search (same_rules)
Same-uploaded key (some t) = search (same_rules)

Same-validated : (url : Text) (n : ℕ) (r : Result AwsError (List Text)) → Same (validated url n r)
unfolding validated
Same-validated url n (err e) = search (same_rules)
Same-validated url n (ok keys) = search (same_rules)

Same-store_template :
    (s : Settings) (a : Aws) (app : Manifest) (p : Text × Text) → Same (store_template s a app p)
unfolding store_template
Same-store_template s a app (body, hash) =
    search (same_rules, Same-uploaded, Same-validated) depth 14

pub Same-create_template :
    (s : Settings) (a : Aws) (app : Manifest) (tags : List Tag)
    → Same (create_template s a app tags)
unfolding create_template
Same-create_template s a app tags = Same-bind _ _ (Same-lifted _ _) (Same-store_template s a app)

Same-watched : (r : Result StackError (Dict Stacks.EcsDeployment)) → Same (watched r)
unfolding watched
Same-watched (err Stacks.out_of_range) = search (same_rules)
Same-watched (err e) = search (same_rules)
Same-watched (ok d) = search (same_rules)

pub Same-settled : (b t : Bool) (r : Submitted) → Same (settled b t r)
unfolding settled
Same-settled false t (r, o) = search (same_rules)
Same-settled true t (r, err e) = search (same_rules)
Same-settled true t (r, ok none) = search (same_rules)
Same-settled true t (r, ok (some s)) = search (same_rules, Same-watched)

Same-returned : (r : Result SchedulerError Unit) → Same (returned r)
unfolding returned
Same-returned (ok u) = search (same_rules)
Same-returned (err e) = search (same_rules)

Same-creation : (r : Result SchedulerError Submitted) → Same (creation r)
unfolding creation
Same-creation (err blocks) = search (same_rules)
Same-creation (err e) = search (same_rules)
Same-creation (ok (err e, o)) = search (same_rules)
Same-creation (ok (ok u, o)) = search (same_rules)

Same-update_outcome : (r : Submitted) → Same (update_outcome r)
unfolding update_outcome
Same-update_outcome (r, o) = search (same_rules, Same-returned)

pub Same-create_or_update :
    (a : Aws) (b : Bool) (name : Text) (t : StackTemplate) (tags : List Tag) (ps : List Parameter)
    (r : Result AwsError (List Stack))
    → Same (create_or_update a b name t tags ps r)
unfolding create_or_update
Same-create_or_update a b name t tags ps (ok stacks) =
    Same-bind _ _ (Same-update_stack a b _) Same-update_outcome
Same-create_or_update a b name t tags ps (err e) =
    Same-if (is_missing (err e) name) _ _
      (Same-bind _ _ (Same-attempt _ (Same-create_stack a b _)) Same-creation) (Same-raise _)

insert_row-eq-ok :
    (a : Aws) (app_id name : Text) (v u : World)
    → insert_row a app_id name v ≡ (ok tt, u)
    → u.stacks ≡ insert app_id name v.stacks
unfolding insert_row set_row
insert_row-eq-ok a app_id name v u e =
    let (b, t, done, rest) =
      bind-eq-ok (answered a (insert_stack app_id name)) (λ _. set_row app_id name) v u e in
    let kept : t.stacks ≡ v.stacks = sym (ap (λ p. p.1.stacks) done) ∙ (Same-answered a _).same v in
    sym (ap (λ p. p.1.stacks) rest) ∙ ap (insert app_id name) kept

-- The row with this name is there afterwards, and the rows of the others are as they were.
abbrev pub IsStored : Text → Text → Dict Text → Dict Text → Type 0
IsStored app_id name before after =
    (k : Text) → lookup k after ≡ (if text_eq app_id k then some name else lookup k before)

-- The name is the one that the app has, or a new one of the template of the names.
abbrev pub IsNamed : Settings → Manifest → Text → Dict Text → Type 0
IsNamed s app name before =
    (lookup app.app_id before ≡ some name)
    ⊎ ((lookup app.app_id before ≡ none) × (s.names app ≡ ok name))

present-IsStored :
    (app_id name : Text) (before after : Dict Text)
    → lookup app_id before ≡ some name
    → after ≡ before
    → IsStored app_id name before after
present-IsStored app_id name before after e kept k = ground (arith, text_eq_iff app_id k)

lifted-eq-ok :
    {A : Type 0} (f : Text → Text) (r : Result Text A) (v u : World) {x : A}
    → lifted f r v ≡ (ok x, u)
    → (r ≡ ok x) × (u.stacks ≡ v.stacks)
unfolding lifted pure raise
lifted-eq-ok f (ok y) v u e = (cc, sym (ap (λ p. p.1.stacks) e))
lifted-eq-ok f (err t) v u e = cc

-- The new row and its name.
stored-eq-ok :
    (a : Aws) (app_id x : Text) (t u : World) {name : Text}
    → (insert_row a app_id x >>= λ _. pure x) t ≡ (ok name, u)
    → u.stacks ≡ insert app_id x t.stacks × (x ≡ name)
unfolding pure
stored-eq-ok a app_id x t u e =
    let (b, v, stored, last) = bind-eq-ok (insert_row a app_id x) (λ _. pure x) t u e in
    (sym (ap (λ p. p.1.stacks) last) ∙ insert_row-eq-ok a app_id x t v stored, cc)

module _ (s : Settings) (a : Aws) (app : Manifest) where
  new_stack-eq-ok :
      (v u : World) {name : Text}
      → new_stack s a app v ≡ (ok name, u)
      → s.names app ≡ ok name × (u.stacks ≡ insert app.app_id name v.stacks)
  unfolding new_stack
  new_stack-eq-ok v u {name} e =
      let (x, t, made, rest) =
        bind-eq-ok (lifted _ (s.names app))
          (λ name. insert_row a app.app_id name >>= λ _. pure name) v u e in
      let (named, kept) = lifted-eq-ok _ (s.names app) v t made in
      let (stored, same) = stored-eq-ok a app.app_id x t u rest in
      (
        named ∙ ap ok same,
        stored ∙ ap (insert app.app_id x) kept ∙ ap (λ n. insert app.app_id n v.stacks) same,
      )

  named-eq-ok :
      (r : Result SchedulerError Text) (v u : World) {name : Text}
      → (r ≡ err no_stack → lookup app.app_id v.stacks ≡ none)
      → ((t : Text) → r ≡ ok t → lookup app.app_id v.stacks ≡ some t)
      → named s a app r v ≡ (ok name, u)
      → IsNamed s app name v.stacks × IsStored app.app_id name v.stacks u.stacks
  unfolding named pure raise
  named-eq-ok (ok x) v u {name} absent present e =
      let same : x ≡ name = cc in
      let row : lookup app.app_id v.stacks ≡ some name = present x refl ∙ ap some same in
      (
        inl row,
        present-IsStored app.app_id name v.stacks u.stacks row (sym (ap (λ p. p.1.stacks) e)),
      )
  named-eq-ok (err no_stack) v u {name} absent present e =
      let (made, stored) = new_stack-eq-ok v u e in
      (
        inr (absent refl, made),
        λ k. ap (lookup k) stored ∙ lookup-insert app.app_id k name v.stacks,
      )
  named-eq-ok (err x) v u absent present e = cc

  pub name_stack-eq-ok :
      (v u : World) {name : Text}
      → name_stack s a app v ≡ (ok name, u)
      → IsNamed s app name v.stacks × IsStored app.app_id name v.stacks u.stacks
  unfolding name_stack ◌>>=◌ continue attempt
  name_stack-eq-ok v u {name} e =
      let (r, t) = stacks_row a app.app_id v in
      let kept : t.stacks ≡ v.stacks = (Same-stacks_row a app.app_id).same v in
      let (is_named, stored) =
        named-eq-ok r t u {name = name}
          (λ absent. ap (lookup app.app_id) kept ∙ stacks_row-no_stack a app.app_id v absent)
          (λ x present. ap (lookup app.app_id) kept ∙ stacks_row-ok a app.app_id v present) e in
      let moved : IsNamed s app name v.stacks × IsStored app.app_id name v.stacks u.stacks =
        rw (← kept) (is_named, stored) in
      moved
