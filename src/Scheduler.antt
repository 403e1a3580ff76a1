-- ===== src/Scheduler.antt =====
-- The CloudFormation scheduler (scheduler/cloudformation/cloudformation.go): stacks are submitted,
-- updated and removed by calls of AWS, under a lock of the database.
pub mod Calls
pub mod Locking
pub mod Table
pub mod Removal
pub mod Submission
pub mod Rows
pub mod Tests
use empire.Prelude.{
  length, ℕ, Bool, true, false, not, Option, none, some, List, [], ◌∷◌, ◌++◌, map, ◌&&◌,
  if◌then◌else◌, Result, ok, err,
}
use empire.Prelude.Text.{Text, codes, text_eq}
use empire.Prelude.Text.Decimal.{format_nat, format_int}
use empire.Prelude.Dict.{Dict}
use empire.Twelvefactor.{Manifest, Process}
use empire.CloudFormation.{Tag, scale_parameter, tags_from_labels}
use empire.CloudFormation.Containers.{restart_parameter}
use empire.CloudFormation.Stacks
use empire.CloudFormation.Stacks.{
  Parameter, Stack, StackError, update_parameters, deployments_to_watch,
}
use empire.Scheduler.Calls.{
  SchedulerError, other, no_stack, validation, aws, out_of_range, blocks, AwsError, Call, Aws, Exec,
  pure, raise, ◌>>=◌, attempt, ask, call, answered, stacks_row, insert_row, delete_row,
  in_transaction, UpdateInput, CreateInput, Locked, acquired, canceled, lock_failed, put_object,
  validate_template, describe_stacks, create, update, delete, new_lock, cancel_pending, lock,
  unlock, wait, publish,
}
use empire.Scheduler.Locking.{
  StackTemplate, error_text, status, is_missing, has_code, UpdateStack, Submitted, create_stack,
  update_stack,
}

-- The settings of the scheduler. `bodies` are the bytes of the template and the hash of them in hex,
-- `names` is the template of the stack names.
pub record Settings : Type 0 where
  pub bucket : Text
  pub tags : List Tag
  pub body : Manifest → List Tag → Result Text (Text × Text)
  pub names : Manifest → Result Text Text

-- `waitUntilStable` of a stack: what the wait comes to is only logged, but a panic is not.
watched : Result StackError (Dict Stacks.EcsDeployment) → Exec Unit
watched (err Stacks.out_of_range) = raise out_of_range
watched _ = pure tt

-- What a caller with a status stream waits for.
pub settled : Bool → Bool → Submitted → Exec Unit
unfolding watched
settled false stable (r, outcome) = pure tt
settled true stable (r, err e) = raise e
settled true stable (r, ok none) = pure tt
settled true stable (r, ok (some s)) = if stable then watched (deployments_to_watch s) else pure tt

returned : Result {0, 0} SchedulerError Unit → Exec Unit
returned (ok u) = pure tt
returned (err e) = raise e

-- The answer to the validation of an uploaded template
validated : Text → ℕ → Result AwsError (List Text) → Exec StackTemplate
validated url size (err e) = raise (validation url size e)
validated url size (ok keys) = pure (record { url = url; size = size; parameters = keys })

uploaded : Text → Option Text → Exec Unit
uploaded key none = pure tt
uploaded key (some t) = raise (other (codes "error uploading stack template to s3: " ++ t))

store_template : Settings → Aws → Manifest → Text × Text → Exec StackTemplate
unfolding validated uploaded
store_template s a app (body, hash) =
    let key = app.name ++ (codes "/" ++ (app.app_id ++ (codes "/" ++ hash))) in
    let url = codes "https://" ++ (s.bucket ++ (codes ".s3.amazonaws.com/" ++ key)) in
    call (put_object (codes "/" ++ key)) (λ l. a.fault l (put_object (codes "/" ++ key)))
    >>= uploaded key
    >>= λ _. call (validate_template url) (λ l. a.validated l url) >>= validated url (length body)

lifted : {A : Type 0} → (Text → Text) → Result Text A → Exec A
lifted f (ok x) = pure x
lifted f (err t) = raise (other (f t))

-- `createTemplate(ctx, app, stackTags)`
unfoldable pub create_template : Settings → Aws → Manifest → List Tag → Exec StackTemplate
unfolding store_template lifted
create_template s a app tags = lifted (λ t. t) (s.body app tags) >>= store_template s a app

-- `SubmitOptions{NoDNS}`
dns_parameters : Option Bool → List Parameter
dns_parameters none = []
dns_parameters (some no_dns) =
    record {
      key = codes "DNS";
      value = some (if no_dns then codes "false" else codes "true");
      use_previous = false;
    }
    ∷ []

scale_value : Process → Parameter
scale_value p = record {
  key = scale_parameter p.process_type;
  value = some (format_int p.quantity);
  use_previous = false;
}

-- The parameters of a submission: whether DNS is changed, and the scale of each process.
unfoldable pub submit_parameters : Option Bool → Manifest → List Parameter
unfolding dns_parameters scale_value
submit_parameters no_dns app = dns_parameters no_dns ++ map scale_value app.processes

new_stack : Settings → Aws → Manifest → Exec Text
unfolding lifted
new_stack s a app =
    lifted (λ t. codes "error generating stack name: " ++ t) (s.names app) >>= λ name.
    insert_row a app.app_id name >>= λ _. pure name

named : Settings → Aws → Manifest → Result SchedulerError Text → Exec Text
unfolding new_stack
named s a app (ok name) = pure name
named s a app (err no_stack) = new_stack s a app
named s a app (err e) = raise e

-- The name of the stack of the app, which gets one if it has none.
unfoldable pub name_stack : Settings → Aws → Manifest → Exec Text
unfolding named
name_stack s a app = attempt (stacks_row a app.app_id) >>= named s a app

creation : Result SchedulerError Submitted → Exec Submitted
unfolding error_text
creation (err blocks) = raise blocks
creation (err e) = raise e
creation (ok (err e, outcome)) = raise (other (codes "error creating stack: " ++ error_text e))
creation (ok (ok u, outcome)) = pure (ok u, outcome)

update_outcome : Submitted → Exec Submitted
unfolding returned
update_outcome (r, outcome) = returned r >>= λ _. pure (r, outcome)

-- `CreateStack` where there is no stack of that name, and `UpdateStack` where there is.
pub create_or_update :
    Aws
    → Bool
    → Text
    → StackTemplate
    → List Tag
    → List Parameter
    → Result AwsError (List Stack)
    → Exec Submitted
unfolding creation update_outcome
create_or_update a has_stream name t tags parameters (ok stacks) =
    update_stack a has_stream
      (record { stack_name = name; parameters = parameters; template = some t; tags = tags })
    >>= update_outcome
create_or_update a has_stream name t tags parameters (err e) =
    if is_missing (err e) name
    then (attempt (
          create_stack a has_stream (record {
            stack_name = name;
            template_url = t.url;
            tags = tags;
            parameters = parameters;
          }))
        >>= creation)
    else raise (other (codes "error describing stack: " ++ e.text))

-- `submit(ctx, tx, app, ss, opts)`
unfoldable pub submit : Settings → Aws → Bool → Option Bool → Manifest → Exec Unit
unfolding create_or_update settled
submit s a has_stream no_dns app =
    let tags = s.tags ++ tags_from_labels app.labels in
    name_stack s a app >>= λ name. create_template s a app tags >>= λ t.
    status has_stream (
      codes "Created cloudformation template: "
      ++ (t.url ++ (codes " (" ++ (format_nat t.size ++ codes "/460800 bytes)"))))
    >>= λ _.
        call (describe_stacks name) (λ l. a.described l name)
        >>= create_or_update a has_stream name t tags (submit_parameters no_dns app)
        >>= settled has_stream true

-- `SubmitWithOptions(ctx, app, ss, opts)`
unfoldable pub submit_with_options : Settings → Aws → Bool → Option Bool → Manifest → Exec Unit
submit_with_options s a has_stream no_dns app = in_transaction a (submit s a has_stream no_dns app)

-- `Restart(ctx, appID, ss)`
unfoldable pub restart : Aws → Bool → Text → Exec Unit
unfolding update_outcome settled
restart a has_stream app_id = stacks_row a app_id >>= λ name. ask a.timestamp >>= λ now.
    update_stack a has_stream (record {
      stack_name = name;
      parameters = record { key = restart_parameter; value = some now; use_previous = false } ∷ [];
      template = none;
      tags = [];
    })
    >>= update_outcome
    >>= settled has_stream false

deleted : Option AwsError → Exec Unit
unfolding has_code
deleted none = pure tt
deleted (some e) =
    if has_code e (codes "AccessDenied")
    then pure tt
    else raise (other (codes "error deleting stack: " ++ e.text))

delete_stack : Aws → Text → Result AwsError (List Stack) → Exec Unit
unfolding deleted
delete_stack a name r =
    if is_missing r name
    then pure tt
    else (call (delete name) (λ l. a.refuses l (delete name)) >>= deleted)

remove_named : Aws → Text → Result SchedulerError Text → Exec Unit
unfolding delete_stack
remove_named a app_id (err no_stack) = pure tt
remove_named a app_id (err e) = raise e
remove_named a app_id (ok name) = delete_row a app_id >>= λ _.
    call (describe_stacks name) (λ l. a.described l name) >>= delete_stack a name

-- `remove(ctx, tx, appID)`
unfoldable pub remove_stack : Aws → Text → Exec Unit
unfolding remove_named
remove_stack a app_id = attempt (stacks_row a app_id) >>= remove_named a app_id

-- `Remove(ctx, appID)`
unfoldable pub remove : Aws → Text → Exec Unit
remove a app_id = in_transaction a (remove_stack a app_id)
