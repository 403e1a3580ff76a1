-- ===== src/Scheduler/Tests.antt =====
-- Concrete runs of the CloudFormation scheduler.
use empire.Prelude.{
  ℕ, Bool, true, false, Option, none, some, List, [], ◌∷◌, ◌++◌, length, ◌≡◌, refl, ◌⊎◌, Result, ok,
  err,
}
use empire.Prelude.Text.{Text, codes, text_eq}
use empire.Prelude.Dict.{lookup, insert}
use empire.CloudFormation.{Tag}
use empire.CloudFormation.Sample.{acme}
use empire.CloudFormation.Stacks.{Stack}
use empire.Scheduler.Calls.{
  SchedulerError, blocks, AwsError, Aws, World, Locked, acquired, canceled, CreateInput, Exec,
}
use empire.Scheduler.Removal.{IsErased, remove_rows}
use empire.Scheduler.Submission.{IsNamed, IsStored}
use empire.Scheduler.Rows.{submit_with_options_rows}
use empire.Scheduler.Locking.{Submitted, create_stack}
use empire.Scheduler.Locking.Creation.{IsGranted, create_stack_answered}
use empire.Scheduler.{Settings, submit_with_options, remove}

-- AWS with nothing but this stack, where each call succeeds and the lock is what it is.
abbrev aws_with : Result AwsError (List Stack) → Locked → Aws
aws_with stacks l = record {
  fault = λ log c. none;
  refuses = λ log c. none;
  described = λ log name. stacks;
  validated = λ log url. ok [];
  locked = λ log name. l;
  in_time = λ log name. true;
  timestamp = λ log. [];
}

abbrev old_stack : Stack
old_stack = record { parameters = []; outputs = [] }

abbrev live : Aws
live = aws_with (ok (old_stack ∷ [])) acquired

abbrev missing : AwsError
missing = record {
  text = [];
  code = some (codes "ValidationError");
  message = codes "Stack with id acme-stack does not exist";
}

abbrev settings : Settings
settings = record {
  bucket = codes "bucket";
  tags = [];
  body = λ app tags. ok (codes "{}", codes "44136f");
  names = λ app. ok (app.name ++ codes "-stack");
}

abbrev other_rows : World
other_rows = record { stacks = (codes "other", codes "other-stack") ∷ []; log = [] }

abbrev acme_rows : World
acme_rows = record {
  stacks = (acme.app_id, codes "acme-stack") ∷ (codes "other", codes "other-stack") ∷ [];
  log = [];
}

submission_returns : (submit_with_options settings live true (some false) acme other_rows).0 ≡ ok tt
unfolding empire.Scheduler.create_template empire.Scheduler.submit_parameters
    empire.Scheduler.name_stack empire.Scheduler.submit empire.Scheduler.submit_with_options
    empire.Scheduler.remove_stack empire.Scheduler.remove empire.Scheduler.Calls.pure
    empire.Scheduler.Calls.raise empire.Scheduler.Calls.attempt empire.Scheduler.Calls.ask
    empire.Scheduler.Calls.call empire.Scheduler.Calls.continue empire.Scheduler.Calls.◌>>=◌
    empire.Scheduler.Calls.raised empire.Scheduler.Calls.answered empire.Scheduler.Calls.found
    empire.Scheduler.Calls.row empire.Scheduler.Calls.get_row empire.Scheduler.Calls.stacks_row
    empire.Scheduler.Calls.set_row empire.Scheduler.Calls.insert_row
    empire.Scheduler.Calls.unset_row empire.Scheduler.Calls.delete_row empire.Scheduler.Calls.settle
    empire.Scheduler.Calls.in_transaction empire.Scheduler.Locking.error_text
    empire.Scheduler.Locking.status empire.Scheduler.Locking.is_missing
    empire.Scheduler.Locking.has_code empire.Scheduler.Locking.stack
    empire.Scheduler.Locking.execute_stack_update empire.Scheduler.Locking.perform_stack_operation
    empire.Scheduler.Locking.create_stack empire.Scheduler.Locking.update_stack
    empire.CloudFormation.Stacks.put_pairs empire.CloudFormation.Stacks.extract_process_data
    empire.CloudFormation.Stacks.chunk_strings empire.CloudFormation.Stacks.names
    empire.CloudFormation.Stacks.member empire.CloudFormation.Stacks.set_of
    empire.CloudFormation.Stacks.fill_previous empire.CloudFormation.Stacks.update_parameters
    empire.CloudFormation.Stacks.output empire.CloudFormation.Stacks.watch
    empire.CloudFormation.Stacks.deployments_to_watch empire.CloudFormation.Stacks.soft_limit
    empire.CloudFormation.Stacks.task_definition_to_process lookup text_eq insert
    empire.CloudFormation.tags_from_labels empire.CloudFormation.scale_parameter
    empire.CloudFormation.process_resource_name empire.CloudFormation.is_alphanumeric
    empire.CloudFormation.insert_pair empire.CloudFormation.sorted_environment
    empire.Configs.text_lt empire.Prelude.Text.Decimal.format_int
    empire.Prelude.Text.Decimal.format_nat empire.Prelude.Text.Split.split
submission_returns = refl

removal_returns : (remove live acme.app_id acme_rows).0 ≡ ok tt
unfolding remove empire.Scheduler.Calls.in_transaction empire.Scheduler.Calls.◌>>=◌
    empire.Scheduler.Calls.answered empire.Scheduler.Calls.call empire.Scheduler.Calls.pure
    empire.Scheduler.remove_stack empire.Scheduler.Calls.attempt empire.Scheduler.Calls.stacks_row
    lookup text_eq empire.Scheduler.Calls.delete_row empire.Scheduler.Locking.is_missing
removal_returns = refl

submit_with_options_rows_example :
    (((submit_with_options settings live true none acme other_rows).0 ≡ ok tt)
      × (name : Text) × IsNamed settings acme name other_rows.stacks
      × IsStored acme.app_id name other_rows.stacks
          (submit_with_options settings live true none acme other_rows).1.stacks)
    ⊎ ((e : SchedulerError) × ((submit_with_options settings live true none acme other_rows).0
          ≡ err e)
        × ((submit_with_options settings live true none acme other_rows).1.stacks
            ≡ other_rows.stacks))
submit_with_options_rows_example = submit_with_options_rows settings live true none acme other_rows

remove_rows_example :
    ((remove live acme.app_id acme_rows).0 ≡ ok tt
      × IsErased acme.app_id acme_rows.stacks (remove live acme.app_id acme_rows).1.stacks)
    ⊎ ((e : SchedulerError) × ((remove live acme.app_id acme_rows).0 ≡ err e)
        × ((remove live acme.app_id acme_rows).1.stacks ≡ acme_rows.stacks))
remove_rows_example = remove_rows live acme.app_id acme_rows

abbrev acme_input : CreateInput
acme_input = record {
  stack_name = codes "acme-stack";
  template_url = codes "https://bucket.s3.amazonaws.com/acme";
  tags = [];
  parameters = [];
}

abbrev superseded : Aws
superseded = aws_with (err missing) canceled

superseded_blocks : (create_stack superseded true acme_input other_rows).0 ≡ err blocks
unfolding create_stack empire.Scheduler.Calls.◌>>=◌ empire.Scheduler.Locking.perform_stack_operation
    empire.Scheduler.Calls.attempt empire.Scheduler.Calls.answered empire.Scheduler.Calls.call
    empire.Scheduler.Calls.pure empire.Scheduler.Locking.status empire.Scheduler.Calls.raise
superseded_blocks = refl

create_stack_answered_example :
    (IsGranted superseded acme_input.stack_name other_rows.log
      × ((p : Submitted) × ((create_stack superseded true acme_input other_rows).0 ≡ ok p)))
    ⊎ ((¬ IsGranted superseded acme_input.stack_name other_rows.log)
        × ((create_stack superseded true acme_input other_rows).0 ≡ err blocks))
create_stack_answered_example = create_stack_answered superseded true acme_input other_rows
