-- ===== src/Scheduler/Locking.antt =====
-- Operations on stacks, under the lock of a stack (scheduler/cloudformation/cloudformation.go). The
-- goroutine of an operation runs to its end before its caller goes on, and a panic in it is the error of
-- its outcome.
pub mod Operations
pub mod Creation
use empire.Prelude.{
  ℕ, Bool, true, false, not, Option, none, some, List, [], ◌∷◌, ◌++◌, map, ◌&&◌, if◌then◌else◌,
  Result, ok, err,
}
use empire.Prelude.Text.{Text, codes, text_eq}
use empire.Prelude.Text.Decimal.{format_nat, format_int}
use empire.Prelude.Dict.{Dict}
use empire.Twelvefactor.{Manifest, Process}
use empire.CloudFormation.{Tag, scale_parameter, tags_from_labels}
use empire.CloudFormation.Containers.{restart_parameter}
use empire.CloudFormation.Stacks
use empire.CloudFormation.Stacks.{
  Parameter, Stack, StackError, update_parameters, deployments_to_watch,
}
use empire.Scheduler.Calls.{
  SchedulerError, other, no_stack, validation, aws, out_of_range, blocks, AwsError, Call, Aws, Exec,
  pure, raise, ◌>>=◌, attempt, ask, call, answered, stacks_row, insert_row, delete_row,
  in_transaction, UpdateInput, CreateInput, Locked, acquired, canceled, lock_failed, put_object,
  validate_template, describe_stacks, create, update, delete, new_lock, cancel_pending, lock,
  unlock, wait, publish,
}

-- `cloudformationTemplate`, with the keys of its parameters
pub record StackTemplate : Type 0 where
  pub url : Text
  pub size : ℕ
  pub parameters : List Text

-- `Error()`
unfoldable pub error_text : SchedulerError → Text
error_text (other t) = t
error_text no_stack = codes "no stack for app found"
error_text (validation url size e) =
    codes "TemplateValidationError:\n  Template URL: "
    ++ (url
        ++ (codes "\n  Template Size: "
            ++ (format_nat size ++ (codes " bytes\n  Error: " ++ e.text))))
error_text (aws e) = e.text
error_text out_of_range = []
error_text blocks = []

-- `publish(ctx, ss, msg)`: an error of the stream is only logged.
unfoldable pub status : Bool → Text → Exec Unit
status has_stream msg = if has_stream then call (publish msg) (λ l. tt) else pure tt

-- `err.Message() == fmt.Sprintf("Stack with id %s does not exist", stackName)`
unfoldable pub is_missing : Result AwsError (List Stack) → Text → Bool
is_missing (ok stacks) name = false
is_missing (err (e)) name = elim e.code [
  | none ↦ false
  | some c ↦ text_eq e.message (codes "Stack with id " ++ (name ++ codes " does not exist"))
]

unfoldable pub has_code : AwsError → Text → Bool
has_code e c = elim e.code [ none ↦ false | some d ↦ text_eq d c ]

first_stack : Result AwsError (List Stack) → Exec Stack
first_stack (err e) = raise (aws e)
first_stack (ok []) = raise out_of_range
first_stack (ok (s ∷ ss)) = pure s

-- `s.stack(stackName)`
unfoldable pub stack : Aws → Text → Exec Stack
unfolding first_stack
stack a name = call (describe_stacks name) (λ l. a.described l name) >>= first_stack

template_keys : Option StackTemplate → Option (List Text)
template_keys none = none
template_keys (some t) = some t.parameters

template_url : Option StackTemplate → Option Text
template_url none = none
template_url (some t) = some t.url

-- `updateStackInput`
pub record UpdateStack : Type 0 where
  pub stack_name : Text
  pub parameters : List Parameter
  pub template : Option StackTemplate
  pub tags : List Tag

update_input : UpdateStack → Stack → UpdateInput
unfolding template_keys template_url
update_input i s = record {
  stack_name = i.stack_name;
  template_url = template_url i.template;
  tags = i.tags;
  parameters = update_parameters i.parameters s (template_keys i.template);
}

-- That there is nothing to update is no error.
updated : Option AwsError → Exec Unit
unfolding has_code
updated none = pure tt
updated (some e) =
    if has_code e (codes "ValidationError")
      && text_eq e.message (codes "No updates are to be performed.")
    then pure tt
    else raise (other (codes "error updating stack: " ++ e.text))

-- `executeStackUpdate(input)`
unfoldable pub execute_stack_update : Aws → UpdateStack → Exec Unit
unfolding update_input updated
execute_stack_update a i = stack a i.stack_name >>= λ s.
    call (update (update_input i s)) (λ l. a.refuses l (update (update_input i s))) >>= updated

-- What came of a stack operation: what its function returned, if it was called, and the stack that it
-- left; none is a nil stack.
pub record Performed : Type 0 where
  pub ran : Option {0} (Result {0, 0} SchedulerError Unit)
  pub outcome : Result {0, 0} SchedulerError (Option Stack)

ended :
    Option {0} (Result {0, 0} SchedulerError Unit)
    → Result {0, 0} SchedulerError (Option Stack)
    → Exec Performed
ended ran outcome = pure (record { ran = ran; outcome = outcome })

-- The messages of `waiters`
pub record Waiter : Type 0 where
  pub start_message : Text
  pub success_message : Text

-- `waitFor`, and the wait of `waitUntilStackOperationComplete`, whose time may be over
waited : Aws → Bool → Waiter → Text → Exec Unit
waited a has_stream w name = status has_stream w.start_message >>= λ _.
    answered a (wait name) >>= λ _. status has_stream w.success_message

as_stack : Result SchedulerError Stack → Result SchedulerError (Option Stack)
as_stack (ok s) = ok (some s)
as_stack (err e) = err e

-- The operation once the lock is held; the lock is released at the end.
under_lock : Aws → Bool → Waiter → Text → Result {0, 0} SchedulerError Unit → Exec Performed
unfolding waited ended as_stack
under_lock a has_stream w name (err e) =
    call (unlock name) (λ l. tt) >>= λ _. ended (some (err e)) (err e)
under_lock a has_stream w name (ok u) =
    attempt (waited a has_stream w name >>= λ _. stack a name) >>= λ s.
    call (unlock name) (λ l. tt) >>= λ _. ended (some (ok u)) (as_stack s)

locked : Aws → Bool → Waiter → Text → Exec Unit → Locked → Exec Performed
unfolding under_lock ended
locked a has_stream w name fn acquired = attempt fn >>= under_lock a has_stream w name
locked a has_stream w name fn canceled =
    status has_stream (codes "Operation superseded by newer release") >>= λ _. ended none (ok none)
locked a has_stream w name fn (lock_failed t) =
    ended none
      (err (other (codes "error obtaining stack operation lock " ++ (name ++ (codes ": " ++ t)))))

pending_canceled :
    Aws → Bool → Waiter → Text → Exec Unit → Result {0, 0} SchedulerError Unit → Exec Performed
unfolding locked ended error_text
pending_canceled a has_stream w name fn (err e) =
    ended none (err (other (codes "error canceling pending stack operation: " ++ error_text e)))
pending_canceled a has_stream w name fn (ok u) =
    call (lock name) (λ l. a.locked l name) >>= locked a has_stream w name fn

lock_made :
    Aws → Bool → Waiter → Text → Exec Unit → Result {0, 0} SchedulerError Unit → Exec Performed
unfolding pending_canceled ended
lock_made a has_stream w name fn (err e) = ended none (err e)
lock_made a has_stream w name fn (ok u) =
    attempt (answered a (cancel_pending name)) >>= pending_canceled a has_stream w name fn

-- `performStackOperation(ctx, stackName, fn, waiter, ss)`
unfoldable pub perform_stack_operation : Aws → Bool → Waiter → Text → Exec Unit → Exec Performed
unfolding lock_made
perform_stack_operation a has_stream w name fn =
    attempt (answered a (new_lock name)) >>= lock_made a has_stream w name fn

-- What the caller gets: the error of the submission, and what the channel `output` holds afterwards.
abbrev pub Submitted : Type 0
Submitted = Result {0, 0} SchedulerError Unit × Result {0, 0} SchedulerError (Option Stack)

refused : Option AwsError → Exec Unit
refused none = pure tt
refused (some e) = raise (aws e)

-- `<-submitted`: nobody sends where the function was not called.
received : Performed → Exec Submitted
received p = elim p.ran [ none ↦ raise blocks | some r ↦ pure (r, p.outcome) ]

-- `createStack(ctx, input, output, ss)`
unfoldable pub create_stack : Aws → Bool → CreateInput → Exec Submitted
unfolding refused received
create_stack a has_stream i =
    perform_stack_operation a has_stream
      (record { start_message = codes "Creating stack"; success_message = codes "Stack created" })
      i.stack_name (call (create i) (λ l. a.refuses l (create i)) >>= refused)
    >>= received

-- The choice between `lockWait` and `locked`
waited_for : Bool → Bool → Performed → Exec Submitted
waited_for has_stream in_time p =
    let gave_up =
      status has_stream (codes "Waiting for existing stack operation to complete") >>= λ _.
      pure (ok tt, p.outcome) in
    elim p.ran [ none ↦ gave_up | some r ↦ if in_time then pure (r, p.outcome) else gave_up ]

-- `updateStack(ctx, input, output, ss)`
unfoldable pub update_stack : Aws → Bool → UpdateStack → Exec Submitted
unfolding waited_for
update_stack a has_stream i = ask (λ l. a.in_time l i.stack_name) >>= λ in_time.
    perform_stack_operation a has_stream
      (record { start_message = codes "Updating stack"; success_message = codes "Stack updated" })
      i.stack_name
      (execute_stack_update a i >>= λ _. status has_stream (codes "Stack update submitted"))
    >>= waited_for has_stream in_time
