-- ===== src/Scheduler/Locking/Operations.antt =====
-- The operations on stacks leave the table alone (scheduler/cloudformation/cloudformation.go).
use empire.Prelude.{Bool, Option, none, some, List, [], ◌∷◌, Result, ok, err}
use empire.Prelude.Text.{Text}
use empire.CloudFormation.Stacks.{Stack}
use empire.Scheduler.Calls.{
  SchedulerError, AwsError, Aws, Exec, CreateInput, Locked, acquired, canceled, lock_failed,
}
use empire.Scheduler.Table.{Same, same_rules, Same-call, Same-attempt, Same-bind, Same-answered}
use empire.Scheduler.Locking.{
  UpdateStack, Performed, Waiter, status, first_stack, stack, updated, execute_stack_update, ended,
  waited, under_lock, locked, pending_canceled, lock_made, perform_stack_operation, refused,
  received, create_stack, waited_for, update_stack,
}

pub Same-status : (b : Bool) (msg : Text) → Same (status b msg)
unfolding status
Same-status b msg = search (same_rules)

Same-first_stack : (r : Result AwsError (List Stack)) → Same (first_stack r)
unfolding first_stack
Same-first_stack (err e) = search (same_rules)
Same-first_stack (ok []) = search (same_rules)
Same-first_stack (ok (s ∷ ss)) = search (same_rules)

Same-stack : (a : Aws) (name : Text) → Same (stack a name)
unfolding stack
Same-stack a name = search (same_rules, Same-first_stack)

Same-updated : (o : Option AwsError) → Same (updated o)
unfolding updated
Same-updated none = search (same_rules)
Same-updated (some e) = search (same_rules)

Same-execute_stack_update : (a : Aws) (i : UpdateStack) → Same (execute_stack_update a i)
unfolding execute_stack_update
Same-execute_stack_update a i = search (same_rules, Same-stack, Same-updated) depth 12

Same-ended :
    (ran : Option (Result SchedulerError Unit)) (o : Result SchedulerError (Option Stack))
    → Same (ended ran o)
unfolding ended
Same-ended ran o = search (same_rules)

ruleset performed_rules = (same_rules, Same-status, Same-stack, Same-ended, Same-answered)

Same-waited : (a : Aws) (b : Bool) (w : Waiter) (name : Text) → Same (waited a b w name)
unfolding waited
Same-waited a b w name = search (performed_rules) depth 12

Same-under_lock :
    (a : Aws) (b : Bool) (w : Waiter) (name : Text) (r : Result SchedulerError Unit)
    → Same (under_lock a b w name r)
unfolding under_lock
Same-under_lock a b w name (err e) = search (performed_rules) depth 12
Same-under_lock a b w name (ok u) = search (performed_rules, Same-waited) depth 12

module _ (a : Aws) (b : Bool) (w : Waiter) (name : Text) (fn : Exec Unit)
    (unchanged : Same fn) where
  Same-locked : (l : Locked) → Same (locked a b w name fn l)
  unfolding locked
  Same-locked acquired = Same-bind _ _ (Same-attempt fn unchanged) (Same-under_lock a b w name)
  Same-locked canceled = search (performed_rules) depth 12
  Same-locked (lock_failed t) = search (performed_rules) depth 12

  Same-pending_canceled : (r : Result SchedulerError Unit) → Same (pending_canceled a b w name fn r)
  unfolding pending_canceled
  Same-pending_canceled (err e) = search (performed_rules) depth 12
  Same-pending_canceled (ok u) = Same-bind _ _ (Same-call _ _) Same-locked

  Same-lock_made : (r : Result SchedulerError Unit) → Same (lock_made a b w name fn r)
  unfolding lock_made
  Same-lock_made (err e) = search (performed_rules) depth 12
  Same-lock_made (ok u) = Same-bind _ _ (Same-attempt _ (Same-answered a _)) Same-pending_canceled

  Same-perform_stack_operation : Same (perform_stack_operation a b w name fn)
  unfolding perform_stack_operation
  Same-perform_stack_operation = Same-bind _ _ (Same-attempt _ (Same-answered a _)) Same-lock_made

Same-refused : (o : Option AwsError) → Same (refused o)
unfolding refused
Same-refused none = search (same_rules)
Same-refused (some e) = search (same_rules)

received_of :
    (r : Option (Result SchedulerError Unit)) (o : Result SchedulerError (Option Stack))
    → Same (received (record { ran = r; outcome = o }))
unfolding received
received_of none o = search (same_rules)
received_of (some r) o = search (same_rules)

Same-received : (p : Performed) → Same (received p)
Same-received p = received_of p.ran p.outcome

pub Same-create_stack : (a : Aws) (b : Bool) (i : CreateInput) → Same (create_stack a b i)
unfolding create_stack
Same-create_stack a b i =
    search (same_rules, Same-perform_stack_operation, Same-refused, Same-received) depth 14

waited_for_of :
    (b t : Bool) (r : Option (Result SchedulerError Unit))
    (o : Result SchedulerError (Option Stack))
    → Same (waited_for b t (record { ran = r; outcome = o }))
unfolding waited_for
waited_for_of b t none o = search (same_rules, Same-status) depth 12
waited_for_of b t (some r) o = search (same_rules, Same-status) depth 12

Same-waited_for : (b t : Bool) (p : Performed) → Same (waited_for b t p)
Same-waited_for b t p = waited_for_of b t p.ran p.outcome

pub Same-update_stack : (a : Aws) (b : Bool) (i : UpdateStack) → Same (update_stack a b i)
unfolding update_stack
Same-update_stack a b i =
    search
      (
        same_rules, Same-perform_stack_operation, Same-execute_stack_update, Same-status,
        Same-waited_for,
      )
      depth 14
