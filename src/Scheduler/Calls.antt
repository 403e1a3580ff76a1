-- ===== src/Scheduler/Calls.antt =====
-- The state of the scheduler (the table `stacks`), the calls that it makes, and its actions.
use empire.Prelude.{ℕ, Bool, Option, none, some, List, ◌∷◌, Result, ok, err}
use empire.Prelude.Text.{Text}
use empire.Prelude.Dict.{Dict, lookup, insert, erase}
use empire.CloudFormation.{Tag}
use empire.CloudFormation.Stacks.{Parameter, Stack}

-- `awserr.Error`, or an error of another type, which has no code; `text` is what `Error()` prints
pub record AwsError : Type 0 where
  pub text : Text
  pub code : Option Text
  pub message : Text

pub data SchedulerError : Type 0 where
  -- an error with this text
  other : Text → SchedulerError
  no_stack : SchedulerError
  -- `templateValidationError`, with the URL and the size of the template
  validation : Text → ℕ → AwsError → SchedulerError
  -- an error of AWS, returned as it is
  aws : AwsError → SchedulerError
  -- an index out of range
  out_of_range : SchedulerError
  -- the goroutine waits for a message that nobody sends
  blocks : SchedulerError

pub record CreateInput : Type 0 where
  pub stack_name : Text
  pub template_url : Text
  pub tags : List Tag
  pub parameters : List Parameter

-- `template_url` is none where the previous template is used.
pub record UpdateInput : Type 0 where
  pub stack_name : Text
  pub template_url : Option Text
  pub tags : List Tag
  pub parameters : List Parameter

-- The calls that leave the scheduler, in the order in which it makes them.
pub data Call : Type 0 where
  begin : Call
  commit : Call
  query_row : Text → Call
  insert_stack : Text → Text → Call
  delete_stack_row : Text → Call
  put_object : Text → Call
  validate_template : Text → Call
  describe_stacks : Text → Call
  create : CreateInput → Call
  update : UpdateInput → Call
  delete : Text → Call
  new_lock : Text → Call
  cancel_pending : Text → Call
  lock : Text → Call
  unlock : Text → Call
  wait : Text → Call
  publish : Text → Call

pub data Locked : Type 0 where
  acquired : Locked
  -- a newer operation canceled this one while it waited
  canceled : Locked
  lock_failed : Text → Locked

-- What the outside world answers to a call, by all the calls made before it: none is a nil error.
pub record Aws : Type 0 where
  pub fault : List Call → Call → Option Text
  pub refuses : List Call → Call → Option AwsError
  pub described : List Call → Text → Result AwsError (List Stack)
  pub validated : List Call → Text → Result AwsError (List Text)
  pub locked : List Call → Text → Locked
  -- whether the lock is obtained before the time `lockWait` is over
  pub in_time : List Call → Text → Bool
  pub timestamp : List Call → Text

pub record World : Type 0 where
  pub stacks : Dict Text
  pub log : List Call

-- An action may depend on the world, changes it, and returns or fails.
abbrev pub Exec : Type 0 → Type 0
Exec A = World → Result SchedulerError A × World

module _ {A : Type 0} where
  unfoldable pub pure : A → Exec A
  pure a w = (ok a, w)

  unfoldable pub raise : SchedulerError → Exec A
  raise e w = (err e, w)

  -- The result of an action, with its error as a value.
  unfoldable pub attempt : Exec A → Exec (Result SchedulerError A)
  attempt m w = let (r, u) = m w in (ok r, u)

  -- What the world is like, by the calls so far.
  unfoldable pub ask : (List Call → A) → Exec A
  ask f w = (ok (f w.log), w)

  -- A call, and what the world answers to it.
  unfoldable pub call : Call → (List Call → A) → Exec A
  call c f w = (ok (f w.log), record w { log = c ∷ w.log })

module _ {A B : Type 0} where
  unfoldable pub continue : Result SchedulerError A → (A → Exec B) → Exec B
  continue (ok a) f w = f a w
  continue (err e) f w = (err e, w)

  infixl 5 ◌>>=◌
  unfoldable pub ◌>>=◌ : Exec A → (A → Exec B) → Exec B
  unfolding continue
  (m >>= f) w = let (r, u) = m w in continue r f u

-- The error of a call, with a text for it.
unfoldable pub raised : Option Text → Exec Unit
raised none = pure tt
raised (some t) = raise (other t)

unfoldable pub answered : Aws → Call → Exec Unit
unfolding raised
answered a c = call c (λ l. a.fault l c) >>= raised

unfoldable pub found : Option Text → Exec Text
found none = raise no_stack
found (some name) = pure name

unfoldable pub row : Text → World → Option Text
row app_id w = lookup app_id w.stacks

unfoldable pub get_row : Text → Exec Text
unfolding found row
get_row app_id w = found (row app_id w) w

-- `stackName(appID)`
unfoldable pub stacks_row : Aws → Text → Exec Text
unfolding get_row
stacks_row a app_id = answered a (query_row app_id) >>= λ _. get_row app_id

unfoldable pub set_row : Text → Text → Exec Unit
set_row app_id name w = (ok tt, record w { stacks = insert app_id name w.stacks })

-- `INSERT INTO stacks (app_id, stack_name) VALUES ($1, $2)`
unfoldable pub insert_row : Aws → Text → Text → Exec Unit
unfolding set_row
insert_row a app_id name = answered a (insert_stack app_id name) >>= λ _. set_row app_id name

unfoldable pub unset_row : Text → Exec Unit
unset_row app_id w = (ok tt, record w { stacks = erase app_id w.stacks })

-- `DELETE FROM stacks WHERE app_id = $1`
unfoldable pub delete_row : Aws → Text → Exec Unit
unfolding unset_row
delete_row a app_id = answered a (delete_stack_row app_id) >>= λ _. unset_row app_id

-- What is in the table once the transaction has ended: as it was, where the action or the commit failed.
unfoldable pub settle :
    {A : Type 0} → Dict Text → Result SchedulerError A → World → Result SchedulerError A × World
settle before (ok a) w = (ok a, w)
settle before (err e) w = (err e, record w { stacks = before })

-- `tx, err := s.db.Begin()`, the action, and `tx.Rollback()` or `tx.Commit()`
unfoldable pub in_transaction : {A : Type 0} → Aws → Exec A → Exec A
unfolding settle
in_transaction a m w =
    let (r, u) = (answered a begin >>= λ _. m >>= λ x. answered a commit >>= λ _. pure x) w in
    settle w.stacks r u
