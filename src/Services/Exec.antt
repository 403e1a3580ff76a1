-- ===== src/Services/Exec.antt =====
-- The struct `Empire` (empire.go), and the actions of its services: an action reads and changes the
-- database, calls the scheduler, the event stream and the image registry, and returns or fails.
use empire.Prelude.{ℕ, Bool, Option, none, some, List, [], ◌∷◌, ◌++◌, Result, ok, err}
use empire.Prelude.Text.{Text}
use empire.Prelude.Dict.{Dict}
use empire.Image.{Image}
use empire.Procfile
use empire.Procfile.{ProcfileError}
use empire.Processes.{Command}
use empire.Registry.{RegistryError}
use empire.Apps.{AppError}
use empire.Releases.{ReleaseError}
use empire.Twelvefactor.{Manifest}
use empire.Events.{Event}
use empire.Store.{Gorm, StoreError, Answer}

pub data Error : Type 0 where
  store : StoreError → Error
  -- `ValidationError`, by its text
  validation : Text → Error
  message_required : Error
  domain_in_use : Error
  domain_already_added : Error
  no_releases : Error
  command_not_allowed : Command → Error
  app : AppError → Error
  release : ReleaseError → Error
  registry : RegistryError → Error
  procfile : ProcfileError → Error
  -- an error of the scheduler, the event stream, the image registry or an output stream
  outside : Text → Error
  -- an index out of range
  panics : Error

-- The calls that leave the program, in the order in which it makes them.
pub data Action : Type 0 where
  submit : Manifest → Action
  remove : Text → Action
  restart : Text → Action
  stop : Text → Action
  run : Manifest → Action
  publish : Event → Action
  status : Text → Action
  report : Error → Action
  record_line : Text → Action
  resolve : Image → Action
  extract : Image → Action

-- What the outside world answers to a call, by all the calls made before it: none is a nil error.
pub record Outside : Type 0 where
  pub answer : List Action → Action → Option Text
  pub resolved : List Action → Image → Result Text Image
  pub extracted : List Action → Image → Result Text Text
  pub now : List Action → ℕ
  pub shellwords : Text → Result Text (List Text)
  pub unmarshal_standard : Text → Result ProcfileError (Dict Text)
  pub unmarshal_extended : Text → Result ProcfileError (Dict Procfile.Process)
  -- `RunRecorder`, if there is one: the URL of the recording, if its writer has one
  pub run_recorder : Option (List Action → Result Text (Option Text))

pub data AllowedCommands : Type 0 where
  allow_command_any : AllowedCommands
  allow_command_procfile : AllowedCommands

pub record Empire : Type 1 where
  pub gorm : Gorm
  pub world : Outside
  pub environment : Text
  pub messages_required : Bool
  pub allowed_commands : AllowedCommands

module _ (e : Empire) where
  pub record World : Type 0 where
    pub db : e.gorm.Db
    pub log : List Action

-- What was done before a failure stays done, so the state comes back beside the error too.
abbrev pub Exec : Empire → Type 0 → Type 0
Exec e A = World e → Result Error A × World e

module _ {e : Empire} {A B : Type 0} where
  abbrev pub continue : Result Error A → (A → Exec e B) → Exec e B
  continue (ok a) f w = f a w
  continue (err x) f w = (err x, w)

  infixl 10 ◌>>=◌ ◌>>◌
  unfoldable pub ◌>>=◌ : Exec e A → (A → Exec e B) → Exec e B
  ◌>>=◌ m f w = let (r, w') = m w in continue r f w'

  abbrev pub ◌>>◌ : Exec e A → Exec e B → Exec e B
  m >> n = m >>= λ _. n

module _ {A : Type 0} where
  -- The error of an answer, as an error of the service.
  abbrev pub of_answer : Answer A → Result Error A
  of_answer (ok a) = ok a
  of_answer (err x) = err (store x)

  abbrev pub if_committed : Answer (Unit {0}) → A → Result Error A
  if_committed (ok _) a = ok a
  if_committed (err x) a = err (store x)

  -- The result and the errors of pure code.
  abbrev pub lifted : {E : Type 0} → (E → Error) → Result E A → Result Error A
  lifted f (ok a) = ok a
  lifted f (err x) = err (f x)

module _ {e : Empire} {A : Type 0} where
  unfoldable pub pure : A → Exec e A
  pure a w = (ok a, w)

  unfoldable pub raise : Error → Exec e A
  raise x w = (err x, w)

  -- A read that fails as the database does, and one whose error the caller looks at.
  unfoldable pub ask : (e.gorm.Db → Answer A) → Exec e A
  ask f w = (of_answer (f w.db), w)

  unfoldable pub attempt : (e.gorm.Db → Answer A) → Exec e (Answer A)
  attempt f w = (ok (f w.db), w)

  unfoldable pub write : (e.gorm.Db → Answer A × e.gorm.Db) → Exec e A
  write f w = let (r, d) = f w.db in (of_answer r, record w { db = d })

  unfoldable pub lift : {E : Type 0} → (E → Error) → Result E A → Exec e A
  lift f r w = (lifted f r, w)

  -- A transaction: its changes are kept if the action returns and the commit succeeds.
  abbrev pub end_transaction : e.gorm.Db → Result Error A → World e → Result Error A × World e
  end_transaction d (err x) w = (err x, record w { db = e.gorm.rollback d w.db })
  end_transaction d (ok a) w =
      let (r, d') = e.gorm.commit d w.db in (if_committed r a, record w { db = d' })

  unfoldable pub in_transaction : Exec e A → Exec e A
  in_transaction m w =
      let (r, w') = m (record w { db = e.gorm.begin w.db }) in end_transaction w.db r w'

module _ (e : Empire) where
  abbrev pub of_outside : Option Text → Result Error (Unit {0})
  of_outside none = ok tt
  of_outside (some x) = err (outside x)

  -- A call that leaves the program.
  unfoldable pub act : Action → Exec e (Unit {0})
  act a w = (of_outside (e.world.answer w.log a), record w { log = w.log ++ a ∷ [] })

  -- A call whose answer the caller reads elsewhere, or never.
  unfoldable pub note : Action → Exec e (Unit {0})
  note a w = (ok tt, record w { log = w.log ++ a ∷ [] })

  unfoldable pub get_log : Exec e (List Action)
  get_log w = (ok w.log, w)
