-- ===== src/Events.antt =====
-- The events that Empire publishes, and their texts (events.go). An event's hidden field `app` is its
-- `subject`.
pub mod Streams
use empire.Prelude.{ℕ, Bool, true, Option, none, List, [], ◌∷◌, ◌++◌, if◌then◌else◌, ◌==◌}
use empire.Prelude.Int.{ℤ, pos, eqb_ℤ}
use empire.Prelude.Text.{Text, codes, is_empty}
use empire.Prelude.Text.Split.{join}
use empire.Prelude.Text.Decimal.{format_nat, format_int}
use empire.Constraints.{Constraints}
use empire.Processes.{Command, command_string}
use empire.Apps.{App}

pub record RunEvent : Type 0 where
  pub user : Text
  pub app : Text
  pub command : Command
  pub url : Text
  pub attached : Bool
  pub message : Text
  pub finished : Bool
  pub subject : Option App

pub record RestartEvent : Type 0 where
  pub user : Text
  pub app : Text
  pub pid : Text
  pub message : Text
  pub subject : Option App

pub record MaintenanceEvent : Type 0 where
  pub user : Text
  pub app : Text
  pub maintenance : Bool
  pub message : Text
  pub subject : Option App

pub record ScaleEventUpdate : Type 0 where
  pub process : Text
  pub quantity : ℤ
  pub previous_quantity : ℤ
  pub constraints : Constraints
  pub previous_constraints : Constraints

pub record ScaleEvent : Type 0 where
  pub user : Text
  pub app : Text
  pub updates : List ScaleEventUpdate
  pub message : Text
  pub subject : Option App

pub record DeployEvent : Type 0 where
  pub user : Text
  pub app : Text
  pub image : Text
  pub environment : Text
  pub release : ℕ
  pub message : Text
  pub subject : Option App

pub record RollbackEvent : Type 0 where
  pub user : Text
  pub app : Text
  pub version : ℕ
  pub message : Text
  pub subject : Option App

pub record SetEvent : Type 0 where
  pub user : Text
  pub app : Text
  pub changed : List Text
  pub message : Text
  pub subject : Option App

pub record CreateEvent : Type 0 where
  pub user : Text
  pub name : Text
  pub message : Text

pub record DestroyEvent : Type 0 where
  pub user : Text
  pub app : Text
  pub message : Text

-- The interface `Event`, by the types that implement it.
pub data Event : Type 0 where
  run : RunEvent → Event
  restart : RestartEvent → Event
  maintenance : MaintenanceEvent → Event
  scale : ScaleEvent → Event
  deploy : DeployEvent → Event
  rollback : RollbackEvent → Event
  set : SetEvent → Event
  create : CreateEvent → Event
  destroy : DestroyEvent → Event

-- `Event()`
unfoldable pub event_name : Event → Text
event_name (run e) = codes "run"
event_name (restart e) = codes "restart"
event_name (maintenance e) = codes "maintenance"
event_name (scale e) = codes "scale"
event_name (deploy e) = codes "deploy"
event_name (rollback e) = codes "rollback"
event_name (set e) = codes "set"
event_name (create e) = codes "create"
event_name (destroy e) = codes "destroy"

-- `GetApp()`; the events of a creation and a destruction are no `AppEvent`.
unfoldable pub get_app : Event → Option App
get_app (run e) = e.subject
get_app (restart e) = e.subject
get_app (maintenance e) = e.subject
get_app (scale e) = e.subject
get_app (deploy e) = e.subject
get_app (rollback e) = e.subject
get_app (set e) = e.subject
get_app (create e) = none
get_app (destroy e) = none

-- `Finish()`
unfoldable pub finish_run : RunEvent → RunEvent
finish_run e = record e { finished = true }

-- `appendCommitMessage`
unfoldable pub append_commit_message : Text → Text → Text
append_commit_message main commit =
    if is_empty commit then main else main ++ (codes ": '" ++ (commit ++ codes "'"))

-- Texts one after another.
abbrev pub concat : List Text → Text
concat [] = []
concat (t ∷ []) = t
concat (t ∷ u ∷ ts) = t ++ concat (u ∷ ts)

run_string : RunEvent → Text
run_string e =
    let attachment : Text = if e.attached then codes "attached" else codes "detached" in
    let action : Text = if e.finished then codes "ran" else codes "started running" in
    let msg : Text = concat (
      e.user
      ∷ codes " "
      ∷ action
      ∷ codes " `"
      ∷ command_string e.command
      ∷ codes "` ("
      ∷ attachment
      ∷ codes ") on "
      ∷ e.app
      ∷ []) in
    let linked : Text = concat (msg ∷ codes " (<" ∷ e.url ∷ codes "|logs>)" ∷ []) in
    append_commit_message (if is_empty e.url then msg else linked) e.message

restart_string : RestartEvent → Text
restart_string e =
    append_commit_message
      (if is_empty e.pid
        then concat (e.user ∷ codes " restarted " ∷ e.app ∷ [])
        else concat (e.user ∷ codes " restarted `" ∷ e.pid ∷ codes "` on " ∷ e.app ∷ []))
      e.message

maintenance_string : MaintenanceEvent → Text
maintenance_string e =
    let state : Text = if e.maintenance then codes "enabled" else codes "disabled" in
    append_commit_message
      (concat (e.user ∷ codes " " ∷ state ∷ codes " maintenance mode on " ∷ e.app ∷ [])) e.message

-- A limit that is not set keeps its previous value.
unfoldable pub new_constraints : ScaleEventUpdate → Constraints
new_constraints up = record {
  cpu_share =
      if eqb_ℤ up.constraints.cpu_share (pos 0)
      then up.previous_constraints.cpu_share
      else up.constraints.cpu_share;
  memory =
      if up.constraints.memory == 0 then up.previous_constraints.memory else up.constraints.memory;
  nproc = if up.constraints.nproc == 0 then up.previous_constraints.nproc else up.constraints.nproc;
}

module _ (constraints_string : Constraints → Text) where
  -- One round of the loop, with the separator that stands before it. `Constraints.String`, which
  -- prints floating point numbers, is the parameter `constraints_string`.
  scale_line : ScaleEvent → Text → ScaleEventUpdate → Text
  scale_line e sep up = concat (
      sep
      ∷ e.user
      ∷ codes " scaled `"
      ∷ up.process
      ∷ codes "` on "
      ∷ e.app
      ∷ codes " from "
      ∷ format_int up.previous_quantity
      ∷ codes "("
      ∷ constraints_string up.previous_constraints
      ∷ codes ") to "
      ∷ format_int up.quantity
      ∷ codes "("
      ∷ constraints_string (new_constraints up)
      ∷ codes ")"
      ∷ [])

  scale_lines : ScaleEvent → Text → Text → List ScaleEventUpdate → Text
  unfolding scale_line
  scale_lines e msg sep [] = msg
  scale_lines e msg sep (up ∷ ups) = scale_lines e (msg ++ scale_line e sep up) (10 ∷ []) ups

  scale_string : ScaleEvent → Text
  unfolding scale_lines
  scale_string e = append_commit_message (scale_lines e [] [] e.updates) e.message

  deploy_string : DeployEvent → Text
  deploy_string e =
      append_commit_message
        (if is_empty e.app
          then concat (e.user ∷ codes " deployed " ∷ e.image ∷ [])
          else concat (
              e.user
              ∷ codes " deployed "
              ∷ e.image
              ∷ codes " to "
              ∷ e.app
              ∷ codes " "
              ∷ e.environment
              ∷ codes " (v"
              ∷ format_nat e.release
              ∷ codes ")"
              ∷ []))
        e.message

  rollback_string : RollbackEvent → Text
  rollback_string e =
      append_commit_message
        (concat
          (e.user ∷ codes " rolled back " ∷ e.app ∷ codes " to v" ∷ format_nat e.version ∷ []))
        e.message

  set_string : SetEvent → Text
  set_string e =
      append_commit_message
        (concat (
          e.user
          ∷ codes " changed environment variables on "
          ∷ e.app
          ∷ codes " ("
          ∷ join e.changed (codes ", ")
          ∷ codes ")"
          ∷ []))
        e.message

  -- `String()`
  unfoldable pub event_string : Event → Text
  unfolding run_string restart_string maintenance_string scale_string deploy_string rollback_string
      set_string
  event_string (run e) = run_string e
  event_string (restart e) = restart_string e
  event_string (maintenance e) = maintenance_string e
  event_string (scale e) = scale_string e
  event_string (deploy e) = deploy_string e
  event_string (rollback e) = rollback_string e
  event_string (set e) = set_string e
  event_string (create e) =
      append_commit_message (concat (e.user ∷ codes " created " ∷ e.name ∷ [])) e.message
  event_string (destroy e) =
      append_commit_message (concat (e.user ∷ codes " destroyed " ∷ e.app ∷ [])) e.message
