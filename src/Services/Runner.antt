-- ===== src/Services/Runner.antt =====
-- The service of one-off processes (runner.go).
use empire.Prelude.{false, Option, none, some, [], ◌∷◌, ◌++◌, map, Result, ok, err}
use empire.Prelude.Int.{pos}
use empire.Prelude.Text.{Text, codes}
use empire.Prelude.Dict.{Dict, lookup, insert}
use empire.Constraints.{Constraints, default_constraints}
use empire.Processes.{Command, Process, Formation, zero_process, set_constraints}
use empire.Apps.{App, User}
use empire.Twelvefactor
use empire.Twelvefactor.{Stream, Manifest, copy_into}
use empire.Releases.{Release, entries, new_scheduler_app}
use empire.Store.{of_app}
use empire.Services.Exec.{
  Error, release, command_not_allowed, panics, run, AllowedCommands, allow_command_any,
  allow_command_procfile, Empire, Exec, ◌>>=◌, raise, lift, act,
}
use empire.Services.Releases.{releases_find}

-- `RunOpts` (empire.go)
pub record RunOpts : Type 0 where
  pub user : User
  pub app : App
  pub command : Command
  pub message : Text
  pub stdin : Option Stream
  pub stdout : Option Stream
  pub stderr : Option Stream
  pub env : Dict Text
  pub constraints : Option Constraints

abbrev generic_process_name : Text
generic_process_name = codes "run"

-- The name and the process that a command asks for, before its size is set.
unfoldable pub run_process :
    AllowedCommands → Formation → Text → Command → Result Error (Text × Process)
run_process allowed f name args = elim (lookup name f) [
  | some p ↦ ok (name, record p { command = p.command ++ args; no_service = false })
  | none ↦ elim allowed [
    | allow_command_procfile ↦ err (command_not_allowed (name ∷ []))
    | allow_command_any ↦ ok (
      generic_process_name,
      set_constraints (record zero_process { command = name ∷ args }) default_constraints,
    )
  ]
]

abbrev pub sized : Process → Option Constraints → Process
sized p none = p
sized p (some c) = set_constraints p c

-- What the loop over the manifest's processes adds to each.
unfoldable pub attach : RunOpts → Twelvefactor.Process → Twelvefactor.Process
attach opts p = record p {
  stdin = opts.stdin;
  stdout = opts.stdout;
  stderr = opts.stderr;
  labels = insert (codes "empire.user") opts.user.name p.labels;
  env = copy_into p.env opts.env;
}

abbrev pub attach_all : RunOpts → Manifest → Manifest
attach_all opts m = record m { processes = map (attach opts) m.processes }

-- The release with the one process that is run.
abbrev pub one_process : Release → Text → Process → Release
one_process r name p = record r { formation = some ((name, p) ∷ []) }

module _ (e : Empire) where
  unfoldable pub run_command : RunOpts → Release → Command → Exec e (Unit {0})
  run_command opts r [] = raise panics
  run_command opts r (name ∷ args) = do
    found ← lift (λ x. x) (run_process e.allowed_commands (entries r.formation) name args)
    m ← lift release (
        new_scheduler_app
          (one_process r found.0 (sized (record found.1 { quantity = pos 1 }) opts.constraints)))
    act e (run (attach_all opts m))

  -- `runnerService.Run`
  unfoldable pub run_once : RunOpts → Exec e (Unit {0})
  unfolding run_command
  run_once opts = do r ← releases_find e (of_app opts.app); run_command opts r opts.command
