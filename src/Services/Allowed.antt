-- ===== src/Services/Allowed.antt =====
-- `AllowCommandProcfile` (runner.go): which commands may run.
use empire.Prelude.{
  ◌≡◌, ◌≢◌, ◌⊎◌, refl, arith, none, Option-cases, [], ◌∷◌, ◌++◌, inl, inr, ok, err, Result-cases,
}
use empire.Prelude.Text.{Text}
use empire.Prelude.Dict.{lookup}
use empire.Prelude.Int.{pos}
use empire.Twelvefactor.{Manifest}
use empire.Processes.{Process, Command, Formation}
use empire.Releases.{Release, entries, new_scheduler_app}
use empire.Store.{Answer, of_app, releases_scope}
use empire.Services.Exec.{
  AllowedCommands, allow_command_any, allow_command_procfile, Empire, World, run, ◌>>=◌, ask, lift,
  act, raise,
}
use empire.Services.Releases.{release_query, releases_find}
use empire.Services.Runner.{
  RunOpts, run_process, run_command, run_once, one_process, sized, attach_all,
}

-- The command may run: its first word is a process of the formation, or any command is allowed.
abbrev pub IsPermitted : AllowedCommands → Formation → Command → Type 0
IsPermitted allowed f [] = ⊥
IsPermitted allowed f (name ∷ args) = (lookup name f ≢ none) ⊎ (allowed ≡ allow_command_any)

IsPermitted-process :
    (allowed : AllowedCommands) (f : Formation) (name : Text) (args : Command)
    (out : Text × Process)
    → run_process allowed f name args ≡ ok out
    → IsPermitted allowed f (name ∷ args)
unfolding run_process
IsPermitted-process allow_command_any f name args out e = inr refl
IsPermitted-process allow_command_procfile f name args out e = elim (Option-cases (lookup name f)) [
  | inl n ↦ ground (arith, n, e)
  | inr (p, q) ↦ inl (λ n. cc)
]

-- What a run leaves: the world as it was, or one call of the scheduler more, for a permitted command.
abbrev pub RunsPermitted : (e : Empire) → World e → World e → Release → Command → Type 0
RunsPermitted e w after r command =
    (after ≡ w)
    ⊎ ((m : Manifest) × (after ≡ record w { log = w.log ++ run m ∷ [] })
        × IsPermitted e.allowed_commands (entries r.formation) command)

module _ (e : Empire) (opts : RunOpts) (r : Release) where
  run_command-RunsPermitted :
      (command : Command) (w : World e)
      → RunsPermitted e w (run_command e opts r command w).1 r command
  unfolding run_command ◌>>=◌ lift act raise
  run_command-RunsPermitted [] w = inl refl
  run_command-RunsPermitted (name ∷ args) w =
      elim (Result-cases (run_process e.allowed_commands (entries r.formation) name args)) [
        | inr (x, q) ↦ rw q (inl refl)
        | inl (found, q) ↦
            elim (Result-cases (
              new_scheduler_app (
                one_process r found.0
                  (sized (record found.1 { quantity = pos 1 }) opts.constraints)))) [
                    | inr (x, s) ↦ rw (q, s) (inl refl)
                    | inl (m, s) ↦
                        rw (q, s)
                          (inr (
                            attach_all opts m,
                            refl,
                            IsPermitted-process e.allowed_commands (entries r.formation) name args
                                found q,
                          ))
                  ]
      ]

run_answered :
    (e : Empire) (opts : RunOpts) (w : World e) (x : Answer Release)
    → e.gorm.first_release (release_query (releases_scope (of_app opts.app))) w.db ≡ x
    → ((run_once e opts w).1 ≡ w)
      ⊎ ((r : Release) × (e.gorm.first_release
              (release_query (releases_scope (of_app opts.app)))
              w.db
            ≡ ok r)
          × RunsPermitted e w (run_once e opts w).1 r opts.command)
unfolding run_once releases_find ◌>>=◌ ask
run_answered e opts w (err x) f = rw f (inl refl)
run_answered e opts w (ok r) f =
    rw f (inr (r, refl, run_command-RunsPermitted e opts r opts.command w))

-- However a one-off run ends, the database stays as it is, and at most one call is made: the scheduler is
-- sent a process only where the app has a last release, the command is not empty, and its first word is a
-- process of that release or any command is allowed.
pub run_once-RunsPermitted :
    (e : Empire) (opts : RunOpts) (w : World e)
    → ((run_once e opts w).1 ≡ w)
      ⊎ ((r : Release) × (e.gorm.first_release
              (release_query (releases_scope (of_app opts.app)))
              w.db
            ≡ ok r)
          × RunsPermitted e w (run_once e opts w).1 r opts.command)
run_once-RunsPermitted e opts w = run_answered e opts w _ refl
