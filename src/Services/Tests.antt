-- ===== src/Services/Tests.antt =====
-- Concrete runs of the loop of `Scale` and of a one-off process.
use empire.Prelude.{◌≡◌, ◌≢◌, ◌↔◌, ◌⊎◌, refl, arith, none, some, List, [], ◌∷◌, Result, ok, err}
use empire.Prelude.Int.{pos}
use empire.Prelude.Text.{codes, text_eq}
use empire.Prelude.Dict.{lookup}
use empire.Releases.{Release}
use empire.Processes.{Process}
use empire.Store.{of_app, releases_scope}
use empire.Services.Releases.{release_query}
use empire.Services.Apps.{ProcessUpdate, scale_process, scale_loop}
use empire.Services.Runner.{RunOpts, run_once}
use empire.Services.Scaling.{Scaled, AllNamed, updated_entry, lookup-scale_loop, scale_loop_total}
use empire.Services.Allowed.{RunsPermitted, run_once-RunsPermitted}
use empire.Services.Sample.{server, user, acme, worker, formation, deployed_world}

abbrev updates : List ProcessUpdate
updates =
    record { process = codes "worker"; quantity = pos 5; constraints = none }
    ∷ record { process = codes "worker"; quantity = pos 3; constraints = none }
    ∷ []

abbrev five : Process
five = record worker { quantity = pos 5 }

abbrev three : Process
three = record worker { quantity = pos 3 }

abbrev scaled : Scaled
scaled = (
  (codes "worker", three) ∷ [],
  record {
    process = codes "worker";
    quantity = pos 5;
    previous_quantity = pos 2;
    constraints = record { cpu_share = pos 0; memory = 0; nproc = 0 };
    previous_constraints = worker.constraints;
  }
      ∷ record {
        process = codes "worker";
        quantity = pos 3;
        previous_quantity = pos 5;
        constraints = record { cpu_share = pos 0; memory = 0; nproc = 0 };
        previous_constraints = worker.constraints;
      }
      ∷ [],
  five ∷ three ∷ [],
)

scale_loop_twice : scale_loop formation updates ≡ ok scaled
unfolding scale_loop lookup text_eq empire.Prelude.Dict.insert scale_process
    empire.Services.Apps.scaled_event
scale_loop_twice = refl

lookup-scale_loop_example :
    lookup (codes "worker") scaled.0
    ≡ updated_entry (codes "worker") updates (lookup (codes "worker") formation)
lookup-scale_loop_example =
    lookup-scale_loop updates formation scaled (codes "worker") scale_loop_twice

scale_loop_total_example :
    ((out : Scaled) × (scale_loop formation updates ≡ ok out)) ↔ AllNamed formation updates
scale_loop_total_example = scale_loop_total updates formation

abbrev shell : RunOpts
shell = record {
  user = user;
  app = acme;
  command = codes "bash" ∷ codes "-c" ∷ [];
  message = [];
  stdin = none;
  stdout = none;
  stderr = none;
  env = [];
  constraints = none;
}

run_once-RunsPermitted_example :
    ((run_once server shell deployed_world).1 ≡ deployed_world)
    ⊎ ((r : Release) × (server.gorm.first_release
            (release_query (releases_scope (of_app shell.app)))
            deployed_world.db
          ≡ ok r)
        × RunsPermitted server deployed_world
            (run_once server shell deployed_world).1
            r
            shell.command)
run_once-RunsPermitted_example = run_once-RunsPermitted server shell deployed_world
