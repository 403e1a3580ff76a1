-- ===== src/Processes/Tests.antt =====
-- The theorems on formations at concrete processes.
use empire.Prelude.{◌≡◌, ◌↔◌, refl, true, false, none, some, [], ◌∷◌, arith}
use empire.Prelude.Int.{pos}
use empire.Prelude.Text.{codes, text_eq}
use empire.Prelude.Dict.{lookup}
use empire.Processes.{
  Process, Formation, zero_process, check_process, check_formation, merge, non_service_scaled,
  not_valid,
}
use empire.Processes.Merge.{inherited, lookup-merge}

abbrev web : Process
web = record zero_process { command = codes "./bin/web" ∷ [] }

abbrev scaled_web : Process
scaled_web = record zero_process {
  quantity = pos 5;
  constraints = record { cpu_share = pos 512; memory = 1073741824; nproc = 0 };
}

abbrev next : Formation
next = (codes "web", web) ∷ (codes "worker", web) ∷ []

abbrev current : Formation
current = (codes "cron", scaled_web) ∷ (codes "web", scaled_web) ∷ []

keeps_scale :
    lookup (codes "web") (merge next current)
    ≡ some (record web {
      quantity = pos 5;
      constraints = record { cpu_share = pos 512; memory = 1073741824; nproc = 0 };
    })
unfolding merge lookup empire.Prelude.Dict.insert text_eq empire.Processes.merge_process
keeps_scale = refl

abbrev scaled_run : Formation
scaled_run = (codes "run", record scaled_web { no_service = true }) ∷ []

invalid_run : check_formation scaled_run ≡ some (not_valid (codes "run") non_service_scaled)
unfolding check_formation check_process
invalid_run = refl

lookup-merge_example :
    lookup (codes "web") (merge next current)
    ≡ inherited (codes "web") (lookup (codes "web") next) (lookup (codes "web") current)
lookup-merge_example = lookup-merge next current (codes "web") ((cc, tt), (tt, tt))
