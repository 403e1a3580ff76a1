-- ===== src/Api/Tests.antt =====
-- Calls against the database in memory.
use empire.Prelude.{
  ℕ, ◌≡◌, refl, arith, ◌+◌, Bool-cases, inl, inr, true, false, Option, none, some, List, [], ◌∷◌,
  Result, ok, err,
}
use empire.Prelude.Int.{pos}
use empire.Prelude.Text.{Text, codes, text_eq}
use empire.Configs.{Config}
use empire.Releases.{Release}
use empire.Store.{Gorm, record_not_found, at_version, releases_scope}
use empire.Store.Memory.{memory, memory_laws}
use empire.Services.Exec.{
  Error, store, message_required, validation, Action, Outside, AllowedCommands,
  allow_command_procfile, Empire, World,
}
use empire.Services.Ordered.{Ordered}
use empire.Services.History.{ExtendsAll}
use empire.Services.Created.{NextVersion}
use empire.Services.Releases.{RollbackOpts, newest, release_query}
use empire.Services.Apps.{ScaleOpts}
use empire.Services.Sample.{server, user, acme, formation, release, deployed_world, fresh_world}
use empire.Api.{CreateOpts, SetMaintenanceModeOpts, rollback, set_maintenance_mode}
use empire.Api.Calls.{maintaining, rolling_back, scaling, serve, serve_all}
use empire.Api.Messages.{serve-empty_message}
use empire.Api.Versions.{serve_all-Ordered, serve_all-ExtendsAll}
use empire.Api.Rollback.{rolled_back, rollback-made}
use empire.Api.Atomicity.{RollsBack, serve-failed, set_maintenance_mode-lost}

abbrev back : RollbackOpts
back = record { user = user; app = acme; version = 1; message = codes "oops" }

abbrev maintenance_on : SetMaintenanceModeOpts
maintenance_on = record { user = user; app = acme; maintenance = true; message = codes "upgrade" }

abbrev no_scale : ScaleOpts
no_scale = record { user = user; app = acme; updates = []; message = codes "none" }

serve-empty_message_example :
    serve server (rolling_back (record back { message = [] })) deployed_world
    ≡ (some message_required, deployed_world)
serve-empty_message_example =
    serve-empty_message server refl (rolling_back (record back { message = [] })) deployed_world
      refl

deployed_world-Ordered : Ordered memory_laws deployed_world.db
unfolding memory_laws
deployed_world-Ordered id = elim (Bool-cases (text_eq (codes "1") id)) [
  | inl t ↦ rw t ((omega arith, tt), (tt, tt))
  | inr f ↦ rw f tt
]

serve_all-Ordered_example :
    Ordered memory_laws
      (serve_all server
        (rolling_back back ∷ scaling no_scale ∷ maintaining maintenance_on ∷ [])
        deployed_world).db
serve_all-Ordered_example =
    serve_all-Ordered memory_laws
      (rolling_back back ∷ scaling no_scale ∷ maintaining maintenance_on ∷ []) deployed_world
      deployed_world-Ordered

serve_all-ExtendsAll_example :
    ExtendsAll memory_laws deployed_world.db
      (serve_all server
        (rolling_back back ∷ scaling no_scale ∷ maintaining maintenance_on ∷ [])
        deployed_world).db
serve_all-ExtendsAll_example =
    serve_all-ExtendsAll memory_laws
      (rolling_back back ∷ scaling no_scale ∷ maintaining maintenance_on ∷ []) deployed_world
      deployed_world-Ordered

-- The row of the first release, with the id that the database gave it
abbrev found : Release
found = record (release 1) { id = [] }

abbrev rolled : Release
rolled = rolled_back back found formation (record found { id = codes "11" }) 3 (some 7)

rolled_returns : (rollback server back deployed_world).0 ≡ ok rolled
unfolding rollback empire.Services.Releases.release_query empire.Store.releases_scope text_eq
    empire.Services.Exec.◌>>=◌ empire.Api.require_messages empire.Services.Exec.pure
    empire.Services.Exec.in_transaction empire.Services.Releases.rollback
    empire.Services.Releases.releases_find empire.Services.Exec.ask
    empire.Services.Releases.create_and_release empire.Services.Releases.create
    empire.Services.Exec.write empire.Services.Releases.releases_create
    empire.Services.Releases.releases_last_version empire.Services.Exec.get_log
    empire.Services.Releases.release_it empire.Configs.append_message_to_description
    empire.Prelude.Dict.insert empire.Prelude.Dict.lookup empire.Prelude.Int.to_uint
    empire.Prelude.Text.Decimal.format_int empire.Prelude.Text.Decimal.format_nat
    empire.Releases.app_env empire.Releases.cert_of empire.Releases.entries
    empire.Releases.environment empire.Releases.exposed_ports empire.Releases.is_submitted
    empire.Releases.new_scheduler_app empire.Releases.new_scheduler_process
    empire.Releases.process_exposure empire.Releases.scheduler_processes
    empire.Releases.standard_web_exposure empire.Releases.version_string empire.Services.Exec.act
    empire.Services.Exec.lift empire.Services.Releases.formed
    empire.Services.Releases.rollback_release empire.Store.composed_scope empire.Store.field_equals
    empire.Store.in_range empire.Store.limit_to empire.Store.order_by empire.Store.preload
    empire.Store.with_defaults empire.Twelvefactor.copy_into
rolled_returns = refl

first_version :
    memory.first_release (release_query (releases_scope (at_version acme 1))) deployed_world.db
    ≡ ok found
unfolding release_query releases_scope text_eq
first_version = refl

rollback-made_example :
    (rolled
      ≡ rolled_back back found formation rolled
          (newest (memory_laws.versions deployed_world.db (codes "1")) + 1)
          (some 7))
    × NextVersion memory_laws
        (codes "1")
        deployed_world.db
        (rollback server back deployed_world).1.db
rollback-made_example =
    rollback-made memory_laws back found formation rolled deployed_world deployed_world-Ordered
      first_version refl rolled_returns

rows-RollsBack : RollsBack memory (λ d. d)
rows-RollsBack = record { after_rollback = λ d t. refl; after_abort = λ d t x q. ground (arith, q) }

serve-failed_example : (serve server (scaling no_scale) fresh_world).1.db ≡ fresh_world.db
unfolding serve empire.Api.scale empire.Services.Exec.◌>>=◌ empire.Api.require_messages
    empire.Services.Exec.pure empire.Services.Exec.in_transaction empire.Services.Apps.scale
    empire.Services.Releases.releases_find empire.Services.Exec.ask
serve-failed_example =
    serve-failed rows-RollsBack (scaling no_scale) fresh_world (store record_not_found) refl refl

set_maintenance_mode-lost_example :
    ((set_maintenance_mode server maintenance_on fresh_world).0 ≡ ok tt)
    × ((set_maintenance_mode server maintenance_on fresh_world).1.log ≡ fresh_world.log)
    × ((set_maintenance_mode server maintenance_on fresh_world).1.db ≡ fresh_world.db)
set_maintenance_mode-lost_example =
    set_maintenance_mode-lost rows-RollsBack maintenance_on fresh_world refl refl refl
