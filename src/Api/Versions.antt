-- ===== src/Api/Versions.antt =====
-- The versions of releases under any sequence of calls of the operations of empire.go.
use empire.Prelude.{refl, Option, none, some, List, [], ◌∷◌, Result, ok, err}
use empire.Prelude.Text.{Text}
use empire.Apps.{App}
use empire.Events.{RunEvent}
use empire.Store.{Domain}
use empire.Store.Laws.{VersionLaws}
use empire.Services.Exec.{
  Error, no_releases, store, validation, message_required, domain_in_use, domain_already_added,
  command_not_allowed, app, release, registry, procfile, outside, panics, Action, Empire, World,
  Exec,
}
use empire.Services.Keeps.{Keeps, keeps_rules}
use empire.Services.Ordered.{Ordered, VersionInvariant, Ordered-VersionInvariant}
use empire.Services.History.{ExtendsAll, History-VersionInvariant}
use empire.Services.Numbering.{
  release_app-Keeps, rollback-Keeps, current_formation-Keeps, apps_create-Keeps, apps_update-Keeps,
  destroy-Keeps, restart_processes-Keeps, scale-Keeps, certs_attach-Keeps,
}
use empire.Services.Numbering.Clients.{
  config-Keeps, set-Keeps, domains_create-Keeps, domains_destroy-Keeps, run_once-Keeps,
  deploy-Keeps,
}
use empire.Services.Releases.{RollbackOpts}
use empire.Services.Apps.{ScaleOpts, RestartOpts, CertsAttachOpts}
use empire.Services.Configs.{SetOpts}
use empire.Services.Runner.{RunOpts}
use empire.Services.Deployer.{DeployOpts}
use empire.Api.Calls.{
  Call, serve, serve_all, creating, destroying, reading_config, maintaining, setting,
  creating_domain, destroying_domain, restarting, running, rolling_back, deploying, scaling,
  listing_scale, attaching_certs,
}
use empire.Api.{
  CreateOpts, DestroyOpts, SetMaintenanceModeOpts, require_messages, create, destroy, config,
  maintain, publish_maintenance, after_maintain, caught, set_maintenance_mode, set, domains_create,
  domains_destroy, restart, record_run, run, rollback, deploy, scale, list_scale, attach_certs,
}

module _ {e : Empire} (l : VersionLaws e.gorm) {P : e.gorm.Db → Type 0}
    (v : VersionInvariant e l P) where
  require_messages-Keeps : (t : Text) → Keeps P (require_messages e t)
  unfolding require_messages
  require_messages-Keeps t = search keeps_rules

  publish_maintenance-Keeps : (o : SetMaintenanceModeOpts) → Keeps P (publish_maintenance e o)
  unfolding publish_maintenance
  publish_maintenance-Keeps o = search keeps_rules

  ruleset checked = (keeps_rules, require_messages-Keeps)

  maintain-Keeps : (o : SetMaintenanceModeOpts) → Keeps P (maintain e o)
  unfolding maintain
  maintain-Keeps o = search (keeps_rules, apps_update-Keeps, release_app-Keeps)

  after_maintain-Keeps :
      (o : SetMaintenanceModeOpts) (x : Result Error (Unit {0})) → Keeps P (after_maintain e o x)
  unfolding after_maintain
  after_maintain-Keeps o (ok u) = publish_maintenance-Keeps o
  after_maintain-Keeps o (err no_releases) = search keeps_rules
  after_maintain-Keeps o (err (store s)) = search keeps_rules
  after_maintain-Keeps o (err (validation t)) = search keeps_rules
  after_maintain-Keeps o (err message_required) = search keeps_rules
  after_maintain-Keeps o (err domain_in_use) = search keeps_rules
  after_maintain-Keeps o (err domain_already_added) = search keeps_rules
  after_maintain-Keeps o (err (command_not_allowed c)) = search keeps_rules
  after_maintain-Keeps o (err (app a)) = search keeps_rules
  after_maintain-Keeps o (err (release r)) = search keeps_rules
  after_maintain-Keeps o (err (registry r)) = search keeps_rules
  after_maintain-Keeps o (err (procfile p)) = search keeps_rules
  after_maintain-Keeps o (err (outside t)) = search keeps_rules
  after_maintain-Keeps o (err panics) = search keeps_rules

  caught-Keeps :
      {A : Type 0} (m : Exec e A) (f : Result Error A → Exec e (Unit {0}))
      → Keeps P m
      → ((x : Result Error A) → Keeps P (f x))
      → Keeps P (caught e m f)
  unfolding caught
  caught-Keeps m f km kf = record { at = λ w h. let (r, w') = m w in (kf r).at w' (km.at w h) }

  ready-Keeps :
      (x : Option (List Action → Result Text (Option Text))) (o : RunOpts) (v : RunEvent)
      → Keeps P (record_run e x o v)
  unfolding record_run
  ready-Keeps none o v = search keeps_rules
  ready-Keeps (some f) o v = search keeps_rules depth 12

  create_call-Keeps : (o : CreateOpts) → Keeps P (create e o)
  unfolding create
  create_call-Keeps o = search (checked, apps_create-Keeps)

  destroy_call-Keeps : (o : DestroyOpts) → Keeps P (destroy e o)
  unfolding destroy
  destroy_call-Keeps o = search (checked, destroy-Keeps)

  config_call-Keeps : (o : App) → Keeps P (config e o)
  unfolding config
  config_call-Keeps o = search (checked, config-Keeps)

  set_maintenance_mode_call-Keeps :
      (o : SetMaintenanceModeOpts) → Keeps P (set_maintenance_mode e o)
  unfolding set_maintenance_mode
  set_maintenance_mode_call-Keeps o =
      search (checked, maintain-Keeps, caught-Keeps, after_maintain-Keeps)

  set_call-Keeps : (o : SetOpts) → Keeps P (set e o)
  unfolding set
  set_call-Keeps o = search (checked, set-Keeps)

  domains_create_call-Keeps : (o : Domain) → Keeps P (domains_create e o)
  unfolding domains_create
  domains_create_call-Keeps o = search (checked, domains_create-Keeps)

  domains_destroy_call-Keeps : (o : Domain) → Keeps P (domains_destroy e o)
  unfolding domains_destroy
  domains_destroy_call-Keeps o = search (checked, domains_destroy-Keeps)

  restart_call-Keeps : (o : RestartOpts) → Keeps P (restart e o)
  unfolding restart
  restart_call-Keeps o = search (checked, restart_processes-Keeps)

  run_call-Keeps : (o : RunOpts) → Keeps P (run e o)
  unfolding run
  run_call-Keeps o = search (checked, ready-Keeps, run_once-Keeps) depth 14

  rollback_call-Keeps : (o : RollbackOpts) → Keeps P (rollback e o)
  unfolding rollback
  rollback_call-Keeps o = search (checked, rollback-Keeps)

  deploy_call-Keeps : (o : DeployOpts) → Keeps P (deploy e o)
  unfolding deploy
  deploy_call-Keeps o = search (checked, deploy-Keeps)

  scale_call-Keeps : (o : ScaleOpts) → Keeps P (scale e o)
  unfolding scale
  scale_call-Keeps o = search (checked, scale-Keeps)

  list_scale_call-Keeps : (o : App) → Keeps P (list_scale e o)
  unfolding list_scale
  list_scale_call-Keeps o = search (checked, current_formation-Keeps)

  attach_certs_call-Keeps : (o : CertsAttachOpts) → Keeps P (attach_certs e o)
  unfolding attach_certs
  attach_certs_call-Keeps o = search (checked, certs_attach-Keeps)

  serve-Keeps : (c : Call) (w : World e) → P w.db → P (serve e c w).1.db
  unfolding serve
  serve-Keeps (creating o) w h = (create_call-Keeps o).at w h
  serve-Keeps (destroying o) w h = (destroy_call-Keeps o).at w h
  serve-Keeps (reading_config o) w h = (config_call-Keeps o).at w h
  serve-Keeps (maintaining o) w h = (set_maintenance_mode_call-Keeps o).at w h
  serve-Keeps (setting o) w h = (set_call-Keeps o).at w h
  serve-Keeps (creating_domain o) w h = (domains_create_call-Keeps o).at w h
  serve-Keeps (destroying_domain o) w h = (domains_destroy_call-Keeps o).at w h
  serve-Keeps (restarting o) w h = (restart_call-Keeps o).at w h
  serve-Keeps (running o) w h = (run_call-Keeps o).at w h
  serve-Keeps (rolling_back o) w h = (rollback_call-Keeps o).at w h
  serve-Keeps (deploying o) w h = (deploy_call-Keeps o).at w h
  serve-Keeps (scaling o) w h = (scale_call-Keeps o).at w h
  serve-Keeps (listing_scale o) w h = (list_scale_call-Keeps o).at w h
  serve-Keeps (attaching_certs o) w h = (attach_certs_call-Keeps o).at w h

  pub serve_all-Keeps : (cs : List Call) (w : World e) → P w.db → P (serve_all e cs w).db
  unfolding serve_all
  serve_all-Keeps [] w h = h
  serve_all-Keeps (c ∷ cs) w h = serve_all-Keeps cs ((serve e c w).1) (serve-Keeps c w h)

module _ {e : Empire} (l : VersionLaws e.gorm) (cs : List Call) (w : World e) where
  -- Where the database keeps `VersionLaws`: after any sequence of calls, each of which may return or
  -- fail, the versions of every app's releases go down from the newest row to the oldest, if they did
  -- before, so that no two are the same.
  pub serve_all-Ordered : Ordered l w.db → Ordered l (serve_all e cs w).db
  serve_all-Ordered h = serve_all-Keeps l (Ordered-VersionInvariant l) cs w h

  -- Where the database keeps `VersionLaws`: no sequence of calls takes a version of a release away. If
  -- the versions of every app's releases go down, each app has its versions as before, and perhaps
  -- others in front of them.
  pub serve_all-ExtendsAll : Ordered l w.db → ExtendsAll l w.db (serve_all e cs w).db
  serve_all-ExtendsAll h =
      (serve_all-Keeps l (History-VersionInvariant l w.db) cs w (h, λ id. ([], refl))).1
