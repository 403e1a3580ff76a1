-- ===== src/Services/Apps.antt =====
-- The service of apps and that of certificates (apps.go, certs.go).
use empire.Prelude.{Option, none, some, List, [], ◌∷◌, ◌++◌, if◌then◌else◌, Result, ok, err, map}
use empire.Prelude.Int.{ℤ, pos}
use empire.Prelude.Text.{Text, codes, is_empty}
use empire.Prelude.Dict.{Dict, lookup, insert}
use empire.Constraints.{Constraints}
use empire.Processes.{Process, Formation, set_constraints}
use empire.Apps.{App, User, new_app, before_create, app_name_from_repo}
use empire.Events
use empire.Events.{Event, ScaleEvent, ScaleEventUpdate}
use empire.Releases.{Release, entries, web_process_type}
use empire.Store.{
  Answer, record_not_found, AppsQuery, any_app, apps_scope, empty_query, order_by, composed_scope,
  of_app,
}
use empire.Services.Exec.{
  Error, store, validation, app, no_releases, publish, stop, remove, Empire, Exec, ◌>>=◌, ◌>>◌,
  pure, raise, ask, attempt, write, lift, act, get_log,
}
use empire.Services.Releases.{releases_find, release_it, release_app, restart_app}

-- `ProcessUpdate`, `ScaleOpts`, `RestartOpts` and `CertsAttachOpts` (empire.go)
pub record ProcessUpdate : Type 0 where
  pub process : Text
  pub quantity : ℤ
  pub constraints : Option Constraints

pub record ScaleOpts : Type 0 where
  pub user : User
  pub app : App
  pub updates : List ProcessUpdate
  pub message : Text

pub record RestartOpts : Type 0 where
  pub user : User
  pub app : App
  pub pid : Text
  pub message : Text

pub record CertsAttachOpts : Type 0 where
  pub cert : Text
  pub app : App
  pub process : Text

abbrev no_constraints : Constraints
no_constraints = record { cpu_share = pos 0; memory = 0; nproc = 0 }

abbrev given_constraints : Option Constraints → Constraints
given_constraints none = no_constraints
given_constraints (some c) = c

unfoldable pub update_event : ProcessUpdate → ScaleEventUpdate
update_event up = record {
  process = up.process;
  quantity = up.quantity;
  previous_quantity = pos 0;
  constraints = given_constraints up.constraints;
  previous_constraints = no_constraints;
}

-- `ScaleOpts.Event`
unfoldable pub scale_event : ScaleOpts → ScaleEvent
unfolding update_event
scale_event opts = record {
  user = opts.user.name;
  app = opts.app.name;
  updates = map update_event opts.updates;
  message = opts.message;
  subject = some opts.app;
}

-- The new quantity, and the new limits if there are any.
abbrev with_limits : Process → Option Constraints → Process
with_limits p none = p
with_limits p (some c) = set_constraints p c

unfoldable pub scale_process : Process → ProcessUpdate → Process
unfolding set_constraints
scale_process p up = with_limits (record p { quantity = up.quantity }) up.constraints

-- The event of an update, with the previous values that the loop fills in.
unfoldable pub scaled_event : Process → ProcessUpdate → ScaleEventUpdate
unfolding update_event
scaled_event p up = record (update_event up) {
  previous_quantity = p.quantity;
  previous_constraints = p.constraints;
}

abbrev no_process : Text → Error
no_process t = validation (codes "no " ++ (t ++ codes " process type in release"))

-- The loop of `Scale`: the formation, the updates of the event and the processes that it returns.
unfoldable pub scale_loop :
    Formation → List ProcessUpdate → Result Error (Formation × List ScaleEventUpdate × List Process)
scale_loop f [] = ok (f, [], [])
scale_loop f (up ∷ ups) = elim (lookup up.process f) [
  | none ↦ err (no_process up.process)
  | some p ↦ elim (scale_loop (insert up.process (scale_process p up) f) ups) [
    | err x ↦ err x
    | ok (g, events, ps) ↦ ok (g, scaled_event p up ∷ events, scale_process p up ∷ ps)
  ]
]

-- A formation that is nil stays nil: it has no process to update.
abbrev formation_with : Option Formation → Formation → Option Formation
formation_with none f = none
formation_with (some _) f = some f

abbrev forgiven : Result Error (Unit {0}) → Result Error (Unit {0})
forgiven (err no_releases) = ok tt
forgiven (err x) = err x
forgiven (ok _) = ok tt

-- The release with the formation that the loop leaves.
abbrev pub with_formation : Release → Formation → Release
with_formation r f = record r { formation = formation_with r.formation f }

module _ (e : Empire) where
  unfoldable pub apps_find : AppsQuery → Exec e App
  apps_find q = ask (e.gorm.first_app (apps_scope q empty_query))

  unfoldable pub apps_list : AppsQuery → Exec e (List App)
  apps_list q =
      ask (
        e.gorm.find_apps (composed_scope (order_by (codes "name") ∷ apps_scope q ∷ []) empty_query))

  -- `appsCreate`: gorm calls the hook, and inserts the app if it returns no error.
  unfoldable pub apps_create : App → Exec e App
  apps_create a = do
    log ← get_log e
    checked ← lift app (before_create (e.world.now log) a)
    write (e.gorm.insert_app checked)

  unfoldable pub apps_update : App → Exec e (Unit {0})
  apps_update a = write (e.gorm.save_app a)

  unfoldable pub apps_destroy : App → Exec e (Unit {0})
  apps_destroy a = do
    log ← get_log e
    apps_update (record a { deleted_at = some (e.world.now log) })

  -- `appsEnsureRepo`, with the app that its pointer then has
  unfoldable pub apps_ensure_repo : App → Text → Exec e App
  apps_ensure_repo a repo = elim (a.repo) [
    | some _ ↦ pure a
    | none ↦ (apps_update (record a { repo = some repo }) >> pure (record a { repo = some repo }))
  ]

  unfoldable pub app_of_repo : Text → Answer App → Exec e App
  app_of_repo repo (ok a) = apps_ensure_repo a repo
  app_of_repo repo (err record_not_found) =
      apps_create (new_app (app_name_from_repo repo) (some repo))
  app_of_repo repo (err x) = raise (store x)

  -- `appsFindOrCreateByRepo`
  unfoldable pub apps_find_or_create_by_repo : Text → Exec e App
  unfolding app_of_repo
  apps_find_or_create_by_repo repo = do
    found ← attempt (
        e.gorm.first_app
          (apps_scope (record any_app { name = some (app_name_from_repo repo) }) empty_query))
    app_of_repo repo found

  -- `appsService.Destroy`
  unfoldable pub destroy : App → Exec e (Unit {0})
  destroy a = do apps_destroy a; act e (remove a.id)

  -- `appsService.Restart`
  unfoldable pub restart_processes : RestartOpts → Exec e (Unit {0})
  restart_processes opts =
      if is_empty opts.pid then restart_app e opts.app else act e (stop opts.pid)

  -- `appsService.Scale`, once the release is saved
  unfoldable pub scale_saved :
      ScaleOpts → Release → Formation × List ScaleEventUpdate × List Process → Exec e (List Process)
  scale_saved opts current scaled = do
    release_it e (with_formation current scaled.0)
    act e (publish (Events.scale (record (scale_event opts) { updates = scaled.1 })))
    pure scaled.2

  -- The same, once the release is found
  unfoldable pub scale_release : ScaleOpts → Release → Exec e (List Process)
  scale_release opts current = do
    scaled ← lift (λ x. x) (scale_loop (entries current.formation) opts.updates)
    write (e.gorm.save_release (with_formation current scaled.0))
    scale_saved opts current scaled

  -- `appsService.Scale`
  unfoldable pub scale : ScaleOpts → Exec e (List Process)
  scale opts = do current ← releases_find e (of_app opts.app); scale_release opts current

  abbrev certs_or_empty : Option (Dict Text) → Dict Text
  certs_or_empty none = []
  certs_or_empty (some certs) = certs

  -- The app with the certificate, and the process that is "web" if none is named.
  unfoldable pub attach_cert : CertsAttachOpts → App
  attach_cert opts = record (opts.app) {
    certs = some (
        insert (if is_empty opts.process then web_process_type else opts.process) opts.cert
          (certs_or_empty opts.app.certs));
  }

  -- Without a release there is nothing to submit, and no error.
  unfoldable pub unless_no_releases : Exec e (Unit {0}) → Exec e (Unit {0})
  unless_no_releases m w = let (r, w') = m w in (forgiven r, w')

  -- `CertsAttach`
  unfoldable pub certs_attach : CertsAttachOpts → Exec e (Unit {0})
  certs_attach opts = do
    apps_update (attach_cert opts)
    unless_no_releases (release_app e (attach_cert opts))
