-- ===== src/Api.antt =====
-- The public operations of Empire (empire.go), over the services.
pub mod Calls
pub mod Messages
pub mod Rollback
pub mod Versions
pub mod Atomicity
mod Tests
use empire.Prelude.{
  ℕ, Bool, true, false, ◌&&◌, ◌||◌, not, Option, none, some, List, [], ◌∷◌, ◌++◌, if◌then◌else◌,
  Result, ok, err,
}
use empire.Prelude.Text.{Text, codes, is_empty}
use empire.Prelude.Dict.{keys}
use empire.Image.{encode}
use empire.Processes.{Process, Formation, command_string}
use empire.Apps.{App, User, new_app}
use empire.Configs.{Config}
use empire.Events
use empire.Events.{RunEvent, DeployEvent, finish_run, append_commit_message, concat}
use empire.Releases.{Release}
use empire.Twelvefactor.{Stream, recorded}
use empire.Store.{Domain}
use empire.Services.Exec.{
  Error, message_required, no_releases, outside, Action, publish, record_line, Empire, World, Exec,
  ◌>>=◌, ◌>>◌, pure, raise, ask, attempt, write, lift, act, note, get_log, in_transaction,
}
use empire.Services
use empire.Services.Releases.{RollbackOpts, current_formation, release_app}
use empire.Services.Apps.{
  ScaleOpts, RestartOpts, CertsAttachOpts, apps_create, apps_update, certs_attach,
}
use empire.Services.Configs.{SetOpts}
use empire.Services.Runner.{RunOpts}
use empire.Services.Deployer.{DeployOpts}

pub record CreateOpts : Type 0 where
  pub user : User
  pub name : Text
  pub message : Text

pub record DestroyOpts : Type 0 where
  pub user : User
  pub app : App
  pub message : Text

pub record SetMaintenanceModeOpts : Type 0 where
  pub user : User
  pub app : App
  pub maintenance : Bool
  pub message : Text

-- `DeployOpts.Event`, and what `Deploy` adds to it: the name of an app that the deployment created.
-- The release points to the app of the options, if they have one.
unfoldable pub deploy_event : Text → DeployOpts → Release → DeployEvent
deploy_event environment opts r = elim (opts.app) [
  | some app ↦ record {
    user = opts.user.name;
    app = if is_empty app.name then r.app.name else app.name;
    image = encode opts.image;
    environment = environment;
    release = r.version;
    message = opts.message;
    subject = some r.app;
  }
  | none ↦ record {
    user = opts.user.name;
    app = r.app.name;
    image = encode opts.image;
    environment = environment;
    release = r.version;
    message = opts.message;
    subject = some r.app;
  }
]

abbrev is_given {ℓ} : {A : Type ℓ} → Option A → Bool
is_given none = false
is_given (some a) = true

-- `RunOpts.Event`
unfoldable pub run_event : RunOpts → RunEvent
run_event opts = record {
  user = opts.user.name;
  app = opts.app.name;
  command = opts.command;
  url = [];
  attached = is_given opts.stdout || is_given opts.stderr;
  message = opts.message;
  finished = false;
  subject = some opts.app;
}

abbrev record_stream : Option Stream → Option Stream
record_stream none = none
record_stream (some s) = some (recorded s)

abbrev with_url : RunEvent → Option Text → RunEvent
with_url event none = event
with_url event (some url) = record event { url = url }

unfoldable pub running_line : RunOpts → Text
running_line opts =
    append_commit_message
      (concat (
        codes "Running `"
        ∷ command_string opts.command
        ∷ codes "` on "
        ∷ opts.app.name
        ∷ codes " as "
        ∷ opts.user.name
        ∷ []))
      opts.message
    ++ (10 ∷ [])

module _ (e : Empire) where
  unfoldable pub require_messages : Text → Exec e (Unit {0})
  require_messages m = if e.messages_required && is_empty m then raise message_required else pure tt

  unfoldable pub create : CreateOpts → Exec e App
  create opts = do
    require_messages opts.message
    a ← apps_create e (new_app opts.name none)
    act e (
        publish (
          Events.create
            (record { user = opts.user.name; name = opts.name; message = opts.message })))
    pure a

  unfoldable pub destroy : DestroyOpts → Exec e (Unit {0})
  destroy opts = do
    require_messages opts.message
    in_transaction (Services.Apps.destroy e opts.app)
    act e (
        publish (
          Events.destroy
            (record { user = opts.user.name; app = opts.app.name; message = opts.message })))

  unfoldable pub config : App → Exec e Config
  config app = in_transaction (Services.Configs.config e app)

  -- The service calls inside the transaction of `SetMaintenanceMode`.
  unfoldable pub maintain : SetMaintenanceModeOpts → Exec e (Unit {0})
  maintain opts = do
    apps_update e (record (opts.app) { maintenance = opts.maintenance })
    release_app e (record (opts.app) { maintenance = opts.maintenance })

  -- `Event()` does not give the event its app.
  unfoldable pub publish_maintenance : SetMaintenanceModeOpts → Exec e (Unit {0})
  publish_maintenance opts = act e (
      publish (
        Events.maintenance (record {
          user = opts.user.name;
          app = opts.app.name;
          maintenance = opts.maintenance;
          message = opts.message;
          subject = none;
        })))

  -- After a rollback for want of a release there is no error and no event.
  unfoldable pub after_maintain :
      SetMaintenanceModeOpts → Result Error (Unit {0}) → Exec e (Unit {0})
  after_maintain opts (ok _) = publish_maintenance opts
  after_maintain opts (err no_releases) = pure tt
  after_maintain opts (err x) = raise x

  unfoldable pub caught :
      {A : Type 0} → Exec e A → (Result Error A → Exec e (Unit {0})) → Exec e (Unit {0})
  caught m f w = let (r, w') = m w in f r w'

  unfoldable pub set_maintenance_mode : SetMaintenanceModeOpts → Exec e (Unit {0})
  unfolding caught after_maintain publish_maintenance
  set_maintenance_mode opts = do
    require_messages opts.message
    caught (in_transaction (maintain opts)) (after_maintain opts)

  unfoldable pub set : SetOpts → Exec e Config
  set opts = do
    require_messages opts.message
    c ← in_transaction (Services.Configs.set e opts)
    act e (
        publish (
          Events.set (record {
            user = opts.user.name;
            app = opts.app.name;
            changed = keys opts.vars;
            message = opts.message;
            subject = some opts.app;
          })))
    pure c

  unfoldable pub domains_create : Domain → Exec e Domain
  domains_create d = in_transaction (Services.Domains.domains_create e d)

  unfoldable pub domains_destroy : Domain → Exec e (Unit {0})
  domains_destroy d = in_transaction (Services.Domains.domains_destroy e d)

  unfoldable pub restart : RestartOpts → Exec e (Unit {0})
  restart opts = do
    require_messages opts.message
    Services.Apps.restart_processes e opts
    act e (
        publish (
          Events.restart (record {
            user = opts.user.name;
            app = opts.app.name;
            pid = opts.pid;
            message = opts.message;
            subject = some opts.app;
          })))

  -- The options and the event of a run whose output is recorded.
  unfoldable pub record_run :
      Option (List Action → Result Text (Option Text))
      → RunOpts
      → RunEvent
      → Exec e (RunOpts × RunEvent)
  record_run none opts event = pure (opts, event)
  record_run (some recorder) opts event =
      if event.attached
      then (do
        log ← get_log e
        url ← lift outside (recorder log)
        note e (record_line (running_line opts))
        pure (
          record opts { stdout = record_stream opts.stdout; stderr = record_stream opts.stderr },
          with_url event url,
        ))
      else pure (opts, event)

  unfoldable pub run : RunOpts → Exec e (Unit {0})
  unfolding record_run running_line
  run opts = do
    require_messages opts.message
    ready ← record_run e.world.run_recorder opts (run_event opts)
    act e (publish (Events.run ready.1))
    Services.Runner.run_once e ready.0
    act e (publish (Events.run (finish_run ready.1)))

  unfoldable pub rollback : RollbackOpts → Exec e Release
  rollback opts = do
    require_messages opts.message
    r ← in_transaction (Services.Releases.rollback e opts)
    act e (
        publish (
          Events.rollback (record {
            user = opts.user.name;
            app = opts.app.name;
            version = opts.version;
            message = opts.message;
            subject = some opts.app;
          })))
    pure r

  unfoldable pub deploy : DeployOpts → Exec e Release
  deploy opts = do
    require_messages opts.message
    r ← Services.Deployer.deploy e opts
    act e (publish (Events.deploy (deploy_event e.environment opts r)))
    pure r

  unfoldable pub scale : ScaleOpts → Exec e (List Process)
  scale opts = do require_messages opts.message; in_transaction (Services.Apps.scale e opts)

  unfoldable pub list_scale : App → Exec e (Option Formation)
  list_scale app = current_formation e app

  unfoldable pub attach_certs : CertsAttachOpts → Exec e (Unit {0})
  attach_certs opts = in_transaction (certs_attach e opts)
