-- ===== src/Releases.antt =====
-- Releases, and the manifest that a release sends to the scheduler (releases.go). The services on
-- them are in `Services`.
pub mod Exposed
pub mod Submitted
pub mod Variables
mod Tests
use empire.Prelude.{
  ℕ, Bool, true, false, not, ◌||◌, Option, none, some, List, [], ◌∷◌, ◌++◌, if◌then◌else◌, Result,
  ok, err, ◌>>=◌,
}
use empire.Prelude.Int.{ℤ, pos, ltb_ℤ, to_uint}
use empire.Prelude.Text.{Text, codes, text_eq}
use empire.Prelude.Text.Decimal.{format_nat, format_int}
use empire.Prelude.Dict.{Dict, lookup, insert}
use empire.Apps.{App, expose_public}
use empire.Configs.{Config, Vars}
use empire.Slugs.{Slug}
use empire.Processes.{Process, Port, Formation}
use empire.Twelvefactor
use empire.Twelvefactor.{Protocol, Exposure, Manifest, http, https, tcp, ssl}

-- `formation` is none where the Go map is nil. The associations are always loaded where the program
-- reads a release, so they are no pointers here.
pub record Release : Type 0 where
  pub id : Text
  pub version : ℕ
  pub app : App
  pub config : Config
  pub slug : Slug
  pub formation : Option Formation
  pub description : Text
  pub created_at : Option ℕ

pub data ReleaseError : Type 0 where
  -- `NoCertError`
  no_cert : Text → ReleaseError
  -- `*v` on a variable that is nil
  panics : ReleaseError

-- `range` and index on a formation that may be nil
unfoldable pub entries : Option Formation → Formation
entries none = []
entries (some f) = f

-- `app.Certs[name]`, on a map that may be nil
unfoldable pub cert_of : App → Text → Option Text
cert_of app name = elim (app.certs) [ none ↦ none | some certs ↦ lookup name certs ]

abbrev pub web_process_type : Text
web_process_type = codes "web"

-- `fmt.Sprintf("v%d", version)`
unfoldable pub version_string : ℕ → Text
version_string v = b'v' ∷ format_nat v

https_ports : Option Text → List Twelvefactor.Port
https_ports none = []
https_ports (some cert) =
    record { host = pos 443; container = pos 8080; protocol = some (https cert) } ∷ []

unfoldable pub standard_web_exposure : App → Exposure
unfolding https_ports
standard_web_exposure app = record {
  external = text_eq app.exposure expose_public;
  ports =
      record { host = pos 80; container = pos 8080; protocol = some http }
      ∷ https_ports (cert_of app web_process_type);
}

-- The `switch` on a port's protocol. A protocol that it does not name stays nil.
unfoldable pub port_protocol : App → Text → Text → Result ReleaseError (Option Protocol)
port_protocol app name protocol =
    if text_eq protocol (codes "http")
    then ok (some http)
    else if text_eq protocol (codes "https")
    then elim (cert_of app name) [ none ↦ err (no_cert name) | some c ↦ ok (some (https c)) ]
    else if text_eq protocol (codes "tcp")
    then ok (some tcp)
    else if text_eq protocol (codes "ssl")
    then elim (cert_of app name) [ none ↦ err (no_cert name) | some c ↦ ok (some (ssl c)) ]
    else ok none

-- The loop of `processExposure`.
unfoldable pub exposed_ports : App → Text → List Port → Result ReleaseError (List Twelvefactor.Port)
exposed_ports app name [] = ok []
exposed_ports app name (p ∷ ps) = port_protocol app name p.protocol >>= λ protocol.
    exposed_ports app name ps >>= λ ports.
    ok (record { host = p.host; container = p.container; protocol = protocol } ∷ ports)

exposure_for : App → Text → List Port → Result ReleaseError (Option Exposure)
exposure_for app name [] = ok none
exposure_for app name (p ∷ ps) = exposed_ports app name (p ∷ ps) >>= λ ports.
    ok (some (record { external = text_eq app.exposure expose_public; ports = ports }))

unfoldable pub process_exposure : App → Text → Process → Result ReleaseError (Option Exposure)
unfolding exposure_for
process_exposure app name process = exposure_for app name process.ports

-- The variables that every process is given.
process_env : Release → Text → Process → Dict Text
process_env release name p =
    insert (codes "SOURCE")
      (release.app.name ++ (b'.' ∷ (name ++ (b'.' ∷ version_string release.version))))
      (insert (codes "EMPIRE_PROCESS_SCALE") (format_int p.quantity)
        (insert (codes "EMPIRE_PROCESS") name (Twelvefactor.copy_into [] p.environment)))

is_standard_web : Text → List Port → Bool
is_standard_web name [] = text_eq name web_process_type
is_standard_web name (p ∷ ps) = false

assemble_process : Release → Text → Process → Dict Text → Option Exposure → Twelvefactor.Process
assemble_process release name p env exposure = record {
  process_type = name;
  image = release.slug.image;
  command = p.command;
  env = env;
  labels = (codes "empire.app.process", name) ∷ [];
  memory = p.constraints.memory;
  cpu_shares = to_uint p.constraints.cpu_share;
  nproc = p.constraints.nproc;
  quantity = if release.app.maintenance then pos 0 else p.quantity;
  exposure = exposure;
  schedule = p.cron;
  ecs = p.ecs;
  stdin = none;
  stdout = none;
  stderr = none;
}

unfoldable pub new_scheduler_process :
    Release → Text → Process → Result ReleaseError Twelvefactor.Process
unfolding process_env is_standard_web assemble_process
new_scheduler_process release name p =
    let env = process_env release name p in
    if is_standard_web name p.ports
    then ok (
        assemble_process release name p (insert (codes "PORT") (codes "8080") env)
          (some (standard_web_exposure release.app)))
    else (process_exposure release.app name p >>= λ exposure.
        ok (assemble_process release name p env exposure))

-- The two tests of the loop that skip a process.
unfoldable pub is_submitted : Process → Bool
is_submitted p = not (p.no_service || ltb_ℤ p.quantity (pos 0))

unfoldable pub scheduler_processes :
    Release → Formation → Result ReleaseError (List Twelvefactor.Process)
scheduler_processes release [] = ok []
scheduler_processes release ((name, p) ∷ f) =
    let rest = scheduler_processes release f in
    if is_submitted p
    then (new_scheduler_process release name p >>= λ process. rest >>= λ ps. ok (process ∷ ps))
    else rest

-- `environment`
environment_into : Dict Text → Vars → Result ReleaseError (Dict Text)
environment_into env [] = ok env
environment_into env ((k, none) ∷ vars) = err panics
environment_into env ((k, some v) ∷ vars) = environment_into (insert k v env) vars

unfoldable pub environment : Vars → Result ReleaseError (Dict Text)
unfolding environment_into
environment vars = environment_into [] vars

unfoldable pub app_env : Release → Dict Text → Dict Text
app_env release env = insert (codes "EMPIRE_RELEASE") (version_string release.version) (
    insert (codes "EMPIRE_APPNAME") release.app.name
      (insert (codes "EMPIRE_APPID") release.app.id env))

unfoldable pub new_scheduler_app : Release → Result ReleaseError Manifest
new_scheduler_app release = scheduler_processes release (entries release.formation) >>= λ processes.
    environment release.config.vars >>= λ env. ok (record {
      app_id = release.app.id;
      release = version_string release.version;
      name = release.app.name;
      env = app_env release env;
      labels =
          (codes "empire.app.id", release.app.id)
          ∷ (codes "empire.app.name", release.app.name)
          ∷ (codes "empire.app.release", version_string release.version)
          ∷ [];
      processes = processes;
    })
