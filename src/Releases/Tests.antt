-- ===== src/Releases/Tests.antt =====
-- The manifests of concrete releases.
use empire.Prelude.{◌≡◌, refl, true, false, none, some, List, [], ◌∷◌, arith, Result, ok, err}
use empire.Prelude.Int.{pos, negsuc}
use empire.Prelude.Text.{Text, codes}
use empire.Prelude.Dict.{lookup}
use empire.Apps.{App, new_app}
use empire.Configs.Vars.{AllSet}
use empire.Processes.{Process, Formation, zero_process}
use empire.Twelvefactor
use empire.Twelvefactor.{Manifest, Exposure}
use empire.Releases.{
  Release, ReleaseError, no_cert, entries, cert_of, process_exposure, new_scheduler_app,
}
use empire.Releases.Exposed.{exposure_asked, process_exposure_lem}
use empire.Releases.Submitted.{Scheduled, new_scheduler_app-Scheduled}
use empire.Releases.Variables.{
  HasCerts, manifest_value, lookup-new_scheduler_app_env, new_scheduler_app_total,
}

abbrev acme : App
acme = record (new_app (codes "acme") none) { id = codes "1"; maintenance = true }

abbrev worker : Process
worker = record zero_process { command = codes "work" ∷ []; quantity = pos 2 }

abbrev formation : Formation
formation =
    (codes "worker", worker)
    ∷ (codes "run", record worker { no_service = true })
    ∷ (codes "off", record worker { quantity = negsuc 0 })
    ∷ []

abbrev release : Release
release = record {
  id = codes "r";
  version = 12;
  app = acme;
  config = record {
    id = codes "c";
    vars = (codes "EMPIRE_APPID", some (codes "x")) ∷ (codes "DB", some (codes "y")) ∷ [];
    app_id = codes "1";
    app = none;
  };
  slug = record {
    id = codes "s";
    image = record { registry = []; repository = codes "acme"; tag = codes "v1"; digest = [] };
    procfile = [];
  };
  formation = some formation;
  description = [];
  created_at = none;
}

release-HasCerts : HasCerts release formation
release-HasCerts = (refl, (refl, (refl, tt)))

release-AllSet : AllSet release.config.vars
release-AllSet = (cc, (cc, tt))

new_scheduler_app_total_example : (m : Manifest) × (new_scheduler_app release ≡ ok m)
unfolding entries
new_scheduler_app_total_example = new_scheduler_app_total release release-HasCerts release-AllSet

abbrev manifest : Manifest
manifest = record {
  app_id = codes "1";
  release = codes "v12";
  name = codes "acme";
  env =
      (codes "EMPIRE_APPID", codes "1")
      ∷ (codes "DB", codes "y")
      ∷ (codes "EMPIRE_APPNAME", codes "acme")
      ∷ (codes "EMPIRE_RELEASE", codes "v12")
      ∷ [];
  labels =
      (codes "empire.app.id", codes "1")
      ∷ (codes "empire.app.name", codes "acme")
      ∷ (codes "empire.app.release", codes "v12")
      ∷ [];
  processes =
      record {
        process_type = codes "worker";
        image = release.slug.image;
        command = codes "work" ∷ [];
        env =
            (codes "EMPIRE_PROCESS", codes "worker")
            ∷ (codes "EMPIRE_PROCESS_SCALE", codes "2")
            ∷ (codes "SOURCE", codes "acme.worker.v12")
            ∷ [];
        labels = (codes "empire.app.process", codes "worker") ∷ [];
        memory = 0;
        cpu_shares = 0;
        nproc = 0;
        quantity = pos 0;
        exposure = none;
        schedule = none;
        ecs = none;
        stdin = none;
        stdout = none;
        stderr = none;
      }
      ∷ [];
}

made : new_scheduler_app release ≡ ok manifest
unfolding new_scheduler_app empire.Releases.scheduler_processes entries empire.Releases.is_submitted
    empire.Releases.new_scheduler_process empire.Prelude.Text.text_eq process_exposure
    empire.Releases.environment empire.Releases.version_string empire.Releases.app_env
    empire.Prelude.Dict.insert empire.Prelude.Int.to_uint empire.Prelude.Text.Decimal.format_nat
    Twelvefactor.copy_into empire.Prelude.Text.Decimal.format_int
made = refl

new_scheduler_app-Scheduled_example : Scheduled release formation manifest.processes
unfolding entries
new_scheduler_app-Scheduled_example = new_scheduler_app-Scheduled release manifest made

lookup-new_scheduler_app_env_example :
    lookup (codes "DB") manifest.env ≡ manifest_value release (codes "DB")
lookup-new_scheduler_app_env_example =
    lookup-new_scheduler_app_env release manifest (codes "DB") ((cc, tt), (tt, tt)) made

abbrev secure : Process
secure = record worker {
  ports = record { host = pos 443; container = pos 443; protocol = codes "https" } ∷ [];
}

process_exposure_lem_example :
    process_exposure acme (codes "web") secure
    ≡ exposure_asked acme.exposure (cert_of acme (codes "web")) (codes "web") secure.ports
process_exposure_lem_example = process_exposure_lem acme (codes "web") secure
