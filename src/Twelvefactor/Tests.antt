-- ===== src/Twelvefactor/Tests.antt =====
-- The theorem on variables at a concrete manifest.
use empire.Prelude.{◌≡◌, none, [], ◌∷◌}
use empire.Prelude.Int.{pos}
use empire.Prelude.Text.{codes}
use empire.Prelude.Dict.{lookup}
use empire.Twelvefactor.{Manifest, Process, env_of}
use empire.Twelvefactor.Merge.{or_else, lookup-env_of}

abbrev web : Process
web = record {
  process_type = codes "web";
  image = record { registry = []; repository = codes "acme"; tag = []; digest = [] };
  command = [];
  env = (codes "PORT", codes "8080") ∷ [];
  labels = [];
  memory = 0;
  cpu_shares = 0;
  nproc = 0;
  quantity = pos 1;
  exposure = none;
  schedule = none;
  ecs = none;
  stdin = none;
  stdout = none;
  stderr = none;
}

abbrev app : Manifest
app = record {
  app_id = codes "1";
  release = codes "v1";
  name = codes "acme";
  env = (codes "PORT", codes "80") ∷ [];
  labels = [];
  processes = web ∷ [];
}

lookup-env_of_example :
    lookup (codes "PORT") (env_of app web)
    ≡ or_else (lookup (codes "PORT") web.env) (lookup (codes "PORT") app.env)
lookup-env_of_example = lookup-env_of app web (codes "PORT") (tt, tt) (tt, tt)
