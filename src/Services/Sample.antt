-- ===== src/Services/Sample.antt =====
-- A small installation on the database in memory, for concrete runs: one app with two releases.
use empire.Prelude.{ℕ, true, none, some, [], ◌∷◌, ok}
use empire.Prelude.Int.{pos}
use empire.Prelude.Text.{codes}
use empire.Apps.{App, User, new_app}
use empire.Processes.{Process, Formation, zero_process}
use empire.Releases.{Release}
use empire.Store.Memory.{memory}
use empire.Services.Exec.{Outside, allow_command_procfile, Empire, World}

-- A world that answers no call with an error.
abbrev pub outside_world : Outside
outside_world = record {
  answer = λ log a. none;
  resolved = λ log i. ok i;
  extracted = λ log i. ok [];
  now = λ log. 7;
  shellwords = λ t. ok (t ∷ []);
  unmarshal_standard = λ t. ok [];
  unmarshal_extended = λ t. ok [];
  run_recorder = none;
}

abbrev pub server : Empire
server = record {
  gorm = memory;
  world = outside_world;
  environment = codes "test";
  messages_required = true;
  allowed_commands = allow_command_procfile;
}

abbrev pub user : User
user = record { name = codes "ann"; github_token = [] }

abbrev pub acme : App
acme = record (new_app (codes "acme") none) { id = codes "1" }

abbrev pub worker : Process
worker = record zero_process { command = codes "work" ∷ []; quantity = pos 2 }

abbrev pub formation : Formation
formation = (codes "worker", worker) ∷ []

abbrev pub release : ℕ → Release
release v = record {
  id = codes "r";
  version = v;
  app = acme;
  config = record { id = codes "c"; vars = []; app_id = codes "1"; app = none };
  slug = record {
    id = codes "s";
    image = record { registry = []; repository = codes "acme"; tag = codes "v1"; digest = [] };
    procfile = [];
  };
  formation = some formation;
  description = [];
  created_at = none;
}

-- Two releases of an app that was deployed twice, and the world before anything was released.
abbrev pub deployed_world : World server
deployed_world = record {
  db = record {
    apps = acme ∷ [];
    configs = [];
    slugs = [];
    releases = release 2 ∷ release 1 ∷ [];
    domains = [];
  };
  log = [];
}

abbrev pub fresh_world : World server
fresh_world = record {
  db = record { apps = acme ∷ []; configs = []; slugs = []; releases = []; domains = [] };
  log = [];
}
