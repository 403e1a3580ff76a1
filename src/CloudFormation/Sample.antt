-- ===== src/CloudFormation/Sample.antt =====
-- An app with an exposed process and a scheduled one, for the concrete runs.
use empire.Prelude.{Bool, none, some, [], ◌∷◌, Result, ok, err}
use empire.Prelude.Int.{pos}
use empire.Prelude.Text.{codes}
use empire.Image.{Image}
use empire.Twelvefactor.{Manifest, Process, Protocol}
use empire.Troposphere.{Value, Template, BuildError, new_template}
use empire.CloudFormation.{EmpireTemplate, TemplateData}

abbrev pub settings : EmpireTemplate
settings = record {
  cluster = codes "cluster";
  vpc_id = codes "vpc-1";
  hosted_zone = some (record { id = codes "/hostedzone/Z1"; name = codes "empire." });
  internal_security_group_id = codes "sg-1";
  external_security_group_id = codes "sg-2";
  internal_subnet_ids = codes "subnet-1" ∷ [];
  external_subnet_ids = codes "subnet-2" ∷ [];
  service_role = codes "ecsServiceRole";
  custom_resources_topic = codes "topic";
  log_configuration = Value.null;
  extra_outputs = [];
}

abbrev image : Image
image = record { registry = []; repository = codes "remind101/acme"; tag = codes "v1"; digest = [] }

abbrev pub web : Process
web = record {
  process_type = codes "web";
  image = image;
  command = codes "./web" ∷ [];
  env = (codes "B", codes "2") ∷ (codes "A", codes "1") ∷ [];
  labels = (codes "empire.app.process", codes "web") ∷ [];
  memory = 134217728;
  cpu_shares = 256;
  nproc = 256;
  quantity = pos 1;
  exposure = some (record {
    external = Bool.true;
    ports =
        record { host = pos 80; container = pos 8080; protocol = some Protocol.http }
        ∷ record {
          host = pos 443;
          container = pos 8080;
          protocol = some (Protocol.https (codes "cert"));
        }
        ∷ [];
  });
  schedule = none;
  ecs = none;
  stdin = none;
  stdout = none;
  stderr = none;
}

abbrev pub nightly : Process
nightly = record web {
  process_type = codes "nightly-job";
  exposure = none;
  schedule = some (codes "0 0 * * ? *");
}

abbrev pub acme : Manifest
acme = record {
  app_id = codes "1234";
  release = codes "v1";
  name = codes "acme";
  env = [];
  labels = [];
  processes = web ∷ nightly ∷ [];
}

abbrev pub input : TemplateData
input = record { manifest = acme; stack_tags = [] }

-- The template that was built.
abbrev pub template_of : Result {0, 0} BuildError Template → Template
template_of (ok t) = t
template_of (err e) = new_template
