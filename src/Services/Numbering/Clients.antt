-- ===== src/Services/Numbering/Clients.antt =====
-- Invariants of the versions through the actions of configs.go, domains.go, runner.go and
-- deployments.go.
use empire.Prelude.{Option, none, some, List, [], ◌∷◌, Result, ok, err}
use empire.Prelude.Text.{Text}
use empire.Image.{Image}
use empire.Apps.{App}
use empire.Configs.{Config}
use empire.Processes.{Command}
use empire.Releases.{Release}
use empire.Store.{Answer, record_not_found, failed, Domain}
use empire.Store.Laws.{VersionLaws}
use empire.Services.Exec.{Error, Empire, Exec, write, ◌>>=◌, get_log, attempt}
use empire.Services.Keeps.{Keeps, keeps_rules}
use empire.Services.Ordered.{VersionInvariant}
use empire.Services.Releases
use empire.Services.Releases.{RollbackOpts}
use empire.Services.Apps
use empire.Services.Apps.{ScaleOpts, RestartOpts, CertsAttachOpts}
use empire.Services.Configs
use empire.Services.Configs.{SetOpts}
use empire.Services.Domains
use empire.Services.Runner
use empire.Services.Runner.{RunOpts}
use empire.Services.Deployer
use empire.Services.Deployer.{DeployOpts}
use empire.Services.Numbering.{
  writes, create-Keeps, create_and_release-Keeps, release_it-Keeps, slugs_create-Keeps,
  apps_update-Keeps, apps_ensure_repo-Keeps, apps_find_or_create_by_repo-Keeps,
}

module _ {e : Empire} (l : VersionLaws e.gorm) {P : e.gorm.Db → Type 0}
    (v : VersionInvariant e l P) where
  -- Configs.
  or_empty-Keeps : (a : App) (x : Answer Config) → Keeps P (Configs.or_empty e a x)
  unfolding Configs.or_empty
  or_empty-Keeps a (ok c) = search keeps_rules
  or_empty-Keeps a (err record_not_found) = search keeps_rules
  or_empty-Keeps a (err (failed t)) = search keeps_rules

  released_config-Keeps : (a : App) (x : Answer Release) → Keeps P (Configs.released_config e a x)
  unfolding Configs.released_config Configs.try_configs_find
  released_config-Keeps a (ok r) = search keeps_rules
  released_config-Keeps a (err record_not_found) = search (keeps_rules, or_empty-Keeps)
  released_config-Keeps a (err (failed t)) = search keeps_rules

  pub config-Keeps : (a : App) → Keeps P (Configs.config e a)
  unfolding Configs.config Releases.try_releases_find
  config-Keeps a = search (keeps_rules, released_config-Keeps)

  release_config-Keeps :
      (o : SetOpts) (c : Config) (x : Answer Release) → Keeps P (Configs.release_config e o c x)
  unfolding Configs.release_config
  release_config-Keeps o c (ok r) = search (keeps_rules, create_and_release-Keeps l v)
  release_config-Keeps o c (err record_not_found) = search keeps_rules
  release_config-Keeps o c (err (failed t)) = search keeps_rules

  pub set-Keeps : (o : SetOpts) → Keeps P (Configs.set e o)
  unfolding Configs.set Releases.try_releases_find ◌>>=◌ Configs.config attempt
      Releases.release_query write
  set-Keeps o = search (keeps_rules, config-Keeps, writes, release_config-Keeps) depth 12

  -- Domains.
  insert_domain_hook-Keeps : (d : Domain) → Keeps P (Domains.insert_domain e d)
  unfolding Domains.insert_domain ◌>>=◌ get_log write
  insert_domain_hook-Keeps d = search (keeps_rules, writes)

  expose_as-Keeps : (x t : Text) → Keeps P (Domains.expose_as e x t)
  unfolding Domains.expose_as Apps.apps_find
  expose_as-Keeps x t = search (keeps_rules, apps_update-Keeps l v)

  domain_taken-Keeps : (d : Domain) (x : Answer Domain) → Keeps P (Domains.domain_taken e d x)
  unfolding Domains.domain_taken
  domain_taken-Keeps d (ok y) = search keeps_rules
  domain_taken-Keeps d (err record_not_found) =
      search (keeps_rules, insert_domain_hook-Keeps, expose_as-Keeps)
  domain_taken-Keeps d (err (failed t)) = search keeps_rules

  pub domains_create-Keeps : (d : Domain) → Keeps P (Domains.domains_create e d)
  unfolding Domains.domains_create
  domains_create-Keeps d = search (keeps_rules, domain_taken-Keeps)

  if_no_domain-Keeps : (d : Domain) (ds : List Domain) → Keeps P (Domains.if_no_domain e d ds)
  unfolding Domains.if_no_domain
  if_no_domain-Keeps d [] = search expose_as-Keeps
  if_no_domain-Keeps d (y ∷ ds) = search keeps_rules

  pub domains_destroy-Keeps : (d : Domain) → Keeps P (Domains.domains_destroy e d)
  unfolding Domains.domains_destroy ◌>>=◌ write
  domains_destroy-Keeps d = search (keeps_rules, writes, if_no_domain-Keeps)

  -- One-off processes.
  run_command-Keeps :
      (o : RunOpts) (r : Release) (c : Command) → Keeps P (Runner.run_command e o r c)
  unfolding Runner.run_command
  run_command-Keeps o r [] = search keeps_rules
  run_command-Keeps o r (name ∷ args) = search keeps_rules

  pub run_once-Keeps : (o : RunOpts) → Keeps P (Runner.run_once e o)
  unfolding Runner.run_once Releases.releases_find
  run_once-Keeps o = search (keeps_rules, run_command-Keeps)

  -- Deployments.
  deployed_app-Keeps : (i : Image) (a : Option App) → Keeps P (Deployer.deployed_app e i a)
  unfolding Deployer.deployed_app
  deployed_app-Keeps i none = search (apps_find_or_create_by_repo-Keeps l v)
  deployed_app-Keeps i (some a) = search (apps_ensure_repo-Keeps l v)

  create_release-Keeps : (o : DeployOpts) → Keeps P (Deployer.create_release e o)
  unfolding Deployer.create_release
  create_release-Keeps o =
      search
        (keeps_rules, deployed_app-Keeps, config-Keeps, slugs_create-Keeps l v, create-Keeps l v)
        depth 12

  reported-Keeps : {A : Type 0} (x : Result Error A) → Keeps P (Deployer.reported e x)
  unfolding Deployer.reported
  reported-Keeps (ok a) = search keeps_rules
  reported-Keeps (err x) = search keeps_rules

  or_report-Keeps : {A : Type 0} (m : Exec e A) → Keeps P m → Keeps P (Deployer.or_report e m)
  unfolding Deployer.or_report
  or_report-Keeps m k = record {
    at = λ w h. let (r, w') = m w in (reported-Keeps r).at w' (k.at w h);
  }

  pub deploy-Keeps : (o : DeployOpts) → Keeps P (Deployer.deploy e o)
  unfolding Deployer.deploy
  deploy-Keeps o =
      search
        (keeps_rules, v.transaction, or_report-Keeps, create_release-Keeps, release_it-Keeps l v)
        depth 14
