-- ===== src/Services/Deployer.antt =====
-- The service of deployments (deployments.go). A status or an error that is written to the output
-- stream is an action, which may fail.
use empire.Prelude.{Option, none, some, [], ◌++◌, Result, ok, err}
use empire.Prelude.Text.{Text, codes}
use empire.Prelude.Text.Decimal.{format_nat}
use empire.Image.{Image, encode}
use empire.Apps.{App, User}
use empire.Configs.{Config, append_message_to_description}
use empire.Slugs.{Slug}
use empire.Releases.{Release}
use empire.Services.Exec.{
  Error, status, report, Empire, Exec, ◌>>=◌, ◌>>◌, pure, raise, act, in_transaction,
}
use empire.Services.Releases.{create, release_it, slugs_create}
use empire.Services.Apps.{apps_find_or_create_by_repo, apps_ensure_repo}
use empire.Services.Configs.{config}

-- `DeployOpts` (empire.go). The status stream of the scheduler is not modelled.
pub record DeployOpts : Type 0 where
  pub user : User
  pub app : Option App
  pub image : Image
  pub message : Text

unfoldable pub deploy_release : DeployOpts → App → Config → Slug → Release
deploy_release opts app c slug = record {
  id = [];
  version = 0;
  app = app;
  config = c;
  slug = slug;
  formation = none;
  description =
      append_message_to_description (codes "Deploy " ++ encode opts.image) opts.user opts.message;
  created_at = none;
}

module _ (e : Empire) where
  unfoldable pub deployed_app : Image → Option App → Exec e App
  deployed_app img none = apps_find_or_create_by_repo e img.repository
  deployed_app img (some app) = apps_ensure_repo e app img.repository

  unfoldable pub create_release : DeployOpts → Exec e Release
  unfolding deployed_app
  create_release opts = do
    app ← deployed_app opts.image opts.app
    c ← config e app
    slug ← slugs_create e opts.image
    create e (deploy_release opts app c slug)

  -- `w.Status(…)`
  unfoldable pub send_status : Text → Exec e (Unit {0})
  send_status message = act e (status (codes "Status: " ++ message))

  -- `return r, w.Error(err)`: the error is written to the stream, and returned unless that fails.
  unfoldable pub reported : {A : Type 0} → Result Error A → Exec e A
  reported (ok a) = pure a
  reported (err x) = act e (report x) >> raise x

  unfoldable pub or_report : {A : Type 0} → Exec e A → Exec e A
  or_report m w = let (r, w') = m w in reported r w'

  -- `deployerService.Deploy`
  unfoldable pub deploy : DeployOpts → Exec e Release
  unfolding send_status or_report reported
  deploy opts = do
    r ← or_report (in_transaction (create_release opts))
    send_status
        (codes "Created new release v" ++ (format_nat r.version ++ (codes " for " ++ r.app.name)))
    or_report (release_it e r)
    send_status (
        codes "Finished processing events for release v"
        ++ (format_nat r.version ++ (codes " of " ++ r.app.name)))
    pure r
