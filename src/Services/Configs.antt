-- ===== src/Services/Configs.antt =====
-- The service of configurations (configs.go).
use empire.Prelude.{none, some, [], ◌∷◌, ok, err}
use empire.Prelude.Text.{Text, codes}
use empire.Apps.{App, User}
use empire.Configs.{Config, Vars, new_config, configs_apply_release_desc}
use empire.Releases.{Release}
use empire.Store.{
  Answer, record_not_found, Query, empty_query, composed_scope, order_by, ConfigsQuery,
  configs_scope, of_app,
}
use empire.Services.Exec.{store, Empire, Exec, ◌>>=◌, ◌>>◌, pure, raise, attempt, write}
use empire.Services.Releases.{try_releases_find, create_and_release}

-- `SetOpts` (empire.go)
pub record SetOpts : Type 0 where
  pub user : User
  pub app : App
  pub vars : Vars
  pub message : Text

-- The config of an app that has none.
abbrev pub empty_config : App → Config
empty_config app = record { id = []; vars = []; app_id = app.id; app = some app }

unfoldable pub config_query : ConfigsQuery → Query
config_query q =
    composed_scope (order_by (codes "created_at desc") ∷ configs_scope q ∷ []) empty_query

module _ (e : Empire) where
  unfoldable pub try_configs_find : ConfigsQuery → Exec e (Answer Config)
  unfolding config_query
  try_configs_find q = attempt (e.gorm.first_config (config_query q))

  unfoldable pub or_empty : App → Answer Config → Exec e Config
  or_empty app (ok c) = pure c
  or_empty app (err record_not_found) = pure (empty_config app)
  or_empty app (err x) = raise (store x)

  unfoldable pub released_config : App → Answer Release → Exec e Config
  unfolding or_empty try_configs_find
  released_config app (ok r) = pure r.config
  released_config app (err record_not_found) = do
    found ← try_configs_find (record { id = none; app = some app })
    or_empty app found
  released_config app (err x) = raise (store x)

  -- `configsService.Config`
  unfoldable pub config : App → Exec e Config
  unfolding released_config
  config app = do found ← try_releases_find e (of_app app); released_config app found

  -- The release that a new config makes of the last one.
  unfoldable pub config_release : SetOpts → Config → Release → Release
  config_release opts c r = record r {
    id = [];
    version = 0;
    config = c;
    formation = none;
    description = configs_apply_release_desc opts.vars opts.user opts.message;
    created_at = none;
  }

  unfoldable pub release_config : SetOpts → Config → Answer Release → Exec e Config
  release_config opts c (ok r) = create_and_release e (config_release opts c r) >> pure c
  release_config opts c (err record_not_found) = pure c
  release_config opts c (err x) = raise (store x)

  -- `configsService.Set`
  unfoldable pub set : SetOpts → Exec e Config
  unfolding release_config
  set opts = do
    old ← config opts.app
    c ← write (e.gorm.insert_config (new_config old opts.vars))
    found ← try_releases_find e (of_app opts.app)
    release_config opts c found
