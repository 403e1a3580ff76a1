-- ===== src/Services/Releases.antt =====
-- The service of releases and that of slugs (releases.go, slugs.go).
use empire.Prelude.{ℕ, ◌+◌, Option, none, some, List, [], ◌∷◌, ◌++◌, ok, err}
use empire.Prelude.Text.{Text, codes}
use empire.Prelude.Text.Decimal.{format_nat}
use empire.Image.{Image, encode}
use empire.Apps.{App, User}
use empire.Configs.{append_message_to_description}
use empire.Slugs.{Slug}
use empire.Procfile.{parse_procfile}
use empire.Processes.{Formation, merge}
use empire.Registry.{formation_from_procfile}
use empire.Releases.{Release, entries, new_scheduler_app}
use empire.Store.{
  VersionRows, delivered, broken, Answer, record_not_found, Scope, Query, empty_query,
  composed_scope, preload, ReleasesQuery, of_app, at_version, releases_scope,
}
use empire.Services.Exec.{
  store, release, registry, procfile, no_releases, outside, submit, restart, resolve, extract,
  Empire, Exec, ◌>>=◌, ◌>>◌, pure, raise, ask, attempt, write, lift, act, note, get_log,
}

-- `RollbackOpts` (empire.go)
pub record RollbackOpts : Type 0 where
  pub user : User
  pub app : App
  pub version : ℕ
  pub message : Text

-- `composedScope{releasesPreload, scope}`, as a query
unfoldable pub release_query : Scope → Query
unfolding composed_scope preload
release_query scope =
    composed_scope (preload (codes "App" ∷ codes "Config" ∷ codes "Slug" ∷ []) ∷ scope ∷ [])
      empty_query

-- The row that `rows.Scan` reads first, and 0 if there is none.
abbrev pub newest : List ℕ → ℕ
newest [] = 0
newest (v ∷ vs) = v

-- `rows.Next()` is false where the iteration fails, too: the version is 0 then.
abbrev pub first_version : VersionRows → ℕ
first_version (delivered vs) = newest vs
first_version broken = 0

-- A release that is about to be created.
abbrev pub new_release : Release → Formation → Release
new_release r f = record r { formation = some f }

module _ (e : Empire) where
  unfoldable pub releases_find : ReleasesQuery → Exec e Release
  releases_find q = ask (e.gorm.first_release (release_query (releases_scope q)))

  -- The same read, for a caller that looks at the error.
  unfoldable pub try_releases_find : ReleasesQuery → Exec e (Answer Release)
  try_releases_find q = attempt (e.gorm.first_release (release_query (releases_scope q)))

  unfoldable pub releases_last_version : Text → Exec e ℕ
  releases_last_version app_id = do
    versions ← ask (e.gorm.select_versions app_id)
    pure (first_version versions)

  -- The hook `BeforeCreate` sets the time.
  unfoldable pub releases_create : Release → Exec e Release
  releases_create r = do
    v ← releases_last_version r.app.id
    log ← get_log e
    write
        (e.gorm.insert_release (record r { version = v + 1; created_at = some (e.world.now log) }))

  -- `Slug.Formation`
  unfoldable pub slug_formation : Slug → Exec e Formation
  slug_formation s = do
    parsed ←
        lift procfile
          (parse_procfile e.world.unmarshal_standard e.world.unmarshal_extended s.procfile)
    lift registry (formation_from_procfile e.world.shellwords parsed)

  -- The formation of the last release, or a nil one if there is none.
  unfoldable pub existing_formation : Answer Release → Exec e Formation
  existing_formation (ok last) = pure (entries last.formation)
  existing_formation (err record_not_found) = pure []
  existing_formation (err x) = raise (store x)

  unfoldable pub build_formation : Release → Exec e Release
  build_formation r = do
    last ← try_releases_find (of_app r.app)
    existing ← existing_formation last
    f ← slug_formation r.slug
    pure (new_release r (merge f existing))

  unfoldable pub formed : Release → Option Formation → Exec e Release
  formed r none = build_formation r
  formed r (some f) = pure r

  -- `releasesService.Create`
  unfoldable pub create : Release → Exec e Release
  unfolding formed
  create r = do
    write (e.gorm.lock_releases r.app.id)
    ready ← formed r r.formation
    releases_create ready

  -- `releasesService.Release`
  unfoldable pub release_it : Release → Exec e (Unit {0})
  release_it r = do m ← lift release (new_scheduler_app r); act e (submit m)

  unfoldable pub create_and_release : Release → Exec e Release
  create_and_release r = do made ← create r; release_it made; pure made

  unfoldable pub rollback_release : RollbackOpts → Release → Release
  rollback_release opts r = record r {
    id = [];
    version = 0;
    app = opts.app;
    description =
        append_message_to_description (codes "Rollback to v" ++ format_nat opts.version) opts.user
          opts.message;
    created_at = none;
  }

  -- `releasesService.Rollback`
  unfoldable pub rollback : RollbackOpts → Exec e Release
  unfolding rollback_release
  rollback opts = do
    r ← releases_find (at_version opts.app opts.version)
    create_and_release (rollback_release opts r)

  unfoldable pub release_found : Answer Release → Exec e (Unit {0})
  release_found (ok r) = release_it r
  release_found (err record_not_found) = raise no_releases
  release_found (err x) = raise (store x)

  unfoldable pub release_app : App → Exec e (Unit {0})
  unfolding release_found
  release_app app = do found ← try_releases_find (of_app app); release_found found

  unfoldable pub restart_app : App → Exec e (Unit {0})
  restart_app app = act e (restart app.id)

  -- `currentFormation`
  unfoldable pub current_formation : App → Exec e (Option Formation)
  current_formation app = do current ← releases_find (of_app app); pure current.formation

  unfoldable pub resolve_image : Image → Exec e Image
  resolve_image img = do
    log ← get_log e
    note e (resolve img)
    lift (λ x. outside (codes "resolving " ++ (encode img ++ (codes ": " ++ x))))
        (e.world.resolved log img)

  unfoldable pub extract_procfile : Image → Exec e Text
  extract_procfile img = do
    log ← get_log e
    note e (extract img)
    lift (λ x. outside (codes "extracting Procfile from " ++ (encode img ++ (codes ": " ++ x))))
        (e.world.extracted log img)

  -- `slugsCreateByImage`
  unfoldable pub slugs_create : Image → Exec e Slug
  unfolding resolve_image extract_procfile
  slugs_create img = do
    resolved ← resolve_image img
    content ← extract_procfile resolved
    write (e.gorm.insert_slug (record { id = []; image = resolved; procfile = content }))
