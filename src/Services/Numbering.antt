-- ===== src/Services/Numbering.antt =====
-- Invariants of the versions through the actions of releases.go and apps.go; those of the other
-- services are in the child.
pub mod Clients
use empire.Prelude.{
  ◌≡◌, refl, Bool, true, false, Option, none, some, List, [], ◌∷◌, Result, ok, err, Result-cases,
  Option-cases, inl, inr,
}
use empire.Prelude.Text.{Text}
use empire.Image.{Image}
use empire.Apps.{App}
use empire.Configs.{Config}
use empire.Slugs.{Slug}
use empire.Events.{ScaleEventUpdate}
use empire.Processes.{Process, Formation, Command}
use empire.Releases.{Release, entries}
use empire.Store.{
  Query, of_app, releases_scope, Gorm, Answer, StoreError, record_not_found, failed, Domain,
  ConfigsQuery, ReleasesQuery,
}
use empire.Store.Laws.{VersionLaws}
use empire.Services.Exec.{
  World, continue, of_answer, Error, Empire, Exec, write, ◌>>=◌, get_log, note, lift, act, ask,
  attempt, pure, raise,
}
use empire.Services.Keeps.{Keeps, Keeps-write, keeps_rules, continue_keeps}
use empire.Services.Ordered.{Ordered, SameVersions, VersionInvariant, Ordered-VersionInvariant}
use empire.Services.Releases
use empire.Services.Releases.{RollbackOpts}
use empire.Services.Apps
use empire.Services.Apps.{ScaleOpts, RestartOpts, CertsAttachOpts}
use empire.Services.Configs
use empire.Services.Configs.{SetOpts}
use empire.Services.Domains
use empire.Services.Runner
use empire.Services.Runner.{RunOpts}
use empire.Services.Deployer
use empire.Services.Deployer.{DeployOpts}

module _ {e : Empire} (l : VersionLaws e.gorm) {P : e.gorm.Db → Type 0}
    (v : VersionInvariant e l P) where
  same_write :
      {A : Type 0} (f : e.gorm.Db → Answer A × e.gorm.Db)
      → ((d : e.gorm.Db) → SameVersions l d (f d).1)
      → Keeps P (write {e = e} f)
  same_write f s = Keeps-write f (λ d h. v.same d (f d).1 (s d) h)

  pub save_app-Keeps : (a : App) → Keeps P (write {e = e} (e.gorm.save_app a))
  save_app-Keeps a = same_write (e.gorm.save_app a) (l.save_app_versions a)

  pub insert_app-Keeps : (a : App) → Keeps P (write {e = e} (e.gorm.insert_app a))
  insert_app-Keeps a = same_write (e.gorm.insert_app a) (l.insert_app_versions a)

  pub insert_config-Keeps : (c : Config) → Keeps P (write {e = e} (e.gorm.insert_config c))
  insert_config-Keeps c = same_write (e.gorm.insert_config c) (l.insert_config_versions c)

  pub insert_slug-Keeps : (s : Slug) → Keeps P (write {e = e} (e.gorm.insert_slug s))
  insert_slug-Keeps s = same_write (e.gorm.insert_slug s) (l.insert_slug_versions s)

  pub lock_releases-Keeps : (a : Text) → Keeps P (write {e = e} (e.gorm.lock_releases a))
  lock_releases-Keeps a = same_write (e.gorm.lock_releases a) (l.lock_versions a)

  pub insert_domain-Keeps : (d : Domain) → Keeps P (write {e = e} (e.gorm.insert_domain d))
  insert_domain-Keeps d = same_write (e.gorm.insert_domain d) (l.insert_domain_versions d)

  pub delete_domain-Keeps : (d : Domain) → Keeps P (write {e = e} (e.gorm.delete_domain d))
  delete_domain-Keeps d = same_write (e.gorm.delete_domain d) (l.delete_domain_versions d)

  pub ruleset writes = (
    save_app-Keeps, insert_app-Keeps, insert_config-Keeps, insert_slug-Keeps, lock_releases-Keeps,
    insert_domain-Keeps, delete_domain-Keeps,
  )

  -- Releases.
  existing_formation-Keeps : (x : Answer Release) → Keeps P (Releases.existing_formation e x)
  unfolding Releases.existing_formation
  existing_formation-Keeps (ok r) = search keeps_rules
  existing_formation-Keeps (err record_not_found) = search keeps_rules
  existing_formation-Keeps (err (failed t)) = search keeps_rules

  slug_formation-Keeps : (s : Slug) → Keeps P (Releases.slug_formation e s)
  unfolding Releases.slug_formation
  slug_formation-Keeps s = search keeps_rules

  build_formation-Keeps : (r : Release) → Keeps P (Releases.build_formation e r)
  unfolding Releases.build_formation Releases.try_releases_find
  build_formation-Keeps r = search (keeps_rules, existing_formation-Keeps, slug_formation-Keeps)

  formed-Keeps : (r : Release) (f : Option Formation) → Keeps P (Releases.formed e r f)
  unfolding Releases.formed
  formed-Keeps r none = build_formation-Keeps r
  formed-Keeps r (some f) = search keeps_rules

  pub create-Keeps : (r : Release) → Keeps P (Releases.create e r)
  unfolding Releases.create ◌>>=◌ write
  create-Keeps r = search (keeps_rules, writes, formed-Keeps, v.creates)

  pub release_it-Keeps : (r : Release) → Keeps P (Releases.release_it e r)
  unfolding Releases.release_it
  release_it-Keeps r = search keeps_rules

  pub create_and_release-Keeps : (r : Release) → Keeps P (Releases.create_and_release e r)
  unfolding Releases.create_and_release
  create_and_release-Keeps r = search (keeps_rules, create-Keeps, release_it-Keeps)

  release_found-Keeps : (x : Answer Release) → Keeps P (Releases.release_found e x)
  unfolding Releases.release_found
  release_found-Keeps (ok r) = release_it-Keeps r
  release_found-Keeps (err record_not_found) = search keeps_rules
  release_found-Keeps (err (failed t)) = search keeps_rules

  pub release_app-Keeps : (a : App) → Keeps P (Releases.release_app e a)
  unfolding Releases.release_app Releases.try_releases_find
  release_app-Keeps a = search (keeps_rules, release_found-Keeps)

  pub rollback-Keeps : (o : RollbackOpts) → Keeps P (Releases.rollback e o)
  unfolding Releases.rollback Releases.releases_find
  rollback-Keeps o = search (keeps_rules, create_and_release-Keeps)

  pub current_formation-Keeps : (a : App) → Keeps P (Releases.current_formation e a)
  unfolding Releases.current_formation Releases.releases_find
  current_formation-Keeps a = search keeps_rules

  pub slugs_create-Keeps : (i : Image) → Keeps P (Releases.slugs_create e i)
  unfolding Releases.slugs_create Releases.resolve_image Releases.extract_procfile ◌>>=◌ get_log
      note lift write
  slugs_create-Keeps i = search (keeps_rules, writes)

  -- Apps.
  pub apps_update-Keeps : (a : App) → Keeps P (Apps.apps_update e a)
  unfolding Apps.apps_update
  apps_update-Keeps a = save_app-Keeps a

  pub apps_create-Keeps : (a : App) → Keeps P (Apps.apps_create e a)
  unfolding Apps.apps_create
  apps_create-Keeps a = search (keeps_rules, writes)

  pub apps_ensure_repo-Keeps : (a : App) (t : Text) → Keeps P (Apps.apps_ensure_repo e a t)
  unfolding Apps.apps_ensure_repo
  apps_ensure_repo-Keeps a t = elim (Option-cases (a.repo)) [
    | inl n ↦ rw n (search (keeps_rules, apps_update-Keeps))
    | inr (u, q) ↦ rw q (search keeps_rules)
  ]

  app_of_repo-Keeps : (t : Text) (x : Answer App) → Keeps P (Apps.app_of_repo e t x)
  unfolding Apps.app_of_repo
  app_of_repo-Keeps t (ok a) = apps_ensure_repo-Keeps a t
  app_of_repo-Keeps t (err record_not_found) = search apps_create-Keeps
  app_of_repo-Keeps t (err (failed u)) = search keeps_rules

  pub apps_find_or_create_by_repo-Keeps :
      (t : Text) → Keeps P (Apps.apps_find_or_create_by_repo e t)
  unfolding Apps.apps_find_or_create_by_repo
  apps_find_or_create_by_repo-Keeps t = search (keeps_rules, app_of_repo-Keeps)

  pub destroy-Keeps : (a : App) → Keeps P (Apps.destroy e a)
  unfolding Apps.destroy Apps.apps_destroy
  destroy-Keeps a = search (keeps_rules, apps_update-Keeps)

  pub restart_processes-Keeps : (o : RestartOpts) → Keeps P (Apps.restart_processes e o)
  unfolding Apps.restart_processes Releases.restart_app
  restart_processes-Keeps o = search keeps_rules

  scale_saved-Keeps :
      (o : ScaleOpts) (r : Release) (s : Formation × List ScaleEventUpdate × List Process)
      → Keeps P (Apps.scale_saved e o r s)
  unfolding Apps.scale_saved
  scale_saved-Keeps o r s = search (keeps_rules, release_it-Keeps) depth 12

  -- The release that the loop of `Scale` changes is saved where it was read, with its version.
  scale_found-Keeps :
      (o : ScaleOpts) (q : Query) (w : World e) (x : Answer Release)
      → e.gorm.first_release q w.db ≡ x
      → P w.db
      → P (continue (of_answer x) (Apps.scale_release e o) w).1.db
  unfolding Apps.scale_release ◌>>=◌ lift write
  scale_found-Keeps o q w (err x) f h = h
  scale_found-Keeps o q w (ok r) f h =
      elim (Result-cases (Apps.scale_loop (entries r.formation) o.updates)) [
        | inr (x, c) ↦ rw c h
        | inl (scaled, c) ↦
            let (answer, d) = e.gorm.save_release (Apps.with_formation r scaled.0) w.db in
            rw c (
              continue_keeps (of_answer answer) (λ _. Apps.scale_saved e o r scaled)
                (record w { db = d }) (λ _. scale_saved-Keeps o r scaled)
                (v.same w.db d
                  (λ id.
                    l.save_release_versions q r (Apps.with_formation r scaled.0) w.db id f refl refl
                      refl)
                  h))
      ]

  pub scale-Keeps : (o : ScaleOpts) → Keeps P (Apps.scale e o)
  unfolding Apps.scale Releases.releases_find ◌>>=◌ ask
  scale-Keeps o = record {
    at = λ w h.
        scale_found-Keeps o (Releases.release_query (releases_scope (of_app o.app))) w _ refl h;
  }

  unless_no_releases-Keeps :
      (m : Exec e (Unit {0})) → Keeps P m → Keeps P (Apps.unless_no_releases e m)
  unfolding Apps.unless_no_releases
  unless_no_releases-Keeps m k = record { at = λ w h. k.at w h }

  pub certs_attach-Keeps : (o : CertsAttachOpts) → Keeps P (Apps.certs_attach e o)
  unfolding Apps.certs_attach
  certs_attach-Keeps o =
      search (keeps_rules, apps_update-Keeps, release_app-Keeps, unless_no_releases-Keeps)
