-- ===== src/Store/Laws.antt =====
-- What the program relies on in the database.
use empire.Prelude.{ℕ, ◌≡◌, ◌≢◌, ◌<◌, List, [], ◌∷◌, ok, err, if◌then◌else◌}
use empire.Prelude.Text.{Text, text_eq}
use empire.Apps.{App}
use empire.Configs.{Config}
use empire.Slugs.{Slug}
use empire.Releases.{Release}
use empire.Store.{Query, delivered, broken, Gorm, Domain, StoreError}

-- Each version of the list is smaller than the one before it.
abbrev pub Below : ℕ → List ℕ → Type 0
Below v [] = Unit
Below v (w ∷ ws) = (w < v) × Below v ws

abbrev pub Descending : List ℕ → Type 0
Descending [] = Unit
Descending (v ∷ vs) = Below v vs × Descending vs

-- The versions of an app's releases, the latest row first, and which writes change them. An answer to
-- the raw query lists them from the greatest down; where the rows stand so already, it is the rows.
pub record VersionLaws (g : Gorm) : Type 0 where
  pub versions : g.Db → Text → List ℕ
  pub begin_versions : (d : g.Db) (id : Text) → versions (g.begin d) id ≡ versions d id
  pub rollback_versions : (d t : g.Db) (id : Text) → versions (g.rollback d t) id ≡ versions d id
  pub commit_versions :
      (d t : g.Db) (id : Text)
      → (g.commit d t).0 ≡ ok tt
      → versions (g.commit d t).1 id ≡ versions t id
  pub abort_versions :
      (d t : g.Db) (id : Text) (e : StoreError)
      → (g.commit d t).0 ≡ err e
      → versions (g.commit d t).1 id ≡ versions d id
  pub select_versions_descending :
      (d : g.Db) (id : Text) (vs : List ℕ)
      → Descending (versions d id)
      → g.select_versions id d ≡ ok (delivered vs)
      → vs ≡ versions d id
  -- A statement of a transaction that has failed is refused.
  pub select_versions_broken :
      (r : Release) (d : g.Db) (made : Release)
      → g.select_versions r.app.id d ≡ ok broken
      → (g.insert_release r d).0 ≢ ok made
  pub lock_versions :
      (a : Text) (d : g.Db) (id : Text) → versions (g.lock_releases a d).1 id ≡ versions d id
  pub insert_app_versions :
      (a : App) (d : g.Db) (id : Text) → versions (g.insert_app a d).1 id ≡ versions d id
  pub save_app_versions :
      (a : App) (d : g.Db) (id : Text) → versions (g.save_app a d).1 id ≡ versions d id
  pub insert_config_versions :
      (c : Config) (d : g.Db) (id : Text) → versions (g.insert_config c d).1 id ≡ versions d id
  pub insert_slug_versions :
      (s : Slug) (d : g.Db) (id : Text) → versions (g.insert_slug s d).1 id ≡ versions d id
  pub insert_release_versions :
      (r : Release) (d : g.Db) (id : Text) (made : Release)
      → (g.insert_release r d).0 ≡ ok made
      → versions (g.insert_release r d).1 id
        ≡ (if text_eq r.app.id id then r.version ∷ versions d id else versions d id)
  pub insert_release_made :
      (r : Release) (d : g.Db) (made : Release)
      → (g.insert_release r d).0 ≡ ok made
      → made ≡ record r { id = made.id }
  pub insert_release_failed :
      (r : Release) (d : g.Db) (id : Text) (e : StoreError)
      → (g.insert_release r d).0 ≡ err e
      → versions (g.insert_release r d).1 id ≡ versions d id
  -- A save writes every column of the row with this id: of a release that was read, and whose app and
  -- version are the same, it leaves the versions.
  pub save_release_versions :
      (q : Query) (found r : Release) (d : g.Db) (id : Text)
      → g.first_release q d ≡ ok found
      → r.id ≡ found.id
      → r.app.id ≡ found.app.id
      → r.version ≡ found.version
      → versions (g.save_release r d).1 id ≡ versions d id
  pub insert_domain_versions :
      (x : Domain) (d : g.Db) (id : Text) → versions (g.insert_domain x d).1 id ≡ versions d id
  pub delete_domain_versions :
      (x : Domain) (d : g.Db) (id : Text) → versions (g.delete_domain x d).1 id ≡ versions d id
