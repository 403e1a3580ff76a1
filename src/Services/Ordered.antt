-- ===== src/Services/Ordered.antt =====
-- The order of the versions of releases, and `releasesCreate` (releases.go), which numbers a new release
-- after the newest one of its app.
use empire.Prelude.{
  ℕ, ◌+◌, ◌≡◌, ◌≤◌, refl, Bool-cases, inl, inr, some, List, [], ◌∷◌, ok, err, arith, ◌≢◌,
  Result-cases,
}
use empire.Prelude.Text.{Text, text_eq, text_eq_iff}
use empire.Releases.{Release}
use empire.Store.{Gorm, Answer, VersionRows, delivered, broken}
use empire.Store.Laws.{Below, Descending, VersionLaws}
use empire.Services.Exec.{Empire, World, ◌>>=◌, pure, ask, write, get_log}
use empire.Services.Keeps.{Keeps, Transactional}
use empire.Services.Releases.{newest, releases_create, releases_last_version}

-- For every app, the versions go down from the newest.
abbrev pub Ordered : {g : Gorm} → VersionLaws g → g.Db → Type 0
Ordered l d = (id : Text) → Descending (l.versions d id)

module _ {g : Gorm} (l : VersionLaws g) where
  abbrev pub SameVersions : g.Db → g.Db → Type 0
  SameVersions d d' = (id : Text) → l.versions d' id ≡ l.versions d id

  pub Ordered-same : (d d' : g.Db) → SameVersions d d' → Ordered l d → Ordered l d'
  Ordered-same d d' s h id = rw (s id) (h id)

  commit-Ordered :
      (d t : g.Db) (r : Answer (Unit {0}))
      → (g.commit d t).0 ≡ r
      → Ordered l d
      → Ordered l t
      → Ordered l (g.commit d t).1
  commit-Ordered d t (ok tt) e h k =
      Ordered-same t ((g.commit d t).1) (λ id. l.commit_versions d t id e) k
  commit-Ordered d t (err x) e h k =
      Ordered-same d ((g.commit d t).1) (λ id. l.abort_versions d t id x e) h

  pub Ordered-Transactional : Transactional g (Ordered l)
  Ordered-Transactional = record {
    begins = λ d h. Ordered-same d (g.begin d) (l.begin_versions d) h;
    rolls_back = λ d t h. Ordered-same d (g.rollback d t) (l.rollback_versions d t) h;
    commits = λ d t h k. commit-Ordered d t (g.commit d t).0 refl h k;
  }

Below-mono : (u v : ℕ) (ws : List ℕ) → v ≤ u → Below v ws → Below u ws
Below-mono u v [] le h = tt
Below-mono u v (w ∷ ws) le h = (omega arith, Below-mono u v ws le h.1)

Below-newest : (vs : List ℕ) → Descending vs → Below (newest vs + 1) vs
Below-newest [] h = tt
Below-newest (v ∷ vs) h = (omega arith, Below-mono (v + 1) v vs (omega arith) h.0)

module _ {g : Gorm} (l : VersionLaws g) where
  module _ (r : Release) (d : g.Db) (h : Ordered l d) where
    -- The row of the next version of an app goes on top of its rows.
    insert_result-Ordered :
        (x : Answer Release)
        → (g.insert_release r d).0 ≡ x
        → r.version ≡ newest (l.versions d r.app.id) + 1
        → Ordered l (g.insert_release r d).1
    insert_result-Ordered (err x) e v id = rw (l.insert_release_failed r d id x e) (h id)
    insert_result-Ordered (ok made) e v id = elim (Bool-cases (text_eq r.app.id id)) [
      | inl t ↦
          rw (l.insert_release_versions r d id made e, t, v, (text_eq_iff r.app.id id).0 t)
            (Below-newest (l.versions d id) (h id), h id)
      | inr f ↦ rw (l.insert_release_versions r d id made e, f) (h id)
    ]

    refused-Ordered :
        ((made : Release) → (g.insert_release r d).0 ≢ ok made) → Ordered l (g.insert_release r d).1
    refused-Ordered refuses id = elim (Result-cases (g.insert_release r d).0) [
      | inl (made, q) ↦ absurd (refuses made q)
      | inr (x, q) ↦ rw (l.insert_release_failed r d id x q) (h id)
    ]

    -- The same, whatever the database answers.
    pub insert_release-Ordered :
        r.version ≡ newest (l.versions d r.app.id) + 1 → Ordered l (g.insert_release r d).1
    insert_release-Ordered v = insert_result-Ordered (g.insert_release r d).0 refl v

module _ {e : Empire} (l : VersionLaws e.gorm) where
  module _ (r : Release) (w : World e) (h : Ordered l w.db) where
    create_answered :
        (x : Answer VersionRows)
        → e.gorm.select_versions r.app.id w.db ≡ x
        → Ordered l (releases_create e r w).1.db
    unfolding releases_create releases_last_version ◌>>=◌ ask pure write get_log
    create_answered (err x) q id = rw q (h id)
    create_answered (ok broken) q id = rw q (
        refused-Ordered l (record r { version = 1; created_at = some (e.world.now w.log) }) w.db h
          (λ made.
            l.select_versions_broken
              (record r { version = 1; created_at = some (e.world.now w.log) }) w.db made q)
          id)
    create_answered (ok (delivered vs)) q id = rw q (
        insert_release-Ordered l
          (record r { version = newest vs + 1; created_at = some (e.world.now w.log) }) w.db h
          (rw (l.select_versions_descending w.db r.app.id vs (h r.app.id) q) refl) id)

  pub releases_create-Ordered : (r : Release) → Keeps (Ordered l) (releases_create e r)
  releases_create-Ordered r = record {
    at = λ w h. create_answered r w h (e.gorm.select_versions r.app.id w.db) refl;
  }

-- A predicate that speaks of the versions only, and that transactions and the creation of a release
-- leave true.
pub record VersionInvariant (e : Empire) (l : VersionLaws e.gorm) (P : e.gorm.Db → Type 0)
    : Type 0 where
  pub same : (d d' : e.gorm.Db) → SameVersions l d d' → P d → P d'
  pub transaction : Transactional e.gorm P
  pub creates : (r : Release) → Keeps P (releases_create e r)

pub Ordered-VersionInvariant :
    {e : Empire} (l : VersionLaws e.gorm) → VersionInvariant e l (Ordered l)
Ordered-VersionInvariant l = record {
  same = Ordered-same l;
  transaction = Ordered-Transactional l;
  creates = releases_create-Ordered l;
}
