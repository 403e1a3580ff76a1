-- ===== src/Services/Created.antt =====
-- The release that `releasesService.Create` makes (releases.go).
use empire.Prelude.{◌+◌, ◌≡◌, refl, sym, arith, some, ◌∷◌, if◌then◌else◌, ok, err}
use empire.Prelude.Text.{Text, text_eq}
use empire.Processes.{Formation}
use empire.Releases.{Release}
use empire.Store.{Gorm, Answer, VersionRows, delivered, broken}
use empire.Store.Laws.{VersionLaws}
use empire.Services.Exec.{Empire, World, ◌>>=◌, pure, ask, write, get_log}
use empire.Services.Returns.{of_answer_ok, >>=-ok, return_after}
use empire.Services.Keeps.{Keeps, keeps_rules}
use empire.Services.Ordered.{Ordered, Ordered-same}
use empire.Services.Releases
use empire.Services.Releases.{newest, new_release, releases_create, releases_last_version, formed}

-- From the first database to the second, the app has one release more, of the next version, and no
-- other app has.
abbrev pub NextVersion : {g : Gorm} → VersionLaws g → Text → g.Db → g.Db → Type 0
NextVersion l a d d' =
    (id : Text)
    → l.versions d' id
      ≡ (if text_eq a id then (newest (l.versions d a) + 1) ∷ l.versions d id else l.versions d id)

module _ {e : Empire} (l : VersionLaws e.gorm) where
  -- A release that is submitted leaves the database as it is.
  release_it-Keeps : (r : Release) (d : e.gorm.Db) → Keeps (λ x. x ≡ d) (Releases.release_it e r)
  unfolding Releases.release_it
  release_it-Keeps r d = search keeps_rules

  module _ (r made : Release) (w : World e) (h : Ordered l w.db) where
    create_made :
        (x : Answer VersionRows)
        → e.gorm.select_versions r.app.id w.db ≡ x
        → (releases_create e r w).0 ≡ ok made
        → (made ≡ record r {
          id = made.id;
          version = newest (l.versions w.db r.app.id) + 1;
          created_at = some (e.world.now w.log);
        })
          × NextVersion l r.app.id w.db (releases_create e r w).1.db
    unfolding releases_create releases_last_version ◌>>=◌ ask pure write get_log
    create_made (err x) q = rw q (λ p. ground arith)
    create_made (ok broken) q = rw q (λ p. absurd (
        l.select_versions_broken (record r { version = 1; created_at = some (e.world.now w.log) })
          w.db made q (of_answer_ok _ made p)))
    create_made (ok (delivered vs)) q =
        rw (q, l.select_versions_descending w.db r.app.id vs (h r.app.id) q)
          (λ p.
            let numbered = record r {
              version = newest (l.versions w.db r.app.id) + 1;
              created_at = some (e.world.now w.log);
            } in
            let i = of_answer_ok _ made p in
            (
              l.insert_release_made numbered w.db made i,
              λ id. l.insert_release_versions numbered w.db id made i,
            ))

  module _ (r : Release) (f : Formation) (made : Release) (w : World e) (h : Ordered l w.db) where
    -- What is made of a release that has its formation: the row as it is, but for its id, its version
    -- and its time.
    abbrev pub MadeOf : Type 0
    MadeOf = made ≡ record (new_release r f) {
      id = made.id;
      version = newest (l.versions w.db r.app.id) + 1;
      created_at = some (e.world.now w.log);
    }

    locked : World e
    locked = record w { db = (e.gorm.lock_releases r.app.id w.db).1 }

    relocked : (id : Text) → l.versions locked.db id ≡ l.versions w.db id
    unfolding locked
    relocked id = l.lock_versions r.app.id w.db id

    create-locked :
        Releases.create e (new_release r f) w ≡ releases_create e (new_release r f) locked
        → (Releases.create e (new_release r f) w).0 ≡ ok made
        → MadeOf × NextVersion l r.app.id w.db (Releases.create e (new_release r f) w).1.db
    unfolding locked
    create-locked t = rw t (λ q.
        let (m, n) =
          create_made (new_release r f) made locked (Ordered-same l w.db locked.db relocked h)
            (e.gorm.select_versions r.app.id locked.db) refl q in
        (
          rw (sym (relocked r.app.id)) m,
          λ id. rw (sym (relocked r.app.id), sym (relocked id)) (n id),
        ))

    pub create-made :
        (Releases.create e (new_release r f) w).0 ≡ ok made
        → MadeOf × NextVersion l r.app.id w.db (Releases.create e (new_release r f) w).1.db
    unfolding Releases.create ◌>>=◌ write formed pure locked
    create-made q =
        let (u, s, t) =
          >>=-ok (λ _. formed e (new_release r f) (some f) >>= releases_create e)
            (write (e.gorm.lock_releases r.app.id)) w made q in
        create-locked t q

    pub create_and_release-made :
        (Releases.create_and_release e (new_release r f) w).0 ≡ ok made
        → MadeOf
          × NextVersion l r.app.id w.db (Releases.create_and_release e (new_release r f) w).1.db
    unfolding Releases.create_and_release
    create_and_release-made q =
        let (s, t) =
          return_after (Releases.create e (new_release r f)) (Releases.release_it e) w made
            release_it-Keeps q in
        rw t (create-made s)
