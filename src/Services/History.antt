-- ===== src/Services/History.antt =====
-- The versions of releases as a history to which `releasesCreate` (releases.go) adds.
use empire.Prelude.{
  ℕ, ◌+◌, ◌≡◌, refl, sym, ap, ◌∙◌, Bool-cases, inl, inr, some, List, [], ◌∷◌, ◌++◌, append_assoc,
  ok, err,
}
use empire.Prelude.Text.{Text, text_eq}
use empire.Releases.{Release}
use empire.Store.{VersionRows, Gorm, Answer}
use empire.Store.Laws.{VersionLaws}
use empire.Services.Exec.{Empire, World, ◌>>=◌, pure, ask, write, get_log}
use empire.Services.Keeps.{Keeps}
use empire.Services.Ordered.{
  Ordered, SameVersions, Ordered-same, VersionInvariant, releases_create-Ordered,
}
use empire.Services.Releases.{first_version, releases_create, releases_last_version}

-- The second list is the first with more in front.
abbrev pub Extends : List ℕ → List ℕ → Type 0
Extends old new = (added : List ℕ) × (new ≡ added ++ old)

Extends-trans : (a b c : List ℕ) → Extends a b → Extends b c → Extends a c
Extends-trans a b c (xs, p) (ys, q) =
    (ys ++ xs, q ∙ ap (λ t. ys ++ t) p ∙ sym (append_assoc ys xs a))

module _ {g : Gorm} (l : VersionLaws g) (d : g.Db) where
  -- Every app has the versions that it had, and perhaps newer ones in front.
  abbrev pub ExtendsAll : g.Db → Type 0
  ExtendsAll d' = (id : Text) → Extends (l.versions d id) (l.versions d' id)

  inserted_ExtendsAll :
      (r : Release) (x : Answer Release)
      → (g.insert_release r d).0 ≡ x
      → ExtendsAll (g.insert_release r d).1
  inserted_ExtendsAll r (err x) q id = ([], l.insert_release_failed r d id x q)
  inserted_ExtendsAll r (ok made) q id = elim (Bool-cases (text_eq r.app.id id)) [
    | inl t ↦ (r.version ∷ [], rw (l.insert_release_versions r d id made q, t) refl)
    | inr f ↦ ([], rw (l.insert_release_versions r d id made q, f) refl)
  ]

module _ {g : Gorm} (l : VersionLaws g) where
  -- The versions are in order, and extend those of a past state.
  abbrev pub History : g.Db → g.Db → Type 0
  History past d = Ordered l d × ExtendsAll l past d

  History-same : (past d d' : g.Db) → SameVersions l d d' → History past d → History past d'
  History-same past d d' s h = (Ordered-same l d d' s h.0, λ id. rw (s id) (h.1 id))

  History-commit :
      (past d t : g.Db) (r : Answer (Unit {0}))
      → (g.commit d t).0 ≡ r
      → History past d
      → History past t
      → History past (g.commit d t).1
  History-commit past d t (ok u) q h k =
      History-same past t (g.commit d t).1 (λ id. l.commit_versions d t id q) k
  History-commit past d t (err x) q h k =
      History-same past d (g.commit d t).1 (λ id. l.abort_versions d t id x q) h

module _ {e : Empire} (l : VersionLaws e.gorm) where
  created_ExtendsAll :
      (r : Release) (w : World e) (x : Answer VersionRows)
      → e.gorm.select_versions r.app.id w.db ≡ x
      → ExtendsAll l w.db (releases_create e r w).1.db
  unfolding releases_create releases_last_version ◌>>=◌ ask pure write get_log
  created_ExtendsAll r w (err x) q id = rw q ([], refl)
  created_ExtendsAll r w (ok rows) q id =
      let numbered = record r {
        version = first_version rows + 1;
        created_at = some (e.world.now w.log);
      } in
      rw q (inserted_ExtendsAll l w.db numbered (e.gorm.insert_release numbered w.db).0 refl id)

  History-create : (past : e.gorm.Db) (r : Release) → Keeps (History l past) (releases_create e r)
  History-create past r = record {
    at = λ w h. (
      (releases_create-Ordered l r).at w h.0,
      λ id.
          Extends-trans (l.versions past id) (l.versions w.db id)
            (l.versions (releases_create e r w).1.db id) (h.1 id)
            (created_ExtendsAll r w (e.gorm.select_versions r.app.id w.db) refl id),
    );
  }

  pub History-VersionInvariant : (past : e.gorm.Db) → VersionInvariant e l (History l past)
  History-VersionInvariant past = record {
    same = History-same l past;
    transaction = record {
      begins = λ d h. History-same l past d (e.gorm.begin d) (l.begin_versions d) h;
      rolls_back = λ d t h. History-same l past d (e.gorm.rollback d t) (l.rollback_versions d t) h;
      commits = λ d t h k. History-commit l past d t (e.gorm.commit d t).0 refl h k;
    };
    creates = History-create past;
  }
