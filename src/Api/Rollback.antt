-- ===== src/Api/Rollback.antt =====
-- `Rollback` (empire.go, releases.go).
use empire.Prelude.{
  ℕ, ◌+◌, ◌≡◌, refl, sym, ◌∙◌, ap, Bool, true, false, ◌&&◌, Option, some, ◌++◌, if◌then◌else◌, ok,
}
use empire.Prelude.Text.{Text, codes, is_empty}
use empire.Prelude.Text.Decimal.{format_nat}
use empire.Configs.{append_message_to_description}
use empire.Processes.{Formation}
use empire.Releases.{Release}
use empire.Store.{at_version, releases_scope}
use empire.Store.Laws.{VersionLaws}
use empire.Services.Exec.{
  message_required, Empire, World, Exec, ◌>>=◌, pure, raise, ask, in_transaction,
}
use empire.Services.Keeps.{Keeps-act}
use empire.Services.Returns.{>>=-ok, in_transaction-ok, return_after}
use empire.Services.Ordered.{Ordered, Ordered-same}
use empire.Services.Created.{NextVersion, create_and_release-made}
use empire.Services.Releases
use empire.Services.Releases.{RollbackOpts, newest, new_release, release_query}
use empire.Api.{require_messages, rollback}

-- What the old release ran, as the release of another version.
abbrev pub rolled_back : RollbackOpts → Release → Formation → Release → ℕ → Option ℕ → Release
rolled_back opts old f made version time = record old {
  id = made.id;
  version = version;
  app = opts.app;
  formation = some f;
  description =
      append_message_to_description (codes "Rollback to v" ++ format_nat opts.version) opts.user
        opts.message;
  created_at = time;
}

module _ {e : Empire} where
  checked_world :
      (b : Bool) (w : World e)
      → ((if b then raise {e = e} {A = Unit {0}} message_required else pure tt) w).1 ≡ w
  unfolding raise pure
  checked_world true w = refl
  checked_world false w = refl

  require_messages-world : (m : Text) (w : World e) → (require_messages e m w).1 ≡ w
  unfolding require_messages
  require_messages-world m w = checked_world (e.messages_required && is_empty m) w

  -- An operation that returns has passed the check of its message.
  pub past_check :
      {A : Type 0} (m : Text) (f : Unit {0} → Exec e A) (w : World e) (a : A)
      → ((require_messages e m >>= f) w).0 ≡ ok a
      → (require_messages e m >>= f) w ≡ f tt w
  past_check m f w a q =
      let (u, s, t) = >>=-ok f (require_messages e m) w a q in
      t ∙ ap (λ v. f tt v) (require_messages-world m w)

module _ {e : Empire} (l : VersionLaws e.gorm) (opts : RollbackOpts) (old : Release)
    (f : Formation) where
  module _ (made : Release) (w : World e) (h : Ordered l w.db) where
    service_rollback :
        e.gorm.first_release
            (release_query (releases_scope (at_version opts.app opts.version)))
            w.db
          ≡ ok old
        → old.formation ≡ some f
        → (Releases.rollback e opts w).0 ≡ ok made
        → (made
            ≡ rolled_back opts old f made
                (newest (l.versions w.db opts.app.id) + 1)
                (some (e.world.now w.log)))
          × NextVersion l opts.app.id w.db (Releases.rollback e opts w).1.db
    unfolding Releases.rollback Releases.releases_find Releases.rollback_release ◌>>=◌ ask
    service_rollback p k =
        rw (p, k)
          (λ q. create_and_release-made l (Releases.rollback_release e opts old) f made w h q)

  module _ (made : Release) (w : World e) (h : Ordered l w.db) where
    begun : World e
    begun = record w { db = e.gorm.begin w.db }

    begun_versions : (id : Text) → l.versions begun.db id ≡ l.versions w.db id
    unfolding begun
    begun_versions id = l.begin_versions w.db id

    service_committed :
        e.gorm.first_release
            (release_query (releases_scope (at_version opts.app opts.version)))
            (e.gorm.begin w.db)
          ≡ ok old
        → old.formation ≡ some f
        → (in_transaction (Releases.rollback e opts) w).0 ≡ ok made
        → (made
            ≡ rolled_back opts old f made
                (newest (l.versions w.db opts.app.id) + 1)
                (some (e.world.now w.log)))
          × NextVersion l opts.app.id w.db (in_transaction (Releases.rollback e opts) w).1.db
    unfolding begun
    service_committed p k q =
        let (r, c, d) = in_transaction-ok (Releases.rollback e opts) w made q in
        let (m, n) =
          service_rollback made begun (Ordered-same l w.db begun.db begun_versions h) p k r in
        (
          rw (sym (begun_versions opts.app.id)) m,
          λ id.
              rw
                (
                  d,
                  l.commit_versions w.db (Releases.rollback e opts begun).1.db id c,
                  sym (begun_versions opts.app.id),
                  sym (begun_versions id),
                )
                (n id),
        )

    -- Where the database keeps `VersionLaws` and the versions were in order: a rollback that returns has
    -- made the next version of the app's releases, with the slug, the config and the formation of the
    -- release of the version that was asked for, if that has a formation; and no other app has a new
    -- version.
    pub rollback-made :
        e.gorm.first_release
            (release_query (releases_scope (at_version opts.app opts.version)))
            (e.gorm.begin w.db)
          ≡ ok old
        → old.formation ≡ some f
        → (rollback e opts w).0 ≡ ok made
        → (made
            ≡ rolled_back opts old f made
                (newest (l.versions w.db opts.app.id) + 1)
                (some (e.world.now w.log)))
          × NextVersion l opts.app.id w.db (rollback e opts w).1.db
    unfolding rollback
    rollback-made p k q =
        let t = past_check opts.message _ w made q in
        let (s, d) =
          return_after (in_transaction (Releases.rollback e opts)) _ w made (λ x y. Keeps-act _)
            (ap (λ x. x.0) (sym t) ∙ q) in
        let (m, n) = service_committed p k s in (m, λ id. rw (t, d) (n id))
