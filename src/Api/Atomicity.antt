-- ===== src/Api/Atomicity.antt =====
-- The transactions of the operations of empire.go, and how they end.
use empire.Prelude.{◌≡◌, refl, arith, Bool, true, false, ◌&&◌, some, Result, ok, err, if◌then◌else◌}
use empire.Prelude.Text.{is_empty}
use empire.Apps.{App}
use empire.Store.{Gorm, Answer, StoreError, record_not_found, of_app, releases_scope}
use empire.Services.Exec.{
  Error, message_required, Empire, World, Exec, ◌>>=◌, pure, raise, attempt, write, end_transaction,
  if_committed, in_transaction,
}
use empire.Services.Releases.{release_query, try_releases_find, release_app, release_found}
use empire.Services.Apps.{apps_update}
use empire.Api.{
  SetMaintenanceModeOpts, require_messages, config, domains_create, domains_destroy, scale,
  attach_certs, set_maintenance_mode, maintain, caught, after_maintain,
}
use empire.Api.Calls.{
  Call, failure, serve, creating, destroying, reading_config, maintaining, setting, creating_domain,
  destroying_domain, restarting, running, rolling_back, deploying, scaling, listing_scale,
  attaching_certs,
}

-- What a query can see of the database, which a transaction that is not committed leaves alone.
pub record RollsBack {T : Type 0} (g : Gorm) (look : g.Db → T) : Type 0 where
  pub after_rollback : (d t : g.Db) → look (g.rollback d t) ≡ look d
  pub after_abort :
      (d t : g.Db) (x : StoreError) → (g.commit d t).0 ≡ err x → look (g.commit d t).1 ≡ look d

-- The calls that are a transaction after the check of their message, if they have one.
abbrev pub in_one_transaction : Call → Bool
in_one_transaction (creating o) = false
in_one_transaction (destroying o) = false
in_one_transaction (reading_config o) = true
in_one_transaction (maintaining o) = false
in_one_transaction (setting o) = false
in_one_transaction (creating_domain o) = true
in_one_transaction (destroying_domain o) = true
in_one_transaction (restarting o) = false
in_one_transaction (running o) = false
in_one_transaction (rolling_back o) = false
in_one_transaction (deploying o) = false
in_one_transaction (scaling o) = true
in_one_transaction (listing_scale o) = false
in_one_transaction (attaching_certs o) = true

-- The app as `SetMaintenanceMode` saves it.
abbrev pub flagged : SetMaintenanceModeOpts → App
flagged opts = record (opts.app) { maintenance = opts.maintenance }

module _ {g : Gorm} {T : Type 0} {look : g.Db → T} (l : RollsBack g look) {A : Type 0} where
  not_committed :
      (d t : g.Db) (r : Answer (Unit {0})) (a : A) (x : Error)
      → (g.commit d t).0 ≡ r
      → failure (if_committed r a) ≡ some x
      → look (g.commit d t).1 ≡ look d
  not_committed d t (ok u) a x p q = ground arith
  not_committed d t (err y) a x p q = l.after_abort d t y p

module _ {e : Empire} {T : Type 0} {look : e.gorm.Db → T} (l : RollsBack e.gorm look) where
  module _ {A : Type 0} where
    end_failed :
        (d : e.gorm.Db) (r : Result Error A) (w : World e) (x : Error)
        → failure (end_transaction {e = e} d r w).0 ≡ some x
        → look (end_transaction {e = e} d r w).1.db ≡ look d
    end_failed d (ok a) w x q = not_committed l d w.db (e.gorm.commit d w.db).0 a x refl q
    end_failed d (err y) w x q = l.after_rollback d w.db

    in_transaction-failed :
        (m : Exec e A) (w : World e) (x : Error)
        → failure (in_transaction m w).0 ≡ some x
        → look (in_transaction m w).1.db ≡ look w.db
    unfolding in_transaction
    in_transaction-failed m w x q =
        let (r, w') = m (record w { db = e.gorm.begin w.db }) in end_failed w.db r w' x q

    check_failed :
        (b : Bool) (f : Unit {0} → Exec e A) (w : World e) (x : Error)
        → failure (((if b then raise message_required else pure tt) >>= f) w).0 ≡ some x
        → (failure (f tt w).0 ≡ some x → look (f tt w).1.db ≡ look w.db)
        → look (((if b then raise message_required else pure tt) >>= f) w).1.db ≡ look w.db
    unfolding ◌>>=◌ raise pure
    check_failed true f w x q k = refl
    check_failed false f w x q k = k q

  -- A call that is one transaction and returns an error leaves the database as it was, for every query
  -- that a transaction which is not committed leaves alone.
  pub serve-failed :
      (c : Call) (w : World e) (x : Error)
      → in_one_transaction c ≡ true
      → (serve e c w).0 ≡ some x
      → look (serve e c w).1.db ≡ look w.db
  unfolding serve config domains_create domains_destroy scale attach_certs require_messages
  serve-failed (reading_config o) w x t q = in_transaction-failed _ w x q
  serve-failed (creating_domain o) w x t q = in_transaction-failed _ w x q
  serve-failed (destroying_domain o) w x t q = in_transaction-failed _ w x q
  serve-failed (attaching_certs o) w x t q = in_transaction-failed _ w x q
  serve-failed (scaling o) w x t q =
      check_failed (e.messages_required && is_empty o.message) _ w x q (in_transaction-failed _ w x)
  serve-failed (creating o) w x t q = ground arith
  serve-failed (destroying o) w x t q = ground arith
  serve-failed (maintaining o) w x t q = ground arith
  serve-failed (setting o) w x t q = ground arith
  serve-failed (restarting o) w x t q = ground arith
  serve-failed (running o) w x t q = ground arith
  serve-failed (rolling_back o) w x t q = ground arith
  serve-failed (deploying o) w x t q = ground arith
  serve-failed (listing_scale o) w x t q = ground arith

  module _ (opts : SetMaintenanceModeOpts) where
    passed :
        (b : Bool) (f : Unit {0} → Exec e (Unit {0})) (w : World e)
        → b ≡ false
        → ((if b then raise message_required else pure tt) >>= f) w ≡ f tt w
    unfolding ◌>>=◌ raise pure
    passed true f w q = ground arith
    passed false f w q = refl

    maintain_lost :
        (w : World e)
        → (e.gorm.save_app (flagged opts) (e.gorm.begin w.db)).0 ≡ ok tt
        → e.gorm.first_release
            (release_query (releases_scope (of_app (flagged opts))))
            (e.gorm.save_app (flagged opts) (e.gorm.begin w.db)).1
          ≡ err record_not_found
        → (caught e (in_transaction (maintain e opts)) (after_maintain e opts) w).0 ≡ ok tt
          × (caught e (in_transaction (maintain e opts)) (after_maintain e opts) w).1.log ≡ w.log
          × look (caught e (in_transaction (maintain e opts)) (after_maintain e opts) w).1.db
            ≡ look w.db
    unfolding caught in_transaction maintain after_maintain apps_update release_app
        try_releases_find release_found ◌>>=◌ raise pure write attempt
    maintain_lost w s n = rw (s, n) (refl, refl, l.after_rollback w.db _)

    -- If the app has no release, setting its maintenance mode returns no error, but the database is as
    -- it was before, and no event is published.
    pub set_maintenance_mode-lost :
        (w : World e)
        → (e.messages_required && is_empty opts.message) ≡ false
        → (e.gorm.save_app (flagged opts) (e.gorm.begin w.db)).0 ≡ ok tt
        → e.gorm.first_release
            (release_query (releases_scope (of_app (flagged opts))))
            (e.gorm.save_app (flagged opts) (e.gorm.begin w.db)).1
          ≡ err record_not_found
        → (set_maintenance_mode e opts w).0 ≡ ok tt
          × (set_maintenance_mode e opts w).1.log ≡ w.log
          × look (set_maintenance_mode e opts w).1.db ≡ look w.db
    unfolding set_maintenance_mode require_messages
    set_maintenance_mode-lost w b s n =
        rw
          (passed (e.messages_required && is_empty opts.message)
            (λ _. caught e (in_transaction (maintain e opts)) (after_maintain e opts)) w b)
          (maintain_lost w s n)
