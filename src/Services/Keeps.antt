-- ===== src/Services/Keeps.antt =====
-- Predicates on the database that an action of Services/Exec leaves true, whether it returns or
-- fails: one rule for each way to build an action.
use empire.Prelude.{Bool, true, false, if◌then◌else◌, Result, ok, err}
use empire.Store.{Gorm, Answer}
use empire.Services.Exec.{
  Error, Action, Empire, World, Exec, ◌>>=◌, pure, raise, ask, attempt, write, lift, act, note,
  get_log, in_transaction, continue, end_transaction,
}

pub record Keeps {e : Empire} {A : Type 0} (P : e.gorm.Db → Type 0) (m : Exec e A) : Type 0 where
  pub at : (w : World e) → P w.db → P (m w).1.db

-- What a transaction does to a predicate, however it ends.
pub record Transactional (g : Gorm) (P : g.Db → Type 0) : Type 0 where
  pub begins : (d : g.Db) → P d → P (g.begin d)
  pub rolls_back : (d t : g.Db) → P d → P (g.rollback d t)
  pub commits : (d t : g.Db) → P d → P t → P (g.commit d t).1

module _ {e : Empire} {A : Type 0} {P : e.gorm.Db → Type 0} where
  pub Keeps-pure : (a : A) → Keeps P (pure {e = e} a)
  unfolding pure
  Keeps-pure a = record { at = λ w h. h }

  pub Keeps-raise : (x : Error) → Keeps P (raise {e = e} {A = A} x)
  unfolding raise
  Keeps-raise x = record { at = λ w h. h }

  pub Keeps-ask : (f : e.gorm.Db → Answer A) → Keeps P (ask {e = e} f)
  unfolding ask
  Keeps-ask f = record { at = λ w h. h }

  pub Keeps-attempt : (f : e.gorm.Db → Answer A) → Keeps P (attempt {e = e} f)
  unfolding attempt
  Keeps-attempt f = record { at = λ w h. h }

  pub Keeps-lift : {E : Type 0} (f : E → Error) (r : Result E A) → Keeps P (lift {e = e} f r)
  unfolding lift
  Keeps-lift f r = record { at = λ w h. h }

  pub Keeps-write :
      (f : e.gorm.Db → Answer A × e.gorm.Db)
      → ((d : e.gorm.Db) → P d → P (f d).1)
      → Keeps P (write {e = e} f)
  unfolding write
  Keeps-write f kf = record { at = λ w h. kf w.db h }

  pub Keeps-if : (b : Bool) (m n : Exec e A) → Keeps P m → Keeps P n → Keeps P (if b then m else n)
  Keeps-if true m n km kn = km
  Keeps-if false m n km kn = kn

  end_keeps :
      Transactional e.gorm P
      → (d : e.gorm.Db) (r : Result Error A) (w : World e) → P d
      → P w.db
      → P (end_transaction {e = e} d r w).1.db
  end_keeps t d (ok a) w h k = t.commits d w.db h k
  end_keeps t d (err x) w h k = t.rolls_back d w.db h

  pub Keeps-in_transaction :
      (m : Exec e A) → Transactional e.gorm P → Keeps P m → Keeps P (in_transaction m)
  unfolding in_transaction
  Keeps-in_transaction m t km = record {
    at = λ w h.
        let (r, w') = m (record w { db = e.gorm.begin w.db }) in
        end_keeps t w.db r w' h (km.at (record w { db = e.gorm.begin w.db }) (t.begins w.db h));
  }

module _ {e : Empire} {P : e.gorm.Db → Type 0} where
  pub Keeps-act : (a : Action) → Keeps P (act e a)
  unfolding act
  Keeps-act a = record { at = λ w h. h }

  pub Keeps-note : (a : Action) → Keeps P (note e a)
  unfolding note
  Keeps-note a = record { at = λ w h. h }

  pub Keeps-get_log : Keeps P (get_log e)
  unfolding get_log
  Keeps-get_log = record { at = λ w h. h }

module _ {e : Empire} {A B : Type 0} {P : e.gorm.Db → Type 0} where
  pub continue_keeps :
      (r : Result Error A) (f : A → Exec e B) (w : World e)
      → ((a : A) → Keeps P (f a))
      → P w.db
      → P (continue {e = e} r f w).1.db
  continue_keeps (ok a) f w kf h = (kf a).at w h
  continue_keeps (err x) f w kf h = h

  pub Keeps-bind :
      (m : Exec e A) (f : A → Exec e B) → Keeps P m → ((a : A) → Keeps P (f a)) → Keeps P (m >>= f)
  unfolding ◌>>=◌
  Keeps-bind m f km kf = record {
    at = λ w h. let (r, w') = m w in continue_keeps r f w' kf (km.at w h);
  }

pub ruleset keeps_rules = (
  Keeps-pure, Keeps-raise, Keeps-ask, Keeps-attempt, Keeps-lift, Keeps-if, Keeps-in_transaction,
  Keeps-act, Keeps-note, Keeps-get_log, Keeps-bind,
)
