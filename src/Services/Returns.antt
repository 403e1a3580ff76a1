-- ===== src/Services/Returns.antt =====
-- What holds of the parts of an action that returns, and how a failed transaction ends.
use empire.Prelude.{◌≡◌, refl, sym, ap, ◌∙◌, arith, Result, ok, err}
use empire.Store.{Answer}
use empire.Services.Exec.{
  Error, Empire, World, Exec, ◌>>=◌, ◌>>◌, pure, continue, end_transaction, if_committed,
  in_transaction, of_answer,
}
use empire.Services.Keeps.{Keeps}

module _ {e : Empire} {A B : Type 0} (f : A → Exec e B) where
  continue_ok :
      (x : Result Error A) (w : World e) (b : B)
      → (continue {e = e} x f w).0 ≡ ok b
      → (a : A) × (x ≡ ok a) × (continue {e = e} x f w ≡ f a w)
  continue_ok (ok a) w b q = (a, refl, refl)
  continue_ok (err x) w b q = ground arith

  -- A block that returns goes on with what its first action returned.
  pub >>=-ok :
      (m : Exec e A) (w : World e) (b : B)
      → ((m >>= f) w).0 ≡ ok b
      → (a : A) × ((m w).0 ≡ ok a) × ((m >>= f) w ≡ f a (m w).1)
  unfolding ◌>>=◌
  >>=-ok m w b q = continue_ok (m w).0 (m w).1 b q

module _ {A : Type 0} where
  pub of_answer_ok : (x : Answer A) (a : A) → of_answer x ≡ ok a → x ≡ ok a
  of_answer_ok (ok b) a q = ground (arith, q)
  of_answer_ok (err x) a q = ground arith

  committed : (x : Answer (Unit {0})) (b a : A) → if_committed x b ≡ ok a → (x ≡ ok tt) × (b ≡ a)
  committed (ok tt) b a q = ground (arith, q)
  committed (err x) b a q = ground arith

module _ {e : Empire} {A : Type 0} where
  end_ok :
      (d : e.gorm.Db) (x : Result Error A) (w : World e) (a : A)
      → (end_transaction {e = e} d x w).0 ≡ ok a
      → (x ≡ ok a)
        × ((e.gorm.commit d w.db).0 ≡ ok tt)
        × ((end_transaction {e = e} d x w).1.db ≡ (e.gorm.commit d w.db).1)
  end_ok d (ok b) w a q =
      let (c, s) = committed (e.gorm.commit d w.db).0 b a q in (rw s refl, c, refl)
  end_ok d (err x) w a q = ground arith

  -- A transaction that returns has been committed.
  pub in_transaction-ok :
      (m : Exec e A) (w : World e) (a : A)
      → (in_transaction m w).0 ≡ ok a
      → ((m (record w { db = e.gorm.begin w.db })).0 ≡ ok a)
        × ((e.gorm.commit w.db (m (record w { db = e.gorm.begin w.db })).1.db).0 ≡ ok tt)
        × ((in_transaction m w).1.db
            ≡ (e.gorm.commit w.db (m (record w { db = e.gorm.begin w.db })).1.db).1)
  unfolding in_transaction
  in_transaction-ok m w a q =
      let (r, w') = m (record w { db = e.gorm.begin w.db }) in end_ok w.db r w' a q

same_ok : {A : Type 0} (x a : A) (y : Result Error A) → y ≡ ok x → y ≡ ok a → x ≡ a
same_ok x a y p q = ground (arith, p, q)

module _ {e : Empire} {A : Type 0} where
  -- An action whose result is returned after another that leaves the database as it is.
  pub return_after :
      (m : Exec e A) (n : A → Exec e (Unit {0})) (w : World e) (a : A)
      → ((x : A) (d : e.gorm.Db) → Keeps (λ y. y ≡ d) (n x))
      → ((m >>= λ x. n x >> pure x) w).0 ≡ ok a
      → ((m w).0 ≡ ok a) × (((m >>= λ x. n x >> pure x) w).1.db ≡ (m w).1.db)
  unfolding pure
  return_after m n w a k q =
      let (x, s, t) = >>=-ok (λ x. n x >> pure x) m w a q in
      let (u, v, y) = >>=-ok (λ _. pure x) (n x) (m w).1 a (ap (λ p. p.0) (sym t) ∙ q) in
      let same = same_ok x a _ (ap (λ p. p.0) (t ∙ y)) q in
      (s ∙ ap ok same, ap (λ p. p.1.db) (t ∙ y) ∙ (k x (m w).1.db).at (m w).1 refl)
