-- ===== src/Scheduler/Table.antt =====
-- What the operations leave in the table of the stacks.
use empire.Prelude.{
  ◌≡◌, refl, sym, ap, ◌∙◌, ◌⊎◌, inl, inr, Bool, true, false, Option, none, some, List,
  if◌then◌else◌, Result, ok, err,
}
use empire.Prelude.Text.{Text}
use empire.Prelude.Dict.{Dict}
use empire.Scheduler.Calls.{
  SchedulerError, Call, Aws, World, Exec, pure, raise, ◌>>=◌, continue, attempt, ask, call, raised,
  answered, found, row, get_row, stacks_row, settle, in_transaction, begin, commit,
}

-- The action leaves the table as it is, whether it returns or fails.
pub record Same {A : Type 0} (m : Exec A) : Type 0 where
  pub same : (w : World) → (m w).1.stacks ≡ w.stacks

module _ {A : Type 0} where
  pub Same-pure : (a : A) → Same (pure a)
  unfolding pure
  Same-pure a = record { same = λ w. refl }

  pub Same-raise : (e : SchedulerError) → Same (raise {A = A} e)
  unfolding raise
  Same-raise e = record { same = λ w. refl }

  pub Same-ask : (f : List Call → A) → Same (ask f)
  unfolding ask
  Same-ask f = record { same = λ w. refl }

  pub Same-call : (c : Call) (f : List Call → A) → Same (call c f)
  unfolding call
  Same-call c f = record { same = λ w. refl }

  pub Same-attempt : (m : Exec A) → Same m → Same (attempt m)
  unfolding attempt
  Same-attempt m s = record { same = λ w. s.same w }

  pub Same-if : (b : Bool) (m n : Exec A) → Same m → Same n → Same (if b then m else n)
  Same-if true m n g h = g
  Same-if false m n g h = h

paired : {A : Type 0} (p : Result SchedulerError A × World) {a : A} → p.0 ≡ ok a → p ≡ (ok a, p.1)
paired (r, v) e = rw e

module _ {A B : Type 0} where
  continue-Same :
      (r : Result SchedulerError A) (f : A → Exec B) (w : World)
      → ((a : A) → Same (f a))
      → (continue r f w).1.stacks ≡ w.stacks
  unfolding continue
  continue-Same (ok a) f w s = (s a).same w
  continue-Same (err e) f w s = refl

  pub Same-bind : (m : Exec A) (f : A → Exec B) → Same m → ((a : A) → Same (f a)) → Same (m >>= f)
  unfolding ◌>>=◌
  Same-bind m f s t = record { same = λ w. let (r, u) = m w in continue-Same r f u t ∙ s.same w }

  continue-eq-ok :
      (r : Result SchedulerError A) (f : A → Exec B) (w u : World) {b : B}
      → continue r f w ≡ (ok b, u)
      → (a : A) × (r ≡ ok a) × (f a w ≡ (ok b, u))
  unfolding continue
  continue-eq-ok (ok a) f w u e = (a, refl, e)
  continue-eq-ok (err x) f w u e = cc

  pub bind-eq-ok :
      (m : Exec A) (f : A → Exec B) (w u : World) {b : B}
      → (m >>= f) w ≡ (ok b, u)
      → (a : A) × (v : World) × (m w ≡ (ok a, v)) × (f a v ≡ (ok b, u))
  unfolding ◌>>=◌
  bind-eq-ok m f w u e =
      let (a, ea, ef) = continue-eq-ok (m w).0 f (m w).1 u e in (a, (m w).1, paired (m w) ea, ef)

pub ruleset same_rules =
    (Same-pure, Same-raise, Same-ask, Same-call, Same-attempt, Same-if, Same-bind)

Same-raised : (o : Option Text) → Same (raised o)
unfolding raised
Same-raised none = search (same_rules)
Same-raised (some t) = search (same_rules)

pub Same-answered : (a : Aws) (c : Call) → Same (answered a c)
unfolding answered
Same-answered a c = search (same_rules, Same-raised)

Same-found : (o : Option Text) → Same (found o)
unfolding found
Same-found none = search (same_rules)
Same-found (some t) = search (same_rules)

pub Same-stacks_row : (a : Aws) (app_id : Text) → Same (stacks_row a app_id)
unfolding stacks_row get_row
Same-stacks_row a app_id =
    Same-bind _ _ (Same-answered a _) λ _. record { same = λ w. (Same-found (row app_id w)).same w }

-- Where the transaction returns, its action did, and the table is as the action left it; where it
-- fails, the table is as it was.
settle_cases :
    {A : Type 0} (before : Dict Text) (r : Result SchedulerError A) (u : World)
    → ((a : A) × (r ≡ ok a) × (settle before r u ≡ (ok a, u)))
      ⊎ ((e : SchedulerError) × ((settle before r u).0 ≡ err e)
          × ((settle before r u).1.stacks ≡ before))
unfolding settle
settle_cases before (ok a) u = inl (a, refl, refl)
settle_cases before (err e) u = inr (e, refl, refl)

module _ {A : Type 0} (a : Aws) where
  -- The statements between the begin and the commit.
  abbrev transacted : Exec A → Exec A
  transacted m = answered a begin >>= λ _. m >>= λ x. answered a commit >>= λ _. pure x

  committed :
      (x : A) (u t : World) {y : A}
      → (answered a commit >>= λ _. pure x) u ≡ (ok y, t)
      → (x ≡ y) × (t.stacks ≡ u.stacks)
  unfolding pure
  committed x u t e =
      let (c, v, done, last) = bind-eq-ok (answered a commit) (λ _. pure x) u t e in
      let kept : v.stacks ≡ u.stacks =
        sym (ap (λ p. p.1.stacks) done) ∙ (Same-answered a commit).same u in
      (cc, sym (ap (λ p. p.1.stacks) last) ∙ kept)

  transacted-eq-ok :
      (m : Exec A) (w t : World) {y : A}
      → transacted m w ≡ (ok y, t)
      → (v u : World) × (m v ≡ (ok y, u)) × (v.stacks ≡ w.stacks) × (t.stacks ≡ u.stacks)
  transacted-eq-ok m w t e =
      let (b, v, began, rest) =
        bind-eq-ok (answered a begin) (λ _. m >>= λ x. answered a commit >>= λ _. pure x) w t e in
      let (x, u, ran, ended) = bind-eq-ok m (λ x. answered a commit >>= λ _. pure x) v t rest in
      let (same, kept) = committed x u t ended in
      (
        v,
        u,
        rw (← same) ran,
        ap (λ p. p.1.stacks) (sym began) ∙ (Same-answered a begin).same w,
        kept,
      )

pub in_transaction_cases :
    {A : Type 0} (a : Aws) (m : Exec A) (w : World)
    → ((x : A) × (v u : World) × (m v ≡ (ok x, u))
        × (v.stacks ≡ w.stacks)
        × ((in_transaction a m w).0 ≡ ok x)
        × ((in_transaction a m w).1.stacks ≡ u.stacks))
      ⊎ ((e : SchedulerError) × ((in_transaction a m w).0 ≡ err e)
          × ((in_transaction a m w).1.stacks ≡ w.stacks))
unfolding in_transaction
in_transaction_cases a m w =
    elim (settle_cases w.stacks (transacted a m w).0 (transacted a m w).1) [
      | inr (e, failed, kept) ↦ inr (e, failed, kept)
      | inl (x, returned, settled) ↦
          let (v, u, ran, kept, left) =
            transacted-eq-ok a m w (transacted a m w).1 (paired (transacted a m w) returned) in
          inl (x, v, u, ran, kept, ap (λ p. p.0) settled, ap (λ p. p.1.stacks) settled ∙ left)
    ]
