-- ===== src/Scheduler/Locking/Creation.antt =====
-- When the creation of a stack is answered (scheduler/cloudformation/cloudformation.go)
use empire.Prelude.{
  ◌≡◌, refl, ◌≢◌, ◌⊎◌, inl, inr, Bool, true, false, Option, none, some, List, ◌∷◌, Result, ok, err,
}
use empire.Prelude.Text.{Text, codes}
use empire.Scheduler.Calls.{
  SchedulerError, blocks, Call, new_lock, cancel_pending, lock, create, Aws, World, Exec, pure,
  raise, ◌>>=◌, continue, attempt, call, raised, answered, CreateInput, Locked, acquired, canceled,
  lock_failed,
}
use empire.Scheduler.Locking.{
  Waiter, Submitted, status, ended, under_lock, locked, pending_canceled, lock_made,
  perform_stack_operation, received, refused, create_stack,
}

-- The lock of the stack could be made, the pending operation canceled, and the lock obtained.
pub IsGranted : Aws → Text → List Call → Type 0
IsGranted a name log =
    (a.fault log (new_lock name) ≡ none)
    × (a.fault (new_lock name ∷ log) (cancel_pending name) ≡ none)
    × (a.locked (cancel_pending name ∷ new_lock name ∷ log) name ≡ acquired)

-- The operation is answered, or its caller waits for ever.
abbrev IsAnswered : Exec Submitted → World → Type 0
IsAnswered m v = (p : Submitted) × ((m v).0 ≡ ok p)

abbrev IsStuck : Exec Submitted → World → Type 0
IsStuck m v = (m v).0 ≡ err blocks

superseded-IsStuck :
    (b : Bool) (v : World)
    → IsStuck
        (status b (codes "Operation superseded by newer release")
          >>= (λ _. ended none (ok none))
          >>= received)
        v
unfolding status ended received ◌>>=◌ continue call pure raise
superseded-IsStuck true v = refl
superseded-IsStuck false v = refl

module _ (a : Aws) (b : Bool) (w : Waiter) (name : Text) (fn : Exec Unit) where
  under_lock-IsAnswered :
      (r : Result {0, 0} SchedulerError Unit) (v : World)
      → IsAnswered (under_lock a b w name r >>= received) v
  unfolding under_lock ended received ◌>>=◌ continue attempt call pure
  under_lock-IsAnswered (err e) v = (_, refl)
  under_lock-IsAnswered (ok u) v = (_, refl)

  locked-cases :
      (l : Locked) (v : World)
      → ((l ≡ acquired) × IsAnswered (locked a b w name fn l >>= received) v)
        ⊎ ((l ≢ acquired) × IsStuck (locked a b w name fn l >>= received) v)
  unfolding locked ended received ◌>>=◌ continue attempt pure raise
  locked-cases acquired v = inl (refl, under_lock-IsAnswered (fn v).0 (fn v).1)
  locked-cases canceled v = inr (λ e. cc, superseded-IsStuck b v)
  locked-cases (lock_failed t) v = inr (λ e. cc, refl)

  pending_canceled-cases :
      (o : Option Text) (v : World)
      → ((o ≡ none)
          × (a.locked v.log name ≡ acquired)
          × IsAnswered (pending_canceled a b w name fn (raised o v).0 >>= received) (raised o v).1)
        ⊎ (((o ≡ none) × (a.locked v.log name ≡ acquired) → ⊥)
            × IsStuck (pending_canceled a b w name fn (raised o v).0 >>= received) (raised o v).1)
  unfolding pending_canceled raised ended received ◌>>=◌ continue attempt call pure raise
  pending_canceled-cases none v =
      elim (locked-cases (a.locked v.log name) (record v { log = lock name ∷ v.log })) [
        | inl (granted, reply) ↦ inl (refl, granted, reply)
        | inr (no_grant, stuck) ↦ inr (λ (e, g). no_grant g, stuck)
      ]
  pending_canceled-cases (some t) v = inr (λ g. cc, refl)

  lock_made-cases :
      (o : Option Text) (v : World)
      → ((o ≡ none)
          × (a.fault v.log (cancel_pending name) ≡ none)
          × (a.locked (cancel_pending name ∷ v.log) name ≡ acquired)
          × IsAnswered (lock_made a b w name fn (raised o v).0 >>= received) (raised o v).1)
        ⊎ (((o ≡ none)
                × (a.fault v.log (cancel_pending name) ≡ none)
                × (a.locked (cancel_pending name ∷ v.log) name ≡ acquired)
              → ⊥)
            × IsStuck (lock_made a b w name fn (raised o v).0 >>= received) (raised o v).1)
  unfolding lock_made raised answered ended received ◌>>=◌ continue attempt call pure raise
  lock_made-cases none v =
      elim (pending_canceled-cases (a.fault v.log (cancel_pending name))
        (record v { log = cancel_pending name ∷ v.log })) [
          | inl (made, granted, reply) ↦ inl (refl, made, granted, reply)
          | inr (no_grant, stuck) ↦ inr (λ (e, f, g). no_grant (f, g), stuck)
        ]
  lock_made-cases (some t) v = inr (λ g. cc, refl)

-- The creation of a stack is answered exactly where the lock is granted; it waits for ever where the lock
-- cannot be made, the pending operation cannot be canceled, a newer operation takes its place or the lock
-- is not obtained.
pub create_stack_answered :
    (a : Aws) (b : Bool) (i : CreateInput) (v : World)
    → (IsGranted a i.stack_name v.log × ((p : Submitted) × ((create_stack a b i v).0 ≡ ok p)))
      ⊎ ((¬ IsGranted a i.stack_name v.log) × ((create_stack a b i v).0 ≡ err blocks))
unfolding create_stack perform_stack_operation answered ◌>>=◌ continue attempt call IsGranted
create_stack_answered a b i v =
    elim (lock_made-cases a b
      (record { start_message = codes "Creating stack"; success_message = codes "Stack created" })
      i.stack_name (call (create i) (λ l. a.refuses l (create i)) >>= refused)
      (a.fault v.log (new_lock i.stack_name)) (record v { log = new_lock i.stack_name ∷ v.log })) [
        | inl (made, cleared, granted, reply) ↦ inl ((made, cleared, granted), reply)
        | inr (no_grant, stuck) ↦ inr (no_grant, stuck)
      ]
