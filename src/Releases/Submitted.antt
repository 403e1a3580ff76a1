-- ===== src/Releases/Submitted.antt =====
-- Which processes of a release are submitted, and with which quantity.
use empire.Prelude.{
  ◌≡◌, true, false, List, [], ◌∷◌, arith, Result, ok, >>=-eq-ok, inl, inr, if◌then◌else◌,
  Bool-cases, ◌⊎◌, not, ◌||◌,
}
use mathlib.Core.Path.{subst}
use empire.Prelude.Int.{ℤ, pos, negsuc, ltb_ℤ, to_uint}
use empire.Prelude.Text.{Text}
use empire.Processes.{Process, Formation}
use empire.Twelvefactor
use empire.Twelvefactor.{Manifest}
use empire.Releases.{
  Release, ReleaseError, entries, is_submitted, scheduler_processes, new_scheduler_process,
  new_scheduler_app, environment,
}

-- What a scheduled process keeps of the process and its release, whatever its exposure.
pub record Schedules (release : Release) (name : Text) (p : Process) (q : Twelvefactor.Process)
    : Type 0 where
  pub process_type : q.process_type ≡ name
  pub image : q.image ≡ release.slug.image
  pub command : q.command ≡ p.command
  pub quantity : q.quantity ≡ (if release.app.maintenance then pos 0 else p.quantity)
  pub memory : q.memory ≡ p.constraints.memory
  pub cpu_shares : q.cpu_shares ≡ to_uint p.constraints.cpu_share
  pub nproc : q.nproc ≡ p.constraints.nproc
  pub schedule : q.schedule ≡ p.cron

new_scheduler_process-Schedules :
    (release : Release) (name : Text) (p : Process) (q : Twelvefactor.Process)
    → new_scheduler_process release name p ≡ ok q
    → Schedules release name p q
unfolding new_scheduler_process
new_scheduler_process-Schedules release name p q h = ground arith

abbrev pub IsNegative : ℤ → Type 0
IsNegative (pos n) = ⊥
IsNegative (negsuc n) = Unit

-- A process that is kept from the scheduler.
abbrev pub IsIdle : Process → Type 0
IsIdle p = (p.no_service ≡ true) ⊎ IsNegative p.quantity

-- The scheduled processes are those of the formation that are not idle, in the formation's order.
pub data Scheduled (release : Release) : Formation → List Twelvefactor.Process → Type 0 where
  done : Scheduled release [] []
  skipped :
      {name : Text} {p : Process} {f : Formation} {qs : List Twelvefactor.Process}
      → IsIdle p
      → Scheduled release f qs
      → Scheduled release ((name, p) ∷ f) qs
  submitted :
      {name : Text} {p : Process} {q : Twelvefactor.Process} {f : Formation}
      {qs : List Twelvefactor.Process}
      → ¬ IsIdle p
      → Schedules release name p q
      → Scheduled release f qs
      → Scheduled release ((name, p) ∷ f) (q ∷ qs)

is_submitted-IsIdle : (p : Process) → is_submitted p ≡ false → IsIdle p
unfolding is_submitted
is_submitted-IsIdle p h = by_sign (p.quantity) h
  where
    by_sign :
        (i : ℤ)
        → not (p.no_service || ltb_ℤ i (pos 0)) ≡ false
        → (p.no_service ≡ true) ⊎ IsNegative i
    by_sign (pos n) e = inl (ground arith)
    by_sign (negsuc n) e = inr tt

is_submitted-not_IsIdle : (p : Process) → is_submitted p ≡ true → ¬ IsIdle p
unfolding is_submitted
is_submitted-not_IsIdle p h = by_sign (p.quantity) h
  where
    by_sign :
        (i : ℤ)
        → not (p.no_service || ltb_ℤ i (pos 0)) ≡ true
        → ¬ ((p.no_service ≡ true) ⊎ IsNegative i)
    by_sign (pos n) e (inl a) = ground arith
    by_sign (pos n) e (inr a) = absurd a
    by_sign (negsuc n) e a = ground arith

scheduler_processes-Scheduled :
    (release : Release) (f : Formation) (qs : List Twelvefactor.Process)
    → scheduler_processes release f ≡ ok qs
    → Scheduled release f qs
unfolding scheduler_processes
scheduler_processes-Scheduled release [] [] h = done
scheduler_processes-Scheduled release [] (q ∷ qs) h = cc
scheduler_processes-Scheduled release ((name, p) ∷ f) qs h = elim (Bool-cases (is_submitted p)) [
  | inl e ↦
      let (q, made, g) = >>=-eq-ok (new_scheduler_process release name p) _ (rw e at h) in
      let (rest, more, k) = >>=-eq-ok (scheduler_processes release f) _ g in
      ok_to (new_scheduler_process-Schedules release name p q made) (is_submitted-not_IsIdle p e)
        (scheduler_processes-Scheduled release f rest more) k
  | inr e ↦
      skipped (is_submitted-IsIdle p e) (scheduler_processes-Scheduled release f qs (rw e at h))
]
  where
    ok_to :
        {q : Twelvefactor.Process} {rest : List Twelvefactor.Process}
        → Schedules release name p q
        → ¬ IsIdle p
        → Scheduled release f rest
        → ◌≡◌ {A = Result ReleaseError (List Twelvefactor.Process)} (ok (q ∷ rest)) (ok qs)
        → Scheduled release ((name, p) ∷ f) qs
    ok_to {q} {rest} s n r k =
        let e : q ∷ rest ≡ qs = cc in subst (Scheduled release ((name, p) ∷ f)) e (submitted n s r)

-- The manifest of a release has one process for each process of the formation that is a service and
-- is not scaled below zero, in the order of the formation; in maintenance each has the quantity 0,
-- and otherwise its own.
pub new_scheduler_app-Scheduled :
    (release : Release) (m : Manifest)
    → new_scheduler_app release ≡ ok m
    → Scheduled release (entries release.formation) m.processes
unfolding new_scheduler_app
new_scheduler_app-Scheduled release m h =
    let (qs, made, g) = >>=-eq-ok (scheduler_processes release (entries release.formation)) _ h in
    let (env, _, k) = >>=-eq-ok (environment release.config.vars) _ g in
    let e : qs ≡ m.processes = ground arith in
    subst (Scheduled release (entries release.formation)) e
      (scheduler_processes-Scheduled release (entries release.formation) qs made)
