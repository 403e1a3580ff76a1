-- ===== src/Services/Scaling.antt =====
-- The loop of `appsService.Scale` (apps.go).
use empire.Prelude.{
  ◌≡◌, ◌≢◌, ◌↔◌, refl, ◌∙◌, sym, ap, arith, Bool-cases, inl, inr, Option, none, some, Option-cases,
  List, [], ◌∷◌, if◌then◌else◌, ok, Result-cases,
}
use empire.Prelude.Text.{Text, text_eq, text_eq_iff}
use empire.Prelude.Dict.{lookup, insert, lookup-insert}
use empire.Prelude.Int.{ℤ}
use empire.Constraints.{Constraints}
use empire.Processes.{Process, Formation, set_constraints}
use empire.Events.{ScaleEventUpdate}
use empire.Services.Apps.{ProcessUpdate, scale_process, scale_loop}

-- What the updates that name a process make of it, one after the other.
abbrev rescaled : Text → List ProcessUpdate → Process → Process
rescaled name [] p = p
rescaled name (up ∷ ups) p =
    rescaled name ups (if text_eq up.process name then scale_process p up else p)

abbrev rescaled_entry : Text → List ProcessUpdate → Option Process → Option Process
rescaled_entry name ups none = none
rescaled_entry name ups (some p) = some (rescaled name ups p)

module _ (up : ProcessUpdate) (ups : List ProcessUpdate) (f : Formation) (p : Process)
    (name : Text) where
  scaled_entry :
      lookup up.process f ≡ some p
      → rescaled_entry name ups (lookup name (insert up.process (scale_process p up) f))
        ≡ rescaled_entry name (up ∷ ups) (lookup name f)
  scaled_entry l =
      rw (lookup-insert up.process name (scale_process p up) f)
        (elim (Bool-cases (text_eq up.process name)) [
          | inl t ↦
              let found = ap (λ k. lookup k f) (sym ((text_eq_iff up.process name).0 t)) ∙ l in
              rw (found, t) refl
          | inr d ↦ elim (Option-cases (lookup name f)) [
            | inl n ↦ rw (n, d) refl
            | inr (q, m) ↦ rw (m, d) refl
          ]
        ])

abbrev pub Scaled : Type 0
Scaled = Formation × List ScaleEventUpdate × List Process

scale_loop_rescales :
    (ups : List ProcessUpdate) (f : Formation) (out : Scaled) (name : Text)
    → scale_loop f ups ≡ ok out
    → lookup name out.0 ≡ rescaled_entry name ups (lookup name f)
unfolding scale_loop
scale_loop_rescales [] f out name = elim (Option-cases (lookup name f)) [
  | inl n ↦ λ q. ground (arith, n, q)
  | inr (p, m) ↦ λ q. ground (arith, m, q)
]
scale_loop_rescales (up ∷ ups) f out name = elim (Option-cases (lookup up.process f)) [
  | inl n ↦ rw (n, scale_loop) (λ q. ground arith)
  | inr (p, m) ↦ elim (Result-cases (scale_loop (insert up.process (scale_process p up) f) ups)) [
    | inr (x, c) ↦ rw (m, c, scale_loop) (λ q. ground arith)
    | inl (g, c) ↦
        rw (m, c, scale_loop)
          (λ q.
            let same : g.0 ≡ out.0 = ground (arith, q) in
            sym (ap (lookup name) same)
            ∙ scale_loop_rescales ups (insert up.process (scale_process p up) f) g name c
            ∙ scaled_entry up ups f p name m)
  ]
]

-- The quantity that the last update of a process gives it, and the one that it has if none names it.
abbrev pub last_quantity : Text → List ProcessUpdate → ℤ → ℤ
last_quantity name [] q = q
last_quantity name (up ∷ ups) q =
    last_quantity name ups (if text_eq up.process name then up.quantity else q)

-- The limits of the last update of a process that has limits.
abbrev pub last_limits : Text → List ProcessUpdate → Constraints → Constraints
last_limits name [] c = c
last_limits name (up ∷ ups) c =
    last_limits name ups
      (elim up.constraints [ none ↦ c | some d ↦ if text_eq up.process name then d else c ])

-- The process with its new quantity and limits, and with everything else as it was.
abbrev pub updated : Text → List ProcessUpdate → Process → Process
updated name ups p = record {
  command = p.command;
  no_service = p.no_service;
  quantity = last_quantity name ups p.quantity;
  constraints = last_limits name ups p.constraints;
  cron = p.cron;
  ports = p.ports;
  environment = p.environment;
  ecs = p.ecs;
}

rescaled-updated :
    (name : Text) (ups : List ProcessUpdate) (p : Process)
    → rescaled name ups p ≡ updated name ups p
unfolding scale_process set_constraints
rescaled-updated name [] p = refl
rescaled-updated name (up ∷ ups) p = elim (Option-cases up.constraints) [
  | inl n ↦ elim (Bool-cases (text_eq up.process name)) [
    | inl t ↦ rw (n, t) (rescaled-updated name ups (record p { quantity = up.quantity }))
    | inr f ↦ rw (n, f) (rescaled-updated name ups p)
  ]
  | inr (c, n) ↦ elim (Bool-cases (text_eq up.process name)) [
    | inl t ↦
        rw (n, t) (rescaled-updated name ups (record p { quantity = up.quantity; constraints = c }))
    | inr f ↦ rw (n, f) (rescaled-updated name ups p)
  ]
]

abbrev pub updated_entry : Text → List ProcessUpdate → Option Process → Option Process
updated_entry name ups none = none
updated_entry name ups (some p) = some (updated name ups p)

rescaled-updated_entry :
    (name : Text) (ups : List ProcessUpdate) (o : Option Process)
    → rescaled_entry name ups o ≡ updated_entry name ups o
rescaled-updated_entry name ups none = refl
rescaled-updated_entry name ups (some p) = ap some (rescaled-updated name ups p)

-- After the loop of `Scale` each process of the formation has the quantity that the last update that
-- names it gives, the limits of the last such update that gives limits, and everything else as before;
-- what no update names stays, and no process is new or gone.
pub lookup-scale_loop :
    (ups : List ProcessUpdate) (f : Formation) (out : Scaled) (name : Text)
    → scale_loop f ups ≡ ok out
    → lookup name out.0 ≡ updated_entry name ups (lookup name f)
lookup-scale_loop ups f out name q =
    scale_loop_rescales ups f out name q ∙ rescaled-updated_entry name ups (lookup name f)

abbrev pub AllNamed : Formation → List ProcessUpdate → Type 0
AllNamed f [] = Unit
AllNamed f (up ∷ ups) = (lookup up.process f ≢ none) × AllNamed f ups

module _ (f : Formation) (n : Text) (p v : Process) (l : lookup n f ≡ some p) where
  present_insert : (k : Text) → (lookup k (insert n v f) ≢ none) ↔ (lookup k f ≢ none)
  present_insert k = ground (arith, text_eq_iff n k, lookup-insert n k v f, l)

  AllNamed-insert : (ups : List ProcessUpdate) → AllNamed (insert n v f) ups ↔ AllNamed f ups
  AllNamed-insert [] = (λ h. h, λ h. h)
  AllNamed-insert (up ∷ ups) =
      let (into, back) = AllNamed-insert ups in
      let (there, here) = present_insert up.process in
      (λ h. (there (h.0), into (h.1)), λ h. (here (h.0), back (h.1)))

-- The loop of `Scale` ends without an error exactly if each update names a process of the formation.
pub scale_loop_total :
    (ups : List ProcessUpdate) (f : Formation)
    → ((out : Scaled) × (scale_loop f ups ≡ ok out)) ↔ AllNamed f ups
unfolding scale_loop
scale_loop_total [] f = (λ h. tt, λ h. ((f, [], []), refl))
scale_loop_total (up ∷ ups) f = elim (Option-cases (lookup up.process f)) [
  | inl n ↦ rw (n, scale_loop) (λ h. ground (arith, h.1), λ h. ground (arith, n, h.0))
  | inr (p, m) ↦
      let (out, back) = scale_loop_total ups (insert up.process (scale_process p up) f) in
      let (here, there) = AllNamed-insert f up.process p (scale_process p up) m ups in
      elim (Result-cases (scale_loop (insert up.process (scale_process p up) f) ups)) [
        | inr (x, c) ↦
            rw (m, c, scale_loop)
              (λ h. ground (arith, h.1), λ h. let (o, d) = back (there h.1) in ground (arith, c, d))
        | inl (g, c) ↦
            rw (m, c, scale_loop) (λ h. (λ q. ground (arith, q), here (out (g, c))), λ h. (_, refl))
      ]
]
