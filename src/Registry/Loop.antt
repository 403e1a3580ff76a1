-- ===== src/Registry/Loop.antt =====
-- The loop of registry.go over the processes of a Procfile.
use empire.Prelude.{
  ◌≡◌, refl, Option, none, some, [], ◌∷◌, arith, Result, ok, err, Result-cases, inl, inr,
  Bool-cases,
}
use empire.Prelude.Text.{Text, text_eq, text_eq_iff}
use empire.Prelude.Dict.{Dict, lookup, insert, Unique, lookup-insert, lookup-Lacks}
use empire.Processes.{Process, Formation}
use empire.Registry.{RegistryError, fill}

-- The process that an entry stands for.
abbrev converted :
    {A : Type 0} → (A → Result RegistryError Process) → Option A → Option Process → Option Process
converted f none old = old
converted f (some a) old = elim (f a) [ ok p ↦ some p | err e ↦ none ]

lookup-fill :
    {A : Type 0} (f : A → Result RegistryError Process) (new : Formation) (d : Dict A)
    (result : Formation) (name : Text)
    → Unique d
    → fill f new d ≡ ok result
    → lookup name result ≡ converted f (lookup name d) (lookup name new)
unfolding fill lookup
lookup-fill f new [] result name u h = ground arith
lookup-fill f new ((n, a) ∷ d) result name (l, u) h = elim (Result-cases (f a)) [
  | inl (p, e) ↦
      let rest : fill f (insert n p new) d ≡ ok result = rw (e, fill) at h in
      ground (
        arith,
        lookup-fill f (insert n p new) d result name u rest,
        lookup-insert n name p new,
        text_eq_iff n name,
        lookup-Lacks n d l,
        e,
      )
  | inr (x, e) ↦ cc (rw (e, fill) at h)
]

-- Every entry converts.
abbrev pub AllConvert : {A : Type 0} → (A → Result RegistryError Process) → Dict A → Type 0
AllConvert f [] = Unit
AllConvert f ((n, a) ∷ d) = ((p : Process) × (f a ≡ ok p)) × AllConvert f d

pub fill_total :
    {A : Type 0} (f : A → Result RegistryError Process) (new : Formation) (d : Dict A)
    → AllConvert f d
    → (result : Formation) × (fill f new d ≡ ok result)
unfolding fill
fill_total f new [] h = (new, refl)
fill_total f new ((n, a) ∷ d) ((p, e), h) = rw (e, fill) (fill_total f (insert n p new) d h)

pub fill-AllConvert :
    {A : Type 0} (f : A → Result RegistryError Process) (new : Formation) (d : Dict A)
    (result : Formation)
    → fill f new d ≡ ok result
    → AllConvert f d
unfolding fill
fill-AllConvert f new [] result h = tt
fill-AllConvert f new ((n, a) ∷ d) result h = elim (Result-cases (f a)) [
  | inl (p, e) ↦ ((p, e), fill-AllConvert f (insert n p new) d result (rw (e, fill) at h))
  | inr (x, e) ↦ cc (rw (e, fill) at h)
]

-- A name has an entry on both sides, which the relation holds of, or on neither.
abbrev pub Matched : {A : Type 0} → (A → Process → Type 0) → Option A → Option Process → Type 0
Matched R none none = Unit
Matched R (some a) (some p) = R a p
Matched R _ _ = ⊥

Matched-converted :
    {A : Type 0} (f : A → Result RegistryError Process) (R : A → Process → Type 0)
    (sound : (a : A) (p : Process) → f a ≡ ok p → R a p) (d : Dict A) (name : Text)
    → AllConvert f d
    → Matched R (lookup name d) (converted f (lookup name d) none)
unfolding lookup
Matched-converted f R sound [] name h = tt
Matched-converted f R sound ((n, a) ∷ d) name ((p, e), h) = elim (Bool-cases (text_eq n name)) [
  | inl t ↦ rw (t, e) (sound a p e)
  | inr u ↦ rw u (Matched-converted f R sound d name h)
]

pub fill-Matched :
    {A : Type 0} (f : A → Result RegistryError Process) (R : A → Process → Type 0)
    (sound : (a : A) (p : Process) → f a ≡ ok p → R a p) (d : Dict A) (result : Formation)
    (name : Text)
    → Unique d
    → fill f [] d ≡ ok result
    → Matched R (lookup name d) (lookup name result)
unfolding lookup
fill-Matched f R sound d result name u h =
    rw (lookup-fill f [] d result name u h)
      (Matched-converted f R sound d name (fill-AllConvert f [] d result h))
