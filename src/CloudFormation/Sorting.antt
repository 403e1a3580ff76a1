-- ===== src/CloudFormation/Sorting.antt =====
-- The sorted environment of a container, and the settings that `Validate` accepts.
use empire.Prelude.{
  ◌≡◌, refl, ◌≢◌, inl, inr, true, false, Option, some, List, [], ◌∷◌, arith, if◌then◌else◌,
  Bool-cases,
}
use empire.Prelude.Text.{Text, text_eq, text_eq_iff}
use empire.Prelude.Dict.{Dict, lookup, Lacks, Unique}
use empire.Configs.{text_lt}
use empire.CloudFormation.{sorted_environment, insert_pair}

swapped :
    (j k : Text) (p : Text × Text) (w : Text)
    → j ≢ p.0
    → (o : Option Text)
    → (if text_eq j k then some w else if text_eq p.0 k then some p.1 else o)
      ≡ (if text_eq p.0 k then some p.1 else if text_eq j k then some w else o)
swapped j k p w n o = ground (arith, text_eq_iff j k, text_eq_iff p.0 k)

lookup-insert_pair :
    (k : Text) (p : Text × Text) (m : List (Text × Text))
    → Lacks p.0 m
    → lookup k (insert_pair p m) ≡ (if text_eq p.0 k then some p.1 else lookup k m)
unfolding insert_pair lookup
lookup-insert_pair k p [] h = refl
lookup-insert_pair k p ((j, w) ∷ m) (n, h) = elim (Bool-cases (text_lt j p.0)) [
  | inl e ↦ rw (e, lookup-insert_pair k p m h) (swapped j k p w n (lookup k m))
  | inr e ↦ rw e refl
]

pub Lacks-insert_pair :
    (k : Text) (p : Text × Text) (m : List (Text × Text))
    → p.0 ≢ k
    → Lacks k m
    → Lacks k (insert_pair p m)
unfolding insert_pair
Lacks-insert_pair k p [] n h = (n, tt)
Lacks-insert_pair k p ((j, w) ∷ m) n (l, h) = elim (Bool-cases (text_lt j p.0)) [
  | inl e ↦ rw e (l, Lacks-insert_pair k p m n h)
  | inr e ↦ rw e (n, (l, h))
]

pub Lacks-sorted : (k : Text) (m : Dict Text) → Lacks k m → Lacks k (sorted_environment m)
unfolding sorted_environment
Lacks-sorted k [] h = tt
Lacks-sorted k ((j, v) ∷ m) (n, h) =
    Lacks-insert_pair k (j, v) (sorted_environment m) n (Lacks-sorted k m h)

-- No name comes before its predecessor.
abbrev pub Ascending : List (Text × Text) → Type 0
Ascending [] = Unit
Ascending (p ∷ []) = Unit
Ascending (p ∷ q ∷ ps) = (text_lt q.0 p.0 ≡ false) × Ascending (q ∷ ps)

text_lt-asymmetric : (s t : Text) → text_lt s t ≡ true → text_lt t s ≡ false
unfolding text_lt
text_lt-asymmetric s [] h = ground arith
text_lt-asymmetric [] (d ∷ t) h = refl
text_lt-asymmetric (c ∷ s) (d ∷ t) h = ground (arith, text_lt-asymmetric s t)

Ascending-cons :
    (q p r : Text × Text) (m : List (Text × Text))
    → text_lt p.0 q.0 ≡ false
    → text_lt r.0 q.0 ≡ false
    → Ascending (insert_pair p (r ∷ m))
    → Ascending (q ∷ insert_pair p (r ∷ m))
unfolding insert_pair
Ascending-cons q p r m a b h = elim (Bool-cases (text_lt r.0 p.0)) [
  | inl e ↦ rw e (b, rw e at h)
  | inr e ↦ rw e (a, rw e at h)
]

Ascending-insert_pair :
    (p : Text × Text) (m : List (Text × Text)) → Ascending m → Ascending (insert_pair p m)
unfolding insert_pair
Ascending-insert_pair p [] h = tt
Ascending-insert_pair p (q ∷ []) h = elim (Bool-cases (text_lt q.0 p.0)) [
  | inl e ↦ rw e (text_lt-asymmetric q.0 p.0 e, tt)
  | inr e ↦ rw e (e, tt)
]
Ascending-insert_pair p (q ∷ r ∷ m) (l, h) = elim (Bool-cases (text_lt q.0 p.0)) [
  | inl e ↦
      rw e (
        Ascending-cons q p r m (text_lt-asymmetric q.0 p.0 e) l (Ascending-insert_pair p (r ∷ m) h))
  | inr e ↦ rw e (e, (l, h))
]

-- The container gets the variables in the order of their names, and every variable of the map with
-- its value and no other, if the map has one entry for a key.
pub sorted_environment_lem :
    (env : Dict Text)
    → Unique env
    → Ascending (sorted_environment env)
      × ((k : Text) → lookup k (sorted_environment env) ≡ lookup k env)
unfolding sorted_environment
sorted_environment_lem [] h = (tt, λ k. refl)
sorted_environment_lem ((j, v) ∷ env) (l, u) =
    let (a, s) = sorted_environment_lem env u in
    (
      Ascending-insert_pair (j, v) (sorted_environment env) a,
      λ k.
          rw (lookup-insert_pair k (j, v) (sorted_environment env) (Lacks-sorted j env l), s k)
            (unfold lookup in refl),
    )
