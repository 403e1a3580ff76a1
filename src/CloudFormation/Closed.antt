-- ===== src/CloudFormation/Closed.antt =====
-- What the values of the template builder refer to.
pub mod Containers
pub mod Tasks
pub mod Balancers
pub mod Builds
pub mod Whole
use empire.Prelude.{
  ℕ, zero, suc, ◌+◌, ◌-◌, ◌*◌, ◌/◌, ◌%◌, ◌^◌, ◌≤◌, ◌<◌, String, ◌≡◌, refl, sym, ap, ◌∙◌, ◌≢◌, ◌↔◌,
  ◌⊎◌, inl, inr, Bool, true, false, not, ◌&&◌, ◌||◌, Option, none, some, List, [], ◌∷◌, ◌++◌, map,
  append-nil, append_assoc, arith, ltb, leb, ◌==◌, if◌then◌else◌, ==_iff, Bool-cases, Option-cases,
  if_true, if_false, length, get_elem?, get_or, take, drop, length-append, All, All-append, Result,
  ok, err, ◌>>=◌, Result-cases, >>=-eq-ok,
}
use empire.Prelude.Text.{Text, codes, text_eq, text_eq_iff}
use empire.Prelude.Dict.{Dict, insert, Lacks, insert-Lacks}
use empire.Procfile.{Placement, Ecs}
use empire.Arn
use empire.Twelvefactor.{Manifest, Process, labels_of}
use empire.Troposphere.{
  Value, Fields, null, str, num, array, object, list_of, map_of, items, fields, field, end, nil,
  cons, ref, get_att, join, Resource,
}
use empire.Troposphere.References.{references, item_references, field_references, intrinsic, target}
use empire.CloudFormation.{EmpireTemplate, Tag, expand_arn, service_role_arn, sorted_environment}
use empire.CloudFormation.Containers.{
  texts, pairs, optional, container_value, process_container, task_definition, ContainerProperties,
}

-- The value refers to no name.
abbrev pub IsLocal : Value → Type 0
IsLocal v = references v ≡ []

-- Neither key makes an object of one field a reference.
abbrev pub IsPlain : {V : Type 0} → Dict V → Type 0
IsPlain m = Lacks (codes "Ref") m × Lacks (codes "Fn::GetAtt") m

module _ (K : Text → Type 0) where
  pub All-local : (v : Value) → IsLocal v → All K (references v)
  All-local v h = rw h tt

  pub All-ref : (n : Text) → K n → All K (references (ref n))
  unfolding references ref intrinsic target text_eq
  All-ref n k = (k, tt)

  pub All-get_att : (n a : Text) → K n → All K (references (get_att n a))
  unfolding references get_att intrinsic target text_eq
  All-get_att n a k = (k, tt)

  pub All-expand_arn :
      (kind name : Text) → K (codes "AWS::AccountId") → All K (references (expand_arn kind name))
  unfolding references expand_arn join ref intrinsic target text_eq
  All-expand_arn kind name k = elim (Result-cases (Arn.parse name)) [
    | inl (a, e) ↦ rw (expand_arn, e) tt
    | inr (x, e) ↦ rw (expand_arn, e) (k, tt)
  ]

  -- A list of values each of which is closed.
  pub All-items :
      {A : Type 0} (f : A → Value) (xs : List A)
      → All (λ a. All K (references (f a))) xs
      → All K (item_references (items (map f xs)))
  unfolding references
  All-items f [] h = tt
  All-items f (x ∷ xs) (p, h) = All-append K (references (f x)) _ p (All-items f xs h)

pub IsLocal-items :
    {A : Type 0} (f : A → Value) (xs : List A)
    → ((a : A) → IsLocal (f a))
    → item_references (items (map f xs)) ≡ []
unfolding references
IsLocal-items f [] h = refl
IsLocal-items f (x ∷ xs) h = rw (h x) (IsLocal-items f xs h)

intrinsic-IsPlain :
    (k : Text) (v : Value) (fs : Fields)
    → k ≢ codes "Ref"
    → k ≢ codes "Fn::GetAtt"
    → intrinsic (field k v fs) ≡ []
unfolding intrinsic
intrinsic-IsPlain k v end r g =
    ground (arith, text_eq_iff k (codes "Ref"), text_eq_iff k (codes "Fn::GetAtt"))
intrinsic-IsPlain k v (field j w fs) r g = refl

module _ (K : Text → Type 0) where
  All-split : (xs ys : List Text) → All K (xs ++ ys) → All K xs × All K ys
  All-split [] ys h = (tt, h)
  All-split (x ∷ xs) ys (p, h) = let (a, b) = All-split xs ys h in ((p, a), b)

  -- A map that is no reference itself refers to what its values refer to.
  pub All-map :
      (m : Dict Value)
      → IsPlain m
      → All K (field_references (fields m))
      → All K (references (map_of m))
  unfolding references
  All-map [] p h = unfold intrinsic in tt
  All-map ((k, v) ∷ m) ((r, _), (g, _)) h = rw (intrinsic-IsPlain k v (fields m) r g) h

  pub All-insert :
      (k : Text) (v : Value) (m : Dict Value)
      → All K (references v)
      → All K (field_references (fields m))
      → All K (field_references (fields (insert k v m)))
  unfolding references insert
  All-insert k v [] c h = All-append K (references v) [] c tt
  All-insert k v ((j, w) ∷ m) c h =
      let (a, b) = All-split (references w) _ h in
      elim (Bool-cases (text_eq j k)) [
        | inl e ↦ rw e (All-append K (references v) _ c b)
        | inr e ↦ rw e (All-append K (references w) _ a (All-insert k v m c b))
      ]
