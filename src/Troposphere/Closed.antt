-- ===== src/Troposphere/Closed.antt =====
-- Which names a template declares, and when all the names in it are declared: rules for each way to
-- build a template.
use empire.Prelude.{
  ◌≡◌, inl, inr, Bool, true, false, ◌||◌, Option, none, some, List, [], ◌∷◌, arith, Bool-cases, All,
  ok,
}
use empire.Prelude.Text.{Text, codes, text_eq, text_eq_refl}
use empire.Prelude.Dict.{Dict, lookup, insert, lookup-insert}
use empire.Troposphere.{Value, str, array, cons, Output, Resource, Template, put_resource}
use empire.Troposphere.References.{references}
use empire.Troposphere.Builder.{Builder}

unfoldable pub is_some : {A : Type 0} → Option A → Bool
is_some none = false
is_some (some a) = true

unfoldable pub has : {V : Type 0} → Text → Dict V → Bool
unfolding is_some
has k m = is_some (lookup k m)

-- A resource, a parameter or the pseudo parameter that the code uses.
unfoldable pub declares : Template → Text → Bool
declares t n = has n t.resources || (has n t.parameters || text_eq n (codes "AWS::AccountId"))

-- The names in `DependsOn` and in `Condition`.
unfoldable pub names_of : Value → List Text
names_of (str s) = s ∷ []
names_of (array (cons (str s) vs)) = s ∷ names_of (array vs)
names_of _ = []

module _ (K C : Text → Type 0) where
  -- Every name that the resource refers to is in `K`, and every condition in `C`.
  abbrev pub ResourceClosed : Resource → Type 0
  ResourceClosed r =
      All K (references r.properties) × All K (names_of r.depends_on) × All C (names_of r.condition)

  abbrev pub ResourcesClosed : Dict Resource → Type 0
  ResourcesClosed [] = Unit
  ResourcesClosed ((k, r) ∷ m) = ResourceClosed r × ResourcesClosed m

  abbrev pub OutputsClosed : Dict Output → Type 0
  OutputsClosed [] = Unit
  OutputsClosed ((k, o) ∷ m) = All K (references o.value) × OutputsClosed m

  abbrev pub ConditionsClosed : Dict Value → Type 0
  ConditionsClosed [] = Unit
  ConditionsClosed ((k, v) ∷ m) = All K (references v) × ConditionsClosed m

  abbrev pub TemplateClosed : Template → Type 0
  TemplateClosed t =
      ResourcesClosed t.resources × OutputsClosed t.outputs × ConditionsClosed t.conditions

  pub insert-ResourcesClosed :
      (k : Text) (r : Resource) (m : Dict Resource)
      → ResourceClosed r
      → ResourcesClosed m
      → ResourcesClosed (insert k r m)
  unfolding insert
  insert-ResourcesClosed k r [] c h = (c, tt)
  insert-ResourcesClosed k r ((j, s) ∷ m) c (d, h) = elim (Bool-cases (text_eq j k)) [
    | inl e ↦ rw e (c, h)
    | inr e ↦ rw e (d, insert-ResourcesClosed k r m c h)
  ]

  pub insert-OutputsClosed :
      (k : Text) (o : Output) (m : Dict Output)
      → All K (references o.value)
      → OutputsClosed m
      → OutputsClosed (insert k o m)
  unfolding insert
  insert-OutputsClosed k o [] c h = (c, tt)
  insert-OutputsClosed k o ((j, s) ∷ m) c (d, h) = elim (Bool-cases (text_eq j k)) [
    | inl e ↦ rw e (c, h)
    | inr e ↦ rw e (d, insert-OutputsClosed k o m c h)
  ]

  pub insert-ConditionsClosed :
      (k : Text) (v : Value) (m : Dict Value)
      → All K (references v)
      → ConditionsClosed m
      → ConditionsClosed (insert k v m)
  unfolding insert
  insert-ConditionsClosed k v [] c h = (c, tt)
  insert-ConditionsClosed k v ((j, s) ∷ m) c (d, h) = elim (Bool-cases (text_eq j k)) [
    | inl e ↦ rw e (c, h)
    | inr e ↦ rw e (d, insert-ConditionsClosed k v m c h)
  ]

-- What is declared in `t` is declared in `u`.
pub record Extends (t u : Template) : Type 0 where
  pub names : (n : Text) → declares t n ≡ true → declares u n ≡ true
  pub kept : (n : Text) → has n t.resources ≡ true → has n u.resources ≡ true
  pub guards : (c : Text) → has c t.conditions ≡ true → has c u.conditions ≡ true

pub record Grows {A : Type 0} (m : Builder A) : Type 0 where
  pub grown : (t u : Template) (a : A) → m t ≡ ok (a, u) → Extends t u

pub has-insert :
    {V : Type 0} (k j : Text) (v : V) (m : Dict V) → has j (insert k v m) ≡ (text_eq k j || has j m)
unfolding has is_some
has-insert k j v m = elim (Bool-cases (text_eq k j)) [
  | inl e ↦ rw (e, lookup-insert k j v m, e)
  | inr e ↦ rw (e, lookup-insert k j v m, e)
]

pub has-insert_self : {V : Type 0} (k : Text) (v : V) (m : Dict V) → has k (insert k v m) ≡ true
has-insert_self k v m = rw (has-insert k k v m, text_eq_refl k)

pub Extends-refl : (t : Template) → Extends t t
Extends-refl t = record { names = λ n h. h; kept = λ n h. h; guards = λ c h. h }

pub Extends-put_resource : (k : Text) (r : Resource) (t : Template) → Extends t (put_resource k r t)
unfolding put_resource declares
Extends-put_resource k r t = record {
  names = λ n h. rw (has-insert k n r t.resources) (ground arith);
  kept = λ n h. rw (has-insert k n r t.resources) (ground arith);
  guards = λ c h. h;
}

pub Extends-trans : (t u v : Template) → Extends t u → Extends u v → Extends t v
Extends-trans t u v a b = record {
  names = λ n h. b.names n (a.names n h);
  kept = λ n h. b.kept n (a.kept n h);
  guards = λ c h. b.guards c (a.guards c h);
}
