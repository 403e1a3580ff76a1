-- ===== src/Troposphere/Builder.antt =====
-- Code that changes a template, and panics or returns an error (the pointer `tmpl` of
-- scheduler/cloudformation/template.go): a state and error monad over the template.
use empire.Prelude.{Option, none, some, Result, ok, err, ◌≡◌, inl, inr, Result-cases}
use empire.Prelude.Text.{Text}
use empire.Prelude.Dict.{insert}
use empire.Troposphere.{
  Value, Parameter, Output, Resource, Template, BuildError, put_resource, add_resource,
}

abbrev pub Builder : Type 0 → Type 0
Builder A = Template → Result BuildError (A × Template)

module _ {A : Type 0} where
  unfoldable pub pure : A → Builder A
  pure a t = ok (a, t)

  unfoldable pub fail : BuildError → Builder A
  fail e t = err e

  -- What the code does with a pointer or an index: a panic where there is none.
  unfoldable pub required : BuildError → Option A → Builder A
  required e none t = err e
  required e (some a) t = ok (a, t)

module _ {A B : Type 0} where
  continue : (A → Builder B) → Result BuildError (A × Template) → Result BuildError (B × Template)
  continue f (ok (a, t)) = f a t
  continue f (err e) = err e

  infixl 5 ◌>>=◌
  unfoldable pub ◌>>=◌ : Builder A → (A → Builder B) → Builder B
  unfolding continue
  (m >>= f) t = continue f (m t)

-- `tmpl.Resources[name] = resource`
unfoldable pub put : Text → Resource → Builder Unit
put name resource t = ok (tt, put_resource name resource t)

unfoldable pub with_unit : Result BuildError Template → Result {0, 0} BuildError (Unit × Template)
with_unit (ok t) = ok (tt, t)
with_unit (err e) = err e

-- `tmpl.AddResource(resource)`
unfoldable pub add : Text → Resource → Builder Unit
unfolding with_unit
add name resource t = with_unit (add_resource (record { name = name; resource = resource }) t)

-- `tmpl.Parameters[name] = parameter`, and the other maps
unfoldable pub put_parameter : Text → Parameter → Builder Unit
put_parameter name p t = ok (tt, record t { parameters = insert name p t.parameters })

unfoldable pub put_condition : Text → Value → Builder Unit
put_condition name v t = ok (tt, record t { conditions = insert name v t.conditions })

unfoldable pub put_output : Text → Output → Builder Unit
put_output name o t = ok (tt, record t { outputs = insert name o t.outputs })

module _ {A B : Type 0} where
  -- Where a chain returned, its first part returned, and the rest did from there.
  pub bind-eq-ok :
      (m : Builder A) (f : A → Builder B) (t : Template) {b : B} {done : Template}
      → (m >>= f) t ≡ ok (b, done)
      → (a : A) × (next : Template) × (m t ≡ ok (a, next)) × (f a next ≡ ok (b, done))
  unfolding ◌>>=◌ continue
  bind-eq-ok m f t {b} {done} h = elim (Result-cases (m t)) [
    | inl ((a, next), e) ↦ (a, next, e, rw e at h)
    | inr (x, e) ↦ absurd (impossible x (rw e at h))
  ]
    where
      impossible : (x : BuildError) → continue f (err x) ≡ ok (b, done) → ⊥
      impossible x h = cc
