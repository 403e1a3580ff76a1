-- ===== src/Troposphere/Rules.antt =====
-- Rules for code that changes a template: what it declares stays, and every name it uses is known.
-- One rule of either kind for each way to build such code.
use empire.Prelude.{◌≡◌, refl, Bool, true, false, Option, none, some, arith, if◌then◌else◌, All, ok}
use empire.Prelude.Text.{Text}
use empire.Prelude.Dict.{lookup, insert}
use empire.Troposphere.{
  Value, Parameter, Output, Resource, Template, BuildError, add_resource, if_absent, put_resource,
}
use empire.Troposphere.References.{references}
use empire.Troposphere.Builder.{
  Builder, pure, fail, required, put, add, put_parameter, put_condition, put_output, ◌>>=◌,
  bind-eq-ok, with_unit,
}
use empire.Troposphere.Closed.{
  declares, has, is_some, ResourceClosed, TemplateClosed, Grows, insert-ResourcesClosed,
  insert-OutputsClosed, insert-ConditionsClosed, has-insert, has-insert_self, Extends-refl,
  Extends-put_resource, Extends-trans,
}

module _ {A : Type 0} where
  pub Grows-pure : (a : A) → Grows (pure a)
  unfolding pure
  Grows-pure a = record { grown = λ t u b e. let same : t ≡ u = cc in rw same (Extends-refl u) }

  pub Grows-fail : (x : BuildError) → Grows (fail {A = A} x)
  unfolding fail
  Grows-fail x = record { grown = λ t u b e. cc }

  pub Grows-required : (x : BuildError) (o : Option A) → Grows (required x o)
  unfolding required pure
  Grows-required x none = record { grown = λ t u b e. cc }
  Grows-required x (some a) = Grows-pure a

  pub Grows-if : (b : Bool) (m n : Builder A) → Grows m → Grows n → Grows (if b then m else n)
  Grows-if true m n g h = g
  Grows-if false m n g h = h

pub Grows-put : (k : Text) (r : Resource) → Grows (put k r)
unfolding put
Grows-put k r = record {
  grown =
      λ t u b e. let same : put_resource k r t ≡ u = cc in rw (← same) (Extends-put_resource k r t);
}

if_absent-put :
    (o : Option Resource) (k : Text) (r : Resource) (t u : Template) (a : Unit)
    → with_unit (if_absent o (record { name = k; resource = r }) t) ≡ ok (a, u)
    → put k r t ≡ ok (a, u)
unfolding if_absent with_unit put
if_absent-put none k r t u a e = e
if_absent-put (some s) k r t u a e = cc

-- Where `add` returns it is `put`.
add-put :
    (k : Text) (r : Resource) (t u : Template) (a : Unit)
    → add k r t ≡ ok (a, u)
    → put k r t ≡ ok (a, u)
unfolding add add_resource
add-put k r t u a e = if_absent-put (lookup k t.resources) k r t u a e

if_absent-none :
    (o : Option Resource) (k : Text) (r : Resource) (t u : Template) (a : Unit)
    → with_unit (if_absent o (record { name = k; resource = r }) t) ≡ ok (a, u)
    → o ≡ none
unfolding if_absent with_unit
if_absent-none none k r t u a e = refl
if_absent-none (some s) k r t u a e = cc

-- Where `add` returns, the name is new, and is there from then on.
pub add-fresh :
    (k : Text) (r : Resource) (t u : Template) (a : Unit)
    → add k r t ≡ ok (a, u)
    → (has k t.resources ≡ false) × (has k u.resources ≡ true)
unfolding add add_resource has is_some put put_resource
add-fresh k r t u a e =
    let absent = if_absent-none (lookup k t.resources) k r t u a e in
    let done = add-put k r t u a e in
    let same : put_resource k r t ≡ u = cc in
    (rw absent, rw (← same) (has-insert_self k r t.resources))

pub Grows-add : (k : Text) (r : Resource) → Grows (add k r)
Grows-add k r = record { grown = λ t u a e. (Grows-put k r).grown t u a (add-put k r t u a e) }

pub Grows-put_parameter : (k : Text) (p : Parameter) → Grows (put_parameter k p)
unfolding put_parameter declares
Grows-put_parameter k p = record {
  grown = λ t u b e.
      let same : record t { parameters = insert k p t.parameters } ≡ u = cc in
      rw (← same) (record {
        names = λ n h. rw (has-insert k n p t.parameters) (ground arith);
        kept = λ n h. h;
        guards = λ c h. h;
      });
}

pub Grows-put_condition : (k : Text) (v : Value) → Grows (put_condition k v)
unfolding put_condition declares
Grows-put_condition k v = record {
  grown = λ t u b e.
      let same : record t { conditions = insert k v t.conditions } ≡ u = cc in
      rw (← same) (record {
        names = λ n h. h;
        kept = λ n h. h;
        guards = λ c h. rw (has-insert k c v t.conditions) (ground arith);
      });
}

pub Grows-put_output : (k : Text) (o : Output) → Grows (put_output k o)
unfolding put_output declares
Grows-put_output k o = record {
  grown = λ t u b e.
      let same : record t { outputs = insert k o t.outputs } ≡ u = cc in
      rw (← same) (record { names = λ n h. h; kept = λ n h. h; guards = λ c h. h });
}

pub Grows-bind :
    {A B : Type 0} (m : Builder A) (f : A → Builder B)
    → Grows m
    → ((a : A) → Grows (f a))
    → Grows (m >>= f)
Grows-bind m f gm gf = record {
  grown = λ t u b e.
      let (a, next, em, ef) = bind-eq-ok m f t e in
      Extends-trans t next u (gm.grown t next a em) ((gf a).grown next u b ef);
}

pub ruleset grows_rules = (
  Grows-pure, Grows-fail, Grows-required, Grows-if, Grows-put, Grows-add, Grows-put_parameter,
  Grows-put_condition, Grows-put_output, Grows-bind,
)

-- Once all that the template declares is known, what it uses is known, and `Q` holds of the result.
pub record Safe {A : Type 0} (K C : Text → Type 0) (Q : A → Type 0) (m : Builder A) : Type 0 where
  pub safe :
      (t u : Template) (a : A)
      → m t ≡ ok (a, u)
      → ((n : Text) → declares u n ≡ true → K n)
      → ((c : Text) → has c u.conditions ≡ true → C c)
      → TemplateClosed K C t
      → TemplateClosed K C u × Q a

module _ {A : Type 0} {K C : Text → Type 0} {Q : A → Type 0} where
  pub Safe-pure : (a : A) → Q a → Safe K C Q (pure a)
  unfolding pure
  Safe-pure a q = record {
    safe = λ t u b e kn cn h.
        let same : t ≡ u = cc in let value : a ≡ b = cc in (rw (← same) h, rw (← value) q);
  }

  pub Safe-fail : (x : BuildError) → Safe K C Q (fail {A = A} x)
  unfolding fail
  Safe-fail x = record { safe = λ t u b e kn cn h. cc }

  pub Safe-required : (x : BuildError) (o : Option A) → ((a : A) → Q a) → Safe K C Q (required x o)
  unfolding required pure
  Safe-required x none q = record { safe = λ t u b e kn cn h. cc }
  Safe-required x (some a) q = Safe-pure a (q a)

  pub Safe-if :
      (b : Bool) (m n : Builder A)
      → (b ≡ true → Safe K C Q m)
      → (b ≡ false → Safe K C Q n)
      → Safe K C Q (if b then m else n)
  Safe-if true m n g h = g refl
  Safe-if false m n g h = h refl

  pub Safe-weaken :
      {R : A → Type 0} (m : Builder A) → Safe K C Q m → ((a : A) → Q a → R a) → Safe K C R m
  Safe-weaken m s w = record {
    safe = λ t u a e kn cn h. let (c, q) = s.safe t u a e kn cn h in (c, w a q);
  }

  pub Safe-bind :
      {B : Type 0} {R : B → Type 0} (m : Builder A) (f : A → Builder B)
      → Safe K C Q m
      → ((a : A) → Grows (f a))
      → ((a : A) → Q a → Safe K C R (f a))
      → Safe K C R (m >>= f)
  Safe-bind m f sm gf sf = record {
    safe = λ t u b e kn cn h.
        let (a, next, em, ef) = bind-eq-ok m f t e in
        let x = (gf a).grown next u b ef in
        let (c, q) =
          sm.safe t next a em (λ n d. kn n (x.names n d)) (λ n d. cn n (x.guards n d)) h in
        (sf a q).safe next u b ef kn cn c;
  }

module _ {K C : Text → Type 0} where
  pub Safe-put :
      (k : Text) (r : Resource) → (K k → ResourceClosed K C r) → Safe K C (λ _. K k) (put k r)
  unfolding put put_resource declares
  Safe-put k r c = record {
    safe = λ t u a e kn cn h.
        let same : put_resource k r t ≡ u = cc in
        let known : K k = kn k (rw (← same, has-insert_self k r t.resources)) in
        let (hr, ho, hc) = h in
        (rw (← same) (insert-ResourcesClosed K C k r t.resources (c known) hr, ho, hc), known);
  }

  pub Safe-add :
      (k : Text) (r : Resource) → (K k → ResourceClosed K C r) → Safe K C (λ _. K k) (add k r)
  Safe-add k r c = record {
    safe = λ t u a e kn cn h. (Safe-put k r c).safe t u a (add-put k r t u a e) kn cn h;
  }

  pub Safe-put_parameter : (k : Text) (p : Parameter) → Safe K C (λ _. K k) (put_parameter k p)
  unfolding put_parameter declares
  Safe-put_parameter k p = record {
    safe = λ t u a e kn cn h.
        let same : record t { parameters = insert k p t.parameters } ≡ u = cc in
        let known : K k = kn k (rw (← same, has-insert_self k p t.parameters) (ground arith)) in
        (rw (← same) h, known);
  }

  pub Safe-put_condition :
      (k : Text) (v : Value) → All K (references v) → Safe K C (λ _. C k) (put_condition k v)
  unfolding put_condition
  Safe-put_condition k v c = record {
    safe = λ t u a e kn cn h.
        let same : record t { conditions = insert k v t.conditions } ≡ u = cc in
        let known : C k = cn k (rw (← same, has-insert_self k v t.conditions)) in
        let (hr, ho, hc) = h in
        (rw (← same) (hr, ho, insert-ConditionsClosed K C k v t.conditions c hc), known);
  }

  pub Safe-put_output :
      (k : Text) (o : Output) → All K (references o.value) → Safe K C (λ _. Unit) (put_output k o)
  unfolding put_output
  Safe-put_output k o c = record {
    safe = λ t u a e kn cn h.
        let same : record t { outputs = insert k o t.outputs } ≡ u = cc in
        let (hr, ho, hc) = h in
        (rw (← same) (hr, insert-OutputsClosed K C k o t.outputs c ho, hc), tt);
  }

-- Once all that the template declares is known, `P` holds.
pub record Gives {A : Type 0} (K : Text → Type 0) (P : Type 0) (m : Builder A) : Type 0 where
  pub gives :
      (t u : Template) (a : A) → m t ≡ ok (a, u) → ((n : Text) → declares u n ≡ true → K n) → P

pub Gives-put : {K : Text → Type 0} (k : Text) (r : Resource) → Gives K (K k) (put k r)
unfolding put put_resource declares
Gives-put k r = record {
  gives = λ t u a e kn.
      let same : put_resource k r t ≡ u = cc in kn k (rw (← same, has-insert_self k r t.resources));
}

pub Gives-bind :
    {A B : Type 0} {K : Text → Type 0} {P : Type 0} (m : Builder A) (f : A → Builder B)
    → Gives K P m
    → ((a : A) → Grows (f a))
    → Gives K P (m >>= f)
Gives-bind m f gm gf = record {
  gives = λ t u b e kn.
      let (a, next, em, ef) = bind-eq-ok m f t e in
      gm.gives t next a em (λ n d. kn n (((gf a).grown next u b ef).names n d));
}

-- The first part may rely on what the rest gives.
pub Safe-ahead :
    {A B : Type 0} {K C : Text → Type 0} {Q : A → Type 0} {R : B → Type 0} {P : Type 0}
    (m : Builder A) (f : A → Builder B)
    → ((a : A) (t u : Template) → m t ≡ ok (a, u) → Gives K P (f a))
    → (P → Safe K C Q m)
    → ((a : A) → Q a → Safe K C R (f a))
    → ((a : A) → Grows (f a))
    → Safe K C R (m >>= f)
Safe-ahead m f ahead sm sf gf = record {
  safe = λ t u b e kn cn h.
      let (a, next, em, ef) = bind-eq-ok m f t e in
      let x = (gf a).grown next u b ef in
      let p = (ahead a t next em).gives next u b ef kn in
      let (c, q) =
        (sm p).safe t next a em (λ n d. kn n (x.names n d)) (λ n d. cn n (x.guards n d)) h in
      (sf a q).safe next u b ef kn cn c;
}
