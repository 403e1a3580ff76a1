-- ===== src/Auth/Caching.antt =====
-- What a cached authorizer lets pass (server/auth/cache.go). The cache is a library: its entries come
-- from `Set` alone, and may be dropped at any time.
use empire.Prelude.{
  ◌≡◌, refl, sym, ◌∙◌, ◌⊎◌, inl, inr, true, false, Option, none, some, List, [], ◌∷◌, Bool-cases,
}
use empire.Prelude.Text.{Text}
use mathlib.Core.Bool.{true≢false}
use empire.Apps.{User}
use empire.Auth.{AuthError, Authorizer, Cache, authorize_cached, remember}

pub record CacheLaws (c : Cache) : Type 0 where
  pub empty : c.State
  pub drop_some : c.State → c.State
  pub get-empty : (k : Text) → c.get empty k ≡ false
  pub get-set :
      (s : c.State) (j k : Text) → c.get (c.set s j) k ≡ true → (k ≡ j) ⊎ (c.get s k ≡ true)
  pub get-drop : (s : c.State) (k : Text) → c.get (drop_some s) k ≡ true → c.get s k ≡ true

-- What happens to the cache: a call, around what the authorizer answers then, or the end of entries.
pub data Event : Type 0 where
  call : Authorizer → User → Event
  expire : Event

module _ (c : Cache) (laws : CacheLaws c) where
  after : Event → c.State → c.State
  after (call authorizer user) s = (authorize_cached c authorizer user s).1
  after expire s = laws.drop_some s

  -- The cache after the events, the last of them first.
  unfoldable pub history : List Event → c.State
  unfolding after
  history [] = laws.empty
  history (e ∷ es) = after e (history es)

-- The authorizer let a user with this name pass in one of the calls.
abbrev pub Granted : Text → List Event → Type 0
Granted name [] = ⊥
Granted name (call authorizer user ∷ es) =
    ((authorizer user ≡ none) × (user.name ≡ name)) ⊎ Granted name es
Granted name (expire ∷ es) = Granted name es

module _ (c : Cache) (laws : CacheLaws c) where
  get-remember :
      (o : Option AuthError) (s : c.State) (name k : Text)
      → c.get (remember c o s name).1 k ≡ true
      → ((o ≡ none) × (name ≡ k)) ⊎ (c.get s k ≡ true)
  unfolding remember
  get-remember none s name k h = elim (laws.get-set s name k h) [
    | inl e ↦ inl (refl, sym e)
    | inr g ↦ inr g
  ]
  get-remember (some e) s name k h = inr h

  get-call :
      (authorizer : Authorizer) (user : User) (s : c.State) (k : Text)
      → c.get (authorize_cached c authorizer user s).1 k ≡ true
      → ((authorizer user ≡ none) × (user.name ≡ k)) ⊎ (c.get s k ≡ true)
  unfolding authorize_cached
  get-call authorizer user s k h = elim (Bool-cases (c.get s user.name)) [
    | inl e ↦ inr (rw e at h)
    | inr e ↦ get-remember (authorizer user) s user.name k (rw e at h)
  ]

  get-history : (es : List Event) (k : Text) → c.get (history c laws es) k ≡ true → Granted k es
  unfolding history after
  get-history [] k h = absurd (true≢false (sym h ∙ laws.get-empty k))
  get-history (call authorizer user ∷ es) k h =
      elim (get-call authorizer user (history c laws es) k h) [
        | inl now ↦ inl now
        | inr before ↦ inr (get-history es k before)
      ]
  get-history (expire ∷ es) k h = get-history es k (laws.get-drop (history c laws es) k h)

  -- Whoever is let pass after any calls and expiries of the cache is let pass by the authorizer
  -- itself now, or one of the same name was in an earlier call: a refusal is never cached.
  pub authorize_cached_sound :
      (es : List Event) (authorizer : Authorizer) (user : User)
      → (authorize_cached c authorizer user (history c laws es)).0 ≡ none
      → (authorizer user ≡ none) ⊎ Granted user.name es
  unfolding authorize_cached
  authorize_cached_sound es authorizer user h =
      elim (Bool-cases (c.get (history c laws es) user.name)) [
        | inl e ↦ inr (get-history es user.name e)
        | inr e ↦ inl (answer (authorizer user) (rw e at h))
      ]
    where
      answer :
          (o : Option AuthError) → (remember c o (history c laws es) user.name).0 ≡ none → o ≡ none
      answer none h = refl
      answer (some x) h = unfold remember in h
