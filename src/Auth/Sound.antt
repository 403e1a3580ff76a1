-- ===== src/Auth/Sound.antt =====
-- Who is let in.
use empire.Prelude.{
  ℕ, ◌≤◌, ◌≡◌, refl, ◌⊎◌, inl, inr, false, Option, none, some, List, [], ◌∷◌, arith, Bool-cases,
  Result, ok, err, >>=-eq-ok,
}
use empire.Prelude.Text.{Text, text_eq, text_eq_iff}
use empire.Apps.{User}
use empire.Auth.{
  AuthError, Session, Credentials, Authenticator, Authorizer, Strategy, Auth, strategy, found,
  requested, enabled, or_next, multi_authenticator, authenticator_for, permitted, authorize,
  authenticate, forbidden, two_factor, unauthorized, failed, unknown_strategy, nil_dereference,
  shortened, with_max_session_duration,
}

-- One of the strategies, of those that may be used, accepted the credentials with this session.
abbrev Accepts : List Authenticator → Credentials → Session → Type 0
Accepts [] c session = ⊥
Accepts (a ∷ rest) c session = (a c ≡ ok session) ⊎ Accepts rest c session

or_next-eq-ok :
    (r next : Result AuthError Session) {session : Session}
    → or_next r next ≡ ok session
    → (r ≡ ok session) ⊎ (next ≡ ok session)
unfolding or_next
or_next-eq-ok (ok s) next e = inl e
or_next-eq-ok (err forbidden) next e = inr e
or_next-eq-ok (err two_factor) next e = cc
or_next-eq-ok (err (unauthorized r)) next e = cc
or_next-eq-ok (err (failed t)) next e = cc
or_next-eq-ok (err (unknown_strategy n)) next e = cc
or_next-eq-ok (err nil_dereference) next e = cc

Accepts-multi :
    (rest : List Authenticator) (c : Credentials) {session : Session}
    → multi_authenticator rest c ≡ ok session
    → Accepts rest c session
unfolding multi_authenticator
Accepts-multi [] c e = cc
Accepts-multi (a ∷ rest) c e = elim (or_next-eq-ok (a c) (multi_authenticator rest c) e) [
  | inl first ↦ inl first
  | inr later ↦ inr (Accepts-multi rest c later)
]

-- The name is one of these.
abbrev pub Named : List Text → Text → Type 0
Named [] n = ⊥
Named (m ∷ ms) n = (n ≡ m) ⊎ Named ms n

-- The strategy may be used: it was asked for by its name, or none was asked for and it is enabled.
abbrev pub MayUse : List Text → Strategy → Type 0
MayUse [] s = s.disabled ≡ false
MayUse (name ∷ names) s = Named (name ∷ names) s.name

-- A strategy of the list with the property accepted the credentials.
abbrev pub AcceptedBy : (Strategy → Type 0) → List Strategy → Credentials → Session → Type 0
AcceptedBy P [] c session = ⊥
AcceptedBy P (s ∷ ss) c session =
    (P s × (s.authenticator c ≡ ok session)) ⊎ AcceptedBy P ss c session

AcceptedBy-weaken :
    {P Q : Strategy → Type 0} (ss : List Strategy) (c : Credentials) (session : Session)
    → ((s : Strategy) → P s → Q s)
    → AcceptedBy P ss c session
    → AcceptedBy Q ss c session
AcceptedBy-weaken [] c session w h = h
AcceptedBy-weaken (s ∷ ss) c session w (inl (p, e)) = inl (w s p, e)
AcceptedBy-weaken (s ∷ ss) c session w (inr h) = inr (AcceptedBy-weaken ss c session w h)

AcceptedBy-strategy :
    (ss : List Strategy) (n : Text) {s : Strategy} (c : Credentials) (session : Session)
    → strategy ss n ≡ some s
    → s.authenticator c ≡ ok session
    → AcceptedBy (λ s. s.name ≡ n) ss c session
unfolding strategy
AcceptedBy-strategy [] n c session e a = cc
AcceptedBy-strategy (t ∷ ts) n {s} c session e a = elim (Bool-cases (text_eq t.name n)) [
  | inl same ↦
      let it : t ≡ s = some-injective (rw same at e) in inl ((text_eq_iff t.name n).0 same, rw it a)
  | inr differs ↦ inr (AcceptedBy-strategy ts n c session (rw differs at e) a)
]
  where
    some-injective : {t s : Strategy} → some t ≡ some s → t ≡ s
    some-injective e = cc

found-eq-ok :
    (o : Option Strategy) (n : Text) {a : Authenticator}
    → found o n ≡ ok a
    → (s : Strategy) × (o ≡ some s) × (s.authenticator ≡ a)
unfolding found
found-eq-ok none n e = cc
found-eq-ok (some s) n e = (s, refl, cc)

AcceptedBy-requested :
    (ss : List Strategy) (names : List Text) {list : List Authenticator} (c : Credentials)
    (session : Session)
    → requested ss names ≡ ok list
    → Accepts list c session
    → AcceptedBy (λ s. Named names s.name) ss c session
unfolding requested
AcceptedBy-requested ss [] {list} c session e h =
    let none_left : [] ≡ list = cc in absurd (rw (← none_left) at h)
AcceptedBy-requested ss (n ∷ ns) {list} c session e h =
    let (a, ea, e1) = >>=-eq-ok (found (strategy ss n) n) _ e in
    let (rest, er, e2) = >>=-eq-ok (requested ss ns) _ e1 in
    let same : a ∷ rest ≡ list = cc in
    let (s, es, it) = found-eq-ok (strategy ss n) n ea in
    let either : (a c ≡ ok session) ⊎ Accepts rest c session = rw (← same) at h in
    elim either [
      | inl here ↦
          AcceptedBy-weaken ss c session (λ s p. inl p)
            (AcceptedBy-strategy ss n c session es (rw it here))
      | inr there ↦
          AcceptedBy-weaken ss c session (λ s p. inr p)
            (AcceptedBy-requested ss ns c session er there)
    ]

AcceptedBy-enabled :
    (ss : List Strategy) (c : Credentials) (session : Session)
    → Accepts (enabled ss) c session
    → AcceptedBy (MayUse []) ss c session
unfolding enabled
AcceptedBy-enabled [] c session h = h
AcceptedBy-enabled (s ∷ ss) c session h = elim (Bool-cases s.disabled) [
  | inl e ↦ inr (AcceptedBy-enabled ss c session (rw e at h))
  | inr e ↦
      let either : (s.authenticator c ≡ ok session) ⊎ Accepts (enabled ss) c session = rw e at h in
      elim either [
        | inl here ↦ inl (e, here)
        | inr there ↦ inr (AcceptedBy-enabled ss c session there)
      ]
]

-- The authorizer lets the user pass, where there is one.
abbrev pub Permits : Option Authorizer → User → Type 0
Permits none user = Unit
Permits (some authorizer) user = authorizer user ≡ none

permitted-eq-ok :
    (o : Option AuthError) (session : Session) {let_in : Session}
    → permitted o session ≡ ok let_in
    → (o ≡ none) × (session ≡ let_in)
unfolding permitted
permitted-eq-ok none session e = (refl, cc)
permitted-eq-ok (some x) session e = cc

authorize-eq-ok :
    (authorizer : Option Authorizer) (session : Session) {let_in : Session}
    → authorize authorizer session ≡ ok let_in
    → Permits authorizer session.user × (session ≡ let_in)
unfolding authorize
authorize-eq-ok none session e = (tt, cc)
authorize-eq-ok (some authorizer) session e = permitted-eq-ok (authorizer session.user) session e

pub authorize-Permits :
    (authorizer : Option Authorizer) (session : Session)
    → Permits authorizer session.user
    → authorize authorizer session ≡ ok session
unfolding authorize permitted
authorize-Permits none session p = refl
authorize-Permits (some authorizer) session p = rw p

-- The authenticator that was built accepts only what a strategy that may be used accepts.
AcceptedBy-authenticator_for :
    (ss : List Strategy) (names : List Text) {a : Authenticator} (c : Credentials)
    (session : Session)
    → authenticator_for ss names ≡ ok a
    → a c ≡ ok session
    → AcceptedBy (MayUse names) ss c session
unfolding authenticator_for
AcceptedBy-authenticator_for ss [] {a} c session e h =
    let same : multi_authenticator (enabled ss) ≡ a = cc in
    AcceptedBy-enabled ss c session (Accepts-multi (enabled ss) c (rw same h))
AcceptedBy-authenticator_for ss (n ∷ ns) {a} c session e h =
    let (list, el, ea) = >>=-eq-ok (requested ss (n ∷ ns)) _ e in
    let same : multi_authenticator list ≡ a = cc in
    AcceptedBy-requested ss (n ∷ ns) c session el (Accepts-multi list c (rw same h))

-- A session is given only if a strategy accepted the credentials with that session, one that was
-- asked for by its name or, where none was asked for, one that is not disabled, and if the
-- authorizer, where there is one, let the user of the session pass.
pub authenticate_sound :
    (auth : Auth) (c : Credentials) (names : List Text) (session : Session)
    → authenticate auth c names ≡ ok session
    → AcceptedBy (MayUse names) auth.strategies c session × Permits auth.authorizer session.user
unfolding authenticate
authenticate_sound auth c names session e =
    let (a, ea, e1) = >>=-eq-ok (authenticator_for auth.strategies names) _ e in
    let (given, eg, e2) = >>=-eq-ok (a c) _ e1 in
    let (permits, same) = authorize-eq-ok auth.authorizer given e2 in
    rw (← same) (AcceptedBy-authenticator_for auth.strategies names c given ea eg, permits)

-- No later than both times.
abbrev pub NoLater : Option ℕ → Option ℕ → Type 0
NoLater (some at) (some limit) = at ≤ limit
NoLater none (some limit) = ⊥
NoLater at none = Unit

shortened_lem :
    (at : Option ℕ) (t : ℕ) → NoLater (shortened at t) (some t) × NoLater (shortened at t) at
unfolding shortened
shortened_lem none t = (omega arith, tt)
shortened_lem (some at) t = ground arith

-- A session of an authenticator with a maximal duration ends at the given time at the latest, and no
-- later than the session that it wraps, whose user it keeps.
pub with_max_session_duration_bounds :
    (a : Authenticator) (t : ℕ) (c : Credentials) (session : Session)
    → with_max_session_duration a t c ≡ ok session
    → (inner : Session) × (a c ≡ ok inner)
      × (session.user ≡ inner.user)
      × NoLater session.expires_at (some t)
      × NoLater session.expires_at inner.expires_at
unfolding with_max_session_duration
with_max_session_duration_bounds a t c session e =
    let (inner, ea, e1) = >>=-eq-ok (a c) _ e in
    let same : record inner { expires_at = shortened inner.expires_at t } ≡ session = cc in
    let (x, y) = shortened_lem inner.expires_at t in
    (inner, ea, rw (← same), rw (← same) x, rw (← same) y)
