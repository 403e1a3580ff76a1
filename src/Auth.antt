-- ===== src/Auth.antt =====
-- Authentication (server/auth/auth.go, server/auth/cache.go and `User.IsValid` of users.go).
-- A time is a number of seconds; what an authenticator of the outside world answers is a function of
-- the credentials.
pub mod Tokens
pub mod Sound
pub mod Caching
mod Tests
use empire.Prelude.{
  ℕ, ltb, Bool, true, false, not, Option, none, some, List, [], ◌∷◌, Result, ok, err, if◌then◌else◌,
  ◌>>=◌,
}
use empire.Prelude.Text.{Text, text_eq, is_empty}
use empire.Apps.{User}

pub data AuthError : Type 0 where
  forbidden : AuthError
  two_factor : AuthError
  -- `UnauthorizedError`, by its reason
  unauthorized : Text → AuthError
  -- any other error, by its text
  failed : Text → AuthError
  -- the panics of `AuthenticatorFor`, and of a nil pointer
  unknown_strategy : Text → AuthError
  nil_dereference : AuthError

pub record Session : Type 0 where
  pub user : User
  pub expires_at : Option ℕ

-- `NewSession(user)`
unfoldable pub new_session : User → Session
new_session user = record { user = user; expires_at = none }

pub record Credentials : Type 0 where
  pub username : Text
  pub password : Text
  pub otp : Text

abbrev pub Authenticator : Type 0
Authenticator = Credentials → Result AuthError Session

-- `Authorize(user)`, with its error
abbrev pub Authorizer : Type 0
Authorizer = User → Option AuthError

pub record Strategy : Type 0 where
  pub authenticator : Authenticator
  pub name : Text
  pub disabled : Bool

pub record Auth : Type 0 where
  pub strategies : List Strategy
  pub authorizer : Option Authorizer

-- `s.strategy(name)`
unfoldable pub strategy : List Strategy → Text → Option Strategy
strategy [] name = none
strategy (s ∷ ss) name = if text_eq s.name name then some s else strategy ss name

unfoldable found : Option Strategy → Text → Result AuthError Authenticator
found none name = err (unknown_strategy name)
found (some s) name = ok s.authenticator

-- The authenticators of the strategies with these names; a name that is unknown is a panic.
unfoldable pub requested : List Strategy → List Text → Result AuthError (List Authenticator)
unfolding found
requested s [] = ok []
requested s (name ∷ names) =
    found (strategy s name) name >>= λ a. requested s names >>= λ rest. ok (a ∷ rest)

unfoldable pub enabled : List Strategy → List Authenticator
enabled [] = []
enabled (s ∷ ss) = let rest = enabled ss in if s.disabled then rest else s.authenticator ∷ rest

unfoldable or_next : Result AuthError Session → Result AuthError Session → Result AuthError Session
or_next (err forbidden) next = next
or_next r next = r

-- `MultiAuthenticator(authenticators...)`: the next one is tried after ErrForbidden alone.
unfoldable pub multi_authenticator : List Authenticator → Authenticator
unfolding or_next
multi_authenticator [] c = err forbidden
multi_authenticator (a ∷ rest) c = or_next (a c) (multi_authenticator rest c)

-- `AuthenticatorFor(strategies...)`
unfoldable pub authenticator_for : List Strategy → List Text → Result AuthError Authenticator
authenticator_for s [] = ok (multi_authenticator (enabled s))
authenticator_for s (name ∷ names) =
    requested s (name ∷ names) >>= λ rest. ok (multi_authenticator rest)

-- `PrependAuthenticator(name, authenticator)`
unfoldable pub prepend_authenticator : Text → Authenticator → Auth → Auth
prepend_authenticator name a auth = record auth {
  strategies = record { authenticator = a; name = name; disabled = false } ∷ auth.strategies;
}

unfoldable permitted : Option AuthError → Session → Result AuthError Session
permitted none session = ok session
permitted (some e) session = err e

unfoldable pub authorize : Option Authorizer → Session → Result AuthError Session
unfolding permitted
authorize none session = ok session
authorize (some authorizer) session = permitted (authorizer session.user) session

-- `Authenticate(ctx, username, password, otp, strategies...)`: the session that the context holds
unfoldable pub authenticate : Auth → Credentials → List Text → Result AuthError Session
authenticate auth c names = authenticator_for auth.strategies names >>= λ a.
    a c >>= λ session. authorize auth.authorizer session

-- `StaticAuthenticator(username, password, otp, user)`
unfoldable pub static_authenticator : Credentials → User → Authenticator
static_authenticator expected user given =
    if not (text_eq given.username expected.username)
    then err forbidden
    else if not (text_eq given.password expected.password)
    then err forbidden
    else if not (text_eq given.otp expected.otp)
    then err two_factor
    else ok (new_session user)

-- `Anyone(user)`
unfoldable pub anyone : User → Authenticator
anyone user c = ok (new_session user)

unfoldable shortened : Option ℕ → ℕ → Option ℕ
shortened none t = some t
shortened (some at) t = if ltb at t then some at else some t

-- `WithMaxSessionDuration(auth, exp)`, where `exp()` returns `t`
unfoldable pub with_max_session_duration : Authenticator → ℕ → Authenticator
unfolding shortened
with_max_session_duration a t c =
    a c >>= λ session. ok (record session { expires_at = shortened session.expires_at t })

-- `IsValid()` of a user: whether the error is nil
unfoldable pub user_is_valid : User → Bool
user_is_valid user = not (is_empty user.name)

-- The cache of authorizations (a library): what it holds, by its keys.
pub record Cache : Type 1 where
  pub State : Type 0
  pub get : State → Text → Bool
  pub set : State → Text → State

unfoldable remember : (c : Cache) → Option AuthError → c.State → Text → Option AuthError × c.State
remember c none s name = (none, c.set s name)
remember c (some e) s name = (some e, s)

-- `Authorize(user)` of the cached authorizer, around the authorizer of this call
unfoldable pub authorize_cached :
    (c : Cache) → Authorizer → User → c.State → Option AuthError × c.State
unfolding remember
authorize_cached c authorizer user s =
    if c.get s user.name then (none, s) else remember c (authorizer user) s user.name
