-- ===== src/Auth/Tokens.antt =====
-- Access tokens (server/heroku/authentication.go, with the responses of server/heroku/errors.go).
-- The JWT library is the parameter `Jwt`.
pub mod RoundTrip
use empire.Prelude.{
  ℕ, Bool, Option, none, some, List, [], ◌∷◌, Result, ok, err, if◌then◌else◌, ◌>>=◌,
}
use empire.Prelude.Text.{Text, codes, is_empty}
use empire.Apps.{User}
use empire.Auth.{
  AuthError, Session, Credentials, Authenticator, Auth, forbidden, two_factor, unauthorized, failed,
  unknown_strategy, nil_dereference, prepend_authenticator, authenticate, user_is_valid,
}

-- `t.Claims["exp"]` and `t.Claims["User"]`; a claim of another type is missing.
pub record UserClaims : Type 0 where
  pub name : Option Text
  pub github_token : Option Text

pub record Claims : Type 0 where
  pub exp : Option ℕ
  pub user : Option UserClaims

pub data JwtError : Type 0 where
  -- `*jwt.ValidationError`
  validation_error : JwtError
  other_error : Text → JwtError

-- `SignedString` and `Parse`, which returns the claims of a valid token and an error otherwise; `now` is
-- the time at which it parses.
pub record Jwt : Type 0 where
  pub now : ℕ
  pub sign : Text → Claims → Result Text Text
  pub parse : Text → Text → Result JwtError Claims

pub record AccessToken : Type 0 where
  pub token : Text
  pub expires_at : Option ℕ
  pub user : User

-- `accessTokenToJwt(token)`
unfoldable pub access_token_to_jwt : AccessToken → Claims
access_token_to_jwt t = record {
  exp = t.expires_at;
  user = some (record { name = some t.user.name; github_token = some t.user.github_token });
}

unfoldable claimed_names : Option Text → Option Text → Result AuthError User
claimed_names none g = err (failed (codes "missing name"))
claimed_names (some n) none = err (failed (codes "missing github token"))
claimed_names (some n) (some g) = ok (record { name = n; github_token = g })

unfoldable claimed_user : Option UserClaims → Result AuthError User
unfolding claimed_names
claimed_user none = err (failed (codes "missing user"))
claimed_user (some u) = claimed_names u.name u.github_token

-- `jwtToAccessToken(t)`
unfoldable pub jwt_to_access_token : Claims → Result AuthError AccessToken
unfolding claimed_user
jwt_to_access_token c =
    claimed_user c.user >>= λ user. ok (record { token = []; expires_at = c.exp; user = user })

unfoldable valid_token : AccessToken → Result AuthError AccessToken
valid_token t = if user_is_valid t.user then ok t else err (failed (codes "Name is required"))

unfoldable lift_text : Result Text Text → Result AuthError Text
lift_text (ok s) = ok s
lift_text (err e) = err (failed e)

-- `AccessTokensCreate(token)`
unfoldable pub access_tokens_create : Jwt → Text → AccessToken → Result AuthError AccessToken
unfolding valid_token lift_text
access_tokens_create jwt secret t =
    lift_text (jwt.sign secret (access_token_to_jwt t)) >>= λ signed.
    valid_token (record t { token = signed })

unfoldable parsed : Result JwtError Claims → Text → Result AuthError (Option AccessToken)
unfolding valid_token
parsed (err validation_error) token = ok none
parsed (err (other_error e)) token = err (failed e)
parsed (ok c) token =
    jwt_to_access_token c >>= λ t. valid_token (record t { token = token }) >>= λ t. ok (some t)

-- `AccessTokensFind(token)`: none is a nil token
unfoldable pub access_tokens_find : Jwt → Text → Text → Result AuthError (Option AccessToken)
unfolding parsed
access_tokens_find jwt secret token = parsed (jwt.parse secret token) token

unfoldable token_session : Option AccessToken → Result AuthError Session
token_session none = err forbidden
token_session (some t) = ok (record { user = t.user; expires_at = t.expires_at })

-- `accessTokenAuthenticator`: the token is the password
unfoldable pub access_token_authenticator : Jwt → Text → Authenticator
unfolding token_session
access_token_authenticator jwt secret c = access_tokens_find jwt secret c.password >>= token_session

-- `ErrorResource`
pub record ErrorResource : Type 0 where
  pub status : ℕ
  pub id : Text
  pub message : Text

abbrev pub err_unauthorized : ErrorResource
err_unauthorized = record {
  status = 401;
  id = codes "unauthorized";
  message = codes "Request not authenticated, API token is missing, invalid or expired";
}

abbrev pub err_two_factor : ErrorResource
err_two_factor = record {
  status = 401;
  id = codes "two_factor";
  message = codes "Two factor code is required.";
}

-- `Unauthorized(reason)`
unfoldable pub unauthorized_resource : Option Text → ErrorResource
unauthorized_resource none = err_unauthorized
unauthorized_resource (some reason) = record {
  status = 401;
  id = codes "unauthorized";
  message = reason;
}

forbidden_resource : Text → ErrorResource
forbidden_resource message = record { status = 403; id = codes "forbidden"; message = message }

-- What `Authenticate` of the server makes of an error; a panic stays one.
unfoldable pub respond : AuthError → Result AuthError ErrorResource
unfolding forbidden_resource
respond forbidden = ok (unauthorized_resource none)
respond two_factor = ok err_two_factor
respond (unauthorized reason) = ok (unauthorized_resource (some reason))
respond (failed message) = ok (forbidden_resource message)
respond (unknown_strategy name) = err (unknown_strategy name)
respond nil_dereference = err nil_dereference

abbrev pub strategy_access_token : Text
strategy_access_token = codes "AccessToken"

-- The server's `Auth` with the strategy of the access tokens in front
unfoldable pub with_tokens : Jwt → Text → Auth → Auth
with_tokens jwt secret auth =
    prepend_authenticator strategy_access_token (access_token_authenticator jwt secret) auth

pub data Response : Type 0 where
  authenticated : Session → Response
  refused : ErrorResource → Response
  panicked : AuthError → Response

unfoldable responded : Result AuthError ErrorResource → Response
responded (ok e) = refused e
responded (err e) = panicked e

unfoldable outcome : Result AuthError Session → Response
unfolding responded
outcome (ok session) = authenticated session
outcome (err e) = responded (respond e)

-- `Authenticate(r, strategies...)`, with the credentials of the request's headers, where there are any
unfoldable pub authenticate_request : Jwt → Text → Auth → Option Credentials → List Text → Response
unfolding outcome
authenticate_request jwt secret auth none names = refused (unauthorized_resource none)
authenticate_request jwt secret auth (some c) names =
    outcome (authenticate (with_tokens jwt secret auth) c names)
