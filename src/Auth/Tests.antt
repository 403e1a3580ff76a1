-- ===== src/Auth/Tests.antt =====
-- Concrete runs of the authentication.
use empire.Prelude.{
  if◌then◌else◌, err, suc, take-length-append, drop-length-append, ap, take, drop, length, ◌++◌, ℕ,
  suc, ◌≡◌, refl, sym, ap, ◌⊎◌, inl, inr, Bool, true, false, ◌||◌, Option, none, some, List, [],
  ◌∷◌, ◌++◌, Bool-cases, length, take, drop, ok,
}
use empire.Prelude.Text.{Text, codes, text_eq, text_eq_iff}
use mathlib.Core.Bool.{false≢true}
use empire.Apps.{User}
use empire.Auth.{
  AuthError, Session, Credentials, Strategy, Auth, authenticate, static_authenticator, anyone,
  with_max_session_duration, Authorizer, Cache, authorize_cached, unauthorized, failed,
}
use empire.Auth.Sound.{AcceptedBy, MayUse, Permits, authenticate_sound}
use empire.Auth.Caching.{CacheLaws, call, history, Granted, authorize_cached_sound}
use empire.Auth.Tokens.{
  validation_error, Jwt, Claims, UserClaims, AccessToken, access_token_to_jwt, access_tokens_create,
  with_tokens,
}
use empire.Auth.Tokens.RoundTrip.{JwtLaws, is_expired, authenticate-created}

abbrev ejholmes : User
ejholmes = record { name = codes "ejholmes"; github_token = codes "abcd" }

abbrev expected : Credentials
expected = record { username = codes "fake"; password = codes "secret"; otp = [] }

abbrev auth : Auth
auth = record {
  strategies =
      record { authenticator = anyone ejholmes; name = codes "Anyone"; disabled = true }
      ∷ record {
        authenticator = static_authenticator expected ejholmes;
        name = codes "UsernamePassword";
        disabled = false;
      }
      ∷ [];
  authorizer = none;
}

abbrev session : Session
session = record { user = ejholmes; expires_at = none }

authenticate_runs : authenticate auth expected [] ≡ ok session
unfolding authenticate empire.Auth.authenticator_for empire.Auth.multi_authenticator
    empire.Auth.enabled static_authenticator text_eq empire.Auth.authorize empire.Auth.new_session
authenticate_runs = refl

authenticate_sound_example :
    AcceptedBy (MayUse []) auth.strategies expected session × Permits auth.authorizer session.user
authenticate_sound_example = authenticate_sound auth expected [] session authenticate_runs

-- A library that writes the claims down as they are: a tag and what it says is there.
write_text : Option Text → Text → Text
write_text none rest = 0 ∷ rest
write_text (some s) rest = 1 ∷ length s ∷ (s ++ rest)

read_text : Text → Option Text × Text
read_text (suc tag ∷ n ∷ rest) = (some (take n rest), drop n rest)
read_text (n ∷ rest) = (none, rest)
read_text [] = (none, [])

read-write_text : (o : Option Text) (rest : Text) → read_text (write_text o rest) ≡ (o, rest)
unfolding read_text write_text
read-write_text none [] = refl
read-write_text none (n ∷ rest) = refl
read-write_text (some s) rest = rw (take-length-append s rest, drop-length-append s rest)

write_user : Option UserClaims → Text
write_user none = 0 ∷ []
write_user (some u) = 1 ∷ write_text u.name (write_text u.github_token [])

write_exp : Option ℕ → Text → Text
write_exp none rest = 0 ∷ rest
write_exp (some n) rest = 1 ∷ n ∷ rest

write_claims : Claims → Text
write_claims c = write_exp c.exp (write_user c.user)

read_user : Text → Option UserClaims
read_user (suc tag ∷ rest) =
    some (record { name = (read_text rest).0; github_token = (read_text (read_text rest).1).0 })
read_user _ = none

read_claims : Text → Claims
read_claims (suc tag ∷ n ∷ rest) = record { exp = some n; user = read_user rest }
read_claims (n ∷ rest) = record { exp = none; user = read_user rest }
read_claims [] = record { exp = none; user = none }

read-write_user : (u : Option UserClaims) → read_user (write_user u) ≡ u
unfolding read_user write_user
read-write_user none = refl
read-write_user (some u) =
    rw (read-write_text u.name (write_text u.github_token []), read-write_text u.github_token [])

read-write_exp :
    (e : Option ℕ) (u : Option UserClaims)
    → read_claims (write_exp e (write_user u)) ≡ record { exp = e; user = u }
unfolding read_claims write_exp
read-write_exp none u = ap (λ u. record { exp = none; user = u }) (read-write_user u)
read-write_exp (some n) u = ap (λ u. record { exp = some n; user = u }) (read-write_user u)

abbrev plain_jwt : Jwt
plain_jwt = record {
  sign = λ secret c. ok (write_claims c);
  now = 3000;
  parse = λ secret s.
      if is_expired 3000 (read_claims s).exp then err validation_error else ok (read_claims s);
}

plain_jwt-laws : JwtLaws plain_jwt
unfolding write_claims
plain_jwt-laws = record {
  reads = λ secret signed c e live.
      let same : write_exp c.exp (write_user c.user) ≡ signed = cc in
      rw (← same, read-write_exp c.exp c.user, live) refl;
  refuses = λ secret signed c e late.
      let same : write_exp c.exp (write_user c.user) ≡ signed = cc in
      rw (← same, read-write_exp c.exp c.user, late) refl;
}

abbrev token : AccessToken
token = record { token = []; expires_at = some 3600; user = ejholmes }

abbrev created : AccessToken
created = record token { token = write_claims (access_token_to_jwt token) }

create_runs : access_tokens_create plain_jwt (codes "secret") token ≡ ok created
unfolding access_tokens_create empire.Auth.user_is_valid
create_runs = refl

authenticate-created_example :
    authenticate
      (with_tokens plain_jwt (codes "secret") auth)
      (record { username = []; password = created.token; otp = [] })
      []
    ≡ (if is_expired 3000 (some 3600)
        then authenticate auth (record { username = []; password = created.token; otp = [] }) []
        else ok (record { user = ejholmes; expires_at = some 3600 }))
authenticate-created_example =
    authenticate-created plain_jwt auth (codes "secret") token created [] [] plain_jwt-laws
      create_runs tt

-- A cache that holds the names that were set, and never forgets.
member : List Text → Text → Bool
member [] k = false
member (j ∷ ks) k = text_eq j k || member ks k

abbrev names_cache : Cache
names_cache = record { State = List Text; get = member; set = λ s k. k ∷ s }

member-set : (s : List Text) (j k : Text) → member (j ∷ s) k ≡ true → (k ≡ j) ⊎ (member s k ≡ true)
unfolding member
member-set s j k h = elim (Bool-cases (text_eq j k)) [
  | inl e ↦ inl (sym ((text_eq_iff j k).0 e))
  | inr e ↦ inr (rw e at h)
]

abbrev names_laws : CacheLaws names_cache
names_laws = record {
  empty = [];
  drop_some = λ s. [];
  get-empty = λ k. unfold member in refl;
  get-set = member-set;
  get-drop = λ s k h. absurd (unfold member in false≢true h);
}

-- It lets everyone pass in the first call and refuses in the next.
abbrev everyone : Authorizer
everyone user = none

abbrev nobody : Authorizer
nobody user = some (unauthorized (codes "not a member"))

authorize_cached_sound_example :
    (nobody ejholmes ≡ none) ⊎ Granted ejholmes.name (call everyone ejholmes ∷ [])
unfolding authorize_cached member history text_eq
authorize_cached_sound_example =
    authorize_cached_sound names_cache names_laws (call everyone ejholmes ∷ []) nobody ejholmes refl
