-- ===== src/Auth/Tokens/RoundTrip.antt =====
-- A token that was created lets its user in.
use empire.Prelude.{
  refl, ℕ, Bool, false, Option, none, ltb, if◌then◌else◌, ◌≡◌, sym, ap, inl, inr, true, some, [],
  Bool-cases, Result, ok, err, ◌>>=◌,
}
use empire.Prelude.Text.{Text}
use empire.Auth.{
  Credentials, AuthError, Session, Auth, authenticate, authenticator_for, multi_authenticator,
  enabled, or_next, prepend_authenticator, user_is_valid,
}
use empire.Auth.Sound.{Permits, authorize-Permits}
use empire.Auth.Tokens.{
  validation_error, Jwt, Claims, AccessToken, access_token_to_jwt, jwt_to_access_token,
  access_tokens_create, access_tokens_find, access_token_authenticator, parsed, valid_token,
  lift_text, token_session, with_tokens, claimed_user, claimed_names,
}

-- The test of the library: the time is later than that of the claim.
abbrev pub is_expired : ℕ → Option ℕ → Bool
is_expired now none = false
is_expired now (some exp) = ltb exp now

-- The library reads back the claims that it signed with the same secret, and refuses them once they
-- have expired.
pub record JwtLaws (jwt : Jwt) : Type 0 where
  pub reads :
      (secret signed : Text) (c : Claims)
      → jwt.sign secret c ≡ ok signed
      → is_expired jwt.now c.exp ≡ false
      → jwt.parse secret signed ≡ ok c
  pub refuses :
      (secret signed : Text) (c : Claims)
      → jwt.sign secret c ≡ ok signed
      → is_expired jwt.now c.exp ≡ true
      → jwt.parse secret signed ≡ err validation_error

ok-injective : {x y : AccessToken} → Path (Result AuthError AccessToken) (ok x) (ok y) → x ≡ y
ok-injective e = cc

refuse : {x : AuthError} {y : AccessToken} → Path (Result AuthError AccessToken) (err x) (ok y) → ⊥
refuse e = cc

valid_token-ok : (t : AccessToken) → user_is_valid t.user ≡ true → valid_token t ≡ ok t
unfolding valid_token
valid_token-ok t v = rw v

created-eq-ok :
    (r : Result Text Text) (t : AccessToken) {token : AccessToken}
    → (lift_text r >>= λ signed. valid_token (record t { token = signed })) ≡ ok token
    → (r ≡ ok token.token)
      × (token ≡ record t { token = token.token })
      × (user_is_valid t.user ≡ true)
unfolding lift_text valid_token
created-eq-ok (err e) t h = cc
created-eq-ok (ok signed) t {token} h = elim (Bool-cases (user_is_valid t.user)) [
  | inl v ↦
      let same : record t { token = signed } ≡ token = ok-injective (rw v at h) in
      (rw (← same), rw (← same), v)
  | inr v ↦ absurd (refuse (rw v at h))
]

parsed-created :
    (t : AccessToken) (signed : Text)
    → user_is_valid t.user ≡ true
    → parsed (ok (access_token_to_jwt t)) signed ≡ ok (some (record t { token = signed }))
unfolding parsed jwt_to_access_token access_token_to_jwt claimed_user claimed_names
parsed-created t signed v = rw (valid_token-ok (record t { token = signed }) v)

access_tokens_find-created :
    (jwt : Jwt)
    → JwtLaws jwt
    → (secret : Text) (t : AccessToken) {token : AccessToken}
    → access_tokens_create jwt secret t ≡ ok token
    → is_expired jwt.now t.expires_at ≡ false
    → access_tokens_find jwt secret token.token ≡ ok (some token)
unfolding access_tokens_create access_tokens_find access_token_to_jwt
access_tokens_find-created jwt laws secret t {token} e live =
    let (signed, same, v) = created-eq-ok (jwt.sign secret (access_token_to_jwt t)) t e in
    let read = laws.reads secret token.token (access_token_to_jwt t) signed live in
    rw (read, parsed-created t token.token v) (ap (λ x. ok (some x)) (sym same))

access_tokens_find-expired :
    (jwt : Jwt)
    → JwtLaws jwt
    → (secret : Text) (t : AccessToken) {token : AccessToken}
    → access_tokens_create jwt secret t ≡ ok token
    → is_expired jwt.now t.expires_at ≡ true
    → access_tokens_find jwt secret token.token ≡ ok none
unfolding access_tokens_create access_tokens_find access_token_to_jwt parsed
access_tokens_find-expired jwt laws secret t {token} e late =
    let (signed, same, v) = created-eq-ok (jwt.sign secret (access_token_to_jwt t)) t e in
    rw (laws.refuses secret token.token (access_token_to_jwt t) signed late) refl

module _ (jwt : Jwt) (auth : Auth) (secret : Text) (t token : AccessToken) (username otp : Text)
    (laws : JwtLaws jwt) (e : access_tokens_create jwt secret t ≡ ok token) where
  -- The request with the token as its password
  abbrev presented : Credentials
  presented = record { username = username; password = token.token; otp = otp }

  -- While the token has not expired, the request gets a session of its user.
  authenticate-live :
      Permits auth.authorizer t.user
      → is_expired jwt.now t.expires_at ≡ false
      → authenticate (with_tokens jwt secret auth) presented []
        ≡ ok (record { user = t.user; expires_at = t.expires_at })
  unfolding authenticate with_tokens prepend_authenticator authenticator_for enabled
      multi_authenticator access_token_authenticator
  authenticate-live p live =
      let (_, same, _) = created-eq-ok (jwt.sign secret (access_token_to_jwt t)) t (opened e) in
      let session : Session = record { user = t.user; expires_at = t.expires_at } in
      rw (access_tokens_find-created jwt laws secret t e live)
        (unfold or_next token_session in rw same (authorize-Permits auth.authorizer session p))
    where
      opened :
          access_tokens_create jwt secret t ≡ ok token
          → (lift_text (jwt.sign secret (access_token_to_jwt t)) >>= λ signed.
              valid_token (record t { token = signed }))
            ≡ ok token
      opened e = unfold access_tokens_create in e

  -- Then the other strategies are asked, as if there were no tokens.
  authenticate-late :
      is_expired jwt.now t.expires_at ≡ true
      → authenticate (with_tokens jwt secret auth) presented [] ≡ authenticate auth presented []
  unfolding authenticate with_tokens prepend_authenticator authenticator_for enabled
      multi_authenticator access_token_authenticator
  authenticate-late late =
      rw (access_tokens_find-expired jwt laws secret t e late)
        (unfold or_next token_session in refl)

-- Where the server created a token for a user, the library reads back what it signed until that has
-- expired, and there is no authorizer, or one that lets the user pass: a request with that token as its
-- password, which asks for no strategy by its name, gets a session of that user with the token's time of
-- expiry, unless the token has expired; then it gets what it gets without the strategy of the tokens.
pub authenticate-created :
    (jwt : Jwt) (auth : Auth) (secret : Text) (t token : AccessToken) (username otp : Text)
    → JwtLaws jwt
    → access_tokens_create jwt secret t ≡ ok token
    → Permits auth.authorizer t.user
    → authenticate
        (with_tokens jwt secret auth)
        (record { username = username; password = token.token; otp = otp })
        []
      ≡ (if is_expired jwt.now t.expires_at
          then authenticate auth
              (record { username = username; password = token.token; otp = otp })
              []
          else ok (record { user = t.user; expires_at = t.expires_at }))
authenticate-created jwt auth secret t token username otp laws e p =
    elim (Bool-cases (is_expired jwt.now t.expires_at)) [
      | inl late ↦ rw late (authenticate-late jwt auth secret t token username otp laws e late)
      | inr live ↦ rw live (authenticate-live jwt auth secret t token username otp laws e p live)
    ]
