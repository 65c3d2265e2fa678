-- ===== src/Backend/Security/Tokens.antt =====
-- A token that was given to a user lets this user in.
use phyai_saas_train_vla.Prelude.{
  ◌+◌, ◌≤◌, ◌≡◌, refl, String, true, false, Option, some, ok, err, arith, starts_with, drop_chars,
  ◌==◌, text_eq, eq_iff, Result, Bool-cases, inl, inr,
}
use Prim.Native.String.{◌++◌, count, [], ◌∷◌}
use text.Mathlib.TextLemmas.{nil-append, cons-append, length-cons, append-eq-nil_iff}
use text.Mathlib.TextPositions.{starts_with-append}
use phyai_saas_train_vla.Common.Models.{DateTime, is_present, text_or_empty}
use phyai_saas_train_vla.Common.Errors.{http_exception}
use phyai_saas_train_vla.Backend.Security.{
  Jwt, IsJwt, Payload, token_lifetime, microseconds_per_second, bearer, create_access_token,
  subject, decode_access_token, or_unauthorized, get_current_user_id,
}

drop_chars-append : (s t : String) → drop_chars (count s) (s ++ t) ≡ t
drop_chars-append [] t = nil-append t
drop_chars-append (c ∷ s) t = rw (cons-append c s t, length-cons c s) (drop_chars-append s t)

bearer_present : (t : String) → is_present (some (bearer ++ t)) ≡ true
bearer_present t = elim (Bool-cases (bearer ++ t == "")) [
  | inl empty ↦
      elim (nothing
        ((append-eq-nil_iff {p = bearer} {q = t}).0 ((eq_iff (bearer ++ t) "").0 empty)).0) [ ]
  | inr full ↦ rw full refl
]
  where
    nothing : bearer ≡ "" → ⊥
    nothing e = cc

bearer_rest : (t : String) → drop_chars 7 (bearer ++ t) ≡ t
bearer_rest t = drop_chars-append bearer t

module _ (jwt : Jwt) (documented : IsJwt jwt) (issued now : DateTime)
    (secret user_id : String) where
  abbrev token : String
  token = create_access_token jwt issued user_id secret

  payload : Payload
  payload = record { sub = some user_id; iat = issued; exp = issued + token_lifetime }

  subject_known :
      (r : Result String Payload) (read : Payload)
      → r ≡ ok read
      → read.sub ≡ some user_id
      → or_unauthorized jwt (subject jwt r) ≡ ok user_id
  unfolding subject or_unauthorized
  subject_known r read e s = rw (e, s) refl

  -- From when a token was issued until a second before its lifetime of twelve hours is over, a request
  -- with it as bearer token comes from the user to whom it was given, if the JWT package keeps to
  -- its documentation.
  pub get_current_user_id-create_access_token :
      issued ≤ now
      → now + microseconds_per_second ≤ issued + token_lifetime
      → get_current_user_id jwt now secret
          (some (bearer ++ create_access_token jwt issued user_id secret))
        ≡ ok user_id
  unfolding get_current_user_id decode_access_token create_access_token payload
  get_current_user_id-create_access_token started alive =
      let (read, decoded, same) = documented.accepts payload secret now started alive in
      rw
        (
          bearer_present (jwt.encode payload secret),
          starts_with-append bearer (jwt.encode payload secret),
          bearer_rest (jwt.encode payload secret),
          documented.no_blanks payload secret,
        )
        (subject_known (jwt.decode now (jwt.encode payload secret) secret) read decoded same)

  -- A request without a bearer token is refused as unauthorized.
  pub get_current_user_id-missing :
      (authorization : Option String)
      → starts_with (text_or_empty authorization) bearer ≡ false
      → get_current_user_id jwt now secret authorization
        ≡ err (http_exception 401 "Missing bearer token")
  unfolding get_current_user_id
  get_current_user_id-missing authorization e = ground arith
