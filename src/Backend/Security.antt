-- ===== src/Backend/Security.antt =====
-- backend/security/jwt_tokens.py and the guards of backend/deps.py: who sends a request. The JWT
-- package and `str.strip` are parameters; the clock is an argument.
pub mod Tokens
use phyai_saas_train_vla.Prelude.{
  ℕ, ◌+◌, ◌*◌, ◌≤◌, ◌<◌, ◌≡◌, refl, String, Bool, true, false, not, ◌||◌, Option, none, some, List,
  [], ◌∷◌, Result, ok, err, ◌==◌, text_eq, starts_with, drop_chars, if◌then◌else◌,
}
use phyai_saas_train_vla.Prelude.Fallible.{◌>>=◌}
use phyai_saas_train_vla.Common.Models.{DateTime, is_present, text_or_empty}
use phyai_saas_train_vla.Common.Errors.{Error, Checked, invalid_token, http_exception, key_error}

-- The claims of a token; `sub` may be missing from one that another program signed.
pub record Payload : Type 0 where
  pub sub : Option String
  pub iat : DateTime
  pub exp : DateTime

-- `jwt.encode`, `jwt.decode` at a time, which may raise a `PyJWTError` with a text, and `str.strip`.
pub record Jwt : Type 0 where
  pub encode : Payload → (secret : String) → String
  pub decode : (now : DateTime) (token secret : String) → Result String Payload
  pub strip : String → String

abbrev pub microseconds_per_second : ℕ
microseconds_per_second = 1000000

-- What is documented: a token that was signed with the same secret is accepted from its time of
-- issue until its expiry, which is kept in whole seconds; a token has no blanks around it.
pub record IsJwt (jwt : Jwt) : Type 0 where
  pub accepts :
      (payload : Payload) (secret : String) (now : DateTime)
      → payload.iat ≤ now
      → now + microseconds_per_second ≤ payload.exp
      → (read : Payload) × (jwt.decode now (jwt.encode payload secret) secret ≡ ok read)
        × (read.sub ≡ payload.sub)
  pub no_blanks :
      (payload : Payload) (secret : String)
      → jwt.strip (jwt.encode payload secret) ≡ jwt.encode payload secret

-- `timedelta(hours=12)`
abbrev pub token_lifetime : ℕ
token_lifetime = 12 * 60 * 60 * microseconds_per_second

abbrev pub bearer : String
bearer = "Bearer "

module _ (jwt : Jwt) where
  unfoldable pub create_access_token : DateTime → String → String → String
  create_access_token now user_id secret =
      jwt.encode (record { sub = some user_id; iat = now; exp = now + token_lifetime }) secret

  -- `payload["sub"]`
  unfoldable pub subject : Result String Payload → Checked String
  subject (err text) = err (invalid_token text)
  subject (ok payload) = elim payload.sub [
    | none ↦ err (key_error "sub")
    | some user_id ↦ ok user_id
  ]

  unfoldable pub decode_access_token : DateTime → String → String → Checked String
  unfolding subject
  decode_access_token now token secret = subject (jwt.decode now token secret)

  -- `except InvalidTokenError`
  unfoldable pub or_unauthorized : Checked String → Checked String
  or_unauthorized (err (invalid_token text)) = err (http_exception 401 "Invalid or expired token")
  or_unauthorized r = r

  unfoldable pub get_current_user_id : DateTime → String → Option String → Checked String
  unfolding decode_access_token or_unauthorized
  get_current_user_id now secret authorization =
      if not (is_present authorization) || not (starts_with (text_or_empty authorization) bearer)
      then err (http_exception 401 "Missing bearer token")
      else or_unauthorized
          (decode_access_token now (jwt.strip (drop_chars 7 (text_or_empty authorization))) secret)

-- `x_scheduler_secret != secret`, where the header may be missing
unfoldable pub verify_scheduler_secret : String → Option String → Checked (Unit {0})
verify_scheduler_secret scheduler_shared_secret none =
    err (http_exception 401 "Invalid scheduler secret")
verify_scheduler_secret scheduler_shared_secret (some secret) =
    if secret == scheduler_shared_secret
    then ok tt
    else err (http_exception 401 "Invalid scheduler secret")
