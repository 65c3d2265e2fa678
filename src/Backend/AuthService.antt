-- ===== src/Backend/AuthService.antt =====
-- backend/services/auth_service.py and backend/security/password.py: accounts. Each of the two ways
-- to log in has its own accounts. New ids, salts and readings of the clock are arguments, and so is
-- what the captcha verifier and the OAuth client return for the request.
pub mod Accounts
pub mod Password
use phyai_saas_train_vla.Prelude.{
  ℕ, zero, suc, ◌≡◌, String, Bool, not, ◌||◌, Option, none, some, List, [], ◌∷◌, Result, ok, err,
  Exec, pure, raise, gets, lift, raise_if, or_raise, modify, ◌>>=◌, ◌>>◌, take, is_some,
}
use phyai_saas_train_vla.Common.Float.{Float, float_lt, one_half}
use phyai_saas_train_vla.Common.Models.{DateTime, AuthProvider, by_email, huggingface, User}
use phyai_saas_train_vla.Common.Errors.{
  Error, Checked, captcha_failed, email_already_registered, invalid_credentials, wrong_old_password,
}
use phyai_saas_train_vla.Repository.Database.{Database}
use phyai_saas_train_vla.Repository.Users

abbrev pub min_captcha_score : Float
min_captcha_score = one_half

abbrev pub max_password_bytes : ℕ
max_password_bytes = 72

-- CaptchaResult of common/ports/captcha_verifier.py.
pub record CaptchaResult : Type 0 where
  pub success : Bool
  pub score : Float

-- HFOAuthUser of common/ports/hf_oauth_client.py.
pub record HfOauthUser : Type 0 where
  pub hf_user_id : String
  pub username : String
  pub email : Option String

-- Python's text encoding, and the bcrypt package, whose functions may raise.
pub record Bcrypt : Type 0 where
  pub encode : String → List ℕ
  pub hashpw : List ℕ → (salt : String) → Checked String
  pub checkpw : List ℕ → String → Checked Bool

-- What bcrypt documents: a password is accepted against its own hash.
abbrev pub ChecksOwnHash : Bcrypt → Type 0
ChecksOwnHash bcrypt =
    (bytes : List ℕ) (salt hash : String)
    → bcrypt.hashpw bytes salt ≡ ok hash
    → bcrypt.checkpw bytes hash ≡ ok Bool.true

abbrev pub Action : Type 0 → Type 0
Action A = Exec Database Error A

abbrev pub email_user : String → String → String → DateTime → User
email_user id email password_hash now = record {
  id = id;
  auth_provider = by_email;
  email = some email;
  password_hash = some password_hash;
  hf_user_id = none;
  daily_quota_used = 0;
  quota_reset_date = none;
  created_at = now;
}

abbrev pub hf_user_account : String → HfOauthUser → DateTime → User
hf_user_account id hf_user now = record {
  id = id;
  auth_provider = huggingface;
  email = hf_user.email;
  password_hash = none;
  hf_user_id = some hf_user.hf_user_id;
  daily_quota_used = 0;
  quota_reset_date = none;
  created_at = now;
}

module _ (bcrypt : Bcrypt) where
  unfoldable pub hash_password : String → String → Checked String
  hash_password salt plain_password =
      bcrypt.hashpw (take max_password_bytes (bcrypt.encode plain_password)) salt

  unfoldable pub verify_password : String → String → Checked Bool
  verify_password plain_password password_hash =
      bcrypt.checkpw (take max_password_bytes (bcrypt.encode plain_password)) password_hash

  unfoldable pub register_with_email :
      (id salt : String) (now : DateTime) (email password : String)
      (captcha_result : Checked CaptchaResult)
      → Action User
  register_with_email id salt now email password captcha_result = do
    captcha ← lift captcha_result
    raise_if (not captcha.success || float_lt captcha.score min_captcha_score) captcha_failed
    same_email ← gets (λ db. Users.get_by_email db.users email)
    raise_if (is_some same_email) (email_already_registered email)
    password_hash ← lift (hash_password salt password)
    let user = email_user id email password_hash now
    modify (λ db. record db { users = Users.create db.users user })
    pure user

  -- `user.password_hash is None or not verify_password(...)`
  unfoldable pub accepts : String → Option String → Checked Bool
  accepts password none = ok Bool.false
  accepts password (some password_hash) = verify_password password password_hash

  unfoldable pub login_with_email : (email password : String) → Action User
  login_with_email email password = do
    found ← gets (λ db. Users.get_by_email db.users email)
    user ← or_raise found invalid_credentials
    accepted ← lift (accepts password user.password_hash)
    raise_if (not accepted) invalid_credentials
    pure user

  unfoldable pub change_password : (salt user_id old_password new_password : String) → Action User
  change_password salt user_id old_password new_password = do
    found ← gets (λ db. Users.get db.users user_id)
    user ← or_raise found (wrong_old_password "User not found or has no password set")
    old_hash ←
        or_raise user.password_hash (wrong_old_password "User not found or has no password set")
    accepted ← lift (verify_password old_password old_hash)
    raise_if (not accepted) (wrong_old_password "Old password is incorrect")
    password_hash ← lift (hash_password salt new_password)
    let updated = record user { password_hash = some password_hash }
    modify (λ db. record db { users = Users.update db.users updated })
    pure updated

-- An account that is there is returned as it is.
unfoldable pub or_register :
    (id : String) (now : DateTime) → HfOauthUser → Option User → Action User
or_register id now hf_user (some existing) = pure existing
or_register id now hf_user none = do
  let user = hf_user_account id hf_user now
  modify (λ db. record db { users = Users.create db.users user })
  pure user

unfoldable pub login_or_register_with_hf :
    (id : String) (now : DateTime) (hf_user : Checked HfOauthUser) → Action User
unfolding or_register
login_or_register_with_hf id now exchanged = do
  hf_user ← lift exchanged
  existing ← gets (λ db. Users.get_by_hf_user_id db.users hf_user.hf_user_id)
  or_register id now hf_user existing
