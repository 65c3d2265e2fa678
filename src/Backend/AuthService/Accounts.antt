-- ===== src/Backend/AuthService/Accounts.antt =====
-- Who registers can log in, and the same account comes back.
use phyai_saas_train_vla.Prelude.{
  ◌≡◌, sym, ◌∙◌, String, Bool, true, false, none, some, [], ◌∷◌, arith, eq_iff, Result, ok, err,
  Bool-cases, Option-cases, Result-cases, inl, inr, take, eq_refl, not, ◌||◌, ◌⊎◌, refl,
}
use phyai_saas_train_vla.Dict
use phyai_saas_train_vla.Dict.{Dict, values}
use phyai_saas_train_vla.Common.Float.{float_lt}
use phyai_saas_train_vla.Common.Models.{DateTime, User}
use phyai_saas_train_vla.Common.Errors.{Error, Checked, captcha_failed, email_already_registered}
use phyai_saas_train_vla.Repository.Database.{Database}
use phyai_saas_train_vla.Repository.Users
use phyai_saas_train_vla.Repository.Users.{first, is_text}
use phyai_saas_train_vla.Backend.AuthService.{
  Bcrypt, ChecksOwnHash, CaptchaResult, HfOauthUser, email_user, hf_user_account, hash_password,
  verify_password, accepts, register_with_email, login_with_email, login_or_register_with_hf,
  min_captcha_score, max_password_bytes,
}

-- A user that is put under a new id is the last to be found.
first-put :
    (p : User → Bool) (users : Dict User) (id : String) (user : User)
    → Dict.get users id ≡ none
    → first p (values users) ≡ none
    → p user ≡ true
    → first p (values (Dict.put users id user)) ≡ some user
first-put p [] id user fresh missing fits = ground arith
first-put p ((k, u) ∷ users) id user fresh missing fits =
    ground (arith, first-put p users id user, eq_iff k id)

same_result :
    {u v : User} {a b : Database}
    → ◌≡◌ {A = Result Error User × Database} (ok u, a) (ok v, b)
    → (u ≡ v) × (a ≡ b)
same_result e = (cc, cc)

refused_cases : (a b : Bool) → (not a || b) ≡ true → (a ≡ false) ⊎ (b ≡ true)
refused_cases true b h = inr (ground arith)
refused_cases false b h = inl refl

granted : (a b : Bool) → (not a || b) ≡ false → (a ≡ true) × (b ≡ false)
granted a b h = ground arith

module _ (bcrypt : Bcrypt) (id salt : String) (now : DateTime) (email password : String)
    (captcha_result : Checked CaptchaResult) (db : Database) where
  abbrev with_account : String → Database
  with_account hash = record db { users = Users.create db.users (email_user id email hash now) }

  abbrev Human : CaptchaResult → Type 0
  Human captcha =
      (captcha_result ≡ ok captcha)
      × (captcha.success ≡ true)
      × (float_lt captcha.score min_captcha_score ≡ false)

  -- The ways out of a registration, with what leads to each and what it returns and stores.
  pub data Outcome (result : Result Error User × Database) : Type 0 where
    not_verified : (e : Error) → captcha_result ≡ err e → result ≡ (err e, db) → Outcome result
    not_human :
        (captcha : CaptchaResult)
        → captcha_result ≡ ok captcha
        → (captcha.success ≡ false) ⊎ (float_lt captcha.score min_captcha_score ≡ true)
        → result ≡ (err captcha_failed, db)
        → Outcome result
    taken :
        (captcha : CaptchaResult) (other : User)
        → Human captcha
        → Users.get_by_email db.users email ≡ some other
        → result ≡ (err (email_already_registered email), db)
        → Outcome result
    not_hashed :
        (captcha : CaptchaResult) (e : Error)
        → Human captcha
        → Users.get_by_email db.users email ≡ none
        → hash_password bcrypt salt password ≡ err e
        → result ≡ (err e, db)
        → Outcome result
    registered :
        (captcha : CaptchaResult) (hash : String)
        → Human captcha
        → Users.get_by_email db.users email ≡ none
        → hash_password bcrypt salt password ≡ ok hash
        → result ≡ (ok (email_user id email hash now), with_account hash)
        → Outcome result

  outcome-human :
      (captcha : CaptchaResult)
      → captcha_result ≡ ok captcha
      → (not captcha.success || float_lt captcha.score min_captcha_score) ≡ false
      → Outcome (register_with_email bcrypt id salt now email password captcha_result db)
  unfolding register_with_email
  outcome-human captcha verified human =
      let (good, high) = granted captcha.success (float_lt captcha.score min_captcha_score) human in
      elim (Option-cases (Users.get_by_email db.users email)) [
        | inr (other, found) ↦
            taken captcha other (verified, good, high) found (rw (verified, human, found))
        | inl unused ↦ elim (Result-cases (hash_password bcrypt salt password)) [
          | inl (hash, e) ↦
              registered captcha hash (verified, good, high) unused e
                (rw (verified, human, unused, e))
          | inr (x, e) ↦
              not_hashed captcha x (verified, good, high) unused e (rw (verified, human, unused, e))
        ]
      ]

  -- A registration has five ways out. The captcha verifier raises; its verdict is no success or its
  -- score is too low; the verdict is good and the email is in use; it is not, and the password cannot
  -- be hashed: these raise, each its own error, and the database stays as it was. Only where the
  -- verdict is good, the email is not in use and the password is hashed, the account with this hash
  -- is returned, and it is all that is stored.
  pub register_with_email_exact :
      Outcome (register_with_email bcrypt id salt now email password captcha_result db)
  unfolding register_with_email
  register_with_email_exact = elim (Result-cases captcha_result) [
    | inr (e, failed) ↦ not_verified e failed (rw failed)
    | inl (captcha, verified) ↦
        let robot = not captcha.success || float_lt captcha.score min_captcha_score in
        elim (Bool-cases robot) [
          | inl is_robot ↦
              not_human captcha verified
                (refused_cases captcha.success (float_lt captcha.score min_captcha_score) is_robot)
                (rw (verified, is_robot))
          | inr human ↦ outcome-human captcha verified human
        ]
  ]

  login-registered :
      ChecksOwnHash bcrypt
      → Dict.get db.users id ≡ none
      → (hash : String) → Users.get_by_email db.users email ≡ none
      → hash_password bcrypt salt password ≡ ok hash
      → login_with_email bcrypt email password (with_account hash)
        ≡ (ok (email_user id email hash now), with_account hash)
  unfolding login_with_email accepts hash_password verify_password Users.create Users.get_by_email
  login-registered own fresh hash unused e = rw (
    first-put (λ user. is_text user.email email) db.users id (email_user id email hash now) fresh
        unused (eq_refl email),
    own (take max_password_bytes (bcrypt.encode password)) salt hash e,
  )

  -- After a registration under a new id that succeeds, logging in with the same email and password
  -- gives the new account and changes nothing, if bcrypt accepts a password against its own hash.
  pub register-login :
      ChecksOwnHash bcrypt
      → Dict.get db.users id ≡ none
      → {user : User} {db' : Database}
      → register_with_email bcrypt id salt now email password captcha_result db ≡ (ok user, db')
      → login_with_email bcrypt email password db' ≡ (ok user, db')
  register-login own fresh {user} {db'} h = elim register_with_email_exact [
    | not_verified e failed r ↦ cc
    | not_human captcha verified robot r ↦ cc
    | taken captcha other human found r ↦ cc
    | not_hashed captcha x human unused f r ↦ cc
    | registered captcha hash human unused f r ↦
        let (same_user, same_db) = same_result (sym r ∙ h) in
        rw (← same_user, ← same_db) (login-registered own fresh hash unused f)
  ]

module _ (id again : String) (now later : DateTime) (hf_user : HfOauthUser) (db : Database) where
  abbrev with_hf_account : Database
  with_hf_account = record db { users = Users.create db.users (hf_user_account id hf_user now) }

  hf_found :
      Dict.get db.users id ≡ none
      → Users.get_by_hf_user_id db.users hf_user.hf_user_id ≡ none
      → Users.get_by_hf_user_id with_hf_account.users hf_user.hf_user_id
        ≡ some (hf_user_account id hf_user now)
  unfolding Users.create Users.get_by_hf_user_id
  hf_found fresh missing =
      first-put (λ user. is_text user.hf_user_id hf_user.hf_user_id) db.users id
        (hf_user_account id hf_user now) fresh missing (eq_refl hf_user.hf_user_id)

  -- A first login and what a second one gives.
  pub data Logins : Type 0 where
    known :
        (user : User)
        → Users.get_by_hf_user_id db.users hf_user.hf_user_id ≡ some user
        → login_or_register_with_hf id now (ok hf_user) db ≡ (ok user, db)
        → login_or_register_with_hf again later (ok hf_user) db ≡ (ok user, db)
        → Logins
    new :
        Users.get_by_hf_user_id db.users hf_user.hf_user_id ≡ none
        → login_or_register_with_hf id now (ok hf_user) db
          ≡ (ok (hf_user_account id hf_user now), with_hf_account)
        → login_or_register_with_hf again later (ok hf_user) with_hf_account
          ≡ (ok (hf_user_account id hf_user now), with_hf_account)
        → Logins

  -- A login through Hugging Face whose code is exchanged, where the new id is not in use. If an account
  -- has the Hugging Face id, it is returned, by this and by a second login, and nothing changes. If none has,
  -- an account with the Hugging Face id is made under the new id, whatever emails are in use; whoever
  -- logs in a second time, whatever id and time are then offered, gets the same account, and no
  -- second one is made.
  pub login_or_register_with_hf-again : Dict.get db.users id ≡ none → Logins
  unfolding login_or_register_with_hf
  login_or_register_with_hf-again fresh =
      elim (Option-cases (Users.get_by_hf_user_id db.users hf_user.hf_user_id)) [
        | inl missing ↦ new missing (rw missing) (rw (hf_found fresh missing))
        | inr (user, found) ↦ known user found (rw found) (rw found)
      ]
