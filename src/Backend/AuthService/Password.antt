-- ===== src/Backend/AuthService/Password.antt =====
-- Changing a password.
use phyai_saas_train_vla.Prelude.{
  ◌≡◌, refl, sym, ◌∙◌, ap, String, true, false, some, Result, ok, err, Option-cases, Result-cases,
  inl, inr, take, if◌then◌else◌, ◌==◌, text_eq,
}
use phyai_saas_train_vla.Dict
use phyai_saas_train_vla.Dict.{Dict, get-put}
use phyai_saas_train_vla.Dict.Keyed.{IsKeyed, get-IsKeyed}
use phyai_saas_train_vla.Common.Models.{User}
use phyai_saas_train_vla.Common.Errors.{Error, wrong_old_password}
use phyai_saas_train_vla.Repository.Database.{Database}
use phyai_saas_train_vla.Repository.Users
use phyai_saas_train_vla.Backend.AuthService.{
  Bcrypt, ChecksOwnHash, hash_password, verify_password, accepts, change_password,
  max_password_bytes,
}

abbrev pub user_key : User → String
user_key user = user.id

abbrev pub with_password : String → User → User
with_password hash user = record user { password_hash = some hash }

module _ (bcrypt : Bcrypt) (salt user_id old_password new_password : String) (db : Database) where
  abbrev result : Result Error User × Database
  result = change_password bcrypt salt user_id old_password new_password db

  -- The ways out of a change of password.
  data Outcome : Type 0 where
    refused : (e : Error) → result ≡ (err e, db) → Outcome
    changed :
        (user : User) (hash : String)
        → Users.get db.users user_id ≡ some user
        → accepts bcrypt old_password user.password_hash ≡ ok true
        → hash_password bcrypt salt new_password ≡ ok hash
        → result ≡ (
          ok (with_password hash user),
          record db { users = Users.update db.users (with_password hash user) },
        )
        → Outcome

  new_hash :
      (user : User) (old_hash : String)
      → Users.get db.users user_id ≡ some user
      → user.password_hash ≡ some old_hash
      → verify_password bcrypt old_password old_hash ≡ ok true
      → Outcome
  unfolding change_password accepts
  new_hash user old_hash found has fits =
      elim (Result-cases (hash_password bcrypt salt new_password)) [
        | inl (hash, e) ↦ changed user hash found (rw (has, fits)) e (rw (found, has, fits, e))
        | inr (x, e) ↦ refused x (rw (found, has, fits, e))
      ]

  old_hash_known :
      (user : User) (old_hash : String)
      → Users.get db.users user_id ≡ some user
      → user.password_hash ≡ some old_hash
      → Outcome
  unfolding change_password
  old_hash_known user old_hash found has =
      elim (Result-cases (verify_password bcrypt old_password old_hash)) [
        | inl (true, e) ↦ new_hash user old_hash found has e
        | inl (false, e) ↦
            refused (wrong_old_password "Old password is incorrect") (rw (found, has, e))
        | inr (x, e) ↦ refused x (rw (found, has, e))
      ]

  outcome : Outcome
  unfolding change_password
  outcome = elim (Option-cases (Users.get db.users user_id)) [
    | inl missing ↦
        refused (wrong_old_password "User not found or has no password set") (rw missing)
    | inr (user, found) ↦ elim (Option-cases user.password_hash) [
      | inl unset ↦
          refused (wrong_old_password "User not found or has no password set") (rw (found, unset))
      | inr (old_hash, has) ↦ old_hash_known user old_hash found has
    ]
  ]

  accepts-own :
      ChecksOwnHash bcrypt
      → (hash : String) → hash_password bcrypt salt new_password ≡ ok hash
      → accepts bcrypt new_password (some hash) ≡ ok true
  unfolding accepts verify_password hash_password
  accepts-own own hash e = own (take max_password_bytes (bcrypt.encode new_password)) salt hash e

  same_result :
      {u v : User} {a b : Database}
      → ◌≡◌ {A = Result Error User × Database} (ok u, a) (ok v, b)
      → (u ≡ v) × (a ≡ b)
  same_result e = (cc, cc)

  get-changed :
      (user : User) (hash other : String)
      → user.id ≡ user_id
      → Users.get (Users.update db.users (with_password hash user)) other
        ≡ (if user_id == other then some (with_password hash user) else Users.get db.users other)
  unfolding Users.get Users.update
  get-changed user hash other e =
      get-put db.users user.id other (with_password hash user)
      ∙ ap (λ k. if k == other then some (with_password hash user) else Dict.get db.users other) e

  id_of :
      (user : User)
      → IsKeyed user_key db.users
      → Users.get db.users user_id ≡ some user
      → user.id ≡ user_id
  unfolding Users.get
  id_of user k found = get-IsKeyed user_key db.users user_id user k found

  -- Where every user is stored under the own id, a change of password that succeeds had the right old
  -- password; the user is then stored with a hash that accepts the new password, if bcrypt
  -- accepts a password against its own hash, and every other user and all jobs are as they were.
  pub change_password-accepts :
      ChecksOwnHash bcrypt
      → IsKeyed user_key db.users
      → (other : String) {user : User} {db' : Database} → result ≡ (ok user, db')
      → (old : User) × (Users.get db.users user_id ≡ some old)
        × (accepts bcrypt old_password old.password_hash ≡ ok true)
        × (accepts bcrypt new_password user.password_hash ≡ ok true)
        × (Users.get db'.users other
            ≡ (if user_id == other then some user else Users.get db.users other))
        × (db'.jobs ≡ db.jobs)
  change_password-accepts own k other {user} {db'} h = elim outcome [
    | refused e r ↦ cc
    | changed old hash found fits e r ↦
        let (same_user, same_db) = same_result (sym r ∙ h) in
        rw (← same_user, ← same_db)
          (
            old,
            found,
            fits,
            accepts-own own hash e,
            get-changed old hash other (id_of old k found),
            refl,
          )
  ]

  -- A change of password that is refused changes nothing.
  pub change_password-refused : {e : Error} → result.0 ≡ err e → result.1 ≡ db
  change_password-refused h = elim outcome [
    | refused e r ↦ rw r
    | changed old hash found fits e r ↦ cc
  ]
