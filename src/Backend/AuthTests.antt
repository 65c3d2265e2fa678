-- ===== src/Backend/AuthTests.antt =====
-- The theorems on accounts at concrete inputs. Here a hash is the salt and the length of the input.
use phyai_saas_train_vla.Prelude.{
  ◌≡◌, refl, arith, String, Bool, true, none, some, [], ◌∷◌, ok, err, length, eqb, ◌==◌, text_eq,
  eq_iff, if◌then◌else◌,
}
use phyai_saas_train_vla.Common.Float.{one}
use phyai_saas_train_vla.Common.Models.{User}
use phyai_saas_train_vla.Common.Errors.{Checked, wrong_old_password}
use phyai_saas_train_vla.Repository.Database.{Database}
use phyai_saas_train_vla.Repository.Users
use phyai_saas_train_vla.Dict.Keyed.{IsKeyed}
use phyai_saas_train_vla.Samples.{alice, db}
use phyai_saas_train_vla.Backend.AuthService.{
  Bcrypt, ChecksOwnHash, CaptchaResult, HfOauthUser, email_user, accepts, hash_password,
  verify_password, register_with_email, login_with_email, change_password,
}
use phyai_saas_train_vla.Backend.AuthService.Accounts.{
  Outcome, Logins, register_with_email_exact, register-login, login_or_register_with_hf-again,
}
use phyai_saas_train_vla.Backend.AuthService.Password.{user_key, change_password-accepts}

abbrev plain : Bcrypt
plain = record {
  encode = λ s. if s == "" then [] else 1 ∷ 2 ∷ [];
  hashpw = λ bytes salt. ok (if eqb (length bytes) 2 then "two" else "none");
  checkpw = λ bytes hash. ok ((if eqb (length bytes) 2 then "two" else "none") == hash);
}

own_text :
    (text hash : String)
    → ◌≡◌ {A = Checked String} (ok text) (ok hash)
    → ◌≡◌ {A = Checked Bool} (ok (text == hash)) (ok true)
own_text text hash e = ground (arith, eq_iff text hash)

plain-ChecksOwnHash : ChecksOwnHash plain
plain-ChecksOwnHash bytes salt hash e =
    own_text (if eqb (length bytes) 2 then "two" else "none") hash e

abbrev human : CaptchaResult
human = record { success = true; score = one }

abbrev carol : User
carol = email_user "u2" "carol@x.org" "two" 7

abbrev with_carol : Database
with_carol = record db { users = ("alice", alice) ∷ ("u2", carol) ∷ [] }

carol_registers :
    register_with_email plain "u2" "s" 7 "carol@x.org" "secret" (ok human) db
    ≡ (ok carol, with_carol)
unfolding register_with_email Users.create Users.get_by_email hash_password
carol_registers = refl

secret_hashed : hash_password plain "s" "secret" ≡ ok "two"
unfolding hash_password
secret_hashed = refl

register_with_email_exact_example :
    Outcome plain "u2" "s" 7 "carol@x.org" "secret"
      (ok human)
      db
      (register_with_email plain "u2" "s" 7 "carol@x.org" "secret" (ok human) db)
register_with_email_exact_example =
    register_with_email_exact plain "u2" "s" 7 "carol@x.org" "secret" (ok human) db

register-login_example :
    login_with_email plain "carol@x.org" "secret" with_carol ≡ (ok carol, with_carol)
register-login_example =
    register-login plain "u2" "s" 7 "carol@x.org" "secret" (ok human) db plain-ChecksOwnHash refl
      carol_registers

abbrev dave : HfOauthUser
dave = record { hf_user_id = "hf1"; username = "dave"; email = none }

login_or_register_with_hf-again_example : Logins "u3" "u4" 7 8 dave db
login_or_register_with_hf-again_example = login_or_register_with_hf-again "u3" "u4" 7 8 dave db refl

carol_changes : change_password plain "s" "u2" "secret" "" with_carol ≡ (
  ok (record carol { password_hash = some "none" }),
  record with_carol {
    users = ("alice", alice) ∷ ("u2", record carol { password_hash = some "none" }) ∷ [];
  },
)
unfolding change_password Users.get Users.update hash_password verify_password
carol_changes = refl

with_carol-IsKeyed : IsKeyed user_key with_carol.users
with_carol-IsKeyed = ground arith

abbrev changed_carol : User
changed_carol = record carol { password_hash = some "none" }

abbrev with_changed : Database
with_changed = record db { users = ("alice", alice) ∷ ("u2", changed_carol) ∷ [] }

change_password-accepts_example :
    (old : User) × (Users.get with_carol.users "u2" ≡ some old)
    × (accepts plain "secret" old.password_hash ≡ ok true)
    × (accepts plain "" (some "none") ≡ ok true)
    × (Users.get with_changed.users "alice" ≡ Users.get with_carol.users "alice")
    × (db.jobs ≡ db.jobs)
change_password-accepts_example =
    change_password-accepts plain "s" "u2" "secret" "" with_carol plain-ChecksOwnHash
      with_carol-IsKeyed "alice" carol_changes

wrong_password :
    (change_password plain "s" "u2" "" "x" with_carol).0
    ≡ err (wrong_old_password "Old password is incorrect")
unfolding change_password Users.get verify_password
wrong_password = refl
