-- ===== src/Backend/ApiTests.antt =====
-- The theorems on requests at concrete inputs. A token is here the user's id after a mark.
use phyai_saas_train_vla.Prelude.{
  ◌==◌, text_eq, Bool, true, eq_iff, [], ◌∷◌, text_eq, ◌≡◌, refl, arith, String, Option, none, some,
  ok, text_eq,
}
use Prim.Native.String.{◌++◌}
use phyai_saas_train_vla.Common.Errors.{Checked, job_not_found, error_text}
use phyai_saas_train_vla.Repository.Jobs
use phyai_saas_train_vla.Backend.JobService
use phyai_saas_train_vla.Samples.{alice, db, jobs-IsKeyed}
use phyai_saas_train_vla.Backend.Security.{Jwt, IsJwt, bearer, get_current_user_id}
use phyai_saas_train_vla.Backend.Api.Session.{register-session}
use phyai_saas_train_vla.Repository.Users
use phyai_saas_train_vla.Repository.Database.{Database}
use phyai_saas_train_vla.Common.Models.{User}
use phyai_saas_train_vla.Common.Float.{one}
use phyai_saas_train_vla.Backend.AuthService.{
  Bcrypt, ChecksOwnHash, CaptchaResult, email_user, hash_password, register_with_email,
}
use phyai_saas_train_vla.Backend.Api.{login, cancel_job}
use phyai_saas_train_vla.Backend.Storage.{
  ObjectStorage, new_storage, rstrip_slash, put_object, get_object, delete,
}
use phyai_saas_train_vla.Backend.Storage.Objects.{get_object_exact}
use phyai_saas_train_vla.Backend.Api.Errors.{answer, failure, respond}
use phyai_saas_train_vla.Backend.Api.Cancel.{Answer, served, cancel_job_exact}

abbrev written : Option String → String
written none = ""
written (some id) = String.◌∷◌ "+" id

abbrev signed_as : String → Option String
signed_as String.[] = none
signed_as (String.◌∷◌ c s) = some s

abbrev plain_jwt : Jwt
plain_jwt = record {
  encode = λ payload secret. written payload.sub;
  decode = λ now token secret. ok (record { sub = signed_as token; iat = 0; exp = 0 });
  strip = λ s. s;
}

signed_as-written : (sub : Option String) → signed_as (written sub) ≡ sub
signed_as-written none = refl
signed_as-written (some id) = refl

plain_jwt-IsJwt : IsJwt plain_jwt
plain_jwt-IsJwt = record {
  accepts = λ payload secret now started alive. (
    record { sub = signed_as (written payload.sub); iat = 0; exp = 0 },
    refl,
    signed_as-written payload.sub,
  );
  no_blanks = λ payload secret. refl;
}

-- All passwords have one hash here.
abbrev salted : Bcrypt
salted = record {
  encode = λ s. [];
  hashpw = λ bytes salt. ok "h";
  checkpw = λ bytes hash. ok (hash == "h");
}

salted-ChecksOwnHash : ChecksOwnHash salted
salted-ChecksOwnHash bytes salt hash e = own hash e
  where
    own :
        (hash : String)
        → ◌≡◌ {A = Checked String} (ok "h") (ok hash)
        → ◌≡◌ {A = Checked Bool} (ok (hash == "h")) (ok true)
    own hash e = ground (arith, eq_iff hash "h")

abbrev human : CaptchaResult
human = record { success = true; score = one }

abbrev carol : User
carol = email_user "u2" "carol@x.org" "h" 7

abbrev with_carol : Database
with_carol = record db { users = ("alice", alice) ∷ ("u2", carol) ∷ [] }

carol_registers :
    register_with_email salted "u2" "s" 7 "carol@x.org" "secret" (ok human) db
    ≡ (ok carol, with_carol)
unfolding register_with_email Users.create Users.get_by_email hash_password
carol_registers = refl

register-session_example :
    (token : String) × (login plain_jwt "key" salted 10 "carol@x.org" "secret" with_carol
      ≡ (ok token, with_carol))
    × (get_current_user_id plain_jwt 5000000 "key" (some (bearer ++ token)) ≡ ok "u2")
register-session_example =
    register-session plain_jwt plain_jwt-IsJwt "key" salted salted-ChecksOwnHash "u2" "s"
      "carol@x.org" "secret" 7 10 5000000 db refl human carol_registers (omega arith) (omega arith)

cancel_job_exact_example : Answer 90000000000 "alice" "j1" db jobs-IsKeyed
cancel_job_exact_example = cancel_job_exact 90000000000 "alice" "j1" db jobs-IsKeyed

not_found_run :
    served (cancel_job 90000000000 "alice" "j9" db)
    ≡ (failure 404 (error_text (job_not_found "j9")), db)
unfolding cancel_job respond error_text JobService.request_cancel Jobs.get
not_found_run = refl

abbrev storage : ObjectStorage
storage = record {
  objects = ("uploads/a.zip", 1 ∷ 2 ∷ []) ∷ [];
  base_url = "http://localhost:8000";
}

get_object_exact_example :
    (get_object "uploads/b.zip" (put_object "uploads/b.zip" (7 ∷ []) storage).1 ≡ answer (7 ∷ []))
    × (get_object "uploads/b.zip" (delete "uploads/b.zip" storage) ≡ failure 404 "Object not found")
get_object_exact_example =
    get_object_exact storage "uploads/b.zip" "uploads/b.zip" (7 ∷ []) (refl, tt)

base_url_run : (new_storage "http://h:1//").base_url ≡ "http://h:1"
unfolding new_storage rstrip_slash
base_url_run = refl
