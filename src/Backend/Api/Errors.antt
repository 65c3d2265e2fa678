-- ===== src/Backend/Api/Errors.antt =====
-- How an exception becomes a response: the table of backend/main.py.
use phyai_saas_train_vla.Prelude.{ℕ, String, Option, none, some, ok, err}
use phyai_saas_train_vla.Common.Errors.{
  Error, Checked, error_text, captcha_failed, email_already_registered, invalid_credentials,
  invalid_token, wrong_old_password, user_not_found, job_not_found, not_job_owner, quota_exceeded,
  invalid_training_steps, download_not_available, upload_validation, upload_not_found,
  hf_dataset_not_found, cancel_not_allowed, http_exception,
}

unfoldable pub exception_status_code : Error → Option ℕ
exception_status_code captcha_failed = some 400
exception_status_code (email_already_registered email) = some 409
exception_status_code invalid_credentials = some 401
exception_status_code (invalid_token text) = some 401
exception_status_code (wrong_old_password text) = some 400
exception_status_code (user_not_found id) = some 404
exception_status_code (job_not_found id) = some 404
exception_status_code (not_job_owner id) = some 403
exception_status_code (quota_exceeded reason) = some 429
exception_status_code (invalid_training_steps reason) = some 400
exception_status_code (download_not_available id) = some 409
exception_status_code (upload_validation reason) = some 400
exception_status_code (upload_not_found path) = some 404
exception_status_code (hf_dataset_not_found repo) = some 404
exception_status_code (cancel_not_allowed status) = some 409
exception_status_code _ = none

pub data Response (A : Type 0) : Type 0 where
  answer : A → Response A
  failure : (code : ℕ) (detail : String) → Response A

-- FastAPI answers an `HTTPException` by its own code, an exception of the table by its handler, and
-- any other as an internal error.
abbrev pub failed : {A : Type 0} → Error → Response A
failed e = elim (exception_status_code e) [
  | some code ↦ failure code (error_text e)
  | none ↦ elim e [
    | http_exception code detail ↦ failure code detail
    | _ ↦ failure 500 "Internal Server Error"
  ]
]

unfoldable pub respond : {A : Type 0} → Checked A → Response A
unfolding exception_status_code
respond (ok a) = answer a
respond (err e) = failed e
