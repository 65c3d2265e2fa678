-- ===== src/Common/Errors.antt =====
-- The exceptions that the program raises, one constructor for each class, with the values by which
-- a handler or a message tells them apart.
use phyai_saas_train_vla.Prelude.{ℕ, show_nat, String, Option, none, some, [], ◌∷◌, Result, format}
use phyai_saas_train_vla.Common.Models.{JobStatus, status_value}

pub data Error : Type 0 where
  -- common/domain
  invalid_transition : JobStatus → JobStatus → Error
  cancel_not_allowed : JobStatus → Error
  invalid_info_json : String → Error
  -- backend/services
  user_not_found : String → Error
  job_not_found : String → Error
  not_job_owner : String → Error
  quota_exceeded : Option String → Error
  invalid_training_steps : Option String → Error
  download_not_available : String → Error
  captcha_failed : Error
  email_already_registered : String → Error
  invalid_credentials : Error
  wrong_old_password : String → Error
  upload_validation : Option String → Error
  upload_not_found : String → Error
  hf_dataset_not_found : String → Error
  invalid_token : String → Error
  -- FastAPI's exception with a status code and a detail
  http_exception : ℕ → String → Error
  -- worker
  checkpoint_not_found : String → Error
  lock_acquisition : String → Error
  system_exit : ℕ → Error
  user_missing : String → Error
  dataset_fetch : String → Error
  -- Python's own and those of libraries, with their texts
  value_error : String → Error
  attribute_error : String → Error
  stop_iteration : Error
  file_not_found : String → Error
  key_error : String → Error
  type_error : String → Error
  bad_zip_file : String → Error
  other_error : String → Error

abbrev pub Checked : Type 0 → Type 0
Checked A = Result Error A

-- `str(e)` for an argument that may be `None`
abbrev text_or_none : Option String → String
text_or_none none = "None"
text_or_none (some s) = s

-- `str(exc)`
unfoldable pub error_text : Error → String
error_text (invalid_transition from to) =
    format
      ("Cannot transition job from '" ∷ status_value from ∷ "' to '" ∷ status_value to ∷ "'" ∷ [])
error_text (cancel_not_allowed status) =
    format ("Cannot cancel a job in status '" ∷ status_value status ∷ "'" ∷ [])
error_text (invalid_info_json text) = format ("meta/info.json is not valid JSON: " ∷ text ∷ [])
error_text (user_not_found id) = id
error_text (job_not_found id) = id
error_text (not_job_owner id) = id
error_text (quota_exceeded reason) = text_or_none reason
error_text (invalid_training_steps reason) = text_or_none reason
error_text (download_not_available id) = id
error_text captcha_failed = "reCAPTCHA verification failed"
error_text (email_already_registered email) = format ("Email already registered: " ∷ email ∷ [])
error_text invalid_credentials = "Invalid email or password"
error_text (wrong_old_password text) = text
error_text (upload_validation reason) = text_or_none reason
error_text (upload_not_found path) = path
error_text (hf_dataset_not_found repo) =
    format ("Hugging Face dataset repo not found: " ∷ repo ∷ [])
error_text (invalid_token text) = text
error_text (http_exception code detail) = format (show_nat code ∷ ": " ∷ detail ∷ [])
error_text (checkpoint_not_found path) = path
error_text (lock_acquisition text) = text
error_text (system_exit code) = show_nat code
error_text (user_missing id) = id
error_text (dataset_fetch text) = text
error_text (value_error text) = text
error_text (attribute_error text) = text
error_text stop_iteration = ""
error_text (file_not_found text) = text
error_text (key_error text) = text
error_text (type_error text) = text
error_text (bad_zip_file text) = text
error_text (other_error text) = text
