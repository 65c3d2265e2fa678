-- ===== src/Backend/UploadService.antt =====
-- backend/services/upload_service.py: a dataset comes in, is checked, and becomes a job. The object
-- storage, the model hub, `zipfile` and `json.loads` are parameters; a stream is what the storage
-- opens, and the world is what their calls may change.
pub mod Steps
pub mod Zip
pub mod Repo
use phyai_saas_train_vla.Prelude.{
  ℕ, ◌*◌, String, Bool, true, false, not, Option, none, some, List, [], ◌∷◌, map, Result, ok, err,
  Exec, pure, raise, raise_if, lift, ◌>>=◌, ◌>>◌, format, ℤ, if◌then◌else◌,
}
use phyai_saas_train_vla.Common.Models.{
  DateTime, PolicyType, SourceType, zip_upload, hf_hub, is_present, text_or_empty, Job,
}
use phyai_saas_train_vla.Common.Errors.{
  Error, Checked, error_text, upload_not_found, upload_validation, hf_dataset_not_found,
  invalid_info_json, file_not_found, key_error, bad_zip_file,
}
use phyai_saas_train_vla.Common.Validation.{
  ZipEntryMeta, ValidationLimits, ValidationResult, check_lerobot_structure,
  check_decompression_bomb,
}
use phyai_saas_train_vla.Common.PolicyShapes.{Json, parse_info_json, check_policy_compatibility}
use phyai_saas_train_vla.Repository.Database.{Database}
use phyai_saas_train_vla.Backend.JobService.{create_job}

abbrev pub info_json_path : String
info_json_path = "meta/info.json"

abbrev pub upload_url_expires_in_seconds : ℕ
upload_url_expires_in_seconds = 15 * 60

-- The storage and the hub over a world `W`; archives as streams `S`, file contents as bytes `B`.
pub record Sources (W S B : Type 0) : Type 0 where
  pub generate_upload_url : String → String → ℕ → String
  pub exists : String → Exec W Error Bool
  pub delete : String → Exec W Error (Unit {0})
  pub open_read_stream : String → Exec W Error S
  -- `zipfile.ZipFile(stream)` with `infolist` and `read`; `json.loads`, or the decoding error's text
  pub infolist : S → Checked (List ZipEntryMeta)
  pub read_member : S → String → Checked B
  pub loads : B → Result String Json
  pub repo_exists : String → Exec W Error Bool
  pub list_repo_files : String → Exec W Error (List String)
  pub get_repo_file_bytes : String → String → Exec W Error B

pub record Site (W : Type 0) : Type 0 where
  pub db : Database
  pub world : W

abbrev pub Action : Type 0 → Type 0 → Type 0
Action W A = Exec (Site W) Error A

module _ {W : Type 0} where
  abbrev pub call : {A : Type 0} → Exec W Error A → Action W A
  call m h = let (r, w) = m h.world in (r, record h { world = w })

  abbrev pub attempt : {A : Type 0} → Exec W Error A → Action W (Result Error A)
  attempt m h = let (r, w) = m h.world in (ok r, record h { world = w })

  abbrev pub on_database : {A : Type 0} → Exec Database Error A → Action W A
  on_database m h = let (r, db) = m h.db in (r, record h { db = db })

abbrev pub upload_path : String → String → String
upload_path user_id upload_id = format ("uploads/" ∷ user_id ∷ "/" ∷ upload_id ∷ ".zip" ∷ [])

-- `error_message or "Dataset validation failed"`
abbrev pub or_default : Option String → String
or_default message =
    if is_present message then text_or_empty message else "Dataset validation failed"

abbrev pub missing_info : String
missing_info = format ("Missing required file: " ∷ info_json_path ∷ [])

abbrev pub bad_archive : String
bad_archive = "Uploaded file is not a valid zip archive"

module _ {W S B : Type 0} (sources : Sources W S B) where
  -- `fresh_id` is what `uuid4` returns
  unfoldable pub create_upload_target :
      (fresh_id user_id : String) → Option String → String × String
  create_upload_target fresh_id user_id upload_id =
      let id = if is_present upload_id then text_or_empty upload_id else fresh_id in
      (
        id,
        sources.generate_upload_url (upload_path user_id id) "application/zip"
            upload_url_expires_in_seconds,
      )

  unfoldable pub reject : {A : Type 0} → String → Option String → Action W A
  reject object_path error_message = do
    call (sources.delete object_path)
    raise (upload_validation (some (or_default error_message)))

  -- `if not result.ok: self._reject(object_path, result.error)`
  unfoldable pub accept : String → ValidationResult → Action W (Unit {0})
  unfolding reject
  accept object_path result = if result.ok then pure tt else reject object_path result.error

  unfoldable pub read_zip_entries : String → Exec W Error (List ZipEntryMeta)
  read_zip_entries object_path = do
    stream ← sources.open_read_stream object_path
    lift (sources.infolist stream)

  unfoldable pub read_zip_member : String → String → Exec W Error B
  read_zip_member object_path member_name = do
    stream ← sources.open_read_stream object_path
    lift (sources.read_member stream member_name)

  -- `except zipfile.BadZipFile`
  unfoldable pub entries_or_reject :
      String → Result Error (List ZipEntryMeta) → Action W (List ZipEntryMeta)
  unfolding reject
  entries_or_reject object_path (ok entries) = pure entries
  entries_or_reject object_path (err (bad_zip_file message)) = reject object_path (some bad_archive)
  entries_or_reject object_path (err e) = raise e

  unfoldable pub parsed : Result Error B → Checked Json
  parsed (ok bytes) = parse_info_json (sources.loads bytes)
  parsed (err e) = err e

  -- `except (KeyError, FileNotFoundError)` and `except InvalidInfoJsonError`
  unfoldable pub info_or_reject : String → Checked Json → Action W Json
  unfolding reject
  info_or_reject object_path (ok info) = pure info
  info_or_reject object_path (err (key_error message)) = reject object_path (some missing_info)
  info_or_reject object_path (err (file_not_found message)) = reject object_path (some missing_info)
  info_or_reject object_path (err (invalid_info_json message)) =
      reject object_path (some (error_text (invalid_info_json message)))
  info_or_reject object_path (err e) = raise e

  -- The checks on the list of entries, then those on the metadata: all up to the last line.
  unfoldable pub check_entries : ValidationLimits → String → Action W (Unit {0})
  unfolding accept read_zip_entries entries_or_reject
  check_entries limits object_path = do
    listed ← attempt (read_zip_entries object_path)
    entries ← entries_or_reject object_path listed
    accept object_path (check_lerobot_structure (map (λ (e : ZipEntryMeta). e.name) entries))
    accept object_path (check_decompression_bomb entries limits)

  unfoldable pub check_metadata : String → PolicyType → Action W (Unit {0})
  unfolding accept read_zip_member parsed info_or_reject
  check_metadata object_path policy = do
    member ← attempt (read_zip_member object_path info_json_path)
    info ← info_or_reject object_path (parsed member)
    shape_result ← lift (check_policy_compatibility info policy)
    accept object_path shape_result

  unfoldable pub check_zip : ValidationLimits → String → PolicyType → Action W (Unit {0})
  unfolding check_entries check_metadata
  check_zip limits object_path policy = do
    present ← call (sources.exists object_path)
    raise_if (not present) (upload_not_found object_path)
    check_entries limits object_path
    check_metadata object_path policy

  unfoldable pub confirm_zip_upload :
      (limits : ValidationLimits) (id : String) (checked_at now : DateTime)
      (user_id upload_id : String) (policy : PolicyType) (training_steps : ℤ)
      → Action W Job
  unfolding check_zip
  confirm_zip_upload limits id checked_at now user_id upload_id policy training_steps = do
    let object_path = upload_path user_id upload_id
    check_zip limits object_path policy
    on_database (create_job id checked_at now user_id policy zip_upload object_path training_steps)

  -- `if not result.ok: raise UploadValidationError(result.error)`
  unfoldable pub demand : ValidationResult → Action W (Unit {0})
  demand result = if result.ok then pure tt else raise (upload_validation result.error)

  -- `except FileNotFoundError` and `except InvalidInfoJsonError`
  unfoldable pub info_or_raise : Checked Json → Action W Json
  info_or_raise (ok info) = pure info
  info_or_raise (err (file_not_found message)) = raise (upload_validation (some missing_info))
  info_or_raise (err (invalid_info_json message)) =
      raise (upload_validation (some (error_text (invalid_info_json message))))
  info_or_raise (err e) = raise e

  unfoldable pub check_repo : String → PolicyType → Action W (Unit {0})
  unfolding demand info_or_raise parsed
  check_repo repo_id policy = do
    present ← call (sources.repo_exists repo_id)
    raise_if (not present) (hf_dataset_not_found repo_id)
    entry_names ← call (sources.list_repo_files repo_id)
    demand (check_lerobot_structure entry_names)
    bytes ← attempt (sources.get_repo_file_bytes repo_id info_json_path)
    info ← info_or_raise (parsed bytes)
    shape_result ← lift (check_policy_compatibility info policy)
    demand shape_result

  unfoldable pub submit_hf_dataset :
      (id : String) (checked_at now : DateTime) (user_id repo_id : String) (policy : PolicyType)
      (training_steps : ℤ)
      → Action W Job
  unfolding check_repo
  submit_hf_dataset id checked_at now user_id repo_id policy training_steps = do
    check_repo repo_id policy
    on_database (create_job id checked_at now user_id policy hf_hub repo_id training_steps)
