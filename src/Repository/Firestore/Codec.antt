-- ===== src/Repository/Firestore/Codec.antt =====
-- The translations between records and documents of backend/adapters/firestore/job_repository.py and
-- user_repository.py. Python keeps a field whose value has an unexpected type; here that raises.
use phyai_saas_train_vla.Prelude.{
  ◌≡◌, String, Bool, false, Option, none, some, [], ◌∷◌, ◌==◌, text_eq, ℤ, pos, ℕ, ok, err, format,
  if◌then◌else◌,
}
use phyai_saas_train_vla.Prelude.Fallible.{◌>>=◌}
use phyai_saas_train_vla.Common.Float.{Float}
use phyai_saas_train_vla.Common.Models.{
  DateTime, Date, JobStatus, queued, initializing, training, completed, failed, cancelled,
  status_value, PolicyType, act, smolvla, policy_value, SourceType, hf_hub, zip_upload,
  source_value, AuthProvider, by_email, huggingface, provider_value, User, Progress, Job,
}
use phyai_saas_train_vla.Common.Errors.{Error, Checked, key_error, value_error, other_error}
use phyai_saas_train_vla.Repository.Firestore.{
  Value, null, boolean, integer, real, text, timestamp, map_value, Document, end, field, field_get,
}

-- `doc[key]`
abbrev pub required : Document → String → Checked Value
required doc key = elim (field_get doc key) [ none ↦ err (key_error key) | some v ↦ ok v ]

-- `doc.get(key)`
abbrev pub optional : Document → String → Value
optional doc key = elim (field_get doc key) [ none ↦ null | some v ↦ v ]

abbrev pub ill_typed : Error
ill_typed = other_error "a field of another type"

abbrev pub as_text : Value → Checked String
as_text (text s) = ok s
as_text _ = err ill_typed

abbrev pub as_int : Value → Checked ℤ
as_int (integer i) = ok i
as_int _ = err ill_typed

abbrev pub as_float : Value → Checked Float
as_float (real x) = ok x
as_float _ = err ill_typed

abbrev pub as_time : Value → Checked DateTime
as_time (timestamp t) = ok t
as_time _ = err ill_typed

abbrev pub as_bool : Value → Checked Bool
as_bool (boolean b) = ok b
as_bool _ = err ill_typed

abbrev pub or_null {ℓ} : {A : Type ℓ} → (A → Value) → Option A → Value
or_null f none = null
or_null f (some a) = f a

abbrev pub opt_text : Value → Checked (Option String)
opt_text null = ok none
opt_text (text s) = ok (some s)
opt_text _ = err ill_typed

abbrev pub opt_time : Value → Checked (Option DateTime)
opt_time null = ok none
opt_time (timestamp t) = ok (some t)
opt_time _ = err ill_typed

-- `JobStatus(value)` and its like: the member with the value, or `ValueError`.
abbrev pub invalid : String → String → Error
invalid value enum = value_error (format ("'" ∷ value ∷ "' is not a valid " ∷ enum ∷ []))

unfoldable pub to_status : String → Checked JobStatus
to_status s =
    if s == "queued"
    then ok queued
    else if s == "initializing"
    then ok initializing
    else if s == "training"
    then ok training
    else if s == "completed"
    then ok completed
    else if s == "failed"
    then ok failed
    else if s == "cancelled"
    then ok cancelled
    else err (invalid s "JobStatus")

unfoldable pub to_policy : String → Checked PolicyType
to_policy s =
    if s == "act"
    then ok act
    else if s == "smolvla"
    then ok smolvla
    else err (invalid s "PolicyType")

unfoldable pub to_source_type : String → Checked SourceType
to_source_type s =
    if s == "hf_hub"
    then ok hf_hub
    else if s == "zip_upload"
    then ok zip_upload
    else err (invalid s "SourceType")

unfoldable pub to_provider : String → Checked AuthProvider
to_provider s =
    if s == "email"
    then ok by_email
    else if s == "huggingface"
    then ok huggingface
    else err (invalid s "AuthProvider")

abbrev pub progress_to_doc : Progress → Document
progress_to_doc p = field "step" (integer p.step) (
    field "total_steps" (integer p.total_steps)
      (field "loss" (real p.loss) (field "updated_at" (timestamp p.updated_at) end)))

unfoldable pub job_to_doc : Job → Document
job_to_doc job = field "user_id" (text job.user_id) (
    field "policy" (text (policy_value job.policy)) (
      field "source_type" (text (source_value job.source_type)) (
        field "source_ref" (text job.source_ref) (
          field "training_steps" (integer job.training_steps) (
            field "status" (text (status_value job.status)) (
              field "container_id" (or_null text job.container_id) (
                field "heartbeat_at" (or_null timestamp job.heartbeat_at) (
                  field "progress" (or_null (λ p. map_value (progress_to_doc p)) job.progress) (
                    field "cancel_requested" (boolean job.cancel_requested) (
                      field "checkpoint_gcs_path" (or_null text job.checkpoint_gcs_path) (
                        field "error_message" (or_null text job.error_message) (
                          field "created_at" (timestamp job.created_at)
                            (field "updated_at" (timestamp job.updated_at) end)))))))))))))

-- A missing, null or empty `progress` is none.
unfoldable pub doc_to_progress : Value → Checked (Option Progress)
doc_to_progress null = ok none
doc_to_progress (map_value end) = ok none
doc_to_progress (map_value doc) = do
  step ← required doc "step" >>= as_int
  total_steps ← required doc "total_steps" >>= as_int
  loss ← required doc "loss" >>= as_float
  updated_at ← required doc "updated_at" >>= as_time
  ok (
      some
        (record { step = step; total_steps = total_steps; loss = loss; updated_at = updated_at }))
doc_to_progress _ = err ill_typed

-- `doc.get("cancel_requested", False)`
abbrev pub flag : Option Value → Checked Bool
flag none = ok false
flag (some v) = as_bool v

unfoldable pub doc_to_job : String → Document → Checked Job
unfolding doc_to_progress to_status to_policy to_source_type
doc_to_job job_id doc = do
  progress ← doc_to_progress (optional doc "progress")
  user_id ← required doc "user_id" >>= as_text
  policy ← required doc "policy" >>= as_text >>= to_policy
  source_type ← required doc "source_type" >>= as_text >>= to_source_type
  source_ref ← required doc "source_ref" >>= as_text
  training_steps ← required doc "training_steps" >>= as_int
  status ← required doc "status" >>= as_text >>= to_status
  container_id ← opt_text (optional doc "container_id")
  heartbeat_at ← opt_time (optional doc "heartbeat_at")
  cancel_requested ← flag (field_get doc "cancel_requested")
  checkpoint_gcs_path ← opt_text (optional doc "checkpoint_gcs_path")
  error_message ← opt_text (optional doc "error_message")
  created_at ← required doc "created_at" >>= as_time
  updated_at ← required doc "updated_at" >>= as_time
  ok (record {
    id = job_id;
    user_id = user_id;
    policy = policy;
    source_type = source_type;
    source_ref = source_ref;
    training_steps = training_steps;
    status = status;
    container_id = container_id;
    heartbeat_at = heartbeat_at;
    progress = progress;
    cancel_requested = cancel_requested;
    checkpoint_gcs_path = checkpoint_gcs_path;
    error_message = error_message;
    created_at = created_at;
    updated_at = updated_at;
  })

-- `date.isoformat` and `date.fromisoformat` of Python's library.
pub record DateText : Type 0 where
  pub isoformat : Date → String
  pub fromisoformat : String → Checked Date

-- What is documented of them: a date is read from its own text, which is not empty.
pub record IsDateText (dates : DateText) : Type 0 where
  pub read_back : (day : Date) → dates.fromisoformat (dates.isoformat day) ≡ ok day
  pub not_empty : (day : Date) → (dates.isoformat day == "") ≡ false

-- `doc.get("daily_quota_used", 0)`; the number is never negative in the program.
unfoldable pub count_or_zero : Option Value → Checked ℕ
count_or_zero none = ok 0
count_or_zero (some (integer (pos n))) = ok n
count_or_zero (some _) = err ill_typed

module _ (dates : DateText) where
  unfoldable pub user_to_doc : User → Document
  user_to_doc user = field "auth_provider" (text (provider_value user.auth_provider)) (
      field "email" (or_null text user.email) (
        field "password_hash" (or_null text user.password_hash) (
          field "hf_user_id" (or_null text user.hf_user_id) (
            field "daily_quota_used" (integer (pos user.daily_quota_used)) (
              field "quota_reset_date"
                (or_null (λ day. text (dates.isoformat day)) user.quota_reset_date)
                (field "created_at" (timestamp user.created_at) end))))))

  -- `date.fromisoformat(value) if value else None`
  unfoldable pub to_date : Option String → Checked (Option Date)
  to_date none = ok none
  to_date (some s) = if s == "" then ok none else (do day ← dates.fromisoformat s; ok (some day))

  unfoldable pub doc_to_user : String → Document → Checked User
  unfolding to_date to_provider count_or_zero
  doc_to_user user_id doc = do
    provider ← required doc "auth_provider" >>= as_text >>= to_provider
    email ← opt_text (optional doc "email")
    password_hash ← opt_text (optional doc "password_hash")
    hf_user_id ← opt_text (optional doc "hf_user_id")
    daily_quota_used ← count_or_zero (field_get doc "daily_quota_used")
    quota_reset_date ← opt_text (optional doc "quota_reset_date") >>= to_date
    created_at ← required doc "created_at" >>= as_time
    ok (record {
      id = user_id;
      auth_provider = provider;
      email = email;
      password_hash = password_hash;
      hf_user_id = hf_user_id;
      daily_quota_used = daily_quota_used;
      quota_reset_date = quota_reset_date;
      created_at = created_at;
    })
