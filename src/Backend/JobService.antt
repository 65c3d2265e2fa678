-- ===== src/Backend/JobService.antt =====
-- backend/services/job_service.py: creating, listing and cancelling jobs, and download links.
pub mod Create
pub mod Access
pub mod Queue
use mathlib.Core.Option
use phyai_saas_train_vla.Prelude.{
  ℕ, ◌+◌, ◌*◌, String, Bool, true, false, not, ◌||◌, Option, none, some, List, [], ◌∷◌, map, ℤ,
  Result, ok, err, Exec, pure, raise, gets, lift, or_raise, raise_if, modify, ◌>>=◌, ◌>>◌, ◌==◌,
  text_eq, format, if◌then◌else◌,
}
use phyai_saas_train_vla.Common.Models.{
  JobStatus, queued, initializing, training, completed, failed, cancelled, status_eq, PolicyType,
  SourceType, DateTime, date, Job, is_present, text_or_empty,
}
use phyai_saas_train_vla.Common.Errors.{
  Error, Checked, user_not_found, job_not_found, not_job_owner, quota_exceeded,
  invalid_training_steps, download_not_available, value_error,
}
use phyai_saas_train_vla.Common.Limits.{validate_training_steps}
use phyai_saas_train_vla.Common.Quota.{can_create_job}
use phyai_saas_train_vla.Common.StateMachine
use phyai_saas_train_vla.Repository.Database.{Database}
use phyai_saas_train_vla.Repository.Jobs
use phyai_saas_train_vla.Repository.Users

abbrev pub download_url_expires_in_seconds : ℕ
download_url_expires_in_seconds = 7 * 24 * 60 * 60

abbrev pub display_status : JobStatus → String
display_status queued = "queued"
display_status initializing = "running"
display_status training = "running"
display_status completed = "completed"
display_status failed = "failed"
display_status cancelled = "cancelled"

pub record JobView : Type 0 where
  pub job : Job
  pub shown_status : String
  pub queue_position : Option ℕ

-- A method of the service, over the repositories.
abbrev pub Action : Type 0 → Type 0
Action A = Exec Database Error A

abbrev pub new_job : String → String → PolicyType → SourceType → String → ℤ → DateTime → Job
new_job id user_id policy source_type source_ref training_steps now = record {
  id = id;
  user_id = user_id;
  policy = policy;
  source_type = source_type;
  source_ref = source_ref;
  training_steps = training_steps;
  status = queued;
  container_id = none;
  heartbeat_at = none;
  progress = none;
  cancel_requested = false;
  checkpoint_gcs_path = none;
  error_message = none;
  created_at = now;
  updated_at = now;
}

-- `id` is what `uuid4` returns; the clock is read twice, at `checked_at` and at `now`.
unfoldable pub create_job :
    (id : String) (checked_at now : DateTime) (user_id : String) (policy : PolicyType)
    (source_type : SourceType) (source_ref : String) (training_steps : ℤ)
    → Action Job
create_job id checked_at now user_id policy source_type source_ref training_steps = do
  let steps_result = validate_training_steps training_steps
  raise_if (not steps_result.ok) (invalid_training_steps steps_result.error)
  found ← gets (λ db. Users.get db.users user_id)
  user ← or_raise found (user_not_found user_id)
  active_jobs ← gets (λ db. Jobs.list_for_user db.jobs user_id)
  let quota_result = can_create_job user active_jobs (date checked_at)
  raise_if (not quota_result.allowed) (quota_exceeded quota_result.reason)
  let job = new_job id user_id policy source_type source_ref training_steps now
  modify (λ db. record db { jobs = Jobs.create db.jobs job })
  pure job

unfoldable pub get_job : String → Action Job
get_job job_id = do
  found ← gets (λ db. Jobs.get db.jobs job_id)
  or_raise found (job_not_found job_id)

-- `xs.index(x)`, which raises `ValueError` where `x` is not in the list
unfoldable pub index : List String → String → Option ℕ
index [] x = none
index (y ∷ ys) x =
    let rest = Option.map (λ i. i + 1) (index ys x) in if y == x then some 0 else rest

queue_position : List String → Job → Checked (Option ℕ)
queue_position queued_ids_in_order job =
    if job.status == queued
    then elim (index queued_ids_in_order job.id) [
      | none ↦ err (value_error (format ("'" ∷ job.id ∷ "' is not in list" ∷ [])))
      | some i ↦ ok (some (i + 1))
    ]
    else ok none

view_all : List String → List Job → Checked (List JobView)
view_all queued_ids_in_order [] = ok []
view_all queued_ids_in_order (job ∷ jobs) = elim (queue_position queued_ids_in_order job) [
  | err e ↦ err e
  | ok position ↦ elim (view_all queued_ids_in_order jobs) [
    | err e ↦ err e
    | ok views ↦ ok (
        record { job = job; shown_status = display_status job.status; queue_position = position }
        ∷ views)
  ]
]

unfoldable pub list_jobs_for_user : String → Action (List JobView)
unfolding queue_position view_all
list_jobs_for_user user_id = do
  jobs ← gets (λ db. Jobs.list_for_user db.jobs user_id)
  waiting ← gets (λ db. Jobs.list_by_statuses db.jobs (queued ∷ []))
  lift (view_all (map Jobs.job_id waiting) jobs)

unfoldable pub request_cancel : DateTime → String → String → Action Job
unfolding get_job
request_cancel now user_id job_id = do
  job ← get_job job_id
  raise_if (not (job.user_id == user_id)) (not_job_owner job_id)
  updated ← lift (StateMachine.request_cancel job now)
  modify (λ db. record db { jobs = Jobs.update db.jobs updated })
  pure updated

-- `generate_download_url` is the storage's.
unfoldable pub get_download_url :
    (generate_download_url : String → ℕ → String) (user_id job_id : String) → Action String
unfolding get_job
get_download_url generate_download_url user_id job_id = do
  job ← get_job job_id
  raise_if (not (job.user_id == user_id)) (not_job_owner job_id)
  raise_if (not (job.status == completed) || not (is_present job.checkpoint_gcs_path))
      (download_not_available job_id)
  pure (
      generate_download_url (text_or_empty job.checkpoint_gcs_path) download_url_expires_in_seconds)
