-- ===== src/Backend/Api.antt =====
-- The endpoints of backend/api, and the exception table of backend/main.py. The user of a request
-- is what `get_current_user_id` returned for it; FastAPI calls the endpoint only if nothing raised.
pub mod Errors
pub mod Found
pub mod Cancel
pub mod Session
use phyai_saas_train_vla.Prelude.{
  ℕ, String, Bool, true, false, ◌&&◌, not, Option, none, some, List, [], ◌∷◌, map, Result, ok, err,
  Exec, pure, raise, lift, or_raise, gets, ◌>>=◌, ◌>>◌, ℤ, pos, ltb_ℤ, ◌==◌, text_eq, if◌then◌else◌,
}
use phyai_saas_train_vla.Dict.{Dict}
use phyai_saas_train_vla.Common.Float.{Float}
use phyai_saas_train_vla.Common.Limits.{max_training_steps}
use phyai_saas_train_vla.Common.Models.{DateTime, PolicyType, SourceType, Progress, Job}
use phyai_saas_train_vla.Common.Errors.{Error, Checked, stop_iteration}
use phyai_saas_train_vla.Common.Validation.{ValidationLimits}
use phyai_saas_train_vla.Repository.Database.{Database}
use phyai_saas_train_vla.Backend.JobService
use phyai_saas_train_vla.Backend.JobService.{JobView, list_jobs_for_user}
use phyai_saas_train_vla.Backend.TimeoutService.{check_and_fail_timed_out_jobs}
use phyai_saas_train_vla.Backend.UploadService
use phyai_saas_train_vla.Backend.UploadService.{Sources, Site, on_database}
use phyai_saas_train_vla.Backend.AuthService
use phyai_saas_train_vla.Backend.AuthService.{Bcrypt, CaptchaResult, HfOauthUser}
use phyai_saas_train_vla.Backend.Security.{Jwt, create_access_token, verify_scheduler_secret}

abbrev pub Action : Type 0 → Type 0
Action A = Exec Database Error A

pub record ProgressOut : Type 0 where
  pub step : ℤ
  pub total_steps : ℤ
  pub loss : Float

pub record JobOut : Type 0 where
  pub id : String
  pub policy : PolicyType
  pub source_type : SourceType
  pub training_steps : ℤ
  pub status : String
  pub queue_position : Option ℕ
  pub progress : Option ProgressOut
  pub error_message : Option String
  pub created_at : DateTime

abbrev pub progress_out : Option Progress → Option ProgressOut
progress_out none = none
progress_out (some p) = some (record { step = p.step; total_steps = p.total_steps; loss = p.loss })

unfoldable pub from_view : JobView → JobOut
from_view view = record {
  id = view.job.id;
  policy = view.job.policy;
  source_type = view.job.source_type;
  training_steps = view.job.training_steps;
  status = view.shown_status;
  queue_position = view.queue_position;
  progress = progress_out view.job.progress;
  error_message = view.job.error_message;
  created_at = view.job.created_at;
}

unfoldable pub list_my_jobs : String → Action (List JobOut)
list_my_jobs user_id = do views ← list_jobs_for_user user_id; pure (map from_view views)

-- `next(v for v in views if v.job.id == job_id)`
abbrev pub next_view : String → List JobView → Option JobView
next_view job_id [] = none
next_view job_id (view ∷ views) =
    if view.job.id == job_id then some view else next_view job_id views

unfoldable pub job_out_for : String → String → Action JobOut
job_out_for user_id job_id = do
  views ← list_jobs_for_user user_id
  view ← or_raise (next_view job_id views) stop_iteration
  pure (from_view view)

unfoldable pub cancel_job : DateTime → String → String → Action JobOut
cancel_job now user_id job_id = do
  job ← JobService.request_cancel now user_id job_id
  job_out_for user_id job.id

unfoldable pub get_download_url :
    (generate_download_url : String → ℕ → String) (user_id job_id : String) → Action String
get_download_url generate_download_url user_id job_id =
    JobService.get_download_url generate_download_url user_id job_id

-- `training_steps: int = Field(gt=0, le=MAX_TRAINING_STEPS)`: other bodies do not reach the endpoint.
abbrev pub is_body_valid : ℤ → Bool
is_body_valid training_steps =
    ltb_ℤ (pos 0) training_steps && not (ltb_ℤ (pos max_training_steps) training_steps)

module _ {W S B : Type 0} (sources : Sources W S B) where
  unfoldable pub create_zip_upload_target : String → String → String × String
  create_zip_upload_target fresh_id user_id =
      UploadService.create_upload_target sources fresh_id user_id none

  unfoldable pub confirm_zip_upload :
      (limits : ValidationLimits) (id : String) (checked_at now : DateTime)
      (user_id upload_id : String) (policy : PolicyType) (training_steps : ℤ)
      → UploadService.Action W JobOut
  confirm_zip_upload limits id checked_at now user_id upload_id policy training_steps = do
    job ←
        UploadService.confirm_zip_upload sources limits id checked_at now user_id upload_id policy
          training_steps
    on_database (job_out_for user_id job.id)

  unfoldable pub submit_hf_dataset :
      (id : String) (checked_at now : DateTime) (user_id repo_id : String) (policy : PolicyType)
      (training_steps : ℤ)
      → UploadService.Action W JobOut
  submit_hf_dataset id checked_at now user_id repo_id policy training_steps = do
    job ←
        UploadService.submit_hf_dataset sources id checked_at now user_id repo_id policy
          training_steps
    on_database (job_out_for user_id job.id)

-- The timeout service sees the jobs alone.
abbrev on_jobs : {A : Type 0} → Exec (Dict Job) Error A → Action A
on_jobs m db = let (r, jobs) = m db.jobs in (r, record db { jobs = jobs })

-- `verify_scheduler_secret` is a dependency of this endpoint.
unfoldable pub check_timeouts :
    String → Option String → DateTime → Exec Database Error (List String)
check_timeouts shared_secret secret now = do
  lift (verify_scheduler_secret shared_secret secret)
  failed_jobs ← on_jobs (check_and_fail_timed_out_jobs now)
  pure (map (λ (job : Job). job.id) failed_jobs)

module _ (jwt : Jwt) (secret : String) where
  -- `now` is the time at which the token is made.
  unfoldable pub token_for : DateTime → String → String
  token_for now user_id = create_access_token jwt now user_id secret

  unfoldable pub register :
      (bcrypt : Bcrypt) (id salt : String) (created_at now : DateTime) (email password : String)
      (captcha : Checked CaptchaResult)
      → Action String
  unfolding token_for
  register bcrypt id salt created_at now email password captcha = do
    user ← AuthService.register_with_email bcrypt id salt created_at email password captcha
    pure (token_for now user.id)

  unfoldable pub login :
      (bcrypt : Bcrypt) (now : DateTime) (email password : String) → Action String
  unfolding token_for
  login bcrypt now email password = do
    user ← AuthService.login_with_email bcrypt email password
    pure (token_for now user.id)

  unfoldable pub hf_oauth_callback :
      (id : String) (created_at now : DateTime) (hf_user : Checked HfOauthUser) → Action String
  unfolding token_for
  hf_oauth_callback id created_at now hf_user = do
    user ← AuthService.login_or_register_with_hf id created_at hf_user
    pure (token_for now user.id)

unfoldable pub change_password :
    (bcrypt : Bcrypt) (salt user_id old_password new_password : String) → Action (Unit {0})
change_password bcrypt salt user_id old_password new_password = do
  AuthService.change_password bcrypt salt user_id old_password new_password
  pure tt
