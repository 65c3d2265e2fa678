-- ===== src/Repository/Firestore/RoundTrip.antt =====
-- What is written to Firestore reads back as it was.
use phyai_saas_train_vla.Prelude.{◌≡◌, refl, String, Option, none, some, ok}
use phyai_saas_train_vla.Prelude.Fallible.{◌>>=◌}
use phyai_saas_train_vla.Common.Models.{
  DateTime, Date, JobStatus, queued, initializing, training, completed, failed, cancelled,
  status_value, PolicyType, act, smolvla, policy_value, SourceType, hf_hub, zip_upload,
  source_value, AuthProvider, by_email, huggingface, provider_value, User, Progress, Job,
}
use phyai_saas_train_vla.Repository.Firestore.{text, timestamp, map_value}
use phyai_saas_train_vla.Repository.Firestore.Codec.{
  or_null, opt_text, opt_time, to_status, to_policy, to_source_type, to_provider, progress_to_doc,
  doc_to_progress, job_to_doc, doc_to_job, DateText, IsDateText, to_date, user_to_doc, doc_to_user,
}

pub to_status-value : (status : JobStatus) → to_status (status_value status) ≡ ok status
unfolding to_status
to_status-value queued = refl
to_status-value initializing = refl
to_status-value training = refl
to_status-value completed = refl
to_status-value failed = refl
to_status-value cancelled = refl

to_policy-value : (policy : PolicyType) → to_policy (policy_value policy) ≡ ok policy
unfolding to_policy
to_policy-value act = refl
to_policy-value smolvla = refl

to_source_type-value : (s : SourceType) → to_source_type (source_value s) ≡ ok s
unfolding to_source_type
to_source_type-value hf_hub = refl
to_source_type-value zip_upload = refl

to_provider-value : (p : AuthProvider) → to_provider (provider_value p) ≡ ok p
unfolding to_provider
to_provider-value by_email = refl
to_provider-value huggingface = refl

opt_text-or_null : (o : Option String) → opt_text (or_null text o) ≡ ok o
opt_text-or_null none = refl
opt_text-or_null (some s) = refl

opt_time-or_null : (o : Option DateTime) → opt_time (or_null timestamp o) ≡ ok o
opt_time-or_null none = refl
opt_time-or_null (some t) = refl

doc_to_progress-or_null :
    (o : Option Progress) → doc_to_progress (or_null (λ p. map_value (progress_to_doc p)) o) ≡ ok o
unfolding doc_to_progress
doc_to_progress-or_null none = refl
doc_to_progress-or_null (some p) = refl

-- A job that is written as a document and read back under its id is the same job.
pub doc_to_job-job_to_doc : (job : Job) → doc_to_job job.id (job_to_doc job) ≡ ok job
unfolding doc_to_job job_to_doc
doc_to_job-job_to_doc job =
    rw
      (
        doc_to_progress-or_null job.progress,
        to_policy-value job.policy,
        to_source_type-value job.source_type,
        to_status-value job.status,
        opt_text-or_null job.container_id,
        opt_time-or_null job.heartbeat_at,
        opt_text-or_null job.checkpoint_gcs_path,
        opt_text-or_null job.error_message,
      )
      refl

module _ (dates : DateText) (documented : IsDateText dates) where
  date-or_null :
      (o : Option Date)
      → (opt_text (or_null (λ day. text (dates.isoformat day)) o) >>= to_date dates) ≡ ok o
  unfolding to_date
  date-or_null none = refl
  date-or_null (some day) = rw (documented.not_empty day, documented.read_back day) refl

  -- A user that is written as a document and read back under the own id is the same user, if a date
  -- is read from its own text.
  pub doc_to_user-user_to_doc :
      (user : User) → doc_to_user dates user.id (user_to_doc dates user) ≡ ok user
  unfolding doc_to_user user_to_doc
  doc_to_user-user_to_doc user =
      rw
        (
          to_provider-value user.auth_provider,
          opt_text-or_null user.email,
          opt_text-or_null user.password_hash,
          opt_text-or_null user.hf_user_id,
          date-or_null user.quota_reset_date,
        )
        refl
