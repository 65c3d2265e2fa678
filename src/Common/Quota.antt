-- ===== src/Common/Quota.antt =====
-- common/domain/quota.py: one job in progress for each user, and ten started jobs a day.
pub mod Daily
use phyai_saas_train_vla.Prelude.{
  ℕ, ◌+◌, String, Bool, true, false, not, Option, none, some, List, ltb, eqb, count_if,
  if◌then◌else◌,
}
use phyai_saas_train_vla.Common.Models.{active_statuses, is_in, Date, Job, User}

abbrev pub max_concurrent_jobs : ℕ
max_concurrent_jobs = 1

abbrev pub max_daily_jobs : ℕ
max_daily_jobs = 10

abbrev pub is_active : Job → Bool
is_active job = is_in active_statuses job.status

unfoldable pub count_active : List Job → ℕ
count_active jobs = count_if is_active jobs

unfoldable pub has_free_concurrent_slot : List Job → ℕ → Bool
unfolding count_active
has_free_concurrent_slot jobs max_concurrent = ltb (count_active jobs) max_concurrent

-- `user.quota_reset_date == today`
abbrev is_today : Option Date → Date → Bool
is_today none today = false
is_today (some d) today = eqb d today

unfoldable pub effective_daily_used : User → Date → ℕ
effective_daily_used user today =
    if not (is_today user.quota_reset_date today) then 0 else user.daily_quota_used

unfoldable pub has_daily_quota_remaining : User → Date → ℕ → Bool
unfolding effective_daily_used
has_daily_quota_remaining user today max_daily = ltb (effective_daily_used user today) max_daily

pub record QuotaCheckResult : Type 0 where
  pub allowed : Bool
  pub reason : Option String

unfoldable pub can_create_job : User → List Job → Date → QuotaCheckResult
unfolding has_free_concurrent_slot has_daily_quota_remaining
can_create_job user active_jobs today =
    if not (has_free_concurrent_slot active_jobs max_concurrent_jobs)
    then record { allowed = false; reason = some "You already have a job queued or in progress." }
    else if not (has_daily_quota_remaining user today max_daily_jobs)
    then record { allowed = false; reason = some "Daily job quota exceeded." }
    else record { allowed = true; reason = none }

unfoldable pub record_job_started : User → Date → User
unfolding effective_daily_used
record_job_started user today =
    let used = effective_daily_used user today in
    record user { daily_quota_used = used + 1; quota_reset_date = some today }
