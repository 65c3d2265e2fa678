-- ===== src/Common/Quota/Daily.antt =====
-- The daily counter over a sequence of starts.
use phyai_saas_train_vla.Prelude.{
  ℕ, zero, suc, ◌+◌, ◌<◌, ◌≡◌, ◌≢◌, ◌↔◌, true, List, [], ◌∷◌, arith, if◌then◌else◌, eqb,
}
use phyai_saas_train_vla.Common.Models.{Date, Job, User}
use phyai_saas_train_vla.Common.Quota.{
  count_active, effective_daily_used, can_create_job, record_job_started,
}

-- A user may create a job exactly when none of the listed jobs is active and fewer than ten jobs
-- were started today.
pub can_create_job_iff :
    (user : User) (jobs : List Job) (today : Date)
    → ((can_create_job user jobs today).allowed ≡ true)
      ↔ ((count_active jobs ≡ 0) × (effective_daily_used user today < 10))
unfolding can_create_job
can_create_job_iff user jobs today = ground arith

-- The counter on a day after a job was started on another one or on the same.
pub used-started :
    (user : User) (day today : Date)
    → effective_daily_used (record_job_started user day) today
      ≡ (if eqb day today then effective_daily_used user today + 1 else 0)
unfolding record_job_started effective_daily_used
used-started user day today = ground arith

-- The counter after jobs were started one after the other, on the days given.
abbrev pub start_all : User → List Date → User
start_all user [] = user
start_all user (day ∷ days) = start_all (record_job_started user day) days

abbrev pub repeat_day : ℕ → Date → List Date
repeat_day zero day = []
repeat_day (suc n) day = day ∷ repeat_day n day

can_create_job_after :
    (user : User) (jobs : List Job) (today : Date)
    → count_active jobs ≡ 0
    → ((can_create_job user jobs today).allowed ≡ true) ↔ (effective_daily_used user today < 10)
can_create_job_after user jobs today idle =
    let fits = can_create_job_iff user jobs today in (λ h. (fits.0 h).1, λ h. fits.1 (idle, h))

used-start_all :
    (n : ℕ) (user : User) (day : Date)
    → effective_daily_used (start_all user (repeat_day n day)) day
      ≡ n + effective_daily_used user day
used-start_all zero user day = omega arith
used-start_all (suc n) user day =
    ground (arith, used-start_all n (record_job_started user day) day, used-started user day day)

used-start_other :
    (n : ℕ) (user : User) (day other : Date)
    → day ≢ other
    → effective_daily_used (start_all (record_job_started user day) (repeat_day n day)) other ≡ 0
used-start_other zero user day other ne = ground (arith, used-started user day other)
used-start_other (suc n) user day other ne =
    used-start_other n (record_job_started user day) day other ne

-- After n starts on one day, for a user with no active job, one more is allowed exactly while the
-- jobs started that day are fewer than ten; on any other day after n + 1 starts, it is allowed again.
pub starts_exhaust_quota :
    (n : ℕ) (user : User) (jobs : List Job) (day other : Date)
    → count_active jobs ≡ 0
    → day ≢ other
    → (((can_create_job (start_all user (repeat_day n day)) jobs day).allowed ≡ true)
        ↔ (n + effective_daily_used user day < 10))
      × ((can_create_job (start_all user (repeat_day (suc n) day)) jobs other).allowed ≡ true)
starts_exhaust_quota n user jobs day other idle ne = (
  rw (used-start_all n user day) at
      (can_create_job_after (start_all user (repeat_day n day)) jobs day idle),
  (can_create_job_iff (start_all user (repeat_day (suc n) day)) jobs other).1
      (idle, omega (arith, used-start_other n user day other ne)),
)
