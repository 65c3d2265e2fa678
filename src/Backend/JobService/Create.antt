-- ===== src/Backend/JobService/Create.antt =====
-- When a job is created, and what that changes.
use phyai_saas_train_vla.Prelude.{
  ◌<◌, ◌≡◌, ◌∙◌, sym, refl, ◌⊎◌, Result, String, Bool, true, false, Option, none, some, arith, ℤ,
  ok, err, count_if, count_if-filter, Bool-cases, Option-cases, inl, inr, ◌==◌, text_eq,
}
use phyai_saas_train_vla.Dict
use phyai_saas_train_vla.Dict.{values}
use phyai_saas_train_vla.Common.Models.{User, Job, PolicyType, SourceType, DateTime, Date, date}
use phyai_saas_train_vla.Common.Errors.{
  Error, invalid_training_steps, user_not_found, quota_exceeded,
}
use phyai_saas_train_vla.Common.Limits.{
  StepsInRange, validate_training_steps, validate_training_steps_iff,
}
use phyai_saas_train_vla.Common.Quota.{
  QuotaCheckResult, count_active, effective_daily_used, can_create_job, is_active,
}
use phyai_saas_train_vla.Common.Quota.Daily.{can_create_job_iff}
use phyai_saas_train_vla.Repository.Database.{Database}
use phyai_saas_train_vla.Repository.Jobs
use phyai_saas_train_vla.Repository.Users
use phyai_saas_train_vla.Repository.Invariant.{IsSound, active_of, put-new}
use phyai_saas_train_vla.Backend.JobService.{new_job, create_job}

-- The user may have one more job: the user exists, has no active job, and fewer than ten of the
-- user's jobs were started on the day.
pub record MayCreate (db : Database) (user_id : String) (day : Date) : Type 0 where
  pub user : User
  pub found : Users.get db.users user_id ≡ some user
  pub idle : count_active (Jobs.list_for_user db.jobs user_id) ≡ 0
  pub below_quota : effective_daily_used user day < 10

module _ (id : String) (checked_at now : DateTime) (user_id : String) (policy : PolicyType)
    (source_type : SourceType) (source_ref : String) (training_steps : ℤ) (db : Database) where
  abbrev made : Job
  made = new_job id user_id policy source_type source_ref training_steps now

  abbrev stored : Database
  stored = record db { jobs = Jobs.create db.jobs made }

  abbrev valid_steps : Bool
  valid_steps = (validate_training_steps training_steps).ok

  abbrev quota_result : User → QuotaCheckResult
  quota_result user = can_create_job user (Jobs.list_for_user db.jobs user_id) (date checked_at)

  abbrev result : Result Error Job × Database
  result = create_job id checked_at now user_id policy source_type source_ref training_steps db

  abbrev steps_error : Error
  steps_error = invalid_training_steps (validate_training_steps training_steps).error

  refused_steps : valid_steps ≡ false → result ≡ (err steps_error, db)
  unfolding create_job
  refused_steps h = ground arith

  refused_user :
      valid_steps ≡ true
      → Users.get db.users user_id ≡ none
      → result ≡ (err (user_not_found user_id), db)
  unfolding create_job
  refused_user h k = ground arith

  refused_quota :
      (user : User)
      → valid_steps ≡ true
      → Users.get db.users user_id ≡ some user
      → (quota_result user).allowed ≡ false
      → result ≡ (err (quota_exceeded (quota_result user).reason), db)
  unfolding create_job
  refused_quota user h k q = ground arith

  granted :
      (user : User)
      → valid_steps ≡ true
      → Users.get db.users user_id ≡ some user
      → (quota_result user).allowed ≡ true
      → result ≡ (ok made, stored)
  unfolding create_job
  granted user h k q = ground arith

  -- The four ways through the method.
  data Outcome : Type 0 where
    bad_steps : valid_steps ≡ false → result ≡ (err steps_error, db) → Outcome
    no_user :
        valid_steps ≡ true
        → Users.get db.users user_id ≡ none
        → result ≡ (err (user_not_found user_id), db)
        → Outcome
    over_quota :
        (user : User)
        → valid_steps ≡ true
        → Users.get db.users user_id ≡ some user
        → result ≡ (err (quota_exceeded (quota_result user).reason), db)
        → Outcome
    made_job :
        (user : User)
        → valid_steps ≡ true
        → Users.get db.users user_id ≡ some user
        → (quota_result user).allowed ≡ true
        → result ≡ (ok made, stored)
        → Outcome

  with_user : (user : User) → valid_steps ≡ true → Users.get db.users user_id ≡ some user → Outcome
  with_user user h k = elim (Bool-cases (quota_result user).allowed) [
    | inl q ↦ made_job user h k q (granted user h k q)
    | inr q ↦ over_quota user h k (refused_quota user h k q)
  ]

  outcome : Outcome
  outcome = elim (Bool-cases valid_steps) [
    | inl h ↦ elim (Option-cases (Users.get db.users user_id)) [
      | inl k ↦ no_user h k (refused_user h k)
      | inr (user, k) ↦ with_user user h k
    ]
    | inr h ↦ bad_steps h (refused_steps h)
  ]

  -- A request that is refused changes nothing; the reason is an invalid number of steps, an unknown
  -- user or the quota, in this order.
  pub create_job-refused :
      {e : Error}
      → result.0 ≡ err e
      → (result.1 ≡ db)
        × ((¬ StepsInRange training_steps × (e ≡ steps_error))
            ⊎ (Users.get db.users user_id ≡ none) × (e ≡ user_not_found user_id)
            ⊎ ((reason : Option String) × (e ≡ quota_exceeded reason)))
  create_job-refused {e} h = elim outcome [
    | bad_steps bad r ↦ (
      ground arith,
      inl (λ s. ground (arith, (validate_training_steps_iff training_steps).1 s), cc),
    )
    | no_user _ k r ↦ (ground arith, inr (inl (k, cc)))
    | over_quota user _ _ r ↦ (ground arith, inr (inr ((quota_result user).reason, cc)))
    | made_job _ _ _ _ r ↦ cc
  ]

  idle_owner :
      count_active (Jobs.list_for_user db.jobs user_id) ≡ 0
      → count_if (active_of user_id) (values db.jobs) ≡ 0
  unfolding count_active Jobs.list_for_user
  idle_owner h =
      sym (
        count_if-filter is_active (λ j. j.user_id == user_id) (active_of user_id) (values db.jobs)
          (λ j. ground arith))
      ∙ h

  -- Under an id that is not in use, whether the request is granted or refused, the stored jobs keep
  -- their invariant: no user gets a second active job.
  pub create_job-IsSound : Dict.get db.jobs id ≡ none → IsSound db.jobs → IsSound result.1.jobs
  create_job-IsSound fresh h = elim outcome [
    | bad_steps _ r ↦ rw r h
    | no_user _ _ r ↦ rw r h
    | over_quota _ _ _ r ↦ rw r h
    | made_job user _ _ allowed r ↦ rw r (
        unfold Jobs.create in
        put-new db.jobs made fresh refl
          (idle_owner
            ((can_create_job_iff user (Jobs.list_for_user db.jobs user_id) (date checked_at)).0
              allowed).0)
          h)
  ]
