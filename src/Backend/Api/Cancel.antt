-- ===== src/Backend/Api/Cancel.antt =====
-- The endpoint that cancels a job, from the request to the response.
use mathlib.Core.Path.{subst}
use phyai_saas_train_vla.Prelude.{
  ◌≡◌, ◌≢◌, refl, ◌∙◌, ap, String, true, false, none, some, arith, eq_iff, ok, err, ◌==◌, text_eq,
  nat_eq, Bool-cases, Option-cases, inl, inr, eq_refl,
}
use phyai_saas_train_vla.Dict
use phyai_saas_train_vla.Dict.{get-put}
use phyai_saas_train_vla.Dict.Keyed.{IsKeyed, put-IsKeyed, get-IsKeyed}
use phyai_saas_train_vla.Common.Models.{DateTime, Job}
use phyai_saas_train_vla.Common.Errors.{
  Error, Checked, error_text, job_not_found, not_job_owner, cancel_not_allowed,
}
use phyai_saas_train_vla.Common.Quota.{is_active}
use phyai_saas_train_vla.Repository.Database.{Database}
use phyai_saas_train_vla.Repository.Jobs
use phyai_saas_train_vla.Repository.Jobs.{job_id}
use phyai_saas_train_vla.Backend.JobService
use phyai_saas_train_vla.Backend.JobService.Access.{
  granted, not_owner, over, request_cancel_missing,
}
use phyai_saas_train_vla.Backend.Api.{JobOut, from_view, cancel_job, job_out_for}
use phyai_saas_train_vla.Backend.Api.Errors.{Response, answer, failure, respond}
use phyai_saas_train_vla.Backend.Api.Found.{job_out_for-Shows}

-- What a request leaves: the response and the database.
abbrev pub served : {A : Type 0} → Checked A × Database → Response A × Database
served (r, db) = (respond r, db)

module _ (now : DateTime) (user_id id : String) (db : Database)
    (keyed : IsKeyed job_id db.jobs) where
  abbrev pub asked : Job → Job
  asked job = record job { cancel_requested = true; updated_at = now }

  -- The answers of the endpoint.
  pub data Answer : Type 0 where
    accepted :
        (job : Job) (out : JobOut)
        → Jobs.get db.jobs id ≡ some job
        → job.user_id ≡ user_id
        → is_active job ≡ true
        → served (cancel_job now user_id id db)
          ≡ (answer out, record db { jobs = Jobs.update db.jobs (asked job) })
        → out.id ≡ id
        → Answer
    no_such_job :
        Jobs.get db.jobs id ≡ none
        → served (cancel_job now user_id id db) ≡ (failure 404 (error_text (job_not_found id)), db)
        → Answer
    forbidden :
        (job : Job)
        → Jobs.get db.jobs id ≡ some job
        → job.user_id ≢ user_id
        → served (cancel_job now user_id id db) ≡ (failure 403 (error_text (not_job_owner id)), db)
        → Answer
    conflict :
        (job : Job)
        → Jobs.get db.jobs id ≡ some job
        → job.user_id ≡ user_id
        → is_active job ≡ false
        → served (cancel_job now user_id id db)
          ≡ (failure 409 (error_text (cancel_not_allowed job.status)), db)
        → Answer

  -- An error of the service is what the endpoint raises.
  refused :
      (e : Error)
      → JobService.request_cancel now user_id id db ≡ (err e, db)
      → served (cancel_job now user_id id db) ≡ (respond (err e), db)
  unfolding cancel_job
  refused e q = rw q refl

  ran :
      (job : Job) (out : JobOut) (db' : Database)
      → JobService.request_cancel now user_id id db ≡ (ok job, db')
      → job_out_for user_id job.id db' ≡ (ok out, db')
      → served (cancel_job now user_id id db) ≡ (answer out, db')
  unfolding cancel_job respond
  ran job out db' q shown = rw (q, shown) refl

  accepted_job :
      (job : Job)
      → Jobs.get db.jobs id ≡ some job
      → job.user_id ≡ user_id
      → is_active job ≡ true
      → Answer
  unfolding from_view Jobs.get Jobs.update
  accepted_job job found owner active =
      let id_eq = get-IsKeyed job_id db.jobs id job keyed found in
      let db' = record db { jobs = Dict.put db.jobs job.id (asked job) } in
      let (out, shown, shows) =
        job_out_for-Shows db' (asked job) (put-IsKeyed job_id db.jobs job.id (asked job) keyed refl)
          (simp (get-put, eq_refl)) in
      let shown_to_user = subst (λ u. job_out_for u job.id db' ≡ (ok out, db')) owner shown in
      accepted job out found owner active
        (ran (asked job) out db' (granted now user_id id db job found owner active) shown_to_user)
        (ap (λ (o : JobOut). o.id) shows.same ∙ ap (λ (j : Job). j.id) shows.of_job.same ∙ id_eq)

  -- Where every job is stored under its own id, a request to cancel is answered in one of four ways:
  -- with the job, which is then flagged, exactly where it is the user's and not over; with 404
  -- where there is no such job, with 403 where it is another user's, and with 409 and its status
  -- where it is over. No request ends in an internal error, and nothing but the flag and the time of
  -- change of the job is written.
  pub cancel_job_exact : Answer
  unfolding respond
  cancel_job_exact = elim (Option-cases (Jobs.get db.jobs id)) [
    | inl missing ↦
        no_such_job missing
          (refused (job_not_found id) (request_cancel_missing now user_id id db missing))
    | inr (job, found) ↦ elim (Bool-cases (job.user_id == user_id)) [
      | inr other ↦
          let differs = not_same job.user_id user_id other in
          forbidden job found differs
            (refused (not_job_owner id) (not_owner now user_id id db job found differs))
      | inl own ↦
          let owner = (eq_iff job.user_id user_id).0 own in
          elim (Bool-cases (is_active job)) [
            | inl active ↦ accepted_job job found owner active
            | inr idle ↦ conflict job found owner idle (
                refused (cancel_not_allowed job.status)
                  (over now user_id id db job found owner idle))
          ]
    ]
  ]
    where
      not_same : (s t : String) → (s == t) ≡ false → s ≢ t
      not_same s t n e = ground (arith, eq_iff s t)
