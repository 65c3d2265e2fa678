-- ===== src/Backend/JobService/Access.antt =====
-- Who may cancel and download, and what a request to cancel changes.
use phyai_saas_train_vla.Prelude.{
  ℕ, ◌≡◌, ◌≢◌, ◌↔◌, refl, String, true, false, none, some, arith, eq_iff, ok, err, ◌==◌, text_eq,
  Bool-cases, Option-cases, inl, inr, ◌⊎◌, ◌∙◌, ap, Result,
}
use phyai_saas_train_vla.Dict.Keyed.{get-IsKeyed}
use phyai_saas_train_vla.Common.Models.{completed, status_eq, status_eq_iff, DateTime, Job}
use phyai_saas_train_vla.Common.Errors.{
  Error, job_not_found, not_job_owner, cancel_not_allowed, download_not_available,
}
use phyai_saas_train_vla.Common.Quota.{is_active}
use phyai_saas_train_vla.Common.StateMachine
use phyai_saas_train_vla.Repository.Database.{Database}
use phyai_saas_train_vla.Repository.Jobs
use phyai_saas_train_vla.Repository.Invariant.{IsSound, Follows, put-Follows}
use phyai_saas_train_vla.Backend.JobService.{request_cancel, get_download_url}

module _ (now : DateTime) (user_id job_id : String) (db : Database) where
  module _ (job : Job) (found : Jobs.get db.jobs job_id ≡ some job) where
    abbrev flagged : Job
    flagged = record job { cancel_requested = true; updated_at = now }

    pub granted :
        job.user_id ≡ user_id
        → is_active job ≡ true
        → request_cancel now user_id job_id db
          ≡ (ok flagged, record db { jobs = Jobs.update db.jobs flagged })
    unfolding request_cancel StateMachine.request_cancel
    granted o a = ground (arith, found, eq_iff job.user_id user_id)

    pub not_owner :
        job.user_id ≢ user_id
        → request_cancel now user_id job_id db ≡ (err (not_job_owner job_id), db)
    unfolding request_cancel
    not_owner o = ground (arith, found, eq_iff job.user_id user_id)

    pub over :
        job.user_id ≡ user_id
        → is_active job ≡ false
        → request_cancel now user_id job_id db ≡ (err (cancel_not_allowed job.status), db)
    unfolding request_cancel StateMachine.request_cancel
    over o a = ground (arith, found, eq_iff job.user_id user_id)

    -- For a stored job a request to cancel succeeds exactly where it comes from the job's owner and
    -- the job is queued, initializing or training; it then sets the job's flag and its time of
    -- change, and nothing else. Another user is refused exactly as no owner, and the owner of a job
    -- that is over with its status, and then nothing changes.
    pub request_cancel_iff :
        ((request_cancel now user_id job_id db
            ≡ (ok flagged, record db { jobs = Jobs.update db.jobs flagged }))
          ↔ ((job.user_id ≡ user_id) × (is_active job ≡ true)))
        × ((request_cancel now user_id job_id db ≡ (err (not_job_owner job_id), db))
            ↔ (job.user_id ≢ user_id))
        × ((request_cancel now user_id job_id db ≡ (err (cancel_not_allowed job.status), db))
            ↔ ((job.user_id ≡ user_id) × (is_active job ≡ false)))
    unfolding request_cancel StateMachine.request_cancel
    request_cancel_iff = (
      (λ h. ground (arith, found, eq_iff job.user_id user_id), λ c. granted c.0 c.1),
      (λ h e. ground (arith, found, eq_iff job.user_id user_id), not_owner),
      (λ h. ground (arith, found, eq_iff job.user_id user_id), λ c. over c.0 c.1),
    )

  pub request_cancel_missing :
      Jobs.get db.jobs job_id ≡ none
      → request_cancel now user_id job_id db ≡ (err (job_not_found job_id), db)
  unfolding request_cancel
  request_cancel_missing missing = ground (arith, missing)

  -- The owner's job, cancellable or not, and the others' are written as themselves.
  asked-Follows :
      (job : Job) → Follows job (record job { cancel_requested = true; updated_at = now })
  asked-Follows job = record { same_id = refl; same_user = refl; active = λ h. h; running = λ h. h }

  stored-asked :
      (job : Job)
      → Jobs.get db.jobs job_id ≡ some job
      → IsSound db.jobs
      → IsSound (Jobs.update db.jobs (record job { cancel_requested = true; updated_at = now }))
  unfolding Jobs.get Jobs.update
  stored-asked job found h =
      put-Follows db.jobs job (record job { cancel_requested = true; updated_at = now })
        (simp (get-IsKeyed Jobs.job_id db.jobs job_id job h.keyed found) found) (asked-Follows job)
        h

  request_cancel-found :
      (job : Job)
      → Jobs.get db.jobs job_id ≡ some job
      → IsSound db.jobs
      → IsSound (request_cancel now user_id job_id db).1.jobs
  request_cancel-found job found h = elim (Bool-cases (job.user_id == user_id)) [
    | inl o ↦ elim (Bool-cases (is_active job)) [
      | inl a ↦
          rw (granted job found ((eq_iff job.user_id user_id).0 o) a) (stored-asked job found h)
      | inr a ↦ rw (over job found ((eq_iff job.user_id user_id).0 o) a) h
    ]
    | inr o ↦ rw (not_owner job found (λ e. ground (arith, eq_iff job.user_id user_id))) h
  ]

  -- A request to cancel keeps the invariant of the stored jobs, whatever becomes of it.
  pub request_cancel-IsSound :
      IsSound db.jobs → IsSound (request_cancel now user_id job_id db).1.jobs
  request_cancel-IsSound h = elim (Option-cases (Jobs.get db.jobs job_id)) [
    | inl missing ↦ rw (request_cancel_missing missing) h
    | inr (job, found) ↦ request_cancel-found job found h
  ]

module _ (generate_download_url : String → ℕ → String) (user_id job_id : String)
    (db : Database) where
  -- The ways out of a request for a link, with the job that is stored and the answer.
  pub data Download (result : Result Error String × Database) : Type 0 where
    missing :
        Jobs.get db.jobs job_id ≡ none → result ≡ (err (job_not_found job_id), db) → Download result
    of_another :
        (job : Job)
        → Jobs.get db.jobs job_id ≡ some job
        → job.user_id ≢ user_id
        → result ≡ (err (not_job_owner job_id), db)
        → Download result
    not_available :
        (job : Job)
        → Jobs.get db.jobs job_id ≡ some job
        → job.user_id ≡ user_id
        → (job.status ≢ completed)
          ⊎ (job.checkpoint_gcs_path ≡ none)
          ⊎ (job.checkpoint_gcs_path ≡ some "")
        → result ≡ (err (download_not_available job_id), db)
        → Download result
    linked :
        (job : Job) (path : String)
        → Jobs.get db.jobs job_id ≡ some job
        → job.user_id ≡ user_id
        → job.status ≡ completed
        → job.checkpoint_gcs_path ≡ some path
        → path ≢ ""
        → result ≡ (ok (generate_download_url path 604800), db)
        → Download result

  owned-Download :
      (job : Job)
      → Jobs.get db.jobs job_id ≡ some job
      → job.user_id ≡ user_id
      → Download (get_download_url generate_download_url user_id job_id db)
  unfolding get_download_url
  owned-Download job found o = elim (Bool-cases (job.status == completed)) [
    | inr other ↦
        not_available job found o (inl (λ e. ground (arith, status_eq_iff job.status completed)))
          (ground (arith, found, eq_iff job.user_id user_id))
    | inl over ↦ elim (Option-cases job.checkpoint_gcs_path) [
      | inl none_there ↦
          not_available job found o (inr (inl none_there))
            (ground (arith, found, none_there, eq_iff job.user_id user_id))
      | inr (path, there) ↦ elim (Bool-cases (path == "")) [
        | inl empty ↦
            not_available job found o (inr (inr (there ∙ ap some ((eq_iff path "").0 empty))))
              (ground (arith, found, there, eq_iff job.user_id user_id))
        | inr named ↦
            linked job path found o ((status_eq_iff job.status completed).0 over) there
              (λ e. ground (arith, eq_iff path ""))
              (ground (arith, found, there, eq_iff job.user_id user_id))
      ]
    ]
  ]

  -- A request for a download link has four ways out, and none changes the database. There is no such
  -- job; the job is another user's; the job is not completed, or has no checkpoint or an empty path
  -- for it: these raise, each its own error. Only the owner of a completed job that has a checkpoint
  -- gets a link, for the path of this checkpoint and for seven days.
  pub get_download_url_exact : Download (get_download_url generate_download_url user_id job_id db)
  unfolding get_download_url
  get_download_url_exact = elim (Option-cases (Jobs.get db.jobs job_id)) [
    | inl none_there ↦ missing none_there (ground (arith, none_there))
    | inr (job, found) ↦ elim (Bool-cases (job.user_id == user_id)) [
      | inl o ↦ owned-Download job found ((eq_iff job.user_id user_id).0 o)
      | inr other ↦
          of_another job found (λ e. ground (arith, eq_iff job.user_id user_id))
            (ground (arith, found))
    ]
  ]
