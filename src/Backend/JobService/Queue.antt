-- ===== src/Backend/JobService/Queue.antt =====
-- The "My Jobs" page: listing never fails, and shows each waiting job its place in the queue.
use phyai_saas_train_vla.Prelude.{
  ℕ, ◌+◌, ◌≡◌, ◌≢◌, refl, ◌∙◌, ap, String, true, false, Option, none, some, List, [], ◌∷◌, map,
  arith, eq_iff, ok, All, All-filter, Forall₂, get_elem?, Bool-cases, inl, inr, ◌==◌, text_eq,
}
use native.Mathlib.Numerals.{add-one}
use phyai_saas_train_vla.Dict.{Dict, values}
use phyai_saas_train_vla.Dict.Keyed.{IsKeyed, Stored, values-Stored}
use phyai_saas_train_vla.Common.Models.{queued, status_eq, status_eq_iff, Job}
use phyai_saas_train_vla.Repository.Database.{Database}
use phyai_saas_train_vla.Repository.Jobs.{
  job_id, list_for_user, list_by_statuses, list_by_statuses-Listing,
}
use phyai_saas_train_vla.Repository.Sweep.{mentions, mentions-list_by_statuses}
use phyai_saas_train_vla.Backend.JobService.{
  JobView, display_status, index, queue_position, view_all, list_jobs_for_user,
}

abbrev pub waiting : Dict Job → List Job
waiting jobs = list_by_statuses jobs (queued ∷ [])

-- The place of a job in a listing, where the listing has it.
Placed : List Job → Job → Type 0
Placed listed job =
    (n : ℕ) × (index (map job_id listed) job.id ≡ some n) × (get_elem? listed n ≡ some job)

module _ (jobs : Dict Job) where
  same_job : (a b : Job) → Stored job_id jobs a → Stored job_id jobs b → a.id ≡ b.id → a ≡ b
  same_job a b s t e = ground arith

  index_listed :
      (listed : List Job) (job : Job)
      → All (Stored job_id jobs) listed
      → Stored job_id jobs job
      → mentions job.id listed ≡ true
      → Placed listed job
  unfolding Placed index
  index_listed [] job s t m = cc
  index_listed (x ∷ xs) job s t m = elim (Bool-cases (x.id == job.id)) [
    | inl e ↦ (0, ground arith, ap some (same_job x job s.0 t ((eq_iff x.id job.id).0 e)))
    | inr e ↦
        let (n, at, found) = index_listed xs job s.1 t (ground arith) in
        (n + 1, ground (arith, at), rw add-one found)
  ]

  -- A view shows its job, the status in the words for the user, and, exactly for a queued job, its
  -- place, counted from 1, among all queued jobs, the oldest first.
  pub record ViewOf (view : JobView) (job : Job) : Type 0 where
    pub same : view.job ≡ job
    pub status : view.shown_status ≡ display_status job.status
    pub placed :
        job.status ≡ queued
        → (n : ℕ) × (view.queue_position ≡ some (n + 1)) × (get_elem? (waiting jobs) n ≡ some job)
    pub unplaced : job.status ≢ queued → view.queue_position ≡ none

  module _ (keyed : IsKeyed job_id jobs) where
    abbrev ids : List String
    ids = map job_id (waiting jobs)

    place : (job : Job) → Stored job_id jobs job → job.status ≡ queued → Placed (waiting jobs) job
    place job s q =
        index_listed (waiting jobs) job (list_by_statuses-Listing jobs (queued ∷ []) keyed).stored s
          (mentions-list_by_statuses jobs (queued ∷ []) job.id keyed ∙ rw (s, q))

    -- The view that the loop builds for a job, with the place that it finds.
    Position : Job → Type 0
    Position job =
        (o : Option ℕ) × (queue_position ids job ≡ ok o)
        × ViewOf
            (record { job = job; shown_status = display_status job.status; queue_position = o }) job

    not_queued : (job : Job) → (job.status == queued) ≡ false → job.status ≢ queued
    not_queued job q h = ground arith

    position : (job : Job) → Stored job_id jobs job → Position job
    unfolding Position queue_position Placed
    position job s = elim (Bool-cases (job.status == queued)) [
      | inl q ↦
          let is_queued = (status_eq_iff job.status queued).0 q in
          let (n, at, found) = place job s is_queued in
          (
            some (n + 1),
            ground (arith, at),
            record {
              same = refl;
              status = refl;
              placed = λ _. (n, refl, found);
              unplaced = λ h. absurd (h is_queued);
            },
          )
      | inr q ↦ (
        none,
        rw q,
        record {
          same = refl;
          status = refl;
          placed = λ h. absurd (not_queued job q h);
          unplaced = λ _. refl;
        },
      )
    ]

    -- The loop builds a view for every job.
    views :
        (listed : List Job)
        → All (Stored job_id jobs) listed
        → (vs : List JobView) × (view_all ids listed ≡ ok vs) × Forall₂ ViewOf vs listed
    unfolding view_all Position
    views [] s = ([], refl, tt)
    views (job ∷ rest) s = built job rest (position job s.0) (views rest s.1)
      where
        built :
            (job : Job) (rest : List Job)
            → Position job
            → (vs : List JobView) × (view_all ids rest ≡ ok vs) × Forall₂ ViewOf vs rest
            → (vs : List JobView) × (view_all ids (job ∷ rest) ≡ ok vs)
              × Forall₂ ViewOf vs (job ∷ rest)
        built job rest (o, at, view) (vs, done, all) = (
          record { job = job; shown_status = display_status job.status; queue_position = o } ∷ vs,
          ground (arith, at, done),
          (view, all),
        )

pub owned-Stored :
    (jobs : Dict Job) (user_id : String)
    → IsKeyed job_id jobs
    → All (Stored job_id jobs) (list_for_user jobs user_id)
unfolding list_for_user
owned-Stored jobs user_id k =
    All-filter (Stored job_id jobs) (λ j. j.user_id == user_id) (values jobs)
      (values-Stored job_id jobs k)

-- Where every job is stored under its own id, listing a user's jobs never raises and changes
-- nothing: there is one view for each job of the user, with the job's place in the queue exactly
-- where the job is queued.
pub list_jobs_for_user_exact :
    (db : Database) (user_id : String)
    → IsKeyed job_id db.jobs
    → (vs : List JobView) × (list_jobs_for_user user_id db ≡ (ok vs, db))
      × Forall₂ (ViewOf db.jobs) vs (list_for_user db.jobs user_id)
unfolding list_jobs_for_user
list_jobs_for_user_exact db user_id k =
    let (vs, done, all) =
      views db.jobs k (list_for_user db.jobs user_id) (owned-Stored db.jobs user_id k) in
    (vs, rw done, all)
