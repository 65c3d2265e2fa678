-- ===== src/Repository/Firestore/Listings.antt =====
-- The listings of the in-memory repository and those of the Firestore one hold the same jobs.
use phyai_saas_train_vla.Prelude.{
  ◌≡◌, refl, sym, ◌∙◌, ap, All-and, All-filter, filter-All, String, Bool, true, false, Option, none,
  some, List, [], ◌∷◌, arith, eq_iff, ◌==◌, text_eq, filter, All, Option-cases, Bool-cases, inl,
  inr, ltb, if◌then◌else◌,
}
use phyai_saas_train_vla.Dict
use phyai_saas_train_vla.Dict.{Dict, values, tally}
use phyai_saas_train_vla.Dict.Keyed.{
  IsKeyed, Stored, IsDistinct, get-IsKeyed, values-Stored, values-IsDistinct, filter-IsDistinct,
}
use phyai_saas_train_vla.Common.Models.{JobStatus, Job}
use phyai_saas_train_vla.Repository.Jobs as Memory
use phyai_saas_train_vla.Repository.Jobs.{job_id, has_status, list_by_statuses-Listing}
use phyai_saas_train_vla.Repository.Sweep.{mentions, mentions-values, mentions-list_by_statuses}

-- The first job of a list with an id.
abbrev pub find_by_id : String → List Job → Option Job
find_by_id k [] = none
find_by_id k (job ∷ rest) = let later = find_by_id k rest in if job.id == k then some job else later

-- Two lists of the same jobs, each job once, in whatever order.
pub record SameJobs (found listed : List Job) : Type 0 where
  pub same : (id : String) → find_by_id id found ≡ find_by_id id listed
  pub once : IsDistinct job_id found
  pub once_too : IsDistinct job_id listed

abbrev kept : (Job → Bool) → Option Job → Option Job
kept fits none = none
kept fits (some job) = if fits job then some job else none

-- What `find_by_id` gives for a list of the stored jobs that fit.
module _ (jobs : Dict Job) (fits : Job → Bool) (keyed : IsKeyed job_id jobs) where
  found_job :
      (k : String) (list : List Job) (job : Job)
      → All (λ job. Stored job_id jobs job × (fits job ≡ true)) list
      → find_by_id k list ≡ some job
      → (Dict.get jobs k ≡ some job) × (fits job ≡ true)
  found_job k [] job h e = cc
  found_job k (j ∷ list) job h e = elim (Bool-cases (j.id == k)) [
    | inl here ↦
        let same = injective (rw here at e) in
        (
          ap (Dict.get jobs) (sym ((eq_iff j.id k).0 here)) ∙ h.0.0 ∙ ap some same,
          ap fits (sym same) ∙ h.0.1,
        )
    | inr away ↦ found_job k list job h.1 (rw away at e)
  ]
    where
      injective : {a b : Job} → some a ≡ some b → a ≡ b
      injective e = cc

  not_found_job :
      (k : String) (list : List Job) → find_by_id k list ≡ none → mentions k list ≡ false
  not_found_job k [] e = refl
  not_found_job k (j ∷ list) e = elim (Bool-cases (j.id == k)) [
    | inl here ↦ elim (nothing (rw here at e)) [ ]
    | inr away ↦ rw away (not_found_job k list (rw away at e))
  ]
    where
      nothing : {a : Job} → some a ≡ none → ⊥
      nothing e = cc

  pub find_by_id-kept :
      (list : List Job) (k : String)
      → All (λ job. Stored job_id jobs job × (fits job ≡ true)) list
      → ((job : Job) → Stored job_id jobs job → fits job ≡ true → mentions job.id list ≡ true)
      → find_by_id k list ≡ kept fits (Dict.get jobs k)
  find_by_id-kept list k all complete = elim (Option-cases (find_by_id k list)) [
    | inr (job, there) ↦
        let (stored, fit) = found_job k list job all there in there ∙ rw (stored, fit) refl
    | inl absent ↦ absent ∙ elim (Option-cases (Dict.get jobs k)) [
      | inl missing ↦ rw missing refl
      | inr (job, there) ↦ rw there (left_out job there (not_found_job k list absent))
    ]
  ]
    where
      left_out :
          (job : Job)
          → Dict.get jobs k ≡ some job
          → mentions k list ≡ false
          → none ≡ (if fits job then some job else none)
      left_out job there unlisted = elim (Bool-cases (fits job)) [
        | inr unfit ↦ rw unfit refl
        | inl fit ↦
            let id = get-IsKeyed job_id jobs k job keyed there in
            elim (neither (complete job (ap (Dict.get jobs) id ∙ there) fit)
              (ap (λ i. mentions i list) id ∙ unlisted)) [ ]
      ]
        where
          neither : {b : Bool} → b ≡ true → b ≡ false → ⊥
          neither p q = cc

module _ (jobs : Dict Job) (keyed : IsKeyed job_id jobs) where
  pub list_for_user-SameJobs :
      (user_id : String) (found : List Job)
      → IsDistinct job_id found
      → ((k : String) → find_by_id k found ≡ kept (λ j. j.user_id == user_id) (Dict.get jobs k))
      → SameJobs found (Memory.list_for_user jobs user_id)
  unfolding Memory.list_for_user
  list_for_user-SameJobs user_id found once finds =
      let fits = λ (j : Job). j.user_id == user_id in
      record {
        same = λ k.
            finds k
            ∙ sym (
                find_by_id-kept jobs fits keyed (filter fits (values jobs)) k
                  (All-and (Stored job_id jobs) (λ j. fits j ≡ true) (filter fits (values jobs))
                    (All-filter (Stored job_id jobs) fits (values jobs)
                      (values-Stored job_id jobs keyed))
                    (filter-All fits (values jobs)))
                  (λ job there fit. mentions-values fits jobs job.id job keyed there fit));
        once = once;
        once_too =
            filter-IsDistinct job_id fits (values jobs) (values-IsDistinct job_id jobs keyed);
      }

  pub list_by_statuses-SameJobs :
      (statuses : List JobStatus) (found : List Job)
      → IsDistinct job_id found
      → ((k : String) → find_by_id k found ≡ kept (has_status statuses) (Dict.get jobs k))
      → SameJobs found (Memory.list_by_statuses jobs statuses)
  list_by_statuses-SameJobs statuses found once finds =
      let listed = Memory.list_by_statuses jobs statuses in
      let listing = list_by_statuses-Listing jobs statuses keyed in
      record {
        same = λ k.
            finds k
            ∙ sym (
                find_by_id-kept jobs (has_status statuses) keyed listed k
                  (All-and (Stored job_id jobs) (λ j. has_status statuses j ≡ true) listed
                    listing.stored listing.in_statuses)
                  (λ job there fit.
                    mentions-list_by_statuses jobs statuses job.id keyed
                    ∙ rw there (counted (has_status statuses) job fit)));
        once = once;
        once_too = listing.distinct;
      }
    where
      counted : (p : Job → Bool) (job : Job) → p job ≡ true → ltb 0 (tally p (some job)) ≡ true
      counted p job e = ground arith
