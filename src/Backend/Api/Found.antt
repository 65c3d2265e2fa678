-- ===== src/Backend/Api/Found.antt =====
-- The endpoints that answer with one job find it among the jobs of the user.
use phyai_saas_train_vla.Prelude.{
  ◌≡◌, refl, sym, ◌∙◌, ap, Bool, true, false, some, List, [], ◌∷◌, arith, eq_iff, ok, ◌==◌, text_eq,
  Forall₂, Bool-cases, inl, inr, eq_refl, ◌||◌, All,
}
use phyai_saas_train_vla.Dict
use phyai_saas_train_vla.Dict.{Dict, values, get-put}
use phyai_saas_train_vla.Dict.Keyed.{IsKeyed, Stored}
use phyai_saas_train_vla.Common.Models.{Job}
use phyai_saas_train_vla.Repository.Database.{Database}
use phyai_saas_train_vla.Repository.Jobs
use phyai_saas_train_vla.Repository.Jobs.{job_id}
use phyai_saas_train_vla.Repository.Sweep.{mentions, mentions-values}
use phyai_saas_train_vla.Backend.JobService.{JobView}
use phyai_saas_train_vla.Backend.JobService.Queue.{ViewOf, owned-Stored, list_jobs_for_user_exact}
use phyai_saas_train_vla.Backend.Api.{JobOut, from_view, next_view, job_out_for}

later : (b c : Bool) → (b || c) ≡ true → b ≡ false → c ≡ true
later b c h n = ground arith

same_stored :
    (jobs : Dict Job) (j target : Job)
    → Stored job_id jobs j
    → Dict.get jobs j.id ≡ some target
    → j ≡ target
same_stored jobs j target s t = injective (sym s ∙ t)
  where
    injective : {a b : Job} → some a ≡ some b → a ≡ b
    injective e = cc

-- The view that `next` finds shows the stored job.
module _ (jobs : Dict Job) (target : Job) (there : Stored job_id jobs target) where
  next_view-found :
      (views : List JobView) (listed : List Job)
      → Forall₂ (ViewOf jobs) views listed
      → All (Stored job_id jobs) listed
      → mentions target.id listed ≡ true
      → (view : JobView) × (next_view target.id views ≡ some view) × ViewOf jobs view target
  next_view-found [] [] h s m = cc
  next_view-found [] (job ∷ listed) h s m = elim h [ ]
  next_view-found (view ∷ views) [] h s m = elim h [ ]
  next_view-found (view ∷ views) (job ∷ listed) h s m =
      let shown = ap (λ (j : Job). j.id) h.0.same in
      elim (Bool-cases (view.job.id == target.id)) [
        | inl same ↦
            let id_eq = sym shown ∙ (eq_iff view.job.id target.id).0 same in
            (view, rw same refl, rw (← same_stored jobs job target s.0 (rw id_eq there)) h.0)
        | inr differs ↦ rw differs (
            next_view-found views listed h.1 s.1 (
              later (job.id == target.id) (mentions target.id listed) m
                (ap (λ k. k == target.id) (sym shown) ∙ differs)))
      ]

module _ (db : Database) (target : Job) (keyed : IsKeyed job_id db.jobs)
    (there : Stored job_id db.jobs target) where
  -- What an endpoint shows of a stored job.
  pub record Shows (out : JobOut) : Type 0 where
    pub view : JobView
    pub same : out ≡ from_view view
    pub of_job : ViewOf db.jobs view target

  owned : mentions target.id (Jobs.list_for_user db.jobs target.user_id) ≡ true
  unfolding Jobs.list_for_user
  owned =
      mentions-values (λ j. j.user_id == target.user_id) db.jobs target.id target keyed there
        (eq_refl target.user_id)

  -- Where every job is stored under its own id, an endpoint that is to show a stored job to its owner
  -- shows it, and raises no `StopIteration`; nothing changes.
  pub job_out_for-Shows :
      (out : JobOut) × (job_out_for target.user_id target.id db ≡ (ok out, db)) × Shows out
  unfolding job_out_for
  job_out_for-Shows =
      let (views, listed, all) = list_jobs_for_user_exact db target.user_id keyed in
      let (view, found, shows) =
        next_view-found db.jobs target there views (Jobs.list_for_user db.jobs target.user_id) all
          (owned-Stored db.jobs target.user_id keyed) owned in
      (from_view view, rw (listed, found) refl, record { view = view; same = refl; of_job = shows })
