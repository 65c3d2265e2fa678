-- ===== src/Backend/Tests.antt =====
-- The theorems on the repositories and services at concrete inputs.
use mathlib.Core.Option
use phyai_saas_train_vla.Prelude.{
  ℕ, String, ◌≡◌, refl, some, List, [], ◌∷◌, map, filter, pos, ok, err, Forall₂, if◌then◌else◌,
}
use phyai_saas_train_vla.Dict
use phyai_saas_train_vla.Samples.{training_job, jobs, db, db_free, jobs-IsKeyed, other_jobs-IsSound}
use phyai_saas_train_vla.Common.Models.{queued, act, hf_hub}
use phyai_saas_train_vla.Common.Errors.{user_not_found}
use phyai_saas_train_vla.Common.Heartbeat.{is_timed_out}
use phyai_saas_train_vla.Common.StateMachine.{transition}
use phyai_saas_train_vla.Common.Limits.{validate_training_steps}
use phyai_saas_train_vla.Repository.Jobs
use phyai_saas_train_vla.Repository.Users
use phyai_saas_train_vla.Repository.Jobs.{
  Listing, list_by_statuses, list_by_statuses-Listing, list_for_user,
}
use phyai_saas_train_vla.Repository.Invariant.{IsSound}
use phyai_saas_train_vla.Backend.JobService.{
  JobView, create_job, list_jobs_for_user, get_download_url,
}
use phyai_saas_train_vla.Backend.JobService.Create.{create_job-IsSound}
use phyai_saas_train_vla.Backend.JobService.Access.{Download, get_download_url_exact}
use phyai_saas_train_vla.Backend.JobService.Queue.{ViewOf, list_jobs_for_user_exact}
use phyai_saas_train_vla.Backend.TimeoutService.{monitored_statuses, check_and_fail_timed_out_jobs}
use phyai_saas_train_vla.Backend.TimeoutService.Sweep.{
  timed_out, is_overdue, check_and_fail_timed_out_jobs_exact,
}

list_by_statuses-Listing_example : Listing jobs (queued ∷ []) (list_by_statuses jobs (queued ∷ []))
list_by_statuses-Listing_example = list_by_statuses-Listing jobs (queued ∷ []) jobs-IsKeyed

refused :
    (create_job "j4" 0 0 "carol" act hf_hub "org/d" (pos 10) db).0 ≡ err (user_not_found "carol")
unfolding create_job Users.get validate_training_steps
refused = refl

create_job-IsSound_example :
    IsSound
      (create_job "j4" 86400000000 86400000000 "alice" act hf_hub "org/d" (pos 10) db_free).1.jobs
create_job-IsSound_example =
    create_job-IsSound "j4" 86400000000 86400000000 "alice" act hf_hub "org/d" (pos 10) db_free refl
      other_jobs-IsSound

abbrev link : String → ℕ → String
link path seconds = path

get_download_url_exact_example :
    Download link "alice" "j3" db (get_download_url link "alice" "j3" db)
get_download_url_exact_example = get_download_url_exact link "alice" "j3" db

list_jobs_for_user_exact_example :
    (vs : List JobView) × (list_jobs_for_user "alice" db ≡ (ok vs, db))
    × Forall₂ (ViewOf jobs) vs (list_for_user jobs "alice")
list_jobs_for_user_exact_example = list_jobs_for_user_exact db "alice" jobs-IsKeyed

check_and_fail_timed_out_jobs_exact_example :
    ((check_and_fail_timed_out_jobs 90000000000 jobs).0
      ≡ ok (
          map
            (timed_out 90000000000)
            (filter (is_overdue 90000000000) (list_by_statuses jobs monitored_statuses))))
    × (Dict.get (check_and_fail_timed_out_jobs 90000000000 jobs).1 "j2"
        ≡ Option.map
            (λ job. if is_overdue 90000000000 job then timed_out 90000000000 job else job)
            (Dict.get jobs "j2"))
check_and_fail_timed_out_jobs_exact_example =
    check_and_fail_timed_out_jobs_exact 90000000000 jobs "j2" jobs-IsKeyed

fails_training_job :
    Dict.get (check_and_fail_timed_out_jobs 90000000000 jobs).1 "j2"
    ≡ some (timed_out 90000000000 training_job)
unfolding check_and_fail_timed_out_jobs list_by_statuses is_timed_out transition Jobs.update
fails_training_job = refl
