-- ===== src/Repository/Jobs.antt =====
-- InMemoryJobRepository of backend/adapters/memory.py.
use phyai_saas_train_vla.Prelude.{
  ◌≡◌, refl, ◌∙◌, String, Bool, true, false, Option, List, ◌==◌, text_eq, if◌then◌else◌, filter,
  count_if, sorted, IsSorted, sorted-IsSorted, All, All-filter, All-sorted, filter-All,
  count_if-sorted, count_if-filter,
}
use phyai_saas_train_vla.Dict
use phyai_saas_train_vla.Dict.{Dict, values}
use phyai_saas_train_vla.Dict.Keyed.{
  IsKeyed, Stored, IsDistinct, values-Stored, values-IsDistinct, filter-IsDistinct,
  sorted-IsDistinct,
}
use phyai_saas_train_vla.Common.Models.{JobStatus, is_in, DateTime, Job}

abbrev pub job_id : Job → String
job_id job = job.id

abbrev pub created : Job → DateTime
created job = job.created_at

abbrev pub has_status : List JobStatus → Job → Bool
has_status statuses job = is_in statuses job.status

unfoldable pub get : Dict Job → String → Option Job
get jobs id = Dict.get jobs id

unfoldable pub create : Dict Job → Job → Dict Job
create jobs job = Dict.put jobs job.id job

unfoldable pub update : Dict Job → Job → Dict Job
update jobs job = Dict.put jobs job.id job

unfoldable pub list_for_user : Dict Job → String → List Job
list_for_user jobs user_id = filter (λ j. j.user_id == user_id) (values jobs)

unfoldable pub list_by_statuses : Dict Job → List JobStatus → List Job
list_by_statuses jobs statuses = sorted created (filter (has_status statuses) (values jobs))

-- What `list_by_statuses` promises of the list it returns.
pub record Listing (jobs : Dict Job) (statuses : List JobStatus) (listed : List Job) : Type 0 where
  pub oldest_first : IsSorted created listed
  pub in_statuses : All (λ j. has_status statuses j ≡ true) listed
  pub stored : All (Stored job_id jobs) listed
  pub distinct : IsDistinct job_id listed
  pub complete :
      (p : Job → Bool)
      → count_if p listed
        ≡ count_if (λ j. if has_status statuses j then p j else false) (values jobs)

-- Where every job is stored under its own id, the jobs that are listed for some statuses come
-- oldest first, have those statuses, are stored, have different ids, and none is left out.
pub list_by_statuses-Listing :
    (jobs : Dict Job) (statuses : List JobStatus)
    → IsKeyed job_id jobs
    → Listing jobs statuses (list_by_statuses jobs statuses)
unfolding list_by_statuses
list_by_statuses-Listing jobs statuses k =
    let fits = has_status statuses in
    let found = filter fits (values jobs) in
    record {
      oldest_first = sorted-IsSorted created found;
      in_statuses = All-sorted created (λ j. fits j ≡ true) found (filter-All fits (values jobs));
      stored =
          All-sorted created (Stored job_id jobs) found
            (All-filter (Stored job_id jobs) fits (values jobs) (values-Stored job_id jobs k));
      distinct =
          sorted-IsDistinct job_id created found
            (filter-IsDistinct job_id fits (values jobs) (values-IsDistinct job_id jobs k));
      complete = λ p.
          count_if-sorted created p found
          ∙ count_if-filter p fits (λ j. if fits j then p j else false) (values jobs) (λ j. refl);
    }
