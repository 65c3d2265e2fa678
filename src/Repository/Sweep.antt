-- ===== src/Repository/Sweep.antt =====
-- Loops of the kind `for job in repository.list_by_statuses(...)`, which replace some of the jobs of
-- a listing that was taken before the first write: they change each job on its own.
use mathlib.Core.Option
use phyai_saas_train_vla.Prelude.{
  ◌≡◌, ◌≢◌, refl, sym, ◌∙◌, ap, ltb, String, Bool, false, Option, none, some, List, [], ◌∷◌, arith,
  eq_iff, ◌==◌, text_eq, filter, true, if◌then◌else◌, count_if, any, All,
}
use phyai_saas_train_vla.Dict
use phyai_saas_train_vla.Dict.{Dict, values, get-put, tally}
use phyai_saas_train_vla.Dict.Keyed.{IsKeyed, Stored, IsDistinct, Stored-put}
use phyai_saas_train_vla.Common.Models.{JobStatus, Job}
use phyai_saas_train_vla.Repository.Jobs.{
  job_id, has_status, list_by_statuses, list_by_statuses-Listing,
}

abbrev pub mentions : String → List Job → Bool
mentions k jobs = any (λ j. j.id == k) jobs

-- The job that replaces another, or that other where nothing is to change.
abbrev pub or_same : Option Job → Job → Job
or_same none job = job
or_same (some next) job = next

abbrev pub changed : (Job → Option Job) → Job → Job
changed f job = or_same (f job) job

abbrev pub KeepsId : (Job → Option Job) → Type 0
KeepsId f = (job next : Job) → f job ≡ some next → next.id ≡ job.id

abbrev pub write : Option Job → Dict Job → Dict Job
write none jobs = jobs
write (some next) jobs = Dict.put jobs next.id next

get-write :
    (o : Option Job) (job : Job) (jobs : Dict Job) (k : String)
    → Stored job_id jobs job
    → ((next : Job) → o ≡ some next → next.id ≡ job.id)
    → Dict.get (write o jobs) k ≡ (if job.id == k then some (or_same o job) else Dict.get jobs k)
get-write none job jobs k s h = ground (arith, eq_iff job.id k)
get-write (some next) job jobs k s h = rw (get-put jobs next.id k next, h next refl)

Stored-write :
    (o : Option Job) (job other : Job) (jobs : Dict Job)
    → Stored job_id jobs other
    → job.id ≢ other.id
    → ((next : Job) → o ≡ some next → next.id ≡ job.id)
    → Stored job_id (write o jobs) other
Stored-write none job other jobs s ne h = s
Stored-write (some next) job other jobs s ne h =
    Stored-put job_id jobs next.id next other s (λ e. ne (sym (h next refl) ∙ e))

module _ (f : Job → Option Job) where
  abbrev pub update_each : List Job → Dict Job → Dict Job
  update_each [] jobs = jobs
  update_each (job ∷ rest) jobs = update_each rest (write (f job) jobs)

  module _ (keeps : KeepsId f) where
    pub All-Stored-write :
        (job : Job) (jobs : Dict Job) (rest : List Job)
        → All (λ y. job.id ≢ y.id) rest
        → All (Stored job_id jobs) rest
        → All (Stored job_id (write (f job) jobs)) rest
    All-Stored-write job jobs [] d s = tt
    All-Stored-write job jobs (y ∷ ys) d s =
        (Stored-write (f job) job y jobs s.0 d.0 (keeps job), All-Stored-write job jobs ys d.1 s.1)

    mentions-distinct :
        (k : String) (rest : List Job) → All (λ y. k ≢ y.id) rest → mentions k rest ≡ false
    mentions-distinct k [] d = refl
    mentions-distinct k (y ∷ ys) d = ground (arith, eq_iff y.id k, mentions-distinct k ys d.1)

    -- After the loop each key that the listing mentions holds the changed job.
    pub get-update_each :
        (listed : List Job) (jobs : Dict Job) (k : String)
        → All (Stored job_id jobs) listed
        → IsDistinct job_id listed
        → Dict.get (update_each listed jobs) k ≡ (
            if mentions k listed then Option.map (changed f) (Dict.get jobs k) else Dict.get jobs k)
    get-update_each [] jobs k s d = refl
    get-update_each (job ∷ rest) jobs k s d =
        let later =
          get-update_each rest (write (f job) jobs) k (All-Stored-write job jobs rest d.0 s.1)
            d.1 in
        ground (
          arith,
          later,
          get-write (f job) job jobs k s.0 (keeps job),
          mentions-distinct job.id rest d.0,
          eq_iff job.id k,
        )

any-count_if : {A : Type 0} (p : A → Bool) (xs : List A) → any p xs ≡ ltb 0 (count_if p xs)
any-count_if p [] = refl
any-count_if p (x ∷ xs) = ground (arith, any-count_if p xs)

-- A key is listed once, where it is listed at all.
count_if-key :
    (q : Job → Bool) (jobs : Dict Job) (k : String)
    → IsKeyed job_id jobs
    → count_if (λ j. if q j then j.id == k else false) (values jobs) ≡ tally q (Dict.get jobs k)
count_if-key q [] k h = refl
count_if-key q ((i, job) ∷ jobs) k h =
    ground (arith, eq_iff job.id k, eq_iff i k, count_if-key q jobs k h.2)

pub mentions-list_by_statuses :
    (jobs : Dict Job) (statuses : List JobStatus) (k : String)
    → IsKeyed job_id jobs
    → mentions k (list_by_statuses jobs statuses)
      ≡ ltb 0 (tally (has_status statuses) (Dict.get jobs k))
mentions-list_by_statuses jobs statuses k h =
    any-count_if (λ j. j.id == k) (list_by_statuses jobs statuses)
    ∙ ap (ltb 0) (
        (list_by_statuses-Listing jobs statuses h).complete (λ j. j.id == k)
        ∙ count_if-key (has_status statuses) jobs k h)

-- A stored job that fits is among those that fit.
pub mentions-values :
    (p : Job → Bool) (jobs : Dict Job) (id : String) (job : Job)
    → IsKeyed job_id jobs
    → Dict.get jobs id ≡ some job
    → p job ≡ true
    → mentions id (filter p (values jobs)) ≡ true
mentions-values p [] id job k there fits = cc
mentions-values p ((j, other) ∷ jobs) id job k there fits =
    ground (arith, eq_iff j id, eq_iff other.id id, k.0, mentions-values p jobs id job k.2)

-- A loop over all jobs of some statuses, whose body leaves jobs of other statuses alone, changes
-- every stored job by the body.
pub sweep_pointwise :
    (f : Job → Option Job) (statuses : List JobStatus) (jobs : Dict Job) (k : String)
    → KeepsId f
    → ((job : Job) → has_status statuses job ≡ false → f job ≡ none)
    → IsKeyed job_id jobs
    → Dict.get (update_each f (list_by_statuses jobs statuses) jobs) k
      ≡ Option.map (changed f) (Dict.get jobs k)
sweep_pointwise f statuses jobs k keeps others h =
    let listing = list_by_statuses-Listing jobs statuses h in
    get-update_each f keeps (list_by_statuses jobs statuses) jobs k listing.stored listing.distinct
    ∙ rw (mentions-list_by_statuses jobs statuses k h) (all_changed (Dict.get jobs k))
  where
    all_changed :
        (o : Option Job)
        → (if ltb 0 (tally (has_status statuses) o) then Option.map (changed f) o else o)
          ≡ Option.map (changed f) o
    all_changed none = refl
    all_changed (some job) = ground (arith, others job)
