-- ===== src/Repository/Invariant.antt =====
-- The invariant of the stored jobs, and the writes that keep it.
use phyai_saas_train_vla.Prelude.{
  ◌≤◌, ◌≡◌, refl, String, Bool, true, false, ◌&&◌, Option, none, some, List, [], ◌∷◌, arith, eq_iff,
  ◌==◌, text_eq, one_if, count_if, All, Bool-cases, inl, inr, ap,
}
use phyai_saas_train_vla.Dict
use phyai_saas_train_vla.Dict.{Dict, values, count_if-put, count_if-put-le}
use phyai_saas_train_vla.Dict.Keyed.{IsKeyed, Stored, IsDistinct, put-IsKeyed}
use phyai_saas_train_vla.Common.Models.{initializing, training, status_eq, JobStatus, is_in, Job}
use phyai_saas_train_vla.Common.Quota.{is_active}
use phyai_saas_train_vla.Repository.Jobs.{job_id}
use phyai_saas_train_vla.Repository.Sweep.{update_each, write, All-Stored-write}

-- The statuses in which a job holds the training host.
abbrev pub running_statuses : List JobStatus
running_statuses = initializing ∷ training ∷ []

abbrev pub is_running : Job → Bool
is_running job = is_in running_statuses job.status

abbrev pub active_of : String → Job → Bool
active_of user_id job = is_active job && job.user_id == user_id

-- Every job stands under its own id, each user has at most one active job, and at most one job of
-- all users holds the training host.
pub record IsSound (jobs : Dict Job) : Type 0 where
  pub keyed : IsKeyed job_id jobs
  pub one_active : (user_id : String) → count_if (active_of user_id) (values jobs) ≤ 1
  pub one_running : count_if is_running (values jobs) ≤ 1

-- A write of `next` over `old` that takes no new place: same id, same owner, and active or running
-- only if it was so before.
pub record Follows (old next : Job) : Type 0 where
  pub same_id : next.id ≡ old.id
  pub same_user : next.user_id ≡ old.user_id
  pub active : is_active next ≡ true → is_active old ≡ true
  pub running : is_running next ≡ true → is_running old ≡ true

both : (a b c d : Bool) → (a ≡ true → b ≡ true) → c ≡ d → (a && c) ≡ true → (b && d) ≡ true
both a b c d h e t = ground arith

one_if-le : (b : Bool) → one_if b ≤ 1
one_if-le b = ground arith

second : (a b : Bool) → (a && b) ≡ true → b ≡ true
second a b h = ground arith

idle_owner :
    (jobs : Dict Job) (job : Job) (u : String)
    → count_if (active_of job.user_id) (values jobs) ≡ 0
    → active_of u job ≡ true
    → count_if (active_of u) (values jobs) ≡ 0
idle_owner jobs job u idle taken = rw (← owner) idle
  where
    owner : job.user_id ≡ u
    owner = (eq_iff job.user_id u).0 (second (is_active job) (job.user_id == u) taken)

module _ (jobs : Dict Job) (old next : Job) (stored : Stored job_id jobs old)
    (f : Follows old next) where
  at_id : Dict.get jobs next.id ≡ some old
  at_id = rw f.same_id stored

  active_of-Follows : (u : String) → active_of u next ≡ true → active_of u old ≡ true
  active_of-Follows u h =
      both (is_active next) (is_active old) (next.user_id == u) (old.user_id == u) f.active
        (rw f.same_user) h

  put-Follows-le :
      (p : Job → Bool)
      → (p next ≡ true → p old ≡ true)
      → count_if p (values (Dict.put jobs next.id next)) ≤ count_if p (values jobs)
  put-Follows-le p h = count_if-put-le p jobs next.id old next at_id h

  pub put-Follows : IsSound jobs → IsSound (Dict.put jobs next.id next)
  put-Follows h = record {
    keyed = put-IsKeyed job_id jobs next.id next h.keyed refl;
    one_active =
        λ u. omega (arith, h.one_active u, put-Follows-le (active_of u) (active_of-Follows u));
    one_running = omega (arith, h.one_running, put-Follows-le is_running f.running);
  }

-- A queued job may start while no job is running.
pub put-start :
    (jobs : Dict Job) (old next : Job)
    → Stored job_id jobs old
    → next.id ≡ old.id
    → next.user_id ≡ old.user_id
    → is_active old ≡ true
    → count_if is_running (values jobs) ≡ 0
    → IsSound jobs
    → IsSound (Dict.put jobs next.id next)
put-start jobs old next s same_id same_user a idle h = record {
  keyed = put-IsKeyed job_id jobs next.id next h.keyed refl;
  one_active = λ u. omega (
    arith,
    h.one_active u,
    count_if-put-le (active_of u) jobs next.id old next (rw same_id s) (
        both (is_active next) (is_active old) (next.user_id == u) (old.user_id == u) (λ _. a)
          (rw same_user)),
  );
  one_running =
      omega (arith, count_if-put is_running jobs next.id next, one_if-le (is_running next), idle);
}

-- A new job may be stored under a new id for a user who has no active job.
pub put-new :
    (jobs : Dict Job) (job : Job)
    → Dict.get jobs job.id ≡ none
    → is_running job ≡ false
    → count_if (active_of job.user_id) (values jobs) ≡ 0
    → IsSound jobs
    → IsSound (Dict.put jobs job.id job)
put-new jobs job fresh waits idle h = record {
  keyed = put-IsKeyed job_id jobs job.id job h.keyed refl;
  one_active = λ u. elim (Bool-cases (active_of u job)) [
    | inl taken ↦ omega (
      arith,
      count_if-put (active_of u) jobs job.id job,
      one_if-le (active_of u job),
      idle_owner jobs job u idle taken,
    )
    | inr free ↦
        omega (arith, h.one_active u, count_if-put (active_of u) jobs job.id job, ap one_if free)
  ];
  one_running =
      omega (arith, h.one_running, count_if-put is_running jobs job.id job, ap one_if waits);
}

-- A loop of writes that take no new place keeps the invariant.
module _ (f : Job → Option Job)
    (follows : (job next : Job) → f job ≡ some next → Follows job next) where
  write-IsSound :
      (o : Option Job) (job : Job) (jobs : Dict Job)
      → f job ≡ o
      → Stored job_id jobs job
      → IsSound jobs
      → IsSound (write o jobs)
  write-IsSound none job jobs e s h = h
  write-IsSound (some next) job jobs e s h = put-Follows jobs job next s (follows job next e) h

  pub update_each-IsSound :
      (listed : List Job) (jobs : Dict Job)
      → All (Stored job_id jobs) listed
      → IsDistinct job_id listed
      → IsSound jobs
      → IsSound (update_each f listed jobs)
  update_each-IsSound [] jobs s d h = h
  update_each-IsSound (job ∷ rest) jobs s d h =
      update_each-IsSound rest (write (f job) jobs)
        (All-Stored-write f (λ j n e. (follows j n e).same_id) job jobs rest d.0 s.1) d.1
        (write-IsSound (f job) job jobs refl s.0 h)
