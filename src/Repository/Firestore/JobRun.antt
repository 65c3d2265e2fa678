-- ===== src/Repository/Firestore/JobRun.antt =====
-- The Firestore repository of jobs after any writes, beside the in-memory one.
use mathlib.Core.Option
use phyai_saas_train_vla.Prelude.{
  ◌≡◌, refl, sym, ◌∙◌, ap, String, Bool, true, false, ◌&&◌, Option, some, List, [], ◌∷◌, map, arith,
  ok, ◌==◌, text_eq, Option-cases, inl, inr, if◌then◌else◌, IsSorted,
}
use phyai_saas_train_vla.Dict
use phyai_saas_train_vla.Dict.{Dict, get-put}
use phyai_saas_train_vla.Dict.Keyed.{IsKeyed, get-IsKeyed, put-IsKeyed}
use phyai_saas_train_vla.Common.Models.{JobStatus, status_eq, status_value, Job}
use phyai_saas_train_vla.Repository.Jobs as Memory
use phyai_saas_train_vla.Repository.Jobs.{job_id, created, has_status, list_by_statuses-Listing}
use phyai_saas_train_vla.Repository.Firestore.{Document, Client, IsFirestore}
use phyai_saas_train_vla.Repository.Firestore.Codec.{job_to_doc}
use phyai_saas_train_vla.Repository.Firestore.RoundTrip.{doc_to_job-job_to_doc}
use phyai_saas_train_vla.Repository.Firestore.Jobs.{
  found_job, get, create, update, list_for_user, list_by_statuses,
}
use phyai_saas_train_vla.Repository.Firestore.Listings.{
  SameJobs, find_by_id-kept, list_for_user-SameJobs, list_by_statuses-SameJobs,
}
use phyai_saas_train_vla.Repository.Firestore.JobRefinement.{
  Lists, Represents, contains-status, contains-one, query-Lists,
}

-- A client beside the in-memory repository of a dictionary of jobs: `get` gives the same job; each listing
-- gives the same jobs as the in-memory one, oldest first, which are the stored ones that fit. The
-- in-memory listing by statuses is oldest first as well; the in-memory listing of a user is in the
-- order in which the jobs were created in the dictionary.
pub record ActsAs {C : Type 0} (client : Client C) (c : C) (jobs : Dict Job) : Type 0 where
  pub gets : (id : String) → get client c id ≡ ok (Memory.get jobs id)
  pub lists_statuses :
      (statuses : List JobStatus)
      → (found : List Job) × (list_by_statuses client c statuses ≡ ok found)
        × Lists jobs (has_status statuses) found
        × SameJobs found (Memory.list_by_statuses jobs statuses)
        × IsSorted created (Memory.list_by_statuses jobs statuses)
  pub lists_user :
      (user_id : String)
      → (found : List Job) × (list_for_user client c user_id ≡ ok found)
        × Lists jobs (λ job. job.user_id == user_id) found
        × SameJobs found (Memory.list_for_user jobs user_id)

module _ {C : Type 0} (client : Client C) (documented : IsFirestore client) (c : C)
    (jobs : Dict Job) (represents : Represents client c jobs) (keyed : IsKeyed job_id jobs) where
  get_refines : (id : String) → get client c id ≡ ok (Memory.get jobs id)
  unfolding get Memory.get
  get_refines id = elim (Option-cases (Dict.get jobs id)) [
    | inl missing ↦ rw (represents.same id, missing) refl
    | inr (job, there) ↦
        rw (represents.same id, there)
          (read_back job id (get-IsKeyed job_id jobs id job keyed there))
  ]
    where
      read_back :
          (job : Job) (id : String)
          → job.id ≡ id
          → found_job id (some (job_to_doc job)) ≡ ok (some job)
      read_back job id e = rw (← e, doc_to_job-job_to_doc job) refl

  represents-ActsAs : ActsAs client c jobs
  unfolding list_by_statuses list_for_user job_to_doc
  represents-ActsAs = record {
    gets = get_refines;
    lists_statuses = λ statuses.
        let fits = has_status statuses in
        let (found, read, lists) =
          query-Lists client documented c jobs represents keyed "status" (map status_value statuses)
            fits (λ job. rw (contains-status statuses job.status) (and_true (fits job))) in
        (
          found,
          read,
          lists,
          list_by_statuses-SameJobs jobs keyed statuses found lists.distinct
              (λ k. find_by_id-kept jobs fits keyed found k lists.stored lists.complete),
          (list_by_statuses-Listing jobs statuses keyed).oldest_first,
        );
    lists_user = λ user_id.
        let fits = λ (job : Job). job.user_id == user_id in
        let (found, read, lists) =
          query-Lists client documented c jobs represents keyed "user_id" (user_id ∷ []) fits
            (λ job. rw (contains-one user_id job) (and_true (fits job))) in
        (
          found,
          read,
          lists,
          list_for_user-SameJobs jobs keyed user_id found lists.distinct
              (λ k. find_by_id-kept jobs fits keyed found k lists.stored lists.complete),
        );
  }
    where
      and_true : (b : Bool) → (b && true) ≡ b
      and_true b = ground arith

-- The writes of a program, on a collection and on a dictionary.
pub data Write : Type 0 where
  creates : Job → Write
  updates : Job → Write

abbrev pub run_memory : List Write → Dict Job → Dict Job
run_memory [] jobs = jobs
run_memory (creates job ∷ writes) jobs = run_memory writes (Memory.create jobs job)
run_memory (updates job ∷ writes) jobs = run_memory writes (Memory.update jobs job)

module _ {C : Type 0} (client : Client C) where
  abbrev pub run_client : List Write → C → C
  run_client [] c = c
  run_client (creates job ∷ writes) c = run_client writes (create client c job)
  run_client (updates job ∷ writes) c = run_client writes (update client c job)

module _ {C : Type 0} (client : Client C) (documented : IsFirestore client) where
  write-Represents :
      (c : C) (jobs : Dict Job) (job : Job)
      → Represents client c jobs
      → Represents client (client.set_doc c job.id (job_to_doc job)) (Dict.put jobs job.id job)
  write-Represents c jobs job r = record {
    same = λ id.
        documented.get-set c job.id id (job_to_doc job)
        ∙ written (Dict.get jobs id) (job.id == id) (r.same id)
        ∙ ap (Option.map job_to_doc) (sym (get-put jobs job.id id job));
  }
    where
      written :
          (o : Option Job) {d : Option Document} (b : Bool)
          → d ≡ Option.map job_to_doc o
          → (if b then some (job_to_doc job) else d)
            ≡ Option.map job_to_doc (if b then some job else o)
      written o true e = refl
      written o false e = e

  -- Whatever is created and updated, and in whatever order: a client that keeps to Firestore's
  -- documentation, on a collection that represents a dictionary of jobs under their ids, afterwards
  -- reads the same job under every id as the in-memory repository after the same writes, and lists,
  -- for any statuses and for any user, the same jobs, each once. Its listings are oldest first; so is
  -- the in-memory one by statuses, while the in-memory one of a user may be in another order.
  pub run-ActsAs :
      (writes : List Write) (c : C) (jobs : Dict Job)
      → Represents client c jobs
      → IsKeyed job_id jobs
      → ActsAs client (run_client client writes c) (run_memory writes jobs)
  unfolding Memory.create Memory.update create update
  run-ActsAs [] c jobs r k = represents-ActsAs client documented c jobs r k
  run-ActsAs (creates job ∷ writes) c jobs r k =
      run-ActsAs writes (client.set_doc c job.id (job_to_doc job)) (Dict.put jobs job.id job)
        (write-Represents c jobs job r) (put-IsKeyed job_id jobs job.id job k refl)
  run-ActsAs (updates job ∷ writes) c jobs r k =
      run-ActsAs writes (client.set_doc c job.id (job_to_doc job)) (Dict.put jobs job.id job)
        (write-Represents c jobs job r) (put-IsKeyed job_id jobs job.id job k refl)
