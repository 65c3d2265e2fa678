-- ===== src/Repository/Firestore/JobRefinement.antt =====
-- The Firestore repository does what the in-memory one does.
use mathlib.Core.Option
use phyai_saas_train_vla.Prelude.{
  ◌≡◌, refl, sym, ◌∙◌, ap, ap₂, All-imp, All-and, String, Bool, true, Option, none, some, List, [],
  ◌∷◌, map, arith, eq_iff, ok, ◌==◌, text_eq, any, contains, All, IsSorted, ◌≢◌, ◌≤◌,
}
use phyai_saas_train_vla.Dict
use phyai_saas_train_vla.Dict.{Dict, get-put}
use phyai_saas_train_vla.Dict.Keyed.{IsKeyed, Stored, IsDistinct, get-IsKeyed}
use phyai_saas_train_vla.Common.Models.{
  JobStatus, status_eq, status_eq_iff, status_value, is_in, Job,
}
use phyai_saas_train_vla.Common.Errors.{Checked}
use phyai_saas_train_vla.Repository.Jobs.{job_id, created}
use phyai_saas_train_vla.Repository.Sweep.{mentions}
use phyai_saas_train_vla.Repository.Firestore.{
  Document, Row, row_id, row_created, selects, Client, IsFirestore,
}
use phyai_saas_train_vla.Repository.Firestore.Codec.{to_status, job_to_doc}
use phyai_saas_train_vla.Repository.Firestore.RoundTrip.{to_status-value, doc_to_job-job_to_doc}
use phyai_saas_train_vla.Repository.Firestore.Jobs.{read_all}

-- What is asked of a listing: the stored jobs that fit, each once, oldest first.
pub record Lists (jobs : Dict Job) (fits : Job → Bool) (found : List Job) : Type 0 where
  pub stored : All (λ job. Stored job_id jobs job × (fits job ≡ true)) found
  pub complete :
      (job : Job) → Stored job_id jobs job → fits job ≡ true → mentions job.id found ≡ true
  pub distinct : IsDistinct job_id found
  pub oldest_first : IsSorted created found

abbrev row_of : Job → Row
row_of job = (job.id, job_to_doc job)

any-map :
    (k : String) (found : List Job)
    → any (λ (row : Row). row.0 == k) (map row_of found) ≡ mentions k found
any-map k [] = refl
any-map k (job ∷ found) = ground (arith, any-map k found)

IsDistinct-map : (found : List Job) → IsDistinct row_id (map row_of found) → IsDistinct job_id found
IsDistinct-map [] d = tt
IsDistinct-map (job ∷ found) d = (apart job found d.0, IsDistinct-map found d.1)
  where
    apart :
        (job : Job) (found : List Job)
        → All (λ row. job.id ≢ row_id row) (map row_of found)
        → All (λ j. job.id ≢ j.id) found
    apart job [] a = tt
    apart job (j ∷ js) a = (a.0, apart job js a.1)

IsSorted-map : (found : List Job) → IsSorted row_created (map row_of found) → IsSorted created found
unfolding job_to_doc
IsSorted-map [] s = tt
IsSorted-map (job ∷ found) s = (below job found s.0, IsSorted-map found s.1)
  where
    below :
        (job : Job) (found : List Job)
        → All (λ row. job.created_at ≤ row_created row) (map row_of found)
        → All (λ j. job.created_at ≤ j.created_at) found
    below job [] a = tt
    below job (j ∷ js) a = (a.0, below job js a.1)

bool_iff : (a b : Bool) → (a ≡ true → b ≡ true) → (b ≡ true → a ≡ true) → a ≡ b
bool_iff a b h k = ground arith

ok_injective : {s t : JobStatus} → ◌≡◌ {A = Checked JobStatus} (ok s) (ok t) → s ≡ t
ok_injective e = cc

same_value : (s t : JobStatus) → (status_value s == status_value t) ≡ (s == t)
same_value s t =
    bool_iff (status_value s == status_value t) (s == t)
      (λ h. (status_eq_iff s t).1 (injective ((eq_iff (status_value s) (status_value t)).0 h)))
      (λ h.
        (eq_iff (status_value s) (status_value t)).1 (ap status_value ((status_eq_iff s t).0 h)))
  where
    injective : status_value s ≡ status_value t → s ≡ t
    injective e = ok_injective (sym (to_status-value s) ∙ ap to_status e ∙ to_status-value t)

pub contains-status :
    (statuses : List JobStatus) (status : JobStatus)
    → contains (map status_value statuses) (status_value status) ≡ is_in statuses status
contains-status [] status = refl
contains-status (s ∷ statuses) status =
    rw (same_value s status, contains-status statuses status) refl

pub contains-one :
    (user_id : String) (job : Job) → contains (user_id ∷ []) job.user_id ≡ (job.user_id == user_id)
contains-one user_id job = ground (arith, eq_iff user_id job.user_id, eq_iff job.user_id user_id)

-- The collection holds the document of every stored job, and no other.
pub record Represents {C : Type 0} (client : Client C) (c : C) (jobs : Dict Job) : Type 0 where
  pub same : (id : String) → client.get_doc c id ≡ Option.map job_to_doc (Dict.get jobs id)

record Reads (jobs : Dict Job) (rows : List Row) : Type 0 where
  found : List Job
  rows_eq : rows ≡ map row_of found
  result : read_all rows ≡ ok found
  stored : All (Stored job_id jobs) found

module _ {C : Type 0} (client : Client C) (documented : IsFirestore client) (c : C)
    (jobs : Dict Job) (represents : Represents client c jobs) (keyed : IsKeyed job_id jobs) where
  some_document :
      (doc : Document) (o : Option Job)
      → some doc ≡ Option.map job_to_doc o
      → (job : Job) × (o ≡ some job) × (doc ≡ job_to_doc job)
  some_document doc none e = cc
  some_document doc (some job) e = (job, refl, cc)

  row-job :
      (row : Row)
      → client.get_doc c row.0 ≡ some row.1
      → (job : Job) × (row ≡ row_of job) × Stored job_id jobs job
  row-job (id, doc) e =
      let (job, there, doc_eq) =
        some_document doc (Dict.get jobs id) (sym e ∙ represents.same id) in
      let id_eq = get-IsKeyed job_id jobs id job keyed there in
      (job, ap₂ (λ k d. (k, d)) (sym id_eq) doc_eq, rw id_eq there)

  read_all-Reads :
      (rows : List Row)
      → All (λ (row : Row). client.get_doc c row.0 ≡ some row.1) rows
      → Reads jobs rows
  read_all-Reads [] h = record { found = []; rows_eq = refl; result = refl; stored = tt }
  read_all-Reads (row ∷ rows) h =
      let (job, row_eq, there) = row-job row h.0 in
      let rest = read_all-Reads rows h.1 in
      record {
        found = job ∷ rest.found;
        rows_eq = ap₂ ◌∷◌ row_eq rest.rows_eq;
        result = rw (row_eq, doc_to_job-job_to_doc job, rest.result) refl;
        stored = (there, rest.stored);
      }

  -- A query whose condition means `fits` on the documents of jobs lists the jobs that fit.
  pub query-Lists :
      (key : String) (values : List String) (fits : Job → Bool)
      → ((job : Job) → selects key values (job_to_doc job) ≡ fits job)
      → (found : List Job) × (read_all (client.stream c key values) ≡ ok found)
        × Lists jobs fits found
  query-Lists key values fits means =
      let answer = documented.answers c key values in
      let read =
        read_all-Reads (client.stream c key values)
          (All-imp _ _ (λ row h. h.0) (client.stream c key values) answer.given) in
      (
        read.found,
        read.result,
        record {
          stored =
              All-and (Stored job_id jobs) (λ job. fits job ≡ true) read.found read.stored
                (chosen read.found (rw read.rows_eq at answer.given));
          complete = λ job there wanted.
              sym (any-map job.id read.found)
              ∙ (rw read.rows_eq at (
                  answer.complete job.id (job_to_doc job)
                    (represents.same job.id ∙ ap (Option.map job_to_doc) there)
                    (means job ∙ wanted)));
          distinct = IsDistinct-map read.found (rw read.rows_eq at answer.distinct);
          oldest_first = IsSorted-map read.found (rw read.rows_eq at answer.ordered);
        },
      )
    where
      chosen :
          (found : List Job)
          → All
              (λ (row : Row).
                (client.get_doc c row.0 ≡ some row.1) × (selects key values row.1 ≡ true))
              (map row_of found)
          → All (λ job. fits job ≡ true) found
      chosen [] h = tt
      chosen (job ∷ found) h = (sym (means job) ∙ h.0.1, chosen found h.1)
