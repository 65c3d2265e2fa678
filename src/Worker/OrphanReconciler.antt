-- ===== src/Worker/OrphanReconciler.antt =====
-- worker/orphan_reconciler.py: what runs on the host at the start of the worker, beside the jobs. A
-- set is a list here; the order in which Python goes through it is a parameter.
mod Sets
pub mod Single
use Prim.Native.String.{compare}
use text.Mathlib.Text.{is_le}
use phyai_saas_train_vla.Prelude.{
  String, Bool, true, false, not, Option, none, some, List, [], ◌∷◌, contains, filter, Result, ok,
  err, Exec, pure, gets, ◌>>=◌, ◌>>◌, ◌==◌, text_eq, if◌then◌else◌,
}
use phyai_saas_train_vla.Common.Models.{JobStatus, initializing, training, Job}
use phyai_saas_train_vla.Common.Errors.{Error}
use phyai_saas_train_vla.Repository.Jobs
use phyai_saas_train_vla.Worker.Ports.{Host, Action, call}

abbrev pub reconciled_statuses : List JobStatus
reconciled_statuses = initializing ∷ training ∷ []

pub record ReconciliationResult : Type 0 where
  pub resumed_jobs : List Job
  pub killed_orphan_container_ids : List String

-- The two calls of the Docker client.
pub record Docker (W : Type 0) : Type 0 where
  pub list_running_container_ids : Exec W Error (List String)
  pub kill : String → Exec W Error (Unit {0})

-- `set(...)`
abbrev pub distinct : List String → List String
distinct [] = []
distinct (s ∷ rest) = let seen = distinct rest in if contains seen s then seen else s ∷ seen

-- `{job.container_id for job in tracked_jobs if job.container_id}`
unfoldable pub tracked_container_ids : List Job → List String
tracked_container_ids [] = []
tracked_container_ids (job ∷ jobs) =
    let ids = tracked_container_ids jobs in
    elim job.container_id [ none ↦ ids | some id ↦ if id == "" then ids else id ∷ ids ]

-- `job.container_id in running_container_ids`
abbrev pub is_resumed : List String → Job → Bool
is_resumed running job = elim job.container_id [ none ↦ false | some id ↦ contains running id ]

-- `sorted` of texts, by code points.
abbrev pub insert_text : String → List String → List String
insert_text s [] = s ∷ []
insert_text s (t ∷ rest) =
    let placed = insert_text s rest in if is_le (compare s t) then s ∷ t ∷ rest else t ∷ placed

abbrev pub sorted_texts : List String → List String
sorted_texts [] = []
sorted_texts (s ∷ rest) = insert_text s (sorted_texts rest)

-- `running_container_ids - tracked_container_ids`
unfoldable pub orphan_ids : List String → List Job → List String
orphan_ids running tracked =
    filter (λ id. not (contains (tracked_container_ids tracked) id)) (distinct running)

module _ {W : Type 0} (docker : Docker W) where
  unfoldable pub kill_each : List String → Exec W Error (Unit {0})
  kill_each [] = pure tt
  kill_each (id ∷ ids) = do docker.kill id; kill_each ids

  unfoldable pub reconcile : (List String → List String) → Action W ReconciliationResult
  reconcile in_set_order = do
    running ← call docker.list_running_container_ids
    tracked ← gets (λ (h : Host W). Jobs.list_by_statuses h.db.jobs reconciled_statuses)
    call (kill_each (in_set_order (orphan_ids running tracked)))
    pure (record {
      resumed_jobs = filter (is_resumed running) tracked;
      killed_orphan_container_ids = sorted_texts (orphan_ids running tracked);
    })
