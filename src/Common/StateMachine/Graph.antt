-- ===== src/Common/StateMachine/Graph.antt =====
-- The diagram of the job statuses: what the transitions may do, and that they come to an end.
use phyai_saas_train_vla.Prelude.{ℕ, suc, ◌+◌, ◌≤◌, ◌<◌, ◌≡◌, ◌≢◌, refl, ◌↔◌, true, ok, err, arith}
use phyai_saas_train_vla.Common.Models.{
  JobStatus, queued, initializing, training, completed, failed, cancelled, DateTime, Job, status_eq,
}
use phyai_saas_train_vla.Common.Errors.{invalid_transition, cancel_not_allowed}
use phyai_saas_train_vla.Common.StateMachine.{can_transition, transition, request_cancel}

-- The module's comment as a relation: queued, initializing, training, completed, with failure from
-- the two statuses that have a container and cancellation from the three that are active.
infix 40 ◌⟶◌
pub data ◌⟶◌ : JobStatus → JobStatus → Type 0 where
  start : queued ⟶ initializing
  train : initializing ⟶ training
  complete : training ⟶ completed
  fail_early : initializing ⟶ failed
  fail_late : training ⟶ failed
  cancel_queued : queued ⟶ cancelled
  cancel_early : initializing ⟶ cancelled
  cancel_late : training ⟶ cancelled

ruleset edges =
    (start, train, complete, fail_early, fail_late, cancel_queued, cancel_early, cancel_late)

-- How far a status is from the start.
abbrev pub rank : JobStatus → ℕ
rank queued = 0
rank initializing = 1
rank training = 2
rank completed = 3
rank failed = 3
rank cancelled = 3

can_transition-edge : (s t : JobStatus) → can_transition s t ≡ true → s ⟶ t
unfolding can_transition
can_transition-edge s t h = grind (arith, edges)

edge-can_transition : {s t : JobStatus} → s ⟶ t → can_transition s t ≡ true
unfolding can_transition
edge-can_transition start = refl
edge-can_transition train = refl
edge-can_transition complete = refl
edge-can_transition fail_early = refl
edge-can_transition fail_late = refl
edge-can_transition cancel_queued = refl
edge-can_transition cancel_early = refl
edge-can_transition cancel_late = refl

module _ (job : Job) (to_status : JobStatus) (now : DateTime) where
  pub allowed :
      can_transition job.status to_status ≡ true
      → transition job to_status now ≡ ok (record job { status = to_status; updated_at = now })
  unfolding transition
  allowed h = ground arith

  refused :
      can_transition job.status to_status ≢ true
      → transition job to_status now ≡ err (invalid_transition job.status to_status)
  unfolding transition
  refused h = ground arith

  of_ok :
      {next : Job}
      → transition job to_status now ≡ ok next
      → can_transition job.status to_status ≡ true
  unfolding transition
  of_ok h = ground arith

  -- `transition` returns the job with the new status and the time of the change, and otherwise as it
  -- was, exactly along an edge of the diagram, and raises an error that names both statuses exactly
  -- where there is none.
  pub transition_exact :
      ((transition job to_status now ≡ ok (record job { status = to_status; updated_at = now }))
        ↔ (job.status ⟶ to_status))
      × ((transition job to_status now ≡ err (invalid_transition job.status to_status))
          ↔ ¬ (job.status ⟶ to_status))
  transition_exact = (
    (λ h. can_transition-edge job.status to_status (of_ok h), λ e. allowed (edge-can_transition e)),
    (
      λ h e. cc (h, allowed (edge-can_transition e)),
      λ n. refused (λ h. n (can_transition-edge job.status to_status h)),
    ),
  )

-- A successful transition leads away from the start, and changes the status and the time alone.
pub transition-ok :
    (job : Job) (to_status : JobStatus) (now : DateTime) {next : Job}
    → transition job to_status now ≡ ok next
    → (next ≡ record job { status = to_status; updated_at = now })
      × (rank job.status < rank next.status)
unfolding transition
transition-ok job to_status now h = ground arith

rank-le : (s : JobStatus) → rank s ≤ 3
rank-le s = ground arith

-- The chain of status changes that a list of targets and times asks for.
pub data Transitions : Job → Job → ℕ → Type 0 where
  none_yet : {job : Job} → Transitions job job 0
  one_more :
      {first job next : Job} {n : ℕ} (to_status : JobStatus) (now : DateTime)
      → Transitions first job n
      → transition job to_status now ≡ ok next
      → Transitions first next (suc n)

Transitions-rank :
    {first last : Job} {n : ℕ} → Transitions first last n → n + rank first.status ≤ rank last.status
Transitions-rank none_yet = omega arith
Transitions-rank (one_more {job = job} to_status now r e) =
    omega (arith, Transitions-rank r, (transition-ok job to_status now e).1)

-- A chain of transitions is no longer than the first status is away from the end: three from a
-- queued job, none from one that is completed, failed or cancelled.
pub Transitions-le :
    {first last : Job} {n : ℕ} → Transitions first last n → n + rank first.status ≤ 3
Transitions-le {first} {last} r = omega (arith, Transitions-rank r, rank-le last.status)

module _ (job : Job) (now : DateTime) where
  may_cancel :
      {next : Job} → request_cancel job now ≡ ok next → can_transition job.status cancelled ≡ true
  unfolding request_cancel can_transition
  may_cancel h = ground arith

  cancels :
      can_transition job.status cancelled ≡ true
      → request_cancel job now ≡ ok (record job { cancel_requested = true; updated_at = now })
  unfolding request_cancel can_transition
  cancels h = ground arith

  cancel_refused :
      can_transition job.status cancelled ≢ true
      → request_cancel job now ≡ err (cancel_not_allowed job.status)
  unfolding request_cancel can_transition
  cancel_refused h = ground arith

-- A request to cancel succeeds exactly in the statuses from which a job may become cancelled, and
-- then sets the flag and the time of change alone; in any other status it raises an error with it.
pub request_cancel_exact :
    (job : Job) (now : DateTime)
    → ((request_cancel job now ≡ ok (record job { cancel_requested = true; updated_at = now }))
        ↔ (job.status ⟶ cancelled))
      × ((request_cancel job now ≡ err (cancel_not_allowed job.status))
          ↔ ¬ (job.status ⟶ cancelled))
request_cancel_exact job now = (
  (
    λ h. can_transition-edge job.status cancelled (may_cancel job now h),
    λ e. cancels job now (edge-can_transition e),
  ),
  (
    λ h e. cc (h, cancels job now (edge-can_transition e)),
    λ n. cancel_refused job now (λ h. n (can_transition-edge job.status cancelled h)),
  ),
)
