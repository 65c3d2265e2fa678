-- ===== src/Common/StateMachine.antt =====
-- common/domain/job_state_machine.py: which status a job may move to, and requests to cancel it.
pub mod Graph
use phyai_saas_train_vla.Prelude.{Bool, true, List, [], ◌∷◌, ok, err, not, contains, if◌then◌else◌}
use phyai_saas_train_vla.Common.Models.{
  JobStatus, queued, initializing, training, completed, failed, cancelled, status_eq,
  active_statuses, is_in, DateTime, Job,
}
use phyai_saas_train_vla.Common.Errors.{Checked, invalid_transition, cancel_not_allowed}

abbrev pub allowed_transitions : JobStatus → List JobStatus
allowed_transitions queued = initializing ∷ cancelled ∷ []
allowed_transitions initializing = training ∷ failed ∷ cancelled ∷ []
allowed_transitions training = completed ∷ failed ∷ cancelled ∷ []
allowed_transitions completed = []
allowed_transitions failed = []
allowed_transitions cancelled = []

unfoldable pub can_transition : JobStatus → JobStatus → Bool
can_transition from_status to_status = is_in (allowed_transitions from_status) to_status

unfoldable pub transition : Job → JobStatus → DateTime → Checked Job
unfolding can_transition
transition job to_status now =
    if not (can_transition job.status to_status)
    then err (invalid_transition job.status to_status)
    else ok (record job { status = to_status; updated_at = now })

unfoldable pub can_request_cancel : JobStatus → Bool
can_request_cancel status = is_in active_statuses status

unfoldable pub request_cancel : Job → DateTime → Checked Job
unfolding can_request_cancel
request_cancel job now =
    if not (can_request_cancel job.status)
    then err (cancel_not_allowed job.status)
    else ok (record job { cancel_requested = true; updated_at = now })
