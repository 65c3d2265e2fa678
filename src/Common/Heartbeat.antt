-- ===== src/Common/Heartbeat.antt =====
-- common/domain/heartbeat.py: when a job counts as timed out, and when progress counts as change.
use phyai_saas_train_vla.Prelude.{
  ℕ, ◌+◌, ◌-◌, ◌*◌, ◌<◌, ◌≡◌, ◌↔◌, ◌⊎◌, Bool, true, false, not, ◌&&◌, Option, none, some, arith,
  ltb, ℤ, pos, negsuc, eqb,
}
use phyai_saas_train_vla.Common.Float.{float_eq}
use phyai_saas_train_vla.Common.Models.{JobStatus, initializing, training, DateTime, Progress}

abbrev minutes : ℕ → ℕ
minutes n = n * 60 * 1000000

abbrev pub initializing_timeout : ℕ
initializing_timeout = minutes 5

abbrev pub training_timeout : ℕ
training_timeout = minutes 2

unfoldable pub timeout_for_status : JobStatus → Option ℕ
timeout_for_status initializing = some initializing_timeout
timeout_for_status training = some training_timeout
timeout_for_status _ = none

-- The thresholds are not negative, so `-` may stop at 0 for a heartbeat that lies ahead of `now`.
past_threshold : Option ℕ → Option DateTime → DateTime → Bool
past_threshold none heartbeat_at now = false
past_threshold (some threshold) none now = false
past_threshold (some threshold) (some at) now = ltb threshold (now - at)

unfoldable pub is_timed_out : JobStatus → Option DateTime → DateTime → Bool
unfolding timeout_for_status past_threshold
is_timed_out status heartbeat_at now = past_threshold (timeout_for_status status) heartbeat_at now

abbrev pub int_eq : ℤ → ℤ → Bool
int_eq (pos a) (pos b) = eqb a b
int_eq (negsuc a) (negsuc b) = eqb a b
int_eq _ _ = false

-- The comparison of the two tuples is by value: the previous loss is read from the job's document
-- and the current one from the file, so they are not one object.
unfoldable pub progress_changed : Option Progress → Progress → Bool
progress_changed none current = true
progress_changed (some previous) current =
    not (int_eq previous.step current.step && float_eq previous.loss current.loss)

-- A job is timed out exactly when it has a heartbeat, is initializing or training, and the
-- heartbeat is more than five minutes old while it initializes, more than two while it trains.
pub is_timed_out_iff :
    (status : JobStatus) (at now : DateTime)
    → (is_timed_out status (some at) now ≡ true) ↔ (
        ((status ≡ initializing) × (at + 300000000 < now))
        ⊎ ((status ≡ training) × (at + 120000000 < now)))
unfolding is_timed_out
is_timed_out_iff status at now = ground arith
