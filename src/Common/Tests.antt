-- ===== src/Common/Tests.antt =====
-- The theorems on the domain rules at concrete inputs, and runs of the rules.
use phyai_saas_train_vla.Prelude.{
  ◌+◌, ◌<◌, ◌≤◌, ◌≡◌, ◌↔◌, refl, true, false, some, [], ◌∷◌, pos, arith, ok, err, text_eq,
}
use phyai_saas_train_vla.Samples.{alice, waiting_job, finished_job}
use phyai_saas_train_vla.Common.Float.{nan}
use phyai_saas_train_vla.Common.Models.{queued, initializing, completed, smolvla, Progress}
use phyai_saas_train_vla.Common.Errors.{invalid_transition}
use phyai_saas_train_vla.Common.StateMachine.{transition}
use phyai_saas_train_vla.Common.StateMachine.Graph.{
  ◌⟶◌, transition_exact, Transitions, none_yet, one_more, Transitions-le, rank,
}
use phyai_saas_train_vla.Common.Heartbeat.{progress_changed}
use phyai_saas_train_vla.Common.Quota.{can_create_job, effective_daily_used}
use phyai_saas_train_vla.Common.Quota.Daily.{starts_exhaust_quota, start_all, repeat_day}
use phyai_saas_train_vla.Common.Validation.{
  ZipEntryMeta, default_limits, check_decompression_bomb, success,
}
use phyai_saas_train_vla.Common.PolicyShapes.{
  Fields, end, field, null, object, field_names, has_visual_feature, check_policy_compatibility,
}
use phyai_saas_train_vla.Common.PolicyShapes.Exact.{Needs, check_policy_compatibility_iff}

transition_exact_example :
    ((transition waiting_job completed 7
        ≡ ok (record waiting_job { status = completed; updated_at = 7 }))
      ↔ (queued ⟶ completed))
    × ((transition waiting_job completed 7 ≡ err (invalid_transition queued completed))
        ↔ ¬ (queued ⟶ completed))
transition_exact_example = transition_exact waiting_job completed 7

one_step : Transitions waiting_job (record waiting_job { status = initializing; updated_at = 7 }) 1
unfolding transition
one_step = one_more initializing 7 none_yet refl

Transitions-le_example : 1 + rank queued ≤ 3
Transitions-le_example = Transitions-le one_step

starts_exhaust_quota_example :
    (((can_create_job (start_all alice (repeat_day 1 1)) (finished_job ∷ []) 1).allowed ≡ true)
      ↔ (1 + effective_daily_used alice 1 < 10))
    × ((can_create_job (start_all alice (repeat_day 2 1)) (finished_job ∷ []) 2).allowed ≡ true)
unfolding can_create_job
starts_exhaust_quota_example =
    starts_exhaust_quota 1 alice (finished_job ∷ []) 1 2 refl (λ e. omega arith)

abbrev entry : ZipEntryMeta
entry = record { name = "data/a.parquet"; uncompressed_size = 629145600 }

large_file_refused : (check_decompression_bomb (entry ∷ []) default_limits).ok ≡ false
unfolding check_decompression_bomb
large_file_refused = refl

abbrev features : Fields
features =
    field "observation.state" null (field "action" null (field "observation.images.top" null end))

abbrev info : Fields
info = field "features" (object features) end

check_policy_compatibility_iff_example :
    (check_policy_compatibility (object info) smolvla ≡ ok success)
    ↔ Needs smolvla (field_names features)
check_policy_compatibility_iff_example = check_policy_compatibility_iff info features smolvla refl

accepted : check_policy_compatibility (object info) smolvla ≡ ok success
unfolding check_policy_compatibility has_visual_feature
accepted = refl

-- Every progress with a loss that is no number counts as a change.
abbrev lost : Progress
lost = record { step = pos 3; total_steps = pos 10; loss = nan; updated_at = 0 }

nan_changes : progress_changed (some lost) lost ≡ true
unfolding progress_changed
nan_changes = refl
