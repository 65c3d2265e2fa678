-- ===== src/Common/PolicyShapes/Exact.antt =====
-- Which datasets the compatibility check accepts.
use phyai_saas_train_vla.Prelude.{
  ◌≡◌, ◌↔◌, ◌⊎◌, true, Option, none, some, String, List, ok, arith, contains, text_eq,
}
use phyai_saas_train_vla.Common.Models.{PolicyType, act, smolvla}
use phyai_saas_train_vla.Common.Validation.{success}
use phyai_saas_train_vla.Common.PolicyShapes.{
  Json, object, Fields, field_get, field_names, has_visual_feature, check_features,
  check_policy_compatibility,
}

-- What a policy needs among the names of the features.
abbrev pub Needs : PolicyType → List String → Type 0
Needs act names =
    (contains names "observation.state" ≡ true)
    × (contains names "action" ≡ true)
    × ((has_visual_feature names ≡ true) ⊎ (contains names "observation.environment_state" ≡ true))
Needs smolvla names =
    (contains names "observation.state" ≡ true)
    × (contains names "action" ≡ true)
    × (has_visual_feature names ≡ true)

-- For metadata whose `features` entry is a map, the check succeeds exactly when the map has the two
-- features that every policy needs and, for SmolVLA, a visual one, for ACT, a visual one or the
-- environment's state.
pub check_policy_compatibility_iff :
    (info features : Fields) (policy : PolicyType)
    → field_get info "features" ≡ some (object features)
    → (check_policy_compatibility (object info) policy ≡ ok success)
      ↔ Needs policy (field_names features)
unfolding check_policy_compatibility
check_policy_compatibility_iff info features act e = rw e (ground arith)
check_policy_compatibility_iff info features smolvla e = rw e (ground arith)

features_smolvla-act :
    (features : Option Json)
    → check_features features smolvla ≡ success
    → check_features features act ≡ success
unfolding check_features
features_smolvla-act none h = ground arith
features_smolvla-act (some (object features)) h = ground arith
features_smolvla-act (some _) h = cc

-- A dataset that is good for SmolVLA is good for ACT.
pub smolvla-act :
    (info : Json)
    → check_policy_compatibility info smolvla ≡ ok success
    → check_policy_compatibility info act ≡ ok success
unfolding check_policy_compatibility
smolvla-act (object info) h = ground (arith, features_smolvla-act (field_get info "features"))
smolvla-act _ h = cc
