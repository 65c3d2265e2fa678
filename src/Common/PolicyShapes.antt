-- ===== src/Common/PolicyShapes.antt =====
-- common/domain/policy_shapes.py: whether a dataset has the features that a policy takes in.
-- `json.loads` is a parameter of its users; what it returns is a `Json`.
pub mod Exact
use phyai_saas_train_vla.Prelude.{
  ℕ, ◌≡◌, refl, ◌↔◌, ◌≢◌, String, Bool, true, false, not, ◌&&◌, ◌||◌, Option, none, some, List, [],
  ◌∷◌, arith, Result, ok, err, starts_with, ◌==◌, text_eq, any, contains, if◌then◌else◌, ℤ, format,
}
pub use phyai_saas_train_vla.Common.Json.{
  Json, Items, Fields, null, bool, integer, real, text, array, object, nil, cons, end, field,
  field_names, field_get,
}
use phyai_saas_train_vla.Common.Models.{PolicyType, act, smolvla, policy_value}
use phyai_saas_train_vla.Common.Errors.{Error, Checked, attribute_error, invalid_info_json}
use phyai_saas_train_vla.Common.Validation.{ValidationResult, success, failure}

pub record PolicyRequirement : Type 0 where
  pub required_features : List String
  pub requires_visual_feature : Bool
  pub requires_visual_or_env_state : Bool

abbrev pub policy_requirements : PolicyType → PolicyRequirement
policy_requirements act = record {
  required_features = "observation.state" ∷ "action" ∷ [];
  requires_visual_feature = false;
  requires_visual_or_env_state = true;
}
policy_requirements smolvla = record {
  required_features = "observation.state" ∷ "action" ∷ [];
  requires_visual_feature = true;
  requires_visual_or_env_state = false;
}

abbrev visual_feature_prefixes : List String
visual_feature_prefixes = "observation.image" ∷ "observation.images" ∷ []

abbrev pub env_state_feature : String
env_state_feature = "observation.environment_state"

unfoldable pub has_visual_feature : List String → Bool
has_visual_feature features =
    any (λ feature_name. any (λ prefix. starts_with feature_name prefix) visual_feature_prefixes)
      features

-- `parse_info_json`, over what `json.loads` returned, or the text of its decoding error.
unfoldable pub parse_info_json : Result String Json → Checked Json
parse_info_json (err message) = err (invalid_info_json message)
parse_info_json (ok json) = ok json

-- The loop over the required features returns at the first that is missing.
first_missing : List String → List String → Option String
first_missing [] features = none
first_missing (name ∷ names) features =
    let rest = first_missing names features in
    if not (contains features name) then some name else rest

visual_checks : PolicyRequirement → PolicyType → List String → ValidationResult
visual_checks requirement policy features =
    if requirement.requires_visual_feature && not (has_visual_feature features)
    then failure (
        format (
          "Policy '"
          ∷ policy_value policy
          ∷ "' requires at least one visual observation feature"
          ∷ []))
    else if requirement.requires_visual_or_env_state
        && (not (has_visual_feature features) && not (contains features env_state_feature))
    then failure (
        format (
          "Policy '"
          ∷ policy_value policy
          ∷ "' requires at least one visual observation feature or the '"
          ∷ env_state_feature
          ∷ "' feature"
          ∷ []))
    else success

missing_check : Option String → PolicyRequirement → PolicyType → List String → ValidationResult
missing_check (some name) requirement policy features = failure (
    format (
      "Dataset is missing feature '"
      ∷ name
      ∷ "' required by policy '"
      ∷ policy_value policy
      ∷ "'"
      ∷ []))
missing_check none requirement policy features = visual_checks requirement policy features

check_features : Option Json → PolicyType → ValidationResult
unfolding first_missing missing_check visual_checks
check_features none policy =
    missing_check (first_missing (policy_requirements policy).required_features [])
      (policy_requirements policy) policy []
check_features (some (object features)) policy =
    missing_check
      (first_missing (policy_requirements policy).required_features (field_names features))
      (policy_requirements policy) policy (field_names features)
check_features (some _) policy = failure "meta/info.json is missing a valid 'features' map"

abbrev no_get : String → Error
no_get type = attribute_error (format ("'" ∷ type ∷ "' object has no attribute 'get'" ∷ []))

-- `info.get` exists on a dictionary alone: any other value raises.
unfoldable pub check_policy_compatibility : Json → PolicyType → Checked ValidationResult
unfolding check_features
check_policy_compatibility (object info) policy =
    ok (check_features (field_get info "features") policy)
check_policy_compatibility null policy = err (no_get "NoneType")
check_policy_compatibility (bool b) policy = err (no_get "bool")
check_policy_compatibility (integer n) policy = err (no_get "int")
check_policy_compatibility (real x) policy = err (no_get "float")
check_policy_compatibility (text s) policy = err (no_get "str")
check_policy_compatibility (array items) policy = err (no_get "list")
