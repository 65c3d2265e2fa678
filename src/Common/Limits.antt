-- ===== src/Common/Limits.antt =====
-- common/domain/limits.py: the number of training steps.
use phyai_saas_train_vla.Prelude.{
  ℕ, ◌≤◌, ◌≡◌, ◌↔◌, true, [], ◌∷◌, arith, if◌then◌else◌, ℤ, pos, negsuc, ltb_ℤ, show_nat, format,
}
use phyai_saas_train_vla.Common.Validation.{ValidationResult, success, failure}

abbrev pub max_training_steps : ℕ
max_training_steps = 20000

abbrev pub min_training_steps : ℕ
min_training_steps = 1

unfoldable pub validate_training_steps : ℤ → ValidationResult
validate_training_steps steps =
    if ltb_ℤ steps (pos min_training_steps)
    then failure "Training steps must be a positive integer"
    else if ltb_ℤ (pos max_training_steps) steps
    then failure
        (format ("Training steps exceeds the maximum of " ∷ show_nat max_training_steps ∷ []))
    else success

-- The steps that a training run may have.
abbrev pub StepsInRange : ℤ → Type 0
StepsInRange (pos n) = (1 ≤ n) × (n ≤ 20000)
StepsInRange (negsuc n) = ⊥

-- The number of steps is accepted exactly when it lies between 1 and 20000.
pub validate_training_steps_iff :
    (steps : ℤ) → ((validate_training_steps steps).ok ≡ true) ↔ StepsInRange steps
unfolding validate_training_steps
validate_training_steps_iff (pos n) = ground arith
validate_training_steps_iff (negsuc n) = ground arith
