-- ===== src/Training.antt =====
-- The training programs of docker/act/train_entrypoint.py and docker/smolvla/train_entrypoint.py,
-- which differ in the policy they build: the loop, the progress file and the end of a run. What they
-- call of torch and lerobot, of the file system and the clocks is a parameter.
pub mod Timing
pub mod Pace
mod Tests
use phyai_saas_train_vla.Prelude.{
  pos, ℕ, zero, suc, ◌+◌, ◌*◌, ◌/◌, ◌%◌, String, Bool, true, false, not, ◌||◌, Option, none, some,
  List, [], ◌∷◌, Result, ok, err, Exec, pure, raise, gets, raise_if, ◌>>=◌, ◌>>◌, format, leb, eqb,
  ltb, if◌then◌else◌,
}
use phyai_saas_train_vla.Common.Float.{Float}
use phyai_saas_train_vla.Common.Json.{Json, integer, real, text, object, end, field}
use phyai_saas_train_vla.Common.Errors.{Error, file_not_found}

-- The object that is written to progress.json.
abbrev pub progress_file : (step total_steps : ℕ) (loss : Float) (timestamp : String) → Json
progress_file step total_steps loss timestamp = object (
    field "step" (integer (pos step)) (
      field "total_steps" (integer (pos total_steps))
        (field "loss" (real loss) (field "timestamp" (text timestamp) end))))

-- A policy with its dataset, for batches `B` and losses `L`. `lr_step` and `update` are there or not,
-- as the policy is; the clock is in microseconds and never goes back.
pub record Trainer (W B L : Type 0) : Type 0 where
  pub prepare : Exec W Error (Unit {0})
  pub camera_keys : List String
  pub next_batch : Exec W Error B
  pub is_uint8 : String → B → Bool
  pub scaled : String → B → B
  pub preprocess : B → Exec W Error B
  pub forward : B → Exec W Error L
  pub backward : L → Exec W Error (Unit {0})
  pub clip_grad_norm : Exec W Error (Unit {0})
  pub optimizer_step : Exec W Error (Unit {0})
  pub zero_grad : Exec W Error (Unit {0})
  pub lr_step : Option (Exec W Error (Unit {0}))
  pub update : Option (Exec W Error (Unit {0}))
  pub item : L → Float
  pub eval : Exec W Error (Unit {0})
  pub monotonic : W → ℕ × W
  pub utc_text : W → String × W
  pub dumps : Json → String
  pub write_text : String → String → Exec W Error (Unit {0})
  pub replace : String → String → Exec W Error (Unit {0})

abbrev pub max_between_writes : ℕ
max_between_writes = 60 * 1000000

abbrev pub reading : {W A : Type 0} → (W → A × W) → Exec W Error A
reading f w = let (a, w') = f w in (ok a, w')

-- `max(1, total_steps // 200)`
abbrev pub progress_every : ℕ → ℕ
progress_every total_steps = if ltb (total_steps / 200) 1 then 1 else total_steps / 200

abbrev pub is_write_due : (total_steps step last_write_at now : ℕ) → Bool
is_write_due total_steps step last_write_at now =
    eqb (step % progress_every total_steps) 0
    || eqb step total_steps
    || leb (last_write_at + max_between_writes) now

abbrev pub if_there : {W : Type 0} → Option (Exec W Error (Unit {0})) → Exec W Error (Unit {0})
if_there none = pure tt
if_there (some m) = m

abbrev pub save_each :
    {W : Type 0} → List (String → Exec W Error (Unit {0})) → String → Exec W Error (Unit {0})
save_each [] dir = pure tt
save_each (save ∷ savers) dir = do save dir; save_each savers dir

-- `check_input_dir`: the directory with the names in it, `none` where it is no directory.
unfoldable pub check_input_dir :
    {W : Type 0} → (listing : String → W → Option (List String)) → String → Exec W Error (Unit {0})
check_input_dir listing input_dir w = elim (listing input_dir w) [
  | some (name ∷ names) ↦ (ok tt, w)
  | _ ↦ (err (file_not_found (format ("--input-dir is missing or empty: " ∷ input_dir ∷ []))), w)
]

module _ {W B L : Type 0} (trainer : Trainer W B L) (output_dir : String) where
  unfoldable pub write_progress : (step total_steps : ℕ) → Float → Exec W Error (Unit {0})
  write_progress step total_steps loss = do
    timestamp ← reading trainer.utc_text
    trainer.write_text (format (output_dir ∷ "/progress.json.tmp" ∷ []))
        (trainer.dumps (progress_file step total_steps loss timestamp))
    trainer.replace (format (output_dir ∷ "/progress.json.tmp" ∷ []))
        (format (output_dir ∷ "/progress.json" ∷ []))

  -- The camera images are scaled where they are bytes.
  abbrev pub scale_cameras : List String → B → B
  scale_cameras [] batch = batch
  scale_cameras (key ∷ keys) batch =
      scale_cameras keys (if trainer.is_uint8 key batch then trainer.scaled key batch else batch)

  -- One step of the optimizer.
  unfoldable pub train_step : Exec W Error L
  train_step = do
    batch ← trainer.next_batch
    processed ← trainer.preprocess (scale_cameras trainer.camera_keys batch)
    loss ← trainer.forward processed
    trainer.backward loss
    trainer.clip_grad_norm
    trainer.optimizer_step
    trainer.zero_grad
    if_there trainer.lr_step
    if_there trainer.update
    pure loss

  -- `for step in range(step, step + remaining)`
  unfoldable pub train_steps :
      (total_steps remaining step last_write_at : ℕ) → Exec W Error (Unit {0})
  unfolding train_step write_progress
  train_steps total_steps zero step last_write_at = pure tt
  train_steps total_steps (suc remaining) step last_write_at = do
    loss ← train_step
    now ← reading trainer.monotonic
    last ←
        if is_write_due total_steps step last_write_at now
        then (do write_progress step total_steps (trainer.item loss); pure now)
        else pure last_write_at
    train_steps total_steps remaining (suc step) last

  unfoldable pub run_training_loop : ℕ → Exec W Error (Unit {0})
  unfolding train_steps
  run_training_loop total_steps = do
    trainer.prepare
    last_write_at ← reading trainer.monotonic
    train_steps total_steps total_steps 1 last_write_at
    trainer.eval

  -- What saves the policy, and its two processors, to a directory.
  unfoldable pub write_checkpoint :
      (mkdir : String → Exec W Error (Unit {0})) (savers : List (String → Exec W Error (Unit {0})))
      → Exec W Error (Unit {0})
  write_checkpoint mkdir savers = do
    mkdir (format (output_dir ∷ "/checkpoint" ∷ []))
    save_each savers (format (output_dir ∷ "/checkpoint" ∷ []))

-- The program: any exception ends it with an exit code that is not 0. `load` builds dataset, policy
-- and processors.
unfoldable pub main :
    {W B L : Type 0} (mkdir : String → Exec W Error (Unit {0}))
    (listing : String → W → Option (List String))
    (load : String → Exec W Error (Trainer W B L × List (String → Exec W Error (Unit {0}))))
    (input_dir output_dir : String) (training_steps : ℕ)
    → Exec W Error (Unit {0})
unfolding check_input_dir run_training_loop write_checkpoint
main mkdir listing load input_dir output_dir training_steps = do
  mkdir output_dir
  check_input_dir listing input_dir
  loaded ← load input_dir
  run_training_loop loaded.0 output_dir training_steps
  write_checkpoint loaded.0 output_dir mkdir loaded.1
