-- ===== src/Worker/ProgressReader/Shared.antt =====
-- The progress file that the training program and the worker share.
use phyai_saas_train_vla.Prelude.{
  Result, ℕ, ◌≡◌, refl, sym, ◌∙◌, String, Option, some, [], ◌∷◌, ok, err, Result-cases, inl, inr,
  pos, format, is_some,
}
use phyai_saas_train_vla.Common.Float.{Float}
use phyai_saas_train_vla.Common.Json.{integer, real}
use phyai_saas_train_vla.Common.Models.{DateTime}
use phyai_saas_train_vla.Common.Errors.{Error}
use phyai_saas_train_vla.Training.{Trainer, progress_file, write_progress}
use phyai_saas_train_vla.Worker.ProgressReader.{
  Reader, item, to_datetime, to_progress, or_none, read_progress,
}

-- The two programs on one file system: what stands in a file, with what is documented of the calls.
pub record IsShared {W B L : Type 0} (trainer : Trainer W B L) (reader : Reader W)
    (text_at : String → W → Option String) : Type 0 where
  pub exists : (path : String) (w : W) → reader.exists path w ≡ is_some (text_at path w)
  -- What is read of a file, where this does not raise, is what stands in it.
  pub reads :
      (path text : String) (w : W) → reader.read_text path w ≡ ok text → text_at path w ≡ some text
  -- A text that is written stands in its file, and a file that is moved over another one is there, where
  -- the call does not raise.
  pub writes :
      (path text : String) (w : W)
      → (trainer.write_text path text w).0 ≡ ok tt
      → text_at path (trainer.write_text path text w).1 ≡ some text
  pub moves :
      (from to text : String) (w : W)
      → text_at from w ≡ some text
      → (trainer.replace from to w).0 ≡ ok tt
      → text_at to (trainer.replace from to w).1 ≡ some text
  -- The object that is written reads back from its JSON text, and a time from its ISO text.
  pub loads :
      (step total_steps : ℕ) (loss : Float) (timestamp : String)
      → reader.loads (trainer.dumps (progress_file step total_steps loss timestamp))
        ≡ ok (progress_file step total_steps loss timestamp)
  pub times : (w : W) → (t : DateTime) × (reader.fromisoformat (trainer.utc_text w).0 ≡ ok t)

module _ {W B L : Type 0} (trainer : Trainer W B L) (reader : Reader W)
    (text_at : String → W → Option String) (shared : IsShared trainer reader text_at)
    (output_dir : String) (step total_steps : ℕ) (loss : Float) (w : W) where
  abbrev path : String
  path = format (output_dir ∷ "/progress.json" ∷ [])

  abbrev tmp_path : String
  tmp_path = format (output_dir ∷ "/progress.json.tmp" ∷ [])

  abbrev json_text : String
  json_text = trainer.dumps (progress_file step total_steps loss (trainer.utc_text w).0)

  -- Where a write of the progress succeeds, the text stands in the file.
  stands :
      (write_progress trainer output_dir step total_steps loss w).0 ≡ ok tt
      → text_at path (write_progress trainer output_dir step total_steps loss w).1 ≡ some json_text
  unfolding write_progress
  stands done =
      let w' = (trainer.utc_text w).1 in
      elim (Result-cases (trainer.write_text tmp_path json_text w').0) [
        | inr (e, failed) ↦ elim (not_ok (rw failed at done)) [ ]
        | inl (t, written) ↦ rw written (
            shared.moves tmp_path path json_text (trainer.write_text tmp_path json_text w').1
              (shared.writes tmp_path json_text w' written) (rw written at done))
      ]
    where
      not_ok : {e : Error} → ◌≡◌ {A = Result Error (Unit {0})} (err e) (ok tt) → ⊥
      not_ok e = cc

  -- Where a write of the progress by the training program succeeds, and the worker then reads the file
  -- in the same directory without an error of the file system, it gets the step, the number of steps and
  -- the loss that were written, with the time of the write, if the file system, JSON and ISO times keep to their
  -- documentation: the keys that the two programs use agree.
  pub read_progress-write_progress :
      (text : String)
      → (write_progress trainer output_dir step total_steps loss w).0 ≡ ok tt
      → reader.read_text path (write_progress trainer output_dir step total_steps loss w).1
        ≡ ok text
      → (t : DateTime) × (reader.fromisoformat (trainer.utc_text w).0 ≡ ok t)
        × (read_progress reader output_dir
              (write_progress trainer output_dir step total_steps loss w).1
            ≡ ok (
                some (record {
                  step = integer (pos step);
                  total_steps = integer (pos total_steps);
                  loss = real loss;
                  updated_at = t;
                })))
  unfolding read_progress to_progress or_none item to_datetime format write_progress
  read_progress-write_progress text done read =
      let left = (write_progress trainer output_dir step total_steps loss w).1 in
      let there = stands done in
      let same = same_text (sym (shared.reads path text left read) ∙ there) in
      let (t, time) = shared.times w in
      (
        t,
        time,
        rw
            (
              shared.exists path left,
              there,
              read,
              same,
              shared.loads step total_steps loss (trainer.utc_text w).0,
              time,
            )
            refl,
      )
    where
      same_text : {s u : String} → some s ≡ some u → s ≡ u
      same_text e = cc
