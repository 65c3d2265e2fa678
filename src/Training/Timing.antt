-- ===== src/Training/Timing.antt =====
-- What a step of a training run and a write of its progress take, from what each call takes.
use phyai_saas_train_vla.Prelude.{
  ℕ, ◌+◌, ◌≤◌, ◌≡◌, refl, ◌∙◌, ap₂, String, Option, none, some, List, [], ◌∷◌, ok, Exec, pure,
  format, ◌>>=◌, arith,
}
use phyai_saas_train_vla.Common.Float.{Float}
use phyai_saas_train_vla.Common.Errors.{Error}
use phyai_saas_train_vla.Training.{
  Trainer, progress_file, if_there, scale_cameras, train_step, write_progress,
}

-- The most that each call of a step takes, and the two of a write.
pub record Durations : Type 0 where
  pub next_batch : ℕ
  pub preprocess : ℕ
  pub forward : ℕ
  pub backward : ℕ
  pub clip_grad_norm : ℕ
  pub optimizer_step : ℕ
  pub zero_grad : ℕ
  pub lr_step : ℕ
  pub update : ℕ
  pub write_text : ℕ
  pub replace : ℕ

abbrev pub step_time : Durations → ℕ
step_time d =
    d.next_batch
    + (d.preprocess
        + (d.forward
            + (d.backward
                + (d.clip_grad_norm
                    + (d.optimizer_step + (d.zero_grad + (d.lr_step + (d.update + 0))))))))

abbrev pub write_time : Durations → ℕ
write_time d = d.write_text + d.replace

-- A step with the write after it.
abbrev pub longest : Durations → ℕ
longest d = step_time d + write_time d

-- A world with a clock, the text that was written last to the temporary file, and what was moved to
-- progress.json and when, newest first.
module _ {W B L : Type 0} (trainer : Trainer W B L) (clock : W → ℕ) (pending : W → String)
    (log : W → List (ℕ × String)) where
  abbrev pub Quiet : Exec W Error (Unit {0}) → Type 0
  Quiet m = (w : W) → (w' : W) × (m w ≡ (ok tt, w')) × (log w' ≡ log w)

  -- The call raises nothing, moves nothing to progress.json, and takes some time.
  abbrev pub Takes : {A : Type 0} → ℕ → Exec W Error A → Type 0
  Takes {A} most m =
      (w : W)
      → (a : A) × (w' : W) × (m w ≡ (ok a, w'))
        × (log w' ≡ log w)
        × (clock w ≤ clock w')
        × (clock w' ≤ clock w + most)

  -- A run in which nothing is raised and each call takes at most its time.
  pub record IsTimed (d : Durations) : Type 0 where
    pub prepare : Quiet trainer.prepare
    pub next_batch : Takes d.next_batch trainer.next_batch
    pub preprocess : (batch : B) → Takes d.preprocess (trainer.preprocess batch)
    pub forward : (batch : B) → Takes d.forward (trainer.forward batch)
    pub backward : (loss : L) → Takes d.backward (trainer.backward loss)
    pub clip_grad_norm : Takes d.clip_grad_norm trainer.clip_grad_norm
    pub optimizer_step : Takes d.optimizer_step trainer.optimizer_step
    pub zero_grad : Takes d.zero_grad trainer.zero_grad
    pub lr_step : (m : Exec W Error (Unit {0})) → trainer.lr_step ≡ some m → Takes d.lr_step m
    pub update : (m : Exec W Error (Unit {0})) → trainer.update ≡ some m → Takes d.update m
    pub eval : Quiet trainer.eval
    pub monotonic :
        (w : W)
        → ((trainer.monotonic w).0 ≡ clock w)
          × (clock (trainer.monotonic w).1 ≡ clock w)
          × (log (trainer.monotonic w).1 ≡ log w)
    pub utc_text :
        (w : W) → (clock (trainer.utc_text w).1 ≡ clock w) × (log (trainer.utc_text w).1 ≡ log w)
    pub write_text :
        (path text : String) (w : W)
        → (w' : W) × (trainer.write_text path text w ≡ (ok tt, w'))
          × (pending w' ≡ text)
          × (log w' ≡ log w)
          × (clock w ≤ clock w')
          × (clock w' ≤ clock w + d.write_text)
    pub replace :
        (from to : String) (w : W)
        → (w' : W) × (trainer.replace from to w ≡ (ok tt, w'))
          × (log w' ≡ (clock w', pending w) ∷ log w)
          × (clock w ≤ clock w')
          × (clock w' ≤ clock w + d.replace)

  bind-Takes :
      {A C : Type 0} (p q : ℕ) (m : Exec W Error A) (f : A → Exec W Error C)
      → Takes p m
      → ((a : A) → Takes q (f a))
      → Takes (p + q) (m >>= f)
  bind-Takes p q m f h k w =
      let (a, w', e, same, lo, hi) = h w in
      let (c, w'', e', same', lo', hi') = k a w' in
      (c, w'', rw e e', same' ∙ same, omega (arith, lo, lo'), omega (arith, hi, hi'))

  pure-Takes : {A : Type 0} (a : A) → Takes 0 (pure a)
  pure-Takes a w = (a, w, refl, refl, omega arith, omega arith)

  if_there-Takes :
      (most : ℕ) (o : Option (Exec W Error (Unit {0})))
      → ((m : Exec W Error (Unit {0})) → o ≡ some m → Takes most m)
      → Takes most (if_there o)
  if_there-Takes most none h w = (tt, w, refl, refl, omega arith, omega arith)
  if_there-Takes most (some m) h w = h m refl w

  module _ (d : Durations) (timed : IsTimed d) (output_dir : String) where
    pub train_step-Takes : Takes (step_time d) (train_step trainer output_dir)
    unfolding train_step
    train_step-Takes = bind-Takes _ _ trainer.next_batch _ timed.next_batch (λ batch.
        bind-Takes _ _
          (trainer.preprocess (scale_cameras trainer output_dir trainer.camera_keys batch)) _
          (timed.preprocess _)
          (λ processed.
            bind-Takes _ _ (trainer.forward processed) _ (timed.forward processed) (λ loss.
              bind-Takes _ _ (trainer.backward loss) _ (timed.backward loss) (λ _.
                bind-Takes _ _ trainer.clip_grad_norm _ timed.clip_grad_norm (λ _.
                  bind-Takes _ _ trainer.optimizer_step _ timed.optimizer_step (λ _.
                    bind-Takes _ _ trainer.zero_grad _ timed.zero_grad (λ _.
                      bind-Takes _ _ (if_there trainer.lr_step) _
                        (if_there-Takes _ trainer.lr_step timed.lr_step)
                        (λ _.
                          bind-Takes _ _ (if_there trainer.update) _
                            (if_there-Takes _ trainer.update timed.update)
                            (λ _. pure-Takes loss)))))))))

    -- A write of the progress, with when it was made.
    pub record Wrote (step total : ℕ) (loss : Float) (w : W) : Type 0 where
      pub left : W
      pub timestamp : String
      pub returned : write_progress trainer output_dir step total loss w ≡ (ok tt, left)
      pub logged :
          log left ≡ (clock left, trainer.dumps (progress_file step total loss timestamp)) ∷ log w
      pub later : clock w ≤ clock left
      pub soon : clock left ≤ clock w + write_time d

    pub write_progress-Wrote : (step total : ℕ) (loss : Float) (w : W) → Wrote step total loss w
    unfolding write_progress
    write_progress-Wrote step total loss w =
        let tmp_path = format (output_dir ∷ "/progress.json.tmp" ∷ []) in
        let path = format (output_dir ∷ "/progress.json" ∷ []) in
        let (now, w0) = trainer.utc_text w in
        let (same_time, same_log) = timed.utc_text w in
        let (w1, e, stands, kept, lo, hi) =
          timed.write_text tmp_path (trainer.dumps (progress_file step total loss now)) w0 in
        let (w2, e', moved, lo', hi') = timed.replace tmp_path path w1 in
        record {
          left = w2;
          timestamp = now;
          returned = rw (e, e') refl;
          logged = moved ∙ ap₂ (λ t written. (clock w2, t) ∷ written) stands (kept ∙ same_log);
          later = omega (arith, same_time, lo, lo');
          soon = omega (arith, same_time, hi, hi');
        }
