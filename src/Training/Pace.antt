-- ===== src/Training/Pace.antt =====
-- How often a training run writes its progress, whatever its calls take.
use phyai_saas_train_vla.Prelude.{ℕ, ◌+◌, ◌≤◌, ◌≡◌, String, List, [], ◌∷◌, Result, ok}
use phyai_saas_train_vla.Common.Float.{Float}
use phyai_saas_train_vla.Common.Errors.{Error}
use phyai_saas_train_vla.Training.{Trainer, progress_file, max_between_writes}
use phyai_saas_train_vla.Training.Timing.{Durations, longest, IsTimed}

-- The writes at most `gap` apart, from `start` to the last one.
abbrev pub Paced : (gap start last : ℕ) → List (ℕ × String) → Type 0
Paced gap start last [] = last ≡ start
Paced gap start last ((at, text) ∷ earlier) =
    (last ≡ at)
    × (before : ℕ) × (before ≤ at)
    × (at ≤ before + gap)
    × Paced gap start before earlier

module _ {W B L : Type 0} (trainer : Trainer W B L) (clock : W → ℕ) (pending : W → String)
    (log : W → List (ℕ × String)) where
  module _ (d : Durations) (timed : IsTimed trainer clock pending log d) (output_dir : String) where
    abbrev gap : ℕ
    gap = max_between_writes + longest d

    module _ (total start : ℕ) where
      -- Between two steps: the last write was made not before the clock was read for it.
      record IsOnTime (last : ℕ) (w : W) : Type 0 where
        wrote : ℕ
        paced : Paced gap start wrote (log w)
        not_before : last ≤ wrote
        begun : wrote ≤ clock w
        recent : clock w ≤ wrote + max_between_writes

      -- What a finished run leaves.
      pub record Finished (result : Result Error (Unit {0}) × W) : Type 0 where
        pub left : W
        pub returned : result ≡ (ok tt, left)
        pub last_write : ℕ
        pub paced : Paced gap start last_write (log left)
        pub final :
            (loss : Float) × (timestamp : String) × (earlier : List (ℕ × String)) × (log left
              ≡ (last_write, trainer.dumps (progress_file total total loss timestamp)) ∷ earlier)
