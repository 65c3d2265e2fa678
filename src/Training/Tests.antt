-- ===== src/Training/Tests.antt =====
-- A run of three steps in which every call takes some time: each step takes 56 seconds, and each write two.
use phyai_saas_train_vla.Prelude.{ℕ, ◌+◌, String, false, none, some, List, [], ◌∷◌, ok, Exec, ◌*◌}
use phyai_saas_train_vla.Common.Errors.{Error}
use phyai_saas_train_vla.Training.{Trainer}
use phyai_saas_train_vla.Training.Timing.{Durations}

abbrev seconds : ℕ → ℕ
seconds n = n * 1000000

record Run : Type 0 where
  now : ℕ
  pending : String
  written : List (ℕ × String)

abbrev spend : ℕ → Exec Run Error (Unit {0})
spend n s = (ok tt, record s { now = s.now + n })

abbrev trainer : Trainer Run (Unit {0}) (Unit {0})
trainer = record {
  prepare = spend (seconds 100);
  camera_keys = [];
  next_batch = spend (seconds 5);
  is_uint8 = λ key batch. false;
  scaled = λ key batch. batch;
  preprocess = λ batch. spend (seconds 1);
  forward = λ batch. spend (seconds 20);
  backward = λ loss. spend (seconds 25);
  clip_grad_norm = spend (seconds 1);
  optimizer_step = spend (seconds 2);
  zero_grad = spend (seconds 1);
  lr_step = none;
  update = some (spend (seconds 1));
  item = λ _. 0;
  eval = spend (seconds 1);
  monotonic = λ s. (s.now, s);
  utc_text = λ s. ("t", s);
  dumps = λ json. "progress";
  write_text = λ path text s. (ok tt, record s { pending = text; now = s.now + seconds 1 });
  replace = λ from to s. (
    ok tt,
    record s { now = s.now + seconds 1; written = (s.now + seconds 1, s.pending) ∷ s.written },
  );
}

abbrev times : Durations
times = record {
  next_batch = seconds 5;
  preprocess = seconds 1;
  forward = seconds 20;
  backward = seconds 25;
  clip_grad_norm = seconds 1;
  optimizer_step = seconds 2;
  zero_grad = seconds 1;
  lr_step = 0;
  update = seconds 1;
  write_text = seconds 1;
  replace = seconds 1;
}

abbrev clock : Run → ℕ
clock s = s.now

abbrev pending : Run → String
pending s = s.pending

abbrev log : Run → List (ℕ × String)
log s = s.written

abbrev at_start : Run
at_start = record { now = 1000; pending = ""; written = [] }
