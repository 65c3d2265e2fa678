-- ===== src/Worker/ProgressReader/Tests.antt =====
-- Both programs on a dictionary of files. A number is written here as strokes with a point behind.
use Prim.Native.Char.{code}
use phyai_saas_train_vla.Prelude.{
  format, ℕ, zero, suc, ◌≡◌, refl, ap, String, false, Option, none, some, [], ok, err, pure, Result,
  pos, eqb, is_some, arith, eq_iff, text_eq, if◌then◌else◌,
}
use phyai_saas_train_vla.Dict
use phyai_saas_train_vla.Dict.{Dict, get-put}
use phyai_saas_train_vla.Common.Models.{DateTime}
use phyai_saas_train_vla.Common.Errors.{Error, type_error, file_not_found}
use phyai_saas_train_vla.Common.Json.{Json, null, integer, real, text, object, end, field}
use phyai_saas_train_vla.Training.{Trainer, progress_file, write_progress}
use phyai_saas_train_vla.Worker.ProgressReader.{
  Reader, item, to_datetime, to_progress, or_none, read_progress,
}
use phyai_saas_train_vla.Worker.ProgressReader.Shared.{IsShared, read_progress-write_progress}

abbrev mark : ℕ → String → String
mark zero rest = String.◌∷◌ "." rest
mark (suc n) rest = String.◌∷◌ "|" (mark n rest)

-- 124 is the code of "|".
abbrev unmark : String → ℕ × String
unmark String.[] = (0, "")
unmark (String.◌∷◌ c s) =
    let (n, rest) = unmark s in if eqb (code c) 124 then (suc n, rest) else (0, s)

unmark-mark : (n : ℕ) (rest : String) → unmark (mark n rest) ≡ (n, rest)
unmark-mark zero rest = refl
unmark-mark (suc n) rest = ap (λ (p : ℕ × String). (suc p.0, p.1)) (unmark-mark n rest)

-- Only the objects that the training program writes have a text here.
abbrev dumps : Json → String
dumps
      (object (
        field _ (integer (pos step)) (
          field _
            (integer (pos total_steps))
            (field _ (real loss) (field _ (text timestamp) end))))) =
    mark step (mark total_steps (mark loss timestamp))
dumps _ = ""

abbrev parsed : String → Json
parsed line =
    let (step, rest) = unmark line in
    let (total_steps, rest') = unmark rest in
    let (loss, timestamp) = unmark rest' in progress_file step total_steps loss timestamp

abbrev moved : String → Option String → Dict String → Result Error (Unit {0}) × Dict String
moved to none w = (err (file_not_found to), w)
moved to (some line) w = (ok tt, Dict.put w to line)

abbrev read : Option String → Result Error String
read none = err (file_not_found "")
read (some line) = ok line

abbrev trainer : Trainer (Dict String) (Unit {0}) (Unit {0})
trainer = record {
  prepare = pure tt;
  camera_keys = [];
  next_batch = pure tt;
  is_uint8 = λ key batch. false;
  scaled = λ key batch. batch;
  preprocess = λ batch. pure tt;
  forward = λ batch. pure tt;
  backward = λ loss. pure tt;
  clip_grad_norm = pure tt;
  optimizer_step = pure tt;
  zero_grad = pure tt;
  lr_step = none;
  update = none;
  item = λ loss. 0;
  eval = pure tt;
  monotonic = λ w. (0, w);
  utc_text = λ w. ("now", w);
  dumps = dumps;
  write_text = λ path line w. (ok tt, Dict.put w path line);
  replace = λ from to w. moved to (Dict.get w from) w;
}

abbrev reader : Reader (Dict String)
reader = record {
  exists = λ path w. is_some (Dict.get w path);
  read_text = λ path w. read (Dict.get w path);
  loads = λ line. ok (parsed line);
  fromisoformat = λ line. ok 7;
}

abbrev text_at : String → Dict String → Option String
text_at path w = Dict.get w path

get-put_same :
    (w : Dict String) (path line : String) → Dict.get (Dict.put w path line) path ≡ some line
get-put_same w path line = ground (arith, get-put w path path line, eq_iff path path)

moves_there :
    (o : Option String) (to line : String) (w : Dict String)
    → o ≡ some line
    → Dict.get (moved to o w).1 to ≡ some line
moves_there none to line w e = cc
moves_there (some there) to line w e = ground (arith, get-put w to to there, eq_iff to to)

reads_there :
    (o : Option String) (line : String)
    → ◌≡◌ {A = Result Error String} (read o) (ok line)
    → o ≡ some line
reads_there none line e = cc
reads_there (some there) line e = cc

both-IsShared : IsShared trainer reader text_at
both-IsShared = record {
  exists = λ path w. refl;
  reads = λ path line w e. reads_there (Dict.get w path) line e;
  writes = λ path line w _. get-put_same w path line;
  moves = λ from to line w stands _. moves_there (Dict.get w from) to line w stands;
  loads = λ step total_steps loss timestamp.
      rw
        (
          unmark-mark step (mark total_steps (mark loss timestamp)),
          unmark-mark total_steps (mark loss timestamp),
          unmark-mark loss timestamp,
        )
        refl;
  times = λ w. (7, refl);
}

read_progress-write_progress_example :
    (t : DateTime) × (◌≡◌ {A = Result Error DateTime} (ok 7) (ok t))
    × (read_progress reader "/jobs/j1/output" (write_progress trainer "/jobs/j1/output" 3 10 5 []).1
        ≡ ok (
            some (record {
              step = integer (pos 3);
              total_steps = integer (pos 10);
              loss = real 5;
              updated_at = t;
            })))
unfolding write_progress format
read_progress-write_progress_example =
    read_progress-write_progress trainer reader text_at both-IsShared "/jobs/j1/output" 3 10 5 []
      (dumps (progress_file 3 10 5 "now")) refl refl

-- Values that are no numbers are taken as they are; what is no object raises.
untyped :
    to_progress reader (
      object (
        field "step" null
          (field "total_steps" null (field "loss" null (field "timestamp" (text "now") end)))))
    ≡ ok (record { step = null; total_steps = null; loss = null; updated_at = 7 })
unfolding to_progress item to_datetime
untyped = refl

no_object :
    or_none reader (to_progress reader null) ≡ err (type_error "not subscriptable by a text")
unfolding or_none to_progress item
no_object = refl
