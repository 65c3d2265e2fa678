-- ===== src/Worker/ProgressReader.antt =====
-- worker/progress_reader.py and checkpoint_packager.py: what the worker reads of a container's output
-- directory. The file system, `json.loads`, `datetime.fromisoformat` and `zipfile` are parameters.
pub mod Shared
mod Tests
use phyai_saas_train_vla.Prelude.{
  ℕ, ℤ, String, Bool, true, false, not, Option, none, some, List, [], ◌∷◌, Result, ok, err, Exec,
  pure, raise, gets, ◌>>=◌, ◌>>◌, format, if◌then◌else◌,
}
use phyai_saas_train_vla.Common.Json.{Json, text, object, field_get}
use phyai_saas_train_vla.Common.Models.{DateTime}
use phyai_saas_train_vla.Common.Errors.{
  Error, Checked, key_error, type_error, value_error, checkpoint_not_found,
}

-- What `Progress` holds when it is made from a file: its fields take whatever JSON values stand there,
-- since Python checks and converts nothing.
pub record ReadProgress : Type 0 where
  pub step : Json
  pub total_steps : Json
  pub loss : Json
  pub updated_at : DateTime

-- A `JSONDecodeError` of `loads` is a `ValueError`.
pub record Reader (W : Type 0) : Type 0 where
  pub exists : String → W → Bool
  pub read_text : String → W → Checked String
  pub loads : String → Checked Json
  pub fromisoformat : String → Checked DateTime

abbrev pub progress_filename : String
progress_filename = "progress.json"

abbrev pub then_checked {ℓ} : {A : Type 0} {B : Type ℓ} → Result Error A → (A → B) → (Error → B) → B
then_checked (ok a) f g = f a
then_checked (err e) f g = g e

abbrev or_missing : String → Option Json → Checked Json
or_missing key none = err (key_error key)
or_missing key (some value) = ok value

-- `raw[key]`, which only an object takes for a text.
unfoldable pub item : Json → String → Checked Json
item (object fields) key = or_missing key (field_get fields key)
item _ key = err (type_error "not subscriptable by a text")

module _ {W : Type 0} (reader : Reader W) where
  -- `datetime.fromisoformat`, which takes a text only.
  unfoldable pub to_datetime : Json → Checked DateTime
  to_datetime (text timestamp) = reader.fromisoformat timestamp
  to_datetime _ = err (type_error "fromisoformat: argument must be str")

  unfoldable pub to_progress : Json → Checked ReadProgress
  unfolding item to_datetime
  to_progress raw =
      then_checked (item raw "step")
        (λ step.
          then_checked (item raw "total_steps")
            (λ total_steps.
              then_checked (item raw "loss")
                (λ loss.
                  then_checked (item raw "timestamp")
                    (λ timestamp.
                      then_checked (to_datetime timestamp)
                        (λ updated_at. ok (record {
                          step = step;
                          total_steps = total_steps;
                          loss = loss;
                          updated_at = updated_at;
                        }))
                        err)
                    err)
                err)
            err)
        err

  -- `except (json.JSONDecodeError, KeyError, ValueError)`
  unfoldable pub or_none : Checked ReadProgress → Checked (Option ReadProgress)
  or_none (ok progress) = ok (some progress)
  or_none (err (key_error what)) = ok none
  or_none (err (value_error what)) = ok none
  or_none (err e) = err e

  unfoldable pub read_progress : String → W → Checked (Option ReadProgress)
  unfolding to_progress or_none
  read_progress output_dir w =
      let path = format (output_dir ∷ "/" ∷ progress_filename ∷ []) in
      if not (reader.exists path w)
      then ok none
      else or_none (
          then_checked (reader.read_text path w)
            (λ text. then_checked (reader.loads text) to_progress (λ e. err e)) (λ e. err e))

-- A path below the checkpoint directory, with its path from there.
pub record Found : Type 0 where
  pub path : String
  pub is_file : Bool
  pub relative : String

abbrev pub files : List Found → List (String × String)
files [] = []
files (entry ∷ entries) =
    let rest = files entries in if entry.is_file then (entry.path, entry.relative) ∷ rest else rest

-- `sorted_rglob` gives what lies below a directory, in order; `write_zip` makes the archive.
unfoldable pub package_checkpoint :
    {W : Type 0} (is_dir : String → W → Bool) (mkdir_parent : String → Exec W Error (Unit {0}))
    (sorted_rglob : String → W → List Found)
    (write_zip : String → List (String × String) → Exec W Error (Unit {0}))
    (checkpoint_dir zip_path : String)
    → Exec W Error String
package_checkpoint is_dir mkdir_parent sorted_rglob write_zip checkpoint_dir zip_path = do
  there ← gets (is_dir checkpoint_dir)
  if not there then raise (checkpoint_not_found checkpoint_dir) else (do
    mkdir_parent zip_path
    entries ← gets (sorted_rglob checkpoint_dir)
    write_zip zip_path (files entries)
    pure zip_path)
