-- ===== src/Common/Validation.antt =====
-- common/domain/dataset_validation.py: the structure of a dataset and the caps on its size.
pub mod Exact
use phyai_saas_train_vla.Prelude.{
  ℕ, ◌+◌, ◌*◌, ◌^◌, String, Bool, true, false, not, Option, none, some, List, [], ◌∷◌, starts_with,
  ltb, text_eq, length, any, contains, if◌then◌else◌, show_nat, format,
}

pub record ZipEntryMeta : Type 0 where
  pub name : String
  pub uncompressed_size : ℕ

pub record ValidationLimits : Type 0 where
  pub max_total_uncompressed_bytes : ℕ
  pub max_single_file_bytes : ℕ
  pub max_file_count : ℕ

abbrev pub default_limits : ValidationLimits
default_limits = record {
  max_total_uncompressed_bytes = 2 * 1024 ^ 3;
  max_single_file_bytes = 512 * 1024 ^ 2;
  max_file_count = 200000;
}

abbrev pub required_meta_file : String
required_meta_file = "meta/info.json"

abbrev pub required_dir_prefix : String
required_dir_prefix = "data/"

pub record ValidationResult : Type 0 where
  pub ok : Bool
  pub error : Option String

abbrev pub success : ValidationResult
success = record { ok = true; error = none }

abbrev pub failure : String → ValidationResult
failure message = record { ok = false; error = some message }

-- The list of names stands for the set that is made of it: only membership is asked.
unfoldable pub check_lerobot_structure : List String → ValidationResult
check_lerobot_structure entry_names =
    if not (contains entry_names required_meta_file)
    then failure (format ("Missing required file: " ∷ required_meta_file ∷ []))
    else if not (any (λ name. starts_with name required_dir_prefix) entry_names)
    then failure (format ("Missing required directory: " ∷ required_dir_prefix ∷ []))
    else success

-- The loop over the entries, with the running total.
scan_sizes : ValidationLimits → ℕ → List ZipEntryMeta → ValidationResult
scan_sizes limits total_size [] = success
scan_sizes limits total_size (entry ∷ entries) =
    let total = total_size + entry.uncompressed_size in
    let rest = scan_sizes limits total entries in
    if ltb limits.max_single_file_bytes entry.uncompressed_size
    then failure (
        format (
          "File '"
          ∷ entry.name
          ∷ "' exceeds the per-file size limit ("
          ∷ show_nat entry.uncompressed_size
          ∷ " > "
          ∷ show_nat limits.max_single_file_bytes
          ∷ " bytes)"
          ∷ []))
    else if ltb limits.max_total_uncompressed_bytes total
    then failure (
        format (
          "Uncompressed archive exceeds the total size limit ("
          ∷ show_nat total
          ∷ " > "
          ∷ show_nat limits.max_total_uncompressed_bytes
          ∷ " bytes)"
          ∷ []))
    else rest

unfoldable pub check_decompression_bomb : List ZipEntryMeta → ValidationLimits → ValidationResult
unfolding scan_sizes
check_decompression_bomb entries limits =
    let count = length entries in
    if ltb limits.max_file_count count
    then failure (
        format (
          "Archive contains too many files ("
          ∷ show_nat count
          ∷ " > "
          ∷ show_nat limits.max_file_count
          ∷ ")"
          ∷ []))
    else scan_sizes limits 0 entries
