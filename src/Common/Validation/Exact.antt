-- ===== src/Common/Validation/Exact.antt =====
-- The loop with early returns accepts exactly the archives within the caps.
use phyai_saas_train_vla.Prelude.{
  ℕ, ◌+◌, ◌≤◌, ◌≡◌, ◌↔◌, refl, true, List, [], ◌∷◌, arith, length, All, any, contains, starts_with,
  String, text_eq,
}
use phyai_saas_train_vla.Common.Validation.{
  ZipEntryMeta, ValidationLimits, check_decompression_bomb, scan_sizes, check_lerobot_structure,
}

abbrev pub total_bytes : List ZipEntryMeta → ℕ
total_bytes [] = 0
total_bytes (entry ∷ entries) = entry.uncompressed_size + total_bytes entries

-- The archive as a whole is within the caps.
pub record FitsLimits (limits : ValidationLimits) (entries : List ZipEntryMeta) : Type 0 where
  pub few : length entries ≤ limits.max_file_count
  pub small : All (λ entry. entry.uncompressed_size ≤ limits.max_single_file_bytes) entries
  pub fits : total_bytes entries ≤ limits.max_total_uncompressed_bytes

module _ (limits : ValidationLimits) where
  scan_sizes_sound :
      (total : ℕ) (entries : List ZipEntryMeta)
      → total ≤ limits.max_total_uncompressed_bytes
      → (scan_sizes limits total entries).ok ≡ true
      → All (λ entry. entry.uncompressed_size ≤ limits.max_single_file_bytes) entries
        × (total + total_bytes entries ≤ limits.max_total_uncompressed_bytes)
  unfolding scan_sizes
  scan_sizes_sound total [] le h = (tt, omega arith)
  scan_sizes_sound total (e ∷ es) le h =
      ground (arith, scan_sizes_sound (total + e.uncompressed_size) es)

  scan_sizes_complete :
      (total : ℕ) (entries : List ZipEntryMeta)
      → All (λ entry. entry.uncompressed_size ≤ limits.max_single_file_bytes) entries
      → total + total_bytes entries ≤ limits.max_total_uncompressed_bytes
      → (scan_sizes limits total entries).ok ≡ true
  unfolding scan_sizes
  scan_sizes_complete total [] s f = refl
  scan_sizes_complete total (e ∷ es) s f =
      ground (arith, scan_sizes_complete (total + e.uncompressed_size) es)

sound :
    (entries : List ZipEntryMeta) (limits : ValidationLimits)
    → (check_decompression_bomb entries limits).ok ≡ true
    → FitsLimits limits entries
unfolding check_decompression_bomb
sound entries limits h = ground (arith, scan_sizes_sound limits 0 entries)

complete :
    (entries : List ZipEntryMeta) (limits : ValidationLimits)
    → FitsLimits limits entries
    → (check_decompression_bomb entries limits).ok ≡ true
unfolding check_decompression_bomb
complete entries limits f = ground (arith, scan_sizes_complete limits 0 entries f.small)

-- An archive passes the check exactly when it has no more files than allowed, none of them larger
-- than allowed, and their sizes add up to no more than allowed.
pub check_decompression_bomb_iff :
    (entries : List ZipEntryMeta) (limits : ValidationLimits)
    → ((check_decompression_bomb entries limits).ok ≡ true) ↔ FitsLimits limits entries
check_decompression_bomb_iff entries limits = (sound entries limits, complete entries limits)

-- A listing passes the check exactly when it has the metadata file and a name under `data/`.
pub check_lerobot_structure_iff :
    (entry_names : List String)
    → ((check_lerobot_structure entry_names).ok ≡ true) ↔ (
        (contains entry_names "meta/info.json" ≡ true)
        × (any (λ name. starts_with name "data/") entry_names ≡ true))
unfolding check_lerobot_structure
check_lerobot_structure_iff entry_names = ground arith
