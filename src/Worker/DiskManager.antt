-- ===== src/Worker/DiskManager.antt =====
-- worker/disk_manager.py: the cache of datasets on the training host. What the file system lists is
-- an argument, and the removal of a directory is a parameter over a world.
pub mod Eviction
use Prim.Native.String
use Prim.Native.String.{◌++◌}
use Prim.Native.Char.{code}
use phyai_saas_train_vla.Prelude.{
  eqb, format, Exec, ℕ, ◌+◌, ◌-◌, String, Bool, true, false, not, ◌&&◌, ◌||◌, Option, none, some,
  List, [], ◌∷◌, leb, ◌==◌, text_eq, sorted, last_chars, if◌then◌else◌,
}
use phyai_saas_train_vla.Common.Errors.{Error}

abbrev pub tmp_suffix : String
tmp_suffix = ".tmp"

-- The modification time is the bits of a float that is not negative, which order as the numbers do.
pub record CacheEntry : Type 0 where
  pub path : String
  pub size_bytes : ℕ
  pub mtime : ℕ

-- One name of `os.walk`: whether it is a file, and the size of the file.
pub record WalkedFile : Type 0 where
  pub is_file : Bool
  pub st_size : ℕ

-- A child of the cache directory, with what a walk below it meets.
pub record Child : Type 0 where
  pub name : String
  pub path : String
  pub is_dir : Bool
  pub walk : List WalkedFile
  pub st_mtime : ℕ

unfoldable pub directory_size_bytes : List WalkedFile → ℕ
directory_size_bytes [] = 0
directory_size_bytes (file ∷ files) =
    let total = directory_size_bytes files in if file.is_file then file.st_size + total else total

-- `name.endswith(TMP_SUFFIX)`
abbrev pub is_tmp : String → Bool
is_tmp name = last_chars 4 name == tmp_suffix

unfoldable pub entries_of : List Child → List CacheEntry
unfolding directory_size_bytes
entries_of [] = []
entries_of (child ∷ children) =
    let entries = entries_of children in
    if not child.is_dir || is_tmp child.name
    then entries
    else record {
      path = child.path;
      size_bytes = directory_size_bytes child.walk;
      mtime = child.st_mtime;
    }
      ∷ entries

-- `none` where the cache directory does not exist.
unfoldable pub list_cache_entries : Option (List Child) → List CacheEntry
unfolding entries_of
list_cache_entries none = []
list_cache_entries (some children) = entries_of children

-- `sum(e.size_bytes for e in entries)`
abbrev pub total_size : List CacheEntry → ℕ
total_size [] = 0
total_size (entry ∷ entries) = entry.size_bytes + total_size entries

module _ {W : Type 0} (rmtree : String → W → W) (max_bytes : ℕ) where
  -- `total` is the size of what is left, so the subtraction does not go below 0.
  unfoldable pub evict_each : ℕ → List CacheEntry → W → List String × W
  evict_each total [] w = ([], w)
  evict_each total (entry ∷ entries) w = elim (leb total max_bytes) [
    | true ↦ ([], w)
    | false ↦
        let (removed, w') = evict_each (total - entry.size_bytes) entries (rmtree entry.path w) in
        (entry.path ∷ removed, w')
  ]

  unfoldable pub evict_lru_until_under_cap : Option (List Child) → W → List String × W
  unfolding evict_each list_cache_entries
  evict_lru_until_under_cap listing w =
      let entries = sorted (λ (e : CacheEntry). e.mtime) (list_cache_entries listing) in
      evict_each (total_size entries) entries w

-- A `.tmp` directory that is older than the threshold. `age_exceeds now mtime seconds` is the test
-- `now - mtime > seconds` on floats.
abbrev pub is_stale : (age_exceeds : ℕ → ℕ → ℕ → Bool) (now seconds : ℕ) → Child → Bool
is_stale age_exceeds now seconds child =
    child.is_dir && is_tmp child.name && age_exceeds now child.st_mtime seconds

module _ {W : Type 0} (rmtree : String → W → W) where
  -- `iterdir` gives its children here before the first is removed.
  unfoldable pub sweep_each : (Child → Bool) → List Child → W → List String × W
  sweep_each is_stale [] w = ([], w)
  sweep_each is_stale (child ∷ children) w = elim (is_stale child) [
    | false ↦ sweep_each is_stale children w
    | true ↦
        let (removed, w') = sweep_each is_stale children (rmtree child.path w) in
        (child.path ∷ removed, w')
  ]

  unfoldable pub cleanup_stale_tmp_dirs :
      (age_exceeds : ℕ → ℕ → ℕ → Bool)
      → Option (List Child)
      → (older_than_seconds now : ℕ) → W
      → List String × W
  unfolding sweep_each
  cleanup_stale_tmp_dirs age_exceeds none older_than_seconds now w = ([], w)
  cleanup_stale_tmp_dirs age_exceeds (some children) older_than_seconds now w =
      sweep_each (is_stale age_exceeds now older_than_seconds) children w

-- `repo_id.replace("/", "__")`; 47 is the code of "/".
unfoldable pub safe_name : String → String
safe_name String.[] = ""
safe_name (String.◌∷◌ c rest) =
    let name = safe_name rest in if eqb (code c) 47 then "__" ++ name else String.◌∷◌ c name

-- `cache_dir / name` for a name without slash: the directory itself where the name is empty or a dot.
unfoldable pub joined : String → String → String
joined cache_dir name =
    if name == "" || name == "." then cache_dir else format (cache_dir ∷ "/" ∷ name ∷ [])

unfoldable pub tmp_path_for : String → String → String
unfolding safe_name joined
tmp_path_for cache_dir repo_id = joined cache_dir (format (safe_name repo_id ∷ tmp_suffix ∷ []))

unfoldable pub final_path_for : String → String → String
unfolding safe_name joined
final_path_for cache_dir repo_id = joined cache_dir (safe_name repo_id)

-- `os.replace` is a call of the system.
unfoldable pub finalize_download :
    {W : Type 0}
    → (String → String → Exec W Error (Unit {0}))
    → String
    → String
    → Exec W Error (Unit {0})
finalize_download replace tmp_dir final_dir = replace tmp_dir final_dir
