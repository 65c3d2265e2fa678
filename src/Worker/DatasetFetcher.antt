-- ===== src/Worker/DatasetFetcher.antt =====
-- worker/dataset_fetcher.py: a job's dataset on the disk of the host, before its container starts.
-- What it calls of the file system, the hub and the storage is a parameter; a stream has the type `S`.
pub mod Publication
use phyai_saas_train_vla.Prelude.{
  ℕ, String, Bool, true, false, Option, none, some, List, [], ◌∷◌, Result, ok, err, Exec, pure,
  raise, gets, modify, ◌>>=◌, ◌>>◌, format, if◌then◌else◌,
}
use phyai_saas_train_vla.Common.Models.{hf_hub, zip_upload, Job}
use phyai_saas_train_vla.Common.Errors.{
  Error, error_text, dataset_fetch, file_not_found, bad_zip_file,
}
use phyai_saas_train_vla.Worker.Ports.{FetchedDataset}
use phyai_saas_train_vla.Worker.DiskManager.{
  Child, evict_lru_until_under_cap, tmp_path_for, final_path_for, finalize_download,
}

pub record Site (W S : Type 0) : Type 0 where
  -- `Path.exists`, `touch`, `mkdir(parents=True, exist_ok=True)`, `os.replace`, and what lies in a
  -- directory.
  pub exists : String → W → Bool
  pub touch : String → Exec W Error (Unit {0})
  pub mkdir : String → Exec W Error (Unit {0})
  pub replace : String → String → Exec W Error (Unit {0})
  pub children : String → W → Option (List Child)
  pub rmtree : String → W → W
  pub extractall : S → String → Exec W Error (Unit {0})
  pub download_dataset : String → String → Exec W Error (Unit {0})
  pub open_read_stream : String → Exec W Error S
  pub delete : String → Exec W Error (Unit {0})

-- A call under `try`: what it raised is a value.
abbrev pub attempted : {W A : Type 0} → Exec W Error A → Exec W Error (Result Error A)
attempted m w = let (r, w') = m w in (ok r, w')

abbrev pub extraction_failed : String → Error → Error
extraction_failed object_path e =
    dataset_fetch
      (format ("Failed to extract uploaded dataset " ∷ object_path ∷ ": " ∷ error_text e ∷ []))

-- `except FileNotFoundError`
unfoldable pub not_found_or_same : String → Error → Error
not_found_or_same repo_id (file_not_found text) =
    dataset_fetch (format ("HF Hub dataset not found: " ∷ repo_id ∷ []))
not_found_or_same repo_id e = e

-- `except (FileNotFoundError, zipfile.BadZipFile)`
unfoldable pub not_extracted_or_same : String → Error → Error
not_extracted_or_same object_path (file_not_found text) =
    extraction_failed object_path (file_not_found text)
not_extracted_or_same object_path (bad_zip_file text) =
    extraction_failed object_path (bad_zip_file text)
not_extracted_or_same object_path e = e

-- What a call under `try` raised is raised as another error, or as it is.
abbrev pub raise_as : {W A : Type 0} → (Error → Error) → Result Error A → Exec W Error A
raise_as f (ok a) = pure a
raise_as f (err e) = raise (f e)

module _ {W S : Type 0} where
  module _ (site : Site W S) (cache_dir : String) (cache_max_bytes : ℕ) where
    unfoldable pub download : String → Exec W Error String
    download repo_id = do
      site.mkdir cache_dir
      r ← attempted (site.download_dataset repo_id (tmp_path_for cache_dir repo_id))
      raise_as (not_found_or_same repo_id) r
      finalize_download site.replace (tmp_path_for cache_dir repo_id)
          (final_path_for cache_dir repo_id)
      modify (λ w.
          (evict_lru_until_under_cap site.rmtree cache_max_bytes (site.children cache_dir w) w).1)
      pure (final_path_for cache_dir repo_id)

    unfoldable pub fetch_hf_dataset : String → Exec W Error String
    unfolding download
    fetch_hf_dataset repo_id = do
      present ← gets (site.exists (final_path_for cache_dir repo_id))
      if present
          then (do
            site.touch (final_path_for cache_dir repo_id)
            pure (final_path_for cache_dir repo_id))
          else download repo_id

    unfoldable pub extract_zip_upload : String → String → Exec W Error String
    extract_zip_upload object_path target_dir = do
      site.mkdir target_dir
      r ←
          attempted
            (do stream ← site.open_read_stream object_path; site.extractall stream target_dir)
      raise_as (not_extracted_or_same object_path) r
      attempted (site.delete object_path)
      pure target_dir

    unfoldable pub fetch_for_job : Job → String → Exec W Error FetchedDataset
    unfolding fetch_hf_dataset extract_zip_upload
    fetch_for_job job job_dir = elim job.source_type [
      | hf_hub ↦ (do
        input_dir ← fetch_hf_dataset job.source_ref
        pure (record { input_dir = input_dir; read_only = true }))
      | zip_upload ↦ (do
        input_dir ← extract_zip_upload job.source_ref (format (job_dir ∷ "/input" ∷ []))
        pure (record { input_dir = input_dir; read_only = false }))
    ]
