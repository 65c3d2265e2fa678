-- ===== src/Backend/UploadService/Zip.antt =====
-- What has been checked of an archive from which a job was made.
use phyai_saas_train_vla.Prelude.{
  ◌≡◌, refl, sym, ◌∙◌, String, Bool, true, false, not, List, map, Result, ok, err, raise_if,
  Result-cases, inl, inr, ℤ,
}
use phyai_saas_train_vla.Common.Models.{DateTime, PolicyType, zip_upload, Job}
use phyai_saas_train_vla.Common.Errors.{Error, upload_not_found}
use phyai_saas_train_vla.Common.Validation.{
  ZipEntryMeta, ValidationLimits, ValidationResult, check_lerobot_structure,
  check_decompression_bomb,
}
use phyai_saas_train_vla.Common.Validation.Exact.{FitsLimits, check_decompression_bomb_iff}
use phyai_saas_train_vla.Common.PolicyShapes.{Json, check_policy_compatibility}
use phyai_saas_train_vla.Repository.Database.{Database}
use phyai_saas_train_vla.Backend.JobService.{create_job}
use phyai_saas_train_vla.Backend.JobService.Create.{create_job-refused}
use phyai_saas_train_vla.Backend.UploadService.{
  Sources, Site, upload_path, info_json_path, accept, read_zip_entries, read_zip_member,
  entries_or_reject, parsed, info_or_reject, check_entries, check_metadata, check_zip,
  confirm_zip_upload,
}
use phyai_saas_train_vla.Backend.UploadService.Steps.{
  Keeps, continue-Keeps, then-Keeps, continue-ok, accept-Keeps, accept-ok, entries-Keeps,
  entries-ok, info-Keeps, info-ok,
}

abbrev entry_names : List ZipEntryMeta → List String
entry_names entries = map (λ (e : ZipEntryMeta). e.name) entries

module _ {W S B : Type 0} (sources : Sources W S B) (limits : ValidationLimits) where
  -- The archive as the storage gave it: its entries and metadata pass every check.
  pub record IsTrainable (path : String) (policy : PolicyType) : Type 0 where
    pub first_read : W
    pub second_read : W
    pub entries : List ZipEntryMeta
    pub info : Json
    pub verdict : ValidationResult
    pub listed : (read_zip_entries sources path first_read).0 ≡ ok entries
    pub structured : (check_lerobot_structure (entry_names entries)).ok ≡ true
    pub small : FitsLimits limits entries
    pub metadata :
        parsed sources (read_zip_member sources path info_json_path second_read).0 ≡ ok info
    pub shaped : check_policy_compatibility info policy ≡ ok verdict
    pub compatible : verdict.ok ≡ true

  module _ (path : String) (policy : PolicyType) where
    raise_if-Keeps : (b : Bool) → Keeps {W = W} (raise_if b (upload_not_found path))
    raise_if-Keeps true h = refl
    raise_if-Keeps false h = refl

    check_entries-Keeps : Keeps (check_entries sources limits path)
    unfolding check_entries
    check_entries-Keeps h =
        let (r, w) = read_zip_entries sources path h.world in
        then-Keeps (entries_or_reject sources path r) _ (record h { world = w })
          (entries-Keeps sources path r (record h { world = w }))
          (λ entries h1.
            then-Keeps (accept sources path (check_lerobot_structure (entry_names entries)))
              (λ u. accept sources path (check_decompression_bomb entries limits)) h1
              (accept-Keeps sources path (check_lerobot_structure (entry_names entries)) h1)
              (λ u. accept-Keeps sources path (check_decompression_bomb entries limits)))

    check_metadata-Keeps : Keeps (check_metadata sources path policy)
    unfolding check_metadata
    check_metadata-Keeps h =
        let (r, w) = read_zip_member sources path info_json_path h.world in
        then-Keeps (info_or_reject sources path (parsed sources r)) _ (record h { world = w })
          (info-Keeps sources path (parsed sources r) (record h { world = w }))
          (λ info h1.
            continue-Keeps (check_policy_compatibility info policy) _ h1
              (λ verdict. accept-Keeps sources path verdict))

    check_zip-Keeps : Keeps (check_zip sources limits path policy)
    unfolding check_zip
    check_zip-Keeps h = continue-Keeps (sources.exists path h.world).0 _ _ (λ present h1.
        then-Keeps (raise_if (not present) (upload_not_found path)) _ h1
          (raise_if-Keeps (not present) h1)
          (λ u h2.
            then-Keeps (check_entries sources limits path) _ h2 (check_entries-Keeps h2)
              (λ u2. check_metadata-Keeps)))

    Structured : List ZipEntryMeta → Type 0
    Structured entries =
        ((check_lerobot_structure (entry_names entries)).ok ≡ true) × FitsLimits limits entries

    check_entries-ok :
        (h : Site W) (u : Unit {0})
        → (check_entries sources limits path h).0 ≡ ok u
        → (entries : List ZipEntryMeta) × ((read_zip_entries sources path h.world).0 ≡ ok entries)
          × Structured entries
    unfolding check_entries Structured
    check_entries-ok h u e =
        let (r, w) = read_zip_entries sources path h.world in
        let first = entries_or_reject sources path r (record h { world = w }) in
        let (entries, read, e1) = continue-ok first.0 _ first.1 e in
        let second = accept sources path (check_lerobot_structure (entry_names entries)) first.1 in
        let (u1, structured, e2) = continue-ok second.0 _ second.1 e1 in
        (
          entries,
          entries-ok sources path r (record h { world = w }) entries read,
          (
            accept-ok sources path (check_lerobot_structure (entry_names entries)) first.1 u1
                structured,
            (check_decompression_bomb_iff entries limits).0
                (accept-ok sources path (check_decompression_bomb entries limits) second.1 u e2),
          ),
        )

    check_metadata-ok :
        (h : Site W) (u : Unit {0})
        → (check_metadata sources path policy h).0 ≡ ok u
        → (info : Json) × (verdict : ValidationResult) × (parsed sources
              (read_zip_member sources path info_json_path h.world).0
            ≡ ok info)
          × (check_policy_compatibility info policy ≡ ok verdict)
          × (verdict.ok ≡ true)
    unfolding check_metadata
    check_metadata-ok h u e =
        let (r, w) = read_zip_member sources path info_json_path h.world in
        let first = info_or_reject sources path (parsed sources r) (record h { world = w }) in
        let (info, read, e1) = continue-ok first.0 _ first.1 e in
        let (verdict, shaped, e2) =
          continue-ok (check_policy_compatibility info policy) _ first.1 e1 in
        (
          info,
          verdict,
          info-ok sources path (parsed sources r) (record h { world = w }) info read,
          shaped,
          accept-ok sources path verdict first.1 u e2,
        )

    check_zip-IsTrainable :
        (h : Site W) (u : Unit {0})
        → (check_zip sources limits path policy h).0 ≡ ok u
        → IsTrainable path policy
    unfolding check_zip Structured
    check_zip-IsTrainable h u e =
        let (r, w) = sources.exists path h.world in
        let (present, is_there, e1) = continue-ok r _ (record h { world = w }) e in
        let second = raise_if (not present) (upload_not_found path) (record h { world = w }) in
        let (u1, f1, e2) = continue-ok second.0 _ second.1 e1 in
        let third = check_entries sources limits path second.1 in
        let (u2, f2, e3) = continue-ok third.0 _ third.1 e2 in
        let (entries, listed, good) = check_entries-ok second.1 u2 f2 in
        let (info, verdict, metadata, shaped, compatible) = check_metadata-ok third.1 u e3 in
        record {
          first_read = second.1.world;
          second_read = third.1.world;
          entries = entries;
          info = info;
          verdict = verdict;
          listed = listed;
          structured = good.0;
          small = good.1;
          metadata = metadata;
          shaped = shaped;
          compatible = compatible;
        }

  module _ (id : String) (checked_at now : DateTime) (user_id upload_id : String)
      (policy : PolicyType) (steps : ℤ) (h : Site W) where
    abbrev pub confirmed : Result Error Job × Site W
    confirmed = confirm_zip_upload sources limits id checked_at now user_id upload_id policy steps h

    -- The creation of the job, on the database as it was before the request.
    abbrev pub created : Result Error Job × Database
    created =
        create_job id checked_at now user_id policy zip_upload (upload_path user_id upload_id) steps
          h.db

    abbrev checking : Result Error (Unit {0}) × Site W
    checking = check_zip sources limits (upload_path user_id upload_id) policy h

    abbrev creating : Site W → Result Error Job × Database
    creating h1 =
        create_job id checked_at now user_id policy zip_upload (upload_path user_id upload_id) steps
          h1.db

    confirmed-creates :
        checking.0 ≡ ok tt → (confirmed.0 ≡ created.0) × (confirmed.1.db ≡ created.1)
    unfolding confirm_zip_upload
    confirmed-creates e =
        let kept = check_zip-Keeps (upload_path user_id upload_id) policy h in
        (rw e (rw kept), rw e (rw kept))

    -- Where a request to use an upload returns a job, the archive was read from the storage under the
    -- user's path and passed every check: it has the metadata file and data, it is within the
    -- limits, its metadata is JSON that fits the policy; and the job and the database are what the
    -- creation of a job for this path makes of the database as it was.
    pub confirm_zip_upload-IsTrainable :
        {job : Job}
        → confirmed.0 ≡ ok job
        → IsTrainable (upload_path user_id upload_id) policy
          × (created.0 ≡ ok job)
          × (confirmed.1.db ≡ created.1)
    unfolding confirm_zip_upload
    confirm_zip_upload-IsTrainable {job} e =
        let (u, passed, e1) = continue-ok checking.0 _ checking.1 e in
        let made = confirmed-creates passed in
        (
          check_zip-IsTrainable (upload_path user_id upload_id) policy h u passed,
          sym made.0 ∙ e,
          made.1,
        )

    -- A request to use an upload that raises, whatever the reason, leaves the database as it was.
    pub confirm_zip_upload-refused : {e : Error} → confirmed.0 ≡ err e → confirmed.1.db ≡ h.db
    unfolding confirm_zip_upload
    confirm_zip_upload-refused {e} r = elim (Result-cases checking.0) [
      | inl (u, passed) ↦
          let made = confirmed-creates passed in
          made.1
          ∙ (create_job-refused id checked_at now user_id policy zip_upload
              (upload_path user_id upload_id) steps h.db (sym made.0 ∙ r)).0
      | inr (x, failed) ↦ rw failed (check_zip-Keeps (upload_path user_id upload_id) policy h)
    ]
