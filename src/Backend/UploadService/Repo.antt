-- ===== src/Backend/UploadService/Repo.antt =====
-- What has been checked of a repository of the model hub from which a job was made.
use phyai_saas_train_vla.Prelude.{
  ◌≡◌, refl, sym, ◌∙◌, String, Bool, true, false, not, List, Result, ok, err, raise_if, Bool-cases,
  Result-cases, inl, inr, ℤ,
}
use phyai_saas_train_vla.Common.Models.{DateTime, PolicyType, hf_hub, Job}
use phyai_saas_train_vla.Common.Errors.{
  Error, Checked, hf_dataset_not_found, file_not_found, invalid_info_json,
}
use phyai_saas_train_vla.Common.Validation.{ValidationResult, check_lerobot_structure}
use phyai_saas_train_vla.Common.PolicyShapes.{Json, check_policy_compatibility}
use phyai_saas_train_vla.Repository.Database.{Database}
use phyai_saas_train_vla.Backend.JobService.{create_job}
use phyai_saas_train_vla.Backend.JobService.Create.{create_job-refused}
use phyai_saas_train_vla.Backend.UploadService.{
  Sources, Site, info_json_path, parsed, demand, info_or_raise, check_repo, submit_hf_dataset,
}
use phyai_saas_train_vla.Backend.UploadService.Steps.{
  Keeps, continue-Keeps, then-Keeps, continue-ok,
}

module _ {W S B : Type 0} (sources : Sources W S B) where
  demand-Keeps : (result : ValidationResult) → Keeps {W = W} (demand sources result)
  unfolding demand
  demand-Keeps result h = elim (Bool-cases result.ok) [ inl good ↦ rw good | inr bad ↦ rw bad ]

  demand-ok :
      (result : ValidationResult) (h : Site W) (u : Unit {0})
      → (demand sources result h).0 ≡ ok u
      → result.ok ≡ true
  unfolding demand
  demand-ok result h u e = elim (Bool-cases result.ok) [
    | inl good ↦ good
    | inr bad ↦ cc (rw bad at e)
  ]

  info-Keeps : (r : Checked Json) → Keeps {W = W} (info_or_raise sources r)
  unfolding info_or_raise
  info-Keeps (ok info) h = refl
  info-Keeps (err (file_not_found message)) h = refl
  info-Keeps (err (invalid_info_json message)) h = refl
  info-Keeps (err _) h = refl

  info-ok :
      (r : Checked Json) (h : Site W) (info : Json)
      → (info_or_raise sources r h).0 ≡ ok info
      → r ≡ ok info
  unfolding info_or_raise
  info-ok (ok found) h info e = e
  info-ok (err (file_not_found message)) h info e = cc
  info-ok (err (invalid_info_json message)) h info e = cc
  info-ok (err _) h info e = cc

  -- The repository as the hub gave it: its files and metadata pass every check.
  pub record IsTrainableRepo (repo_id : String) (policy : PolicyType) : Type 0 where
    pub first_read : W
    pub second_read : W
    pub names : List String
    pub info : Json
    pub verdict : ValidationResult
    pub listed : (sources.list_repo_files repo_id first_read).0 ≡ ok names
    pub structured : (check_lerobot_structure names).ok ≡ true
    pub metadata :
        parsed sources (sources.get_repo_file_bytes repo_id info_json_path second_read).0 ≡ ok info
    pub shaped : check_policy_compatibility info policy ≡ ok verdict
    pub compatible : verdict.ok ≡ true

  module _ (repo_id : String) (policy : PolicyType) where
    raise_if-Keeps : (b : Bool) → Keeps {W = W} (raise_if b (hf_dataset_not_found repo_id))
    raise_if-Keeps true h = refl
    raise_if-Keeps false h = refl

    check_repo-Keeps : Keeps (check_repo sources repo_id policy)
    unfolding check_repo
    check_repo-Keeps h = continue-Keeps (sources.repo_exists repo_id h.world).0 _ _ (λ present h1.
        then-Keeps (raise_if (not present) (hf_dataset_not_found repo_id)) _ h1
          (raise_if-Keeps (not present) h1)
          (λ u h2. continue-Keeps (sources.list_repo_files repo_id h2.world).0 _ _ (λ names h3.
            then-Keeps (demand sources (check_lerobot_structure names)) _ h3
              (demand-Keeps (check_lerobot_structure names) h3)
              (λ u2 h4.
                let (r, w) = sources.get_repo_file_bytes repo_id info_json_path h4.world in
                then-Keeps (info_or_raise sources (parsed sources r)) _ (record h4 { world = w })
                  (info-Keeps (parsed sources r) (record h4 { world = w }))
                  (λ info h5.
                    continue-Keeps (check_policy_compatibility info policy) _ h5
                      (λ verdict. demand-Keeps verdict))))))

    check_repo-IsTrainableRepo :
        (h : Site W) (u : Unit {0})
        → (check_repo sources repo_id policy h).0 ≡ ok u
        → IsTrainableRepo repo_id policy
    unfolding check_repo
    check_repo-IsTrainableRepo h u e =
        let (r, w) = sources.repo_exists repo_id h.world in
        let (present, is_there, e1) = continue-ok r _ (record h { world = w }) e in
        let second =
          raise_if (not present) (hf_dataset_not_found repo_id) (record h { world = w }) in
        let (u1, f1, e2) = continue-ok second.0 _ second.1 e1 in
        let (l, w2) = sources.list_repo_files repo_id second.1.world in
        let (names, listed, e3) = continue-ok l _ (record second.1 { world = w2 }) e2 in
        let third =
          demand sources (check_lerobot_structure names) (record second.1 { world = w2 }) in
        let (u2, structured, e4) = continue-ok third.0 _ third.1 e3 in
        let (b, w3) = sources.get_repo_file_bytes repo_id info_json_path third.1.world in
        let fourth = info_or_raise sources (parsed sources b) (record third.1 { world = w3 }) in
        let (info, read, e5) = continue-ok fourth.0 _ fourth.1 e4 in
        let (verdict, shaped, e6) =
          continue-ok (check_policy_compatibility info policy) _ fourth.1 e5 in
        record {
          first_read = second.1.world;
          second_read = third.1.world;
          names = names;
          info = info;
          verdict = verdict;
          listed = listed;
          structured =
              demand-ok (check_lerobot_structure names) (record second.1 { world = w2 }) u2
                structured;
          metadata = info-ok (parsed sources b) (record third.1 { world = w3 }) info read;
          shaped = shaped;
          compatible = demand-ok verdict fourth.1 u e6;
        }

  module _ (id : String) (checked_at now : DateTime) (user_id repo_id : String)
      (policy : PolicyType) (steps : ℤ) (h : Site W) where
    abbrev pub submitted : Result Error Job × Site W
    submitted = submit_hf_dataset sources id checked_at now user_id repo_id policy steps h

    abbrev pub created : Result Error Job × Database
    created = create_job id checked_at now user_id policy hf_hub repo_id steps h.db

    abbrev checking : Result Error (Unit {0}) × Site W
    checking = check_repo sources repo_id policy h

    submitted-creates :
        checking.0 ≡ ok tt → (submitted.0 ≡ created.0) × (submitted.1.db ≡ created.1)
    unfolding submit_hf_dataset
    submitted-creates e =
        let kept = check_repo-Keeps repo_id policy h in (rw e (rw kept), rw e (rw kept))

    -- Where a request to use a repository of the hub returns a job, the repository's files and its
    -- metadata, as the hub gave them, passed every check, and the job and the database are
    -- what the creation of a job for this repository makes of the database as it was.
    pub submit_hf_dataset-IsTrainableRepo :
        {job : Job}
        → submitted.0 ≡ ok job
        → IsTrainableRepo repo_id policy × (created.0 ≡ ok job) × (submitted.1.db ≡ created.1)
    unfolding submit_hf_dataset
    submit_hf_dataset-IsTrainableRepo {job} e =
        let (u, passed, e1) = continue-ok checking.0 _ checking.1 e in
        let made = submitted-creates passed in
        (check_repo-IsTrainableRepo repo_id policy h u passed, sym made.0 ∙ e, made.1)

    -- A request to use a repository that raises, whatever the reason, leaves the database as it was.
    pub submit_hf_dataset-refused : {e : Error} → submitted.0 ≡ err e → submitted.1.db ≡ h.db
    unfolding submit_hf_dataset
    submit_hf_dataset-refused {e} r = elim (Result-cases checking.0) [
      | inl (u, passed) ↦
          let made = submitted-creates passed in
          made.1
          ∙ (create_job-refused id checked_at now user_id policy hf_hub repo_id steps h.db
              (sym made.0 ∙ r)).0
      | inr (x, failed) ↦ rw failed (check_repo-Keeps repo_id policy h)
    ]
