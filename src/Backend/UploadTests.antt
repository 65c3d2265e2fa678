-- ===== src/Backend/UploadTests.antt =====
-- The theorems on uploads at a concrete archive, over a world that counts the calls.
use phyai_saas_train_vla.Prelude.{
  ℕ, ◌+◌, ◌≡◌, refl, String, [], ◌∷◌, ok, err, pos, ◌==◌, text_eq, format,
}
use phyai_saas_train_vla.Common.Models.{act, zip_upload, Job}
use phyai_saas_train_vla.Common.Errors.{upload_not_found}
use phyai_saas_train_vla.Common.Validation.{
  default_limits, check_lerobot_structure, check_decompression_bomb,
}
use phyai_saas_train_vla.Common.PolicyShapes.{
  Json, Fields, parse_info_json, check_policy_compatibility, has_visual_feature,
}
use phyai_saas_train_vla.Common.Limits.{validate_training_steps}
use phyai_saas_train_vla.Common.Quota.{can_create_job}
use phyai_saas_train_vla.Repository.Users
use phyai_saas_train_vla.Repository.Jobs
use phyai_saas_train_vla.Backend.UploadService.{submit_hf_dataset}
use phyai_saas_train_vla.Backend.UploadService.Repo.{
  IsTrainableRepo, submit_hf_dataset-IsTrainableRepo,
}
use phyai_saas_train_vla.Common.Models.{hf_hub}
use phyai_saas_train_vla.Common.Errors.{hf_dataset_not_found}
use phyai_saas_train_vla.Samples.{db_free}
use phyai_saas_train_vla.Backend.JobService.{create_job, new_job}
use phyai_saas_train_vla.Backend.UploadService.{Sources, Site, confirm_zip_upload}
use phyai_saas_train_vla.Backend.UploadService.Zip.{
  IsTrainable, confirm_zip_upload-IsTrainable, confirm_zip_upload-refused,
}

abbrev metadata : Json
metadata = Json.object (
    Fields.field "features"
      (Json.object (
        Fields.field "observation.state" Json.null (
          Fields.field "action" Json.null (Fields.field "observation.image" Json.null Fields.end))))
      Fields.end)

abbrev archive : Sources ℕ String String
archive = record {
  generate_upload_url = λ path type seconds. path;
  exists = λ path w. (ok (path == "uploads/alice/u.zip"), w + 1);
  delete = λ path w. (ok tt, w + 1);
  open_read_stream = λ path w. (ok path, w + 1);
  infolist = λ stream. ok (
      record { name = "meta/info.json"; uncompressed_size = 90 }
      ∷ record { name = "data/0"; uncompressed_size = 5 }
      ∷ []);
  read_member = λ stream name. ok "bytes";
  loads = λ bytes. ok metadata;
  repo_exists = λ repo w. (ok (repo == "org/d"), w);
  list_repo_files = λ repo w. (ok ("meta/info.json" ∷ "data/0" ∷ []), w);
  get_repo_file_bytes = λ repo path w. (ok "bytes", w);
}

abbrev site : Site ℕ
site = record { db = db_free; world = 0 }

abbrev new : Job
new = new_job "j9" "alice" act zip_upload "uploads/alice/u.zip" (pos 100) 6

alice_confirms :
    (confirm_zip_upload archive default_limits "j9" 5 6 "alice" "u" act (pos 100) site).0 ≡ ok new
unfolding confirm_zip_upload create_job format check_lerobot_structure check_decompression_bomb
    parse_info_json check_policy_compatibility has_visual_feature validate_training_steps Users.get
    can_create_job Jobs.list_for_user
alice_confirms = refl

confirm_zip_upload-IsTrainable_example :
    IsTrainable archive default_limits "uploads/alice/u.zip" act
    × ((create_job "j9" 5 6 "alice" act zip_upload "uploads/alice/u.zip" (pos 100) db_free).0
        ≡ ok new)
    × ((confirm_zip_upload archive default_limits "j9" 5 6 "alice" "u" act (pos 100) site).1.db
        ≡ (create_job "j9" 5 6 "alice" act zip_upload "uploads/alice/u.zip" (pos 100) db_free).1)
unfolding format
confirm_zip_upload-IsTrainable_example =
    confirm_zip_upload-IsTrainable archive default_limits "j9" 5 6 "alice" "u" act (pos 100) site
      alice_confirms

nothing_there :
    (confirm_zip_upload archive default_limits "j9" 5 6 "alice" "v" act (pos 100) site).0
    ≡ err (upload_not_found "uploads/alice/v.zip")
unfolding confirm_zip_upload format
nothing_there = refl

confirm_zip_upload-refused_example :
    (confirm_zip_upload archive default_limits "j9" 5 6 "alice" "v" act (pos 100) site).1.db
    ≡ db_free
confirm_zip_upload-refused_example =
    confirm_zip_upload-refused archive default_limits "j9" 5 6 "alice" "v" act (pos 100) site
      nothing_there

abbrev from_hub : Job
from_hub = new_job "j9" "alice" act hf_hub "org/d" (pos 100) 6

alice_submits :
    (submit_hf_dataset archive "j9" 5 6 "alice" "org/d" act (pos 100) site).0 ≡ ok from_hub
unfolding submit_hf_dataset create_job check_lerobot_structure parse_info_json
    check_policy_compatibility has_visual_feature validate_training_steps Users.get can_create_job
    Jobs.list_for_user
alice_submits = refl

submit_hf_dataset-IsTrainableRepo_example :
    IsTrainableRepo archive "org/d" act
    × ((create_job "j9" 5 6 "alice" act hf_hub "org/d" (pos 100) db_free).0 ≡ ok from_hub)
    × ((submit_hf_dataset archive "j9" 5 6 "alice" "org/d" act (pos 100) site).1.db
        ≡ (create_job "j9" 5 6 "alice" act hf_hub "org/d" (pos 100) db_free).1)
submit_hf_dataset-IsTrainableRepo_example =
    submit_hf_dataset-IsTrainableRepo archive "j9" 5 6 "alice" "org/d" act (pos 100) site
      alice_submits

no_repo :
    (submit_hf_dataset archive "j9" 5 6 "alice" "org/e" act (pos 100) site).0
    ≡ err (hf_dataset_not_found "org/e")
unfolding submit_hf_dataset
no_repo = refl
