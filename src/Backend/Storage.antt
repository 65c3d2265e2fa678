-- ===== src/Backend/Storage.antt =====
-- The other in-memory adapters of backend/adapters/memory.py, for work without cloud services, and the
-- endpoints of backend/api/dev_storage.py, by which the storage's links can be used. Files on the disk
-- are a parameter over a world `W`. Contents are lists of bytes.
pub mod Objects
use Prim.Native.String
use Prim.Native.Char.{code}
use phyai_saas_train_vla.Prelude.{
  ℕ, String, Bool, true, false, not, ◌&&◌, Option, none, some, List, [], ◌∷◌, Result, ok, err, Exec,
  pure, raise, ◌>>=◌, ◌>>◌, format, eqb, ◌==◌, text_eq, if◌then◌else◌,
}
use phyai_saas_train_vla.Dict
use phyai_saas_train_vla.Dict.{Dict}
use phyai_saas_train_vla.Common.Float.{one}
use phyai_saas_train_vla.Common.Errors.{Error, Checked, file_not_found, value_error, http_exception}
use phyai_saas_train_vla.Backend.AuthService.{CaptchaResult, HfOauthUser}
use phyai_saas_train_vla.Backend.Api.Errors.{Response, respond}

abbrev pub Bytes : Type 0
Bytes = List ℕ

-- `s.rstrip("/")`; 47 is the code of "/".
unfoldable pub rstrip_slash : String → String
rstrip_slash String.[] = ""
rstrip_slash (String.◌∷◌ c s) =
    let rest = rstrip_slash s in if rest == "" && eqb (code c) 47 then "" else String.◌∷◌ c rest

pub record ObjectStorage : Type 0 where
  pub objects : Dict Bytes
  pub base_url : String

unfoldable pub new_storage : String → ObjectStorage
unfolding rstrip_slash
new_storage base_url = record { objects = []; base_url = rstrip_slash base_url }

unfoldable pub put_bytes : String → Bytes → ObjectStorage → ObjectStorage
put_bytes object_path content storage = record storage {
  objects = Dict.put storage.objects object_path content;
}

-- The content type and the expiry are not used.
unfoldable pub generate_upload_url : ObjectStorage → String → String
generate_upload_url storage object_path =
    format (storage.base_url ∷ "/dev-storage/" ∷ object_path ∷ [])

unfoldable pub generate_object_download_url : ObjectStorage → String → String
generate_object_download_url storage object_path =
    format (storage.base_url ∷ "/dev-storage/" ∷ object_path ∷ [])

unfoldable pub open_read_stream : ObjectStorage → String → Checked Bytes
open_read_stream storage object_path = elim (Dict.get storage.objects object_path) [
  | none ↦ err (file_not_found object_path)
  | some content ↦ ok content
]

unfoldable pub exists : ObjectStorage → String → Bool
exists storage object_path = Dict.has storage.objects object_path

unfoldable pub delete : String → ObjectStorage → ObjectStorage
delete object_path storage = record storage { objects = Dict.pop storage.objects object_path }

-- `read_file` is `open(local_path, "rb")` with `read`.
unfoldable pub upload_file :
    (read_file : String → Checked Bytes) → String → String → Exec ObjectStorage Error (Unit {0})
unfolding put_bytes
upload_file read_file object_path local_path storage = elim (read_file local_path) [
  | err e ↦ (err e, storage)
  | ok content ↦ (ok tt, put_bytes object_path content storage)
]

-- The endpoints, where the storage is the one in memory: a body is put under a path, and read again.
unfoldable pub put_object : String → Bytes → ObjectStorage → Response (Unit {0}) × ObjectStorage
unfolding put_bytes respond
put_object object_path body storage = (respond (ok tt), put_bytes object_path body storage)

-- `except FileNotFoundError`
abbrev pub or_404 : Checked Bytes → Checked Bytes
or_404 (err (file_not_found path)) = err (http_exception 404 "Object not found")
or_404 r = r

unfoldable pub get_object : String → ObjectStorage → Response Bytes
unfolding open_read_stream respond
get_object object_path storage = respond (or_404 (open_read_stream storage object_path))

-- The hub: the files of each repository.
abbrev pub Hub : Type 0
Hub = Dict (Dict Bytes)

unfoldable pub add_repo : String → Dict Bytes → Hub → Hub
add_repo repo_id files hub = Dict.put hub repo_id files

unfoldable pub repo_exists : Hub → String → Bool
repo_exists hub repo_id = Dict.has hub repo_id

unfoldable pub list_repo_files : Hub → String → Checked (List String)
list_repo_files hub repo_id = elim (Dict.get hub repo_id) [
  | none ↦ err (file_not_found repo_id)
  | some files ↦ ok (Dict.keys files)
]

unfoldable pub get_repo_file_bytes : Hub → String → String → Checked Bytes
get_repo_file_bytes hub repo_id path_in_repo = elim (Dict.get hub repo_id) [
  | none ↦ err (file_not_found (format (repo_id ∷ ":" ∷ path_in_repo ∷ [])))
  | some files ↦ elim (Dict.get files path_in_repo) [
    | none ↦ err (file_not_found (format (repo_id ∷ ":" ∷ path_in_repo ∷ [])))
    | some content ↦ ok content
  ]
]

module _ {W : Type 0} (write_file : String → Bytes → Exec W Error (Unit {0})) where
  -- `write_file` makes the directories above the file too.
  unfoldable pub write_files : String → Dict Bytes → Exec W Error (Unit {0})
  write_files target_dir [] = pure tt
  write_files target_dir ((path_in_repo, content) ∷ files) = do
    write_file (format (target_dir ∷ "/" ∷ path_in_repo ∷ [])) content
    write_files target_dir files

  unfoldable pub download_dataset : Hub → String → String → Exec W Error (Unit {0})
  unfolding write_files
  download_dataset hub repo_id target_dir = elim (Dict.get hub repo_id) [
    | none ↦ raise (file_not_found repo_id)
    | some files ↦ write_files target_dir files
  ]

-- There is no captcha to fail, and no login through the hub.
unfoldable pub verify_captcha : String → CaptchaResult
verify_captcha token = record { success = true; score = one }

unfoldable pub exchange_code_for_user : String → String → Checked HfOauthUser
exchange_code_for_user code redirect_uri =
    err (value_error "HF OAuth is not available in local dev mode")
