-- ===== src/Backend/UploadService/Steps.antt =====
-- What has been checked of an archive or a repository from which a job was made.
use phyai_saas_train_vla.Prelude.{
  ◌≡◌, ◌≢◌, refl, ◌∙◌, String, true, Option, some, List, Result, ok, err, continue, Bool-cases, inl,
  inr,
}
use phyai_saas_train_vla.Common.Errors.{
  Error, Checked, error_text, bad_zip_file, key_error, file_not_found, invalid_info_json,
}
use phyai_saas_train_vla.Common.Validation.{ZipEntryMeta, ValidationResult}
use phyai_saas_train_vla.Common.PolicyShapes.{Json}
use phyai_saas_train_vla.Backend.UploadService.{
  Sources, Site, Action, missing_info, bad_archive, reject, accept, entries_or_reject,
  info_or_reject,
}

module _ {W : Type 0} where
  -- An action that leaves the database as it is.
  abbrev pub Keeps : {A : Type 0} → Action W A → Type 0
  Keeps m = (h : Site W) → (m h).1.db ≡ h.db

  pub continue-Keeps :
      {A B : Type 0} (r : Result Error A) (f : A → Action W B) (h : Site W)
      → ((a : A) → Keeps (f a))
      → (continue r f h).1.db ≡ h.db
  continue-Keeps (ok a) f h k = k a h
  continue-Keeps (err e) f h k = refl

  pub then-Keeps :
      {A B : Type 0} (m : Action W A) (f : A → Action W B) (h : Site W)
      → (m h).1.db ≡ h.db
      → ((a : A) → Keeps (f a))
      → (continue (m h).0 f (m h).1).1.db ≡ h.db
  then-Keeps m f h e k = continue-Keeps (m h).0 f (m h).1 k ∙ e

  -- A step that returned was preceded by one that returned.
  pub continue-ok :
      {A B : Type 0} (r : Result Error A) (f : A → Action W B) (h : Site W) {b : B}
      → (continue r f h).0 ≡ ok b
      → (a : A) × (r ≡ ok a) × ((f a h).0 ≡ ok b)
  continue-ok (ok a) f h e = (a, refl, e)
  continue-ok (err x) f h e = cc

module _ {W S B : Type 0} (sources : Sources W S B) where
  reject-Keeps :
      (A : Type 0) (path : String) (message : Option String)
      → Keeps (reject sources {A = A} path message)
  unfolding reject
  reject-Keeps A path message h = continue-Keeps (sources.delete path h.world).0 _ _ (λ a s. refl)

  reject-raises :
      {A : Type 0} (path : String) (message : Option String) (h : Site W) (a : A)
      → (reject sources {A = A} path message h).0 ≢ ok a
  unfolding reject
  reject-raises path message h a e =
      let (u, deleted, returned) = continue-ok (sources.delete path h.world).0 _ _ e in cc

  pub accept-Keeps :
      (path : String) (result : ValidationResult) → Keeps (accept sources path result)
  unfolding accept
  accept-Keeps path result h = elim (Bool-cases result.ok) [
    | inl good ↦ rw good
    | inr bad ↦ rw bad (reject-Keeps (Unit {0}) path result.error h)
  ]

  pub accept-ok :
      (path : String) (result : ValidationResult) (h : Site W) (u : Unit {0})
      → (accept sources path result h).0 ≡ ok u
      → result.ok ≡ true
  unfolding accept
  accept-ok path result h u e = elim (Bool-cases result.ok) [
    | inl good ↦ good
    | inr bad ↦ elim (reject-raises path result.error h u (rw bad at e)) [ ]
  ]

  pub entries-Keeps :
      (path : String) (r : Result Error (List ZipEntryMeta))
      → Keeps (entries_or_reject sources path r)
  unfolding entries_or_reject
  entries-Keeps path (ok entries) h = refl
  entries-Keeps path (err (bad_zip_file message)) h =
      reject-Keeps (List ZipEntryMeta) path (some bad_archive) h
  entries-Keeps path (err _) h = refl

  pub entries-ok :
      (path : String) (r : Result Error (List ZipEntryMeta)) (h : Site W)
      (entries : List ZipEntryMeta)
      → (entries_or_reject sources path r h).0 ≡ ok entries
      → r ≡ ok entries
  unfolding entries_or_reject
  entries-ok path (ok found) h entries e = e
  entries-ok path (err (bad_zip_file message)) h entries e =
      elim (reject-raises path (some bad_archive) h entries e) [ ]
  entries-ok path (err _) h entries e = cc

  pub info-Keeps : (path : String) (r : Checked Json) → Keeps (info_or_reject sources path r)
  unfolding info_or_reject
  info-Keeps path (ok info) h = refl
  info-Keeps path (err (key_error message)) h = reject-Keeps Json path (some missing_info) h
  info-Keeps path (err (file_not_found message)) h = reject-Keeps Json path (some missing_info) h
  info-Keeps path (err (invalid_info_json message)) h =
      reject-Keeps Json path (some (error_text (invalid_info_json message))) h
  info-Keeps path (err _) h = refl

  pub info-ok :
      (path : String) (r : Checked Json) (h : Site W) (info : Json)
      → (info_or_reject sources path r h).0 ≡ ok info
      → r ≡ ok info
  unfolding info_or_reject
  info-ok path (ok found) h info e = e
  info-ok path (err (key_error message)) h info e =
      elim (reject-raises path (some missing_info) h info e) [ ]
  info-ok path (err (file_not_found message)) h info e =
      elim (reject-raises path (some missing_info) h info e) [ ]
  info-ok path (err (invalid_info_json message)) h info e =
      elim (reject-raises path (some (error_text (invalid_info_json message))) h info e) [ ]
  info-ok path (err _) h info e = cc
