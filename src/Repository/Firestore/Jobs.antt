-- ===== src/Repository/Firestore/Jobs.antt =====
-- FirestoreJobRepository of backend/adapters/firestore/job_repository.py.
use phyai_saas_train_vla.Prelude.{String, Option, none, some, List, [], ◌∷◌, map, ok}
use phyai_saas_train_vla.Prelude.Fallible.{◌>>=◌}
use phyai_saas_train_vla.Common.Models.{JobStatus, status_value, Job}
use phyai_saas_train_vla.Common.Errors.{Checked}
use phyai_saas_train_vla.Repository.Firestore.{Document, Row, Client}
use phyai_saas_train_vla.Repository.Firestore.Codec.{job_to_doc, doc_to_job}

abbrev pub found_job : String → Option Document → Checked (Option Job)
found_job job_id none = ok none
found_job job_id (some doc) = do job ← doc_to_job job_id doc; ok (some job)

-- `[_doc_to_job(snap.id, snap.to_dict()) for snap in query.stream()]`
abbrev pub read_all : List Row → Checked (List Job)
read_all [] = ok []
read_all (row ∷ rows) = do job ← doc_to_job row.0 row.1; jobs ← read_all rows; ok (job ∷ jobs)

module _ {C : Type 0} (client : Client C) where
  unfoldable pub get : C → String → Checked (Option Job)
  get c job_id = found_job job_id (client.get_doc c job_id)

  unfoldable pub create : C → Job → C
  create c job = client.set_doc c job.id (job_to_doc job)

  unfoldable pub update : C → Job → C
  update c job = client.set_doc c job.id (job_to_doc job)

  unfoldable pub list_for_user : C → String → Checked (List Job)
  list_for_user c user_id = read_all (client.stream c "user_id" (user_id ∷ []))

  unfoldable pub list_by_statuses : C → List JobStatus → Checked (List Job)
  list_by_statuses c statuses = read_all (client.stream c "status" (map status_value statuses))
