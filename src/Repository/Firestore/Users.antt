-- ===== src/Repository/Firestore/Users.antt =====
-- FirestoreUserRepository of backend/adapters/firestore/user_repository.py.
use phyai_saas_train_vla.Prelude.{String, Option, none, some, List, [], ◌∷◌, ok}
use phyai_saas_train_vla.Prelude.Fallible.{◌>>=◌}
use phyai_saas_train_vla.Common.Models.{User}
use phyai_saas_train_vla.Common.Errors.{Checked}
use phyai_saas_train_vla.Repository.Firestore.{Document, Row, Client}
use phyai_saas_train_vla.Repository.Firestore.Codec.{DateText, user_to_doc, doc_to_user}

module _ {C : Type 0} (client : Client C) (dates : DateText) where
  abbrev pub found_user : String → Option Document → Checked (Option User)
  found_user user_id none = ok none
  found_user user_id (some doc) = do user ← doc_to_user dates user_id doc; ok (some user)

  -- `for snap in query.stream(): return ...`
  abbrev pub first_user : List Row → Checked (Option User)
  first_user [] = ok none
  first_user (row ∷ rows) = found_user row.0 (some row.1)

  unfoldable pub get : C → String → Checked (Option User)
  get c user_id = found_user user_id (client.get_doc c user_id)

  unfoldable pub get_by_email : C → String → Checked (Option User)
  get_by_email c email = first_user (client.limit_one c "email" email)

  unfoldable pub get_by_hf_user_id : C → String → Checked (Option User)
  get_by_hf_user_id c hf_user_id = first_user (client.limit_one c "hf_user_id" hf_user_id)

  unfoldable pub create : C → User → C
  create c user = client.set_doc c user.id (user_to_doc dates user)

  unfoldable pub update : C → User → C
  update c user = client.set_doc c user.id (user_to_doc dates user)
