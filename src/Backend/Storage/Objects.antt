-- ===== src/Backend/Storage/Objects.antt =====
-- What the development storage answers after writes and deletions.
use phyai_saas_train_vla.Prelude.{
  ◌≡◌, refl, String, Bool, true, false, Option, none, some, [], ◌∷◌, arith, eq_iff, ◌==◌, text_eq,
  if◌then◌else◌, ok, err, ap, ◌∙◌,
}
use phyai_saas_train_vla.Dict
use phyai_saas_train_vla.Dict.{Dict, get-put}
use phyai_saas_train_vla.Common.Errors.{file_not_found}
use phyai_saas_train_vla.Backend.Api.Errors.{Response, answer, failure, respond}
use phyai_saas_train_vla.Backend.Storage.{
  Bytes, ObjectStorage, put_bytes, open_read_stream, delete, or_404, put_object, get_object,
}

-- No path stands twice, as in any dictionary.
abbrev pub IsOnce : Dict Bytes → Type 0
IsOnce [] = Unit
IsOnce ((path, content) ∷ objects) = (Dict.get objects path ≡ none) × IsOnce objects

get-pop :
    (objects : Dict Bytes) (k j : String)
    → IsOnce objects
    → Dict.get (Dict.pop objects k) j ≡ (if k == j then none else Dict.get objects j)
get-pop [] k j once = ground arith
get-pop ((i, v) ∷ objects) k j once =
    ground (arith, get-pop objects k j once.1, once.0, eq_iff i k, eq_iff i j, eq_iff k j)

pub put-IsOnce :
    (objects : Dict Bytes) (k : String) (v : Bytes) → IsOnce objects → IsOnce (Dict.put objects k v)
put-IsOnce [] k v once = (refl, tt)
put-IsOnce ((i, w) ∷ objects) k v once =
    ground
      (arith, put-IsOnce objects k v once.1, get-put objects k i v, once.0, eq_iff i k, eq_iff k i)

-- What the endpoint answers, by what the dictionary holds.
answered : Option Bytes → Response Bytes
answered none = failure 404 "Object not found"
answered (some content) = answer content

get_object-get :
    (path : String) (storage : ObjectStorage)
    → get_object path storage ≡ answered (Dict.get storage.objects path)
unfolding get_object open_read_stream respond answered
get_object-get path storage = by_content (Dict.get storage.objects path)
  where
    by_content :
        (o : Option Bytes)
        → respond (or_404 (elim o [ none ↦ err (file_not_found path) | some content ↦ ok content ]))
          ≡ answered o
    by_content none = refl
    by_content (some content) = refl

answered-if :
    (b : Bool) (o p : Option Bytes)
    → answered (if b then o else p) ≡ (if b then answered o else answered p)
answered-if true o p = refl
answered-if false o p = refl

-- After a body was put under a path, a request for that path is answered with the body, and any
-- other as before; after a deletion a request for the deleted path is answered with 404, and any
-- other as before, where no path stands twice.
pub get_object_exact :
    (storage : ObjectStorage) (path other : String) (body : Bytes)
    → IsOnce storage.objects
    → (get_object other (put_object path body storage).1
        ≡ (if path == other then answer body else get_object other storage))
      × (get_object other (delete path storage)
          ≡ (if path == other then failure 404 "Object not found" else get_object other storage))
unfolding put_object put_bytes delete answered
get_object_exact storage path other body once = (
  rw (get_object-get other storage) (
      get_object-get other (put_bytes path body storage)
      ∙ ap answered (get-put storage.objects path other body)
      ∙ answered-if (path == other) (some body) (Dict.get storage.objects other)),
  rw (get_object-get other storage) (
      get_object-get other (delete path storage)
      ∙ ap answered (get-pop storage.objects path other once)
      ∙ answered-if (path == other) none (Dict.get storage.objects other)),
)
