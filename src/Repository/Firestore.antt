-- ===== src/Repository/Firestore.antt =====
-- The documents of Firestore, and its client as the adapters of src/backend/adapters/firestore use it.
pub mod Codec
pub mod Local
pub mod Jobs
pub mod Users
pub mod JobRefinement
pub mod Listings
pub mod JobRun
pub mod UserRefinement
pub mod RoundTrip
mod Tests
use phyai_saas_train_vla.Prelude.{
  ℕ, ◌≡◌, String, Bool, true, false, ◌&&◌, Option, none, some, List, [], ◌∷◌, ◌==◌, text_eq, any,
  contains, All, ℤ, if◌then◌else◌, IsSorted,
}
use phyai_saas_train_vla.Dict.Keyed.{IsDistinct}
use phyai_saas_train_vla.Common.Float.{Float}
use phyai_saas_train_vla.Common.Models.{DateTime}

mutual
  pub data Value : Type 0 where
    null : Value
    boolean : Bool → Value
    integer : ℤ → Value
    real : Float → Value
    text : String → Value
    timestamp : DateTime → Value
    map_value : Document → Value

  pub data Document : Type 0 where
    end : Document
    field : String → Value → Document → Document

-- `doc.get(key)`, where a missing key and a null are told apart
abbrev pub field_get : Document → String → Option Value
field_get end key = none
field_get (field k v doc) key = if k == key then some v else field_get doc key

abbrev pub is_empty_doc : Document → Bool
is_empty_doc end = true
is_empty_doc (field k v doc) = false

abbrev pub Row : Type 0
Row = String × Document

abbrev pub row_id : Row → String
row_id row = row.0

abbrev pub time_or_zero : Option Value → DateTime
time_or_zero (some (timestamp t)) = t
time_or_zero _ = 0

abbrev pub row_created : Row → DateTime
row_created row = time_or_zero (field_get row.1 "created_at")

abbrev pub is_time : Option Value → Bool
is_time (some (timestamp t)) = true
is_time _ = false

abbrev pub is_one_of : List String → Option Value → Bool
is_one_of values (some (text s)) = contains values s
is_one_of values _ = false

-- `where(key, "in", values).order_by("created_at")` takes the documents with one of the values under
-- the key that have the field to order by; `==` is `in` with one value.
abbrev pub selects : String → List String → Document → Bool
selects key values doc =
    is_one_of values (field_get doc key) && is_time (field_get doc "created_at")

-- A collection of the client, whose state is a `C`. A call that fails is not modelled.
pub record Client (C : Type 0) : Type 0 where
  pub get_doc : C → String → Option Document
  pub set_doc : C → String → Document → C
  pub stream : C → String → List String → List Row
  -- `where(key, "==", value).limit(1)`, in no order
  pub limit_one : C → String → String → List Row

module _ {C : Type 0} (client : Client C) (c : C) where
  -- What is documented of a query: it gives the selected documents, each once, ordered.
  pub record Answers (key : String) (values : List String) (rows : List Row) : Type 0 where
    pub given :
        All
          (λ (row : Row). (client.get_doc c row.0 ≡ some row.1) × (selects key values row.1 ≡ true))
          rows
    pub complete :
        (id : String) (doc : Document)
        → client.get_doc c id ≡ some doc
        → selects key values doc ≡ true
        → any (λ (row : Row). row.0 == id) rows ≡ true
    pub distinct : IsDistinct row_id rows
    pub ordered : IsSorted row_created rows

-- A query with limit 1 gives one of the documents with the value, or none where there is none.
abbrev pub OneOf : {C : Type 0} → Client C → C → String → String → List Row → Type 0
OneOf client c key value [] =
    (id : String) (doc : Document)
    → client.get_doc c id ≡ some doc
    → is_one_of (value ∷ []) (field_get doc key) ≡ false
OneOf client c key value (row ∷ rows) =
    (client.get_doc c row.0 ≡ some row.1)
    × (is_one_of (value ∷ []) (field_get row.1 key) ≡ true)
    × (rows ≡ [])

-- What is documented of the client: a document is read as it was last set, and queries answer.
pub record IsFirestore {C : Type 0} (client : Client C) : Type 0 where
  pub get-set :
      (c : C) (id other : String) (doc : Document)
      → client.get_doc (client.set_doc c id doc) other
        ≡ (if id == other then some doc else client.get_doc c other)
  pub answers :
      (c : C) (key : String) (values : List String)
      → Answers client c key values (client.stream c key values)
  pub one : (c : C) (key value : String) → OneOf client c key value (client.limit_one c key value)
