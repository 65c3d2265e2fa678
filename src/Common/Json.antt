-- ===== src/Common/Json.antt =====
-- The values that Python's `json` reads and writes.
use phyai_saas_train_vla.Prelude.{
  ℤ, String, Bool, Option, none, some, List, [], ◌∷◌, ◌==◌, text_eq, if◌then◌else◌,
}
use phyai_saas_train_vla.Common.Float.{Float}

mutual
  pub data Json : Type 0 where
    null : Json
    bool : Bool → Json
    integer : ℤ → Json
    real : Float → Json
    text : String → Json
    array : Items → Json
    object : Fields → Json

  pub data Items : Type 0 where
    nil : Items
    cons : Json → Items → Items

  pub data Fields : Type 0 where
    end : Fields
    field : String → Json → Fields → Fields

abbrev pub field_names : Fields → List String
field_names end = []
field_names (field k v fs) = k ∷ field_names fs

abbrev pub field_get : Fields → String → Option Json
field_get end k = none
field_get (field j v fs) k = if j == k then some v else field_get fs k
