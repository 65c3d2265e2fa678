-- ===== src/Repository/Firestore/Local.antt =====
-- A client of Firestore over a dictionary: what is documented of the client can be had.
use mathlib.Core.Option
use phyai_saas_train_vla.Prelude.{
  ◌≡◌, refl, ap, String, Bool, true, false, Option, none, some, List, [], ◌∷◌, arith, eq_iff, ◌==◌,
  text_eq, any, filter, filter-All, All, All-imp, All-and, All-filter, All-sorted, sorted,
  insert_sorted, sorted-IsSorted, if◌then◌else◌, ◌||◌, ◌∙◌, sym, inl, inr, Bool-cases,
}
use phyai_saas_train_vla.Dict
use phyai_saas_train_vla.Dict.{Dict, values, get-put}
use phyai_saas_train_vla.Dict.Keyed.{
  IsKeyed, Stored, put-IsKeyed, values-Stored, values-IsDistinct, filter-IsDistinct,
  sorted-IsDistinct,
}
use phyai_saas_train_vla.Repository.Firestore.{
  Document, Row, row_id, row_created, selects, Client, Answers, OneOf, IsFirestore, is_one_of,
  field_get,
}

pub record Local : Type 0 where
  pub rows : Dict Row
  pub keyed : IsKeyed row_id rows

abbrev chosen : String → List String → Row → Bool
chosen key wanted row = selects key wanted row.1

abbrev equals : String → String → Row → Bool
equals key value row = is_one_of (value ∷ []) (field_get row.1 key)

abbrev first_of : List Row → List Row
first_of [] = []
first_of (row ∷ rows) = row ∷ []

abbrev pub local : Client Local
local = record {
  get_doc = λ c id. Option.map (λ (row : Row). row.1) (Dict.get c.rows id);
  set_doc = λ c id doc. record {
    rows = Dict.put c.rows id (id, doc);
    keyed = put-IsKeyed row_id c.rows id (id, doc) c.keyed refl;
  };
  stream = λ c key wanted. sorted row_created (filter (chosen key wanted) (values c.rows));
  limit_one = λ c key value. first_of (filter (equals key value) (values c.rows));
}

any-insert_sorted :
    (p : Row → Bool) (x : Row) (rows : List Row)
    → any p (insert_sorted row_created x rows) ≡ any p (x ∷ rows)
any-insert_sorted p x [] = refl
any-insert_sorted p x (y ∷ rows) = ground (arith, any-insert_sorted p x rows)

any-sorted : (p : Row → Bool) (rows : List Row) → any p (sorted row_created rows) ≡ any p rows
any-sorted p [] = refl
any-sorted p (x ∷ rows) =
    any-insert_sorted p x (sorted row_created rows) ∙ ap (λ b. p x || b) (any-sorted p rows)

any-values :
    (p : Row → Bool) (rows : Dict Row) (id : String) (row : Row)
    → IsKeyed row_id rows
    → Dict.get rows id ≡ some row
    → p row ≡ true
    → any (λ (r : Row). r.0 == id) (filter p (values rows)) ≡ true
any-values p [] id row k there fits = cc
any-values p ((j, r) ∷ rows) id row k there fits =
    ground (arith, eq_iff j id, eq_iff r.0 id, k.0, any-values p rows id row k.2)

some_row :
    (doc : Document) (o : Option Row)
    → Option.map (λ (r : Row). r.1) o ≡ some doc
    → (row : Row) × (o ≡ some row) × (row.1 ≡ doc)
some_row doc none e = cc
some_row doc (some row) e = (row, refl, cc)

module _ (c : Local) (key : String) (wanted : List String) where
  abbrev stored_rows : List Row
  stored_rows = filter (chosen key wanted) (values c.rows)

  local-Answers : Answers local c key wanted (local.stream c key wanted)
  local-Answers = record {
    given =
        All-imp (λ row. Stored row_id c.rows row × (chosen key wanted row ≡ true)) _
          (λ row h. (ap (Option.map (λ (r : Row). r.1)) h.0, h.1)) (sorted row_created stored_rows)
          (All-sorted row_created _ stored_rows (
            All-and (Stored row_id c.rows) (λ row. chosen key wanted row ≡ true) stored_rows
              (All-filter (Stored row_id c.rows) (chosen key wanted) (values c.rows)
                (values-Stored row_id c.rows c.keyed))
              (filter-All (chosen key wanted) (values c.rows))));
    complete = λ id doc there fits.
        let (row, found, doc_eq) = some_row doc (Dict.get c.rows id) there in
        any-sorted (λ r. r.0 == id) stored_rows
        ∙ any-values (chosen key wanted) c.rows id row c.keyed found (rw doc_eq fits);
    distinct = sorted-IsDistinct row_id row_created stored_rows (
        filter-IsDistinct row_id (chosen key wanted) (values c.rows)
          (values-IsDistinct row_id c.rows c.keyed));
    ordered = sorted-IsSorted row_created stored_rows;
  }

any-none : (id : String) (b : Bool) → b ≡ true → b ≡ any (λ (r : Row). r.0 == id) [] → ⊥
any-none id b e f = cc

module _ (c : Local) (key value : String) where
  Matching : List Row → Type 0
  Matching rows = OneOf local c key value (first_of rows)

  local-one :
      (rows : List Row)
      → All (λ row. Stored row_id c.rows row × (equals key value row ≡ true)) rows
      → ((id : String) (row : Row)
          → Dict.get c.rows id ≡ some row
          → equals key value row ≡ true
          → any (λ (r : Row). r.0 == id) rows ≡ true)
      → Matching rows
  unfolding Matching
  local-one [] h all = λ id doc there.
      let (row, found, doc_eq) = some_row doc (Dict.get c.rows id) there in
      elim (Bool-cases (equals key value row)) [
        | inl fits ↦ elim (any-none id true refl (sym (all id row found fits))) [ ]
        | inr differs ↦ rw (← doc_eq) differs
      ]
  local-one (row ∷ rows) h all = (ap (Option.map (λ (r : Row). r.1)) h.0.0, h.0.1, refl)

  local-OneOf : OneOf local c key value (local.limit_one c key value)
  unfolding Matching
  local-OneOf =
      let found = filter (equals key value) (values c.rows) in
      local-one found
        (All-and (Stored row_id c.rows) (λ row. equals key value row ≡ true) found
          (All-filter (Stored row_id c.rows) (equals key value) (values c.rows)
            (values-Stored row_id c.rows c.keyed))
          (filter-All (equals key value) (values c.rows)))
        (λ id row there fits. any-values (equals key value) c.rows id row c.keyed there fits)

pub local-IsFirestore : IsFirestore local
local-IsFirestore = record {
  get-set = λ c id other doc.
      ap (Option.map (λ (r : Row). r.1)) (get-put c.rows id other (id, doc))
      ∙ pushed (id == other) id doc (Dict.get c.rows other);
  answers = local-Answers;
  one = local-OneOf;
}
  where
    pushed :
        (b : Bool) (id : String) (doc : Document) (o : Option Row)
        → Option.map (λ (r : Row). r.1) (if b then some (id, doc) else o)
          ≡ (if b then some doc else Option.map (λ (r : Row). r.1) o)
    pushed true id doc o = refl
    pushed false id doc o = refl
