-- ===== src/Dict/Keyed.antt =====
-- Dictionaries whose values carry their own key, as users and jobs carry their id: no key occurs
-- twice, and what is listed by `values` is what `get` finds under its id.
use phyai_saas_train_vla.Prelude.{
  ℕ, ◌≡◌, refl, ◌∙◌, sym, String, Bool, true, false, none, some, List, [], ◌∷◌, arith, eq_iff,
  if◌then◌else◌, All, All-imp, All-filter, filter, leb, sorted, insert_sorted, All-insert_sorted,
  All-sorted, ◌≢◌,
}
use phyai_saas_train_vla.Dict.{Dict, get, put, values, get-put}

module _ {V : Type 0} (id : V → String) where
  -- Every value stands under its id, and no key is used twice.
  abbrev pub IsKeyed : Dict V → Type 0
  IsKeyed [] = Unit
  IsKeyed ((k, v) ∷ d) = (id v ≡ k) × (get d k ≡ none) × IsKeyed d

  -- The dictionary holds `x` under its id.
  abbrev pub Stored : Dict V → V → Type 0
  Stored d x = get d (id x) ≡ some x

  -- No two entries of a list have the same id.
  abbrev pub IsDistinct : List V → Type 0
  IsDistinct [] = Unit
  IsDistinct (x ∷ xs) = All (λ y. id x ≢ id y) xs × IsDistinct xs

  pub put-IsKeyed : (d : Dict V) (k : String) (v : V) → IsKeyed d → id v ≡ k → IsKeyed (put d k v)
  put-IsKeyed [] k v h e = (e, refl, tt)
  put-IsKeyed ((j, w) ∷ d) k v h e =
      ground (arith, put-IsKeyed d k v h.2 e, get-put d k j v, eq_iff j k, eq_iff k j)

  pub get-IsKeyed : (d : Dict V) (k : String) (v : V) → IsKeyed d → get d k ≡ some v → id v ≡ k
  get-IsKeyed [] k v h e = cc
  get-IsKeyed ((j, w) ∷ d) k v h e = ground (arith, get-IsKeyed d k v h.2, eq_iff j k)

  -- A write under another id leaves a stored value stored.
  pub Stored-put :
      (d : Dict V) (k : String) (v x : V) → Stored d x → k ≢ id x → Stored (put d k v) x
  Stored-put d k v x h ne = ground (arith, get-put d k (id x) v, eq_iff k (id x))

  Stored-cons :
      (k : String) (v : V) (d : Dict V)
      → get d k ≡ none
      → (x : V) → Stored d x
      → Stored ((k, v) ∷ d) x × (k ≢ id x)
  Stored-cons k v d fresh x h = (ground (arith, eq_iff k (id x)), λ e. ground arith)

  All-Stored-cons :
      (k : String) (v : V) (d : Dict V)
      → get d k ≡ none
      → (xs : List V) → All (Stored d) xs
      → All (Stored ((k, v) ∷ d)) xs
  All-Stored-cons k v d fresh =
      All-imp (Stored d) (Stored ((k, v) ∷ d)) (λ x h. (Stored-cons k v d fresh x h).0)

  -- Every listed value is the one that is found under its id.
  pub values-Stored : (d : Dict V) → IsKeyed d → All (Stored d) (values d)
  values-Stored [] h = tt
  values-Stored ((k, v) ∷ d) h =
      (ground (arith, eq_iff k (id v)), All-Stored-cons k v d h.1 (values d) (values-Stored d h.2))

  pub values-IsDistinct : (d : Dict V) → IsKeyed d → IsDistinct (values d)
  values-IsDistinct [] h = tt
  values-IsDistinct ((k, v) ∷ d) h = (
    All-imp (Stored d) (λ y. id v ≢ id y) (λ x s e. (Stored-cons k v d h.1 x s).1 (sym h.0 ∙ e))
        (values d) (values-Stored d h.2),
    values-IsDistinct d h.2,
  )

  pub filter-IsDistinct : (p : V → Bool) (xs : List V) → IsDistinct xs → IsDistinct (filter p xs)
  filter-IsDistinct p [] h = tt
  filter-IsDistinct p (x ∷ xs) h =
      go (p x) (All-filter (λ y. id x ≢ id y) p xs h.0, filter-IsDistinct p xs h.1)
    where
      go :
          (b : Bool)
          → IsDistinct (x ∷ filter p xs)
          → IsDistinct (if b then x ∷ filter p xs else filter p xs)
      go true d = d
      go false d = d.1

  module _ (key : V → ℕ) where
    insert_sorted-IsDistinct :
        (x : V) (xs : List V)
        → All (λ y. id x ≢ id y) xs
        → IsDistinct xs
        → IsDistinct (insert_sorted key x xs)
    insert_sorted-IsDistinct x [] h d = (tt, tt)
    insert_sorted-IsDistinct x (y ∷ ys) h d = go (leb (key x) (key y)) (
      All-insert_sorted key (λ z. id y ≢ id z) x ys (λ e. h.0 (sym e)) d.0,
      insert_sorted-IsDistinct x ys h.1 d.1,
    )
      where
        go :
            (b : Bool)
            → IsDistinct (y ∷ insert_sorted key x ys)
            → IsDistinct (if b then x ∷ y ∷ ys else y ∷ insert_sorted key x ys)
        go true t = (h, d)
        go false t = t

    pub sorted-IsDistinct : (xs : List V) → IsDistinct xs → IsDistinct (sorted key xs)
    sorted-IsDistinct [] h = tt
    sorted-IsDistinct (x ∷ xs) h =
        insert_sorted-IsDistinct x (sorted key xs) (All-sorted key (λ y. id x ≢ id y) xs h.0)
          (sorted-IsDistinct xs h.1)
