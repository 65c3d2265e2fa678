-- ===== src/Dict.antt =====
-- Python's `dict` with text keys, as the in-memory adapters use it: a list of entries in the order
-- of their first insertion.
pub mod Keyed
use phyai_saas_train_vla.Prelude.{
  ℕ, ◌+◌, ◌≤◌, ◌≡◌, refl, String, Bool, true, false, Option, none, some, List, [], ◌∷◌, arith,
  eq_iff, ◌==◌, text_eq, if◌then◌else◌, one_if, count_if,
}

abbrev pub Dict {ℓ} : Type ℓ → Type ℓ
Dict V = List (String × V)

module _ {ℓ} {V : Type ℓ} where
  -- `d.get(k)`
  abbrev pub get : Dict V → String → Option V
  get [] k = none
  get ((j, v) ∷ d) k = if j == k then some v else get d k

  -- `k in d`
  abbrev pub has : Dict V → String → Bool
  has d k = elim (get d k) [ none ↦ false | some _ ↦ true ]

  -- `d[k] = v`: a key that is there keeps its place
  abbrev pub put : Dict V → String → V → Dict V
  put [] k v = (k, v) ∷ []
  put ((j, w) ∷ d) k v = if j == k then (j, v) ∷ d else (j, w) ∷ put d k v

  -- `d.pop(k, None)`
  abbrev pub pop : Dict V → String → Dict V
  pop [] k = []
  pop ((j, w) ∷ d) k = let rest = pop d k in if j == k then d else (j, w) ∷ rest

  -- `d.values()`
  abbrev pub values : Dict V → List V
  values [] = []
  values ((j, v) ∷ d) = v ∷ values d

  -- `d.keys()`
  abbrev pub keys : Dict V → List String
  keys [] = []
  keys ((j, v) ∷ d) = j ∷ keys d

  pub get-put :
      (d : Dict V) (k j : String) (v : V) → get (put d k v) j ≡ (if k == j then some v else get d j)
  get-put [] k j v = refl
  get-put ((i, w) ∷ d) k j v = ground (arith, eq_iff k j, eq_iff i k, eq_iff i j, get-put d k j v)

  -- How often a stored value passes a test.
  abbrev pub tally : (V → Bool) → Option V → ℕ
  tally p none = 0
  tally p (some v) = one_if (p v)

  -- A write takes the old value of its key out of the count and puts the new one in.
  pub count_if-put :
      (p : V → Bool) (d : Dict V) (k : String) (v : V)
      → count_if p (values (put d k v)) + tally p (get d k) ≡ count_if p (values d) + one_if (p v)
  count_if-put p [] k v = ground arith
  count_if-put p ((j, w) ∷ d) k v = ground (arith, count_if-put p d k v)

  -- Replacing a value by one that passes the test only if the old one did adds nothing.
  pub count_if-put-le :
      (p : V → Bool) (d : Dict V) (k : String) (old v : V)
      → get d k ≡ some old
      → (p v ≡ true → p old ≡ true)
      → count_if p (values (put d k v)) ≤ count_if p (values d)
  count_if-put-le p d k old v e h = ground (arith, count_if-put p d k v)
