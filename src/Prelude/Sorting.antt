-- ===== src/Prelude/Sorting.antt =====
-- Python's `sorted(xs, key=key)`, which is stable, as an insertion sort.
use Prim.Native.Nat.{ℕ, ◌≤◌}
use mathlib.Core.Path.{◌≡◌, refl}
use mathlib.Core.Bool.{Bool, true, false}
use mathlib.Core.List.{List, [], ◌∷◌}
use native.Mathlib.Omega.{arith}
use phyai_saas_train_vla.Prelude.Tests.{leb, if◌then◌else◌, Bool-cases}
use phyai_saas_train_vla.Prelude.Lists.{count_if, All}
use mathlib.Core.Logic.{inl, inr}

leb→le : {a b : ℕ} → leb a b ≡ true → a ≤ b
leb→le h = ground arith

module _ {ℓ} {A : Type ℓ} (key : A → ℕ) where
  -- `x` came before the entries of the list, so it stays before those with the same key.
  abbrev pub insert_sorted : A → List A → List A
  insert_sorted x [] = x ∷ []
  insert_sorted x (y ∷ ys) =
      let rest = insert_sorted x ys in if leb (key x) (key y) then x ∷ y ∷ ys else y ∷ rest

  abbrev pub sorted : List A → List A
  sorted [] = []
  sorted (x ∷ xs) = insert_sorted x (sorted xs)

  -- Each entry's key is at most those of all entries behind it.
  abbrev pub IsSorted : List A → Type 0
  IsSorted [] = Unit
  IsSorted (x ∷ xs) = All (λ y. key x ≤ key y) xs × IsSorted xs

  pub All-insert_sorted {κ} :
      (P : A → Type κ) (x : A) (xs : List A) → P x → All P xs → All P (insert_sorted x xs)
  All-insert_sorted P x [] h t = (h, tt)
  All-insert_sorted P x (y ∷ ys) h t = go (leb (key x) (key y)) (All-insert_sorted P x ys h t.1)
    where
      go :
          (b : Bool)
          → All P (insert_sorted x ys)
          → All P (if b then x ∷ y ∷ ys else y ∷ insert_sorted x ys)
      go true rest = (h, t)
      go false rest = (t.0, rest)

  pub All-sorted {κ} : (P : A → Type κ) (xs : List A) → All P xs → All P (sorted xs)
  All-sorted P [] h = tt
  All-sorted P (x ∷ xs) h = All-insert_sorted P x (sorted xs) h.0 (All-sorted P xs h.1)

  pub count_if-insert_sorted :
      (p : A → Bool) (x : A) (xs : List A) → count_if p (insert_sorted x xs) ≡ count_if p (x ∷ xs)
  count_if-insert_sorted p x [] = refl
  count_if-insert_sorted p x (y ∷ ys) = ground (arith, count_if-insert_sorted p x ys)

  -- Sorting neither drops nor repeats an entry.
  pub count_if-sorted : (p : A → Bool) (xs : List A) → count_if p (sorted xs) ≡ count_if p xs
  count_if-sorted p [] = refl
  count_if-sorted p (x ∷ xs) =
      omega (arith, count_if-insert_sorted p x (sorted xs), count_if-sorted p xs)

  below : {a b : ℕ} → a ≤ b → (ys : List A) → All (λ z. b ≤ key z) ys → All (λ z. a ≤ key z) ys
  below h [] t = tt
  below h (y ∷ ys) t = (omega arith, below h ys t.1)

  insert_sorted-IsSorted : (x : A) (xs : List A) → IsSorted xs → IsSorted (insert_sorted x xs)
  insert_sorted-IsSorted x [] h = (tt, tt)
  insert_sorted-IsSorted x (y ∷ ys) h = elim (Bool-cases (leb (key x) (key y))) [
    | inl le ↦ rw le ((leb→le le, below (leb→le le) ys h.0), h)
    | inr gt ↦ rw gt (
      All-insert_sorted (λ z. key y ≤ key z) x ys (ground arith) h.0,
      insert_sorted-IsSorted x ys h.1,
    )
  ]

  pub sorted-IsSorted : (xs : List A) → IsSorted (sorted xs)
  sorted-IsSorted [] = tt
  sorted-IsSorted (x ∷ xs) = insert_sorted-IsSorted x (sorted xs) (sorted-IsSorted xs)
