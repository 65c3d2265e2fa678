-- ===== src/Worker/DiskManager/Eviction.antt =====
-- Which datasets an eviction removes.
use phyai_saas_train_vla.Prelude.{
  ℕ, zero, suc, ◌+◌, ◌-◌, ◌≤◌, ◌<◌, ◌≡◌, refl, ap, String, true, false, Option, List, [], ◌∷◌, map,
  arith, leb, take, Bool-cases, inl, inr, sorted, IsSorted, sorted-IsSorted,
}
use phyai_saas_train_vla.Worker.DiskManager.{
  CacheEntry, Child, total_size, list_cache_entries, evict_each, evict_lru_until_under_cap,
}

abbrev pub drop : ℕ → List CacheEntry → List CacheEntry
drop zero entries = entries
drop (suc n) [] = []
drop (suc n) (entry ∷ entries) = drop n entries

abbrev pub paths : List CacheEntry → List String
paths entries = map (λ (e : CacheEntry). e.path) entries

module _ {W : Type 0} (rmtree : String → W → W) (max_bytes : ℕ) where
  abbrev pub remove_all : List String → W → W
  remove_all [] w = w
  remove_all (path ∷ rest) w = remove_all rest (rmtree path w)

  -- The first `n` entries were removed, which is just enough for the rest to be under the cap.
  pub record Evicted (n : ℕ) (entries : List CacheEntry) (w : W) (result : List String × W)
      : Type 0 where
    pub removed : result.0 ≡ paths (take n entries)
    pub world : result.1 ≡ remove_all (paths (take n entries)) w
    pub under_cap : total_size (drop n entries) ≤ max_bytes
    pub needed : (m : ℕ) → m < n → max_bytes < total_size (drop m entries)

  needed-suc :
      (n : ℕ) (entry : CacheEntry) (entries : List CacheEntry)
      → max_bytes < total_size (entry ∷ entries)
      → ((m : ℕ) → m < n → max_bytes < total_size (drop m entries))
      → (m : ℕ) → m < suc n
      → max_bytes < total_size (drop m (entry ∷ entries))
  needed-suc n entry entries over later zero l = over
  needed-suc n entry entries over later (suc m) l = later m (omega (arith, l))

  before_zero : (m : ℕ) {a b : ℕ} → m < 0 → a < b
  before_zero m l = omega (arith, l)

  minus-total : (a b : ℕ) → (a + b) - a ≡ b
  minus-total a b = omega arith

  evict_each-stop :
      (total : ℕ) (entry : CacheEntry) (entries : List CacheEntry) (w : W)
      → leb total max_bytes ≡ true
      → evict_each rmtree max_bytes total (entry ∷ entries) w ≡ ([], w)
  unfolding evict_each
  evict_each-stop total entry entries w e = rw (e, evict_each) refl

  evict_each-next :
      (entry : CacheEntry) (entries : List CacheEntry) (w : W)
      → leb (total_size (entry ∷ entries)) max_bytes ≡ false
      → evict_each rmtree max_bytes (total_size (entry ∷ entries)) (entry ∷ entries) w ≡ (
          let (removed, w') =
            evict_each rmtree max_bytes (total_size entries) entries (rmtree entry.path w) in
          (entry.path ∷ removed, w'))
  unfolding evict_each
  evict_each-next entry entries w e =
      rw (e, evict_each) (rw (minus-total entry.size_bytes (total_size entries)) refl)

  evict_each-Evicted :
      (entries : List CacheEntry) (w : W)
      → (n : ℕ) × Evicted n entries w (evict_each rmtree max_bytes (total_size entries) entries w)
  unfolding evict_each
  evict_each-Evicted [] w = (
    0,
    record {
      removed = refl;
      world = refl;
      under_cap = omega arith;
      needed = λ m l. before_zero m l;
    },
  )
  evict_each-Evicted (entry ∷ entries) w =
      elim (Bool-cases (leb (total_size (entry ∷ entries)) max_bytes)) [
        | inl fits ↦ (
          0,
          rw (evict_each-stop (total_size (entry ∷ entries)) entry entries w fits) (record {
            removed = refl;
            world = refl;
            under_cap = ground arith;
            needed = λ m l. before_zero m l;
          }),
        )
        | inr over ↦
            let (n, e) = evict_each-Evicted entries (rmtree entry.path w) in
            (
              suc n,
              rw (evict_each-next entry entries w over) (record {
                removed = ap (λ ps. entry.path ∷ ps) e.removed;
                world = e.world;
                under_cap = e.under_cap;
                needed = needed-suc n entry entries (ground arith) e.needed;
              }),
            )
      ]

  -- An eviction goes through the cached datasets from the least recently used on, and removes the
  -- first n, for an n for which the others together are within the cap, while with any fewer removed
  -- they are not; it returns the removed paths in this order.
  pub evict_lru_until_under_cap_exact :
      (listing : Option (List Child)) (w : W)
      → (entries : List CacheEntry) × (n : ℕ) × (entries
          ≡ sorted (λ (e : CacheEntry). e.mtime) (list_cache_entries listing))
        × IsSorted (λ (e : CacheEntry). e.mtime) entries
        × Evicted n entries w (evict_lru_until_under_cap rmtree max_bytes listing w)
  unfolding evict_lru_until_under_cap
  evict_lru_until_under_cap_exact listing w =
      let found = list_cache_entries listing in
      let entries = sorted (λ (e : CacheEntry). e.mtime) found in
      let (n, e) = evict_each-Evicted entries w in
      (entries, n, refl, sorted-IsSorted (λ (e : CacheEntry). e.mtime) found, e)
