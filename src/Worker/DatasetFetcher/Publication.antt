-- ===== src/Worker/DatasetFetcher/Publication.antt =====
-- A dataset of the hub stands in the cache only once it is downloaded as a whole.
use Prim.Native.Char.{Char, code}
use Prim.Native.String.{◌++◌, count}
use text.Mathlib.TextLemmas.{
  length-append, append-nil, append_assoc, append_inj, append_cancel_left,
}
use phyai_saas_train_vla.Prelude.{
  Bool, Bool-cases, inl, inr, eqb, ap₂, ◌∷◌, [], ◌==◌, ◌||◌, ◌≤◌, if◌then◌else◌, ℕ, ◌+◌, ◌≡◌, ◌≢◌,
  refl, sym, ◌∙◌, ap, String, true, false, Result, ok, err, Exec, pure, modify, continue, ◌>>=◌,
  ◌>>◌, eq_iff, text_eq, arith, format,
}
use phyai_saas_train_vla.Common.Errors.{Error}
use phyai_saas_train_vla.Worker.DiskManager.{
  tmp_path_for, final_path_for, finalize_download, safe_name, joined, evict_lru_until_under_cap,
}
use phyai_saas_train_vla.Worker.DatasetFetcher.{
  Site, attempted, raise_as, not_found_or_same, download, fetch_hf_dataset,
}

-- `p` lies in the directory `dir`, or further down.
abbrev pub Below : String → String → Type 0
Below p dir = (rest : String) × (p ≡ dir ++ ("/" ++ rest))

-- A step that fails leaves `P` true, a step that does so in any case, and one that does not fail.
module _ {W : Type 0} (P : W → Type 0) where
  abbrev Keeps : {A : Type 0} → Exec W Error A → Type 0
  Keeps m = (w : W) → P w → (e : Error) → (m w).0 ≡ err e → P (m w).1

  abbrev Passes : {A : Type 0} → Exec W Error A → Type 0
  Passes m = (w : W) → P w → P (m w).1

  abbrev Succeeds : {A : Type 0} → Exec W Error A → Type 0
  Succeeds m = (w : W) (e : Error) → (m w).0 ≢ err e

  continue-Keeps :
      {A B : Type 0} (r : Result Error A) (f : A → Exec W Error B) (w : W)
      → P w
      → ((a : A) → Keeps (f a))
      → (e : Error) → (continue r f w).0 ≡ err e
      → P (continue r f w).1
  continue-Keeps (ok a) f w p k e q = k a w p e q
  continue-Keeps (err x) f w p k e q = p

  continue-Succeeds :
      {A B : Type 0} (r : Result Error A) (f : A → Exec W Error B) (w : W)
      → ((x : Error) → r ≡ err x → P w)
      → ((a : A) → Succeeds (f a))
      → (e : Error) → (continue r f w).0 ≡ err e
      → P (continue r f w).1
  continue-Succeeds (ok a) f w p s e q = elim (s a w e q) [ ]
  continue-Succeeds (err x) f w p s e q = p x refl

  then-Keeps :
      {A B : Type 0} (m : Exec W Error A) (f : A → Exec W Error B)
      → Passes m
      → ((a : A) → Keeps (f a))
      → Keeps (m >>= f)
  then-Keeps m f p k w h e q = continue-Keeps (m w).0 f (m w).1 (p w h) k e q

  last-Keeps :
      {A B : Type 0} (m : Exec W Error A) (f : A → Exec W Error B)
      → Keeps m
      → ((a : A) → Succeeds (f a))
      → Keeps (m >>= f)
  last-Keeps m f k s w h e q = continue-Succeeds (m w).0 f (m w).1 (λ x. k w h x) s e q

  pure-Succeeds : {A : Type 0} (a : A) → Succeeds (pure a)
  pure-Succeeds a w e q = cc

-- What is documented of the calls, as far as it is about which paths exist: a directory is made with
-- its parents; a download makes its target, what is below it, and the target's parents, also where
-- it fails halfway; a failed replacement changes nothing.
module _ {W S : Type 0} (site : Site W S) where
  pub record IsSite : Type 0 where
    pub mkdir_spares :
        (dir p : String) (w : W)
        → p ≢ dir
        → (Below dir p → ⊥)
        → site.exists p (site.mkdir dir w).1 ≡ site.exists p w
    pub download_spares :
        (repo_id dir p : String) (w : W)
        → p ≢ dir
        → (Below p dir → ⊥)
        → (Below dir p → ⊥)
        → site.exists p (site.download_dataset repo_id dir w).1 ≡ site.exists p w
    pub replace_fails :
        (from to p : String) (w : W) (e : Error)
        → (site.replace from to w).0 ≡ err e
        → site.exists p (site.replace from to w).1 ≡ site.exists p w

count_below :
    (p dir rest : String) → p ≡ dir ++ ("/" ++ rest) → count p ≡ count dir + (1 + count rest)
count_below p dir rest e =
    ap count e ∙ length-append dir ("/" ++ rest) ∙ ap (λ n. count dir + n) (length-append "/" rest)

slash_tmp : (rest : String) → ".tmp" ≢ "/" ++ rest
slash_tmp rest e =
    elim (differ
      ((eq_iff "." "/").1 (append_inj {s₁ = "."} {s₂ = "/"} {t₁ = "tmp"} {t₂ = rest} e refl).0)) [ ]
  where
    differ : false ≡ true → ⊥
    differ q = cc

-- Only an empty name becomes empty, and only a dot becomes a dot.
long : (m : ℕ) → 2 ≤ m → m ≤ 1 → ⊥
long m h k = omega (arith, h, k)

slashed : (name : String) (m : ℕ) → count ("__" ++ name) ≡ m → 2 ≤ m
slashed name m e = omega (arith, length-append "__" name, e)

not_empty : {c : Char} {s : String} → String.◌∷◌ c s ≡ "" → ⊥
not_empty e = cc

safe_name-empty : (repo_id : String) → safe_name repo_id ≡ "" → repo_id ≡ ""
unfolding safe_name
safe_name-empty String.[] e = refl
safe_name-empty (String.◌∷◌ c rest) e = elim (Bool-cases (eqb (code c) 47)) [
  | inl slash ↦
      elim (long 0 (slashed (safe_name rest) 0 (ap count (rw slash at e))) (omega arith)) [ ]
  | inr other ↦ elim (not_empty (rw other at e)) [ ]
]

cons_injective : {c d : Char} {s t : String} → String.◌∷◌ c s ≡ String.◌∷◌ d t → (c ≡ d) × (s ≡ t)
cons_injective e = (cc, cc)

safe_name-dot : (repo_id : String) → safe_name repo_id ≡ "." → repo_id ≡ "."
unfolding safe_name
safe_name-dot String.[] e = e
safe_name-dot (String.◌∷◌ c rest) e = elim (Bool-cases (eqb (code c) 47)) [
  | inl slash ↦
      elim (long 1 (slashed (safe_name rest) 1 (ap count (rw slash at e))) (omega arith)) [ ]
  | inr other ↦
      let (same, empty) = cons_injective (rw other at e) in
      ap₂ String.◌∷◌ same (safe_name-empty rest empty)
]

joined-stem :
    (cache_dir name : String)
    → name ≢ ""
    → name ≢ "."
    → joined cache_dir name ≡ cache_dir ++ ("/" ++ name)
unfolding joined format
joined-stem cache_dir name full no_dot =
    named (name == "" || name == ".") (ground (arith, eq_iff name "", eq_iff name "."))
    ∙ ap (λ s. cache_dir ++ ("/" ++ s)) (append-nil name)
  where
    named :
        (b : Bool)
        → b ≡ false
        → (if b then cache_dir else format (cache_dir ∷ "/" ∷ name ∷ []))
          ≡ format (cache_dir ∷ "/" ∷ name ∷ [])
    named b e = rw e refl

module _ (cache_dir repo_id : String) (full : repo_id ≢ "") (no_dot : repo_id ≢ ".") where
  stem : String
  stem = cache_dir ++ ("/" ++ safe_name repo_id)

  final-stem : final_path_for cache_dir repo_id ≡ stem
  unfolding final_path_for stem
  final-stem =
      joined-stem cache_dir (safe_name repo_id) (λ e. full (safe_name-empty repo_id e))
        (λ e. no_dot (safe_name-dot repo_id e))

  longer : {s : String} → count s ≤ 1 → safe_name repo_id ++ ".tmp" ≢ s
  longer {s} short e =
      elim (too_long (count (safe_name repo_id)) (count s) short
        (sym (length-append (safe_name repo_id) ".tmp") ∙ ap count e)) [ ]
    where
      too_long : (n m : ℕ) → m ≤ 1 → n + 4 ≡ m → ⊥
      too_long n m h e = omega (arith, h, e)

  tmp-stem : tmp_path_for cache_dir repo_id ≡ stem ++ ".tmp"
  unfolding tmp_path_for stem format
  tmp-stem =
      joined-stem cache_dir (safe_name repo_id ++ ".tmp") (longer (omega arith))
        (longer (omega arith))
      ∙ sym (
          append_assoc cache_dir ("/" ++ safe_name repo_id) ".tmp"
          ∙ ap (λ s. cache_dir ++ s) (append_assoc "/" (safe_name repo_id) ".tmp"))

  stem-Below : Below stem cache_dir
  unfolding stem
  stem-Below = (safe_name repo_id, refl)

  count-stem : count stem ≡ count cache_dir + (1 + count (safe_name repo_id))
  unfolding stem-Below
  count-stem = count_below stem cache_dir (safe_name repo_id) stem-Below.1

  count-tmp : count (stem ++ ".tmp") ≡ count stem + 4
  count-tmp = length-append stem ".tmp"

  -- How the three paths of a fetch lie to each other.
  record Apart (final tmp : String) : Type 0 where
    final-cache_dir : final ≢ cache_dir
    above_cache_dir : Below cache_dir final → ⊥
    final-tmp : final ≢ tmp
    below_tmp : Below final tmp → ⊥
    above_tmp : Below tmp final → ⊥

  stem-Apart : Apart stem (stem ++ ".tmp")
  stem-Apart = record {
    final-cache_dir = λ e. omega (arith, count-stem, ap count e);
    above_cache_dir = λ (rest, e). omega (arith, count-stem, count_below cache_dir stem rest e);
    final-tmp = λ e. omega (arith, count-tmp, ap count e);
    below_tmp = λ (rest, e). omega (arith, count-tmp, count_below stem (stem ++ ".tmp") rest e);
    above_tmp = λ (rest, e). slash_tmp rest (append_cancel_left stem ".tmp" ("/" ++ rest) e);
  }

  paths-Apart : Apart (final_path_for cache_dir repo_id) (tmp_path_for cache_dir repo_id)
  paths-Apart = rw (final-stem, tmp-stem) stem-Apart

module _ {W S : Type 0} (site : Site W S) (documented : IsSite site) (cache_dir : String)
    (cache_max_bytes : ℕ) (repo_id : String) (full : repo_id ≢ "") (no_dot : repo_id ≢ ".") where
  abbrev final : String
  final = final_path_for cache_dir repo_id

  abbrev tmp : String
  tmp = tmp_path_for cache_dir repo_id

  abbrev Absent : W → Type 0
  Absent w = site.exists final w ≡ false

  apart : Apart cache_dir repo_id full no_dot final tmp
  apart = paths-Apart cache_dir repo_id full no_dot

  mkdir-Passes : Passes Absent (site.mkdir cache_dir)
  mkdir-Passes w h =
      documented.mkdir_spares cache_dir final w apart.final-cache_dir apart.above_cache_dir ∙ h

  download-Passes : Passes Absent (attempted (site.download_dataset repo_id tmp))
  download-Passes w h =
      documented.download_spares repo_id tmp final w apart.final-tmp apart.below_tmp apart.above_tmp
      ∙ h

  raise_as-Passes :
      (r : Result Error (Unit {0})) → Passes Absent (raise_as (not_found_or_same repo_id) r)
  raise_as-Passes (ok t) w h = h
  raise_as-Passes (err e) w h = h

  replace-Keeps : Keeps Absent (site.replace tmp final)
  replace-Keeps w h e q = documented.replace_fails tmp final final w e q ∙ h

  abbrev evict : Unit {0} → Exec W Error String
  evict _ =
      modify (λ w.
        (evict_lru_until_under_cap site.rmtree cache_max_bytes (site.children cache_dir w) w).1)
      >> pure final

  -- For a repository with a name, which is neither empty nor a dot: if its dataset is not in the cache and
  -- cannot be fetched, for whatever reason and also halfway, it is not in the cache afterwards: no later fetch takes a part of it for the whole.
  pub fetch_hf_dataset-unpublished :
      (w : W) (e : Error)
      → site.exists (final_path_for cache_dir repo_id) w ≡ false
      → (fetch_hf_dataset site cache_dir cache_max_bytes repo_id w).0 ≡ err e
      → site.exists
          (final_path_for cache_dir repo_id)
          (fetch_hf_dataset site cache_dir cache_max_bytes repo_id w).1
        ≡ false
  unfolding fetch_hf_dataset download finalize_download
  fetch_hf_dataset-unpublished w e missing = rw missing (
      then-Keeps Absent (site.mkdir cache_dir) _ mkdir-Passes
        (λ _.
          then-Keeps Absent (attempted (site.download_dataset repo_id tmp)) _ download-Passes (λ r.
            then-Keeps Absent (raise_as (not_found_or_same repo_id) r) _ (raise_as-Passes r) (λ _.
              last-Keeps Absent (site.replace tmp final) evict replace-Keeps
                (λ _ w' e'. pure-Succeeds Absent final w' e'))))
        w missing e)
