-- ===== src/Worker/OrphanReconciler/Sets.antt =====
-- Sets of container ids as lists, and which ids the jobs track.
use phyai_saas_train_vla.Prelude.{
  ℕ, suc, ◌⊎◌, count_if_mono, ◌≤◌, ◌≡◌, ◌≢◌, refl, ◌∙◌, ap, String, Bool, true, false, not, ◌&&◌,
  some, List, [], ◌∷◌, length, contains, filter, count_if, All, arith, eq_iff, text_eq,
  if◌then◌else◌, Option-cases, Bool-cases, inl, inr,
}
use phyai_saas_train_vla.Dict.{Dict, values}
use phyai_saas_train_vla.Dict.Keyed.{IsDistinct, filter-IsDistinct}
use phyai_saas_train_vla.Common.Models.{Job}
use phyai_saas_train_vla.Repository.Jobs
use phyai_saas_train_vla.Repository.Jobs.{job_id, has_status, list_by_statuses-Listing}
use phyai_saas_train_vla.Repository.Invariant.{IsSound, is_running}
use phyai_saas_train_vla.Worker.OrphanReconciler.{
  distinct, tracked_container_ids, insert_text, sorted_texts, orphan_ids, reconciled_statuses,
}

pub contains-distinct :
    (ids : List String) (x : String) → contains (distinct ids) x ≡ contains ids x
contains-distinct [] x = refl
contains-distinct (s ∷ ids) x =
    ground (arith, contains-distinct ids x, contains-distinct ids s, eq_iff s x, eq_iff x s)

pub contains-filter :
    (p : String → Bool) (ids : List String) (x : String)
    → contains (filter p ids) x ≡ (contains ids x && p x)
contains-filter p [] x = refl
contains-filter p (s ∷ ids) x = ground (arith, contains-filter p ids x, eq_iff s x, eq_iff x s)

pub contains-insert_text :
    (s : String) (ids : List String) (x : String)
    → contains (insert_text s ids) x ≡ contains (s ∷ ids) x
contains-insert_text s [] x = refl
contains-insert_text s (t ∷ ids) x = ground (arith, contains-insert_text s ids x)

pub contains-sorted_texts :
    (ids : List String) (x : String) → contains (sorted_texts ids) x ≡ contains ids x
contains-sorted_texts [] x = refl
contains-sorted_texts (s ∷ ids) x =
    ground (arith, contains-insert_text s (sorted_texts ids) x, contains-sorted_texts ids x)

pub tracked-head :
    (job : Job) (jobs : List Job) (x : String)
    → contains (tracked_container_ids (job ∷ jobs)) x ≡ true
    → (job.container_id ≡ some x) ⊎ (contains (tracked_container_ids jobs) x ≡ true)
unfolding tracked_container_ids
tracked-head job jobs x e = elim (Bool-cases (contains (tracked_container_ids jobs) x)) [
  | inl later ↦ inr later
  | inr absent ↦ elim (Option-cases job.container_id) [
    | inl none_there ↦ inr (rw none_there at e)
    | inr (id, there) ↦
        inl (there ∙ ap some (ground (arith, there, absent, eq_iff id x, eq_iff x id)))
  ]
]

-- A tracked id is some listed job's.
pub contains-tracked :
    (P : Job → Type 0) (jobs : List Job) (x : String)
    → All P jobs
    → contains (tracked_container_ids jobs) x ≡ true
    → (job : Job) × P job × (job.container_id ≡ some x)
unfolding tracked_container_ids
contains-tracked P [] x h e = cc
contains-tracked P (job ∷ jobs) x h e = elim (tracked-head job jobs x e) [
  | inl here ↦ (job, h.0, here)
  | inr later ↦ contains-tracked P jobs x h.1 later
]

pub one_tracked :
    (jobs : List Job) (x y : String)
    → length jobs ≤ 1
    → contains (tracked_container_ids jobs) x ≡ true
    → contains (tracked_container_ids jobs) y ≡ true
    → x ≡ y
unfolding tracked_container_ids
one_tracked [] x y short e f = cc
one_tracked (job ∷ []) x y short e f = elim (Option-cases job.container_id) [
  | inl none_there ↦ elim (nothing (rw none_there at e)) [ ]
  | inr (id, there) ↦ ground (arith, there, eq_iff x id, eq_iff y id, eq_iff id x, eq_iff id y)
]
  where
    nothing : false ≡ true → ⊥
    nothing e = cc
one_tracked (job ∷ other ∷ jobs) x y short e f = elim (many (length jobs) short) [ ]
  where
    many : (n : ℕ) → suc (suc n) ≤ 1 → ⊥
    many n h = omega arith

pub contains-orphan_ids :
    (ids : List String) (jobs : List Job) (x : String)
    → contains (orphan_ids ids jobs) x
      ≡ (contains ids x && not (contains (tracked_container_ids jobs) x))
unfolding orphan_ids
contains-orphan_ids ids jobs x =
    contains-filter (λ id. not (contains (tracked_container_ids jobs) id)) (distinct ids) x
    ∙ ap (λ b. b && not (contains (tracked_container_ids jobs) x)) (contains-distinct ids x)

pub length-count : {A : Type 0} (xs : List A) → length xs ≡ count_if (λ _. true) xs
length-count [] = refl
length-count (x ∷ xs) = omega (arith, length-count xs)

-- No more jobs are followed than hold the host.
pub followed_length :
    (jobs : Dict Job) → IsSound jobs → length (Jobs.list_by_statuses jobs reconciled_statuses) ≤ 1
followed_length jobs sound = omega (
  arith,
  length-count (Jobs.list_by_statuses jobs reconciled_statuses),
  (list_by_statuses-Listing jobs reconciled_statuses sound.keyed).complete (λ _. true),
  count_if_mono (λ j. if is_running j then true else false) is_running (values jobs)
      (λ j. kept (is_running j)),
  sound.one_running,
)
  where
    kept : (b : Bool) → (if b then true else false) ≡ true → b ≡ true
    kept b e = ground arith

pub distinct-IsDistinct : (ids : List String) → IsDistinct (λ id. id) (distinct ids)
distinct-IsDistinct [] = tt
distinct-IsDistinct (s ∷ ids) = elim (Bool-cases (contains (distinct ids) s)) [
  | inl there ↦ rw there (distinct-IsDistinct ids)
  | inr absent ↦ rw absent (apart (distinct ids) s absent, distinct-IsDistinct ids)
]
  where
    apart : (ids : List String) (s : String) → contains ids s ≡ false → All (λ y. s ≢ y) ids
    apart [] s e = tt
    apart (t ∷ ids) s e = ((λ same. ground (arith, eq_iff t s)), apart ids s (ground arith))

pub orphan_ids-IsDistinct :
    (ids : List String) (jobs : List Job) → IsDistinct (λ id. id) (orphan_ids ids jobs)
unfolding orphan_ids
orphan_ids-IsDistinct ids jobs =
    filter-IsDistinct (λ id. id) (λ id. not (contains (tracked_container_ids jobs) id))
      (distinct ids) (distinct-IsDistinct ids)

pub All-contains :
    (P : String → Type 0) (ids : List String)
    → ((x : String) → contains ids x ≡ true → P x)
    → All P ids
All-contains P [] h = tt
All-contains P (s ∷ ids) h =
    (h s (ground (arith, eq_iff s s)), All-contains P ids (λ x e. h x (ground arith)))
