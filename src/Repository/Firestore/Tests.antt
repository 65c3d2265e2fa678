-- ===== src/Repository/Firestore/Tests.antt =====
-- The theorems on the Firestore adapters at concrete inputs, with the client over a dictionary. A date
-- is written here as a row of strokes, one more than its number.
use mathlib.Core.Option
use phyai_saas_train_vla.Prelude.{
  ◌∙◌, sym, eq_iff, Bool-cases, inl, inr, ℕ, zero, suc, ◌≡◌, refl, ap, String, Bool, true, false,
  Option, none, some, List, [], ◌∷◌, ok, ◌==◌, text_eq, if◌then◌else◌,
}
use phyai_saas_train_vla.Dict
use phyai_saas_train_vla.Dict.{Dict}
use phyai_saas_train_vla.Common.Models.{User, training}
use phyai_saas_train_vla.Samples.{alice, waiting_job, training_job}
use phyai_saas_train_vla.Repository.Users as MemoryUsers
use phyai_saas_train_vla.Repository.Users.{is_text}
use phyai_saas_train_vla.Repository.Firestore.{Row}
use phyai_saas_train_vla.Repository.Firestore.Codec.{
  DateText, IsDateText, job_to_doc, doc_to_job, user_to_doc, doc_to_user,
}
use phyai_saas_train_vla.Repository.Firestore.RoundTrip.{
  doc_to_job-job_to_doc, doc_to_user-user_to_doc,
}
use phyai_saas_train_vla.Repository.Firestore.Local.{Local, local, local-IsFirestore}
use phyai_saas_train_vla.Repository.Firestore.Users.{get, get_by_email, get_by_hf_user_id}
use phyai_saas_train_vla.Repository.Firestore.Jobs
use phyai_saas_train_vla.Repository.Firestore.JobRun.{
  ActsAs, Write, creates, updates, run_memory, run_client, run-ActsAs,
}
use phyai_saas_train_vla.Repository.Firestore.UserRefinement.{Finds, firestore_users_refine}

abbrev strokes : ℕ → String
strokes zero = "|"
strokes (suc n) = String.◌∷◌ "|" (strokes n)

abbrev tally : String → ℕ
tally String.[] = 0
tally (String.◌∷◌ c s) = suc (tally s)

abbrev earlier : ℕ → ℕ
earlier zero = zero
earlier (suc n) = n

tally-strokes : (n : ℕ) → tally (strokes n) ≡ suc n
tally-strokes zero = refl
tally-strokes (suc n) = ap suc (tally-strokes n)

strokes_full : (n : ℕ) → (strokes n == "") ≡ false
strokes_full n = elim (Bool-cases (strokes n == "")) [
  | inl empty ↦
      elim (nothing n (sym (tally-strokes n) ∙ ap tally ((eq_iff (strokes n) "").0 empty))) [ ]
  | inr full ↦ full
]
  where
    nothing : (n : ℕ) → suc n ≡ 0 → ⊥
    nothing n e = cc

abbrev dates : DateText
dates = record { isoformat = strokes; fromisoformat = λ s. ok (earlier (tally s)) }

dates-IsDateText : IsDateText dates
dates-IsDateText = record {
  read_back = λ day. rw (tally-strokes day) refl;
  not_empty = strokes_full;
}

doc_to_job-job_to_doc_example : doc_to_job "j2" (job_to_doc training_job) ≡ ok training_job
doc_to_job-job_to_doc_example = doc_to_job-job_to_doc training_job

doc_to_user-user_to_doc_example : doc_to_user dates "alice" (user_to_doc dates alice) ≡ ok alice
doc_to_user-user_to_doc_example = doc_to_user-user_to_doc dates dates-IsDateText alice

abbrev empty : Local
empty = record { rows = []; keyed = tt }

abbrev writes : List Write
writes =
    creates waiting_job
    ∷ creates training_job
    ∷ updates (record waiting_job { status = training })
    ∷ []

run-ActsAs_example : ActsAs local (run_client local writes empty) (run_memory writes [])
run-ActsAs_example =
    run-ActsAs local local-IsFirestore writes empty [] (record { same = λ id. refl }) tt

listed_by_status :
    Jobs.list_by_statuses local (run_client local writes empty) (training ∷ [])
    ≡ ok (record waiting_job { status = training } ∷ training_job ∷ [])
unfolding Jobs.list_by_statuses Jobs.create Jobs.update job_to_doc doc_to_job
listed_by_status = refl

abbrev accounts : Local
accounts = record {
  rows = ("alice", ("alice", user_to_doc dates alice)) ∷ [];
  keyed = (refl, refl, tt);
}

accounts_same :
    (id : String)
    → local.get_doc accounts id
      ≡ Option.map (user_to_doc dates) (Dict.get (("alice", alice) ∷ []) id)
accounts_same id = pushed ("alice" == id)
  where
    pushed :
        (b : Bool)
        → Option.map
            (λ (r : Row). r.1)
            (if b then some ("alice", user_to_doc dates alice) else none)
          ≡ Option.map (user_to_doc dates) (if b then some alice else none)
    pushed true = refl
    pushed false = refl

firestore_users_refine_example :
    (get local dates accounts "alice" ≡ ok (MemoryUsers.get (("alice", alice) ∷ []) "alice"))
    × ((o : Option User) × (get_by_email local dates accounts "alice@example.org" ≡ ok o)
        × Finds (("alice", alice) ∷ []) (λ user. is_text user.email "alice@example.org") o)
    × ((o : Option User) × (get_by_hf_user_id local dates accounts "hf-1" ≡ ok o)
        × Finds (("alice", alice) ∷ []) (λ user. is_text user.hf_user_id "hf-1") o)
firestore_users_refine_example =
    firestore_users_refine local local-IsFirestore dates dates-IsDateText accounts
      (("alice", alice) ∷ []) accounts_same (refl, refl, tt) "alice" "alice@example.org" "hf-1"
