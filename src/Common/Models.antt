-- ===== src/Common/Models.antt =====
-- common/models.py: the users and jobs that backend and worker share.
-- A `datetime` in UTC is the number of its microseconds since the start of the year 1, and a `date`
-- the number of its days since then. Counters that start at 0 and only grow are naturals.
use phyai_saas_train_vla.Prelude.{
  ℕ, ◌/◌, ◌*◌, ◌≡◌, ◌↔◌, String, Bool, true, false, Option, none, some, List, [], ◌∷◌, ℤ, arith, Eq,
  eqb, not, ◌==◌, text_eq, contains,
}
use phyai_saas_train_vla.Common.Float.{Float}

abbrev pub DateTime : Type 0
DateTime = ℕ

abbrev pub Date : Type 0
Date = ℕ

abbrev pub microseconds_per_day : ℕ
microseconds_per_day = 24 * 60 * 60 * 1000000

-- `now.date()`
abbrev pub date : DateTime → Date
date now = now / microseconds_per_day

pub data JobStatus : Type 0 where
  queued initializing training completed failed cancelled : JobStatus

-- The place of a status in the enumeration, by which statuses are compared.
abbrev pub ordinal : JobStatus → ℕ
ordinal queued = 0
ordinal initializing = 1
ordinal training = 2
ordinal completed = 3
ordinal failed = 4
ordinal cancelled = 5

pub status_eq_iff : (a b : JobStatus) → (eqb (ordinal a) (ordinal b) ≡ true) ↔ (a ≡ b)
status_eq_iff a b = ground arith

instance abbrev pub status_eq : Eq JobStatus
status_eq = record { same = λ a b. eqb (ordinal a) (ordinal b); same_iff = status_eq_iff }

abbrev pub active_statuses : List JobStatus
active_statuses = queued ∷ initializing ∷ training ∷ []

abbrev pub container_started_statuses : List JobStatus
container_started_statuses = initializing ∷ training ∷ completed ∷ failed ∷ cancelled ∷ []

abbrev pub terminal_statuses : List JobStatus
terminal_statuses = completed ∷ failed ∷ cancelled ∷ []

abbrev pub status_value : JobStatus → String
status_value queued = "queued"
status_value initializing = "initializing"
status_value training = "training"
status_value completed = "completed"
status_value failed = "failed"
status_value cancelled = "cancelled"

pub data PolicyType : Type 0 where
  act smolvla : PolicyType

abbrev pub policy_value : PolicyType → String
policy_value act = "act"
policy_value smolvla = "smolvla"

pub data SourceType : Type 0 where
  hf_hub zip_upload : SourceType

abbrev pub source_value : SourceType → String
source_value hf_hub = "hf_hub"
source_value zip_upload = "zip_upload"

pub data AuthProvider : Type 0 where
  by_email huggingface : AuthProvider

abbrev pub provider_value : AuthProvider → String
provider_value by_email = "email"
provider_value huggingface = "huggingface"

pub record User : Type 0 where
  pub id : String
  pub auth_provider : AuthProvider
  pub email : Option String
  pub password_hash : Option String
  pub hf_user_id : Option String
  pub daily_quota_used : ℕ
  pub quota_reset_date : Option Date
  pub created_at : DateTime

pub record Progress : Type 0 where
  pub step : ℤ
  pub total_steps : ℤ
  pub loss : Float
  pub updated_at : DateTime

pub record Job : Type 0 where
  pub id : String
  pub user_id : String
  pub policy : PolicyType
  pub source_type : SourceType
  pub source_ref : String
  pub training_steps : ℤ
  pub status : JobStatus
  pub container_id : Option String
  pub heartbeat_at : Option DateTime
  pub progress : Option Progress
  pub cancel_requested : Bool
  pub checkpoint_gcs_path : Option String
  pub error_message : Option String
  pub created_at : DateTime
  pub updated_at : DateTime

-- `status in statuses`
abbrev pub is_in : List JobStatus → JobStatus → Bool
is_in statuses s = contains statuses s

-- A text field that Python takes for true: neither `None` nor empty.
abbrev pub is_present : Option String → Bool
is_present none = false
is_present (some s) = not (s == "")

-- The text of such a field.
abbrev pub text_or_empty : Option String → String
text_or_empty none = ""
text_or_empty (some s) = s
