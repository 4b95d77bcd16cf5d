-- ===== src/Usage/Types.antt =====
-- The credit enums (src/common/enums) and the rows of the three ledger tables
-- (src/database/entities: credit-grant, credit-allocation, credit-event).
use gomer.Base.{ℕ, ◌≡◌, refl, Bool, true, false, Option, none, some, List, ltb}
use gomer.Base.Text.{String, str_eq}

pub data CreditBucket : Type 0 where
  rollover plan topup reward : CreditBucket

pub data CreditGrantReason : Type 0 where
  onboarding topup manual subscription rollover referral seat_bonus : CreditGrantReason

pub data CreditEventType : Type 0 where
  thread scheduled_task : CreditEventType

abbrev pub bucket_eq : CreditBucket → CreditBucket → Bool
bucket_eq CreditBucket.rollover CreditBucket.rollover = true
bucket_eq CreditBucket.plan CreditBucket.plan = true
bucket_eq CreditBucket.topup CreditBucket.topup = true
bucket_eq CreditBucket.reward CreditBucket.reward = true
bucket_eq _ _ = false

pub bucket_eq_sound : (a b : CreditBucket) → bucket_eq a b ≡ true → a ≡ b
bucket_eq_sound CreditBucket.rollover CreditBucket.rollover h = refl
bucket_eq_sound CreditBucket.plan CreditBucket.plan h = refl
bucket_eq_sound CreditBucket.topup CreditBucket.topup h = refl
bucket_eq_sound CreditBucket.reward CreditBucket.reward h = refl
bucket_eq_sound _ _ h = cc

pub bucket_eq_comm : (a b : CreditBucket) → bucket_eq a b ≡ bucket_eq b a
bucket_eq_comm CreditBucket.rollover CreditBucket.rollover = refl
bucket_eq_comm CreditBucket.plan CreditBucket.plan = refl
bucket_eq_comm CreditBucket.topup CreditBucket.topup = refl
bucket_eq_comm CreditBucket.reward CreditBucket.reward = refl
bucket_eq_comm _ _ = refl

abbrev pub is_onboarding : CreditGrantReason → Bool
is_onboarding CreditGrantReason.onboarding = true
is_onboarding _ = false

-- Generated ids are only compared, so they are numbers; a time is a number of milliseconds.
pub record CreditGrant : Type 0 where
  pub id : ℕ
  pub workspace_id : ℕ
  pub user_id : Option ℕ
  pub reason : CreditGrantReason
  pub bucket : CreditBucket
  pub credits : ℕ
  pub expires_at : Option ℕ
  pub amount_cents : Option ℕ
  pub currency : Option String
  pub stripe_session_id : Option String
  pub stripe_invoice_id : Option String
  pub created_at : ℕ

pub record CreditAllocation : Type 0 where
  pub id : ℕ
  pub credit_event_id : ℕ
  pub grant_id : ℕ
  pub bucket : CreditBucket
  pub credits : ℕ

pub record CreditEvent : Type 0 where
  pub id : ℕ
  pub workspace_id : ℕ
  pub user_id : Option ℕ
  pub task_id : Option ℕ
  pub type : CreditEventType
  pub source_name : String
  pub input_tokens : ℕ
  pub output_tokens : ℕ
  pub cache_write_tokens : ℕ
  pub cache_read_tokens : ℕ
  pub tokens_used : ℕ
  pub credits_used : ℕ
  pub model : String
  pub resolved_model : Option String
  pub provider_cost_usd : ℕ
  pub created_at : ℕ

-- The database as these services see it: the tables in insertion order, the generator of ids and
-- the server's clock, `NOW()`.
pub record Ledger : Type 0 where
  pub grants : List CreditGrant
  pub allocations : List CreditAllocation
  pub events : List CreditEvent
  pub next_id : ℕ
  pub now : ℕ

-- `"expiresAt" IS NULL OR "expiresAt" > NOW()`
abbrev pub is_live : ℕ → Option ℕ → Bool
is_live now none = true
is_live now (some t) = ltb now t

-- Equality of two nullable texts under a unique index, where null equals nothing.
abbrev pub same_text : Option String → Option String → Bool
same_text (some a) (some b) = str_eq a b
same_text _ _ = false
