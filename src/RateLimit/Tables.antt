-- ===== src/RateLimit/Tables.antt =====
-- The rate-limit tables of app/models/acquisition_control.py: the columns that
-- app/services/acquisition_rate_limit_service.py reads and writes. `datetime` columns are `Time`.
use global_news_intelligence.Prelude.{
  ℕ, String, str_eq, Bool, true, false, ◌&&◌, Option, none, some, List, ◌==◌, Time,
}

-- A `scope` with its `scope_identity`. The service prints the two as `installation`, `adapter:3`,
-- `origin:https://host:443` and so on, which tells different scopes and different values apart.
pub data Scope : Type 0 where
  installation : Scope
  adapter : ℕ → Scope
  platform : String → Scope
  origin : String → String → ℕ → Scope
  source : ℕ → Scope
  endpoint : ℕ → Scope
  credential : ℕ → Scope

abbrev pub same_scope : Scope → Scope → Bool
same_scope Scope.installation Scope.installation = true
same_scope (Scope.adapter a) (Scope.adapter b) = a == b
same_scope (Scope.platform a) (Scope.platform b) = str_eq a b
same_scope (Scope.origin a h p) (Scope.origin b i q) = str_eq a b && str_eq h i && p == q
same_scope (Scope.source a) (Scope.source b) = a == b
same_scope (Scope.endpoint a) (Scope.endpoint b) = a == b
same_scope (Scope.credential a) (Scope.credential b) = a == b
same_scope _ _ = false

pub record Policy : Type 0 where
  pub id : ℕ
  pub slug : String
  pub version : String
  pub requests_per_period : ℕ
  pub period_seconds : ℕ
  pub burst_size : ℕ
  pub max_concurrency : ℕ
  pub minimum_request_spacing_seconds : ℕ
  pub daily_request_budget : Option ℕ
  pub valid_to : Option Time

-- `scope` carries `scope`, `scope_identity` and the column that the scope fills.
pub record Binding : Type 0 where
  pub id : ℕ
  pub policy_id : ℕ
  pub scope : Scope
  pub valid_to : Option Time

pub record Bucket : Type 0 where
  pub id : ℕ
  pub binding_id : ℕ
  pub scope : Scope
  pub window_started_at : Time
  pub request_count : ℕ
  pub daily_window_started_at : Time
  pub daily_request_count : ℕ
  pub active_concurrency : ℕ
  pub last_request_at : Option Time
  pub blocked_until : Option Time
  pub provider_reset_at : Option Time
  pub next_eligible_at : Option Time

pub data ReservationStatus : Type 0 where
  active completed expired failed : ReservationStatus

pub record Reservation : Type 0 where
  pub id : ℕ
  pub ingestion_run_id : ℕ
  pub request_identity : String
  pub status : ReservationStatus
  pub reserved_at : Time
  pub expires_at : Time
  pub finalized_at : Option Time
  pub next_eligible_at : Option Time

-- `AcquisitionRateLimitReservationBucket`
pub record Membership : Type 0 where
  pub reservation_id : ℕ
  pub bucket_id : ℕ
  pub released_at : Option Time

pub data ObservationType : Type 0 where
  http_status retry_after provider_quota provider_reset robots : ObservationType

pub record Observation : Type 0 where
  pub bucket_id : ℕ
  pub observation_type : ObservationType
  pub http_status : Option ℕ
  pub retry_after_at : Option Time
  pub provider_reset_at : Option Time

pub record RateDb : Type 0 where
  pub policies : List Policy
  pub bindings : List Binding
  pub buckets : List Bucket
  pub reservations : List Reservation
  pub memberships : List Membership
  pub observations : List Observation
  pub next_binding_id : ℕ
  pub next_bucket_id : ℕ
  pub next_reservation_id : ℕ

abbrev pub is_active : ReservationStatus → Bool
is_active ReservationStatus.active = true
is_active _ = false

-- `column.is_(None)`
abbrev pub is_null {ℓ} : {A : Type ℓ} → Option A → Bool
is_null none = true
is_null (some _) = false

-- `released_at IS NULL` and the row's reservation
abbrev pub holds_open : ℕ → Membership → Bool
holds_open id m = m.reservation_id == id && is_null m.released_at

-- The open memberships of a bucket.
abbrev pub is_open_on : ℕ → Membership → Bool
is_open_on bucket m = m.bucket_id == bucket && is_null m.released_at
