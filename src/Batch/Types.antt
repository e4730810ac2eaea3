-- ===== src/Batch/Types.antt =====
-- The BatchMigration resource: api/v1/batchmigration_types.go, and the parts of
-- api/v1/shared_types.go that the batch controller reads.
use reposhift.Common.{ℕ, String, Bool, Option, List}
use reposhift.Common.Int.{ℤ}

-- type BatchPhase; `unset` is the empty text, `other` any text that is no constant
pub data Phase : Type 0 where
  unset pending claimed processing completed failed retrying stale : Phase
  other : String → Phase

-- type ResourceStatus
pub data ResourceStatus : Type 0 where
  pending validating running completed failed skipped paused : ResourceStatus

-- type MigrationResource, without the settings that only the migration service reads
pub record MigrationResource : Type 0 where
  pub type : String
  pub source_id : String
  pub source_name : String
  pub target_name : String

-- type ResourceMigrationStatus, the fields that the batch controller sets
pub record ResourceMigrationStatus : Type 0 where
  pub resource_id : String
  pub type : String
  pub source_name : String
  pub target_name : String
  pub status : ResourceStatus
  pub progress : ℕ
  pub completion_time : Option ℕ
  pub error_message : String

-- type SecretReference
pub record SecretReference : Type 0 where
  pub name : String
  pub key : String
  pub namespace : String

-- type RetryPolicy
pub record RetryPolicy : Type 0 where
  pub max_retries : ℕ
  pub initial_delay_seconds : ℕ
  pub backoff_multiplier : ℕ
  pub max_delay_seconds : ℕ

-- Where each kind of token comes from: AdoAuthConfig and GitHubAuthConfig.
pub record AdoAuth : Type 0 where
  pub pat : Option SecretReference
  pub has_service_principal : Bool

pub record GitHubAuth : Type 0 where
  pub token_ref : Option SecretReference
  pub has_app_auth : Bool

-- type BatchMigrationSpec, with the object's namespace
pub record Spec : Type 0 where
  pub namespace : String
  pub resources : List MigrationResource
  pub source_auth : AdoAuth
  pub target_auth : GitHubAuth
  pub retry_policy : Option RetryPolicy

-- type BatchProgress; `processing` and `skipped` are written by initialisation alone
pub record Progress : Type 0 where
  pub total : ℕ
  pub completed : ℕ
  pub failed : ℕ
  pub processing : ℕ
  pub percentage : ℕ
  pub current_step : String

-- type BatchMigrationStatus; times are nanoseconds, and of the statistics only the duration is
-- ever written
pub record Status : Type 0 where
  pub phase : Phase
  pub claimed_by : String
  pub claimed_at : Option ℕ
  pub lease_expires_at : Option ℕ
  pub progress : Progress
  pub retry_count : ℕ
  pub start_time : Option ℕ
  pub completion_time : Option ℕ
  pub resource_statuses : List ResourceMigrationStatus
  pub error_message : String
  pub last_reconcile_time : Option ℕ
  pub next_retry_time : Option ℤ
  pub statistics : Option ℤ
