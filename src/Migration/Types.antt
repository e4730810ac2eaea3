-- ===== src/Migration/Types.antt =====
-- The AdoToGitMigration resource: api/v1/adotogitmigration_types.go, and the parts of
-- api/v1/shared_types.go that its controller reads or writes.
use reposhift.Common.{ℕ, String, Bool, Option, List}
use reposhift.Common.Int.{ℤ}
use reposhift.Batch.Types.{ResourceStatus, SecretReference}

-- type MigrationPhase; `unset` is the empty text, `other` any text that is no constant
pub data MigrationPhase : Type 0 where
  unset pending validating running completed failed cancelled paused syncing : MigrationPhase
  other : String → MigrationPhase

-- type RepositoryState; `unknown` is the empty text
pub data RepositoryState : Type 0 where
  unknown not_exists empty non_empty created : RepositoryState

-- type MigrationResource; of its settings the controller reads the visibility of the repository,
-- which is the empty text where any of the settings are missing
pub record MigrationResource : Type 0 where
  pub type : String
  pub source_id : String
  pub source_name : String
  pub target_name : String
  pub visibility : String

-- type ServicePrincipalConfig
pub record ServicePrincipal : Type 0 where
  pub client_id_ref : SecretReference
  pub client_secret_ref : SecretReference
  pub tenant_id_ref : SecretReference

-- type GitHubAppAuthConfig
pub record AppAuth : Type 0 where
  pub app_id_ref : SecretReference
  pub installation_id_ref : SecretReference
  pub private_key_ref : SecretReference

-- type SyncSettings, less what only the migration service reads
pub record SyncSettings : Type 0 where
  pub enabled : Bool
  pub interval_minutes : ℕ

-- type AdoToGitMigrationSpec: the source, the target, the settings of continuous sync, the
-- resources, and whether validation is skipped
pub record MigrationSpec : Type 0 where
  pub organization : String
  pub project : String
  -- AdoAuthConfig
  pub pat : Option SecretReference
  pub service_principal : Option ServicePrincipal
  pub owner : String
  pub default_branch : String
  -- DefaultRepoSettings.Visibility
  pub default_visibility : String
  -- GitHubAuthConfig
  pub token_ref : Option SecretReference
  pub app_auth : Option AppAuth
  pub inline_token : String
  pub sync : Option SyncSettings
  pub resources : List MigrationResource
  pub skip_validation : Bool

-- type MigrationProgress; the counters are signed, as some are counted down too
pub record MigrationProgress : Type 0 where
  pub total : ℕ
  pub completed : ℤ
  pub failed : ℤ
  pub processing : ℕ
  pub skipped : ℕ
  pub percentage : ℤ
  pub current_step : String
  pub current_item : ℕ
  pub progress_summary : String

-- type ResourceMigrationStatus, the fields that the controller sets
pub record ResourceMigrationStatus : Type 0 where
  pub resource_id : String
  pub type : String
  pub source_name : String
  pub target_name : String
  pub status : ResourceStatus
  pub progress : ℕ
  pub start_time : Option ℕ
  pub completion_time : Option ℕ
  pub error_message : String
  pub git_hub_url : String
  pub name : String
  pub error : String
  pub repository_url : String

-- metav1.Condition
pub record Condition : Type 0 where
  pub type : String
  pub status : Bool
  pub observed_generation : ℕ
  pub last_transition_time : ℕ
  pub reason : String
  pub message : String

-- type DefaultBranchInfo
pub record DefaultBranchInfo : Type 0 where
  pub source_default_branch : String
  pub target_default_branch : String
  pub auto_detected : Bool
  pub detected_at : Option ℕ

-- type RepositoryStateInfo, less the text of its details
pub record RepositoryStateInfo : Type 0 where
  pub repository_name : String
  pub state : RepositoryState
  pub git_hub_url : String
  pub created_during_migration : Bool
  pub checked_at : Option ℕ

-- type ValidationError or type ValidationWarning: its code, and the resource it is about
pub record Remark : Type 0 where
  pub code : String
  pub resource : String

-- type ValidationResults
pub record ValidationResults : Type 0 where
  pub valid : Bool
  pub errors : List Remark
  pub warnings : List Remark
  pub timestamp : ℕ

-- type SyncStatus, less Enabled, which is always true
pub record SyncStatus : Type 0 where
  pub last_sync_time : Option ℕ
  pub last_sync_error : String
  pub sync_count : ℕ
  pub failed_sync_count : ℕ
  pub branches_synced : List String
  pub tags_synced : List String
  pub next_sync_time : Option ℕ

-- type MigrationStatistics: the duration, and the repositories created
pub record MigrationStatistics : Type 0 where
  pub duration : ℤ
  pub repositories_created : ℕ

-- type AdoToGitMigrationStatus; times are nanoseconds
pub record MigrationStatus : Type 0 where
  pub phase : MigrationPhase
  pub conditions : List Condition
  pub start_time : Option ℕ
  pub completion_time : Option ℕ
  pub progress : MigrationProgress
  pub resource_statuses : List ResourceMigrationStatus
  pub validation_results : Option ValidationResults
  pub error_message : String
  pub statistics : Option MigrationStatistics
  pub last_reconcile_time : Option ℕ
  pub observed_generation : ℕ
  pub default_branch_info : Option DefaultBranchInfo
  pub repository_states : List RepositoryStateInfo
  pub sync_status : Option SyncStatus

-- type AdoToGitMigration: the metadata that the controller reads, the specification and the status
pub record Migration : Type 0 where
  pub namespace : String
  pub generation : ℕ
  pub deleting : Bool
  pub has_finalizer : Bool
  pub annotations : List (String × String)
  pub spec : MigrationSpec
  pub status : MigrationStatus
