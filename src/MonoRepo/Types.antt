-- ===== src/MonoRepo/Types.antt =====
-- The MonoRepoMigration resource: api/v1/monorepomigration_types.go.
use reposhift.Common.{ℕ, String, Bool, true, Option, none, some, List, if◌then◌else◌}
use reposhift.Common.Int.{ℤ, pos, ltb_ℤ}
use reposhift.Batch.Types.{SecretReference}
use reposhift.Migration.Types.{ServicePrincipal, AppAuth}

-- type MonoRepoMigrationPhase; `unset` is the empty text
pub data MonoPhase : Type 0 where
  unset pending validating cloning rewriting merging pushing : MonoPhase
  completed failed cancelled paused : MonoPhase

-- type MonoRepoRepoPhase
pub data RepoPhase : Type 0 where
  cloning rewriting merging completed failed skipped pending : RepoPhase

-- type MonoRepoSourceRepo
pub record SourceRepo : Type 0 where
  pub name : String
  pub subdirectory_name : String
  pub include_branches : List String
  pub exclude_branches : List String
  pub default_branch : String
  pub priority : ℤ

-- type MonoRepoMigrationSettings, less what no code reads
pub record MonoSettings : Type 0 where
  pub continue_on_error : Option Bool
  pub cleanup_between_repos : Option Bool
  pub parallel_clones : ℤ
  pub clone_depth : ℤ

unfoldable or_true : Option Bool → Bool
or_true none = true
or_true (some b) = b

unfoldable pub get_continue_on_error : MonoSettings → Bool
unfolding or_true
get_continue_on_error s = or_true s.continue_on_error

unfoldable pub get_cleanup_between_repos : MonoSettings → Bool
unfolding or_true
get_cleanup_between_repos s = or_true s.cleanup_between_repos

-- from 1 to 10
unfoldable pub get_parallel_clones : MonoSettings → ℤ
get_parallel_clones s =
    if ltb_ℤ s.parallel_clones (pos 1)
    then pos 3
    else if ltb_ℤ (pos 10) s.parallel_clones
    then pos 10
    else s.parallel_clones

-- type MonoRepoMigrationSpec, with the source and the target
pub record MonoSpec : Type 0 where
  pub organization : String
  pub project : String
  -- AdoAuthConfig
  pub pat : Option SecretReference
  pub service_principal : Option ServicePrincipal
  pub owner : String
  pub repository : String
  pub visibility : String
  pub default_branch : String
  -- GitHubAuthConfig
  pub token : String
  pub token_ref : Option SecretReference
  pub app_auth : Option AppAuth
  pub source_repos : List SourceRepo
  pub settings : MonoSettings

-- type MonoRepoRepoStatus
pub record RepoStatus : Type 0 where
  pub name : String
  pub subdirectory_name : String
  pub phase : RepoPhase
  pub default_branch : String
  pub branches_migrated : ℕ
  pub tags_migrated : ℕ
  pub commit_count : ℕ
  pub size_mb : ℕ
  pub start_time : Option ℕ
  pub completion_time : Option ℕ
  pub error_message : String

-- type MonoRepoProgress
pub record MonoProgress : Type 0 where
  pub total_repos : ℕ
  pub completed_repos : ℕ
  pub failed_repos : ℕ
  pub skipped_repos : ℕ
  pub percentage : ℕ
  pub current_step : String
  pub progress_summary : String

-- type MonoRepoStatistics
pub record MonoStatistics : Type 0 where
  pub duration : ℤ
  pub total_commits : ℕ
  pub total_branches : ℕ
  pub total_tags : ℕ
  pub total_size_mb : ℕ

-- type MonoRepoMigrationStatus, less what the controller never sets
pub record MonoStatus : Type 0 where
  pub phase : MonoPhase
  pub start_time : Option ℕ
  pub completion_time : Option ℕ
  pub repo_statuses : List RepoStatus
  pub progress : MonoProgress
  pub error_message : String
  pub statistics : Option MonoStatistics
  pub last_reconcile_time : Option ℕ
  pub observed_generation : ℕ
  pub mono_repo_url : String

-- type MonoRepoMigration, with what the controller reads of its metadata
pub record MonoMigration : Type 0 where
  pub name : String
  pub namespace : String
  pub generation : ℕ
  pub deleting : Bool
  pub has_finalizer : Bool
  pub annotations : List (String × String)
  pub spec : MonoSpec
  pub status : MonoStatus
