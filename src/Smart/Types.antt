-- ===== src/Smart/Types.antt =====
-- The data of internal/smart/engine.go: what a migration is planned from.
use reposhift.Common.{ℕ, String, Bool, Option, List}

-- type RepositoryAnalysis; tags, submodules and languages are read by nothing
pub record RepositoryAnalysis : Type 0 where
  pub size_bytes : ℕ
  pub commit_count : ℕ
  pub branch_count : ℕ
  pub has_lfs : Bool

-- type WorkItemAnalysis, of which the count alone is read
pub record WorkItemAnalysis : Type 0 where
  pub total_count : ℕ

-- type ArtifactAnalysis, likewise
pub record ArtifactAnalysis : Type 0 where
  pub total_artifacts : ℕ
  pub total_size_bytes : ℕ

-- type PlannedMigration, less the repositories' names
pub record PlannedMigration : Type 0 where
  pub name : String
  pub include_repository : Bool
  pub include_work_items : Bool
  pub include_artifacts : Bool
  pub include_pipelines : Bool
  pub dependencies : List String
  pub repository_analysis : Option RepositoryAnalysis
  pub work_item_analysis : Option WorkItemAnalysis
  pub artifact_analysis : Option ArtifactAnalysis
  pub estimated_duration : ℕ
