-- ===== src/Smart/Planning.antt =====
-- calculateComplexity, estimateDuration and CalculateOptimalBatchSize. A duration is in seconds,
-- since every summand is a whole number of them.
use reposhift.Common.{ℕ, ◌+◌, ◌*◌, ◌/◌, ◌≤◌, Option, none, some, length, ltb, arith, if◌then◌else◌}
use reposhift.Smart.Types.{RepositoryAnalysis, WorkItemAnalysis, ArtifactAnalysis, PlannedMigration}

abbrev mib : ℕ
mib = 1024 * 1024

size_score : ℕ → ℕ
size_score n =
    if ltb (10 * 1024 * mib) n
    then 15
    else if ltb (1024 * mib) n
    then 10
    else if ltb (100 * mib) n
    then 5
    else 0

commit_score : ℕ → ℕ
commit_score n = if ltb 10000 n then 10 else if ltb 1000 n then 5 else if ltb 100 n then 2 else 0

branch_score : ℕ → ℕ
branch_score n = if ltb 100 n then 10 else if ltb 20 n then 5 else if ltb 5 n then 2 else 0

repository_score : Option RepositoryAnalysis → ℕ
unfolding size_score commit_score branch_score
repository_score none = 0
repository_score (some ra) =
    size_score ra.size_bytes
    + commit_score ra.commit_count
    + branch_score ra.branch_count
    + (if ra.has_lfs then 5 else 0)

work_item_score : Option WorkItemAnalysis → ℕ
work_item_score none = 0
work_item_score (some wa) =
    let n = wa.total_count in
    if ltb 1000 n
    then 20
    else if ltb 500 n
    then 15
    else if ltb 100 n
    then 10
    else if ltb 10 n
    then 5
    else 0

artifact_score : Option ArtifactAnalysis → ℕ
artifact_score none = 0
artifact_score (some aa) =
    let n = aa.total_artifacts in
    if ltb 500 n
    then 20
    else if ltb 100 n
    then 15
    else if ltb 20 n
    then 10
    else if ltb 5 n
    then 5
    else 0

dependency_score : ℕ → ℕ
dependency_score n = if ltb 5 n then 10 else if ltb 2 n then 5 else if ltb 0 n then 2 else 0

unfoldable calculate_complexity : PlannedMigration → ℕ
unfolding repository_score work_item_score artifact_score dependency_score
calculate_complexity pm =
    repository_score pm.repository_analysis
    + work_item_score pm.work_item_analysis
    + artifact_score pm.artifact_analysis
    + dependency_score (length pm.dependencies)
    + (if pm.include_pipelines then 10 else 0)

unfoldable calculate_optimal_batch_size : ℕ → ℕ
calculate_optimal_batch_size complexity =
    if ltb 70 complexity then 5 else if ltb 40 complexity then 10 else 20

repository_time : Option RepositoryAnalysis → ℕ
repository_time none = 0
repository_time (some ra) =
    ra.size_bytes / mib / 100 * 60
    + ra.commit_count / 100
    + ra.branch_count * 5
    + (if ra.has_lfs then 300 else 0)

work_item_time : Option WorkItemAnalysis → ℕ
work_item_time none = 0
work_item_time (some wa) = wa.total_count * 10

artifact_time : Option ArtifactAnalysis → ℕ
artifact_time none = 0
artifact_time (some aa) = aa.total_artifacts * 5 + aa.total_size_bytes / mib / 10 * 60

unfoldable estimate_duration : PlannedMigration → ℕ
unfolding repository_time work_item_time artifact_time
estimate_duration pm =
    30
    + repository_time pm.repository_analysis
    + work_item_time pm.work_item_analysis
    + artifact_time pm.artifact_analysis
    + (if pm.include_pipelines then 600 else 0)

repository_score_le : (o : Option RepositoryAnalysis) → repository_score o ≤ 40
unfolding repository_score
repository_score_le none = omega arith
repository_score_le (some ra) = ground arith

work_item_score_le : (o : Option WorkItemAnalysis) → work_item_score o ≤ 20
unfolding work_item_score
work_item_score_le none = omega arith
work_item_score_le (some ra) = ground arith

artifact_score_le : (o : Option ArtifactAnalysis) → artifact_score o ≤ 20
unfolding artifact_score
artifact_score_le none = omega arith
artifact_score_le (some ra) = ground arith

dependency_score_le : (n : ℕ) → dependency_score n ≤ 10
unfolding dependency_score
dependency_score_le n = ground arith

-- The complexity of any migration is at most 100.
calculate_complexity_le : (pm : PlannedMigration) → calculate_complexity pm ≤ 100
unfolding calculate_complexity
calculate_complexity_le pm = ground (
  arith,
  repository_score_le pm.repository_analysis,
  work_item_score_le pm.work_item_analysis,
  artifact_score_le pm.artifact_analysis,
  dependency_score_le (length pm.dependencies),
)
