-- ===== src/Batch/Valid.antt =====
-- What holds of every status of a batch that the controller writes, for a fixed specification.
use reposhift.Common.{ℕ, ◌≤◌, ◌≡◌, ◌≢◌, Bool, true, false, none, List, [], count_if, all}
use reposhift.Batch.Types.{Phase, ResourceStatus, ResourceMigrationStatus, Spec, Status}
use reposhift.Batch.Resources.{is_terminal}
use reposhift.Batch.Retry.{get_retry_policy}
use reposhift.Batch.Closed.{all_processed}

abbrev pub is_completed : ResourceStatus → Bool
is_completed ResourceStatus.completed = true
is_completed _ = false

abbrev pub is_failed : ResourceStatus → Bool
is_failed ResourceStatus.failed = true
is_failed _ = false

abbrev completed_in : List ResourceMigrationStatus → ℕ
completed_in = count_if (λ s. is_completed s.status)

abbrev pub failed_in : List ResourceMigrationStatus → ℕ
failed_in = count_if (λ s. is_failed s.status)

abbrev pub all_terminal : List ResourceMigrationStatus → Bool
all_terminal = all (λ s. is_terminal s.status)

-- The counters of the progress are those of the statuses, and a status says success or failure.
pub record IsCounted (b : Status) : Type 0 where
  pub completed : b.progress.completed ≡ completed_in b.resource_statuses
  pub failed : b.progress.failed ≡ failed_in b.resource_statuses
  pub terminal : all_terminal b.resource_statuses ≡ true

pub record IsValid (spec : Spec) (b : Status) : Type 0 where
  pub counted : IsCounted b
  pub retries : b.retry_count ≤ (get_retry_policy spec).max_retries
  pub fresh : b.phase ≡ Phase.unset → b.resource_statuses ≡ []
  pub started : b.phase ≡ Phase.processing → b.start_time ≢ none
  pub successful :
      b.phase ≡ Phase.completed → (b.progress.failed ≡ 0) × (all_processed spec b ≡ true)
