-- ===== src/Batch/Closed.antt =====
-- What a property of statuses must satisfy so that it holds of every status that the batch
-- controller writes: one condition for each change that the controller makes.
use reposhift.Common.{ℕ, ◌<◌, ◌≡◌, ◌≢◌, Bool, true, false, all, none, String}
use reposhift.Common.Int.{ℤ}
use reposhift.Batch.Changes.{
  begin_retry, give_up, become_stale, reconciled_at, initialised, claim, renewed, start_processing,
  back_to_pending, completed_at, all_successful,
}
use reposhift.Batch.Types.{Phase, MigrationResource, Spec, Status}
use reposhift.Batch.Resources.{
  is_resource_processed, mark_resource_failed, mark_resource_completed, update_progress,
}
use reposhift.Batch.Retry.{get_retry_policy}

-- every resource of the specification has a status that says success or failure
abbrev pub all_processed : Spec → Status → Bool
all_processed spec b = all (λ r. is_resource_processed b r) spec.resources

pub record Closed (spec : Spec) (V : Status → Type 0) : Type 0 where
  pub reconciled_at : (t : ℕ) (b : Status) → V b → V (reconciled_at t b)
  pub initialised : (b : Status) → V b → b.phase ≡ Phase.unset → V (initialised spec b)
  pub claim :
      (worker : String) (t : ℕ) (b : Status) → V b → b.phase ≡ Phase.pending → V (claim worker t b)
  pub start_processing :
      (t : ℕ) (b : Status) → V b → b.phase ≡ Phase.claimed → V (start_processing t b)
  pub renewed : (t : ℕ) (b : Status) → V b → b.phase ≡ Phase.processing → V (renewed t b)
  pub mark_resource_completed :
      (t : ℕ) (r : MigrationResource) (b : Status)
      → V b
      → b.phase ≡ Phase.processing
      → is_resource_processed b r ≡ false
      → V (mark_resource_completed t r b)
  pub mark_resource_failed :
      (t : ℕ) (r : MigrationResource) (error : String) (b : Status)
      → V b
      → b.phase ≡ Phase.processing
      → is_resource_processed b r ≡ false
      → V (mark_resource_failed t r error b)
  pub update_progress : (b : Status) → V b → b.phase ≡ Phase.processing → V (update_progress b)
  pub completed_at : (t : ℕ) (b : Status) → V b → b.phase ≡ Phase.processing → V (completed_at t b)
  pub all_successful :
      (b : Status)
      → V b
      → b.phase ≡ Phase.processing
      → b.progress.failed ≡ 0
      → all_processed spec b ≡ true
      → V (all_successful b)
  pub become_stale : (b : Status) → V b → V (become_stale b)
  pub begin_retry :
      (next : ℤ) (b : Status)
      → V b
      → b.retry_count < (get_retry_policy spec).max_retries
      → V (begin_retry next b)
  pub give_up : (message : String) (t : ℕ) (b : Status) → V b → V (give_up message t b)
  pub back_to_pending :
      (step : String) (b : Status) → V b → b.phase ≡ Phase.retrying → V (back_to_pending step b)
  -- the log line of a completed batch reads the duration, which is known once the start is
  pub started : (b : Status) → V b → b.phase ≡ Phase.processing → b.start_time ≢ none
