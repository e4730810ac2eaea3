-- ===== src/Batch/Runs/Failures.antt =====
-- A resource that failed once is never tried again, so the retries of its batch are in vain.
use reposhift.Common.{◌<◌, ◌≡◌, ◌≢◌, String, List, arith, none}
use reposhift.Batch.Types.{Phase, Spec, Status}
use reposhift.Batch.Env.{Env}
use reposhift.Batch.Resources.{mark_resource_completed, mark_resource_failed, update_progress}
use reposhift.Batch.Closed.{Closed}
use reposhift.Batch.Runs.{Server, run, run-closed}

-- A batch that has failed resources and is neither new nor completed; the start is known.
pub record HasFailures (b : Status) : Type 0 where
  pub failed : 0 < b.progress.failed
  pub known : b.phase ≢ Phase.unset
  pub incomplete : b.phase ≢ Phase.completed
  pub started : b.phase ≡ Phase.processing → b.start_time ≢ none

module _ (spec : Spec) where
  HasFailures-Closed : Closed spec HasFailures
  unfolding mark_resource_completed mark_resource_failed update_progress
  HasFailures-Closed = record {
    reconciled_at = λ t b v. ground (arith, v);
    initialised = λ b v p. absurd (v.known p);
    claim = λ worker t b v p. ground (arith, v);
    start_processing = λ t b v p. ground (arith, v);
    renewed = λ t b v p. ground (arith, v);
    mark_resource_completed = λ t r b v p h. ground (arith, v);
    mark_resource_failed = λ t r error b v p h. ground (arith, v);
    update_progress = λ b v p. ground (arith, v);
    completed_at = λ t b v p. ground (arith, v);
    all_successful = λ b v p z a. absurd (omega (arith, v.failed));
    become_stale = λ b v. ground (arith, v);
    begin_retry = λ next b v h. ground (arith, v);
    give_up = λ message t b v. ground (arith, v);
    back_to_pending = λ step b v p. ground (arith, v);
    started = λ b v. v.started;
  }

  -- Once a resource of a started batch has failed, no series of reconciliations completes the
  -- batch, whatever its retries and its migrations do.
  pub run-incomplete :
      (e : Env) (server : Server e spec) (ids : List String) (w : e.World)
      → HasFailures (server.stored w)
      → (server.stored (run e ids w)).phase ≢ Phase.completed
  run-incomplete e server ids w h =
      (run-closed e spec server HasFailures HasFailures-Closed ids w h).incomplete
