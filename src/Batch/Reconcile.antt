-- ===== src/Batch/Reconcile.antt =====
-- Reconcile: one handler for each phase of the batch, and the dispatch on the phase.
use reposhift.Common.{
  false, ℕ, ◌+◌, ◌*◌, String, Bool, true, Option, none, some, List, ltb, str_eq, str_append,
  if◌then◌else◌,
}
use reposhift.Common.Int.{ℤ, pos, ltb_ℤ, ◌-ℤ◌}
use reposhift.Batch.Types.{Phase, Spec, Status}
use reposhift.Batch.Env.{found, not_found, get_error, Env, Outcome, returns, panics}
use reposhift.Batch.Changes.{
  second, reconciled_at, initialised, claim, renewed, start_processing, back_to_pending,
  completed_at, all_successful,
}
use reposhift.Batch.Action.{M, ◌>>=◌, ◌>>◌, pure, gets, modify, event, now, update}
use reposhift.Batch.Resources.{process_all}
use reposhift.Batch.Retry.{get_retry_policy, fail_batch, retry_batch, mark_stale}

abbrev lease_renewal_interval : ℕ
lease_renewal_interval = 120 * second

abbrev batch_pending_requeue : ℕ
batch_pending_requeue = 5 * second

abbrev batch_processing_requeue : ℕ
batch_processing_requeue = 30 * second

abbrev batch_retrying_requeue : ℕ
batch_retrying_requeue = 10 * second

module _ (e : Env) where
  unfoldable pub expired_by : Option ℕ → M e.World Bool
  expired_by none = pure true
  expired_by (some expires) = do t ← now e; pure (ltb expires t)

  unfoldable pub is_lease_expired : M e.World Bool
  unfolding expired_by
  is_lease_expired = do expires ← gets (λ b. b.lease_expires_at); expired_by expires

  unfoldable pub expires_soon : Option ℕ → M e.World Bool
  expires_soon none = pure true
  expires_soon (some expires) = do t ← now e; pure (ltb expires (t + lease_renewal_interval))

  unfoldable pub should_renew_lease : M e.World Bool
  unfolding expires_soon
  should_renew_lease = do expires ← gets (λ b. b.lease_expires_at); expires_soon expires

  unfoldable pub renew_lease : M e.World (Option String)
  renew_lease = do t ← now e; modify (renewed t); update e

  -- an error of the renewal is logged only
  unfoldable pub renew_if : Bool → M e.World (Unit {0})
  unfolding renew_lease
  renew_if false = pure tt
  renew_if true = do renew_lease; pure tt

  unfoldable pub initialize_status : Spec → M e.World Outcome
  initialize_status spec = do
    modify (initialised spec)
    event "Initialized"
    error ← update e
    pure (returns (pos batch_pending_requeue) error)

  -- the event is recorded only for a claim that the API server took
  unfoldable pub after_claim : Option String → M e.World Outcome
  after_claim none = do event "BatchClaimed"; pure (returns (pos batch_processing_requeue) none)
  after_claim (some error) = pure (returns (pos batch_pending_requeue) (some error))

  -- processPending, with claimBatch
  unfoldable pub process_pending : M e.World Outcome
  unfolding after_claim
  process_pending = do t ← now e; modify (claim e.worker_id t); error ← update e; after_claim error

  unfoldable pub start_unless_expired : Spec → Bool → M e.World Outcome
  unfolding mark_stale
  start_unless_expired spec true = mark_stale e spec
  start_unless_expired spec false = do
    t ← now e
    modify (start_processing t)
    event "ProcessingStarted"
    error ← update e
    pure (returns (pos batch_processing_requeue) error)

  -- by whether this worker holds the claim
  unfoldable pub claimed_if_mine : Spec → Bool → M e.World Outcome
  unfolding is_lease_expired start_unless_expired
  claimed_if_mine spec false = pure (returns (pos 0) none)
  claimed_if_mine spec true = do expired ← is_lease_expired; start_unless_expired spec expired

  unfoldable pub process_claimed : Spec → M e.World Outcome
  unfolding claimed_if_mine
  process_claimed spec = do
    mine ← gets (λ b. str_eq b.claimed_by e.worker_id)
    claimed_if_mine spec mine

  -- the log line reads the duration behind the pointer to the statistics
  unfoldable pub succeed : Option ℤ → M e.World Outcome
  succeed none = do modify all_successful; pure panics
  succeed (some duration) = do
    modify all_successful
    event "BatchCompleted"
    error ← update e
    pure (returns (pos 0) error)

  unfoldable resources_failed : ℕ → String
  resources_failed n = str_append (e.format_int n) " resources failed"

  -- Partial failure: retry if possible.
  unfoldable pub after_failures : Spec → Status → M e.World Outcome
  unfolding resources_failed get_retry_policy
  after_failures spec b =
      if ltb b.retry_count (get_retry_policy spec).max_retries
      then retry_batch e spec
      else fail_batch e (resources_failed b.progress.failed)

  unfoldable pub complete_batch : Spec → M e.World Outcome
  unfolding succeed after_failures
  complete_batch spec = do
    t ← now e
    modify (completed_at t)
    b ← gets (λ b. b)
    if ltb 0 b.progress.failed then after_failures spec b else succeed b.statistics

  unfoldable pub work_unless_expired : Spec → Bool → M e.World Outcome
  unfolding should_renew_lease renew_if complete_batch
  work_unless_expired spec true = mark_stale e spec
  work_unless_expired spec false = do
    renew ← should_renew_lease
    renew_if renew
    process_all e spec spec.resources
    complete_batch spec

  unfoldable pub process_if_mine : Spec → Bool → M e.World Outcome
  unfolding is_lease_expired work_unless_expired
  process_if_mine spec false = pure (returns (pos 0) none)
  process_if_mine spec true = do expired ← is_lease_expired; work_unless_expired spec expired

  unfoldable pub process_processing : Spec → M e.World Outcome
  unfolding process_if_mine
  process_processing spec = do
    mine ← gets (λ b. str_eq b.claimed_by e.worker_id)
    process_if_mine spec mine

  unfoldable pub requeue_resumed : Option String → Outcome
  requeue_resumed none = returns (pos batch_pending_requeue) none
  requeue_resumed (some error) = returns (pos batch_retrying_requeue) (some error)

  unfoldable pub resume : M e.World Outcome
  unfolding requeue_resumed
  resume = do
    retry_count ← gets (λ b. b.retry_count)
    modify (
        back_to_pending
          (str_append "Retrying batch (attempt " (str_append (e.format_int (retry_count + 1)) ")")))
    event "BatchRetrying"
    error ← update e
    pure (requeue_resumed error)

  unfoldable pub resume_or_wait : ℤ → ℕ → M e.World Outcome
  unfolding resume
  resume_or_wait next t =
      if ltb_ℤ (pos t) next then (do t' ← now e; pure (returns (next -ℤ pos t') none)) else resume

  -- a first reading of the clock decides, a second gives the waiting time
  unfoldable pub wait_until : Option ℤ → M e.World Outcome
  unfolding resume resume_or_wait
  wait_until none = resume
  wait_until (some next) = do t ← now e; resume_or_wait next t

  unfoldable pub process_retrying : M e.World Outcome
  unfolding wait_until
  process_retrying = do next ← gets (λ b. b.next_retry_time); wait_until next

  unfoldable pub process_phase : Phase → Spec → M e.World Outcome
  unfolding initialize_status process_pending process_claimed process_processing process_retrying
  process_phase Phase.pending spec = process_pending
  process_phase Phase.claimed spec = process_claimed spec
  process_phase Phase.processing spec = process_processing spec
  process_phase Phase.stale spec = retry_batch e spec
  process_phase Phase.retrying spec = process_retrying
  process_phase Phase.unset spec = initialize_status spec
  process_phase _ spec = pure (returns (pos 0) none)

  -- Reconcile on the batch that was found
  unfoldable pub reconcile_found : Spec → M e.World Outcome
  unfolding process_phase
  reconcile_found spec = do
    t ← now e
    modify (reconciled_at t)
    phase ← gets (λ b. b.phase)
    process_phase phase spec

  -- what Reconcile returns, and the world after it
  unfoldable pub reconcile : e.World → Outcome × e.World
  unfolding reconcile_found
  reconcile w = elim (e.get w) [
    | not_found ↦ (returns (pos 0) none, w)
    | get_error error ↦ (returns (pos 0) (some error), w)
    | found spec b ↦
        let (o, s) = reconcile_found spec (record { world = w; status = b; events = List.[] }) in
        (o, s.world)
  ]
