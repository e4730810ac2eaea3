-- ===== src/Batch/Retry.antt =====
-- Retries of a batch: the policy, the delay, scheduling a retry, giving up, staleness.
use reposhift.Common.{ℕ, ◌*◌, String, Option, none, some, leb, if◌then◌else◌}
use reposhift.Common.Int.{ℤ, pos, ltb_ℤ, ◌+ℤ◌}
use reposhift.Batch.Types.{RetryPolicy, Spec}
use reposhift.Batch.Env.{Env, Outcome, returns}
use reposhift.Batch.Changes.{second, begin_retry, give_up, become_stale}
use reposhift.Batch.Action.{M, ◌>>=◌, ◌>>◌, pure, gets, modify, event, now, rand, update}

abbrev default_retry_policy : RetryPolicy
default_retry_policy = record {
  max_retries = 3;
  initial_delay_seconds = 30;
  backoff_multiplier = 2;
  max_delay_seconds = 600;
}

abbrev or_default : Option RetryPolicy → RetryPolicy
or_default (some policy) = policy
or_default none = default_retry_policy

unfoldable pub get_retry_policy : Spec → RetryPolicy
get_retry_policy spec = or_default spec.retry_policy

module _ (e : Env) where
  open e.floats use {Float, of_ℕ, add, mul, pow, quarter, trunc}

  -- the backoff before the jitter, capped if its conversion to int64 is above the maximum
  unfoldable base_retry_delay : ℕ → RetryPolicy → Float
  base_retry_delay retry_count p =
      let delay =
        mul (of_ℕ (p.initial_delay_seconds * second))
          (pow (of_ℕ p.backoff_multiplier) (of_ℕ retry_count)) in
      if ltb_ℤ (pos (p.max_delay_seconds * second)) (trunc delay)
      then of_ℕ (p.max_delay_seconds * second)
      else delay

  unfoldable pub calculate_retry_delay : ℕ → RetryPolicy → M e.World ℤ
  unfolding base_retry_delay
  calculate_retry_delay retry_count p = do
    r ← rand e
    pure (
        trunc (
          add (base_retry_delay retry_count p)
            (mul (mul r (base_retry_delay retry_count p)) quarter)))

  unfoldable pub fail_batch : String → M e.World Outcome
  fail_batch message = do
    t ← now e
    modify (give_up message t)
    event "BatchFailed"
    error ← update e
    pure (returns (pos 0) error)

  -- the error goes out with a zero RequeueAfter
  abbrev pub requeue_unless : ℤ → Option String → Outcome
  requeue_unless after none = returns after none
  requeue_unless after (some error) = returns (pos 0) (some error)

  unfoldable pub schedule_retry : RetryPolicy → M e.World Outcome
  schedule_retry p = do
    retry_count ← gets (λ b. b.retry_count)
    delay ← calculate_retry_delay retry_count p
    t ← now e
    modify (begin_retry (pos t +ℤ delay))
    event "BatchScheduledForRetry"
    error ← update e
    pure (requeue_unless delay error)

  unfoldable pub retry_batch : Spec → M e.World Outcome
  unfolding schedule_retry fail_batch get_retry_policy
  retry_batch spec = do
    retry_count ← gets (λ b. b.retry_count)
    if leb (get_retry_policy spec).max_retries retry_count
        then fail_batch "Maximum retry attempts exceeded"
        else schedule_retry (get_retry_policy spec)

  unfoldable pub after_stale : Spec → Option String → M e.World Outcome
  unfolding retry_batch
  after_stale spec none = retry_batch spec
  after_stale spec (some error) = pure (returns (pos 0) (some error))

  unfoldable pub mark_stale : Spec → M e.World Outcome
  unfolding after_stale
  mark_stale spec = do
    modify become_stale
    event "LeaseExpired"
    error ← update e
    after_stale spec error
