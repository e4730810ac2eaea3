-- ===== src/Batch/Safety/Handlers.antt =====
-- Retrying, failing and marking stale keep a valid status and do not panic.
use reposhift.Common.{
  ℕ, ◌<◌, ◌≡◌, ◌≢◌, refl, String, Option, none, some, arith, Bool-cases, inl, inr, leb,
}
use reposhift.Common.Int.{ℤ}
use reposhift.Batch.Types.{RetryPolicy, Spec, Status}
use reposhift.Batch.Env.{Env, St, Outcome, panics}
use reposhift.Batch.Retry.{
  get_retry_policy, calculate_retry_delay, fail_batch, requeue_unless, schedule_retry, retry_batch,
  after_stale, mark_stale,
}
use reposhift.Batch.Closed.{Closed}
use reposhift.Batch.Safety.{Keeps, Inv}

-- A handler's result: no panic, and a good state.
pub record Good (e : Env) (V : Status → Type 0) (P : e.World → Type 0) (r : Outcome × St e.World)
    : Type 0 where
  pub returned : r.0 ≢ panics
  pub state : Inv e V P r.1

module _ (e : Env) (spec : Spec) (V : Status → Type 0) (c : Closed spec V) (P : e.World → Type 0)
    (k : Keeps e spec V P) where
  pub fail_batch-Good :
      (message : String) (s : St e.World) → Inv e V P s → Good e V P (fail_batch e message s)
  unfolding fail_batch
  fail_batch-Good message s i = record {
    returned = λ p. cc;
    state =
        let v = c.give_up message (e.now s.world).0 s.status i.valid in
        record { world = k.status_update _ _ v (k.now _ i.world); valid = v };
  }

  requeue_unless-ne-panics : (d : ℤ) (error : Option String) → requeue_unless e d error ≢ panics
  requeue_unless-ne-panics d none p = cc
  requeue_unless-ne-panics d (some x) p = cc

  -- the delay reads the random source alone
  calculate_retry_delay-Inv :
      (n : ℕ) (p : RetryPolicy) (s : St e.World)
      → Inv e V P s
      → Inv e V P (calculate_retry_delay e n p s).1
        × ((calculate_retry_delay e n p s).1.status ≡ s.status)
  unfolding calculate_retry_delay
  calculate_retry_delay-Inv n p s i = (record { world = k.rand _ i.world; valid = i.valid }, refl)

  schedule_retry-Good :
      (s : St e.World)
      → Inv e V P s
      → s.status.retry_count < (get_retry_policy spec).max_retries
      → Good e V P (schedule_retry e (get_retry_policy spec) s)
  unfolding schedule_retry
  schedule_retry-Good s i h =
      let (j, same) = calculate_retry_delay-Inv s.status.retry_count (get_retry_policy spec) s i in
      let v = c.begin_retry _ _ j.valid (rw same h) in
      record {
        returned = requeue_unless-ne-panics _ _;
        state = record { world = k.status_update _ _ v (k.now _ j.world); valid = v };
      }

  pub retry_batch-Good : (s : St e.World) → Inv e V P s → Good e V P (retry_batch e spec s)
  unfolding retry_batch
  retry_batch-Good s i =
      elim (Bool-cases (leb (get_retry_policy spec).max_retries s.status.retry_count)) [
        | inl out ↦ rw out (fail_batch-Good _ s i)
        | inr left ↦ rw left (schedule_retry-Good s i (ground arith))
      ]

  after_stale-Good :
      (error : Option String) (s : St e.World)
      → Inv e V P s
      → Good e V P (after_stale e spec error s)
  unfolding after_stale
  after_stale-Good none s i = retry_batch-Good s i
  after_stale-Good (some error) s i = record { returned = λ p. cc; state = i }

  pub mark_stale-Good : (s : St e.World) → Inv e V P s → Good e V P (mark_stale e spec s)
  unfolding mark_stale
  mark_stale-Good s i =
      let v = c.become_stale s.status i.valid in
      after_stale-Good _ _ (record { world = k.status_update _ _ v i.world; valid = v })
