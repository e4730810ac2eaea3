-- ===== src/Smart/Retrying.antt =====
-- executeWithSmartRetry: at most six attempts, guarded by the breaker and the rate limiter.
pub mod Attempts
use reposhift.Common.{
  ℕ, zero, suc, ◌+◌, String, Bool, true, false, Option, none, some, leb, not, str_append,
  if◌then◌else◌,
}
use reposhift.Common.Result.{wrap_error}
use reposhift.Smart.Matching.{is_retryable_error}

-- What the loop takes from outside, over a state that it may change: the limiter, the operation,
-- and the wait before attempt `n + 2`, which the context may cancel.
pub record Attempt : Type 1 where
  pub World : Type 0
  pub is_open : World → Bool
  pub wait : World → Option String × World
  pub operation : World → Option String × World
  pub pause : ℕ → World → Option String × World

abbrev pub max_retries : ℕ
max_retries = 5

-- an error returns, and no error goes on
unfoldable pub or_stop :
    {W : Type 0} → Option String → (W → Option String × W) → W → Option String × W
or_stop none rest w = rest w
or_stop (some e) rest w = (some e, w)

module _ (a : Attempt) where
  -- what follows an error of the operation, given what remains of the loop
  unfoldable pub after_error :
      ℕ → (a.World → Option String × a.World) → String → a.World → Option String × a.World
  after_error attempt rest e w =
      if not (is_retryable_error e)
      then (some (str_append "terminal error: " e), w)
      else if leb max_retries attempt
      then (some (str_append "max retries exceeded: " e), w)
      else or_stop (a.pause attempt w).0 rest (a.pause attempt w).1

  unfoldable pub after_operation :
      ℕ → (a.World → Option String × a.World) → Option String → a.World → Option String × a.World
  unfolding after_error
  after_operation attempt rest none w = (none, w)
  after_operation attempt rest (some e) w = after_error attempt rest e w

  unfoldable pub run_operation :
      ℕ → (a.World → Option String × a.World) → a.World → Option String × a.World
  unfolding after_operation
  run_operation attempt rest w = after_operation attempt rest (a.operation w).0 (a.operation w).1

  unfoldable pub one_attempt :
      ℕ → (a.World → Option String × a.World) → a.World → Option String × a.World
  unfolding run_operation or_stop
  one_attempt attempt rest w =
      if a.is_open w
      then (some "circuit breaker is open, operation aborted", w)
      else or_stop (wrap_error "rate limiter error: " (a.wait w).0) (run_operation attempt rest)
          (a.wait w).1

  -- the loop, by the rounds that are left
  unfoldable pub attempts_from : ℕ → ℕ → a.World → Option String × a.World
  attempts_from zero attempt w = (some "operation failed after 5 retries", w)
  attempts_from (suc rounds) attempt w =
      one_attempt attempt (λ w'. attempts_from rounds (attempt + 1) w') w

  unfoldable pub execute_with_smart_retry : a.World → Option String × a.World
  unfolding attempts_from one_attempt
  execute_with_smart_retry w = attempts_from (suc max_retries) 0 w
