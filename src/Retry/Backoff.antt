-- ===== src/Retry/Backoff.antt =====
-- CalculateBackoff of internal/controller/errors.go: the wait before a retry, in nanoseconds.
use reposhift.Common.{
  ℕ, zero, suc, ◌+◌, ◌*◌, ◌^◌, ◌<◌, ◌≤◌, ◌≡◌, ap, ◌∙◌, true, false, ltb, leb, if◌then◌else◌, arith,
  Floats, IsExact,
}
use native.Mathlib.Nat.{
  pow-zero, pow-succ', one-le-pow, mul_assoc, pow-le-pow_right, mul-le-mul_left,
}
use reposhift.Common.Int.{ℤ, pos, ltb_ℤ}

pub record RetryConfig (f : Floats) : Type 0 where
  pub max_attempts : ℕ
  initial_interval : ℕ
  max_interval : ℕ
  multiplier : f.Float

abbrev pub default_retry_config : (f : Floats) → RetryConfig f
default_retry_config f = record {
  max_attempts = 5;
  initial_interval = 5 * 1_000_000_000;
  max_interval = 5 * 60 * 1_000_000_000;
  multiplier = f.of_ℕ 2;
}

module _ (f : Floats) (config : RetryConfig f) where
  -- the loop, with `rounds` left of `attempt` after `i`
  unfoldable grow : (rounds i : ℕ) → f.Float → f.Float
  grow zero i interval = interval
  grow (suc rounds) i interval =
      if ltb i config.max_attempts
      then grow rounds (i + 1) (f.mul interval config.multiplier)
      else interval

  abbrev capped : ℤ → ℤ
  capped result = if ltb_ℤ (pos config.max_interval) result then pos config.max_interval else result

  unfoldable pub calculate_backoff : ℕ → ℤ
  unfolding grow
  calculate_backoff zero = pos config.initial_interval
  calculate_backoff (suc n) = capped (f.trunc (grow (suc n) 0 (f.of_ℕ config.initial_interval)))

abbrev pub min : ℕ → ℕ → ℕ
min a b = if leb a b then a else b

min-suc : (a b : ℕ) → min (suc a) (suc b) ≡ suc (min a b)
min-suc a b = ground arith

min-zero : (b : ℕ) → min zero b ≡ zero
min-zero b = ground arith

min_end : (a : ℕ) → min a zero ≡ zero
min_end a = ground arith

min_le : (a b : ℕ) → min a b ≤ b
min_le a b = ground arith

-- the limit as the code has it
capped-min :
    (f : Floats) (config : RetryConfig f) (x : ℕ)
    → capped f config (pos x) ≡ pos (min config.max_interval x)
capped-min f config x = ground arith

module _ (f : Floats) (exact : IsExact f) (config : RetryConfig f) (m : ℕ)
    (whole : config.multiplier ≡ f.of_ℕ m) (positive : 1 ≤ m) where
  grown_le : (a k : ℕ) → a * m ≤ a * m ^ suc k
  grown_le a k = rw (pow-succ' m k) (grind (arith, one-le-pow k m positive))

  grow-of_ℕ :
      (n i k a : ℕ)
      → i + k ≡ config.max_attempts
      → a * m ^ k < 2 ^ 53
      → grow f config n i (f.of_ℕ a) ≡ f.of_ℕ (a * m ^ min n k)
  unfolding grow
  grow-of_ℕ zero i k a r b = rw (min-zero k, pow-zero m) (ap f.of_ℕ (omega arith))
  grow-of_ℕ (suc n) i zero a r b =
      let done : ltb i config.max_attempts ≡ false = ground arith in
      rw (done, min_end (suc n), pow-zero m) (ap f.of_ℕ (omega arith))
  grow-of_ℕ (suc n) i (suc k) a r b =
      let more : ltb i config.max_attempts ≡ true = ground arith in
      let next : (a * m) * m ^ k ≡ a * m ^ suc k = rw (pow-succ' m k) (mul_assoc a m (m ^ k)) in
      rw (more, whole, exact.mul-of_ℕ a m (omega (arith, grown_le a k, b)))
        (grow-of_ℕ n (i + 1) k (a * m) (omega (arith, r)) (rw next b)
          ∙ ap f.of_ℕ (rw (min-suc n k, pow-succ' m (min n k)) (mul_assoc a m (m ^ min n k))))

  -- the exponent never exceeds the attempts that are configured
  grown_bound : (n k a : ℕ) → a * m ^ k < 2 ^ 53 → a * m ^ min n k < 2 ^ 53
  grown_bound n k a b = omega (arith, mul-le-mul_left a (pow-le-pow_right positive (min_le n k)), b)

  -- With a whole multiplier of at least 1, whose powers stay exact, and an initial interval within
  -- the limit, the wait grows by the multiplier with each attempt until the configured attempts are
  -- used up, and never exceeds the limit.
  pub calculate_backoff_lem :
      config.initial_interval * m ^ config.max_attempts < 2 ^ 53
      → config.initial_interval ≤ config.max_interval
      → (n : ℕ)
      → calculate_backoff f config n
        ≡ pos (min config.max_interval (config.initial_interval * m ^ min n config.max_attempts))
  unfolding calculate_backoff
  calculate_backoff_lem b le zero =
      rw (min-zero config.max_attempts, pow-zero m) (ap pos (ground arith))
  calculate_backoff_lem b le (suc n) =
      let k = config.max_attempts in
      let a = config.initial_interval in
      rw
        (
          grow-of_ℕ (suc n) 0 k a (omega arith) b,
          exact.trunc-of_ℕ (a * m ^ min (suc n) k) (grown_bound (suc n) k a b),
        )
        (capped-min f config (a * m ^ min (suc n) k))
