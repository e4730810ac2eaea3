-- ===== src/Limiter.antt =====
-- internal/services/ratelimiter.go: the error counts of the AdaptiveRateLimiter, under its mutex,
-- and the backoff that they give. The token bucket is golang.org/x/time/rate.
pub mod History
mod Examples
use reposhift.Common.{
  ℕ, ◌+◌, ◌-◌, ◌*◌, String, Bool, true, false, ◌||◌, Option, none, some, List, [], ◌∷◌, ltb, leb,
  ◌==◌, str_eq, if◌then◌else◌,
}

-- the map of error counts; durations are nanoseconds
pub record AdaptiveRateLimiter : Type 0 where
  pub error_counts : List (String × ℕ)
  pub backoff_duration : ℕ

abbrev new_adaptive_rate_limiter : ℕ → AdaptiveRateLimiter
new_adaptive_rate_limiter backoff_duration = record {
  error_counts = [];
  backoff_duration = backoff_duration;
}

-- a key that is missing reads as 0
unfoldable pub count_of : String → List (String × ℕ) → ℕ
count_of key [] = 0
count_of key (p ∷ rest) = if str_eq p.0 key then p.1 else count_of key rest

unfoldable pub write_count : String → ℕ → List (String × ℕ) → List (String × ℕ)
write_count key n [] = (key, n) ∷ []
write_count key n (p ∷ rest) =
    if str_eq p.0 key then (key, n) ∷ rest else p ∷ write_count key n rest

unfoldable pub drop_key : String → List (String × ℕ) → List (String × ℕ)
drop_key key [] = []
drop_key key (p ∷ rest) = if str_eq p.0 key then drop_key key rest else p ∷ drop_key key rest

abbrev pub counts_as_error : ℕ → Bool
counts_as_error status_code = leb 500 status_code || (status_code == 429)

-- the count is written, and written again if it is above 10
unfoldable pub report_error : String → ℕ → AdaptiveRateLimiter → AdaptiveRateLimiter
report_error key status_code a =
    let counts = write_count key (count_of key a.error_counts + 1) a.error_counts in
    if counts_as_error status_code
    then record a {
      error_counts = if ltb 10 (count_of key counts) then write_count key 10 counts else counts;
    }
    else a

unfoldable pub report_success : String → AdaptiveRateLimiter → AdaptiveRateLimiter
report_success key a =
    let n = count_of key a.error_counts in
    if ltb 0 n then record a { error_counts = write_count key (n - 1) a.error_counts } else a

unfoldable pub reset : String → AdaptiveRateLimiter → AdaptiveRateLimiter
reset key a = record a { error_counts = drop_key key a.error_counts }

unfoldable pub get_backoff : String → AdaptiveRateLimiter → ℕ
get_backoff key a =
    let n = count_of key a.error_counts in if ltb 0 n then n * a.backoff_duration else 0

-- a call that changes the counts
pub data Report : Type 0 where
  error : String → ℕ → Report
  success : String → Report
  cleared : String → Report

unfoldable pub apply_report : Report → AdaptiveRateLimiter → AdaptiveRateLimiter
unfolding report_error report_success reset
apply_report (Report.error key status_code) a = report_error key status_code a
apply_report (Report.success key) a = report_success key a
apply_report (Report.cleared key) a = reset key a

-- the limiter after a history of calls, latest first
unfoldable pub limiter_after : ℕ → List Report → AdaptiveRateLimiter
unfolding apply_report
limiter_after backoff_duration [] = new_adaptive_rate_limiter backoff_duration
limiter_after backoff_duration (r ∷ rs) = apply_report r (limiter_after backoff_duration rs)
