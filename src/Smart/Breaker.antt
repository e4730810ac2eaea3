-- ===== src/Smart/Breaker.antt =====
-- CircuitBreaker of internal/smart/engine.go. Each method runs under the breaker's mutex.
pub mod History
use reposhift.Common.{ℕ, ◌+◌, Bool, true, false, ◌&&◌, not, List, [], ◌∷◌, leb, if◌then◌else◌}

pub record CircuitBreaker : Type 0 where
  pub failures : ℕ
  pub successes : ℕ
  pub is_open : Bool
  pub threshold : ℕ

abbrev pub new_circuit_breaker : CircuitBreaker
new_circuit_breaker = record { failures = 0; successes = 0; is_open = false; threshold = 5 }

unfoldable pub record_success : CircuitBreaker → CircuitBreaker
record_success cb =
    let t = record cb { successes = cb.successes + 1; failures = 0 } in
    if t.is_open && leb 3 t.successes then record t { is_open = false } else t

unfoldable pub record_failure : CircuitBreaker → CircuitBreaker
record_failure cb =
    let t = record cb { failures = cb.failures + 1; successes = 0 } in
    if leb t.threshold t.failures && not t.is_open then record t { is_open = true } else t

-- A history of calls, latest first: `true` is a success.
unfoldable pub after : List Bool → CircuitBreaker
unfolding record_success record_failure
after [] = new_circuit_breaker
after (true ∷ calls) = record_success (after calls)
after (false ∷ calls) = record_failure (after calls)
