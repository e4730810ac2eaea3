-- ===== src/Retry/Examples.antt =====
-- The theorems on errors and retries at concrete inputs.
use reposhift.Common.{
  ℕ, ◌+◌, ◌*◌, ◌^◌, ◌≤◌, ◌≡◌, refl, ◌&&◌, ◌||◌, not, String, Option, none, some, List, [], ◌∷◌,
  arith, Floats, IsExact, if◌then◌else◌,
}
use reposhift.Common.Int.{pos, negsuc}
use reposhift.Batch.Types.{ResourceStatus}
use reposhift.Retry.Errors.{
  GoError, new_terminal_error, is_some, is_terminal, is_retryable, handle_reconcile_error,
  handle_reconcile_error_lem,
}
use reposhift.Retry.Backoff.{default_retry_config, calculate_backoff, calculate_backoff_lem, min}
use reposhift.Retry.Classify.{
  classify_error, transient_patterns, rate_limit_patterns, validation_patterns,
  server_error_patterns,
}
use reposhift.Retry.Classify.Verdict.{has, classify_error-plain}
use reposhift.Retry.Handler.{
  HandlerEnv, Migration, ResourceState, at, max_retries_of, handle_resource_failure,
}
use reposhift.Retry.Handler.Panics.{is_panic, handle_resource_failure_panics}
use reposhift.Retry.Handler.Bounded.{retries, retries_bounded}

abbrev denied : Option GoError
denied = some (GoError.classified (new_terminal_error "denied" "no access"))

handle_reconcile_error_lem_example :
    (handle_reconcile_error denied ≡ (if is_retryable denied then denied else none))
    × (is_terminal denied ≡ (is_some denied && not (is_retryable denied)))
handle_reconcile_error_lem_example = handle_reconcile_error_lem denied refl

abbrev reset_text : String
reset_text = "read: connection reset by peer (invalid state)"

classify_error-plain_example : (classify_error (some (GoError.plain reset_text))).retryable ≡ (
    has transient_patterns reset_text
    || has rate_limit_patterns reset_text
    || (not (has validation_patterns reset_text)
        && (has server_error_patterns reset_text
            || not (has ("out of memory" ∷ "OOMKilled" ∷ []) reset_text))))
classify_error-plain_example = classify_error-plain reset_text

-- whole numbers in place of floats, which satisfy the laws that are asked for
abbrev floats : Floats
floats = record {
  Float = ℕ;
  of_ℕ = λ n. n;
  add = λ a b. a + b;
  mul = λ a b. a * b;
  pow = λ a b. a ^ b;
  quarter = 0;
  trunc = λ a. pos a;
}

exact : IsExact floats
exact = record { mul-of_ℕ = λ a b h. refl; trunc-of_ℕ = λ a h. refl }

-- the default configuration waits 20 seconds before its second retry
calculate_backoff_lem_example :
    calculate_backoff floats (default_retry_config floats) 2
    ≡ pos (min (5 * 60 * 1_000_000_000) (5 * 1_000_000_000 * 2 ^ min 2 5))
calculate_backoff_lem_example =
    calculate_backoff_lem floats exact (default_retry_config floats) 2 refl (omega arith)
      (omega arith) (omega arith) 2

abbrev env : HandlerEnv
env = record {
  floats = floats;
  retry_config = default_retry_config floats;
  World = ℕ;
  now = λ w. (w, w + 1);
  event = λ reason text w. w;
  send_web_socket_update = λ m text w. w;
  status_update = λ w m. (none, w);
  format_int = λ n. "n";
  format_duration = λ d. "d";
}

abbrev resource : ResourceState
resource = record {
  target_name = "api";
  status = ResourceStatus.running;
  progress = 0;
  completion_time = none;
  error_message = "";
  error_text = "";
}

abbrev migration : Migration
migration = record {
  retry_attempts = 2;
  resource_statuses = resource ∷ [];
  progress = record { total = 1; completed = 0; failed = 0; processing = pos 1; current_step = "" };
  phase = "Running";
  error_message = "";
}

handle_resource_failure_panics_example :
    is_panic (handle_resource_failure env migration "api" (negsuc 0) denied 7)
    ≡ not (is_some (at migration.resource_statuses (negsuc 0)))
handle_resource_failure_panics_example =
    handle_resource_failure_panics env (negsuc 0) migration "api" denied 7

abbrev failures : List (Option GoError × ℕ)
failures = (some (GoError.plain "timeout"), 1) ∷ (denied, 2) ∷ (some (GoError.plain "EOF"), 3) ∷ []

at_first : at migration.resource_statuses (pos 0) ≡ some resource
unfolding at
at_first = refl

retries_bounded_example :
    retries env "api" (pos 0) failures migration + resource.progress ≤ max_retries_of env migration
retries_bounded_example =
    retries_bounded env "api" (pos 0) failures migration resource at_first (omega arith)
