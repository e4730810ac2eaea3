-- ===== src/Retry/Handler.antt =====
-- ShouldRetry and HandleResourceFailure of internal/controller/retry_handler.go.
pub mod Panics
pub mod Bounded
use reposhift.Common.{
  ℕ, ◌+◌, ◌-◌, String, Bool, true, false, not, Option, none, some, List, [], ◌∷◌, get_elem?, set,
  leb, ◌==◌, str_append, if◌then◌else◌, Floats,
}
use reposhift.Common.Int.{ℤ, pos, negsuc, ltb_ℤ, ◌-ℤ◌}
use reposhift.Batch.Types.{ResourceStatus}
use reposhift.Retry.Errors.{GoError, error}
use reposhift.Retry.Backoff.{RetryConfig, calculate_backoff}
use reposhift.Retry.Classify.{ErrorClassification, classify_error}

-- type ResourceMigrationStatus, the fields that the handler reads or sets
pub record ResourceState : Type 0 where
  pub target_name : String
  pub status : ResourceStatus
  pub progress : ℕ
  pub completion_time : Option ℕ
  pub error_message : String
  pub error_text : String

-- type MigrationProgress, likewise; `processing` may fall below 0
pub record MigrationProgress : Type 0 where
  pub total : ℕ
  pub completed : ℕ
  pub failed : ℕ
  pub processing : ℤ
  pub current_step : String

-- an AdoToGitMigration, as far as the handler reads or sets it
pub record Migration : Type 0 where
  pub retry_attempts : ℕ
  pub resource_statuses : List ResourceState
  pub progress : MigrationProgress
  pub phase : String
  pub error_message : String

-- What the handler takes from outside, with its configuration.
pub record HandlerEnv : Type 1 where
  pub floats : Floats
  pub retry_config : RetryConfig floats
  pub World : Type 0
  pub now : World → ℕ × World
  -- Recorder.Event, by reason and message
  pub event : String → String → World → World
  pub send_web_socket_update : Migration → String → World → World
  pub status_update : World → Migration → Option String × World
  -- fmt's %d, and %v of a duration
  pub format_int : ℕ → String
  pub format_duration : ℤ → String

-- The result of a call, with the object and the world that it leaves behind.
pub data Handled (W : Type 0) : Type 0 where
  returned : (requeue_after : ℤ) → Option String → Migration → W → Handled W
  panicked : Migration → W → Handled W

-- an index that may be negative
unfoldable pub at {ℓ} : {A : Type ℓ} → List A → ℤ → Option A
at xs (pos n) = get_elem? xs n
at xs (negsuc n) = none

unfoldable pub set_at {ℓ} : {A : Type ℓ} → List A → ℤ → A → List A
set_at xs (pos n) v = set xs n v
set_at xs (negsuc n) v = xs

-- fmt's %v of an error
abbrev text_of : Option GoError → String
text_of none = "<nil>"
text_of (some e) = error e

-- the greater of the two waits
abbrev longer : ℤ → ℤ → ℤ
longer suggested backoff = if ltb_ℤ backoff suggested then suggested else backoff

module _ (env : HandlerEnv) where
  abbrev pub max_retries_of : Migration → ℕ
  max_retries_of m =
      if m.retry_attempts == 0 then env.retry_config.max_attempts else m.retry_attempts

  abbrev pub retry_state : Migration → ResourceState → Option GoError → Bool × ℤ
  retry_state m s e =
      let c = classify_error e in
      if leb (max_retries_of m) s.progress
      then (false, pos 0)
      else if not c.retryable
      then (false, pos 0)
      else (
        true,
        longer (pos c.suggested_delay) (calculate_backoff env.floats env.retry_config s.progress),
      )

  -- what is decided of the resource that the index finds
  unfoldable pub retry_found : Migration → Option GoError → Option ResourceState → Bool × ℤ
  retry_found m e none = (false, pos 0)
  retry_found m e (some s) = retry_state m s e

  unfoldable pub should_retry : Migration → ℤ → Option GoError → Bool × ℤ
  unfolding retry_found
  should_retry m i e = retry_found m e (at m.resource_statuses i)

  abbrev pub answer : ℤ → Migration → Option String × env.World → Handled env.World
  answer requeue_after m (some e, w) = returned (pos 0) (some e) m w
  answer requeue_after m (none, w) = returned requeue_after none m w

  -- the end of both handlers: the event, the message to the clients, and the update
  unfoldable pub announce : String → String → String → ℤ → Migration → env.World → Handled env.World
  announce reason text update requeue_after m w =
      answer requeue_after m
        (env.status_update (env.send_web_socket_update m update (env.event reason text w)) m)

  unfoldable pub failed_state :
      ErrorClassification → Option GoError → ℕ → ResourceState → ResourceState
  failed_state c e now s =
      let text = str_append c.message (str_append ": " (text_of e)) in
      record s {
        status = ResourceStatus.failed;
        error_message = text;
        error_text = text;
        completion_time = some now;
      }

  unfoldable mark_failed :
      Migration
      → ℤ
      → ErrorClassification
      → Option GoError
      → env.World
      → Option ResourceState
      → Migration × env.World
  mark_failed m i c e w none = (m, w)
  mark_failed m i c e w (some s) = (
    record m {
      resource_statuses = set_at m.resource_statuses i (failed_state c e (env.now w).0 s);
    },
    (env.now w).1,
  )

  unfoldable pub count_failure : Migration → Migration
  count_failure m =
      let p = record m.progress {
        failed = m.progress.failed + 1;
        processing = m.progress.processing -ℤ pos 1;
      } in
      record m {
        progress = p;
        phase = if leb p.total (p.completed + p.failed) then "Failed" else m.phase;
      }

  -- an index out of range panics where the attempts are read
  unfoldable report_failure :
      String
      → ErrorClassification
      → Migration
      → env.World
      → Option ResourceState
      → Handled env.World
  report_failure target c m w none = panicked m w
  report_failure target c m w (some s) =
      announce "MigrationFailed"
        (str_append "Resource " (str_append target (str_append ": " c.message)))
        (str_append "Resource " (str_append target (str_append " failed: " c.message))) (pos 0)
        (record m {
          error_message = str_append "Resource " (
              str_append target (
                str_append " failed permanently after "
                  (str_append (env.format_int s.progress) (str_append " attempts: " c.message))));
        })
        w

  unfoldable pub handle_terminal_failure :
      Migration → String → ℤ → Option GoError → env.World → Handled env.World
  unfolding mark_failed report_failure count_failure
  handle_terminal_failure m target i e w =
      let c = classify_error e in
      let (m', w') = mark_failed m i c e w (at m.resource_statuses i) in
      let m'' = count_failure m' in report_failure target c m'' w' (at m''.resource_statuses i)

  unfoldable pub pending_state : ErrorClassification → ℤ → ResourceState → ResourceState
  pending_state c requeue_after s =
      let text = str_append "Attempt " (
        str_append (env.format_int (s.progress + 1)) (
          str_append " failed: " (
            str_append c.message (
              str_append " (retrying in "
                (str_append (env.format_duration requeue_after) ")"))))) in
      record s {
        progress = s.progress + 1;
        status = ResourceStatus.pending;
        error_message = text;
        error_text = text;
      }

  unfoldable mark_pending :
      Migration → ℤ → ErrorClassification → ℤ → Option ResourceState → Migration
  mark_pending m i c requeue_after none = m
  mark_pending m i c requeue_after (some s) = record m {
    resource_statuses = set_at m.resource_statuses i (pending_state c requeue_after s);
  }

  -- an index out of range panics where the attempts are read
  unfoldable report_retry :
      String
      → ErrorClassification
      → ℤ
      → Migration
      → env.World
      → Option ResourceState
      → Handled env.World
  report_retry target c requeue_after m w none = panicked m w
  report_retry target c requeue_after m w (some s) =
      let attempt = env.format_int (s.progress + 1) in
      let step = str_append "Retrying " (
        str_append target (
          str_append " (attempt " (
            str_append attempt (
              str_append "/" (
                str_append (env.format_int (max_retries_of m))
                  (str_append ") in " (env.format_duration requeue_after))))))) in
      announce "RetryScheduled"
        (str_append "Resource " (
          str_append target (
            str_append ": Retry attempt " (
              str_append attempt (
                str_append " scheduled in " (
                  str_append (env.format_duration requeue_after)
                    (str_append " due to: " c.message)))))))
        step requeue_after (record m { progress = record m.progress { current_step = step } }) w

  unfoldable pub handle_retryable_failure :
      Migration → String → ℤ → Option GoError → ℤ → env.World → Handled env.World
  unfolding mark_pending report_retry
  handle_retryable_failure m target i e requeue_after w =
      let c = classify_error e in
      let m' = mark_pending m i c requeue_after (at m.resource_statuses i) in
      report_retry target c requeue_after m' w (at m'.resource_statuses i)

  -- the resource's name is all that the handlers read of it
  unfoldable pub handle_resource_failure :
      Migration → String → ℤ → Option GoError → env.World → Handled env.World
  handle_resource_failure m target i e w =
      let r = should_retry m i e in
      if r.0
      then handle_retryable_failure m target i e r.1 w
      else handle_terminal_failure m target i e w
