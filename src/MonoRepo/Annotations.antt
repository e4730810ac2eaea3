-- ===== src/MonoRepo/Annotations.antt =====
-- handleAnnotations: the annotations that trigger, pause, cancel or retry, with retryMigration.
use reposhift.Common.{ℕ, String, Bool, true, false, ◌||◌, Option, none, some, map, if◌then◌else◌}
use reposhift.Common.State.{M, ◌>>=◌, ◌>>◌, pure}
use reposhift.Migration.Annotations.{annotation, without_annotation}
use reposhift.MonoRepo.Types.{MonoPhase, RepoPhase, RepoStatus, MonoStatus, MonoMigration}
use reposhift.MonoRepo.Env.{Env, St, Outcome, Updated, updated, rejected}
use reposhift.MonoRepo.Action.{
  reads, change, edit, event, now, update, status_update, send_web_socket_update, returned,
  requeued, requeue, unless_error, mono_repo_paused_requeue_interval, with_mono_phase, at_step,
}
use reposhift.MonoRepo.Progress.{is_failed, is_skipped, cleanup_workspace, save_and}

abbrev mono_repo_pause_annotation : String
mono_repo_pause_annotation = "migration.ado-to-git-migration.io/pause"

abbrev mono_repo_cancel_annotation : String
mono_repo_cancel_annotation = "migration.ado-to-git-migration.io/cancel"

abbrev mono_repo_retry_annotation : String
mono_repo_retry_annotation = "migration.ado-to-git-migration.io/retry"

abbrev mono_repo_reconcile_trigger_annotation : String
mono_repo_reconcile_trigger_annotation = "migration.ado-to-git-migration.io/reconcile-trigger"

unfoldable pub without_mono_annotation : String → MonoMigration → MonoMigration
unfolding without_annotation
without_mono_annotation key m = record m { annotations = without_annotation key m.annotations }

unfoldable pub is_finished : MonoPhase → Bool
is_finished MonoPhase.completed = true
is_finished MonoPhase.failed = true
is_finished MonoPhase.cancelled = true
is_finished _ = false

unfoldable pub is_failed_phase : MonoPhase → Bool
is_failed_phase MonoPhase.failed = true
is_failed_phase _ = false

unfoldable is_paused_phase : MonoPhase → Bool
is_paused_phase MonoPhase.paused = true
is_paused_phase _ = false

unfoldable is_cancelled_phase : MonoPhase → Bool
is_cancelled_phase MonoPhase.cancelled = true
is_cancelled_phase _ = false

-- a repository that failed or was skipped is pending again
unfoldable pub reset_repo : RepoStatus → RepoStatus
reset_repo r =
    if is_failed r.phase || is_skipped r.phase
    then record r { phase = RepoPhase.pending; error_message = "" }
    else r

unfoldable pub retried : MonoStatus → MonoStatus
unfolding reset_repo
retried b = at_step "Retrying migration" (record b {
  phase = MonoPhase.pending;
  error_message = "";
  completion_time = none;
  repo_statuses = map reset_repo b.repo_statuses;
})

unfoldable pub cancelled_at : ℕ → MonoStatus → MonoStatus
cancelled_at t b =
    at_step "Migration cancelled by user"
      (record b { phase = MonoPhase.cancelled; completion_time = some t })

module _ (e : Env) where
  unfoldable pub retry_migration : M (St e.World) Outcome
  unfolding cleanup_workspace retried save_and
  retry_migration = do
    cleanup_workspace e
    change retried
    event "MigrationRetry"
    save_and e requeue

  -- after the trigger was removed: a finished migration is tried again
  unfoldable pub after_trigger : (is_finished : Bool) → Updated → M (St e.World) (Option Outcome)
  unfolding retry_migration
  after_trigger finished (rejected error) = pure (some (returned (some error)))
  after_trigger true (updated m) = do outcome ← retry_migration; pure (some outcome)
  after_trigger false (updated m) = pure (some requeue)

  unfoldable pub handle_trigger : M (St e.World) (Option Outcome)
  unfolding without_mono_annotation is_finished after_trigger
  handle_trigger = do
    edit (without_mono_annotation mono_repo_reconcile_trigger_annotation)
    answer ← update e
    m ← reads (λ m. m)
    after_trigger (is_finished m.status.phase) answer

  unfoldable pub handle_pause : (paused : Bool) → M (St e.World) (Option Outcome)
  handle_pause true = pure (some (requeued mono_repo_paused_requeue_interval none))
  handle_pause false = do
    change (λ b. at_step "Migration paused by user" (with_mono_phase MonoPhase.paused b))
    send_web_socket_update e "Migration paused"
    event "MigrationPaused"
    error ← status_update e
    pure (some (unless_error (requeued mono_repo_paused_requeue_interval none) error))

  unfoldable pub handle_cancel : (cancelled : Bool) → M (St e.World) (Option Outcome)
  unfolding cancelled_at
  handle_cancel true = pure (some (returned none))
  handle_cancel false = do
    t ← now e
    change (cancelled_at t)
    send_web_socket_update e "Migration cancelled"
    event "MigrationCancelled"
    error ← status_update e
    pure (some (returned error))

  unfoldable pub after_retry : (is_failed : Bool) → Updated → M (St e.World) (Option Outcome)
  unfolding retry_migration
  after_retry failed (rejected error) = pure (some (returned (some error)))
  after_retry true (updated m) = do outcome ← retry_migration; pure (some outcome)
  after_retry false (updated m) = pure none

  unfoldable pub handle_retry : M (St e.World) (Option Outcome)
  unfolding without_mono_annotation is_failed_phase after_retry
  handle_retry = do
    edit (without_mono_annotation mono_repo_retry_annotation)
    answer ← update e
    m ← reads (λ m. m)
    after_retry (is_failed_phase m.status.phase) answer

  -- by the annotations trigger, pause, cancel and retry, in this order
  unfoldable pub handle_by :
      (trigger pause cancel retry : Option String) → MonoPhase → M (St e.World) (Option Outcome)
  unfolding handle_trigger handle_pause handle_cancel handle_retry is_paused_phase
      is_cancelled_phase
  handle_by (some value) pause cancel retry phase = handle_trigger
  handle_by none (some value) cancel retry phase = handle_pause (is_paused_phase phase)
  handle_by none none (some value) retry phase = handle_cancel (is_cancelled_phase phase)
  handle_by none none none (some value) phase = handle_retry
  handle_by none none none none phase = pure none

  unfoldable pub handle_annotations : M (St e.World) (Option Outcome)
  unfolding handle_by annotation
  handle_annotations = do
    m ← reads (λ m. m)
    handle_by (annotation mono_repo_reconcile_trigger_annotation m.annotations)
        (annotation mono_repo_pause_annotation m.annotations)
        (annotation mono_repo_cancel_annotation m.annotations)
        (annotation mono_repo_retry_annotation m.annotations) m.status.phase
