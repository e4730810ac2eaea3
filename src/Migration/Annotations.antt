-- ===== src/Migration/Annotations.antt =====
-- handleAnnotations, with pauseMigration and cancelMigration.
use reposhift.Common.{
  ℕ, ◌*◌, String, Bool, true, false, Option, none, some, List, [], ◌∷◌, str_eq, if◌then◌else◌,
}
use reposhift.Common.Int.{pos}
use reposhift.Common.Text.{concat}
use reposhift.Migration.Types.{MigrationPhase, Migration}
use reposhift.Migration.Env.{Env, Outcome, returns, Updated, updated, gone, rejected}
use reposhift.Migration.Action.{
  M, ◌>>=◌, ◌>>◌, pure, gets, modify, edit, event, now, update, status_update,
  send_web_socket_update, second, returned, requeued,
}
use reposhift.Migration.Conditions.{set_condition}
use reposhift.Migration.Restart.{restart_migration_for_spec_change, save_and}
use reposhift.Migration.Running.{with_phase, with_step, with_completion_time}

abbrev pub paused_requeue_interval : ℕ
paused_requeue_interval = 60 * second

abbrev pub trigger_annotation : String
trigger_annotation = "migration.ado-to-git-migration.io/reconcile-trigger"

abbrev pause_annotation : String
pause_annotation = "migration.ado-to-git-migration.io/pause"

abbrev pub cancel_annotation : String
cancel_annotation = "migration.ado-to-git-migration.io/cancel"

unfoldable pub annotation : String → List (String × String) → Option String
annotation key [] = none
annotation key ((k, value) ∷ rest) = if str_eq k key then some value else annotation key rest

unfoldable pub without_annotation : String → List (String × String) → List (String × String)
without_annotation key [] = []
without_annotation key ((k, value) ∷ rest) =
    if str_eq k key then without_annotation key rest else (k, value) ∷ without_annotation key rest

unfoldable pub drop_annotation : String → Migration → Migration
unfolding without_annotation
drop_annotation key m = record m { annotations = without_annotation key m.annotations }

-- Completed, Failed or Cancelled
unfoldable pub is_terminal_phase : MigrationPhase → Bool
is_terminal_phase MigrationPhase.completed = true
is_terminal_phase MigrationPhase.failed = true
is_terminal_phase MigrationPhase.cancelled = true
is_terminal_phase _ = false

unfoldable pub is_paused : MigrationPhase → Bool
is_paused MigrationPhase.paused = true
is_paused _ = false

unfoldable is_cancelled : MigrationPhase → Bool
is_cancelled MigrationPhase.cancelled = true
is_cancelled _ = false

module _ (e : Env) where
  unfoldable pub pause_migration : M e.World Outcome
  pause_migration = do
    modify (with_phase MigrationPhase.paused)
    modify (with_step "Migration paused by user")
    set_condition e "MigrationActive" false "MigrationPaused" "Migration paused by user"
    send_web_socket_update e "Migration paused"
    event "MigrationPaused"
    error ← status_update e
    pure (requeued paused_requeue_interval error)

  unfoldable pub cancel_migration : M e.World Outcome
  unfolding save_and
  cancel_migration = do
    modify (with_phase MigrationPhase.cancelled)
    modify (with_step "Migration cancelled by user")
    t ← now e
    modify (with_completion_time t)
    set_condition e "Ready" false "MigrationCancelled" "Migration cancelled by user"
    set_condition e "MigrationActive" false "MigrationCancelled" "Migration cancelled"
    send_web_socket_update e "Migration cancelled"
    event "MigrationCancelled"
    save_and e (returned none)

  -- after the annotation was removed: a finished migration starts again
  unfoldable pub after_removal : (is_terminal : Bool) → Updated → M e.World Outcome
  unfolding restart_migration_for_spec_change
  after_removal is_terminal (gone error) = pure (returned (some error))
  after_removal is_terminal (rejected error) = pure (returned (some error))
  after_removal true (updated m) = restart_migration_for_spec_change e
  after_removal false (updated m) = pure (returns true (pos 0) none)

  unfoldable pub triggered : (value : String) → M e.World Outcome
  unfolding drop_annotation after_removal is_terminal_phase
  triggered value = do
    set_condition e "Reconciling" true "AnnotationTriggered"
        (concat ("Reconciliation triggered by annotation at " ∷ value ∷ []))
    is_terminal ← gets (λ m. is_terminal_phase m.status.phase)
    event "ReconcileTriggered"
    edit (drop_annotation trigger_annotation)
    answer ← update e
    after_removal is_terminal answer

  unfoldable pub pause_unless : (paused : Bool) → M e.World (Option Outcome)
  unfolding pause_migration
  pause_unless true = pure (some (requeued paused_requeue_interval none))
  pause_unless false = do outcome ← pause_migration; pure (some outcome)

  unfoldable pub cancel_if : (cancelled : Bool) → M e.World (Option Outcome)
  unfolding cancel_migration
  cancel_if true = pure none
  cancel_if false = do outcome ← cancel_migration; pure (some outcome)

  -- by the annotations trigger, pause and cancel, in this order
  unfoldable pub annotations_by :
      (trigger pause cancel : Option String) → MigrationPhase → M e.World (Option Outcome)
  unfolding triggered pause_unless cancel_if is_paused is_cancelled
  annotations_by (some value) pause cancel phase = do outcome ← triggered value; pure (some outcome)
  annotations_by none (some value) cancel phase = pause_unless (is_paused phase)
  annotations_by none none (some value) phase = cancel_if (is_cancelled phase)
  annotations_by none none none phase = pure none

  unfoldable pub handle_annotations : M e.World (Option Outcome)
  unfolding annotations_by annotation
  handle_annotations = do
    m ← gets (λ m. m)
    annotations_by (annotation trigger_annotation m.annotations)
        (annotation pause_annotation m.annotations) (annotation cancel_annotation m.annotations)
        m.status.phase
