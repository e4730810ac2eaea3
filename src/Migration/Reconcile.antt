-- ===== src/Migration/Reconcile.antt =====
-- Reconcile: the fetch, changes of the specification, the finalizer, the annotations, and the
-- dispatch on the phase. The map of active migrations is left out: nothing is ever put into it.
use reposhift.Common.{ℕ, ◌==◌, ◌&&◌, not, Bool, true, false, Option, none, some, [], length}
use reposhift.Common.Int.{pos}
use reposhift.Migration.Types.{
  MigrationPhase, MigrationSpec, MigrationProgress, Migration, MigrationStatus,
}
use reposhift.Migration.Env.{
  Env, St, Outcome, returns, Updated, updated, gone, rejected, Fetched, found, not_found, get_error,
}
use reposhift.Migration.Action.{
  M, ◌>>=◌, ◌>>◌, pure, gets, modify, edit, event, now, update, status_update,
  send_web_socket_update, returned, requeued,
}
use reposhift.Migration.Restart.{observed, restart_migration_for_spec_change}
use reposhift.Migration.Running.{with_phase, with_step, process_running}
use reposhift.Migration.Validate.{process_validating, pending_requeue_interval}
use reposhift.Migration.Sync.{process_syncing}
use reposhift.Migration.Annotations.{paused_requeue_interval, is_terminal_phase, handle_annotations}

unfoldable initial_progress : MigrationSpec → MigrationProgress
initial_progress spec = record {
  total = length spec.resources;
  completed = pos 0;
  failed = pos 0;
  processing = 0;
  skipped = 0;
  percentage = pos 0;
  current_step = "";
  current_item = 0;
  progress_summary = "";
}

unfoldable pub initialized : (t generation : ℕ) → MigrationSpec → MigrationStatus → MigrationStatus
unfolding initial_progress
initialized t generation spec b = record b {
  phase = MigrationPhase.pending;
  progress = initial_progress spec;
  start_time = some t;
  observed_generation = generation;
  last_reconcile_time = some t;
  statistics = some (record { duration = pos 0; repositories_created = 0 });
}

abbrev pub with_finalizer : Bool → Migration → Migration
with_finalizer b m = record m { has_finalizer = b }

abbrev pub added : Updated → Outcome
added (updated m) = returns true (pos 0) none
added (gone error) = returned (some error)
added (rejected error) = returned (some error)

-- an object that is gone already needs no finalizer
abbrev pub removed : Updated → Outcome
removed (updated m) = returned none
removed (gone error) = returned none
removed (rejected error) = returned (some error)

-- the generation that was seen is not the present one
unfoldable spec_changed : Migration → Bool
spec_changed m =
    not (m.status.observed_generation == 0) && not (m.status.observed_generation == m.generation)

module _ (e : Env) where
  unfoldable pub initialize_status : M e.World Outcome
  unfolding initialized
  initialize_status = do
    t ← now e
    m ← gets (λ m. m)
    modify (initialized t m.generation m.spec)
    send_web_socket_update e "Migration initialized"
    event "Initialized"
    error ← status_update e
    pure (requeued pending_requeue_interval error)

  unfoldable pub process_pending : M e.World Outcome
  process_pending = do
    modify (with_phase MigrationPhase.validating)
    modify (with_step "Validating configuration")
    send_web_socket_update e "Starting validation"
    event "ValidationStarted"
    error ← status_update e
    pure (requeued pending_requeue_interval error)

  -- Stay paused
  unfoldable pub process_paused : M e.World Outcome
  process_paused = pure (requeued paused_requeue_interval none)

  -- processPhase, and the initialisation where there is no phase yet
  unfoldable pub process_phase : MigrationPhase → M e.World Outcome
  unfolding initialize_status process_pending process_validating process_running process_paused
      process_syncing
  process_phase MigrationPhase.unset = initialize_status
  process_phase MigrationPhase.pending = process_pending
  process_phase MigrationPhase.validating = process_validating e
  process_phase MigrationPhase.running = process_running e
  process_phase MigrationPhase.paused = process_paused
  process_phase MigrationPhase.syncing = process_syncing e
  process_phase MigrationPhase.completed = pure (returned none)
  process_phase MigrationPhase.failed = pure (returned none)
  process_phase MigrationPhase.cancelled = pure (returned none)
  process_phase (MigrationPhase.other phase) = pure (returned none)

  unfoldable pub add_finalizer : M e.World Outcome
  add_finalizer = do edit (with_finalizer true); answer ← update e; pure (added answer)

  -- the cleanup itself does nothing
  unfoldable pub handle_deletion : M e.World Outcome
  handle_deletion = do edit (with_finalizer false); answer ← update e; pure (removed answer)

  unfoldable pub finalizer_by : (deleting has_finalizer : Bool) → M e.World (Option Outcome)
  unfolding add_finalizer handle_deletion
  finalizer_by false true = pure none
  finalizer_by false false = do outcome ← add_finalizer; pure (some outcome)
  finalizer_by true true = do outcome ← handle_deletion; pure (some outcome)
  finalizer_by true false = pure (some (returned none))

  unfoldable pub handle_finalizer_and_deletion : M e.World (Option Outcome)
  unfolding finalizer_by
  handle_finalizer_and_deletion = do m ← gets (λ m. m); finalizer_by m.deleting m.has_finalizer

  unfoldable pub observe_if : Bool → M e.World (Unit {0})
  unfolding observed
  observe_if false = pure tt
  observe_if true = do t ← now e; m ← gets (λ m. m); modify (observed t m.generation)

  unfoldable pub update_observed_generation : M e.World (Unit {0})
  unfolding observe_if
  update_observed_generation = do
    m ← gets (λ m. m)
    observe_if (not (m.status.observed_generation == m.generation))

  unfoldable pub after_annotations : Option Outcome → M e.World Outcome
  unfolding process_phase
  after_annotations (some outcome) = pure outcome
  after_annotations none = do phase ← gets (λ m. m.status.phase); process_phase phase

  unfoldable pub after_finalizer : Option Outcome → M e.World Outcome
  unfolding handle_annotations after_annotations
  after_finalizer (some outcome) = pure outcome
  after_finalizer none = do answer ← handle_annotations e; after_annotations answer

  -- what follows the test for a changed specification
  unfoldable pub proceed : M e.World Outcome
  unfolding update_observed_generation handle_finalizer_and_deletion after_finalizer
  proceed = do
    update_observed_generation
    answer ← handle_finalizer_and_deletion
    after_finalizer answer

  unfoldable pub reconcile_by : (changed is_terminal : Bool) → M e.World Outcome
  unfolding restart_migration_for_spec_change proceed
  reconcile_by false is_terminal = proceed
  reconcile_by true true = restart_migration_for_spec_change e
  reconcile_by true false = do
    send_web_socket_update e "Migration spec updated during processing"
    proceed

  unfoldable pub reconcile_found : M e.World Outcome
  unfolding reconcile_by spec_changed is_terminal_phase
  reconcile_found = do
    m ← gets (λ m. m)
    reconcile_by (spec_changed m) (is_terminal_phase m.status.phase)

  unfoldable pub reconcile_fetched : Fetched → e.World → Outcome × e.World
  unfolding reconcile_found
  reconcile_fetched (found m) w =
      let s : St e.World = record { world = w; migration = m; notices = [] } in
      ((reconcile_found s).0, (reconcile_found s).1.world)
  reconcile_fetched not_found w = (returned none, w)
  reconcile_fetched (get_error error) w = (returned (some error), w)

  unfoldable pub reconcile : e.World → Outcome × e.World
  unfolding reconcile_fetched
  reconcile w = reconcile_fetched (e.get w) w
