-- ===== src/Migration/Running.antt =====
-- The end of a migration, failed or completed, and processRunning: one resource at each call.
use reposhift.Common.{
  ℕ, suc, ◌+◌, ◌*◌, ◌==◌, String, Bool, true, false, Option, none, some, List, [], ◌∷◌, str_append,
  if◌then◌else◌, length,
}
use reposhift.Common.Int.{pos, ◌-ℤ◌}
use reposhift.Common.Text.{concat}
use reposhift.Common.Result.{Result, ok, err}
use reposhift.Migration.Types.{
  MigrationPhase, MigrationResource, MigrationProgress, SyncSettings, SyncStatus,
  MigrationStatistics, MigrationStatus,
}
use reposhift.Migration.Env.{Env, Outcome, panics}
use reposhift.Migration.Action.{
  M, ◌>>=◌, ◌>>◌, pure, gets, modify, event, now, status_update, send_web_socket_update, second,
  returned, requeued,
}
use reposhift.Migration.Conditions.{set_condition}
use reposhift.Migration.Restart.{save_and, running_requeue_interval}
use reposhift.Migration.Resource.{check_resource_status, process_resource}
use reposhift.Migration.Tokens.{get_git_hub_token_unified}

abbrev pub with_phase : MigrationPhase → MigrationStatus → MigrationStatus
with_phase phase b = record b { phase = phase }

abbrev pub with_step : String → MigrationStatus → MigrationStatus
with_step step b =
    let p : MigrationProgress = record b.progress { current_step = step } in
    record b { progress = p }

abbrev pub with_completion_time : ℕ → MigrationStatus → MigrationStatus
with_completion_time t b = record b { completion_time = some t }

unfoldable pub marked_failed : (message : String) → MigrationStatus → MigrationStatus
marked_failed message b =
    let p : MigrationProgress = record b.progress {
      processing = 0;
      current_step = "Migration failed";
    } in
    record b { phase = MigrationPhase.failed; error_message = message; progress = p }

-- the interval in minutes: five by default
unfoldable pub sync_interval : SyncSettings → ℕ
sync_interval sync = if sync.interval_minutes == 0 then 5 else sync.interval_minutes

abbrev pub minutes : ℕ → ℕ
minutes n = n * (60 * second)

-- the sync settings, if sync is enabled
unfoldable pub enabled_sync : Option SyncSettings → Option SyncSettings
enabled_sync none = none
enabled_sync (some sync) = if sync.enabled then some sync else none

unfoldable initial_sync_status : (t interval : ℕ) → SyncStatus
initial_sync_status t interval = record {
  last_sync_time = some t;
  last_sync_error = "";
  sync_count = 0;
  failed_sync_count = 0;
  branches_synced = [];
  tags_synced = [];
  next_sync_time = some (t + minutes interval);
}

-- the progress of a migration that is all done; `total` is the text of the total
unfoldable done_progress : (step total : String) → MigrationProgress → MigrationProgress
done_progress step total p = record p {
  current_step = step;
  percentage = pos 100;
  processing = 0;
  progress_summary = concat (total ∷ "/" ∷ total ∷ []);
}

unfoldable pub entered_sync :
    (t interval : ℕ) → (total : String) → MigrationStatus → MigrationStatus
unfolding done_progress initial_sync_status
entered_sync t interval total b = record b {
  phase = MigrationPhase.syncing;
  progress = done_progress "Initial migration completed, entering sync mode" total b.progress;
  sync_status = some (initial_sync_status t interval);
}

unfoldable pub all_completed : (total : String) → MigrationStatus → MigrationStatus
unfolding done_progress
all_completed total b = record b {
  phase = MigrationPhase.completed;
  progress = done_progress "Migration completed successfully" total b.progress;
}

-- The duration goes behind the pointer to the statistics: none of them with a start time is a nil
-- dereference.
unfoldable pub with_duration :
    (t : ℕ) → (start : Option ℕ) → Option MigrationStatistics → Option (Option MigrationStatistics)
with_duration t none stats = some stats
with_duration t (some start) none = none
with_duration t (some start) (some stats) =
    some (some (record stats { duration = pos t -ℤ pos start }))

abbrev pub with_statistics : Option MigrationStatistics → MigrationStatus → MigrationStatus
with_statistics stats b = record b { statistics = stats }

-- the item that is shown, counted from 1
unfoldable pub at_item : (item : ℕ) → (summary : String) → MigrationStatus → MigrationStatus
at_item item summary b =
    let p : MigrationProgress = record b.progress {
      current_item = item;
      progress_summary = summary;
    } in
    record b { progress = p }

unfoldable pub resource_failed : MigrationResource → String → MigrationStatus → MigrationStatus
resource_failed r error b = record b {
  phase = MigrationPhase.failed;
  error_message = concat ("Resource processing failed for " ∷ r.target_name ∷ ": " ∷ error ∷ []);
}

module _ (e : Env) where
  unfoldable pub fail_migration : (message : String) → M e.World Outcome
  unfolding marked_failed save_and
  fail_migration message = do
    modify (marked_failed message)
    t ← now e
    modify (with_completion_time t)
    set_condition e "Ready" false "MigrationFailed" message
    set_condition e "MigrationActive" false "MigrationFailed" "Migration failed"
    send_web_socket_update e (concat ("Migration failed: " ∷ message ∷ []))
    event "MigrationFailed"
    save_and e (returned none)

  unfoldable total_text : MigrationStatus → String
  total_text b = e.format_int (pos b.progress.total)

  -- by whether sync is enabled
  unfoldable pub finish : (t : ℕ) → Option SyncSettings → M e.World Outcome
  unfolding sync_interval entered_sync all_completed save_and total_text
  finish t (some sync) = do
    modify (λ b. entered_sync t (sync_interval sync) (total_text b) b)
    send_web_socket_update e "Migration completed, entering continuous sync mode"
    event "SyncModeEnabled"
    save_and e (requeued (minutes (sync_interval sync)) none)
  finish t none = do
    modify (λ b. all_completed (total_text b) b)
    set_condition e "Ready" true "MigrationCompleted" "Migration completed successfully"
    set_condition e "MigrationActive" false "MigrationCompleted" "Migration finished"
    send_web_socket_update e "Migration completed successfully"
    event "MigrationCompleted"
    save_and e (returned none)

  unfoldable pub finish_unless_nil :
      (t : ℕ) → Option SyncSettings → Option (Option MigrationStatistics) → M e.World Outcome
  unfolding finish
  finish_unless_nil t sync none = pure panics
  finish_unless_nil t sync (some stats) = do modify (with_statistics stats); finish t sync

  unfoldable pub complete_migration : M e.World Outcome
  unfolding finish_unless_nil with_duration enabled_sync
  complete_migration = do
    t ← now e
    modify (with_completion_time t)
    m ← gets (λ m. m)
    finish_unless_nil t (enabled_sync m.spec.sync)
        (with_duration t m.status.start_time m.status.statistics)

  -- the error of the status update is logged only
  unfoldable pub handle_resource_processing_failure : MigrationResource → String → M e.World Outcome
  unfolding resource_failed
  handle_resource_processing_failure r error = do
    modify (resource_failed r error)
    status_update e
    pure (returned none)

  -- After the status of a processed resource is saved: where there is a next resource, it waits
  -- for the next call; `last` is what follows the loop.
  unfoldable pub after_save :
      List MigrationResource → (last : M e.World Outcome) → Option String → M e.World Outcome
  after_save rest last (some error) = pure (
      requeued running_requeue_interval
        (some (str_append "failed to update status after processing resource: " error)))
  after_save (next ∷ rest) last none = pure (requeued running_requeue_interval none)
  after_save [] last none = last

  -- by the error of a resource, or its panic
  unfoldable pub after_resource :
      MigrationResource
      → List MigrationResource
      → (last : M e.World Outcome) → Option (Option String)
      → M e.World Outcome
  unfolding handle_resource_processing_failure after_save
  after_resource r rest last none = pure panics
  after_resource r rest last (some (some error)) = handle_resource_processing_failure r error
  after_resource r rest last (some none) = do error ← status_update e; after_save rest last error

  unfoldable pub item_summary : (item total : ℕ) → String
  item_summary item total = concat (e.format_int (pos item) ∷ "/" ∷ e.format_int (pos total) ∷ [])

  -- One resource, by its index among the statuses and whether it is processed; `next` goes on
  -- with the rest.
  unfoldable pub process_or_skip :
      (token : String)
      → (item total : ℕ) → MigrationResource
      → List MigrationResource
      → (next : M e.World Outcome) → Option ℕ × Bool
      → M e.World Outcome
  unfolding at_item item_summary after_resource
  process_or_skip token item total r rest next (index, true) = next
  process_or_skip token item total r rest next (index, false) = do
    modify (at_item item (item_summary item total))
    error ← process_resource e token r index
    after_resource r rest next error

  -- the loop from the resource of a number on, counted from 1
  unfoldable pub process_from :
      (token : String) → (item total : ℕ) → List MigrationResource → M e.World Outcome
  unfolding complete_migration process_or_skip
  process_from token item total [] = complete_migration
  process_from token item total (r ∷ rest) =
      let next = process_from token (suc item) total rest in
      do
        checked ← gets (λ m. check_resource_status r.source_name m.status.resource_statuses)
        process_or_skip token item total r rest next checked

  unfoldable pub process_with : Result String → List MigrationResource → M e.World Outcome
  unfolding fail_migration process_from
  process_with (err error) resources =
      fail_migration (concat ("Failed to get GitHub token: " ∷ error ∷ []))
  process_with (ok token) resources = process_from token 1 (length resources) resources

  unfoldable pub process_running : M e.World Outcome
  unfolding process_with
  process_running = do
    m ← gets (λ m. m)
    token ← get_git_hub_token_unified e m.namespace m.spec
    process_with token m.spec.resources
