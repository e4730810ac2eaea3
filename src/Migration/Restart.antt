-- ===== src/Migration/Restart.antt =====
-- restartMigrationForSpecChange: what differs between the resources and their statuses, and what
-- becomes of the status when a finished migration starts again.
pub mod Diff
pub mod Unchanged
pub mod Mirrors
use reposhift.Common.{
  ℕ, String, Bool, true, false, Option, none, some, List, [], ◌∷◌, ◌++◌, ◌+◌, ◌*◌, map, length,
  ◌==◌, if◌then◌else◌,
}
use reposhift.Common.Int.{ℤ, pos}
use reposhift.Common.Text.{concat}
use reposhift.Migration.Types.{
  MigrationPhase, MigrationResource, ResourceMigrationStatus, MigrationProgress, Migration,
  MigrationStatus,
}
use reposhift.Migration.Env.{Env, Outcome, returns}
use reposhift.Migration.Action.{
  M, ◌>>=◌, ◌>>◌, pure, gets, modify, event, now, status_update, send_web_socket_update, second,
  returned, requeued,
}
use reposhift.Migration.Conditions.{set_condition}
use reposhift.Migration.Restart.Diff.{
  new_resources, modified_resources, removed_ids, skip_all, requeue_all, pending_status, percent_of,
}

abbrev pub running_requeue_interval : ℕ
running_requeue_interval = 10 * second

-- The statuses and the counters after the changes: removed ones skipped, modified ones queued
-- again, new ones appended.
unfoldable pub changed_progress : List MigrationResource → MigrationStatus → MigrationStatus
unfolding skip_all requeue_all pending_status percent_of
changed_progress resources b =
    let old = b.resource_statuses in
    let c =
      requeue_all (modified_resources resources old) (skip_all (removed_ids resources old) b) in
    let p : MigrationProgress = record c.progress {
      total = length resources;
      percentage = percent_of (length resources) c.progress;
    } in
    record c {
      resource_statuses = c.resource_statuses ++ map pending_status (new_resources resources old);
      progress = p;
    }

-- Running again: no completion time.
unfoldable pub resumed : (step : String) → MigrationStatus → MigrationStatus
resumed step b =
    let p : MigrationProgress = record b.progress { current_step = step } in
    record b { phase = MigrationPhase.running; progress = p; completion_time = none }

unfoldable pub observed : (t generation : ℕ) → MigrationStatus → MigrationStatus
observed t generation b = record b {
  observed_generation = generation;
  last_reconcile_time = some t;
}

abbrev pub unless_error : Outcome → Option String → Outcome
unless_error done none = done
unless_error done (some error) = returned (some error)

module _ (e : Env) where
  -- "%d new, %d modified, %d removed"
  unfoldable counts_text : (new modified removed : ℕ) → String
  counts_text n m r = concat (
      e.format_int (pos n)
      ∷ " new, "
      ∷ e.format_int (pos m)
      ∷ " modified, "
      ∷ e.format_int (pos r)
      ∷ " removed"
      ∷ [])

  -- a status update whose error is the answer
  unfoldable pub save_and : Outcome → M e.World Outcome
  save_and done = do error ← status_update e; pure (unless_error done error)

  unfoldable pub no_changes : Migration → M e.World Outcome
  unfolding observed save_and
  no_changes m = do
    t ← now e
    modify (observed t m.generation)
    set_condition e "SpecChanged" true "NoResourceChanges"
        "Spec updated but no resource changes detected"
    save_and (returned none)

  unfoldable pub restart_with : Migration → (new modified removed : ℕ) → M e.World Outcome
  unfolding counts_text changed_progress resumed observed save_and
  restart_with m n o r =
      let counts = counts_text n o r in
      let resources = m.spec.resources in
      do
        modify (λ b.
            resumed (concat ("Processing spec changes: " ∷ counts ∷ []))
              (changed_progress resources b))
        t ← now e
        modify (observed t m.generation)
        set_condition e "SpecChanged" true "ResourcesChanged" (
            concat (
              "Detected "
              ∷ counts
              ∷ " resources (total: "
              ∷ e.format_int (pos m.status.progress.total)
              ∷ " → "
              ∷ e.format_int (pos (length resources))
              ∷ ")"
              ∷ []))
        set_condition e "MigrationActive" true "MigrationRunning"
            "Migration restarted due to spec changes"
        send_web_socket_update e
            (concat ("Resuming migration with changes: " ∷ counts ∷ " resources" ∷ []))
        event "MigrationResumed"
        save_and (requeued running_requeue_interval none)

  unfoldable pub restart_by : Migration → (new modified removed : ℕ) → M e.World Outcome
  unfolding no_changes restart_with
  restart_by m n o r = if n + o + r == 0 then no_changes m else restart_with m n o r

  unfoldable pub restart_migration_for_spec_change : M e.World Outcome
  unfolding restart_by
  restart_migration_for_spec_change = do
    m ← gets (λ m. m)
    restart_by m (length (new_resources m.spec.resources m.status.resource_statuses))
        (length (modified_resources m.spec.resources m.status.resource_statuses))
        (length (removed_ids m.spec.resources m.status.resource_statuses))
