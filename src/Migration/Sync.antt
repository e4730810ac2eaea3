-- ===== src/Migration/Sync.antt =====
-- processSyncing: the repositories synchronised again at every interval, and its errors counted.
use reposhift.Common.{
  ℕ, suc, ◌+◌, String, Bool, true, false, Option, none, some, List, [], ◌∷◌, ◌++◌, ltb, str_eq,
  str_append, if◌then◌else◌,
}
use reposhift.Common.Text.{concat}
use reposhift.Common.Result.{Result, ok, err}
use reposhift.Migration.Types.{
  MigrationPhase, MigrationResource, SyncSettings, SyncStatus, Migration, MigrationStatus,
}
use reposhift.Common.Int.{◌-ℤ◌, pos}
use reposhift.Migration.Env.{Env, Synced, sync_repository, Outcome, returns}
use reposhift.Migration.Action.{
  M, ◌>>=◌, ◌>>◌, pure, gets, modify, event, now, ask, status_update, returned, requeued,
}
use reposhift.Migration.Restart.{save_and}
use reposhift.Migration.Running.{with_phase, sync_interval, enabled_sync, minutes}
use reposhift.Migration.Tokens.{get_azure_dev_ops_token, get_git_hub_token}

unfoldable no_sync_status : SyncStatus
no_sync_status = record {
  last_sync_time = none;
  last_sync_error = "";
  sync_count = 0;
  failed_sync_count = 0;
  branches_synced = [];
  tags_synced = [];
  next_sync_time = none;
}

unfoldable pub sync_status_or_new : Option SyncStatus → SyncStatus
unfolding no_sync_status
sync_status_or_new none = no_sync_status
sync_status_or_new (some s) = s

-- one sync that failed, and the time of the next one
unfoldable pub sync_failed : (next : ℕ) → (error : String) → SyncStatus → SyncStatus
sync_failed next error s = record s {
  failed_sync_count = suc s.failed_sync_count;
  last_sync_error = error;
  next_sync_time = some next;
}

unfoldable sync_succeeded : (t next : ℕ) → (branches tags : List String) → SyncStatus → SyncStatus
sync_succeeded t next branches tags s = record s {
  sync_count = suc s.sync_count;
  last_sync_error = "";
  last_sync_time = some t;
  branches_synced = branches;
  tags_synced = tags;
  next_sync_time = some next;
}

-- strings.Join(l, "; ")
unfoldable join : List String → String
join [] = ""
join (s ∷ []) = s
join (s ∷ next ∷ rest) = str_append s (str_append "; " (join (next ∷ rest)))

-- what a sync of all repositories gathers
pub record Gathered : Type 0 where
  pub branches : List String
  pub tags : List String
  pub errors : List String

abbrev nothing_gathered : Gathered
nothing_gathered = record { branches = []; tags = []; errors = [] }

unfoldable gather : MigrationResource → Result Synced → Gathered → Gathered
gather r (err error) g = record g {
  errors = g.errors ++ concat (r.source_name ∷ ": " ∷ error ∷ []) ∷ [];
}
gather r (ok synced) g = record g {
  branches = g.branches ++ synced.branches_synced;
  tags = g.tags ++ synced.tags_synced;
}

-- the sync status by what was gathered
unfoldable synced_status :
    (t next : ℕ) → (branches tags errors : List String) → SyncStatus → SyncStatus
unfolding sync_failed sync_succeeded join
synced_status t next branches tags [] s = sync_succeeded t next branches tags s
synced_status t next branches tags (error ∷ rest) s = sync_failed next (join (error ∷ rest)) s

abbrev pub with_sync_status : SyncStatus → MigrationStatus → MigrationStatus
with_sync_status s b = record b { sync_status = some s }

abbrev sync_event : List String → String
sync_event [] = "SyncCompleted"
sync_event (error ∷ rest) = "SyncPartialFailure"

-- when the next sync is due; none where it is now
unfoldable due_at : Option SyncStatus → Option ℕ
due_at none = none
due_at (some s) = s.next_sync_time

module _ (e : Env) where
  unfoldable pub after_sync_error : (interval : ℕ) → Option String → M e.World Outcome
  after_sync_error interval (some error) = pure (requeued (minutes interval) (some error))
  after_sync_error interval none = do event "SyncFailed"; pure (requeued (minutes interval) none)

  unfoldable pub handle_sync_error : (error : String) → (interval : ℕ) → M e.World Outcome
  unfolding sync_failed sync_status_or_new after_sync_error
  handle_sync_error error interval = do
    t ← now e
    modify (λ b.
        with_sync_status
          (sync_failed (t + minutes interval) error (sync_status_or_new b.sync_status)) b)
    saved ← status_update e
    after_sync_error interval saved

  unfoldable pub sync_one :
      Bool
      → Migration
      → MigrationResource
      → (ado_token token : String) → Gathered
      → M e.World Gathered
  unfolding gather
  sync_one false m r ado_token token g = pure g
  sync_one true m r ado_token token g = do
    answer ← ask e (sync_repository m r ado_token token)
    pure (gather r answer g)

  unfoldable pub sync_all :
      Migration
      → List MigrationResource
      → (ado_token token : String) → Gathered
      → M e.World Gathered
  unfolding sync_one
  sync_all m [] ado_token token g = pure g
  sync_all m (r ∷ rest) ado_token token g = do
    gathered ← sync_one (str_eq r.type "repository") m r ado_token token g
    sync_all m rest ado_token token gathered

  unfoldable pub finish_sync : (t interval : ℕ) → Gathered → M e.World Outcome
  unfolding synced_status sync_status_or_new
  finish_sync t interval g = do
    modify (λ b.
        with_sync_status
          (synced_status t (t + minutes interval) g.branches g.tags g.errors
            (sync_status_or_new b.sync_status))
          b)
    event (sync_event g.errors)
    saved ← status_update e
    pure (requeued (minutes interval) saved)

  unfoldable pub sync_with :
      (t interval : ℕ) → Migration → (ado_token : String) → Result String → M e.World Outcome
  unfolding handle_sync_error sync_all finish_sync
  sync_with t interval m ado_token (err error) = handle_sync_error error interval
  sync_with t interval m ado_token (ok token) = do
    gathered ← sync_all m m.spec.resources ado_token token nothing_gathered
    finish_sync t interval gathered

  unfoldable pub sync_with_ado : (t interval : ℕ) → Migration → Result String → M e.World Outcome
  unfolding handle_sync_error sync_with
  sync_with_ado t interval m (err error) = handle_sync_error error interval
  sync_with_ado t interval m (ok ado_token) = do
    token ← get_git_hub_token e m.namespace m.spec
    sync_with t interval m ado_token token

  unfoldable pub sync_now : (t interval : ℕ) → Migration → M e.World Outcome
  unfolding sync_with_ado
  sync_now t interval m = do
    ado_token ← get_azure_dev_ops_token e m.namespace m.spec
    sync_with_ado t interval m ado_token

  unfoldable pub sync_if_due : (t interval : ℕ) → Migration → Option ℕ → M e.World Outcome
  unfolding sync_now
  sync_if_due t interval m none = sync_now t interval m
  sync_if_due t interval m (some next) =
      if ltb t next then pure (returns false (pos next -ℤ pos t) none) else sync_now t interval m

  unfoldable pub sync_if_enabled : Migration → Option SyncSettings → M e.World Outcome
  unfolding save_and sync_if_due sync_interval due_at
  sync_if_enabled m none = do
    modify (with_phase MigrationPhase.completed)
    save_and e (returned none)
  sync_if_enabled m (some sync) = do
    t ← now e
    sync_if_due t (sync_interval sync) m (due_at m.status.sync_status)

  unfoldable pub process_syncing : M e.World Outcome
  unfolding sync_if_enabled enabled_sync
  process_syncing = do m ← gets (λ m. m); sync_if_enabled m (enabled_sync m.spec.sync)
