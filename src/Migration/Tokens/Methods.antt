-- ===== src/Migration/Tokens/Methods.antt =====
-- The authentication methods that one phase accepts and another refuses.
use reposhift.Common.{ℕ, suc, ◌+◌, ◌≡◌, ◌≢◌, refl, ap, String, Option, none, some}
use reposhift.Common.Result.{Result, ok, err}
use reposhift.Migration.Types.{AppAuth, MigrationSpec, SyncStatus, Migration, MigrationStatus}
use reposhift.Migration.Env.{Env, St}
use reposhift.Migration.Action.{◌>>=◌, ◌>>◌, pure, modify, event, now, status_update}
use reposhift.Migration.Action.Fallible
use reposhift.Migration.Tokens.{git_hub_token_by, get_git_hub_token}
use reposhift.Migration.Running.{minutes}
use reposhift.Migration.Sync.{
  sync_failed, sync_status_or_new, after_sync_error, handle_sync_error, sync_with, sync_with_ado,
  sync_now,
}
use reposhift.Migration.Keeps.{Stable}
use reposhift.Migration.Keeps.Tokens.{Keeps-get_azure_dev_ops_token}

-- authentication by an inline token alone
pub record IsInline (spec : MigrationSpec) : Type 0 where
  pub no_ref : spec.token_ref ≡ none
  pub no_app : spec.app_auth ≡ none
  pub token : spec.inline_token ≢ ""

-- one more failed sync, and no more successful ones
pub record FailedSync (o n : Option SyncStatus) : Type 0 where
  pub after : SyncStatus
  pub present : n ≡ some after
  pub counted : after.failed_sync_count ≡ suc (sync_status_or_new o).failed_sync_count
  unsynced : after.sync_count ≡ (sync_status_or_new o).sync_count

module _ (e : Env) where
  after_sync_error-status :
      (interval : ℕ) (error : Option String) (s : St e.World)
      → (after_sync_error e interval error s).1.migration.status.sync_status
        ≡ s.migration.status.sync_status
  unfolding after_sync_error ◌>>◌ pure event
  after_sync_error-status interval none s = refl
  after_sync_error-status interval (some error) s = refl

  handle_sync_error-FailedSync :
      (error : String) (interval : ℕ) (o : Option SyncStatus) (s : St e.World)
      → s.migration.status.sync_status ≡ o
      → FailedSync o (handle_sync_error e error interval s).1.migration.status.sync_status
  unfolding handle_sync_error sync_failed ◌>>=◌ ◌>>◌ modify now status_update
  handle_sync_error-FailedSync error interval o s h = record {
    after =
        sync_failed ((e.now s.world).0 + minutes interval) error
          (sync_status_or_new s.migration.status.sync_status);
    present = after_sync_error-status interval _ _;
    counted = ap (λ (x : Option SyncStatus). suc (sync_status_or_new x).failed_sync_count) h;
    unsynced = ap (λ (x : Option SyncStatus). (sync_status_or_new x).sync_count) h;
  }

  trivial : (V : MigrationStatus → Type 0) → Stable e V (λ w. Unit {0})
  trivial V = record { now = λ w p. tt; ask = λ q w p. tt; status_update = λ w m v p. tt }

  sync_with_ado-FailedSync :
      (t interval : ℕ) (m : Migration) (app : AppAuth) (ado : Result String) (o : Option SyncStatus)
      (s : St e.World)
      → m.spec.app_auth ≡ some app
      → s.migration.status.sync_status ≡ o
      → FailedSync o (sync_with_ado e t interval m ado s).1.migration.status.sync_status
  unfolding sync_with_ado sync_with get_git_hub_token git_hub_token_by ◌>>=◌ Fallible.lift
  sync_with_ado-FailedSync t interval m app (err error) o s h k =
      handle_sync_error-FailedSync error interval o s k
  sync_with_ado-FailedSync t interval m app (ok ado) o s h k =
      rw h (handle_sync_error-FailedSync _ interval o s k)

  -- With a GitHub App as the credential, every sync that is due fails, whatever Azure DevOps
  -- answers: the count of failed syncs rises by one and that of successful ones stays.
  pub sync_now-app_auth :
      (t interval : ℕ) (m : Migration) (app : AppAuth) (s : St e.World)
      → m.spec.app_auth ≡ some app
      → FailedSync s.migration.status.sync_status
          (sync_now e t interval m s).1.migration.status.sync_status
  unfolding sync_now ◌>>=◌
  sync_now-app_auth t interval m app s h =
      let o = s.migration.status.sync_status in
      let V : MigrationStatus → Type 0 = λ b. b.sync_status ≡ o in
      let i =
        (Keeps-get_azure_dev_ops_token e (trivial V) m.namespace m.spec).at s
          (record { world = tt; valid = refl }) in
      sync_with_ado-FailedSync t interval m app _ o _ h i.valid
