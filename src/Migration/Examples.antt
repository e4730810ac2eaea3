-- ===== src/Migration/Examples.antt =====
-- A small world for the migration controller, and its runs: the theorems at concrete inputs.
use reposhift.Common.{
  ℕ, zero, suc, ◌+◌, ◌≡◌, ◌≢◌, refl, ap, inl, true, false, String, Bool, none, some, [], ◌∷◌,
}
use reposhift.Common.Int.{pos}
use reposhift.Common.Result.{ok}
use reposhift.Batch.Types.{ResourceStatus, SecretReference}
use reposhift.Migration.Types.{
  MigrationPhase, MigrationResource, AppAuth, MigrationSpec, MigrationProgress,
  ResourceMigrationStatus, Condition, Migration, MigrationStatus,
}
use reposhift.Migration.Env.{
  Request, Response, get_secret, get_app_client, get_client_from_app, get_token,
  get_service_principal_token, get_organization, get_repository_by_client, check_repository_exists,
  get_repository, is_repository_empty, create_repository, set_repository_default_branch,
  get_repository_default_branch, migrate_repository, sync_repository, from_pat, Env, St, panics,
  found, updated,
}
use reposhift.Migration.Conditions.{put_condition, find_condition}
use reposhift.Migration.Conditions.Laws.{expected, put_condition_lem}
use reposhift.Migration.Restart.{changed_progress, restart_migration_for_spec_change}
use reposhift.Migration.Restart.Diff.{first_with, is_source_id, modified_resources}
use reposhift.Migration.Restart.Unchanged.{changed_progress-first_with}
use reposhift.Migration.Restart.Mirrors.{Mirrors, nothing, another, restart-Mirrors}
use reposhift.Migration.Annotations.{annotation, cancel_annotation}
use reposhift.Migration.Tokens.Methods.{FailedSync, sync_now-app_auth}
use reposhift.Migration.Validate.{perform_validation_with_client}
use reposhift.Migration.Validate.Verdict.{is_ok, has_no_errors, perform_validation_with_client_lem}
use reposhift.Migration.Sync.{sync_now}
use reposhift.Migration.Reconcile.{reconcile}
use reposhift.Migration.Valid.{IsValid, count_status}
use reposhift.Migration.Runs.{Server, Reach, begins, reconciles, Reach-IsValid, reconcile-total}
use reposhift.Migration.Runs.Paused.{Reach-IsPaused}

-- the clock in nanoseconds, and the stored object
record Small : Type 0 where
  clock : ℕ
  object : Migration

abbrev answers : (q : Request) → Response q
answers (get_secret namespace name) = ok (λ key. some "secret")
answers (get_app_client a i) = true
answers (get_client_from_app a i key) = ok (from_pat key)
answers (get_token a i) = ok "token"
answers (get_service_principal_token c s t) = ok "token"
answers (get_organization c owner) = ok (pos 5000)
answers (get_repository_by_client c owner name) = record {
  status_code = some 404;
  error = some "not found";
  has_repository = false;
}
answers (check_repository_exists t owner name) = ok false
answers (get_repository t owner name) = ok "https://github.com/acme/api"
answers (is_repository_empty t owner name) = ok true
answers (create_repository t owner name v) = ok "https://github.com/acme/api"
answers (set_repository_default_branch t owner name b) = none
answers (get_repository_default_branch t o p name) = ok "develop"
answers (migrate_repository m r ado t) = record { reports = []; error = none }
answers (sync_repository m r ado t) = ok (record { branches_synced = []; tags_synced = [] })

-- the clock advances by a second at each reading, and every call succeeds
abbrev small_env : Env
small_env = record {
  World = Small;
  now = λ w. (w.clock, record w { clock = w.clock + 1_000_000_000 });
  ask = λ q w. (answers q, w);
  get = λ w. found w.object;
  update = λ w m.
      let kept : Migration = record m { status = w.object.status } in
      (updated kept, record w { object = kept });
  status_update = λ w m.
      let saved : Migration = (let o = w.object in record o { status = m.status }) in
      (none, record w { object = saved });
  parse_int = λ text. ok (pos 1);
  format_int = λ n. "n";
  has_web_socket_manager = true;
}

found-status : (m n : Migration) → found n ≡ found m → m.status ≡ n.status
found-status m n h = cc

updated-status : (n m : Migration) → updated m ≡ updated n → n.status ≡ m.status
updated-status n m h = cc

abbrev small_server : Server small_env
small_server = record {
  stored = λ w. w.object.status;
  get-stored = λ w m h. found-status m w.object h;
  stored-now = λ w. refl;
  stored-ask = λ q w. refl;
  stored-status_update = λ w m. inl refl;
  stored-update = λ w m. refl;
  update-status = λ w m n h. updated-status n _ h;
}

abbrev secret_ref : SecretReference
secret_ref = record { name = "tokens"; key = "token"; namespace = "" }

abbrev repository_of : (id name : String) → MigrationResource
repository_of id name = record {
  type = "repository";
  source_id = id;
  source_name = name;
  target_name = name;
  visibility = "";
}

abbrev example_spec : MigrationSpec
example_spec = record {
  organization = "contoso";
  project = "shop";
  pat = some secret_ref;
  service_principal = none;
  owner = "acme";
  default_branch = "";
  default_visibility = "";
  token_ref = some secret_ref;
  app_auth = none;
  inline_token = "";
  sync = none;
  resources = repository_of "1" "api" ∷ repository_of "2" "web" ∷ [];
  skip_validation = false;
}

abbrev no_progress : MigrationProgress
no_progress = record {
  total = 0;
  completed = pos 0;
  failed = pos 0;
  processing = 0;
  skipped = 0;
  percentage = pos 0;
  current_step = "";
  current_item = 0;
  progress_summary = "";
}

abbrev fresh_status : MigrationStatus
fresh_status = record {
  phase = MigrationPhase.unset;
  conditions = [];
  start_time = none;
  completion_time = none;
  progress = no_progress;
  resource_statuses = [];
  validation_results = none;
  error_message = "";
  statistics = none;
  last_reconcile_time = none;
  observed_generation = 0;
  default_branch_info = none;
  repository_states = [];
  sync_status = none;
}

abbrev example_migration : Migration
example_migration = record {
  namespace = "default";
  generation = 1;
  deleting = false;
  has_finalizer = false;
  annotations = [];
  spec = example_spec;
  status = fresh_status;
}

abbrev world_of : Migration → Small
world_of m = record { clock = 1_000_000_000; object = m }

abbrev state_of : Migration → St Small
state_of m = record { world = world_of m; migration = m; notices = [] }

fresh_status-IsValid : IsValid fresh_status
unfolding count_status
fresh_status-IsValid = record {
  counted = record { completed_lem = refl; failed_lem = refl };
  unset_lem = λ p. refl;
  statistics_lem = λ p. cc;
}

abbrev after_runs : ℕ → Small → Small
after_runs zero w = w
after_runs (suc n) w = after_runs n (reconcile small_env w).1

twice :
    Reach small_env small_server
      (world_of example_migration)
      (after_runs 2 (world_of example_migration))
twice = reconciles (reconciles begins refl) refl

Reach-IsValid_example : IsValid (after_runs 2 (world_of example_migration)).object.status
Reach-IsValid_example =
    Reach-IsValid small_env small_server (world_of example_migration)
      (after_runs 2 (world_of example_migration)) fresh_status-IsValid twice

reconcile-total_example :
    (reconcile small_env (after_runs 2 (world_of example_migration))).0 ≢ panics
reconcile-total_example =
    reconcile-total small_env small_server (world_of example_migration)
      (after_runs 2 (world_of example_migration)) fresh_status-IsValid twice

abbrev paused_migration : Migration
paused_migration =
    let b : MigrationStatus = record fresh_status { phase = MigrationPhase.paused } in
    record example_migration { has_finalizer = true; status = b }

-- the same, where no object has annotations
abbrev quiet_env : Env
quiet_env = record small_env {
  get = λ w. found (let m = w.object in record m { annotations = [] });
}

quiet-status :
    (m n : Migration) → found (record n { annotations = [] }) ≡ found m → m.status ≡ n.status
quiet-status m n h = cc

abbrev quiet_server : Server quiet_env
quiet_server = record {
  stored = λ w. w.object.status;
  get-stored = λ w m h. quiet-status m w.object h;
  stored-now = λ w. refl;
  stored-ask = λ q w. refl;
  stored-status_update = λ w m. inl refl;
  stored-update = λ w m. refl;
  update-status = λ w m n h. updated-status n _ h;
}

annotations_of :
    (m n : Migration) → found (record n { annotations = [] }) ≡ found m → m.annotations ≡ []
annotations_of m n h = cc

quiet-annotations :
    (m n : Migration)
    → found (record n { annotations = [] }) ≡ found m
    → annotation cancel_annotation m.annotations ≡ none
unfolding annotation
quiet-annotations m n h = ap (annotation cancel_annotation) (annotations_of m n h)

Reach-IsPaused_example :
    (reconcile quiet_env (world_of paused_migration)).1.object.status.phase ≡ MigrationPhase.paused
Reach-IsPaused_example =
    Reach-IsPaused quiet_env quiet_server (λ w m h. quiet-annotations m w.object h)
      (world_of paused_migration) (reconcile quiet_env (world_of paused_migration)).1 refl
      (reconciles begins refl)

abbrev ready_condition : Bool → Condition
ready_condition status = record {
  type = "Ready";
  status = status;
  observed_generation = 1;
  last_transition_time = 7;
  reason = "MigrationFailed";
  message = "";
}

put_condition_lem_example :
    find_condition "Ready" (put_condition (ready_condition false) (ready_condition true ∷ []))
    ≡ some (expected (ready_condition false) (ready_condition true ∷ []))
put_condition_lem_example =
    put_condition_lem "Ready" (ready_condition false) (ready_condition true ∷ [])

perform_validation_with_client_lem_example :
    ((perform_validation_with_client small_env
        (from_pat "t")
        example_migration
        (state_of example_migration)).0.valid
      ≡ true)
    × (has_no_errors
          (perform_validation_with_client small_env
            (from_pat "t")
            example_migration
            (state_of example_migration)).0.errors
        ≡ true)
unfolding is_ok
perform_validation_with_client_lem_example =
    perform_validation_with_client_lem small_env (from_pat "t") example_migration
      (state_of example_migration)

abbrev inline_migration : Migration
inline_migration =
    let spec : MigrationSpec = record example_spec {
      token_ref = none;
      inline_token = "gho_token";
    } in
    record example_migration { spec = spec }

-- the same when validation has passed
abbrev inline_running : Migration
inline_running =
    let b : MigrationStatus = record inline_migration.status { phase = MigrationPhase.running } in
    record inline_migration { status = b }

abbrev app : AppAuth
app = record {
  app_id_ref = secret_ref;
  installation_id_ref = secret_ref;
  private_key_ref = secret_ref;
}

abbrev app_migration : Migration
app_migration =
    let spec : MigrationSpec = record example_spec { token_ref = none; app_auth = some app } in
    record example_migration { spec = spec }

sync_now-app_auth_example :
    FailedSync none
      (sync_now small_env 0 5 app_migration (state_of app_migration)).1.migration.status.sync_status
sync_now-app_auth_example =
    sync_now-app_auth small_env 0 5 app_migration app (state_of app_migration) refl

-- a finished migration whose first resource failed
abbrev failed_item : ResourceMigrationStatus
failed_item =
    let s : ResourceMigrationStatus = record {
      resource_id = "1";
      type = "repository";
      source_name = "api";
      target_name = "api";
      status = ResourceStatus.failed;
      progress = 0;
      start_time = none;
      completion_time = none;
      error_message = "";
      git_hub_url = "";
      name = "";
      error = "";
      repository_url = "";
    } in
    s

abbrev one_failed : MigrationStatus
one_failed =
    let p : MigrationProgress = record no_progress { total = 1; failed = pos 1 } in
    record fresh_status {
      phase = MigrationPhase.failed;
      progress = p;
      resource_statuses = failed_item ∷ [];
    }

changed_progress-first_with_example :
    first_with "1" (changed_progress example_spec.resources one_failed).resource_statuses
    ≡ some failed_item
unfolding first_with is_source_id modified_resources
changed_progress-first_with_example =
    changed_progress-first_with example_spec.resources one_failed "1" failed_item refl refl refl

abbrev failed_migration : Migration
failed_migration =
    let spec : MigrationSpec = record example_spec { resources = repository_of "1" "api" ∷ [] } in
    record example_migration { spec = spec; status = one_failed }

failed_migration-Mirrors : Mirrors failed_migration.spec.resources (failed_item ∷ [])
unfolding is_source_id
failed_migration-Mirrors =
    another (repository_of "1" "api") failed_item
      (record { id_lem = refl; target_lem = refl; source_lem = refl; type_lem = refl }) refl nothing

restart-Mirrors_example :
    ((restart_migration_for_spec_change small_env
        (state_of failed_migration)).1.migration.status.phase
      ≡ MigrationPhase.failed)
    × ((restart_migration_for_spec_change small_env
          (state_of failed_migration)).1.migration.status.resource_statuses
        ≡ failed_item ∷ [])
restart-Mirrors_example =
    restart-Mirrors small_env (state_of failed_migration) failed_migration-Mirrors
