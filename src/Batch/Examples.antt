-- ===== src/Batch/Examples.antt =====
-- A small world for the batch controller, and its runs: the theorems at concrete inputs.
use reposhift.Common.{
  ℕ, ◌+◌, ◌*◌, ◌^◌, ◌≡◌, ◌≢◌, refl, inl, true, false, String, Option, none, some, List, [], ◌∷◌,
  arith, Floats, all, str_eq, if◌then◌else◌,
}
use reposhift.Common.Result.{ok}
use reposhift.Common.Int.{pos}
use reposhift.Batch.Types.{Phase, MigrationResource, SecretReference, Spec, Status}
use reposhift.Batch.Env.{Env, panics, found}
use reposhift.Batch.Resources.{
  process_all, process_one, is_resource_processed, update_progress, process_resource, mark,
  mark_resource_completed, mark_resource_failed, put_status,
}
use reposhift.Batch.Reconcile.{reconcile}
use reposhift.Batch.Valid.{IsValid}
use reposhift.Batch.Runs.{Server, as_worker, run}
use reposhift.Batch.Runs.Validity.{run-IsValid, reconcile_total, run-completed, is_completed_in}
use reposhift.Batch.Runs.Failures.{run-incomplete}

-- whole numbers in place of floats: enough where no law on them is used
abbrev whole_floats : Floats
whole_floats = record {
  Float = ℕ;
  of_ℕ = λ n. n;
  add = λ a b. a + b;
  mul = λ a b. a * b;
  pow = λ a b. a ^ b;
  quarter = 0;
  trunc = λ a. pos a;
}

-- the clock in nanoseconds, and the stored status
record Small : Type 0 where
  clock : ℕ
  status : Status

abbrev token : SecretReference
token = record { name = "tokens"; key = "token"; namespace = "" }

abbrev repository : String → MigrationResource
repository name = record {
  type = "repository";
  source_id = "1";
  source_name = name;
  target_name = name;
}

abbrev spec : Spec
spec = record {
  namespace = "default";
  resources = repository "api" ∷ repository "web" ∷ [];
  source_auth = record { pat = some token; has_service_principal = false };
  target_auth = record { token_ref = some token; has_app_auth = false };
  retry_policy = none;
}

abbrev new_status : Status
new_status = record {
  phase = Phase.unset;
  claimed_by = "";
  claimed_at = none;
  lease_expires_at = none;
  progress = record {
    total = 0;
    completed = 0;
    failed = 0;
    processing = 0;
    percentage = 0;
    current_step = "";
  };
  retry_count = 0;
  start_time = none;
  completion_time = none;
  resource_statuses = [];
  error_message = "";
  last_reconcile_time = none;
  next_retry_time = none;
  statistics = none;
}

-- the clock advances by a second at each reading, updates succeed, and migrations give `answer`
abbrev env : (String → Option String) → Env
env answer = record {
  floats = whole_floats;
  World = Small;
  now = λ w. (w.clock, record w { clock = w.clock + 1_000_000_000 });
  rand = λ w. (0, w);
  get = λ w. found spec w.status;
  status_update = λ w b. (none, record w { status = b });
  get_secret = λ w namespace name. ok (λ key. some "secret");
  migrate_repository = λ w s r ado github. (answer r.source_name, w);
  format_int = λ n. "n";
  worker_id = "a";
}

abbrev server : (answer : String → Option String) → Server (env answer) spec
server answer = record {
  stored = λ w. w.status;
  get-stored = λ w. refl;
  stored-now = λ w. refl;
  stored-rand = λ w. refl;
  stored-migrate_repository = λ w r ado github. refl;
  stored-status_update = λ w b. inl refl;
}

abbrev start : Small
start = record { clock = 0; status = new_status }

new_status-IsValid : IsValid spec new_status
new_status-IsValid = record {
  counted = record { completed = refl; failed = refl; terminal = refl };
  retries = omega arith;
  fresh = λ p. refl;
  started = λ p. cc;
  successful = λ p. cc;
}

abbrev succeeds : String → Option String
succeeds name = none

-- initialised, claimed, started and worked off by the worker "a"
abbrev four : List String
four = "a" ∷ "a" ∷ "a" ∷ "a" ∷ []

four_complete : (run (env succeeds) four start).status.phase ≡ Phase.completed
unfolding run reconcile process_all process_one is_resource_processed update_progress
    process_resource mark mark_resource_completed mark_resource_failed put_status
four_complete = refl

run-IsValid_example : IsValid spec (run (env succeeds) four start).status
run-IsValid_example =
    run-IsValid spec (env succeeds) (server succeeds) four start new_status-IsValid

reconcile_total_example : (reconcile (as_worker (env succeeds) "a") start).0 ≢ panics
reconcile_total_example =
    reconcile_total spec (env succeeds) (server succeeds) "a" start new_status-IsValid

run-completed_example :
    all
      (λ r. is_completed_in r.source_name (run (env succeeds) four start).status.resource_statuses)
      spec.resources
    ≡ true
run-completed_example =
    run-completed spec (env succeeds) (server succeeds) four start new_status-IsValid four_complete

-- one migration fails
abbrev fails : String → Option String
fails name = if str_eq name "web" then some "remote: not found" else none

failed_one : (run (env fails) four start).status.phase ≡ Phase.retrying
unfolding run reconcile process_all process_one is_resource_processed update_progress
    process_resource mark mark_resource_completed mark_resource_failed put_status
failed_one = refl

abbrev after_failure : Small
after_failure = record {
  clock = 1_000_000_000_000;
  status = record new_status {
    phase = Phase.retrying;
    progress = record new_status.progress {
      total = 2;
      completed = 1;
      failed = 1;
      percentage = 100;
    };
    retry_count = 1;
  };
}

-- the migrations would succeed from now on, and the batch does not complete
run-incomplete_example :
    (run (env succeeds) ("a" ∷ "b" ∷ "b" ∷ "b" ∷ []) after_failure).status.phase ≢ Phase.completed
run-incomplete_example =
    run-incomplete spec (env succeeds) (server succeeds) ("a" ∷ "b" ∷ "b" ∷ "b" ∷ []) after_failure
      (record { failed = omega arith; known = λ p. cc; incomplete = λ p. cc; started = λ p. cc })
