-- ===== src/Smart/Examples.antt =====
-- The theorems on the engine at concrete inputs.
use reposhift.Common.{
  ℕ, ◌*◌, zero, suc, ◌||◌, arith, ◌+◌, ◌≤◌, ◌≡◌, refl, String, Bool, true, false, Option, none,
  some, List, [], ◌∷◌,
}
use reposhift.Smart.Types.{PlannedMigration}
use reposhift.Smart.Breaker.{CircuitBreaker, new_circuit_breaker, after}
use reposhift.Smart.Execution.{
  Engine, State, new_result, run_group, execute_group, check_failures, migrate, execute_plan,
}
use reposhift.Smart.Execution.Stuck.{IsStuck, execute_plan-IsStuck}
use reposhift.Smart.Execution.Counting.{failures, run_group_doubles}
use reposhift.Smart.Breaker.History.{tripped, is_open-after}
use reposhift.Smart.Matching.{is_retryable_error}
use reposhift.Smart.Retrying.{Attempt, execute_with_smart_retry}
use reposhift.Smart.Retrying.Attempts.{Account, agrees, execute_with_smart_retry_sound}
use reposhift.Smart.Groups.{processed, add_group, identify_parallel_groups}
use reposhift.Smart.Groups.Order.{flatten, extend, InOrder, identify_parallel_groups-InOrder}
use reposhift.Smart.Groups.Dropped.{names_but, lacks, identify_parallel_groups_drops}
use reposhift.Smart.Groups.Parallel.{Full, identify_parallel_groups_single}

-- five failures and two successes
abbrev outage : List Bool
outage = true ∷ true ∷ false ∷ false ∷ false ∷ false ∷ false ∷ []

is_open-after_example : (after outage).is_open ≡ tripped outage
is_open-after_example = is_open-after outage

abbrev planned : String → List String → PlannedMigration
planned name dependencies = record {
  name = name;
  include_repository = true;
  include_work_items = true;
  include_artifacts = false;
  include_pipelines = true;
  dependencies = dependencies;
  repository_analysis = some (record {
    size_bytes = 20_000_000_000;
    commit_count = 12_000;
    branch_count = 120;
    has_lfs = true;
  });
  work_item_analysis = some (record { total_count = 2000 });
  artifact_analysis = some (record { total_artifacts = 600; total_size_bytes = 1000 });
  estimated_duration = 3600;
}

abbrev lib : PlannedMigration
lib = planned "lib" []

abbrev api : PlannedMigration
api = planned "api" ("lib" ∷ [])

identify_parallel_groups-InOrder_example :
    InOrder [] (flatten (identify_parallel_groups ("lib" ∷ "api" ∷ []) (api ∷ lib ∷ [])))
identify_parallel_groups-InOrder_example =
    identify_parallel_groups-InOrder ("lib" ∷ "api" ∷ []) (api ∷ lib ∷ [])

identify_parallel_groups_single_example :
    (g : List PlannedMigration) × (identify_parallel_groups ("lib" ∷ "api" ∷ []) (lib ∷ api ∷ [])
      ≡ g ∷ [])
    × Full (lib ∷ api ∷ []) (extend g [])
identify_parallel_groups_single_example =
    identify_parallel_groups_single "lib" ("api" ∷ []) lib (api ∷ []) (refl, (refl, tt))

abbrev cli : PlannedMigration
cli = planned "cli" ("lib" ∷ [])

identify_parallel_groups_drops_example :
    (g : List PlannedMigration) × (identify_parallel_groups
        ("api" ∷ "lib" ∷ "cli" ∷ [])
        (api ∷ lib ∷ cli ∷ [])
      ≡ add_group g [])
    × (lacks "api" g ≡ true)
    × ((d : String)
        → processed d (extend g []) ≡ processed d (names_but "api" (api ∷ lib ∷ cli ∷ []) []))
identify_parallel_groups_drops_example =
    identify_parallel_groups_drops "api" ("lib" ∷ "cli" ∷ []) (api ∷ lib ∷ cli ∷ [])
      (refl, (refl, (refl, tt))) refl

-- A world that counts the runs of an operation that succeeds at its second run.
record Trial : Type 0 where
  count : ℕ
  done : Bool

abbrev trial_answer : ℕ → Option String
trial_answer zero = some "timeout"
trial_answer (suc n) = none

abbrev is_success : Option String → Bool
is_success none = true
is_success (some e) = false

abbrev try_once : Trial → Option String × Trial
try_once t = (
  trial_answer t.count,
  record { count = t.count + 1; done = t.done || is_success (trial_answer t.count) },
)

abbrev flaky : Attempt
flaky = record {
  World = Trial;
  is_open = λ t. false;
  wait = λ t. (none, t);
  operation = try_once;
  pause = λ n t. (none, t);
}

try_once-success :
    (n : ℕ) (d : Bool) → trial_answer n ≡ none → (d || is_success (trial_answer n)) ≡ true
try_once-success zero d p = ground (arith, p)
try_once-success (suc n) d p = ground arith

try_once-error :
    (n : ℕ) (d : Bool) (e : String)
    → trial_answer n ≡ some e
    → (d || is_success (trial_answer n)) ≡ d
try_once-error zero d e p = ground arith
try_once-error (suc n) d e p = cc

abbrev by_count : Account flaky
by_count = record {
  runs = λ t. t.count;
  succeeded = λ t. t.done;
  wait_keeps = λ t. (refl, refl);
  pause_keeps = λ n t. (refl, refl);
  counts = λ t. refl;
  on_success = λ t p. try_once-success t.count t.done p;
  on_error = λ t e p. try_once-error t.count t.done e p;
}

abbrev first : Trial
first = record { count = 0; done = false }

execute_with_smart_retry_sound_example :
    ((execute_with_smart_retry flaky first).1.count ≤ 6)
    × (agrees (execute_with_smart_retry flaky first).0 (execute_with_smart_retry flaky first).1.done
        ≡ true)
execute_with_smart_retry_sound_example = execute_with_smart_retry_sound flaky by_count first refl

-- work that always fails
abbrev failing : Engine
failing = record {
  World = ℕ;
  wait = λ w. (none, w);
  pause = λ n w. (none, w);
  migrate_repository = λ pm w. (some "remote: not found", w + 1);
  migrate_work_items = λ pm w. (none, w);
  migrate_artifacts = λ pm w. (none, w);
  migrate_pipelines = λ pm w. (none, w);
}

abbrev open_breaker : CircuitBreaker
open_breaker = record { failures = 5; successes = 0; is_open = true; threshold = 5 }

execute_plan-IsStuck_example :
    IsStuck failing 0 (execute_plan failing ((lib ∷ []) ∷ (api ∷ []) ∷ []) open_breaker 0)
execute_plan-IsStuck_example =
    execute_plan-IsStuck failing ((lib ∷ []) ∷ (api ∷ []) ∷ []) open_breaker 0 refl

abbrev at_first : State failing
at_first = record { breaker = new_circuit_breaker; result = new_result failing; world = 0 }

-- two migrations fail, and four failures are counted
counted : (run_group failing (lib ∷ api ∷ []) at_first).result.failed_count ≡ 4
unfolding run_group execute_group check_failures migrate is_retryable_error
counted = refl

run_group_doubles_example :
    (run_group failing (lib ∷ api ∷ []) at_first).result.failed_count
    ≡ 0 + 2 * failures (execute_group failing (lib ∷ api ∷ []) [] at_first).0
run_group_doubles_example = run_group_doubles failing (lib ∷ api ∷ []) at_first refl
