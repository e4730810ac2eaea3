-- ===== src/Smart/Execution.antt =====
-- ExecutePlan, ExecuteGroup and executeSingleMigration of internal/smart/engine.go. The migrations
-- of a group run one after the other here, which is one of the orders that the goroutines may take.
pub mod Stuck
pub mod Counting
use reposhift.Common.{
  ℕ, ◌+◌, String, Bool, true, false, Option, none, some, List, [], ◌∷◌, str_eq, if◌then◌else◌,
}
use reposhift.Common.Result.{wrap_error}
use reposhift.Smart.Types.{PlannedMigration}
use reposhift.Smart.Breaker.{CircuitBreaker, record_success, record_failure}
use reposhift.Smart.Retrying.{Attempt, execute_with_smart_retry}

-- A step on the outside world, with its error.
abbrev Step : Type 0 → Type 0
Step W = W → Option String × W

-- The work that the engine hands on, the limiter, and the wait before attempt `n + 2`. Of the four
-- kinds of work, all but the artifacts are placeholders so far, which return nil.
pub record Engine : Type 1 where
  pub World : Type 0
  pub wait : Step World
  pub pause : ℕ → Step World
  pub migrate_repository : PlannedMigration → Step World
  pub migrate_work_items : PlannedMigration → Step World
  pub migrate_artifacts : PlannedMigration → Step World
  pub migrate_pipelines : PlannedMigration → Step World

-- type MigrationResult, without times: for each name the error, if there was one
pub record MigrationResult : Type 0 where
  pub success_count : ℕ
  pub failed_count : ℕ
  pub results : List (String × Option String)
  pub stopped : Bool

-- what a write to a map does
abbrev pub put {ℓ} : {A : Type ℓ} → String → A → List (String × A) → List (String × A)
put name a [] = (name, a) ∷ []
put name a (p ∷ rest) = if str_eq p.0 name then (name, a) ∷ rest else p ∷ put name a rest

module _ (engine : Engine) where
  -- the breaker, the result so far, and the world
  pub record State : Type 0 where
    pub breaker : CircuitBreaker
    pub result : MigrationResult
    pub world : engine.World

  -- a step that is left out, or whose error is wrapped and ends the operation
  unfoldable then_step :
      Bool
      → String
      → Step engine.World
      → Option String × engine.World
      → Option String × engine.World
  then_step include prefix step (some e, w) = (some e, w)
  then_step false prefix step (none, w) = (none, w)
  then_step true prefix step (none, w) = (wrap_error prefix (step w).0, (step w).1)

  -- the operation that is retried
  unfoldable pub migrate : PlannedMigration → Step engine.World
  unfolding then_step
  migrate pm w =
      let repository =
        then_step pm.include_repository "repository migration failed: "
          (engine.migrate_repository pm) (none, w) in
      let work_items =
        then_step pm.include_work_items "work items migration failed: "
          (engine.migrate_work_items pm) repository in
      let artifacts =
        then_step pm.include_artifacts "artifacts migration failed: " (engine.migrate_artifacts pm)
          work_items in
      then_step pm.include_pipelines "pipelines migration failed: " (engine.migrate_pipelines pm)
        artifacts

  -- the retry loop reads the breaker and leaves it as it is
  abbrev pub attempt_of : PlannedMigration → Attempt
  attempt_of pm = record {
    World = CircuitBreaker × engine.World;
    is_open = λ s. s.0.is_open;
    wait = λ s. ((engine.wait s.1).0, (s.0, (engine.wait s.1).1));
    operation = λ s. ((migrate pm s.1).0, (s.0, (migrate pm s.1).1));
    pause = λ n s. ((engine.pause n s.1).0, (s.0, (engine.pause n s.1).1));
  }

  unfoldable pub record_result :
      PlannedMigration
      → MigrationResult
      → Option String × (CircuitBreaker × engine.World)
      → Option String × State
  unfolding record_success record_failure
  record_result pm r (some e, (b, w)) = (
    some e,
    record {
      breaker = record_failure b;
      result = record r {
        results = put pm.name (some e) r.results;
        failed_count = r.failed_count + 1;
      };
      world = w;
    },
  )
  record_result pm r (none, (b, w)) = (
    none,
    record {
      breaker = record_success b;
      result = record r {
        results = put pm.name none r.results;
        success_count = r.success_count + 1;
      };
      world = w;
    },
  )

  unfoldable pub execute_single_migration : PlannedMigration → State → Option String × State
  unfolding record_result execute_with_smart_retry
  execute_single_migration pm s =
      record_result pm s.result (execute_with_smart_retry (attempt_of pm) (s.breaker, s.world))

  -- the errors by name, and the state
  unfoldable pub execute_group :
      List PlannedMigration
      → List (String × Option String)
      → State
      → List (String × Option String) × State
  unfolding execute_single_migration
  execute_group [] errors s = (errors, s)
  execute_group (pm ∷ pms) errors s =
      let (error, s') = execute_single_migration pm s in
      execute_group pms (put pm.name error errors) s'

  -- the loop over the errors of a group
  unfoldable pub check_failures : List (String × Option String) → MigrationResult → MigrationResult
  check_failures [] r = r
  check_failures ((name, none) ∷ rest) r = check_failures rest r
  check_failures ((name, some e) ∷ rest) r =
      check_failures rest
        (record r { results = put name (some e) r.results; failed_count = r.failed_count + 1 })

  unfoldable pub run_group : List PlannedMigration → State → State
  unfolding execute_group check_failures
  run_group group s =
      let (errors, s') = execute_group group [] s in
      record s' { result = check_failures errors s'.result }

  unfoldable pub run_groups : List (List PlannedMigration) → State → State
  unfolding run_group
  run_groups [] s = s
  run_groups (group ∷ groups) s =
      let s' = run_group group s in
      let rest = run_groups groups s' in
      if s'.breaker.is_open
      then record s' { result = record s'.result { stopped = true } }
      else rest

  abbrev pub new_result : MigrationResult
  new_result = record { success_count = 0; failed_count = 0; results = []; stopped = false }

  unfoldable pub execute_plan : List (List PlannedMigration) → CircuitBreaker → engine.World → State
  unfolding run_groups
  execute_plan groups b w =
      run_groups groups (record { breaker = b; result = new_result; world = w })
