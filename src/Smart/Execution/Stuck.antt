-- ===== src/Smart/Execution/Stuck.antt =====
-- An open breaker stays open.
use reposhift.Common.{◌≡◌, refl, ◌∙◌, String, true, Option, none, some, List, [], ◌∷◌, arith}
use reposhift.Smart.Types.{PlannedMigration}
use reposhift.Smart.Breaker.{CircuitBreaker, record_failure}
use reposhift.Smart.Retrying.{Attempt, one_attempt, attempts_from, execute_with_smart_retry}
use reposhift.Smart.Execution.{
  Engine, State, MigrationResult, record_result, attempt_of, execute_single_migration,
  execute_group, check_failures, run_group, run_groups, new_result, execute_plan,
}

aborted :
    (a : Attempt) (w : a.World)
    → a.is_open w ≡ true
    → execute_with_smart_retry a w ≡ (some "circuit breaker is open, operation aborted", w)
unfolding execute_with_smart_retry attempts_from one_attempt
aborted a w h = rw h refl

failure_keeps_open : (b : CircuitBreaker) → b.is_open ≡ true → (record_failure b).is_open ≡ true
unfolding record_failure
failure_keeps_open b h = ground (arith, h)

module _ (engine : Engine) where
  -- The breaker is open, nothing outside has changed, and no migration has succeeded.
  pub record IsStuck (w : engine.World) (s : State engine) : Type 0 where
    still_open : s.breaker.is_open ≡ true
    untouched : s.world ≡ w
    no_success : s.result.success_count ≡ 0

  single-IsStuck :
      (pm : PlannedMigration) (w : engine.World) (s : State engine)
      → IsStuck w s
      → IsStuck w (execute_single_migration engine pm s).1
  unfolding execute_single_migration record_result
  single-IsStuck pm w s h =
      rw (aborted (attempt_of engine pm) (s.breaker, s.world) h.still_open) (record {
        still_open = failure_keeps_open s.breaker h.still_open;
        untouched = h.untouched;
        no_success = h.no_success;
      })

  group-IsStuck :
      (pms : List PlannedMigration) (errors : List (String × Option String)) (w : engine.World)
      (s : State engine)
      → IsStuck w s
      → IsStuck w (execute_group engine pms errors s).1
  unfolding execute_group
  group-IsStuck [] errors w s h = h
  group-IsStuck (pm ∷ pms) errors w s h = group-IsStuck pms _ w _ (single-IsStuck pm w s h)

  check_failures_keeps :
      (errors : List (String × Option String)) (r : MigrationResult)
      → (check_failures engine errors r).success_count ≡ r.success_count
  unfolding check_failures
  check_failures_keeps [] r = refl
  check_failures_keeps ((name, none) ∷ rest) r = check_failures_keeps rest r
  check_failures_keeps ((name, some e) ∷ rest) r = check_failures_keeps rest _

  run_group-IsStuck :
      (group : List PlannedMigration) (w : engine.World) (s : State engine)
      → IsStuck w s
      → IsStuck w (run_group engine group s)
  unfolding run_group
  run_group-IsStuck group w s h =
      let g = group-IsStuck group [] w s h in
      record {
        still_open = g.still_open;
        untouched = g.untouched;
        no_success =
            check_failures_keeps (execute_group engine group [] s).0
              (execute_group engine group [] s).1.result
            ∙ g.no_success;
      }

  -- Once the breaker is open, executing any plan, its migrations one after the other, does no work
  -- outside, completes no migration, and leaves the breaker open.
  pub execute_plan-IsStuck :
      (groups : List (List PlannedMigration)) (b : CircuitBreaker) (w : engine.World)
      → b.is_open ≡ true
      → IsStuck w (execute_plan engine groups b w)
  unfolding execute_plan run_groups
  execute_plan-IsStuck [] b w h = record { still_open = h; untouched = refl; no_success = refl }
  execute_plan-IsStuck (group ∷ groups) b w h =
      let start : State engine = record { breaker = b; result = new_result engine; world = w } in
      let g =
        run_group-IsStuck group w start
          (record { still_open = h; untouched = refl; no_success = refl }) in
      rw g.still_open
        (record { still_open = g.still_open; untouched = g.untouched; no_success = g.no_success })
