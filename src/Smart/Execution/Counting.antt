-- ===== src/Smart/Execution/Counting.antt =====
-- How the failures of a group are counted.
use reposhift.Common.{
  ℕ, ◌+◌, ◌*◌, ◌≡◌, refl, String, Bool, true, false, ◌&&◌, not, Option, none, some, List, [], ◌∷◌,
  all, any, count_if, str_eq, arith, inl, inr, Bool-cases, if◌then◌else◌,
}
use reposhift.Smart.Types.{PlannedMigration}
use reposhift.Smart.Retrying.{execute_with_smart_retry}
use reposhift.Smart.Execution.{
  Engine, State, MigrationResult, put, record_result, attempt_of, execute_single_migration,
  execute_group, check_failures, run_group,
}

abbrev pub Errors : Type 0
Errors = List (String × Option String)

abbrev is_error : Option String → Bool
is_error none = false
is_error (some e) = true

-- how many migrations failed
abbrev pub failures : Errors → ℕ
failures errors = count_if (λ p. is_error p.1) errors

abbrev has : String → Errors → Bool
has name errors = any (λ p. str_eq p.0 name) errors

abbrev distinct_names : List PlannedMigration → Bool
distinct_names [] = true
distinct_names (pm ∷ pms) = all (λ q. not (str_eq pm.name q.name)) pms && distinct_names pms

failures-put :
    (name : String) (o : Option String) (errors : Errors)
    → has name errors ≡ false
    → failures (put name o errors) ≡ failures errors + (if is_error o then 1 else 0)
failures-put name o [] h = omega arith
failures-put name o (p ∷ rest) h = elim (Bool-cases (str_eq p.0 name)) [
  | inl same ↦ absurd (ground (arith, h, same))
  | inr other ↦ rw other (omega (arith, failures-put name o rest (ground (arith, h))))
]

has-put :
    (n name : String) (o : Option String) (errors : Errors)
    → str_eq name n ≡ false
    → has n errors ≡ false
    → has n (put name o errors) ≡ false
has-put n name o [] d h = ground (arith, d)
has-put n name o (p ∷ rest) d h = elim (Bool-cases (str_eq p.0 name)) [
  | inl same ↦ rw same (ground (arith, d, h))
  | inr other ↦ rw other (ground (arith, h, has-put n name o rest d))
]

-- the migrations of a list have no error yet
abbrev fresh : List PlannedMigration → Errors → Bool
fresh pms errors = all (λ q. not (has q.name errors)) pms

fresh-put :
    (pm : PlannedMigration) (pms : List PlannedMigration) (o : Option String) (errors : Errors)
    → all (λ q. not (str_eq pm.name q.name)) pms ≡ true
    → fresh pms errors ≡ true
    → fresh pms (put pm.name o errors) ≡ true
fresh-put pm [] o errors d f = refl
fresh-put pm (q ∷ qs) o errors d f =
    ground (arith, d, f, has-put q.name pm.name o errors, fresh-put pm qs o errors)

fresh-nil : (pms : List PlannedMigration) → fresh pms [] ≡ true
fresh-nil [] = refl
fresh-nil (pm ∷ pms) = fresh-nil pms

module _ (engine : Engine) where
  record_result_count :
      (pm : PlannedMigration) (r : MigrationResult) (o : Option String × _)
      → (record_result engine pm r o).1.result.failed_count
        ≡ r.failed_count + (if is_error (record_result engine pm r o).0 then 1 else 0)
  unfolding record_result
  record_result_count pm r (none, s) = omega arith
  record_result_count pm r (some e, s) = refl

  single_count :
      (pm : PlannedMigration) (s : State engine)
      → (execute_single_migration engine pm s).1.result.failed_count
        ≡ s.result.failed_count
          + (if is_error (execute_single_migration engine pm s).0 then 1 else 0)
  unfolding execute_single_migration
  single_count pm s =
      record_result_count pm s.result
        (execute_with_smart_retry (attempt_of engine pm) (s.breaker, s.world))

  group_count :
      (pms : List PlannedMigration) (errors : Errors) (s : State engine)
      → distinct_names pms ≡ true
      → fresh pms errors ≡ true
      → (execute_group engine pms errors s).1.result.failed_count + failures errors
        ≡ s.result.failed_count + failures (execute_group engine pms errors s).0
  unfolding execute_group
  group_count [] errors s d f = refl
  group_count (pm ∷ pms) errors s d f =
      let (o, s') = execute_single_migration engine pm s in
      omega (
        arith,
        single_count pm s,
        failures-put pm.name o errors (ground (arith, f)),
        group_count pms (put pm.name o errors) s' (ground (arith, d))
            (fresh-put pm pms o errors (ground (arith, d)) (ground (arith, f))),
      )

  check_count :
      (errors : Errors) (r : MigrationResult)
      → (check_failures engine errors r).failed_count ≡ r.failed_count + failures errors
  unfolding check_failures
  check_count [] r = omega arith
  check_count ((name, none) ∷ rest) r = omega (arith, check_count rest r)
  check_count ((name, some e) ∷ rest) r = omega (
    arith,
    check_count rest
        (record r { results = put name (some e) r.results; failed_count = r.failed_count + 1 }),
  )

  -- Where the migrations of a group have distinct names, each that fails adds two to the count of
  -- failed migrations.
  pub run_group_doubles :
      (group : List PlannedMigration) (s : State engine)
      → distinct_names group ≡ true
      → (run_group engine group s).result.failed_count
        ≡ s.result.failed_count + 2 * failures (execute_group engine group [] s).0
  unfolding run_group
  run_group_doubles group s d =
      let (errors, s') = execute_group engine group [] s in
      omega (arith, check_count errors s'.result, group_count group [] s d (fresh-nil group))
