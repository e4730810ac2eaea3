-- ===== src/Migration/Safety.antt =====
-- Every handler of the migration controller keeps a valid status and does not panic.
pub mod Resource
pub mod Running
pub mod Phases
pub mod Reconcile
use reposhift.Common.{
  ℕ, ◌+◌, ◌==◌, ◌≡◌, ◌≢◌, refl, sym, ◌∙◌, ap, String, Bool, true, false, Option, none, some, List,
  [], ◌∷◌, length, Bool-cases, inl, inr,
}
use reposhift.Common.Int.{ℤ, pos}
use reposhift.Migration.Conditions.{set_condition}
use reposhift.Migration.Types.{
  MigrationPhase, MigrationResource, ResourceMigrationStatus, Condition, DefaultBranchInfo,
  RepositoryStateInfo, SyncSettings, MigrationStatistics, Migration, MigrationStatus,
}
use reposhift.Migration.Env.{Env, St, Outcome, returns, panics}
use reposhift.Migration.Action.{M, modify, status_update, pure, returned, requeued, ◌>>=◌, ◌>>◌}
use reposhift.Migration.Repository.{with_branch_info}
use reposhift.Migration.Restart.Diff.{is_none, new_resources, modified_resources, removed_ids}
use reposhift.Migration.Restart.{
  unless_error, save_and, observed, no_changes, restart_with, restart_by,
  restart_migration_for_spec_change,
}
use reposhift.Migration.Annotations.{drop_annotation, trigger_annotation}
use reposhift.Migration.Running.{
  with_phase, with_step, with_completion_time, with_statistics, with_duration, marked_failed,
  fail_migration, finish, finish_unless_nil, entered_sync, all_completed,
}
use reposhift.Migration.Valid.{IsValid, IsCounted, count_status, is_completed, is_failed}
use reposhift.Migration.Valid.Restart.{resumed-IsValid}
use reposhift.Migration.Keeps.{
  Keeps, Ends, Inv, Stable, IgnoresConditions, Keeps-pure, Keeps-gets, Ends-pure, Keeps-bind,
  Keeps-then, Ends-bind, Ends-then, Keeps-event, Keeps-send, Keeps-modify, Keeps-now,
  Keeps-status_update, Keeps-set_condition,
}

-- Changes that leave the counters, the start and the statistics alone, and do not unset the phase.
pub same_counts :
    (b c : MigrationStatus)
    → c.resource_statuses ≡ b.resource_statuses
    → c.progress.completed ≡ b.progress.completed
    → c.progress.failed ≡ b.progress.failed
    → (c.phase ≡ MigrationPhase.unset → b.phase ≡ MigrationPhase.unset)
    → c.start_time ≡ b.start_time
    → (is_none b.statistics ≡ false → is_none c.statistics ≡ false)
    → IsValid b
    → IsValid c
same_counts b c l p q u t s v = record {
  counted = record {
    completed_lem =
        p
        ∙ v.counted.completed_lem
        ∙ ap (λ (x : List ResourceMigrationStatus). pos (count_status is_completed x)) (sym l);
    failed_lem =
        q
        ∙ v.counted.failed_lem
        ∙ ap (λ (x : List ResourceMigrationStatus). pos (count_status is_failed x)) (sym l);
  };
  unset_lem = λ h. l ∙ v.unset_lem (u h);
  statistics_lem = λ h. s (v.statistics_lem (sym (ap is_none t) ∙ h));
}

conditions-IsValid : IgnoresConditions IsValid
conditions-IsValid b l v = same_counts b _ refl refl refl (λ h. h) refl (λ h. h) v

pub phase-IsValid :
    (phase : MigrationPhase)
    → phase ≢ MigrationPhase.unset
    → (b : MigrationStatus) → IsValid b
    → IsValid (with_phase phase b)
phase-IsValid phase n b v = same_counts b _ refl refl refl (λ h. elim (n h) [ ]) refl (λ h. h) v

pub step-IsValid : (step : String) (b : MigrationStatus) → IsValid b → IsValid (with_step step b)
step-IsValid step b v = same_counts b _ refl refl refl (λ h. h) refl (λ h. h) v

pub completion_time-IsValid :
    (t : ℕ) (b : MigrationStatus) → IsValid b → IsValid (with_completion_time t b)
completion_time-IsValid t b v = same_counts b _ refl refl refl (λ h. h) refl (λ h. h) v

observed-IsValid : (t g : ℕ) (b : MigrationStatus) → IsValid b → IsValid (observed t g b)
unfolding observed
observed-IsValid t g b v = same_counts b _ refl refl refl (λ h. h) refl (λ h. h) v

marked_failed-IsValid :
    (message : String) (b : MigrationStatus) → IsValid b → IsValid (marked_failed message b)
unfolding marked_failed
marked_failed-IsValid message b v = same_counts b _ refl refl refl (λ h. cc) refl (λ h. h) v

pub drop_annotation-status :
    (m : Migration) → (drop_annotation trigger_annotation m).status ≡ m.status
unfolding drop_annotation
drop_annotation-status m = refl

module _ (e : Env) {P : e.World → Type 0} (k : Stable e IsValid P) where
  pub Keeps-condition :
      (type : String) (status : Bool) (reason message : String)
      → Keeps (Inv IsValid P) (set_condition e type status reason message)
  Keeps-condition = Keeps-set_condition e k conditions-IsValid

  Keeps-observed : (t g : ℕ) → Keeps {W = e.World} (Inv IsValid P) (modify (observed t g))
  Keeps-observed t g = Keeps-modify e _ (observed-IsValid t g)

  unless_error-ne-panics :
      (done : Outcome) (error : Option String) → done ≢ panics → unless_error done error ≢ panics
  unless_error-ne-panics done none n = n
  unless_error-ne-panics done (some error) n = λ p. cc

  pub save_and-Ends : (done : Outcome) → done ≢ panics → Ends (Inv IsValid P) (save_and e done)
  unfolding save_and
  save_and-Ends done n =
      Ends-bind _ _ (Keeps-status_update e k)
        (λ error. Ends-pure _ (unless_error-ne-panics done error n))

  no_changes-Ends : (m : Migration) → Ends (Inv IsValid P) (no_changes e m)
  unfolding no_changes
  no_changes-Ends m = Ends-bind _ _ (Keeps-now e k) λ t.
      Ends-then _ _ (Keeps-observed t _)
        (Ends-then _ _ (Keeps-condition _ _ _ _) (save_and-Ends _ (λ p. cc)))

  restart_with-Ends : (m : Migration) (a b c : ℕ) → Ends (Inv IsValid P) (restart_with e m a b c)
  unfolding restart_with
  restart_with-Ends m a b c =
      Ends-then _ _ (Keeps-modify e _ (resumed-IsValid _ m.spec.resources)) (
        Ends-bind _ _ (Keeps-now e k) λ t. Ends-then _ _ (Keeps-observed t _) (
          Ends-then _ _ (Keeps-condition _ _ _ _) (
            Ends-then _ _ (Keeps-condition _ _ _ _) (
              Ends-then _ _ (Keeps-send e _)
                (Ends-then _ _ (Keeps-event e _) (save_and-Ends _ (λ p. cc)))))))

  restart_by-Ends : (m : Migration) (a b c : ℕ) → Ends (Inv IsValid P) (restart_by e m a b c)
  unfolding restart_by
  restart_by-Ends m a b c = elim (Bool-cases (a + b + c == 0)) [
    | inl same ↦ rw same (no_changes-Ends m)
    | inr changed ↦ rw changed (restart_with-Ends m a b c)
  ]

  pub restart-Ends : Ends (Inv IsValid P) (restart_migration_for_spec_change e)
  unfolding restart_migration_for_spec_change
  restart-Ends = Ends-bind _ _ (Keeps-gets _) (λ m. restart_by-Ends m _ _ _)

  pub fail_migration-Ends : (message : String) → Ends (Inv IsValid P) (fail_migration e message)
  unfolding fail_migration
  fail_migration-Ends message = Ends-then _ _ (Keeps-modify e _ (marked_failed-IsValid message)) (
      Ends-bind _ _ (Keeps-now e k) λ t.
        Ends-then _ _ (Keeps-modify e _ (completion_time-IsValid t)) (
          Ends-then _ _ (Keeps-condition _ _ _ _) (
            Ends-then _ _ (Keeps-condition _ _ _ _) (
              Ends-then _ _ (Keeps-send e _)
                (Ends-then _ _ (Keeps-event e _) (save_and-Ends _ (λ p. cc)))))))
