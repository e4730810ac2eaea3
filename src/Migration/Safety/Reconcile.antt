-- ===== src/Migration/Safety/Reconcile.antt =====
-- Reconcile as a whole: a valid status stays valid, and no reconciliation panics.
use reposhift.Common.{ℕ, ◌≡◌, ◌≢◌, refl, ap, String, Bool, true, false, Option, none, some}
use reposhift.Migration.Types.{MigrationPhase, MigrationSpec, MigrationStatus}
use reposhift.Migration.Env.{Env, St, Outcome, panics, Updated, updated, gone, rejected}
use reposhift.Migration.Action.{M, ◌>>=◌, ◌>>◌, pure, gets, modify, now, returned}
use reposhift.Migration.Annotations.{
  pause_migration, cancel_migration, after_removal, triggered, pause_unless, cancel_if,
  annotations_by, handle_annotations,
}
use reposhift.Migration.Reconcile.{
  initialized, initialize_status, process_pending, process_paused, process_phase, added, removed,
  add_finalizer, handle_deletion, finalizer_by, handle_finalizer_and_deletion, observe_if,
  update_observed_generation, after_annotations, after_finalizer, proceed, reconcile_by,
  reconcile_found,
}
use reposhift.Migration.Valid.{IsValid, count_status}
use reposhift.Migration.Keeps.{
  Keeps, Ends, EndsIf, Inv, Stable, Answers, Keeps-pure, Keeps-gets, Ends-pure, Keeps-bind,
  Ends-bind, Ends-then, Keeps-event, Keeps-send, Keeps-modify, Keeps-now, Keeps-status_update,
  Keeps-update, Keeps-edit,
}
use reposhift.Migration.Safety.{
  completion_time-IsValid, save_and-Ends, restart-Ends, drop_annotation-status, Keeps-condition,
  Keeps-observed,
}
use reposhift.Migration.Safety.Running.{process_running-Finishes}
use reposhift.Migration.Safety.Phases.{
  Keeps-phase, Keeps-step, process_validating-Ends, process_syncing-Ends,
}

initialized-IsValid :
    (t g : ℕ) (spec : MigrationSpec) (b : MigrationStatus)
    → IsValid b
    → b.phase ≡ MigrationPhase.unset
    → IsValid (initialized t g spec b)
unfolding initialized count_status
initialized-IsValid t g spec b v u =
    let none_yet = v.unset_lem u in
    record {
      counted = record { completed_lem = rw none_yet refl; failed_lem = rw none_yet refl };
      unset_lem = λ h. none_yet;
      statistics_lem = λ h. refl;
    }

some_injective : {x y : Outcome} → some x ≡ some y → x ≡ y
some_injective p = cc

added-ne-panics : (u : Updated) → added u ≢ panics
added-ne-panics (updated m) p = cc
added-ne-panics (gone error) p = cc
added-ne-panics (rejected error) p = cc

removed-ne-panics : (u : Updated) → removed u ≢ panics
removed-ne-panics (updated m) p = cc
removed-ne-panics (gone error) p = cc
removed-ne-panics (rejected error) p = cc

module _ (e : Env) {P : e.World → Type 0} (k : Stable e IsValid P) (a : Answers e IsValid P) where
  initialize_status-IsValid :
      (s : St e.World)
      → Inv IsValid P s
      → s.migration.status.phase ≡ MigrationPhase.unset
      → ((initialize_status e s).0 ≢ panics) × Inv IsValid P (initialize_status e s).1
  unfolding initialize_status ◌>>=◌ ◌>>◌ now gets modify pure
  initialize_status-IsValid s i u =
      let m = s.migration in
      let v1 : Inv IsValid P
          (modify (initialized (e.now s.world).0 m.generation m.spec) (now e s).1).1 =
        record {
          world = k.now _ i.world;
          valid = initialized-IsValid _ m.generation m.spec m.status i.valid u;
        } in
      let v2 = (Keeps-send e _).at _ v1 in
      let v3 = (Keeps-event e _).at _ v2 in (λ p. cc, (Keeps-status_update e k).at _ v3)

  process_pending-Ends : Ends (Inv IsValid P) (process_pending e)
  unfolding process_pending
  process_pending-Ends = Ends-then _ _ (Keeps-phase e k _ (λ p. cc)) (
      Ends-then _ _ (Keeps-step e k _) (
        Ends-then _ _ (Keeps-send e _) (
          Ends-then _ _ (Keeps-event e _)
            (Ends-bind _ _ (Keeps-status_update e k) (λ x. Ends-pure _ (λ p. cc))))))

  stops : (s : St e.World) → Inv IsValid P s → (returned none ≢ panics) × Inv IsValid P s
  stops s i = (λ p. cc, i)

  process_phase-IsValid :
      (phase : MigrationPhase) (s : St e.World)
      → Inv IsValid P s
      → s.migration.status.phase ≡ phase
      → ((process_phase e phase s).0 ≢ panics) × Inv IsValid P (process_phase e phase s).1
  unfolding process_phase process_paused pure
  process_phase-IsValid MigrationPhase.unset s i h = initialize_status-IsValid s i h
  process_phase-IsValid MigrationPhase.pending s i h = process_pending-Ends.at s i
  process_phase-IsValid MigrationPhase.validating s i h = (process_validating-Ends e k).at s i
  process_phase-IsValid MigrationPhase.running s i h =
      process_running-Finishes e k s
        (record { world = i.world; valid = record { valid = i.valid; phase_lem = λ p. cc (h, p) } })
  process_phase-IsValid MigrationPhase.paused s i h = (λ p. cc, i)
  process_phase-IsValid MigrationPhase.syncing s i h = (process_syncing-Ends e k).at s i
  process_phase-IsValid MigrationPhase.completed s i h = stops s i
  process_phase-IsValid MigrationPhase.failed s i h = stops s i
  process_phase-IsValid MigrationPhase.cancelled s i h = stops s i
  process_phase-IsValid (MigrationPhase.other phase) s i h = stops s i

  pause_migration-Ends : Ends (Inv IsValid P) (pause_migration e)
  unfolding pause_migration
  pause_migration-Ends = Ends-then _ _ (Keeps-phase e k _ (λ p. cc)) (
      Ends-then _ _ (Keeps-step e k _) (
        Ends-then _ _ (Keeps-condition e k _ _ _ _) (
          Ends-then _ _ (Keeps-send e _) (
            Ends-then _ _ (Keeps-event e _)
              (Ends-bind _ _ (Keeps-status_update e k) (λ x. Ends-pure _ (λ p. cc)))))))

  cancel_migration-Ends : Ends (Inv IsValid P) (cancel_migration e)
  unfolding cancel_migration
  cancel_migration-Ends = Ends-then _ _ (Keeps-phase e k _ (λ p. cc)) (
      Ends-then _ _ (Keeps-step e k _) (
        Ends-bind _ _ (Keeps-now e k) λ t.
          Ends-then _ _ (Keeps-modify e _ (completion_time-IsValid t)) (
            Ends-then _ _ (Keeps-condition e k _ _ _ _) (
              Ends-then _ _ (Keeps-condition e k _ _ _ _) (
                Ends-then _ _ (Keeps-send e _)
                  (Ends-then _ _ (Keeps-event e _) (save_and-Ends e k _ (λ p. cc))))))))

  after_removal-Ends : (b : Bool) (u : Updated) → Ends (Inv IsValid P) (after_removal e b u)
  unfolding after_removal
  after_removal-Ends b (gone error) = Ends-pure _ (λ p. cc)
  after_removal-Ends b (rejected error) = Ends-pure _ (λ p. cc)
  after_removal-Ends true (updated m) = restart-Ends e k
  after_removal-Ends false (updated m) = Ends-pure _ (λ p. cc)

  triggered-Ends : (value : String) → Ends (Inv IsValid P) (triggered e value)
  unfolding triggered
  triggered-Ends value = Ends-then _ _ (Keeps-condition e k _ _ _ _) (
      Ends-bind _ _ (Keeps-gets _) λ b. Ends-then _ _ (Keeps-event e _) (
        Ends-then _ _ (Keeps-edit e _ (λ m. drop_annotation-status m))
          (Ends-bind _ _ (Keeps-update e a) (λ u. after_removal-Ends b u))))

  -- a handler as one that may have no outcome
  EndsIf-some :
      (m : M e.World Outcome)
      → Ends (Inv IsValid P) m
      → EndsIf (Inv IsValid P) (m >>= λ outcome. pure (some outcome))
  unfolding ◌>>=◌ pure
  EndsIf-some m h = record { at = λ s i. let (n, j) = h.at s i in (λ p. n (some_injective p), j) }

  EndsIf-pure :
      (o : Option Outcome) → o ≢ some panics → EndsIf {W = e.World} (Inv IsValid P) (pure o)
  unfolding pure
  EndsIf-pure o n = record { at = λ s i. (n, i) }

  pause_unless-EndsIf : (b : Bool) → EndsIf (Inv IsValid P) (pause_unless e b)
  unfolding pause_unless
  pause_unless-EndsIf true = EndsIf-pure _ (λ p. cc)
  pause_unless-EndsIf false = EndsIf-some _ pause_migration-Ends

  cancel_if-EndsIf : (b : Bool) → EndsIf (Inv IsValid P) (cancel_if e b)
  unfolding cancel_if
  cancel_if-EndsIf true = EndsIf-pure _ (λ p. cc)
  cancel_if-EndsIf false = EndsIf-some _ cancel_migration-Ends

  annotations_by-EndsIf :
      (trigger pause cancel : Option String) (phase : MigrationPhase)
      → EndsIf (Inv IsValid P) (annotations_by e trigger pause cancel phase)
  unfolding annotations_by
  annotations_by-EndsIf (some value) pause cancel phase = EndsIf-some _ (triggered-Ends value)
  annotations_by-EndsIf none (some value) cancel phase = pause_unless-EndsIf _
  annotations_by-EndsIf none none (some value) phase = cancel_if-EndsIf _
  annotations_by-EndsIf none none none phase = EndsIf-pure none (λ p. cc)

  finalizer_by-EndsIf : (x y : Bool) → EndsIf (Inv IsValid P) (finalizer_by e x y)
  unfolding finalizer_by add_finalizer handle_deletion
  finalizer_by-EndsIf false true = EndsIf-pure _ (λ p. cc)
  finalizer_by-EndsIf false false = EndsIf-some _ (
      Ends-then _ _ (Keeps-edit e _ (λ m. refl))
        (Ends-bind _ _ (Keeps-update e a) (λ u. Ends-pure _ (added-ne-panics u))))
  finalizer_by-EndsIf true true = EndsIf-some _ (
      Ends-then _ _ (Keeps-edit e _ (λ m. refl))
        (Ends-bind _ _ (Keeps-update e a) (λ u. Ends-pure _ (removed-ne-panics u))))
  finalizer_by-EndsIf true false = EndsIf-pure _ (λ p. cc)

  Keeps-observe_if : (b : Bool) → Keeps (Inv IsValid P) (observe_if e b)
  unfolding observe_if
  Keeps-observe_if false = Keeps-pure _
  Keeps-observe_if true =
      Keeps-bind _ _ (Keeps-now e k) λ t. Keeps-bind _ _ (Keeps-gets _) λ m. Keeps-observed e k t _

  -- what follows an action that may have given an outcome
  after_annotations-IsValid :
      (o : Option Outcome) (s : St e.World)
      → o ≢ some panics
      → Inv IsValid P s
      → ((after_annotations e o s).0 ≢ panics) × Inv IsValid P (after_annotations e o s).1
  unfolding after_annotations pure ◌>>=◌ gets
  after_annotations-IsValid (some outcome) s n i = (λ p. n (ap some p), i)
  after_annotations-IsValid none s n i = process_phase-IsValid s.migration.status.phase s i refl

  after_finalizer-IsValid :
      (o : Option Outcome) (s : St e.World)
      → o ≢ some panics
      → Inv IsValid P s
      → ((after_finalizer e o s).0 ≢ panics) × Inv IsValid P (after_finalizer e o s).1
  unfolding after_finalizer pure ◌>>=◌ handle_annotations gets
  after_finalizer-IsValid (some outcome) s n i = (λ p. n (ap some p), i)
  after_finalizer-IsValid none s n i =
      let (n1, i1) = (annotations_by-EndsIf _ _ _ s.migration.status.phase).at s i in
      after_annotations-IsValid _ _ n1 i1

  proceed_rest : Ends (Inv IsValid P) (handle_finalizer_and_deletion e >>= after_finalizer e)
  unfolding handle_finalizer_and_deletion ◌>>=◌ gets
  proceed_rest = record {
    at = λ s i.
        let m = s.migration in
        let (n, j) = (finalizer_by-EndsIf m.deleting m.has_finalizer).at s i in
        after_finalizer-IsValid _ _ n j;
  }

  proceed-Ends : Ends (Inv IsValid P) (proceed e)
  unfolding proceed update_observed_generation
  proceed-Ends =
      Ends-then _ _ (Keeps-bind _ _ (Keeps-gets _) (λ m. Keeps-observe_if _)) proceed_rest

  reconcile_by-Ends : (x y : Bool) → Ends (Inv IsValid P) (reconcile_by e x y)
  unfolding reconcile_by
  reconcile_by-Ends false y = proceed-Ends
  reconcile_by-Ends true true = restart-Ends e k
  reconcile_by-Ends true false = Ends-then _ _ (Keeps-send e _) proceed-Ends

  pub reconcile_found-Ends : Ends (Inv IsValid P) (reconcile_found e)
  unfolding reconcile_found
  reconcile_found-Ends = Ends-bind _ _ (Keeps-gets _) (λ m. reconcile_by-Ends _ _)
