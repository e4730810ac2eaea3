-- ===== src/MonoRepo/Refines/Reconcile.antt =====
-- A reconciliation of a monorepo migration makes one move of the machine, or none.
use reposhift.Common.{
  ◌≡◌, refl, sym, ap, ◌⊎◌, inl, inr, String, Bool, true, false, Option, none, some, arith,
}
use reposhift.Common.State.{M, ◌>>=◌, ◌>>◌, pure}
use reposhift.Common.State.Leads.{Leads, Keeps, Leads-bind, Leads-then, Leads-pure}
use reposhift.MonoRepo.Types.{MonoPhase, MonoStatus, MonoMigration}
use reposhift.MonoRepo.Env.{Env, St, Outcome, Updated, updated, rejected}
use reposhift.MonoRepo.Action.{reads}
use reposhift.MonoRepo.Annotations.{
  retried, retry_migration, is_finished, is_failed_phase, after_trigger, handle_trigger,
  handle_pause, cancelled_at, handle_cancel, after_retry, handle_retry, handle_by,
  handle_annotations, without_mono_annotation,
}
use reposhift.MonoRepo.Reconcile.{
  initial_status, initialize_status, process_phase, with_finalizer, handle_finalizer,
  after_annotations, after_finalizer, reconcile_found,
}
use reposhift.MonoRepo.Machine.{Moves, Works, works, initializes, pauses, cancels, retries}
use reposhift.MonoRepo.Saves.{
  Server, At, Saved, At-now, At-event, At-send, At-change, At-edit, At-reads, At-update,
  status_update-saves, save_and-saves,
}
use reposhift.MonoRepo.Refines.Cloning.{Reorders}
use reposhift.MonoRepo.Refines.Pushing.{Keeps-cleanup_workspace}
use reposhift.MonoRepo.Refines.Phases.{process_phase-saves}

module _ (e : Env) (server : Server e) (b : MonoStatus) where
  initialize_status-saves :
      b.phase ≡ MonoPhase.unset
      → Leads (At e server b b) (Saved e server b (Moves b)) (initialize_status e)
  unfolding initialize_status initial_status
  initialize_status-saves h = Leads-bind _ _ (At-now e server) λ t. At-reads e server _ _ λ m same.
      Leads-then _ _ (At-change e server _) (
        Leads-then _ _ (At-send e server _) (
          Leads-then _ _ (At-event e server _) (
            Leads-bind _ _ (status_update-saves e server (initializes h refl))
              (λ error. Leads-pure _))))

  -- One move was sent to the server, or nothing was.
  abbrev pub MovesOrNot : St e.World → Type 0
  MovesOrNot s = Saved e server b (Moves b) s ⊎ (server.stored s.world ≡ b)

  Leads-moves :
      {A : Type 0} {m : M (St e.World) A}
      → Leads (At e server b b) (Saved e server b (Moves b)) m
      → Leads (At e server b b) MovesOrNot m
  Leads-moves k = record { at = λ s h. inl (k.at s h) }

  -- what a phase stores is a move
  Saved-works : (s : St e.World) → Saved e server b (Works b) s → Saved e server b (Moves b) s
  Saved-works s h = record {
    before = h.before;
    saved = h.saved;
    before_lem = h.before_lem;
    allowed = works h.allowed;
    world_lem = h.world_lem;
  }

  Leads-works :
      {A : Type 0} {m : M (St e.World) A}
      → Leads (At e server b b) (Saved e server b (Works b)) m
      → Leads (At e server b b) MovesOrNot m
  Leads-works k = record { at = λ s h. inl (Saved-works _ (k.at s h)) }

  Leads-idle :
      {A : Type 0} {m : M (St e.World) A}
      → Keeps (At e server b b) m
      → Leads (At e server b b) MovesOrNot m
  Leads-idle k = record { at = λ s h. inr (k.at s h).stored_lem }

  retry_migration-saves :
      is_finished b.phase ≡ true
      → Leads (At e server b b) (Saved e server b (Moves b)) (retry_migration e)
  unfolding retry_migration retried
  retry_migration-saves h = Leads-then _ _ (Keeps-cleanup_workspace e server b) (
      Leads-then _ _ (At-change e server retried)
        (Leads-then _ _ (At-event e server _) (save_and-saves e server _ (retries h refl refl))))

  -- after an action that may have an outcome: without one, nothing was written
  abbrev After : Option Outcome → St e.World → Type 0
  After none s = At e server b b s
  After (some outcome) s = MovesOrNot s

  record LeadsIf (c : MonoStatus) (m : M (St e.World) (Option Outcome)) : Type 0 where
    at : (s : St e.World) → At e server b c s → After (m s).0 (m s).1

  LeadsIf-bind :
      {A : Type 0} {c d : MonoStatus} (m : M (St e.World) A)
      (f : A → M (St e.World) (Option Outcome))
      → Leads (At e server b c) (At e server b d) m
      → ((a : A) → LeadsIf d (f a))
      → LeadsIf c (m >>= f)
  unfolding ◌>>=◌
  LeadsIf-bind m f k g = record { at = λ s h. (g (m s).0).at (m s).1 (k.at s h) }

  LeadsIf-reads :
      {A : Type 0} {c : MonoStatus} (f : MonoMigration → A)
      (g : A → M (St e.World) (Option Outcome))
      → ((m : MonoMigration) → m.status ≡ c → LeadsIf c (g (f m)))
      → LeadsIf c (reads f >>= g)
  unfolding ◌>>=◌ reads
  LeadsIf-reads f g k = record { at = λ s h. (k s.migration h.copy_lem).at s h }

  LeadsIf-then :
      {A : Type 0} {c d : MonoStatus} (m : M (St e.World) A) (n : M (St e.World) (Option Outcome))
      → Leads (At e server b c) (At e server b d) m
      → LeadsIf d n
      → LeadsIf c (m >> n)
  unfolding ◌>>◌
  LeadsIf-then m n k l = record { at = λ s h. l.at (m s).1 (k.at s h) }

  LeadsIf-some :
      (m : M (St e.World) Outcome)
      → Leads (At e server b b) MovesOrNot m
      → LeadsIf b (m >>= λ outcome. pure (some outcome))
  unfolding ◌>>=◌ pure
  LeadsIf-some m k = record { at = k.at }

  LeadsIf-idle : (o : Outcome) → LeadsIf b (pure (some o))
  unfolding pure
  LeadsIf-idle o = record { at = λ s h. inr h.stored_lem }

  LeadsIf-none : LeadsIf b (pure none)
  unfolding pure
  LeadsIf-none = record { at = λ s h. h }

  -- an update, and then an outcome
  LeadsIf-saves :
      {c : MonoStatus} (m : M (St e.World) (Option String)) (f : Option String → Outcome)
      → Leads (At e server b c) (Saved e server b (Moves b)) m
      → LeadsIf c (m >>= λ error. pure (some (f error)))
  unfolding ◌>>=◌ pure
  LeadsIf-saves m f k = record { at = λ s h. inl (k.at s h) }

  after_trigger-leads :
      (finished : Bool) (u : Updated)
      → is_finished b.phase ≡ finished
      → LeadsIf b (after_trigger e finished u)
  unfolding after_trigger
  after_trigger-leads finished (rejected error) h = LeadsIf-idle _
  after_trigger-leads true (updated m) h = LeadsIf-some _ (Leads-moves (retry_migration-saves h))
  after_trigger-leads false (updated m) h = LeadsIf-idle _

  handle_trigger-leads : LeadsIf b (handle_trigger e)
  unfolding handle_trigger without_mono_annotation
  handle_trigger-leads = LeadsIf-then _ _ (At-edit e server _ (λ m. refl)) (
      LeadsIf-bind _ _ (At-update e server) λ u.
        LeadsIf-reads _ _ λ m same.
          after_trigger-leads _ u (sym (ap (λ (x : MonoStatus). is_finished x.phase) same)))

  handle_pause-leads : (paused : Bool) → LeadsIf b (handle_pause e paused)
  unfolding handle_pause
  handle_pause-leads true = LeadsIf-idle _
  handle_pause-leads false = LeadsIf-then _ _ (At-change e server _) (
      LeadsIf-then _ _ (At-send e server _) (
        LeadsIf-then _ _ (At-event e server _)
          (LeadsIf-saves _ _ (status_update-saves e server (pauses refl refl)))))

  handle_cancel-leads : (cancelled : Bool) → LeadsIf b (handle_cancel e cancelled)
  unfolding handle_cancel cancelled_at
  handle_cancel-leads true = LeadsIf-idle _
  handle_cancel-leads false = LeadsIf-bind _ _ (At-now e server) λ t.
      LeadsIf-then _ _ (At-change e server (cancelled_at t)) (
        LeadsIf-then _ _ (At-send e server _) (
          LeadsIf-then _ _ (At-event e server _)
            (LeadsIf-saves _ _ (status_update-saves e server (cancels refl refl)))))

  failed-finished : (p : MonoPhase) → is_failed_phase p ≡ true → is_finished p ≡ true
  unfolding is_failed_phase is_finished
  failed-finished p h = ground arith

  after_retry-leads :
      (failed : Bool) (u : Updated)
      → is_failed_phase b.phase ≡ failed
      → LeadsIf b (after_retry e failed u)
  unfolding after_retry
  after_retry-leads failed (rejected error) h = LeadsIf-idle _
  after_retry-leads true (updated m) h =
      LeadsIf-some _ (Leads-moves (retry_migration-saves (failed-finished b.phase h)))
  after_retry-leads false (updated m) h = LeadsIf-none

  handle_retry-leads : LeadsIf b (handle_retry e)
  unfolding handle_retry without_mono_annotation
  handle_retry-leads = LeadsIf-then _ _ (At-edit e server _ (λ m. refl)) (
      LeadsIf-bind _ _ (At-update e server) λ u. LeadsIf-reads _ _ λ m same.
        after_retry-leads _ u (sym (ap (λ (x : MonoStatus). is_failed_phase x.phase) same)))

  handle_by-leads :
      (trigger pause cancel retry : Option String) (phase : MonoPhase)
      → LeadsIf b (handle_by e trigger pause cancel retry phase)
  unfolding handle_by
  handle_by-leads (some value) pause cancel retry phase = handle_trigger-leads
  handle_by-leads none (some value) cancel retry phase = handle_pause-leads _
  handle_by-leads none none (some value) retry phase = handle_cancel-leads _
  handle_by-leads none none none (some value) phase = handle_retry-leads
  handle_by-leads none none none none phase = LeadsIf-none

  handle_annotations-leads : LeadsIf b (handle_annotations e)
  unfolding handle_annotations
  handle_annotations-leads = LeadsIf-reads _ _ (λ m same. handle_by-leads _ _ _ _ _)

  handle_finalizer-leads : (x y : Bool) → LeadsIf b (handle_finalizer e x y)
  unfolding handle_finalizer with_finalizer
  handle_finalizer-leads false true = LeadsIf-none
  handle_finalizer-leads false false =
      LeadsIf-bind _ _ (Leads-then _ _ (At-edit e server _ (λ m. refl)) (At-update e server))
        (λ u. LeadsIf-idle _)
  handle_finalizer-leads true true = LeadsIf-then _ _ (Keeps-cleanup_workspace e server b) (
      LeadsIf-bind _ _ (Leads-then _ _ (At-edit e server _ (λ m. refl)) (At-update e server))
        (λ u. LeadsIf-idle _))
  handle_finalizer-leads true false = LeadsIf-idle _

  process_phase-Leads :
      Reorders e
      → (phase : MonoPhase) → b.phase ≡ phase
      → Leads (At e server b b) MovesOrNot (process_phase e phase)
  unfolding process_phase
  process_phase-Leads r MonoPhase.unset h = Leads-moves (initialize_status-saves h)
  process_phase-Leads r MonoPhase.completed h = Leads-idle (Leads-pure _)
  process_phase-Leads r MonoPhase.failed h = Leads-idle (Leads-pure _)
  process_phase-Leads r MonoPhase.cancelled h = Leads-idle (Leads-pure _)
  process_phase-Leads r MonoPhase.paused h = Leads-idle (Leads-pure _)
  process_phase-Leads r MonoPhase.pending h =
      Leads-works (process_phase-saves e server b r MonoPhase.pending h refl)
  process_phase-Leads r MonoPhase.validating h =
      Leads-works (process_phase-saves e server b r MonoPhase.validating h refl)
  process_phase-Leads r MonoPhase.cloning h =
      Leads-works (process_phase-saves e server b r MonoPhase.cloning h refl)
  process_phase-Leads r MonoPhase.rewriting h =
      Leads-works (process_phase-saves e server b r MonoPhase.rewriting h refl)
  process_phase-Leads r MonoPhase.merging h =
      Leads-works (process_phase-saves e server b r MonoPhase.merging h refl)
  process_phase-Leads r MonoPhase.pushing h =
      Leads-works (process_phase-saves e server b r MonoPhase.pushing h refl)

  after_annotations-moves :
      Reorders e
      → (o : Option Outcome) (s : St e.World) → After o s
      → MovesOrNot (after_annotations e o s).1
  unfolding after_annotations pure ◌>>=◌ reads
  after_annotations-moves r (some outcome) s h = h
  after_annotations-moves r none s h =
      (process_phase-Leads r s.migration.status.phase
          (ap (λ (x : MonoStatus). x.phase) (sym h.copy_lem))).at
        s h

  after_finalizer-moves :
      Reorders e
      → (o : Option Outcome) (s : St e.World) → After o s
      → MovesOrNot (after_finalizer e o s).1
  unfolding after_finalizer pure ◌>>=◌
  after_finalizer-moves r (some outcome) s h = h
  after_finalizer-moves r none s h = after_annotations-moves r _ _ (handle_annotations-leads.at s h)

  pub reconcile_found-moves :
      Reorders e → (s : St e.World) → At e server b b s → MovesOrNot (reconcile_found e s).1
  unfolding reconcile_found ◌>>=◌ reads
  reconcile_found-moves r s h =
      let m = s.migration in
      after_finalizer-moves r _ _ ((handle_finalizer-leads m.deleting m.has_finalizer).at s h)
