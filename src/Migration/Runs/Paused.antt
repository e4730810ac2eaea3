-- ===== src/Migration/Runs/Paused.antt =====
-- A migration that was paused.
use reposhift.Common.{
  ◌==◌, ◌≡◌, refl, sym, ◌∙◌, ap, subst, String, Bool, true, false, Option, none, some, not,
}
use reposhift.Migration.Types.{MigrationPhase, Migration, MigrationStatus}
use reposhift.Migration.Env.{
  Env, St, Updated, updated, gone, rejected, Fetched, found, not_found, get_error,
}
use reposhift.Migration.Action.{◌>>=◌, ◌>>◌, pure, gets, modify, now, send_web_socket_update}
use reposhift.Migration.Restart.{observed}
use reposhift.Migration.Annotations.{
  annotation, cancel_annotation, is_terminal_phase, is_paused, after_removal, triggered,
  pause_unless, annotations_by, handle_annotations,
}
use reposhift.Migration.Reconcile.{
  process_paused, process_phase, add_finalizer, handle_deletion, finalizer_by,
  handle_finalizer_and_deletion, observe_if, update_observed_generation, after_annotations,
  after_finalizer, proceed, reconcile_by, reconcile_found, reconcile_fetched, reconcile,
}
use reposhift.Migration.Keeps.{
  Keeps, Inv, Stable, Answers, Keeps-pure, Keeps-gets, Keeps-bind, Keeps-event, Keeps-send,
  Keeps-modify, Keeps-now, Keeps-update, Keeps-set_condition, Keeps-edit,
}
use reposhift.Migration.Safety.{drop_annotation-status}
use reposhift.Migration.Runs.{
  Server, Reach, begins, reconciles, edits, Stored, server-Stable, server-Answers, fetched-Inv,
}

abbrev IsPaused : MigrationStatus → Type 0
IsPaused b = b.phase ≡ MigrationPhase.paused

-- no object that is fetched carries the cancel annotation
abbrev NeverCancelled : Env → Type 0
NeverCancelled e =
    (w : e.World) (m : Migration)
    → e.get w ≡ found m
    → annotation cancel_annotation m.annotations ≡ none

module _ (e : Env) {P : e.World → Type 0} (k : Stable e IsPaused P) (a : Answers e IsPaused P) where
  after_removal-IsPaused :
      (b : Bool) (u : Updated) (s : St e.World)
      → b ≡ false
      → Inv IsPaused P s
      → Inv IsPaused P (after_removal e b u s).1
  unfolding after_removal pure
  after_removal-IsPaused b (gone error) s h i = i
  after_removal-IsPaused b (rejected error) s h i = i
  after_removal-IsPaused true (updated m) s h i = absurd (cc h)
  after_removal-IsPaused false (updated m) s h i = i

  terminal-IsPaused :
      (s : St e.World) → Inv IsPaused P s → is_terminal_phase s.migration.status.phase ≡ false
  unfolding is_terminal_phase
  terminal-IsPaused s i = rw i.valid refl

  triggered-IsPaused :
      (value : String) (s : St e.World) → Inv IsPaused P s → Inv IsPaused P (triggered e value s).1
  unfolding triggered ◌>>=◌ ◌>>◌ gets
  triggered-IsPaused value s i =
      let i1 = (Keeps-set_condition e k (λ b l h. h) _ _ _ _).at s i in
      let i2 = (Keeps-event e _).at _ i1 in
      let i3 = (Keeps-edit e _ (λ m. drop_annotation-status m)).at _ i2 in
      let i4 = (Keeps-update e a).at _ i3 in
      after_removal-IsPaused _ _ _ (terminal-IsPaused _ i1) i4

  process_phase-IsPaused :
      (phase : MigrationPhase) (s : St e.World)
      → phase ≡ MigrationPhase.paused
      → Inv IsPaused P s
      → Inv IsPaused P (process_phase e phase s).1
  unfolding process_phase process_paused pure
  process_phase-IsPaused phase s h i = rw h i

  -- the annotations, and the phase where they give no outcome
  annotated-IsPaused :
      (trigger pause : Option String) (s : St e.World)
      → Inv IsPaused P s
      → Inv IsPaused P
          ((annotations_by e trigger pause none MigrationPhase.paused >>= after_annotations e) s).1
  unfolding annotations_by after_annotations pause_unless is_paused ◌>>=◌ pure gets
  annotated-IsPaused (some value) pause s i = triggered-IsPaused value s i
  annotated-IsPaused none (some value) s i = i
  annotated-IsPaused none none s i = process_phase-IsPaused s.migration.status.phase s i.valid i

  annotated_by-IsPaused :
      (trigger pause cancel : Option String) (phase : MigrationPhase) (s : St e.World)
      → cancel ≡ none
      → phase ≡ MigrationPhase.paused
      → Inv IsPaused P s
      → Inv IsPaused P ((annotations_by e trigger pause cancel phase >>= after_annotations e) s).1
  annotated_by-IsPaused trigger pause cancel phase s h p i =
      rw (h, p) (annotated-IsPaused trigger pause s i)

  after_finalizer-IsPaused :
      (s : St e.World)
      → annotation cancel_annotation s.migration.annotations ≡ none
      → Inv IsPaused P s
      → Inv IsPaused P (after_finalizer e none s).1
  unfolding after_finalizer handle_annotations ◌>>=◌ gets
  after_finalizer-IsPaused s h i = annotated_by-IsPaused _ _ _ _ s h i.valid i

  -- the finalizer: with an outcome, an update of the object; else nothing
  finalized-IsPaused :
      (deleting has_finalizer : Bool) (s : St e.World)
      → annotation cancel_annotation s.migration.annotations ≡ none
      → Inv IsPaused P s
      → Inv IsPaused P ((finalizer_by e deleting has_finalizer >>= after_finalizer e) s).1
  unfolding finalizer_by add_finalizer handle_deletion after_finalizer ◌>>=◌ ◌>>◌ pure
  finalized-IsPaused false true s h i = after_finalizer-IsPaused s h i
  finalized-IsPaused false false s h i =
      (Keeps-update e a).at _ ((Keeps-edit e _ (λ m. refl)).at s i)
  finalized-IsPaused true true s h i = (Keeps-update e a).at _ ((Keeps-edit e _ (λ m. refl)).at s i)
  finalized-IsPaused true false s h i = i

  observe_if-IsPaused : (b : Bool) → Keeps (Inv IsPaused P) (observe_if e b)
  unfolding observe_if observed
  observe_if-IsPaused false = Keeps-pure _
  observe_if-IsPaused true =
      Keeps-bind _ _ (Keeps-now e k)
        λ t. Keeps-bind _ _ (Keeps-gets _) λ m. Keeps-modify e _ (λ b h. h)

  observe_if-annotations :
      (b : Bool) (s : St e.World)
      → (observe_if e b s).1.migration.annotations ≡ s.migration.annotations
  unfolding observe_if ◌>>=◌ pure gets modify now
  observe_if-annotations false s = refl
  observe_if-annotations true s = refl

  proceed-IsPaused :
      (s : St e.World)
      → annotation cancel_annotation s.migration.annotations ≡ none
      → Inv IsPaused P s
      → Inv IsPaused P (proceed e s).1
  unfolding proceed update_observed_generation handle_finalizer_and_deletion ◌>>=◌ ◌>>◌ gets
  proceed-IsPaused s h i =
      let b = not (s.migration.status.observed_generation == s.migration.generation) in
      finalized-IsPaused _ _ _ (ap (annotation cancel_annotation) (observe_if-annotations b s) ∙ h)
        ((observe_if-IsPaused b).at s i)

  reconcile_by-IsPaused :
      (x y : Bool) (s : St e.World)
      → y ≡ false
      → annotation cancel_annotation s.migration.annotations ≡ none
      → Inv IsPaused P s
      → Inv IsPaused P (reconcile_by e x y s).1
  unfolding reconcile_by ◌>>◌ send_web_socket_update
  reconcile_by-IsPaused false y s f h i = proceed-IsPaused s h i
  reconcile_by-IsPaused true true s f h i = absurd (cc f)
  reconcile_by-IsPaused true false s f h i = proceed-IsPaused _ h ((Keeps-send e _).at s i)

  reconcile_found-IsPaused :
      (s : St e.World)
      → annotation cancel_annotation s.migration.annotations ≡ none
      → Inv IsPaused P s
      → Inv IsPaused P (reconcile_found e s).1
  unfolding reconcile_found ◌>>=◌ gets
  reconcile_found-IsPaused s h i = reconcile_by-IsPaused _ _ s (terminal-IsPaused s i) h i

module _ (e : Env) (server : Server e) (never : NeverCancelled e) where
  reconcile_fetched-IsPaused :
      (f : Fetched) (w : e.World)
      → e.get w ≡ f
      → IsPaused (server.stored w)
      → IsPaused (server.stored (reconcile_fetched e f w).1)
  unfolding reconcile_fetched
  reconcile_fetched-IsPaused (found m) w h p =
      (reconcile_found-IsPaused e (server-Stable e server IsPaused)
        (server-Answers e server IsPaused) _ (never w m h)
        (fetched-Inv e server IsPaused w m h p)).world
  reconcile_fetched-IsPaused not_found w h p = p
  reconcile_fetched-IsPaused (get_error x) w h p = p

  reconcile-IsPaused :
      (w : e.World) → IsPaused (server.stored w) → IsPaused (server.stored (reconcile e w).1)
  unfolding reconcile
  reconcile-IsPaused w p = reconcile_fetched-IsPaused (e.get w) w refl p

  -- A paused migration stays paused in every world that reconciliations and users lead to, as long
  -- as no object that is fetched has the cancel annotation: whether the pause annotation is
  -- removed, the specification changes or a reconciliation is triggered, nothing resumes it.
  pub Reach-IsPaused :
      (start w : e.World)
      → IsPaused (server.stored start)
      → Reach e server start w
      → IsPaused (server.stored w)
  Reach-IsPaused start w p begins = p
  Reach-IsPaused start w p (reconciles r h) =
      subst (Stored e server IsPaused) (sym h) (reconcile-IsPaused _ (Reach-IsPaused start _ p r))
  Reach-IsPaused start w p (edits r h) = subst IsPaused (sym h) (Reach-IsPaused start _ p r)
