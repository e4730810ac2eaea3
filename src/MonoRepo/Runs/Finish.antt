-- ===== src/MonoRepo/Runs/Finish.antt =====
-- An undisturbed migration ends: every reconciliation makes less what is left to do.
use reposhift.Common.{
  ℕ, zero, suc, ◌+◌, ◌*◌, ◌≤◌, ◌≡◌, refl, sym, ap, ◌∙◌, subst, String, Bool, true, false, none,
  some, List, [], ◌∷◌, length, arith, ◌⊎◌, inl, inr,
}
use reposhift.Common.State.{◌>>=◌, pure}
use reposhift.Migration.Annotations.{annotation}
use reposhift.MonoRepo.Types.{MonoPhase, RepoPhase, RepoStatus, MonoStatus, MonoMigration}
use reposhift.MonoRepo.Env.{Env, St, Fetched, found}
use reposhift.MonoRepo.Action.{reads}
use reposhift.MonoRepo.Annotations.{handle_by, handle_annotations}
use reposhift.MonoRepo.Reconcile.{
  Run, process_phase, handle_finalizer, after_annotations, after_finalizer, reconcile_found,
  reconcile_fetched, reconcile,
}
use reposhift.MonoRepo.Machine.{
  phases, step_in, is_active, next_phase, Works, goes_on, changes, fails, finishes,
}
use reposhift.MonoRepo.Machine.Measure.{
  repo_rank, repos_rank, phase_rank, measure, Works-lowers, measure-zero,
}
use reposhift.MonoRepo.Saves.{Server, Saved}
use reposhift.MonoRepo.Refines.Cloning.{Reorders}
use reposhift.MonoRepo.Refines.Phases.{process_phase-saves}

-- Completed or Failed
abbrev pub IsOver : MonoPhase → Type 0
IsOver p = (p ≡ MonoPhase.completed) ⊎ (p ≡ MonoPhase.failed)

active-step :
    (phase : MonoPhase) (p q : RepoPhase) → step_in phase p q ≡ true → is_active phase ≡ true
active-step phase p q s = ground arith

active-next : (p q : MonoPhase) → next_phase p ≡ some q → is_active q ≡ true
active-next p q n = ground arith

works_on : {b c : MonoStatus} → Works b c → (is_active c.phase ≡ true) ⊎ IsOver c.phase
works_on {b} {c} (goes_on n d s) = inl (active-next b.phase c.phase n)
works_on {b} {c} (changes i p q e g s a) = inl (ap is_active e ∙ active-step b.phase p q s)
works_on (fails act e a) = inr (inr e)
works_on (finishes p has e s x) = inr (inl e)

-- Nobody disturbs: the object is there with its finalizer, without annotations and not being
-- deleted, and every update of the status is accepted.
pub record Calm (e : Env) (server : Server e) : Type 0 where
  pub object : e.World → MonoMigration
  pub get-object : (w : e.World) → e.get w ≡ found (object w)
  pub annotations-object : (w : e.World) → (object w).annotations ≡ []
  pub deleting-object : (w : e.World) → (object w).deleting ≡ false
  pub has_finalizer-object : (w : e.World) → (object w).has_finalizer ≡ true
  pub accepted :
      (w : e.World) (m : MonoMigration) → server.stored (e.status_update w m).1 ≡ m.status

annotation-nil : (key : String) (l : List (String × String)) → l ≡ [] → annotation key l ≡ none
unfolding annotation
annotation-nil key [] h = refl
annotation-nil key (a ∷ l) h = cc

module _ (e : Env) where
  handle_finalizer-quiet :
      (x y : Bool) (s : St e.World) → x ≡ false → y ≡ true → handle_finalizer e x y s ≡ (none, s)
  unfolding handle_finalizer pure
  handle_finalizer-quiet false true s h k = refl
  handle_finalizer-quiet true y s h k = cc
  handle_finalizer-quiet false false s h k = cc

  handle_annotations-quiet :
      (s : St e.World) → s.migration.annotations ≡ [] → handle_annotations e s ≡ (none, s)
  unfolding handle_annotations handle_by ◌>>=◌ reads pure
  handle_annotations-quiet s h =
      let none_of = (λ (key : String). annotation-nil key s.migration.annotations h) in
      rw (none_of _, none_of _, none_of _, none_of _) refl

  reconcile_found-quiet :
      (s : St e.World)
      → s.migration.deleting ≡ false
      → s.migration.has_finalizer ≡ true
      → s.migration.annotations ≡ []
      → reconcile_found e s ≡ process_phase e s.migration.status.phase s
  unfolding reconcile_found after_finalizer after_annotations ◌>>=◌ reads
  reconcile_found-quiet s d f a =
      ap (λ x. after_finalizer e x.0 x.1)
        (handle_finalizer-quiet s.migration.deleting s.migration.has_finalizer s d f)
      ∙ ap (λ x. after_annotations e x.0 x.1) (handle_annotations-quiet s a)

  -- a number of reconciliations, one after the other
  pub reconcile_times : ℕ → Run e → Run e
  reconcile_times zero r = r
  reconcile_times (suc n) r = reconcile_times n (reconcile e r).1

repos_rank_le : (l : List RepoStatus) → repos_rank (phases l) ≤ 3 * length l
repos_rank_le [] = omega arith
repos_rank_le (r ∷ l) = ranked r.phase (repos_rank_le l)
  where
    ranked :
        (p : RepoPhase)
        → repos_rank (phases l) ≤ 3 * length l
        → repo_rank p + repos_rank (phases l) ≤ 3 * suc (length l)
    ranked p h = ground arith

measure_le : (b : MonoStatus) → measure b ≤ 6 + 3 * length b.repo_statuses
measure_le b = by_phase b.phase (repos_rank_le b.repo_statuses)
  where
    by_phase :
        (p : MonoPhase)
        → repos_rank (phases b.repo_statuses) ≤ 3 * length b.repo_statuses
        → phase_rank p + repos_rank (phases b.repo_statuses) ≤ 6 + 3 * length b.repo_statuses
    by_phase p h = ground arith

module _ (e : Env) (server : Server e) (reorders : Reorders e) (calm : Calm e server) where
  saved-Works :
      (b : MonoStatus) (s : St e.World)
      → Saved e server b (Works b) s
      → Works b (server.stored s.world)
  saved-Works b s saved =
      subst (λ (c : MonoStatus). Works b c)
        (sym (
          ap (λ (w : e.World). server.stored w) saved.world_lem
          ∙ calm.accepted saved.before saved.saved))
        saved.allowed

  found-Works :
      (r : Run e)
      → is_active (server.stored r.world).phase ≡ true
      → Works
          (server.stored r.world)
          (server.stored (reconcile_fetched e (found (calm.object r.world)) r).1.world)
  unfolding reconcile_fetched
  found-Works r act =
      let w = r.world in
      let m = calm.object w in
      let b = server.stored w in
      let s : St e.World = record {
        world = w;
        migration = m;
        workspaces = r.workspaces;
        notices = [];
      } in
      let same : m.status ≡ b = server.get-stored w m (calm.get-object w) in
      let active : is_active m.status.phase ≡ true =
        ap (λ (x : MonoStatus). is_active x.phase) same ∙ act in
      let saves =
        process_phase-saves e server b reorders m.status.phase
          (ap (λ (x : MonoStatus). x.phase) (sym same)) active in
      subst (λ x. Works b (server.stored x.1.world))
        (sym (
          reconcile_found-quiet e s (calm.deleting-object w) (calm.has_finalizer-object w)
            (calm.annotations-object w)))
        (saved-Works b _ (saves.at s (record { stored_lem = refl; copy_lem = same })))

  reconcile-Works :
      (r : Run e)
      → is_active (server.stored r.world).phase ≡ true
      → Works (server.stored r.world) (server.stored (reconcile e r).1.world)
  unfolding reconcile
  reconcile-Works r act =
      subst
        (λ (f : Fetched).
          Works (server.stored r.world) (server.stored (reconcile_fetched e f r).1.world))
        (sym (calm.get-object r.world)) (found-Works r act)

  ends_within :
      (n : ℕ) (r : Run e)
      → measure (server.stored r.world) ≤ n
      → (is_active (server.stored r.world).phase ≡ true) ⊎ IsOver (server.stored r.world).phase
      → (k : ℕ) × (k ≤ n) × IsOver (server.stored (reconcile_times e k r).world).phase
  unfolding reconcile_times
  ends_within n r h (inr over) = (0, omega arith, over)
  ends_within zero r h (inl act) = cc (act, measure-zero (server.stored r.world) h)
  ends_within (suc n) r h (inl act) =
      let work = reconcile-Works r act in
      let (k, le, over) =
        ends_within n (reconcile e r).1 (omega (arith, Works-lowers act work)) (works_on work) in
      (suc k, omega arith, over)

  -- With a server that accepts every update, and an object that is neither annotated nor deleted
  -- and has its finalizer, a migration of n repositories that is in a phase from Pending to Pushing
  -- is Completed or Failed within 6 + 3n reconciliations, whatever its clones, rewrites, merges and
  -- pushes answer and in whatever order the clones of a batch end.
  pub reconcile-ends :
      (r : Run e)
      → is_active (server.stored r.world).phase ≡ true
      → (k : ℕ) × (k ≤ 6 + 3 * length (server.stored r.world).repo_statuses)
        × IsOver (server.stored (reconcile_times e k r).world).phase
  reconcile-ends r act = ends_within _ r (measure_le (server.stored r.world)) (inl act)
