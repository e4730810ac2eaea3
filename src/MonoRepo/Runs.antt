-- ===== src/MonoRepo/Runs.antt =====
-- Reconciliations of one monorepo migration, with changes by its users in between.
pub mod Finish
pub mod Retry
use reposhift.Common.{
  ℕ, ◌≡◌, ◌≢◌, refl, sym, ap, ◌∙◌, subst, ◌⊎◌, inl, inr, Bool, true, false, not, ◌&&◌, Option, none,
  some, List, [], ◌∷◌, map, all, any, get_elem?, set, zero, suc, arith,
}
use reposhift.Common.Result.{Result, ok, err}
use reposhift.Common.State.{◌>>=◌}
use reposhift.MonoRepo.Types.{MonoPhase, RepoPhase, RepoStatus, MonoStatus, MonoMigration}
use reposhift.MonoRepo.Env.{Env, St, Outcome, Fetched, found, not_found, get_error}
use reposhift.MonoRepo.Action.{reads}
use reposhift.MonoRepo.Git.{slashed}
use reposhift.MonoRepo.Progress.{is_completed, get_workspace}
use reposhift.MonoRepo.Merging.{has_completed, after_init, init_unless, process_merging}
use reposhift.MonoRepo.Annotations.{is_finished, reset_repo}
use reposhift.MonoRepo.Reconcile.{Run, reconcile_found, reconcile_fetched, reconcile}
use reposhift.MonoRepo.Machine.{
  phases, step_in, Advances, stays, advances, is_active, next_phase, Works, goes_on, changes, fails,
  finishes, Moves, works, initializes, pauses, cancels, retries,
}
use reposhift.MonoRepo.Machine.Order.{
  IsInOrder, Moves-IsInOrder, IsAccounted, IsInOrder-IsAccounted,
}
use reposhift.MonoRepo.Saves.{Server, At, Saved}
use reposhift.MonoRepo.Refines.Cloning.{Reorders}
use reposhift.MonoRepo.Refines.Reconcile.{MovesOrNot, reconcile_found-moves}

-- The worlds, with the reconciler's directories, that reconciliations and users lead to. A user
-- changes the specification, the annotations or the deletion of the object, and not its status; a
-- restart of the operator forgets the directories.
pub data Reach (e : Env) (server : Server e) (start : Run e) : Run e → Type 0 where
  begins : Reach e server start start
  reconciles :
      {r t : Run e} → Reach e server start r → t ≡ (reconcile e r).1 → Reach e server start t
  edits :
      {r t : Run e}
      → Reach e server start r
      → server.stored t.world ≡ server.stored r.world
      → Reach e server start t

module _ (e : Env) (server : Server e) (reorders : Reorders e) where
  abbrev pub stored_in : Run e → MonoStatus
  stored_in r = server.stored r.world

  saved_or_not :
      (b : MonoStatus) (s : St e.World)
      → MovesOrNot e server b s
      → Moves b (server.stored s.world) ⊎ (server.stored s.world ≡ b)
  saved_or_not b s (inr same) = inr same
  saved_or_not b s (inl saved) = elim (server.stored-status_update saved.before saved.saved) [
    | inl new ↦ inl (
        subst (λ (c : MonoStatus). Moves b c)
          (sym (ap (λ (w : e.World). server.stored w) saved.world_lem ∙ new)) saved.allowed)
    | inr old ↦ inr (ap (λ (w : e.World). server.stored w) saved.world_lem ∙ old ∙ saved.before_lem)
  ]

  fetched-moves :
      (f : Fetched) (r : Run e)
      → e.get r.world ≡ f
      → Moves (stored_in r) (stored_in (reconcile_fetched e f r).1)
        ⊎ (stored_in (reconcile_fetched e f r).1 ≡ stored_in r)
  unfolding reconcile_fetched
  fetched-moves (found m) r h = saved_or_not (stored_in r) _ (
      reconcile_found-moves e server (stored_in r) reorders _
        (record { stored_lem = refl; copy_lem = server.get-stored r.world m h }))
  fetched-moves not_found r h = inr refl
  fetched-moves (get_error error) r h = inr refl

  -- Where an API server hands out the stored object and keeps a status that it accepts, and the
  -- clones of a batch end in any order, a reconciliation makes one move of the machine with the
  -- stored status or leaves it, whatever else is answered.
  pub reconcile-Moves :
      (r : Run e)
      → Moves (stored_in r) (stored_in (reconcile e r).1)
        ⊎ (stored_in (reconcile e r).1 ≡ stored_in r)
  unfolding reconcile
  reconcile-Moves r = fetched-moves (e.get r.world) r refl

  -- what every move keeps holds wherever runs lead
  pub Reach-keeps :
      (V : MonoStatus → Type 0)
      → ((b c : MonoStatus) → V b → Moves b c → V c)
      → {start r : Run e} → Reach e server start r
      → V (stored_in start)
      → V (stored_in r)
  Reach-keeps V k begins v = v
  Reach-keeps V k (reconciles {r} reach same) v =
      let before = Reach-keeps V k reach v in
      subst (λ (t : Run e). V (stored_in t)) (sym same)
        (elim (reconcile-Moves r) [
          | inl move ↦ k _ _ before move
          | inr still ↦ subst V (sym still) before
        ])
  Reach-keeps V k (edits reach same) v = subst V (sym same) (Reach-keeps V k reach v)

  -- With an API server that keeps what it accepts, and clones that end in any order: if the stored
  -- status is in order at the start, then wherever reconciliations and changes by users, which are
  -- not to the status, lead, it is in order. So each repository is past the phases before the
  -- migration's one: none waits to be cloned while others are rewritten, none is left to rewrite
  -- while others are merged, and all have ended before the push.
  pub Reach-IsInOrder :
      {start r : Run e}
      → Reach e server start r
      → IsInOrder (stored_in start)
      → IsInOrder (stored_in r)
  Reach-IsInOrder reach o = Reach-keeps IsInOrder (λ b c v m. Moves-IsInOrder v m) reach o

  -- With an API server that keeps what it accepts, and clones that end in any order: a migration
  -- that was in order at the start and is Completed after some reconciliations, and changes by
  -- users that are not to the status, has a repository that was merged, and its counters of
  -- completed, failed and skipped repositories add up to all.
  pub Reach-IsAccounted :
      {start r : Run e}
      → Reach e server start r
      → IsInOrder (stored_in start)
      → (stored_in r).phase ≡ MonoPhase.completed
      → IsAccounted (stored_in r)
  Reach-IsAccounted reach o d = IsInOrder-IsAccounted (Reach-IsInOrder reach o) d

  no_work_paused : (b c : MonoStatus) → b.phase ≡ MonoPhase.paused → ¬ Works b c
  no_work_paused b c p (goes_on n d s) = cc (n, ap next_phase p)
  no_work_paused b c p (changes i x y q g s a) =
      no_step x y (subst (λ (z : MonoPhase). step_in z x y ≡ true) p s)
    where
      no_step : (x y : RepoPhase) → step_in MonoPhase.paused x y ≢ true
      no_step x y h = ground arith
  no_work_paused b c p (fails act q a) = cc (act, ap is_active p)
  no_work_paused b c p (finishes q h d s x) = cc (p, q)

  moves-from_paused :
      (b c : MonoStatus)
      → b.phase ≡ MonoPhase.paused
      → Moves b c
      → (c.phase ≡ MonoPhase.paused) ⊎ (c.phase ≡ MonoPhase.cancelled)
  unfolding is_finished
  moves-from_paused b c p (works w) = absurd (no_work_paused b c p w)
  moves-from_paused b c p (initializes u q) = cc (p, u)
  moves-from_paused b c p (pauses q s) = inl q
  moves-from_paused b c p (cancels q s) = inr q
  moves-from_paused b c p (retries f q s) = cc (f, ap is_finished p)

  -- With an API server that keeps what it accepts, and clones that end in any order, a
  -- reconciliation of a paused migration leaves it Paused or makes it Cancelled, whatever its
  -- annotations: taking the pause annotation away, or asking for a retry or a reconciliation,
  -- resumes nothing.
  pub reconcile-paused_or_cancelled :
      (r : Run e)
      → (stored_in r).phase ≡ MonoPhase.paused
      → ((stored_in (reconcile e r).1).phase ≡ MonoPhase.paused)
        ⊎ ((stored_in (reconcile e r).1).phase ≡ MonoPhase.cancelled)
  reconcile-paused_or_cancelled r p = elim (reconcile-Moves r) [
    | inl move ↦ moves-from_paused _ _ p move
    | inr still ↦ inl (ap (λ (b : MonoStatus). b.phase) still ∙ p)
  ]
