-- ===== src/MonoRepo/Runs/Retry.antt =====
-- A retry takes the workspace away, and the monorepo is not made again.
use reposhift.Common.{
  ℕ, zero, suc, ◌≡◌, ◌≢◌, refl, sym, ap, ◌∙◌, Bool, true, false, ◌||◌, some, List, [], ◌∷◌, map,
  any, get_elem?, set, arith,
}
use reposhift.Common.Result.{ok}
use reposhift.Common.State.{◌>>=◌}
use reposhift.MonoRepo.Types.{MonoPhase, RepoPhase, RepoStatus, MonoStatus}
use reposhift.MonoRepo.Env.{Env, St}
use reposhift.MonoRepo.Action.{reads}
use reposhift.MonoRepo.Git.{slashed}
use reposhift.MonoRepo.Progress.{is_completed, get_workspace}
use reposhift.MonoRepo.Merging.{has_completed, after_init, init_unless, process_merging}
use reposhift.MonoRepo.Annotations.{reset_repo}
use reposhift.MonoRepo.Reconcile.{Run}
use reposhift.MonoRepo.Machine.{
  phases, step_in, Advances, stays, advances, next_phase, goes_on, changes, fails, finishes, Moves,
  works, initializes, pauses, cancels, retries,
}
use reposhift.MonoRepo.Saves.{Server}
use reposhift.MonoRepo.Refines.Cloning.{Reorders}
use reposhift.MonoRepo.Runs.{Reach, Reach-keeps}

abbrev some_completed : List RepoPhase → Bool
some_completed l = any is_completed l

some_completed-phases : (l : List RepoStatus) → has_completed l ≡ some_completed (phases l)
some_completed-phases [] = refl
some_completed-phases (r ∷ l) =
    ap (λ (x : Bool). is_completed r.phase || x) (some_completed-phases l)

-- a repository that is completed makes no further step
step-completed :
    (phase : MonoPhase) (p q : RepoPhase) → step_in phase p q ≡ true → is_completed p ≡ false
step-completed phase p q s = ground arith

some_completed-set :
    (l : List RepoPhase) (i : ℕ) (p q : RepoPhase)
    → get_elem? l i ≡ some p
    → is_completed p ≡ false
    → some_completed l ≡ true
    → some_completed (set l i q) ≡ true
some_completed-set [] i p q g n h = cc
some_completed-set (r ∷ l) zero p q g n h = ground arith
some_completed-set (r ∷ l) (suc i) p q g n h = ground (arith, some_completed-set l i p q g n)

Advances-completed :
    {phase : MonoPhase} {l k : List RepoPhase}
    → some_completed l ≡ true
    → Advances phase l k
    → some_completed k ≡ true
Advances-completed h stays = h
Advances-completed {phase} {l} h (advances i p q g s a) =
    Advances-completed (some_completed-set l i p q g (step-completed phase p q s) h) a

reset_repo-completed :
    (l : List RepoStatus) → some_completed (phases (map reset_repo l)) ≡ some_completed (phases l)
unfolding reset_repo
reset_repo-completed [] = refl
reset_repo-completed (r ∷ l) = reset r.phase (reset_repo-completed l)
  where
    reset :
        (p : RepoPhase)
        → some_completed (phases (map reset_repo l)) ≡ some_completed (phases l)
        → (is_completed (reset_repo r).phase || some_completed (phases (map reset_repo l)))
          ≡ (is_completed r.phase || some_completed (phases l))
    reset p h = ground arith

-- Begun, with a repository that was merged.
pub record HasMerged (b : MonoStatus) : Type 0 where
  pub begun : b.phase ≢ MonoPhase.unset
  pub merged : has_completed b.repo_statuses ≡ true

HasMerged-of :
    {c : MonoStatus} (q : MonoPhase)
    → c.phase ≡ q
    → q ≢ MonoPhase.unset
    → some_completed (phases c.repo_statuses) ≡ true
    → HasMerged c
HasMerged-of {c} q e n h = record {
  begun = λ u. n (sym e ∙ u);
  merged = some_completed-phases c.repo_statuses ∙ h;
}

of_phases : {b : MonoStatus} → HasMerged b → some_completed (phases b.repo_statuses) ≡ true
of_phases {b} h = sym (some_completed-phases b.repo_statuses) ∙ h.merged

next-ne-unset : (p q : MonoPhase) → next_phase p ≡ some q → q ≢ MonoPhase.unset
next-ne-unset p q n u = ground arith

same_merged :
    {b : MonoStatus} {l : List RepoStatus}
    → HasMerged b
    → l ≡ b.repo_statuses
    → some_completed (phases l) ≡ true
same_merged h s = ap (λ (x : List RepoStatus). some_completed (phases x)) s ∙ of_phases h

Moves-HasMerged : (b c : MonoStatus) → HasMerged b → Moves b c → HasMerged c
Moves-HasMerged b c h (works (goes_on n d s)) =
    HasMerged-of c.phase refl (next-ne-unset b.phase c.phase n) (same_merged h s)
Moves-HasMerged b c h (works (changes i p q e g s a)) = HasMerged-of b.phase e h.begun (
    Advances-completed
      (some_completed-set (phases b.repo_statuses) i p q g (step-completed b.phase p q s)
        (of_phases h))
      a)
Moves-HasMerged b c h (works (fails act e a)) =
    HasMerged-of MonoPhase.failed e (λ u. cc) (Advances-completed (of_phases h) a)
Moves-HasMerged b c h (works (finishes p has e s x)) =
    HasMerged-of MonoPhase.completed e (λ u. cc) (same_merged h s)
Moves-HasMerged b c h (initializes u e) = absurd (h.begun u)
Moves-HasMerged b c h (pauses e s) = HasMerged-of MonoPhase.paused e (λ u. cc) (same_merged h s)
Moves-HasMerged b c h (cancels e s) = HasMerged-of MonoPhase.cancelled e (λ u. cc) (same_merged h s)
Moves-HasMerged b c h (retries f e s) =
    HasMerged-of MonoPhase.pending e (λ u. cc)
      (ap (λ (x : List RepoStatus). some_completed (phases x)) s
        ∙ reset_repo-completed b.repo_statuses
        ∙ of_phases h)

module _ (e : Env) (server : Server e) (reorders : Reorders e) where
  merging_has :
      (has : Bool) (s : St e.World)
      → has_completed s.migration.status.repo_statuses ≡ true
      → process_merging e s
        ≡ (get_workspace >>= λ dir. after_init e dir (ok (slashed dir "monorepo"))) s
  unfolding process_merging init_unless get_workspace ◌>>=◌ reads
  merging_has has s h = rw h refl

  -- Once a migration has begun and a repository was merged, with an API server that keeps what it
  -- accepts and clones that end in any order, reconciliations and changes by users, which are not
  -- to the status, never make the monorepo again, also after retries, which clean the workspace
  -- that holds it: wherever they lead, some repository is Completed, and with the stored status in
  -- hand the merge phase goes straight on to the next repository.
  pub Reach-skips_init :
      {start r : Run e}
      → Reach e server start r
      → HasMerged (server.stored start.world)
      → (s : St e.World) → s.migration.status ≡ server.stored r.world
      → (has_completed (server.stored r.world).repo_statuses ≡ true)
        × (process_merging e s
            ≡ (get_workspace >>= λ dir. after_init e dir (ok (slashed dir "monorepo"))) s)
  Reach-skips_init {r} reach h s same =
      let merged = (Reach-keeps e server reorders HasMerged Moves-HasMerged reach h).merged in
      (
        merged,
        merging_has true s (ap (λ (b : MonoStatus). has_completed b.repo_statuses) same ∙ merged),
      )
