-- ===== src/MonoRepo/Refines/Cloning.antt =====
-- processCloning makes the machine's moves, in whatever order the clones of a batch end.
pub mod Results
pub mod Batch
use mathlib.Core.List.{Permᴰ}
use reposhift.Common.{
  ℕ, zero, suc, ◌+◌, ◌≤◌, ◌<◌, ◌==◌, ◌&&◌, ◌≡◌, ◌≢◌, refl, sym, ap, ◌∙◌, subst, String, Bool, true,
  false, Option, none, some, List, [], ◌∷◌, all, map, take, length, get_elem?, set, arith,
}
use reposhift.Common.Int.{ℤ, pos, pos_part, ltb_ℤ}
use reposhift.Common.Result.{Result, ok, err}
use reposhift.Common.State.{M, ◌>>=◌, ◌>>◌}
use reposhift.Common.State.Leads.{Leads, Keeps, Leads-bind, Leads-then, Leads-pure, Leads-if}
use reposhift.MonoRepo.Types.{
  MonoPhase, RepoPhase, RepoStatus, MonoStatus, MonoMigration, MonoSettings, get_parallel_clones,
}
use reposhift.MonoRepo.Env.{Env, St, Outcome, Cloned, stat, remove_all, clone_mono_repo_source}
use reposhift.MonoRepo.Action.{reads, change}
use reposhift.MonoRepo.Progress.{with_repo_failed, recount}
use reposhift.MonoRepo.Cloning.{
  pending_repos, start_time_at, repo_started, repo_cloned, with_repo, clean_before, clone_one,
  clone_each, start_unless, clone_failed, handle_result, after_results, collect_results, clone_with,
  clone_pending, process_cloning,
}
use reposhift.MonoRepo.Machine.{
  phases, is_waiting, is_done_in, step_in, Advances, stays, advances, is_active, Works, changes,
}
use reposhift.MonoRepo.Machine.Measure.{repos_rank, repo_rank, set-rank, step-rank, Advances-rank}
use reposhift.MonoRepo.Saves.{
  Server, At, Saved, At-ask, At-now, At-schedule, At-event, At-send, At-change, At-reads,
  At-get_workspace, save_and-saves,
}
use reposhift.MonoRepo.Steady.{Keeps-get_azure_dev_ops_token}
use reposhift.MonoRepo.Steady.Git.{Keeps-remove_if}
use reposhift.MonoRepo.Refines.{
  at_repo-phases, at_repo-phases_same, Advances-trans, Advances-equal, fail_migration-saves,
  At-recount, go_on-saves,
}
use reposhift.MonoRepo.Refines.Ready.{
  is_clone_end, waits_at, waits_at-get, clone_step, Apart, Ready, Ready-perm, Ready-set, Ready-take,
  pending_repos-Ready, none_pending,
}

-- Clones end in some order: the environment reorders the places of a batch.
abbrev pub Reorders : Env → Type 0
Reorders e = (w : e.World) (l : List ℕ) → Permᴰ l (e.schedule w l)

-- What the results so far have made of the status.
pub record SoFar (b c : MonoStatus) : Type 0 where
  pub phase_lem : c.phase ≡ b.phase
  pub advanced : Advances b.phase (phases b.repo_statuses) (phases c.repo_statuses)

-- with the results that are still to come: at the end there was one
abbrev pub Moved : MonoStatus → MonoStatus → List (ℕ × Result Cloned) → Type 0
Moved b c [] = repos_rank (phases c.repo_statuses) < repos_rank (phases b.repo_statuses)
Moved b c (r ∷ rest) = Unit

pub Moved-any :
    (b c : MonoStatus) (rest : List (ℕ × Result Cloned))
    → repos_rank (phases c.repo_statuses) < repos_rank (phases b.repo_statuses)
    → Moved b c rest
Moved-any b c [] h = h
Moved-any b c (r ∷ rest) h = tt

moved_on :
    {p : MonoPhase} {l k : List RepoPhase} (b c : MonoStatus)
    → b.phase ≡ p
    → phases b.repo_statuses ≡ l
    → phases c.repo_statuses ≡ k
    → c.phase ≡ p
    → repos_rank k < repos_rank l
    → Advances p l k
    → Works b c
moved_on b c e f g h lt stays = absurd (omega arith)
moved_on {p} {l} b c e f g h lt (advances i r q get s a) =
    changes i r q (h ∙ sym e) (ap (λ (x : List RepoPhase). get_elem? x i) f ∙ get)
      (subst (λ (x : MonoPhase). step_in x r q ≡ true) (sym e) s) (rw (e, f, g) a)

pub SoFar-works :
    {b c : MonoStatus}
    → SoFar b c
    → repos_rank (phases c.repo_statuses) < repos_rank (phases b.repo_statuses)
    → Works b c
SoFar-works {b} {c} so lt = moved_on b c refl refl refl so.phase_lem lt so.advanced

-- a change that no phase shows
pub SoFar-same :
    (b c d : MonoStatus)
    → d.phase ≡ c.phase
    → phases d.repo_statuses ≡ phases c.repo_statuses
    → SoFar b c
    → SoFar b d
SoFar-same b c d p s h = record {
  phase_lem = p ∙ h.phase_lem;
  advanced =
      subst (λ (x : List RepoPhase). Advances b.phase (phases b.repo_statuses) x) (sym s)
        h.advanced;
}

-- The status after one more result.
pub record Next (b c d : MonoStatus) (i : ℕ) (q : RepoPhase) : Type 0 where
  pub so_far : SoFar b d
  pub phases_lem : phases d.repo_statuses ≡ set (phases c.repo_statuses) i q
  pub lowered : repos_rank (phases d.repo_statuses) < repos_rank (phases b.repo_statuses)

pub Next-result :
    (b c d : MonoStatus) (i : ℕ) (q : RepoPhase)
    → b.phase ≡ MonoPhase.cloning
    → SoFar b c
    → waits_at i (phases c.repo_statuses) ≡ true
    → is_clone_end q ≡ true
    → d.phase ≡ c.phase
    → phases d.repo_statuses ≡ set (phases c.repo_statuses) i q
    → Next b c d i q
Next-result b c d i q cloning so w h p s =
    let (r, g, v) = waits_at-get i (phases c.repo_statuses) w in
    let step = clone_step r q v h in
    record {
      so_far = record {
        phase_lem = p ∙ so.phase_lem;
        advanced = Advances-trans so.advanced (
            advances i r q g (subst (λ (x : MonoPhase). step_in x r q ≡ true) (sym cloning) step)
              (Advances-equal s));
      };
      phases_lem = s;
      lowered = omega (
        arith,
        ap repos_rank s,
        set-rank (phases c.repo_statuses) i r q g (step-rank MonoPhase.cloning r q step),
        Advances-rank so.advanced,
      );
    }
