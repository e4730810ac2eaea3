-- ===== src/MonoRepo/Refines/Cloning/Results.antt =====
-- The results of a batch of clones, as they arrive, and processCloning as a whole.
use reposhift.Common.{
  ℕ, ◌≡◌, refl, sym, ap, ◌∙◌, subst, String, Bool, true, false, Option, none, some, List, [], ◌∷◌,
  map, set,
}
use reposhift.Common.Result.{Result, ok, err}
use reposhift.Common.State.{M, ◌>>=◌, ◌>>◌}
use reposhift.Common.State.Leads.{Leads, Leads-bind, Leads-then, Leads-pure}
use reposhift.MonoRepo.Types.{MonoPhase, RepoPhase, MonoStatus}
use reposhift.MonoRepo.Env.{Env, St, Outcome, Cloned}
use reposhift.MonoRepo.Action.{now}
use reposhift.MonoRepo.Progress.{with_repo_failed, recount}
use reposhift.MonoRepo.Cloning.{
  repo_started, repo_cloned, with_repo, start_unless, clone_failed, handle_result, after_results,
  collect_results,
}
use reposhift.MonoRepo.Machine.{phases, Works}
use reposhift.MonoRepo.Saves.{
  Server, At, Saved, At-now, At-event, At-send, At-change, At-reads, save_and-saves,
}
use reposhift.MonoRepo.Refines.{
  at_repo-phases, at_repo-phases_same, fail_migration-saves, At-recount,
}
use reposhift.MonoRepo.Refines.Ready.{waits_at, Ready, Ready-set}
use reposhift.MonoRepo.Refines.Cloning.{
  SoFar, Moved, Moved-any, SoFar-works, SoFar-same, Next, Next-result,
}

module _ (e : Env) (server : Server e) (b : MonoStatus)
    (cloning : b.phase ≡ MonoPhase.cloning) where
  abbrev pub Into : MonoStatus → M (St e.World) Outcome → Type 0
  Into c m = Leads (At e server b c) (Saved e server b (Works b)) m

  clone_failed-saves :
      (continue : Bool) (name error : String) (rest : M (St e.World) Outcome) (d : MonoStatus)
      → SoFar b d
      → Into d rest
      → Into d (clone_failed e continue name error rest)
  unfolding clone_failed recount
  clone_failed-saves true name error rest d so k = Leads-then _ _ (At-send e server _) k
  clone_failed-saves false name error rest d so k =
      Leads-then _ _ (At-recount e server)
        (fail_migration-saves e server _ (rw cloning refl) so.advanced)

  handle_result-saves :
      (i : ℕ) (result : Result Cloned) (rest : M (St e.World) Outcome) (c : MonoStatus)
      → SoFar b c
      → waits_at i (phases c.repo_statuses) ≡ true
      → ((d : MonoStatus) (q : RepoPhase) → Next b c d i q → Into d rest)
      → Into c (handle_result e i result rest)
  unfolding handle_result with_repo with_repo_failed
  handle_result-saves i (err error) rest c so w k = Leads-bind _ _ (At-now e server) λ t.
      let d = with_repo_failed i t error c in
      let next : Next b c d i RepoPhase.failed =
        Next-result b c d i RepoPhase.failed cloning so w refl refl
          (at_repo-phases _ RepoPhase.failed (λ r. refl) i c.repo_statuses) in
      Leads-then _ _ (At-change e server (with_repo_failed i t error)) (
        Leads-then _ _ (At-event e server _) (
          At-reads e server _ _
            λ m same. clone_failed-saves _ _ error rest d next.so_far (k d RepoPhase.failed next)))
  handle_result-saves i (ok cloned) rest c so w k =
      let d = with_repo i (repo_cloned cloned) c in
      let next : Next b c d i RepoPhase.rewriting =
        Next-result b c d i RepoPhase.rewriting cloning so w refl refl
          (at_repo-phases _ RepoPhase.rewriting (λ r. refl) i c.repo_statuses) in
      Leads-then _ _ (At-change e server (with_repo i (repo_cloned cloned))) (
        At-reads e server _ _
          λ m same. Leads-then _ _ (At-send e server _) (k d RepoPhase.rewriting next))

  start-saves :
      (i : ℕ) (started : Option ℕ) (m : M (St e.World) Outcome) (c : MonoStatus)
      → ((d : MonoStatus)
          → d.phase ≡ c.phase
          → phases d.repo_statuses ≡ phases c.repo_statuses
          → Into d m)
      → Into c (start_unless e i started >> m)
  unfolding start_unless with_repo ◌>>=◌ ◌>>◌ now
  start-saves i (some t) m c k = Leads-then _ _ (Leads-pure _) (k c refl refl)
  start-saves i none m c k = record {
    at = λ s h.
        let t = (e.now s.world).0 in
        (k (with_repo i (repo_started t) c) refl
            (at_repo-phases_same _ (λ r. refl) i c.repo_statuses)).at
          _ ((At-change e server (with_repo i (repo_started t))).at _ ((At-now e server).at s h));
  }

  abbrev places : List (ℕ × Result Cloned) → List ℕ
  places l = map (λ r. r.0) l

  pub collect_results-saves :
      (n : ℕ) (results : List (ℕ × Result Cloned)) (c : MonoStatus)
      → SoFar b c
      → Ready (phases c.repo_statuses) (places results)
      → Moved b c results
      → Into c (collect_results e n results)
  unfolding collect_results after_results recount
  collect_results-saves n [] c so ready moved = Leads-then _ _ (At-change e server _) (
      Leads-then _ _ (At-recount e server)
        (save_and-saves e server _ (SoFar-works (SoFar-same b c _ refl refl so) moved)))
  collect_results-saves n ((i, result) ∷ rest) c so (w, apart, ready) moved =
      At-reads e server _ _ λ m same. start-saves i _ _ c λ d p s.
        handle_result-saves i result (collect_results e n rest) d (SoFar-same b c d p s so)
          (subst (λ (x : List RepoPhase). waits_at i x ≡ true) (sym s) w)
          λ f q next.
            collect_results-saves n rest f next.so_far
              (subst (λ (x : List RepoPhase). Ready x (places rest))
                (sym (next.phases_lem ∙ ap (λ (x : List RepoPhase). set x i q) s))
                (Ready-set i q (phases c.repo_statuses) (places rest) apart ready))
              (Moved-any b f rest next.lowered)
