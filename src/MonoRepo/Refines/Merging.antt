-- ===== src/MonoRepo/Refines/Merging.antt =====
-- processRewriting, processMerging and processPushing make the machine's moves.
use reposhift.Common.{
  ℕ, ◌≡◌, refl, sym, ap, ◌∙◌, subst, String, Bool, true, false, Option, none, some, get_elem?,
  arith,
}
use reposhift.Common.Result.{Result, ok, err}
use reposhift.Common.State.{M, ◌>>=◌, ◌>>◌}
use reposhift.Common.State.Leads.{Leads, Leads-bind, Leads-then}
use reposhift.MonoRepo.Types.{MonoPhase, RepoPhase, SourceRepo, RepoStatus, MonoStatus}
use reposhift.MonoRepo.Env.{Env, St, Outcome}
use reposhift.MonoRepo.Action.{now}
use reposhift.MonoRepo.Git.{Rewritten, slashed}
use reposhift.MonoRepo.Progress.{recount, with_statistics, update_statistics}
use reposhift.MonoRepo.Cloning.{with_repo}
use reposhift.MonoRepo.Merging.{
  exclude_for, find_source_repo, find_next_repo, is_rewriting, is_merging, after_rewrite,
  rewrite_next, process_rewriting, after_merge, merge_repo, merge_next, after_init, init_unless,
  process_merging,
}
use reposhift.MonoRepo.Machine.{phases, stays, Works}
use reposhift.MonoRepo.Saves.{
  Server, At, Saved, At-ask, At-now, At-send, At-change, At-reads, At-get_workspace, save_and-saves,
}
use reposhift.MonoRepo.Steady.Git.{
  Keeps-collect_branches_and_tags, Keeps-rewrite, Keeps-init_mono_repo, Keeps-merge,
}
use reposhift.MonoRepo.Refines.{
  at_repo-phases, Changed-works, fail_migration-saves, At-recount, go_on-saves,
  handle_repo_error-saves,
}
use reposhift.MonoRepo.Refines.Search.{
  NextIs, find_next_repo-NextIs, all_done, rewriting_done, merging_done, is_rewriting-eq,
  is_merging-eq,
}

module _ (e : Env) (server : Server e) (b : MonoStatus) where
  abbrev pub Into : MonoStatus → M (St e.World) Outcome → Type 0
  Into c m = Leads (At e server b c) (Saved e server b (Works b)) m

  pub statistics-saves :
      {c : MonoStatus} (m : M (St e.World) Outcome)
      → ((t : ℕ) → Into (with_statistics t c) m)
      → Into c (update_statistics e >> m)
  unfolding update_statistics ◌>>=◌ ◌>>◌ now
  statistics-saves m k = record {
    at = λ s h.
        let t = (e.now s.world).0 in
        (k t).at _ ((At-change e server (with_statistics t)).at _ ((At-now e server).at s h));
  }

  after_rewrite-saves :
      (i : ℕ) (r : RepoStatus) (result : Result Rewritten)
      → b.phase ≡ MonoPhase.rewriting
      → get_elem? (phases b.repo_statuses) i ≡ some RepoPhase.rewriting
      → Into b (after_rewrite e i r result)
  unfolding after_rewrite with_repo recount
  after_rewrite-saves i r (err error) h g =
      handle_repo_error-saves e server i RepoPhase.rewriting _ _ (rw h refl) g (rw h refl)
  after_rewrite-saves i r (ok w) h g = Leads-then _ _ (At-change e server _) (
      Leads-then _ _ (At-send e server _) (
        Leads-then _ _ (At-recount e server) (
          save_and-saves e server _ (
            Changed-works {i = i} {p = RepoPhase.rewriting} {q = RepoPhase.merging} (record {
              same_phase = refl;
              was = g;
              allowed = rw h refl;
              phases_lem = at_repo-phases _ RepoPhase.merging (λ r. refl) i b.repo_statuses;
            })))))

  rewrite_next-saves :
      (o : Option (ℕ × RepoStatus))
      → b.phase ≡ MonoPhase.rewriting
      → NextIs is_rewriting 0 b.repo_statuses o
      → Into b (rewrite_next e o)
  unfolding rewrite_next
  rewrite_next-saves none h a =
      go_on-saves e server _ _ _ (rw h refl)
        (rw h (all_done is_rewriting MonoPhase.rewriting (phases b.repo_statuses) rewriting_done a))
  rewrite_next-saves (some (i, r)) h (j, same, g, t) =
      Leads-bind _ _ (At-get_workspace e server) λ dir. At-reads e server _ _ λ m n.
        Leads-bind _ _ (Keeps-rewrite e (At-ask e server) _ _ _) λ result.
          after_rewrite-saves i r result h (
            ap (λ (x : ℕ). get_elem? (phases b.repo_statuses) x) (same ∙ omega arith)
            ∙ g
            ∙ ap some (is_rewriting-eq r.phase t))

  pub process_rewriting-saves : b.phase ≡ MonoPhase.rewriting → Into b (process_rewriting e)
  unfolding process_rewriting
  process_rewriting-saves h = At-reads e server _ _ λ m same. rewrite_next-saves _ h (
      subst
        (λ (x : MonoStatus).
          NextIs is_rewriting 0 b.repo_statuses (find_next_repo is_rewriting 0 x.repo_statuses))
        (sym same) (find_next_repo-NextIs is_rewriting 0 b.repo_statuses))

  after_merge-saves :
      (i : ℕ) (r : RepoStatus) (branches tags : ℕ) (result : Result (Unit {0}))
      → b.phase ≡ MonoPhase.merging
      → get_elem? (phases b.repo_statuses) i ≡ some RepoPhase.merging
      → Into b (after_merge e i r branches tags result)
  unfolding after_merge with_repo recount with_statistics
  after_merge-saves i r branches tags (err error) h g =
      handle_repo_error-saves e server i RepoPhase.merging _ _ (rw h refl) g (rw h refl)
  after_merge-saves i r branches tags (ok done) h g = Leads-bind _ _ (At-now e server) λ t.
      Leads-then _ _ (At-change e server _) (
        Leads-then _ _ (At-send e server _) (
          Leads-then _ _ (At-recount e server) (
            statistics-saves _ λ u. save_and-saves e server _ (
              Changed-works {i = i} {p = RepoPhase.merging} {q = RepoPhase.completed} (record {
                same_phase = refl;
                was = g;
                allowed = rw h refl;
                phases_lem = at_repo-phases _ RepoPhase.completed (λ r. refl) i b.repo_statuses;
              })))))

  merge_repo-saves :
      (dir : String) (i : ℕ) (r : RepoStatus) (source : Option SourceRepo)
      → b.phase ≡ MonoPhase.merging
      → get_elem? (phases b.repo_statuses) i ≡ some RepoPhase.merging
      → Into b (merge_repo e dir i r source)
  unfolding merge_repo
  merge_repo-saves dir i r source h g =
      Leads-bind _ _ (Keeps-collect_branches_and_tags e (At-ask e server) _) λ names.
        Leads-bind _ _ (Keeps-merge e (At-ask e server) _ _ _ _ names.0 _ (exclude_for source))
          λ result. after_merge-saves i r _ _ result h g

  merge_next-saves :
      (dir : String) (o : Option (ℕ × RepoStatus))
      → b.phase ≡ MonoPhase.merging
      → NextIs is_merging 0 b.repo_statuses o
      → Into b (merge_next e dir o)
  unfolding merge_next
  merge_next-saves dir none h a =
      go_on-saves e server _ _ _ (rw h refl)
        (rw h (all_done is_merging MonoPhase.merging (phases b.repo_statuses) merging_done a))
  merge_next-saves dir (some (i, r)) h (j, same, g, t) = At-reads e server _ _ λ m n.
      merge_repo-saves dir i r (find_source_repo r.name m.spec.source_repos) h (
        ap (λ (x : ℕ). get_elem? (phases b.repo_statuses) x) (same ∙ omega arith)
        ∙ g
        ∙ ap some (is_merging-eq r.phase t))

  after_init-saves :
      (dir : String) (result : Result String)
      → b.phase ≡ MonoPhase.merging
      → Into b (after_init e dir result)
  unfolding after_init
  after_init-saves dir (err error) h = fail_migration-saves e server _ (rw h refl) stays
  after_init-saves dir (ok made) h = At-reads e server _ _ λ m same. merge_next-saves dir _ h (
      subst
        (λ (x : MonoStatus).
          NextIs is_merging 0 b.repo_statuses (find_next_repo is_merging 0 x.repo_statuses))
        (sym same) (find_next_repo-NextIs is_merging 0 b.repo_statuses))

  init_unless-saves :
      (has : Bool) (dir default : String)
      → b.phase ≡ MonoPhase.merging
      → Into b (init_unless e has dir default)
  unfolding init_unless
  init_unless-saves true dir default h = after_init-saves dir (ok (slashed dir "monorepo")) h
  init_unless-saves false dir default h =
      Leads-bind _ _ (Keeps-init_mono_repo e (At-ask e server) _ _)
        (λ result. after_init-saves dir result h)

  pub process_merging-saves : b.phase ≡ MonoPhase.merging → Into b (process_merging e)
  unfolding process_merging
  process_merging-saves h =
      Leads-bind _ _ (At-get_workspace e server)
        λ dir. At-reads e server _ _ λ m same. init_unless-saves _ dir _ h
