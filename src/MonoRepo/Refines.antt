-- ===== src/MonoRepo/Refines.antt =====
-- Every handler of the monorepo controller makes the machine's moves: the failures and the changes
-- of phase, which all handlers share.
pub mod Ready
pub mod Cloning
pub mod Search
pub mod Merging
pub mod Pushing
pub mod Phases
pub mod Reconcile
use reposhift.Common.{
  ℕ, zero, suc, ◌≡◌, refl, sym, ap, ◌∙◌, subst, String, Bool, true, false, Option, none, some, List,
  [], ◌∷◌, all, map, get_elem?, set,
}
use reposhift.Common.State.{M}
use reposhift.Common.State.Leads.{Leads, Keeps, Leads-bind, Leads-then, Leads-pure}
use reposhift.MonoRepo.Types.{MonoPhase, RepoPhase, RepoStatus, MonoStatus}
use reposhift.MonoRepo.Env.{Env, St, Outcome}
use reposhift.MonoRepo.Action.{change}
use reposhift.MonoRepo.Progress.{
  at_repo, failed_with, recount, update_progress_summary, with_repo_failed, fail_migration,
  after_repo_error, handle_repo_error,
}
use reposhift.MonoRepo.Cloning.{go_on, with_repo}
use reposhift.MonoRepo.Machine.{
  phases, step_in, Advances, stays, advances, is_active, next_phase, is_done_in, Works, goes_on,
  changes, fails,
}
use reposhift.MonoRepo.Saves.{
  Server, At, Saved, At-now, At-event, At-send, At-change, At-reads, save_and-saves,
}

-- a change of one repository, on the phases
pub at_repo-phases :
    (f : RepoStatus → RepoStatus) (q : RepoPhase)
    → ((r : RepoStatus) → (f r).phase ≡ q)
    → (i : ℕ) (l : List RepoStatus) → phases (at_repo i f l) ≡ set (phases l) i q
unfolding at_repo
at_repo-phases f q h i [] = refl
at_repo-phases f q h zero (r ∷ l) = rw (h r) refl
at_repo-phases f q h (suc i) (r ∷ l) =
    ap (λ (x : List RepoPhase). r.phase ∷ x) (at_repo-phases f q h i l)

pub at_repo-phases_same :
    (f : RepoStatus → RepoStatus)
    → ((r : RepoStatus) → (f r).phase ≡ r.phase)
    → (i : ℕ) (l : List RepoStatus) → phases (at_repo i f l) ≡ phases l
unfolding at_repo
at_repo-phases_same f h i [] = refl
at_repo-phases_same f h zero (r ∷ l) = rw (h r) refl
at_repo-phases_same f h (suc i) (r ∷ l) =
    ap (λ (x : List RepoPhase). r.phase ∷ x) (at_repo-phases_same f h i l)

pub Advances-trans :
    {p : MonoPhase} {l k j : List RepoPhase} → Advances p l k → Advances p k j → Advances p l j
Advances-trans stays b = b
Advances-trans (advances i p q g s a) b = advances i p q g s (Advances-trans a b)

pub Advances-equal : {p : MonoPhase} {l k : List RepoPhase} → k ≡ l → Advances p l k
Advances-equal {p} {l} e = subst (λ (x : List RepoPhase). Advances p l x) (sym e) stays

-- A repository's change of phase, from the stored status to the copy.
pub record Changed (b c : MonoStatus) (i : ℕ) (p q : RepoPhase) : Type 0 where
  pub same_phase : c.phase ≡ b.phase
  pub was : get_elem? (phases b.repo_statuses) i ≡ some p
  pub allowed : step_in b.phase p q ≡ true
  pub phases_lem : phases c.repo_statuses ≡ set (phases b.repo_statuses) i q

pub Changed-works : {b c : MonoStatus} {i : ℕ} {p q : RepoPhase} → Changed b c i p q → Works b c
Changed-works {i} {p} {q} h =
    changes i p q h.same_phase h.was h.allowed (Advances-equal h.phases_lem)

Changed-Advances :
    {b c : MonoStatus} {i : ℕ} {p q : RepoPhase}
    → Changed b c i p q
    → Advances b.phase (phases b.repo_statuses) (phases c.repo_statuses)
Changed-Advances {i} {p} {q} h = advances i p q h.was h.allowed (Advances-equal h.phases_lem)

module _ (e : Env) (server : Server e) {b c : MonoStatus} where
  pub fail_migration-saves :
      (message : String)
      → is_active b.phase ≡ true
      → Advances b.phase (phases b.repo_statuses) (phases c.repo_statuses)
      → Leads (At e server b c) (Saved e server b (Works b)) (fail_migration e message)
  unfolding fail_migration failed_with
  fail_migration-saves message act a = Leads-bind _ _ (At-now e server) λ t.
      Leads-then _ _ (At-change e server (failed_with t message)) (
        Leads-then _ _ (At-send e server _)
          (Leads-then _ _ (At-event e server _) (save_and-saves e server _ (fails act refl a))))

  pub At-recount : Leads (At e server b c) (At e server b (recount e c)) (update_progress_summary e)
  unfolding update_progress_summary
  At-recount = At-change e server (recount e)

module _ (e : Env) (server : Server e) {b : MonoStatus} where
  pub go_on-saves :
      (phase : MonoPhase) (step message : String)
      → next_phase b.phase ≡ some phase
      → all (is_done_in b.phase) (phases b.repo_statuses) ≡ true
      → Leads (At e server b b) (Saved e server b (Works b)) (go_on e phase step message)
  unfolding go_on
  go_on-saves phase step message n d =
      Leads-then _ _ (At-change e server _)
        (Leads-then _ _ (At-send e server _) (save_and-saves e server _ (goes_on n d refl)))

  after_repo_error-saves :
      {c : MonoStatus} {i : ℕ} {p q : RepoPhase} (continue : Bool) (name error : String)
      → is_active b.phase ≡ true
      → Changed b c i p q
      → Leads
          (At e server b c)
          (Saved e server b (Works b))
          (after_repo_error e continue name error)
  unfolding after_repo_error recount
  after_repo_error-saves false name error act h =
      fail_migration-saves e server _ act (Changed-Advances h)
  after_repo_error-saves {i} {p} {q} true name error act h = Leads-then _ _ (At-send e server _) (
      Leads-then _ _ (At-recount e server) (
        save_and-saves e server _
          (changes i p q h.same_phase h.was h.allowed (Advances-equal h.phases_lem))))

  pub handle_repo_error-saves :
      (i : ℕ) (p : RepoPhase) (name error : String)
      → is_active b.phase ≡ true
      → get_elem? (phases b.repo_statuses) i ≡ some p
      → step_in b.phase p RepoPhase.failed ≡ true
      → Leads (At e server b b) (Saved e server b (Works b)) (handle_repo_error e i name error)
  unfolding handle_repo_error with_repo_failed
  handle_repo_error-saves i p name error act g s = Leads-bind _ _ (At-now e server) λ t.
      Leads-then _ _ (At-change e server (with_repo_failed i t error)) (
        Leads-then _ _ (At-event e server _) (
          At-reads e server _ _ λ m same.
            after_repo_error-saves {i = i} {p = p} {q = RepoPhase.failed} _ name error act (record {
              same_phase = refl;
              was = g;
              allowed = s;
              phases_lem = at_repo-phases _ RepoPhase.failed (λ r. refl) i b.repo_statuses;
            })))
