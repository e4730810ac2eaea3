-- ===== src/MonoRepo/Refines/Phases.antt =====
-- Each phase that ends by itself makes one move of the machine.

use reposhift.Common.{◌≡◌, refl, String, true, List, [], ◌∷◌, all, arith}
use reposhift.Common.Result.{Result, ok, err}
use reposhift.Common.State.Leads.{Leads, Leads-bind, Leads-then, Leads-pure}
use reposhift.MonoRepo.Types.{MonoPhase, RepoPhase, MonoStatus, MonoSpec}
use reposhift.MonoRepo.Env.{Env, look_path}
use reposhift.MonoRepo.Validate.{
  Mistake, validate_mono_repo_migration, judge, validate_with, validate_after, process_validating,
}
use reposhift.MonoRepo.Reconcile.{process_pending, process_phase}
use reposhift.MonoRepo.Machine.{phases, stays, is_active, is_done_in, Works, goes_on}
use reposhift.MonoRepo.Saves.{
  Server, At, Saved, At-ask, At-event, At-send, At-change, At-reads, status_update-saves,
  save_and-saves,
}
use reposhift.MonoRepo.Steady.{Keeps-get_azure_dev_ops_token, Keeps-get_git_hub_token}
use reposhift.MonoRepo.Refines.{fail_migration-saves}
use reposhift.MonoRepo.Refines.Cloning.{Reorders}
use reposhift.MonoRepo.Refines.Cloning.Batch.{process_cloning-saves}
use reposhift.MonoRepo.Refines.Merging.{process_rewriting-saves, process_merging-saves}
use reposhift.MonoRepo.Refines.Pushing.{process_pushing-saves}

all_in :
    (p : MonoPhase) (l : List RepoPhase)
    → ((q : RepoPhase) → is_done_in p q ≡ true)
    → all (is_done_in p) l ≡ true
all_in p [] h = refl
all_in p (q ∷ l) h = ground (arith, h q, all_in p l h)

module _ (e : Env) (server : Server e) (b : MonoStatus) where
  judge-saves :
      (l : List Mistake)
      → b.phase ≡ MonoPhase.validating
      → Leads (At e server b b) (Saved e server b (Works b)) (judge e l)
  unfolding judge
  judge-saves (m ∷ rest) h = fail_migration-saves e server _ (rw h refl) stays
  judge-saves [] h = Leads-then _ _ (At-change e server _) (
      Leads-then _ _ (At-send e server _) (
        Leads-then _ _ (At-event e server _) (
          save_and-saves e server _ (
            goes_on (rw h refl)
              (rw h (all_in MonoPhase.validating (phases b.repo_statuses) (λ q. refl))) refl))))

  validate_with-saves :
      (spec : MonoSpec) (token : Result String)
      → b.phase ≡ MonoPhase.validating
      → Leads (At e server b b) (Saved e server b (Works b)) (validate_with e spec token)
  unfolding validate_with validate_mono_repo_migration
  validate_with-saves spec (err error) h = fail_migration-saves e server _ (rw h refl) stays
  validate_with-saves spec (ok token) h =
      Leads-bind _ _ (Leads-then _ _ (At-ask e server (look_path _)) (Leads-pure _))
        (λ mistakes. judge-saves mistakes h)

  validate_after-saves :
      (namespace : String) (spec : MonoSpec) (token : Result String)
      → b.phase ≡ MonoPhase.validating
      → Leads (At e server b b) (Saved e server b (Works b)) (validate_after e namespace spec token)
  unfolding validate_after
  validate_after-saves namespace spec (err error) h =
      fail_migration-saves e server _ (rw h refl) stays
  validate_after-saves namespace spec (ok token) h =
      Leads-bind _ _ (Keeps-get_git_hub_token e (At-ask e server) namespace spec)
        (λ git_hub_token. validate_with-saves spec git_hub_token h)

  process_validating-saves :
      b.phase ≡ MonoPhase.validating
      → Leads (At e server b b) (Saved e server b (Works b)) (process_validating e)
  unfolding process_validating
  process_validating-saves h = At-reads e server _ _ λ m same.
      Leads-bind _ _ (Keeps-get_azure_dev_ops_token e (At-ask e server) m.namespace m.spec)
        (λ token. validate_after-saves m.namespace m.spec token h)

  process_pending-saves :
      b.phase ≡ MonoPhase.pending
      → Leads (At e server b b) (Saved e server b (Works b)) (process_pending e)
  unfolding process_pending
  process_pending-saves h = Leads-then _ _ (At-change e server _) (
      Leads-then _ _ (At-send e server _) (
        Leads-then _ _ (At-event e server _) (
          Leads-bind _ _
            (status_update-saves e server (
              goes_on (rw h refl)
                (rw h (all_in MonoPhase.pending (phases b.repo_statuses) (λ q. refl))) refl))
            (λ error. Leads-pure _))))

  -- a phase that ends by itself makes a move
  pub process_phase-saves :
      Reorders e
      → (phase : MonoPhase) → b.phase ≡ phase
      → is_active phase ≡ true
      → Leads (At e server b b) (Saved e server b (Works b)) (process_phase e phase)
  unfolding process_phase
  process_phase-saves r MonoPhase.pending h a = process_pending-saves h
  process_phase-saves r MonoPhase.validating h a = process_validating-saves h
  process_phase-saves r MonoPhase.cloning h a = process_cloning-saves e server r h
  process_phase-saves r MonoPhase.rewriting h a = process_rewriting-saves e server b h
  process_phase-saves r MonoPhase.merging h a = process_merging-saves e server b h
  process_phase-saves r MonoPhase.pushing h a = process_pushing-saves e server b h
  process_phase-saves r MonoPhase.unset h a = cc
  process_phase-saves r MonoPhase.completed h a = cc
  process_phase-saves r MonoPhase.failed h a = cc
  process_phase-saves r MonoPhase.cancelled h a = cc
  process_phase-saves r MonoPhase.paused h a = cc
