-- ===== src/MonoRepo/Refines/Pushing.antt =====
-- processPushing makes the machine's moves.
use reposhift.Common.{◌≡◌, refl, sym, ap, String, Bool, true, false, Option, none, some}
use reposhift.Common.Result.{Result, ok, err}
use reposhift.Common.State.Leads.{Leads, Keeps, Leads-bind, Leads-then, Leads-pure, Leads-if}
use reposhift.MonoRepo.Types.{MonoPhase, MonoStatus, MonoSpec}
use reposhift.MonoRepo.Env.{Env, check_repository_exists, create_repository, cleanup_dir}
use reposhift.MonoRepo.Progress.{summed, recount, with_statistics, cleanup_found, cleanup_workspace}
use reposhift.MonoRepo.Merging.{has_completed}
use reposhift.MonoRepo.Pushing.{
  pushed_at, after_push, push_with, after_create, after_check, push_by_token, push_if,
  process_pushing,
}
use reposhift.MonoRepo.Machine.{stays, Works, finishes}
use reposhift.MonoRepo.Saves.{
  Server, At, Saved, At-ask, At-now, At-event, At-send, At-change, At-reads, At-get_workspace,
  At-forget_workspace, save_and-saves,
}
use reposhift.MonoRepo.Steady.{Keeps-get_git_hub_token}
use reposhift.MonoRepo.Steady.Git.{Keeps-push}
use reposhift.MonoRepo.Refines.{fail_migration-saves, At-recount}
use reposhift.MonoRepo.Refines.Merging.{statistics-saves}

module _ (e : Env) (server : Server e) (b : MonoStatus) where
  pub Keeps-cleanup_workspace : {c : MonoStatus} → Keeps (At e server b c) (cleanup_workspace e)
  unfolding cleanup_workspace
  Keeps-cleanup_workspace {c} = Leads-bind _ _ (At-forget_workspace e server) found
    where
      found : (o : Option String) → Keeps (At e server b c) (cleanup_found e o)
      found none = unfold cleanup_found in Leads-pure _
      found (some dir) =
          unfold cleanup_found in Leads-if _ _ _ (Leads-pure _) (At-ask e server (cleanup_dir dir))

  after_push-saves :
      (result : Result (Unit {0}))
      → b.phase ≡ MonoPhase.pushing
      → has_completed b.repo_statuses ≡ true
      → Leads (At e server b b) (Saved e server b (Works b)) (after_push e result)
  unfolding after_push pushed_at recount summed with_statistics
  after_push-saves (err error) h has = fail_migration-saves e server _ (rw h refl) stays
  after_push-saves (ok done) h has = Leads-bind _ _ (At-now e server) λ t.
      At-reads e server _ _ λ m same. Leads-then _ _ (At-change e server (pushed_at e t m.spec)) (
        Leads-then _ _ (At-recount e server) (
          statistics-saves e server b _ λ u. Leads-then _ _ (At-send e server _) (
            Leads-then _ _ (At-event e server _) (
              Leads-then _ _ Keeps-cleanup_workspace (
                save_and-saves e server _ (
                  finishes h has refl refl
                    (record { completed_lem = refl; failed_lem = refl; skipped_lem = refl })))))))

  push_with-saves :
      (token : String) (spec : MonoSpec)
      → b.phase ≡ MonoPhase.pushing
      → has_completed b.repo_statuses ≡ true
      → Leads (At e server b b) (Saved e server b (Works b)) (push_with e token spec)
  unfolding push_with
  push_with-saves token spec h has = Leads-bind _ _ (At-get_workspace e server) λ dir.
      Leads-bind _ _ (Keeps-push e (At-ask e server) _ _ _ _ _)
        (λ result. after_push-saves result h has)

  after_create-saves :
      (token : String) (spec : MonoSpec) (created : Result String)
      → b.phase ≡ MonoPhase.pushing
      → has_completed b.repo_statuses ≡ true
      → Leads (At e server b b) (Saved e server b (Works b)) (after_create e token spec created)
  unfolding after_create
  after_create-saves token spec (err error) h has =
      fail_migration-saves e server _ (rw h refl) stays
  after_create-saves token spec (ok address) h has = push_with-saves token spec h has

  after_check-saves :
      (token : String) (spec : MonoSpec) (exists : Result Bool)
      → b.phase ≡ MonoPhase.pushing
      → has_completed b.repo_statuses ≡ true
      → Leads (At e server b b) (Saved e server b (Works b)) (after_check e token spec exists)
  unfolding after_check
  after_check-saves token spec (err error) h has = fail_migration-saves e server _ (rw h refl) stays
  after_check-saves token spec (ok true) h has = push_with-saves token spec h has
  after_check-saves token spec (ok false) h has =
      Leads-bind _ _ (At-ask e server (create_repository _ _ _ _))
        (λ created. after_create-saves token spec created h has)

  push_by_token-saves :
      (spec : MonoSpec) (token : Result String)
      → b.phase ≡ MonoPhase.pushing
      → has_completed b.repo_statuses ≡ true
      → Leads (At e server b b) (Saved e server b (Works b)) (push_by_token e spec token)
  unfolding push_by_token
  push_by_token-saves spec (err error) h has = fail_migration-saves e server _ (rw h refl) stays
  push_by_token-saves spec (ok token) h has =
      Leads-bind _ _ (At-ask e server (check_repository_exists _ _ _))
        (λ exists. after_check-saves token spec exists h has)

  push_if-saves :
      (has : Bool)
      → b.phase ≡ MonoPhase.pushing
      → has_completed b.repo_statuses ≡ has
      → Leads (At e server b b) (Saved e server b (Works b)) (push_if e has)
  unfolding push_if
  push_if-saves false h has = fail_migration-saves e server _ (rw h refl) stays
  push_if-saves true h has = At-reads e server _ _ λ m same.
      Leads-bind _ _ (Keeps-get_git_hub_token e (At-ask e server) m.namespace m.spec)
        (λ token. push_by_token-saves m.spec token h has)

  pub process_pushing-saves :
      b.phase ≡ MonoPhase.pushing
      → Leads (At e server b b) (Saved e server b (Works b)) (process_pushing e)
  unfolding process_pushing
  process_pushing-saves h = At-reads e server _ _ λ m same.
      push_if-saves _ h (sym (ap (λ (x : MonoStatus). has_completed x.repo_statuses) same))
