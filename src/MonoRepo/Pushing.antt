-- ===== src/MonoRepo/Pushing.antt =====
-- processPushing: the monorepo goes to GitHub, and the migration is done.
use reposhift.Common.{ℕ, String, Bool, true, false, none, some, [], ◌∷◌}
use reposhift.Common.Text.{concat}
use reposhift.Common.Result.{Result, ok, err}
use reposhift.Common.State.{M, ◌>>=◌, ◌>>◌}
use reposhift.MonoRepo.Types.{MonoPhase, MonoSpec, MonoStatus}
use reposhift.MonoRepo.Env.{Env, St, Outcome, check_repository_exists, create_repository}
use reposhift.MonoRepo.Action.{
  reads, change, event, now, ask, send_web_socket_update, returned, with_progress,
}
use reposhift.MonoRepo.Tokens.{get_git_hub_token}
use reposhift.MonoRepo.Git.{slashed}
use reposhift.MonoRepo.Assemble.{push_mono_repo}
use reposhift.MonoRepo.Progress.{
  get_workspace, update_progress_summary, update_statistics, save_and, fail_migration,
  cleanup_workspace,
}
use reposhift.MonoRepo.Merging.{or_main, has_completed}

module _ (e : Env) where
  abbrev mono_url : MonoSpec → String
  mono_url spec = concat ("https://github.com/" ∷ spec.owner ∷ "/" ∷ spec.repository ∷ [])

  unfoldable pub pushed_at : ℕ → MonoSpec → MonoStatus → MonoStatus
  pushed_at t spec b =
      with_progress
        (λ p. record p {
          current_step = "MonoRepo migration completed successfully";
          percentage = 100;
        })
        (record b {
          phase = MonoPhase.completed;
          completion_time = some t;
          mono_repo_url = mono_url spec;
        })

  unfoldable pub after_push : Result (Unit {0}) → M (St e.World) Outcome
  unfolding fail_migration pushed_at update_progress_summary update_statistics cleanup_workspace
      save_and
  after_push (err error) = fail_migration e (concat ("Failed to push monorepo: " ∷ error ∷ []))
  after_push (ok done) = do
    t ← now e
    m ← reads (λ m. m)
    change (pushed_at t m.spec)
    update_progress_summary e
    update_statistics e
    send_web_socket_update e "MonoRepo migration completed successfully"
    event "MigrationCompleted"
    cleanup_workspace e
    save_and e (returned none)

  unfoldable pub push_with : (token : String) → MonoSpec → M (St e.World) Outcome
  unfolding get_workspace push_mono_repo after_push
  push_with token spec = do
    work_dir ← get_workspace
    result ←
        push_mono_repo e (slashed work_dir "monorepo") token spec.owner spec.repository
          (or_main spec.default_branch)
    after_push result

  unfoldable pub after_create : (token : String) → MonoSpec → Result String → M (St e.World) Outcome
  unfolding fail_migration push_with
  after_create token spec (err error) =
      fail_migration e (concat ("Failed to create GitHub repository: " ∷ error ∷ []))
  after_create token spec (ok address) = push_with token spec

  unfoldable pub after_check : (token : String) → MonoSpec → Result Bool → M (St e.World) Outcome
  unfolding fail_migration push_with after_create
  after_check token spec (err error) =
      fail_migration e (concat ("Failed to check target repo: " ∷ error ∷ []))
  after_check token spec (ok true) = push_with token spec
  after_check token spec (ok false) = do
    created ← ask e (create_repository token spec.owner spec.repository spec.visibility)
    after_create token spec created

  unfoldable pub push_by_token : MonoSpec → Result String → M (St e.World) Outcome
  unfolding fail_migration after_check
  push_by_token spec (err error) =
      fail_migration e (concat ("Failed to get GitHub token: " ∷ error ∷ []))
  push_by_token spec (ok token) = do
    exists ← ask e (check_repository_exists token spec.owner spec.repository)
    after_check token spec exists

  unfoldable pub push_if : (has_completed : Bool) → M (St e.World) Outcome
  unfolding fail_migration get_git_hub_token push_by_token
  push_if false =
      fail_migration e "No repos were successfully merged into the monorepo, aborting push"
  push_if true = do
    m ← reads (λ m. m)
    token ← get_git_hub_token e m.namespace m.spec
    push_by_token m.spec token

  unfoldable pub process_pushing : M (St e.World) Outcome
  unfolding push_if
  process_pushing = do l ← reads (λ m. m.status.repo_statuses); push_if (has_completed l)
