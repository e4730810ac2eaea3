-- ===== src/MonoRepo/Cloning.antt =====
-- processCloning: a batch of clones, and their results as they arrive. The clones of a batch run
-- in an order that the environment chooses, one after the other; their results arrive in it.
use reposhift.Common.{
  ℕ, zero, suc, String, Bool, true, false, ◌&&◌, ◌||◌, Option, none, some, List, [], ◌∷◌, length,
  all, take, if◌then◌else◌,
}
use reposhift.Common.Int.{pos_part}
use reposhift.Common.Text.{concat}
use reposhift.Common.Result.{Result, ok, err}
use reposhift.Common.State.{M, ◌>>=◌, ◌>>◌, pure}
use reposhift.MonoRepo.Types.{
  MonoPhase, RepoPhase, RepoStatus, MonoStatus, MonoMigration, get_continue_on_error,
  get_parallel_clones,
}
use reposhift.MonoRepo.Env.{Env, St, Outcome, Cloned, stat, clone_mono_repo_source}
use reposhift.MonoRepo.Action.{
  reads, change, event, now, ask, schedule, send_web_socket_update, requeued,
  mono_repo_running_requeue_interval, with_mono_phase, at_step,
}
use reposhift.MonoRepo.Tokens.{get_azure_dev_ops_token}
use reposhift.MonoRepo.Git.{remove_if}
use reposhift.MonoRepo.Progress.{
  at_repo, with_repo_failed, get_workspace, update_progress_summary, save_and, fail_migration,
}

abbrev pub is_pending : RepoPhase → Bool
is_pending RepoPhase.pending = true
is_pending _ = false

abbrev pub is_cloning : RepoPhase → Bool
is_cloning RepoPhase.cloning = true
is_cloning _ = false

-- the places of the repositories that need cloning, counted from `i`
unfoldable pub pending_repos : ℕ → List RepoStatus → List ℕ
pending_repos i [] = []
pending_repos i (r ∷ rest) =
    let others = pending_repos (suc i) rest in
    if is_pending r.phase || is_cloning r.phase then i ∷ others else others

unfoldable name_at : ℕ → List RepoStatus → String
name_at i [] = ""
name_at zero (r ∷ rest) = r.name
name_at (suc i) (r ∷ rest) = name_at i rest

unfoldable pub start_time_at : ℕ → List RepoStatus → Option ℕ
start_time_at i [] = none
start_time_at zero (r ∷ rest) = r.start_time
start_time_at (suc i) (r ∷ rest) = start_time_at i rest

abbrev pub repo_started : ℕ → RepoStatus → RepoStatus
repo_started t r = record r { start_time = some t }

abbrev pub repo_cloned : Cloned → RepoStatus → RepoStatus
repo_cloned c r = record r {
  default_branch = c.default_branch;
  branches_migrated = length c.branches;
  tags_migrated = length c.tags;
  commit_count = c.commit_count;
  size_mb = c.size_mb;
  phase = RepoPhase.rewriting;
}

unfoldable pub with_repo : ℕ → (RepoStatus → RepoStatus) → MonoStatus → MonoStatus
unfolding at_repo
with_repo i f b = record b { repo_statuses = at_repo i f b.repo_statuses }

module _ (e : Env) where
  -- the workspace goes if it is there and nothing was cloned yet
  unfoldable pub clean_before : (work_dir : String) → M (St e.World) (Unit {0})
  unfolding remove_if
  clean_before work_dir = do
    exists ← ask e (stat work_dir)
    all_pending ← reads (λ m. all (λ r. is_pending r.phase) m.status.repo_statuses)
    remove_if e (exists && all_pending) work_dir

  -- one goroutine: a stale clone goes, then the repository is cloned
  unfoldable pub clone_one :
      (token work_dir : String) → (m : MonoMigration) → ℕ → M (St e.World) (ℕ × Result Cloned)
  unfolding name_at remove_if
  clone_one token work_dir m i =
      let name = name_at i m.status.repo_statuses in
      let dir = concat (work_dir ∷ "/repos/" ∷ name ∷ []) in
      do
        stale ← ask e (stat dir)
        remove_if e stale dir
        result ← ask e (
            clone_mono_repo_source m.spec.organization m.spec.project name token work_dir
              m.spec.settings.clone_depth)
        pure (i, result)

  unfoldable pub clone_each :
      (token work_dir : String) → MonoMigration → List ℕ → M (St e.World) (List (ℕ × Result Cloned))
  unfolding clone_one
  clone_each token work_dir m [] = pure []
  clone_each token work_dir m (i ∷ rest) = do
    result ← clone_one token work_dir m i
    results ← clone_each token work_dir m rest
    pure (result ∷ results)

  unfoldable pub start_unless : ℕ → Option ℕ → M (St e.World) (Unit {0})
  unfolding with_repo
  start_unless i (some t) = pure tt
  start_unless i none = do t ← now e; change (with_repo i (repo_started t))

  -- by whether to continue past a failed clone
  unfoldable pub clone_failed :
      Bool → (name error : String) → M (St e.World) Outcome → M (St e.World) Outcome
  unfolding fail_migration update_progress_summary
  clone_failed true name error rest = do
    send_web_socket_update e (concat ("Repo " ∷ name ∷ " clone failed (continuing): " ∷ error ∷ []))
    rest
  clone_failed false name error rest = do
    update_progress_summary e
    fail_migration e (concat ("Repo " ∷ name ∷ " clone failed: " ∷ error ∷ []))

  -- one result, and what follows it
  unfoldable pub handle_result : ℕ → Result Cloned → M (St e.World) Outcome → M (St e.World) Outcome
  unfolding with_repo with_repo_failed clone_failed name_at get_continue_on_error
  handle_result i (err error) rest = do
    t ← now e
    change (with_repo_failed i t error)
    event "RepoFailed"
    m ← reads (λ m. m)
    clone_failed (get_continue_on_error m.spec.settings) (name_at i m.status.repo_statuses) error
        rest
  handle_result i (ok cloned) rest = do
    change (with_repo i (repo_cloned cloned))
    name ← reads (λ m. name_at i m.status.repo_statuses)
    send_web_socket_update e (concat ("Cloned " ∷ name ∷ " successfully" ∷ []))
    rest

  -- the single status update after the results
  unfoldable pub after_results : (batch_size : ℕ) → M (St e.World) Outcome
  unfolding update_progress_summary save_and
  after_results n = do
    change (at_step (concat ("Cloned " ∷ e.format_int n ∷ " repos" ∷ [])))
    update_progress_summary e
    save_and e (requeued mono_repo_running_requeue_interval none)

  unfoldable pub collect_results : ℕ → List (ℕ × Result Cloned) → M (St e.World) Outcome
  unfolding after_results start_time_at start_unless handle_result
  collect_results n [] = after_results n
  collect_results n ((i, result) ∷ rest) = do
    started ← reads (λ m. start_time_at i m.status.repo_statuses)
    start_unless i started
    handle_result i result (collect_results n rest)

  unfoldable pub clone_with :
      (work_dir : String) → (batch : List ℕ) → Result String → M (St e.World) Outcome
  unfolding fail_migration clone_each collect_results
  clone_with work_dir batch (err error) =
      fail_migration e (concat ("Failed to get ADO token: " ∷ error ∷ []))
  clone_with work_dir batch (ok token) = do
    m ← reads (λ m. m)
    order ← schedule e batch
    results ← clone_each token work_dir m order
    collect_results (length batch) results

  -- the next phase, with its step and the message to the clients
  unfoldable pub go_on : MonoPhase → (step message : String) → M (St e.World) Outcome
  unfolding save_and
  go_on phase step message = do
    change (λ b. at_step step (with_mono_phase phase b))
    send_web_socket_update e message
    save_and e (requeued mono_repo_running_requeue_interval none)

  unfoldable pub clone_pending : (work_dir : String) → List ℕ → M (St e.World) Outcome
  unfolding go_on get_azure_dev_ops_token clone_with get_parallel_clones
  clone_pending work_dir [] =
      go_on MonoPhase.rewriting "All repos cloned, starting rewrite phase" "Starting rewrite phase"
  clone_pending work_dir (i ∷ rest) = do
    m ← reads (λ m. m)
    token ← get_azure_dev_ops_token e m.namespace m.spec
    clone_with work_dir (take (pos_part (get_parallel_clones m.spec.settings)) (i ∷ rest)) token

  unfoldable pub process_cloning : M (St e.World) Outcome
  unfolding get_workspace clean_before pending_repos clone_pending
  process_cloning = do
    work_dir ← get_workspace
    clean_before work_dir
    l ← reads (λ m. m.status.repo_statuses)
    clone_pending work_dir (pending_repos 0 l)
