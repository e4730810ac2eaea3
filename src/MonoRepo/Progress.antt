-- ===== src/MonoRepo/Progress.antt =====
-- The counters and the failure of a monorepo migration: updateProgressSummary, updateStatistics,
-- handleRepoError, failMigration, and the workspaces.
use reposhift.Common.{
  ℕ, zero, suc, ◌+◌, ◌*◌, ◌/◌, String, Bool, true, false, Option, none, some, List, [], ◌∷◌, length,
  count_if, str_eq, str_append, if◌then◌else◌,
}
use reposhift.Common.Int.{ℤ, pos, ◌-ℤ◌}
use reposhift.Common.Text.{concat}
use reposhift.Common.State.{M, ◌>>=◌, ◌>>◌, pure}
use reposhift.MonoRepo.Types.{
  MonoPhase, RepoPhase, RepoStatus, MonoProgress, MonoStatistics, MonoStatus, get_continue_on_error,
}
use reposhift.MonoRepo.Env.{Env, St, Outcome, cleanup_dir}
use reposhift.MonoRepo.Action.{
  reads, change, event, now, ask, status_update, send_web_socket_update, returned, requeued,
  unless_error, mono_repo_running_requeue_interval, with_progress, at_step,
}

abbrev pub is_completed : RepoPhase → Bool
is_completed RepoPhase.completed = true
is_completed _ = false

abbrev pub is_failed : RepoPhase → Bool
is_failed RepoPhase.failed = true
is_failed _ = false

abbrev pub is_skipped : RepoPhase → Bool
is_skipped RepoPhase.skipped = true
is_skipped _ = false

abbrev pub count_repos : (RepoPhase → Bool) → List RepoStatus → ℕ
count_repos p l = count_if (λ r. p r.phase) l

-- the percentage of what is done; without repositories it stays
unfoldable percentage_of : (done total old : ℕ) → ℕ
percentage_of done zero old = old
percentage_of done (suc n) old = (done * 100) / suc n

unfoldable pub summed : (ℕ → ℕ → String) → List RepoStatus → MonoProgress → MonoProgress
unfolding percentage_of
summed summary l p =
    let completed = count_repos is_completed l in
    let failed = count_repos is_failed l in
    let skipped = count_repos is_skipped l in
    record p {
      completed_repos = completed;
      failed_repos = failed;
      skipped_repos = skipped;
      progress_summary = summary completed (length l);
      percentage = percentage_of (completed + failed + skipped) (length l) p.percentage;
    }

unfoldable sum_of : (RepoStatus → ℕ) → List RepoStatus → ℕ
sum_of f [] = 0
sum_of f (r ∷ rest) = f r + sum_of f rest

abbrev since : ℕ → Option ℕ → ℤ → ℤ
since t none old = old
since t (some start) old = pos t -ℤ pos start

abbrev old_duration : Option MonoStatistics → ℤ
old_duration none = pos 0
old_duration (some s) = s.duration

unfoldable pub with_statistics : (t : ℕ) → MonoStatus → MonoStatus
unfolding sum_of
with_statistics t b = record b {
  statistics = some (record {
    duration = since t b.start_time (old_duration b.statistics);
    total_commits = sum_of (λ r. r.commit_count) b.repo_statuses;
    total_branches = sum_of (λ r. r.branches_migrated) b.repo_statuses;
    total_tags = sum_of (λ r. r.tags_migrated) b.repo_statuses;
    total_size_mb = sum_of (λ r. r.size_mb) b.repo_statuses;
  });
}

unfoldable pub failed_with : (t : ℕ) → (message : String) → MonoStatus → MonoStatus
failed_with t message b =
    at_step "Migration failed"
      (record b { phase = MonoPhase.failed; error_message = message; completion_time = some t })

-- a change of the status of one repository
unfoldable pub at_repo : ℕ → (RepoStatus → RepoStatus) → List RepoStatus → List RepoStatus
at_repo i f [] = []
at_repo zero f (r ∷ rest) = f r ∷ rest
at_repo (suc i) f (r ∷ rest) = r ∷ at_repo i f rest

abbrev repo_failed : (t : ℕ) → (error : String) → RepoStatus → RepoStatus
repo_failed t error r = record r {
  phase = RepoPhase.failed;
  error_message = error;
  completion_time = some t;
}

unfoldable pub with_repo_failed : ℕ → (t : ℕ) → (error : String) → MonoStatus → MonoStatus
unfolding at_repo
with_repo_failed i t error b =
    with_progress (λ p. record p { failed_repos = suc p.failed_repos })
      (record b { repo_statuses = at_repo i (repo_failed t error) b.repo_statuses })

-- the directory of a migration, where it has one
unfoldable pub find_workspace : String → List (String × String) → Option String
find_workspace name [] = none
find_workspace name ((k, dir) ∷ rest) = if str_eq k name then some dir else find_workspace name rest

unfoldable drop_workspace : String → List (String × String) → List (String × String)
drop_workspace name [] = []
drop_workspace name ((k, dir) ∷ rest) =
    let others = drop_workspace name rest in if str_eq k name then others else (k, dir) ∷ others

unfoldable workspace_in :
    String → List (String × String) → Option String → String × List (String × String)
workspace_in name all (some dir) = (dir, all)
workspace_in name all none =
    let dir = str_append "/tmp/migrations/monorepo-" name in (dir, (name, dir) ∷ all)

-- the directory of the migration, made up and noted at the first call
unfoldable pub get_workspace : {W : Type 0} → M (St W) String
unfolding find_workspace workspace_in
get_workspace s =
    let name = s.migration.name in
    let answer = workspace_in name s.workspaces (find_workspace name s.workspaces) in
    (answer.0, record s { workspaces = answer.1 })

unfoldable pub forget_workspace : {W : Type 0} → M (St W) (Option String)
unfolding find_workspace drop_workspace
forget_workspace s =
    let name = s.migration.name in
    (find_workspace name s.workspaces, record s { workspaces = drop_workspace name s.workspaces })

module _ (e : Env) where
  unfoldable pub summary_text : ℕ → ℕ → String
  summary_text completed total =
      concat (e.format_int completed ∷ "/" ∷ e.format_int total ∷ " repos" ∷ [])

  unfoldable pub recount : MonoStatus → MonoStatus
  unfolding summary_text summed
  recount b = with_progress (summed summary_text b.repo_statuses) b

  unfoldable pub update_progress_summary : M (St e.World) (Unit {0})
  unfolding recount
  update_progress_summary = change recount

  unfoldable pub update_statistics : M (St e.World) (Unit {0})
  unfolding with_statistics
  update_statistics = do t ← now e; change (with_statistics t)

  -- r.Status().Update, whose error takes the place of the outcome
  unfoldable pub save_and : Outcome → M (St e.World) Outcome
  save_and done = do error ← status_update e; pure (unless_error done error)

  unfoldable pub fail_migration : (message : String) → M (St e.World) Outcome
  unfolding failed_with save_and
  fail_migration message = do
    t ← now e
    change (failed_with t message)
    send_web_socket_update e (str_append "Migration failed: " message)
    event "MigrationFailed"
    save_and (returned none)

  -- by whether to continue past the error
  unfoldable pub after_repo_error : Bool → (name error : String) → M (St e.World) Outcome
  unfolding fail_migration update_progress_summary save_and
  after_repo_error false name error =
      fail_migration (concat ("Repo " ∷ name ∷ " failed: " ∷ error ∷ []))
  after_repo_error true name error = do
    send_web_socket_update e (concat ("Repo " ∷ name ∷ " failed (continuing): " ∷ error ∷ []))
    update_progress_summary
    save_and (requeued mono_repo_running_requeue_interval none)

  unfoldable pub handle_repo_error : ℕ → (name error : String) → M (St e.World) Outcome
  unfolding with_repo_failed after_repo_error get_continue_on_error
  handle_repo_error i name error = do
    t ← now e
    change (with_repo_failed i t error)
    event "RepoFailed"
    continue ← reads (λ m. get_continue_on_error m.spec.settings)
    after_repo_error continue name error

  unfoldable pub cleanup_found : Option String → M (St e.World) (Unit {0})
  cleanup_found none = pure tt
  cleanup_found (some dir) = if str_eq dir "" then pure tt else ask e (cleanup_dir dir)

  unfoldable pub cleanup_workspace : M (St e.World) (Unit {0})
  unfolding forget_workspace cleanup_found
  cleanup_workspace = do dir ← forget_workspace; cleanup_found dir
