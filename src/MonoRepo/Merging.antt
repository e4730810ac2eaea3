-- ===== src/MonoRepo/Merging.antt =====
-- processRewriting and processMerging: one repository at each call.
use reposhift.Common.{
  ℕ, suc, String, Bool, true, false, not, ◌||◌, Option, none, some, List, [], ◌∷◌, length, any,
  str_eq, if◌then◌else◌,
}
use reposhift.Common.Text.{concat}
use reposhift.Common.Result.{Result, ok, err}
use reposhift.Common.State.{M, ◌>>=◌, ◌>>◌}
use reposhift.MonoRepo.Types.{
  MonoPhase, RepoPhase, SourceRepo, RepoStatus, get_cleanup_between_repos,
}
use reposhift.MonoRepo.Env.{Env, St, Outcome}
use reposhift.MonoRepo.Action.{
  reads, change, now, send_web_socket_update, requeued, mono_repo_running_requeue_interval,
  with_progress, at_step,
}
use reposhift.MonoRepo.Branches.{filter_branches, is_empty}
use reposhift.MonoRepo.Git.{
  Rewritten, slashed, rewrite_repo_to_subdirectory, collect_branches_and_tags,
}
use reposhift.MonoRepo.Assemble.{init_mono_repo, merge_repo_into_mono_repo}
use reposhift.MonoRepo.Progress.{
  is_completed, get_workspace, update_progress_summary, update_statistics, save_and, fail_migration,
  handle_repo_error,
}
use reposhift.MonoRepo.Cloning.{with_repo, go_on}

-- the first repository in a phase with its place, counted from `i`
unfoldable pub find_next_repo : (RepoPhase → Bool) → ℕ → List RepoStatus → Option (ℕ × RepoStatus)
find_next_repo p i [] = none
find_next_repo p i (r ∷ rest) = if p r.phase then some (i, r) else find_next_repo p (suc i) rest

abbrev pub is_rewriting : RepoPhase → Bool
is_rewriting RepoPhase.rewriting = true
is_rewriting _ = false

abbrev pub is_merging : RepoPhase → Bool
is_merging RepoPhase.merging = true
is_merging _ = false

abbrev pub has_completed : List RepoStatus → Bool
has_completed l = any (λ r. is_completed r.phase) l

abbrev pub or_main : String → String
or_main branch = if str_eq branch "" then "main" else branch

abbrev repo_rewritten : Rewritten → RepoStatus → RepoStatus
repo_rewritten w r = record r {
  phase = RepoPhase.merging;
  branches_migrated = length w.branches;
  tags_migrated = length w.tags;
  commit_count = w.commit_count;
}

abbrev repo_merged : (t branches tags : ℕ) → RepoStatus → RepoStatus
repo_merged t branches tags r = record r {
  phase = RepoPhase.completed;
  completion_time = some t;
  branches_migrated = branches;
  tags_migrated = tags;
}

-- the source repository of a name
unfoldable pub find_source_repo : String → List SourceRepo → Option SourceRepo
find_source_repo name [] = none
find_source_repo name (r ∷ rest) = if str_eq r.name name then some r else find_source_repo name rest

abbrev default_branch_for : (stored : String) → Option SourceRepo → String
default_branch_for stored none = or_main stored
default_branch_for stored (some r) =
    if str_eq r.default_branch "" then or_main stored else r.default_branch

abbrev pub exclude_for : Option SourceRepo → List String
exclude_for none = []
exclude_for (some r) = r.exclude_branches

abbrev include_for : Option SourceRepo → List String
include_for none = []
include_for (some r) = r.include_branches

-- the count that the status reports for a merged repository
unfoldable pub actual_branches_migrated :
    (match : (pattern name : String) → Bool)
    → List String
    → (include exclude : List String) → (default : String) → ℕ
unfolding filter_branches
actual_branches_migrated match branches include exclude default =
    if not (is_empty exclude) || not (is_empty include)
    then length (filter_branches match branches include exclude default)
    else length branches

module _ (e : Env) where
  unfoldable pub after_rewrite : ℕ → RepoStatus → Result Rewritten → M (St e.World) Outcome
  unfolding handle_repo_error with_repo update_progress_summary save_and
  after_rewrite i r (err error) = handle_repo_error e i r.name error
  after_rewrite i r (ok w) =
      let step = concat ("Rewritten " ∷ r.name ∷ " to " ∷ r.subdirectory_name ∷ "/" ∷ []) in
      do
        change (λ b. at_step step (with_repo i (repo_rewritten w) b))
        send_web_socket_update e step
        update_progress_summary e
        save_and e (requeued mono_repo_running_requeue_interval none)

  unfoldable pub rewrite_next : Option (ℕ × RepoStatus) → M (St e.World) Outcome
  unfolding go_on get_workspace rewrite_repo_to_subdirectory get_cleanup_between_repos after_rewrite
  rewrite_next none =
      go_on e MonoPhase.merging "All repos rewritten, starting merge phase" "Starting merge phase"
  rewrite_next (some (i, r)) = do
    work_dir ← get_workspace
    m ← reads (λ m. m)
    result ←
        rewrite_repo_to_subdirectory e (concat (work_dir ∷ "/repos/" ∷ r.name ∷ []))
          r.subdirectory_name (get_cleanup_between_repos m.spec.settings)
    after_rewrite i r result

  unfoldable pub process_rewriting : M (St e.World) Outcome
  unfolding find_next_repo rewrite_next
  process_rewriting = do
    l ← reads (λ m. m.status.repo_statuses)
    rewrite_next (find_next_repo is_rewriting 0 l)

  unfoldable pub after_merge :
      ℕ → RepoStatus → (branches tags : ℕ) → Result (Unit {0}) → M (St e.World) Outcome
  unfolding handle_repo_error with_repo update_progress_summary update_statistics save_and
  after_merge i r branches tags (err error) = handle_repo_error e i r.name error
  after_merge i r branches tags (ok done) =
      let step = concat ("Merged " ∷ r.name ∷ " into monorepo" ∷ []) in
      do
        t ← now e
        change (λ b. at_step step (
            with_progress (λ p. record p { completed_repos = suc p.completed_repos })
              (with_repo i (repo_merged t branches tags) b)))
        send_web_socket_update e step
        update_progress_summary e
        update_statistics e
        save_and e (requeued mono_repo_running_requeue_interval none)

  -- with the branch lists of the repository's entry in the spec
  unfoldable pub merge_repo :
      (work_dir : String) → ℕ → RepoStatus → Option SourceRepo → M (St e.World) Outcome
  unfolding collect_branches_and_tags merge_repo_into_mono_repo actual_branches_migrated after_merge
  merge_repo work_dir i r source =
      let dir = concat (work_dir ∷ "/repos/" ∷ r.name ∷ "-work" ∷ []) in
      let default = default_branch_for r.default_branch source in
      do
        names ← collect_branches_and_tags e dir
        result ←
            merge_repo_into_mono_repo e (slashed work_dir "monorepo") dir r.name default names.0
              names.1 (exclude_for source)
        after_merge i r
            (actual_branches_migrated e.match names.0 (include_for source) (exclude_for source)
              default)
            (length names.1) result

  unfoldable pub merge_next : (work_dir : String) → Option (ℕ × RepoStatus) → M (St e.World) Outcome
  unfolding go_on find_source_repo merge_repo
  merge_next work_dir none =
      go_on e MonoPhase.pushing "All repos merged, pushing to GitHub" "Starting push phase"
  merge_next work_dir (some (i, r)) = do
    m ← reads (λ m. m)
    merge_repo work_dir i r (find_source_repo r.name m.spec.source_repos)

  -- after the monorepo is there
  unfoldable pub after_init : (work_dir : String) → Result String → M (St e.World) Outcome
  unfolding fail_migration find_next_repo merge_next
  after_init work_dir (err error) =
      fail_migration e (concat ("Failed to initialize monorepo: " ∷ error ∷ []))
  after_init work_dir (ok dir) = do
    l ← reads (λ m. m.status.repo_statuses)
    merge_next work_dir (find_next_repo is_merging 0 l)

  -- the monorepo is made where no repository is completed yet
  unfoldable pub init_unless : Bool → (work_dir default : String) → M (St e.World) Outcome
  unfolding init_mono_repo after_init
  init_unless true work_dir default = after_init work_dir (ok (slashed work_dir "monorepo"))
  init_unless false work_dir default = do
    result ← init_mono_repo e work_dir (or_main default)
    after_init work_dir result

  unfoldable pub process_merging : M (St e.World) Outcome
  unfolding get_workspace init_unless
  process_merging = do
    work_dir ← get_workspace
    m ← reads (λ m. m)
    init_unless (has_completed m.status.repo_statuses) work_dir m.spec.default_branch
