-- ===== src/MonoRepo/Reconcile.antt =====
-- Reconcile of the monorepo controller: the finalizer, the annotations, the initial status, and the
-- dispatch on the phase. The map of active migrations is left out: nothing is ever put into it.
use reposhift.Common.{ℕ, String, Bool, true, false, Option, none, some, List, [], length, map}
use reposhift.Common.Int.{pos, ltb_ℤ}
use reposhift.Common.State.{M, ◌>>=◌, ◌>>◌, pure}
use reposhift.MonoRepo.Types.{MonoPhase, RepoPhase, SourceRepo, RepoStatus, MonoStatus}
use reposhift.MonoRepo.Env.{
  Env, St, Outcome, Updated, updated, rejected, Fetched, found, not_found, get_error,
}
use reposhift.MonoRepo.Action.{
  reads, change, edit, event, now, update, status_update, send_web_socket_update, returned,
  requeued, requeue, mono_repo_pending_requeue_interval, mono_repo_paused_requeue_interval,
  with_mono_phase, at_step,
}
use reposhift.MonoRepo.Progress.{summary_text, cleanup_workspace}
use reposhift.MonoRepo.Validate.{subdirectory_of, process_validating}
use reposhift.MonoRepo.Cloning.{process_cloning}
use reposhift.MonoRepo.Merging.{process_rewriting, process_merging}
use reposhift.MonoRepo.Pushing.{process_pushing}
use reposhift.MonoRepo.Annotations.{handle_annotations}

unfoldable goes_before : SourceRepo → SourceRepo → Bool
goes_before r s = ltb_ℤ r.priority s.priority

unfoldable initial_repo_status : SourceRepo → RepoStatus
unfolding subdirectory_of
initial_repo_status r = record {
  name = r.name;
  subdirectory_name = subdirectory_of r;
  phase = RepoPhase.pending;
  default_branch = "";
  branches_migrated = 0;
  tags_migrated = 0;
  commit_count = 0;
  size_mb = 0;
  start_time = none;
  completion_time = none;
  error_message = "";
}

-- over the sorted repositories
unfoldable pub initial_status :
    (t generation : ℕ) → (summary : String) → List SourceRepo → MonoStatus → MonoStatus
unfolding initial_repo_status
initial_status t generation summary repos b = record b {
  phase = MonoPhase.pending;
  start_time = some t;
  observed_generation = generation;
  last_reconcile_time = some t;
  repo_statuses = map initial_repo_status repos;
  progress = record {
    total_repos = length repos;
    completed_repos = 0;
    failed_repos = 0;
    skipped_repos = 0;
    percentage = 0;
    current_step = "";
    progress_summary = summary;
  };
  statistics = some (record {
    duration = pos 0;
    total_commits = 0;
    total_branches = 0;
    total_tags = 0;
    total_size_mb = 0;
  });
}

abbrev after_added : Updated → Outcome
after_added (updated m) = requeue
after_added (rejected error) = returned (some error)

abbrev after_removed : Updated → Outcome
after_removed (updated m) = returned none
after_removed (rejected error) = returned (some error)

module _ (e : Env) where
  unfoldable pub initialize_status : M (St e.World) Outcome
  unfolding goes_before initial_status summary_text
  initialize_status = do
    t ← now e
    m ← reads (λ m. m)
    let repos = e.sort_slice goes_before m.spec.source_repos
    change (initial_status t m.generation (summary_text e 0 (length repos)) repos)
    send_web_socket_update e "MonoRepo migration initialized"
    event "Initialized"
    error ← status_update e
    pure (requeued mono_repo_pending_requeue_interval error)

  unfoldable pub process_pending : M (St e.World) Outcome
  process_pending = do
    change (λ b. at_step "Validating configuration" (with_mono_phase MonoPhase.validating b))
    send_web_socket_update e "Starting validation"
    event "ValidationStarted"
    error ← status_update e
    pure (requeued mono_repo_pending_requeue_interval error)

  -- processPhase, and the initialisation where there is no phase yet
  unfoldable pub process_phase : MonoPhase → M (St e.World) Outcome
  unfolding initialize_status process_pending process_validating process_cloning process_rewriting
      process_merging process_pushing
  process_phase MonoPhase.unset = initialize_status
  process_phase MonoPhase.pending = process_pending
  process_phase MonoPhase.validating = process_validating e
  process_phase MonoPhase.cloning = process_cloning e
  process_phase MonoPhase.rewriting = process_rewriting e
  process_phase MonoPhase.merging = process_merging e
  process_phase MonoPhase.pushing = process_pushing e
  process_phase MonoPhase.paused = pure (requeued mono_repo_paused_requeue_interval none)
  process_phase MonoPhase.completed = pure (returned none)
  process_phase MonoPhase.failed = pure (returned none)
  process_phase MonoPhase.cancelled = pure (returned none)

  unfoldable pub with_finalizer : Bool → M (St e.World) Updated
  with_finalizer b = do edit (λ m. record m { has_finalizer = b }); update e

  -- by whether the object is being deleted, and has the finalizer
  unfoldable pub handle_finalizer :
      (deleting has_finalizer : Bool) → M (St e.World) (Option Outcome)
  unfolding with_finalizer cleanup_workspace
  handle_finalizer false true = pure none
  handle_finalizer false false = do answer ← with_finalizer true; pure (some (after_added answer))
  handle_finalizer true true = do
    cleanup_workspace e
    answer ← with_finalizer false
    pure (some (after_removed answer))
  handle_finalizer true false = pure (some (returned none))

  unfoldable pub after_annotations : Option Outcome → M (St e.World) Outcome
  unfolding process_phase
  after_annotations (some outcome) = pure outcome
  after_annotations none = do m ← reads (λ m. m); process_phase m.status.phase

  unfoldable pub after_finalizer : Option Outcome → M (St e.World) Outcome
  unfolding handle_annotations after_annotations
  after_finalizer (some outcome) = pure outcome
  after_finalizer none = do answer ← handle_annotations e; after_annotations answer

  unfoldable pub reconcile_found : M (St e.World) Outcome
  unfolding handle_finalizer after_finalizer
  reconcile_found = do
    m ← reads (λ m. m)
    answer ← handle_finalizer m.deleting m.has_finalizer
    after_finalizer answer

  -- what lasts from call to call: the world, and the directories by the name of the migration
  pub record Run : Type 0 where
    pub world : e.World
    pub workspaces : List (String × String)

  unfoldable pub reconcile_fetched : Fetched → Run → Outcome × Run
  unfolding reconcile_found
  reconcile_fetched (found m) r =
      let s : St e.World = record {
        world = r.world;
        migration = m;
        workspaces = r.workspaces;
        notices = [];
      } in
      let done = reconcile_found s in
      (done.0, record { world = done.1.world; workspaces = done.1.workspaces })
  reconcile_fetched not_found r = (returned none, r)
  reconcile_fetched (get_error error) r = (returned (some error), r)

  unfoldable pub reconcile : Run → Outcome × Run
  unfolding reconcile_fetched
  reconcile r = reconcile_fetched (e.get r.world) r
