-- ===== src/MonoRepo/Examples.antt =====
-- A small world for the monorepo controller, and its runs: the theorems at concrete inputs.
use mathlib.Core.List.{Permᴰ}
use reposhift.Common.{
  ℕ, ◌+◌, ◌≤◌, ◌≡◌, ◌⊎◌, inl, refl, String, true, false, none, some, List, [], ◌∷◌, length,
  count_if,
}
use reposhift.Common.Int.{pos}
use reposhift.Common.Result.{ok}
use reposhift.Common.State.{◌>>=◌}
use reposhift.MonoRepo.Types.{
  MonoPhase, RepoPhase, SourceRepo, MonoSpec, RepoStatus, MonoStatus, MonoMigration,
}
use reposhift.MonoRepo.Env.{
  Request, Response, get_secret, get_service_principal_token, get_app_client, get_client_from_app,
  get_token, exec, stat, mkdir_all, remove_all, look_path, clone_mono_repo_source, cleanup_dir,
  check_repository_exists, create_repository, set_default_branch, Env, St, found, updated,
}
use reposhift.MonoRepo.Git.{slashed}
use reposhift.MonoRepo.Progress.{get_workspace}
use reposhift.MonoRepo.Validate.{subdirectory_of, mistakes_in}
use reposhift.MonoRepo.Branches.{is_empty}
use reposhift.MonoRepo.Validate.Subdirectories.{is_complete, is_empty-mistakes_in}
use reposhift.MonoRepo.Merging.{
  has_completed, after_init, process_merging, actual_branches_migrated,
}
use reposhift.MonoRepo.Assemble.{branches_to_merge}
use reposhift.MonoRepo.Reconcile.{Run, reconcile}
use reposhift.MonoRepo.Machine.{Moves}
use reposhift.MonoRepo.Machine.Order.{IsInOrder, IsAccounted}
use reposhift.MonoRepo.Saves.{Server}
use reposhift.MonoRepo.Refines.Cloning.{Reorders}
use reposhift.MonoRepo.Runs.{
  begins, reconciles, stored_in, reconcile-Moves, Reach-IsInOrder, Reach-IsAccounted,
  reconcile-paused_or_cancelled,
}
use reposhift.MonoRepo.Runs.Finish.{Calm, IsOver, reconcile_times, reconcile-ends}
use reposhift.MonoRepo.Runs.Retry.{Reach-skips_init}
use reposhift.MonoRepo.Merged.{is_unwanted, actual_branches_migrated-unwanted}

-- the clock in nanoseconds, and the stored object
record Small : Type 0 where
  clock : ℕ
  object : MonoMigration

abbrev answers : (q : Request) → Response q
answers (get_secret namespace name) = ok (λ key. some "secret")
answers (get_service_principal_token c s t) = ok "token"
answers (get_app_client a i) = true
answers (get_client_from_app a i key) = none
answers (get_token a i) = ok "token"
answers (exec command) = record { output = "* main"; error = none }
answers (stat path) = false
answers (mkdir_all path) = none
answers (remove_all path) = none
answers (look_path name) = true
answers (clone_mono_repo_source o p name token dir depth) = ok (record {
  default_branch = "main";
  branches = "main" ∷ [];
  tags = [];
  commit_count = 3;
  size_mb = 1;
})
answers (cleanup_dir path) = tt
answers (check_repository_exists t owner name) = ok false
answers (create_repository t owner name v) = ok "https://github.com/acme/all"
answers (set_default_branch t owner name b) = none

-- nobody annotates or deletes the object
abbrev calmed : MonoMigration → MonoMigration
calmed m = record m { annotations = []; deleting = false; has_finalizer = true }

-- every call succeeds; the object that is read is calm, with the stored status
abbrev small_env : Env
small_env = record {
  World = Small;
  now = λ w. (w.clock, record w { clock = w.clock + 1_000_000_000 });
  ask = λ q w. (answers q, w);
  schedule = λ w l. l;
  get = λ w. found (calmed w.object);
  update = λ w m.
      let kept : MonoMigration = record m { status = w.object.status } in
      (updated kept, record w { object = kept });
  status_update = λ w m.
      let saved : MonoMigration = (let o = w.object in record o { status = m.status }) in
      (none, record w { object = saved });
  sort_slice = λ before l. l;
  parse_int = λ text. ok (pos 1);
  scan_int = λ text. 3;
  format_int = λ n. "n";
  match = λ pattern name. false;
  has_web_socket_manager = true;
}

found-status : (m n : MonoMigration) → found n ≡ found m → m.status ≡ n.status
found-status m n h = cc

updated-status : (n m : MonoMigration) → updated m ≡ updated n → n.status ≡ m.status
updated-status n m h = cc

abbrev small_server : Server small_env
small_server = record {
  stored = λ w. w.object.status;
  get-stored = λ w m h. found-status m (calmed w.object) h;
  stored-now = λ w. refl;
  stored-ask = λ q w. refl;
  stored-status_update = λ w m. inl refl;
  stored-update = λ w m. refl;
  update-status = λ w m n h. updated-status n _ h;
}

same_order : Reorders small_env
same_order w [] = Permᴰ.nil
same_order w (i ∷ l) = Permᴰ.cons refl (same_order w l)

small-Calm : Calm small_env small_server
small-Calm = record {
  object = λ w. calmed w.object;
  get-object = λ w. refl;
  annotations-object = λ w. refl;
  deleting-object = λ w. refl;
  has_finalizer-object = λ w. refl;
  accepted = λ w m. refl;
}

abbrev source_of : String → SourceRepo
source_of name = record {
  name = name;
  subdirectory_name = "";
  include_branches = [];
  exclude_branches = [];
  default_branch = "";
  priority = pos 0;
}

abbrev example_spec : MonoSpec
example_spec = record {
  organization = "contoso";
  project = "shop";
  pat = some (record { name = "tokens"; key = "ado"; namespace = "" });
  service_principal = none;
  owner = "acme";
  repository = "all";
  visibility = "private";
  default_branch = "";
  token = "token";
  token_ref = none;
  app_auth = none;
  source_repos = source_of "api" ∷ source_of "web" ∷ [];
  settings = record {
    continue_on_error = none;
    cleanup_between_repos = none;
    parallel_clones = pos 0;
    clone_depth = pos 0;
  };
}

abbrev repo_in : String → RepoPhase → RepoStatus
repo_in name phase = record {
  name = name;
  subdirectory_name = name;
  phase = phase;
  default_branch = "";
  branches_migrated = 0;
  tags_migrated = 0;
  commit_count = 0;
  size_mb = 0;
  start_time = none;
  completion_time = none;
  error_message = "";
}

abbrev status_in : MonoPhase → List RepoStatus → MonoStatus
status_in phase repos = record {
  phase = phase;
  start_time = some 0;
  completion_time = none;
  repo_statuses = repos;
  progress = record {
    total_repos = 2;
    completed_repos = 1;
    failed_repos = 1;
    skipped_repos = 0;
    percentage = 0;
    current_step = "";
    progress_summary = "";
  };
  error_message = "";
  statistics = none;
  last_reconcile_time = none;
  observed_generation = 1;
  mono_repo_url = "";
}

abbrev migration_in : MonoStatus → MonoMigration
migration_in b = record {
  name = "all";
  namespace = "default";
  generation = 1;
  deleting = false;
  has_finalizer = true;
  annotations = [];
  spec = example_spec;
  status = b;
}

abbrev run_in : MonoPhase → List RepoStatus → Run small_env
run_in phase repos = record {
  world = record { clock = 0; object = migration_in (status_in phase repos) };
  workspaces = [];
}

abbrev waiting : List RepoStatus
waiting = repo_in "api" RepoPhase.pending ∷ repo_in "web" RepoPhase.pending ∷ []

abbrev merged_one : List RepoStatus
merged_one = repo_in "api" RepoPhase.completed ∷ repo_in "web" RepoPhase.failed ∷ []

-- the world after one reconciliation in the cloning phase
abbrev after_cloning : Run small_env
after_cloning = (reconcile small_env (run_in MonoPhase.cloning waiting)).1

reconcile-Moves_example :
    Moves
      (status_in MonoPhase.cloning waiting)
      (stored_in small_env small_server same_order after_cloning)
    ⊎ (stored_in small_env small_server same_order after_cloning
        ≡ status_in MonoPhase.cloning waiting)
reconcile-Moves_example =
    reconcile-Moves small_env small_server same_order (run_in MonoPhase.cloning waiting)

cloning-IsInOrder : IsInOrder (status_in MonoPhase.cloning waiting)
cloning-IsInOrder = record { past_lem = refl; completed_lem = λ h. cc }

Reach-IsInOrder_example : IsInOrder (stored_in small_env small_server same_order after_cloning)
Reach-IsInOrder_example =
    Reach-IsInOrder small_env small_server same_order (reconciles begins refl) cloning-IsInOrder

completed-IsInOrder : IsInOrder (status_in MonoPhase.completed merged_one)
completed-IsInOrder = record {
  past_lem = refl;
  completed_lem =
      λ h. (record { completed_lem = refl; failed_lem = refl; skipped_lem = refl }, refl);
}

Reach-IsAccounted_example : IsAccounted (status_in MonoPhase.completed merged_one)
Reach-IsAccounted_example =
    Reach-IsAccounted small_env small_server same_order
      {start = run_in MonoPhase.completed merged_one} begins completed-IsInOrder refl

reconcile-paused_or_cancelled_example :
    ((stored_in small_env small_server same_order
        (reconcile small_env (run_in MonoPhase.paused waiting)).1).phase
      ≡ MonoPhase.paused)
    ⊎ ((stored_in small_env small_server same_order
          (reconcile small_env (run_in MonoPhase.paused waiting)).1).phase
        ≡ MonoPhase.cancelled)
reconcile-paused_or_cancelled_example =
    reconcile-paused_or_cancelled small_env small_server same_order
      (run_in MonoPhase.paused waiting) refl

reconcile-ends_example :
    (k : ℕ) × (k ≤ 12)
    × IsOver
        (stored_in small_env small_server same_order
          (reconcile_times small_env k (run_in MonoPhase.pending waiting))).phase
reconcile-ends_example =
    reconcile-ends small_env small_server same_order small-Calm (run_in MonoPhase.pending waiting)
      refl

-- after a retry, one repository is completed and the other waits again
abbrev retried_one : List RepoStatus
retried_one = repo_in "api" RepoPhase.completed ∷ repo_in "web" RepoPhase.merging ∷ []

abbrev merging_at : St Small
merging_at = record {
  migration = migration_in (status_in MonoPhase.merging retried_one);
  world = (run_in MonoPhase.merging retried_one).world;
  workspaces = [];
  notices = [];
}

Reach-skips_init_example :
    (has_completed retried_one ≡ true)
    × (process_merging small_env merging_at
        ≡ (get_workspace >>= λ dir. after_init small_env dir (ok (slashed dir "monorepo")))
            merging_at)
Reach-skips_init_example =
    Reach-skips_init small_env small_server same_order
      {start = run_in MonoPhase.merging retried_one} begins
      (record { begun = λ h. cc; merged = refl }) merging_at refl

abbrev branch_names : List String
branch_names = "main" ∷ "feature/x" ∷ "release/1" ∷ []

-- an include list that has releases alone: two branches are reported, and three merged
actual_branches_migrated-unwanted_example :
    actual_branches_migrated (λ pattern name. false) branch_names ("release/*" ∷ []) [] "main"
      + count_if (is_unwanted (λ pattern name. false) ("release/*" ∷ []) [] "main") branch_names
    ≡ length (branches_to_merge (λ pattern name. false) branch_names [] "main")
actual_branches_migrated-unwanted_example =
    actual_branches_migrated-unwanted (λ pattern name. false) "main" ("release/*" ∷ []) []
      branch_names

-- the second repository goes into the subdirectory of the first
abbrev clashing_spec : MonoSpec
clashing_spec = record example_spec {
  source_repos = source_of "api" ∷ record (source_of "web") { subdirectory_name = "api" } ∷ [];
}

clashing : is_complete clashing_spec ≡ false
unfolding subdirectory_of
clashing = refl

is_empty-mistakes_in_example : is_empty (mistakes_in clashing_spec) ≡ is_complete clashing_spec
is_empty-mistakes_in_example = is_empty-mistakes_in clashing_spec
