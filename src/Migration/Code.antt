-- ===== src/Migration/Code.antt =====
-- performCodeMigration, and processRepository as a whole.
use reposhift.Common.{
  ℕ, ◌%◌, ◌==◌, String, Bool, true, false, not, ◌&&◌, Option, none, some, List, [], ◌∷◌, str_eq,
  str_append, if◌then◌else◌,
}
use reposhift.Common.Int.{pos}
use reposhift.Common.Text.{concat}
use reposhift.Common.Result.{Result, ok, err}
use reposhift.Migration.Types.{
  RepositoryState, MigrationResource, MigrationSpec, ResourceMigrationStatus,
}
use reposhift.Migration.Env.{Env, Report, migrate_repository}
use reposhift.Migration.Action.{M, ◌>>=◌, ◌>>◌, pure, gets, event, ask, send_web_socket_update}
use reposhift.Migration.Tokens.{get_azure_dev_ops_token}
use reposhift.Migration.Repository.{
  handle_default_branch_setup, validate_repository_state, update_repository_state_status, create,
  set_default_branch,
}

-- what the steps of one resource give: an error, and the resource's status
abbrev pub Processed : Type 0
Processed = Option String × ResourceMigrationStatus

abbrev with_url : String → ResourceMigrationStatus → ResourceMigrationStatus
with_url url st = record st { git_hub_url = url; repository_url = url }

abbrev at_progress : ℕ → ResourceMigrationStatus → ResourceMigrationStatus
at_progress n st = record st { progress = n }

-- the event of a report: for an error, and at each quarter
unfoldable report_event : Report → Option String
report_event p =
    if not (str_eq p.error "")
    then some "MigrationError"
    else if p.percentage % 25 == 0
    then some "MigrationProgress"
    else none

abbrev last_progress : List Report → ResourceMigrationStatus → ResourceMigrationStatus
last_progress [] st = st
last_progress (p ∷ rest) st = last_progress rest (at_progress p.percentage st)

-- the report after a failed migration
unfoldable failure_report : String → Report
failure_report error = record {
  phase = "failed";
  description = concat ("Migration failed: " ∷ error ∷ []);
  percentage = 0;
  error = error;
}

unfoldable has_source : MigrationSpec → Bool
has_source spec = not (str_eq spec.organization "") && not (str_eq spec.project "")

-- a repository that was missing or empty
unfoldable was_bare : RepositoryState → Bool
was_bare RepositoryState.not_exists = true
was_bare RepositoryState.empty = true
was_bare _ = false

-- the error of every type but repositories: work items and pipelines are placeholders
unfoldable unsupported : String → String
unsupported type =
    if str_eq type "work-item"
    then "work item migration not yet implemented"
    else if str_eq type "pipeline"
    then "pipeline migration not yet implemented"
    else concat ("unsupported resource type: " ∷ type ∷ [])

-- GetHTMLURL, which a nil repository answers with the empty text
abbrev url_or_empty : Option String → String
url_or_empty none = ""
url_or_empty (some url) = url

module _ (e : Env) where
  unfoldable pub event_of : Option String → M e.World (Unit {0})
  event_of none = pure tt
  event_of (some reason) = event reason

  -- progressCallback, less the progress in the resource's status
  unfoldable pub progress_callback : MigrationResource → Report → M e.World (Unit {0})
  unfolding report_event event_of
  progress_callback r p = do
    send_web_socket_update e (
        concat (
          "Repository "
          ∷ r.target_name
          ∷ " - "
          ∷ p.phase
          ∷ ": "
          ∷ p.description
          ∷ " ("
          ∷ e.format_int (pos p.percentage)
          ∷ "%)"
          ∷ []))
    event_of (report_event p)

  unfoldable pub report_all : MigrationResource → List Report → M e.World (Unit {0})
  unfolding progress_callback
  report_all r [] = pure tt
  report_all r (p ∷ rest) = do progress_callback r p; report_all r rest

  unfoldable pub after_migration :
      MigrationResource → ResourceMigrationStatus → Option String → M e.World Processed
  unfolding progress_callback failure_report
  after_migration r st none = do
    send_web_socket_update e
        (concat ("Repository " ∷ r.target_name ∷ ": Code migration completed successfully" ∷ []))
    event "CodeMigrationCompleted"
    pure (none, st)
  after_migration r st (some error) = do
    progress_callback r (failure_report error)
    pure (some (str_append "code migration failed: " error), at_progress 0 st)

  -- without an Azure DevOps token the code is skipped, and that is no error
  unfoldable pub migrate_with :
      (token : String)
      → MigrationResource
      → ResourceMigrationStatus
      → Result String
      → M e.World Processed
  unfolding report_all after_migration
  migrate_with token r st (err error) = do
    send_web_socket_update e (
        concat (
          "Repository " ∷ r.target_name ∷ " created but code migration skipped (no ADO token)"
          ∷ []))
    pure (none, st)
  migrate_with token r st (ok ado_token) = do
    m ← gets (λ m. m)
    migrated ← ask e (migrate_repository m r ado_token token)
    report_all r migrated.reports
    after_migration r (last_progress migrated.reports st) migrated.error

  unfoldable pub perform_code_migration :
      (token : String) → MigrationResource → ResourceMigrationStatus → M e.World Processed
  unfolding migrate_with
  perform_code_migration token r st = do
    m ← gets (λ m. m)
    ado_token ← get_azure_dev_ops_token e m.namespace m.spec
    migrate_with token r st ado_token

  unfoldable pub migrate_if :
      Bool → (token : String) → MigrationResource → ResourceMigrationStatus → M e.World Processed
  unfolding perform_code_migration
  migrate_if false token r st = pure (none, st)
  migrate_if true token r st = perform_code_migration token r st

  -- an error of the default branch is logged only
  unfoldable pub branch_if :
      Bool → (token : String) → MigrationSpec → MigrationResource → M e.World (Unit {0})
  branch_if false token spec r = pure tt
  branch_if true token spec r = do set_default_branch e token spec r; pure tt

  unfoldable pub after_code :
      (token : String)
      → MigrationSpec
      → MigrationResource
      → RepositoryState
      → Processed
      → M e.World Processed
  unfolding branch_if was_bare
  after_code token spec r state (some error, st) = pure (some error, st)
  after_code token spec r state (none, st) = do
    branch_if (was_bare state) token spec r
    send_web_socket_update e
        (concat ("Repository " ∷ r.target_name ∷ " setup completed successfully" ∷ []))
    pure (none, st)

  -- by the address of the repository, which exists by now
  unfoldable pub with_repository :
      (token : String)
      → MigrationSpec
      → MigrationResource
      → ResourceMigrationStatus
      → RepositoryState
      → Result String
      → M e.World Processed
  unfolding migrate_if has_source after_code
  with_repository token spec r st state (err error) =
      pure (some (str_append "failed to create repository: " error), st)
  with_repository token spec r st state (ok url) = do
    processed ← migrate_if (has_source spec) token r (with_url url st)
    after_code token spec r state processed

  unfoldable pub record_created : MigrationResource → Result String → M e.World (Unit {0})
  record_created r (err error) = pure tt
  record_created r (ok url) =
      update_repository_state_status e r.target_name RepositoryState.created (some url)

  -- Step 4: a repository that does not exist is created.
  unfoldable pub ensure_repository :
      (token : String)
      → MigrationSpec
      → MigrationResource
      → RepositoryState
      → Option String
      → M e.World (Result String)
  unfolding record_created
  ensure_repository token spec r RepositoryState.not_exists url = do
    repo ← create e token spec r
    record_created r repo
    pure repo
  ensure_repository token spec r _ url = pure (ok (url_or_empty url))

  unfoldable pub with_state :
      (token : String)
      → MigrationSpec
      → MigrationResource
      → ResourceMigrationStatus
      → Result (RepositoryState × Option String)
      → M e.World Processed
  unfolding ensure_repository with_repository
  with_state token spec r st (err error) =
      pure (some (str_append "failed to validate repository state: " error), st)
  with_state token spec r st (ok (state, url)) = do
    update_repository_state_status e r.target_name state url
    repo ← ensure_repository token spec r state url
    with_repository token spec r st state repo

  unfoldable pub process_repository :
      (token : String)
      → MigrationSpec
      → MigrationResource
      → ResourceMigrationStatus
      → M e.World Processed
  unfolding with_state
  process_repository token spec r st = do
    handle_default_branch_setup e r
    state ← validate_repository_state e token spec.owner r.target_name
    with_state token spec r st state

  unfoldable pub process_resource_by_type :
      (token : String)
      → MigrationSpec
      → MigrationResource
      → ResourceMigrationStatus
      → M e.World Processed
  unfolding process_repository unsupported
  process_resource_by_type token spec r st =
      if str_eq r.type "repository"
      then process_repository token spec r st
      else pure (some (unsupported r.type), st)
