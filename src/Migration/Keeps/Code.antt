-- ===== src/Migration/Keeps/Code.antt =====
-- The steps of one resource keep every property of the status that does not look at the default
-- branch or the states of the repositories.
use reposhift.Common.{
  String, Bool, true, false, Option, none, some, List, [], ◌∷◌, str_eq, Bool-cases, inl, inr,
}
use reposhift.Common.Result.{Result, ok, err}
use reposhift.Migration.Types.{
  RepositoryState, MigrationResource, MigrationSpec, ResourceMigrationStatus, DefaultBranchInfo,
  RepositoryStateInfo, Migration, MigrationStatus,
}
use reposhift.Migration.Env.{
  Env, Report, get_repository_default_branch, is_repository_empty, get_repository,
  check_repository_exists, create_repository, set_repository_default_branch, migrate_repository,
}
use reposhift.Migration.Repository.{
  with_detected, detect_branch, setup_by, handle_default_branch_setup, after_get, after_exists,
  validate_repository_state, update_repository_state_status, after_create, create, set_branch,
  set_default_branch, with_branch_info,
}
use reposhift.Migration.Code.{
  Processed, event_of, progress_callback, report_all, after_migration, migrate_with,
  perform_code_migration, migrate_if, branch_if, after_code, with_repository, record_created,
  ensure_repository, with_state, process_repository, process_resource_by_type,
}
use reposhift.Migration.Keeps.{
  Keeps, Inv, Stable, Keeps-pure, Keeps-gets, Keeps-bind, Keeps-then, Keeps-event, Keeps-send,
  Keeps-modify, Keeps-now, Keeps-ask,
}
use reposhift.Migration.Keeps.Tokens.{Keeps-get_azure_dev_ops_token}

pub record IgnoresRepositories (V : MigrationStatus → Type 0) : Type 0 where
  pub branch : (b : MigrationStatus) (info : DefaultBranchInfo) → V b → V (with_branch_info info b)
  pub states :
      (b : MigrationStatus) (l : List RepositoryStateInfo)
      → V b
      → V (record b { repository_states = l })

module _ (e : Env) {V : MigrationStatus → Type 0} {P : e.World → Type 0} (k : Stable e V P)
    (c : IgnoresRepositories V) where
  Keeps-with_detected :
      (info : DefaultBranchInfo) (r : Result String) → Keeps (Inv V P) (with_detected e info r)
  unfolding with_detected
  Keeps-with_detected info (ok branch) =
      Keeps-bind _ _ (Keeps-now e k) (λ t. Keeps-modify e _ (λ b. c.branch b _))
  Keeps-with_detected info (err error) = Keeps-modify e _ (λ b. c.branch b _)

  Keeps-detect_branch :
      (spec : MigrationSpec) (r : MigrationResource) (info : DefaultBranchInfo)
      (token : Result String)
      → Keeps (Inv V P) (detect_branch e spec r info token)
  unfolding detect_branch
  Keeps-detect_branch spec r info (ok token) =
      Keeps-bind _ _ (Keeps-ask e k (get_repository_default_branch _ _ _ _))
        (λ branch. Keeps-with_detected info branch)
  Keeps-detect_branch spec r info (err error) = Keeps-modify e _ (λ b. c.branch b _)

  Keeps-setup_by :
      (m : Migration) (r : MigrationResource) (info : DefaultBranchInfo) (x y : Bool)
      → Keeps (Inv V P) (setup_by e m r info x y)
  unfolding setup_by
  Keeps-setup_by m r info true y = Keeps-modify e _ (λ b. c.branch b _)
  Keeps-setup_by m r info false true = Keeps-modify e _ (λ b. c.branch b _)
  Keeps-setup_by m r info false false = Keeps-then _ _ (Keeps-modify e _ (λ b. c.branch b _)) (
      Keeps-bind _ _ (Keeps-get_azure_dev_ops_token e k m.namespace m.spec)
        (λ token. Keeps-detect_branch m.spec r info token))

  Keeps-handle_default_branch_setup :
      (r : MigrationResource) → Keeps (Inv V P) (handle_default_branch_setup e r)
  unfolding handle_default_branch_setup
  Keeps-handle_default_branch_setup r =
      Keeps-bind _ _ (Keeps-gets _) (λ m. Keeps-setup_by m r _ _ _)

  Keeps-after_get :
      (token owner name : String) (url : Result String)
      → Keeps (Inv V P) (after_get e token owner name url)
  unfolding after_get
  Keeps-after_get token owner name (ok url) =
      Keeps-bind _ _ (Keeps-ask e k (is_repository_empty _ _ _)) (λ b. Keeps-pure _)
  Keeps-after_get token owner name (err error) = Keeps-pure _

  Keeps-after_exists :
      (token owner name : String) (b : Result Bool)
      → Keeps (Inv V P) (after_exists e token owner name b)
  unfolding after_exists
  Keeps-after_exists token owner name (ok false) = Keeps-pure _
  Keeps-after_exists token owner name (ok true) =
      Keeps-bind _ _ (Keeps-ask e k (get_repository _ _ _))
        (λ url. Keeps-after_get token owner name url)
  Keeps-after_exists token owner name (err error) = Keeps-pure _

  Keeps-validate_repository_state :
      (token owner name : String) → Keeps (Inv V P) (validate_repository_state e token owner name)
  unfolding validate_repository_state
  Keeps-validate_repository_state token owner name =
      Keeps-bind _ _ (Keeps-ask e k (check_repository_exists _ _ _))
        (λ b. Keeps-after_exists token owner name b)

  Keeps-update_repository_state_status :
      (name : String) (state : RepositoryState) (url : Option String)
      → Keeps (Inv V P) (update_repository_state_status e name state url)
  unfolding update_repository_state_status
  Keeps-update_repository_state_status name state url =
      Keeps-bind _ _ (Keeps-now e k) (λ t. Keeps-modify e _ (λ b. c.states b _))

  Keeps-after_create :
      (r : MigrationResource) (url : Result String) → Keeps (Inv V P) (after_create e r url)
  unfolding after_create
  Keeps-after_create r (ok url) =
      Keeps-then _ _ (Keeps-send e _) (Keeps-then _ _ (Keeps-event e _) (Keeps-pure _))
  Keeps-after_create r (err error) = Keeps-pure _

  Keeps-create :
      (token : String) (spec : MigrationSpec) (r : MigrationResource)
      → Keeps (Inv V P) (create e token spec r)
  unfolding create
  Keeps-create token spec r =
      Keeps-bind _ _ (Keeps-ask e k (create_repository _ _ _ _)) (λ url. Keeps-after_create r url)

  Keeps-set_branch :
      (token : String) (spec : MigrationSpec) (r : MigrationResource) (branch : String)
      → Keeps (Inv V P) (set_branch e token spec r branch)
  unfolding set_branch
  Keeps-set_branch token spec r branch = elim (Bool-cases (str_eq branch "")) [
    | inl missing ↦ rw missing (Keeps-pure _)
    | inr given ↦
        rw given (
          Keeps-bind _ _ (Keeps-ask e k (set_repository_default_branch _ _ _ _))
            (λ x. Keeps-pure _))
  ]

  Keeps-branch_if :
      (b : Bool) (token : String) (spec : MigrationSpec) (r : MigrationResource)
      → Keeps (Inv V P) (branch_if e b token spec r)
  unfolding branch_if set_default_branch
  Keeps-branch_if false token spec r = Keeps-pure _
  Keeps-branch_if true token spec r =
      Keeps-then _ _ (Keeps-bind _ _ (Keeps-gets _) (λ info. Keeps-set_branch token spec r _))
        (Keeps-pure _)

  Keeps-event_of : (reason : Option String) → Keeps (Inv V P) (event_of e reason)
  unfolding event_of
  Keeps-event_of none = Keeps-pure _
  Keeps-event_of (some reason) = Keeps-event e _

  Keeps-progress_callback :
      (r : MigrationResource) (p : Report) → Keeps (Inv V P) (progress_callback e r p)
  unfolding progress_callback
  Keeps-progress_callback r p = Keeps-then _ _ (Keeps-send e _) (Keeps-event_of _)

  Keeps-report_all : (r : MigrationResource) (l : List Report) → Keeps (Inv V P) (report_all e r l)
  unfolding report_all
  Keeps-report_all r [] = Keeps-pure _
  Keeps-report_all r (p ∷ rest) =
      Keeps-then _ _ (Keeps-progress_callback r p) (Keeps-report_all r rest)

  Keeps-after_migration :
      (r : MigrationResource) (st : ResourceMigrationStatus) (error : Option String)
      → Keeps (Inv V P) (after_migration e r st error)
  unfolding after_migration
  Keeps-after_migration r st none =
      Keeps-then _ _ (Keeps-send e _) (Keeps-then _ _ (Keeps-event e _) (Keeps-pure _))
  Keeps-after_migration r st (some error) =
      Keeps-then _ _ (Keeps-progress_callback r _) (Keeps-pure _)

  Keeps-migrate_with :
      (token : String) (r : MigrationResource) (st : ResourceMigrationStatus) (ado : Result String)
      → Keeps (Inv V P) (migrate_with e token r st ado)
  unfolding migrate_with
  Keeps-migrate_with token r st (err error) = Keeps-then _ _ (Keeps-send e _) (Keeps-pure _)
  Keeps-migrate_with token r st (ok ado) = Keeps-bind _ _ (Keeps-gets _) λ m.
      Keeps-bind _ _ (Keeps-ask e k (migrate_repository m r ado token)) λ migrated.
        Keeps-then _ _ (Keeps-report_all r migrated.reports) (Keeps-after_migration r _ _)

  Keeps-migrate_if :
      (b : Bool) (token : String) (r : MigrationResource) (st : ResourceMigrationStatus)
      → Keeps (Inv V P) (migrate_if e b token r st)
  unfolding migrate_if perform_code_migration
  Keeps-migrate_if false token r st = Keeps-pure _
  Keeps-migrate_if true token r st = Keeps-bind _ _ (Keeps-gets _) λ m.
      Keeps-bind _ _ (Keeps-get_azure_dev_ops_token e k m.namespace m.spec)
        λ ado. Keeps-migrate_with token r st ado

  Keeps-after_code :
      (token : String) (spec : MigrationSpec) (r : MigrationResource) (state : RepositoryState)
      (p : Processed)
      → Keeps (Inv V P) (after_code e token spec r state p)
  unfolding after_code
  Keeps-after_code token spec r state (some error, st) = Keeps-pure _
  Keeps-after_code token spec r state (none, st) =
      Keeps-then _ _ (Keeps-branch_if _ token spec r)
        (Keeps-then _ _ (Keeps-send e _) (Keeps-pure _))

  Keeps-with_repository :
      (token : String) (spec : MigrationSpec) (r : MigrationResource) (st : ResourceMigrationStatus)
      (state : RepositoryState) (repo : Result String)
      → Keeps (Inv V P) (with_repository e token spec r st state repo)
  unfolding with_repository
  Keeps-with_repository token spec r st state (err error) = Keeps-pure _
  Keeps-with_repository token spec r st state (ok url) =
      Keeps-bind _ _ (Keeps-migrate_if _ token r _) (λ p. Keeps-after_code token spec r state p)

  Keeps-record_created :
      (r : MigrationResource) (repo : Result String) → Keeps (Inv V P) (record_created e r repo)
  unfolding record_created
  Keeps-record_created r (err error) = Keeps-pure _
  Keeps-record_created r (ok url) = Keeps-update_repository_state_status _ _ _

  Keeps-ensure_repository :
      (token : String) (spec : MigrationSpec) (r : MigrationResource) (state : RepositoryState)
      (url : Option String)
      → Keeps (Inv V P) (ensure_repository e token spec r state url)
  unfolding ensure_repository
  Keeps-ensure_repository token spec r RepositoryState.not_exists url =
      Keeps-bind _ _ (Keeps-create token spec r)
        (λ repo. Keeps-then _ _ (Keeps-record_created r repo) (Keeps-pure _))
  Keeps-ensure_repository token spec r RepositoryState.unknown url = Keeps-pure _
  Keeps-ensure_repository token spec r RepositoryState.empty url = Keeps-pure _
  Keeps-ensure_repository token spec r RepositoryState.non_empty url = Keeps-pure _
  Keeps-ensure_repository token spec r RepositoryState.created url = Keeps-pure _

  Keeps-with_state :
      (token : String) (spec : MigrationSpec) (r : MigrationResource) (st : ResourceMigrationStatus)
      (state : Result (RepositoryState × Option String))
      → Keeps (Inv V P) (with_state e token spec r st state)
  unfolding with_state
  Keeps-with_state token spec r st (err error) = Keeps-pure _
  Keeps-with_state token spec r st (ok (state, url)) =
      Keeps-then _ _ (Keeps-update_repository_state_status _ _ _) (
        Keeps-bind _ _ (Keeps-ensure_repository token spec r state url)
          (λ repo. Keeps-with_repository token spec r st state repo))

  Keeps-process_repository :
      (token : String) (spec : MigrationSpec) (r : MigrationResource) (st : ResourceMigrationStatus)
      → Keeps (Inv V P) (process_repository e token spec r st)
  unfolding process_repository
  Keeps-process_repository token spec r st = Keeps-then _ _ (Keeps-handle_default_branch_setup r) (
      Keeps-bind _ _ (Keeps-validate_repository_state _ _ _)
        (λ state. Keeps-with_state token spec r st state))

  pub Keeps-process_resource_by_type :
      (token : String) (spec : MigrationSpec) (r : MigrationResource) (st : ResourceMigrationStatus)
      → Keeps (Inv V P) (process_resource_by_type e token spec r st)
  unfolding process_resource_by_type
  Keeps-process_resource_by_type token spec r st = elim (Bool-cases (str_eq r.type "repository")) [
    | inl repository ↦ rw repository (Keeps-process_repository token spec r st)
    | inr other ↦ rw other (Keeps-pure _)
  ]
