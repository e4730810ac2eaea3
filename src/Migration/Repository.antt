-- ===== src/Migration/Repository.antt =====
-- processRepository and its steps: the default branch, the state of the target repository, its
-- creation, the migration of the code, and the default branch once more.
use reposhift.Common.{
  ℕ, String, Bool, true, false, not, Option, none, some, List, [], ◌∷◌, str_eq, str_append,
  if◌then◌else◌,
}
use reposhift.Common.Text.{concat}
use reposhift.Common.Result.{Result, ok, err}
use reposhift.Migration.Types.{
  RepositoryState, MigrationResource, MigrationSpec, DefaultBranchInfo, RepositoryStateInfo,
  Migration, MigrationStatus,
}
use reposhift.Migration.Env.{
  Env, check_repository_exists, get_repository, is_repository_empty, create_repository,
  set_repository_default_branch, get_repository_default_branch,
}
use reposhift.Migration.Action.{
  M, ◌>>=◌, ◌>>◌, pure, gets, modify, event, now, ask, send_web_socket_update,
}
use reposhift.Migration.Tokens.{get_azure_dev_ops_token}

unfoldable no_branch_info : DefaultBranchInfo
no_branch_info = record {
  source_default_branch = "";
  target_default_branch = "";
  auto_detected = false;
  detected_at = none;
}

unfoldable pub info_or_empty : Option DefaultBranchInfo → DefaultBranchInfo
unfolding no_branch_info
info_or_empty none = no_branch_info
info_or_empty (some info) = info

abbrev pub with_branch_info : DefaultBranchInfo → MigrationStatus → MigrationStatus
with_branch_info info b = record b { default_branch_info = some info }

-- the branch that the specification names
unfoldable pub configured : String → DefaultBranchInfo → DefaultBranchInfo
configured branch info = record info { target_default_branch = branch; auto_detected = false }

-- "main", where no branch was found
unfoldable fallen_back : DefaultBranchInfo → DefaultBranchInfo
fallen_back info = record info { target_default_branch = "main"; auto_detected = true }

unfoldable detected : (t : ℕ) → String → DefaultBranchInfo → DefaultBranchInfo
detected t branch info = record info {
  source_default_branch = branch;
  target_default_branch = branch;
  auto_detected = true;
  detected_at = some t;
}

-- the entry of a repository, after its state was found; a missing address keeps the one it had
unfoldable pub stated :
    (t : ℕ) → RepositoryState → (url : Option String) → RepositoryStateInfo → RepositoryStateInfo
stated t RepositoryState.created none info = record info {
  state = RepositoryState.created;
  checked_at = some t;
  created_during_migration = true;
}
stated t RepositoryState.created (some url) info = record info {
  state = RepositoryState.created;
  checked_at = some t;
  git_hub_url = url;
  created_during_migration = true;
}
stated t state none info = record info {
  state = state;
  checked_at = some t;
  created_during_migration = false;
}
stated t state (some url) info = record info {
  state = state;
  checked_at = some t;
  git_hub_url = url;
  created_during_migration = false;
}

unfoldable pub new_info : String → RepositoryStateInfo
new_info name = record {
  repository_name = name;
  state = RepositoryState.unknown;
  git_hub_url = "";
  created_during_migration = false;
  checked_at = none;
}

-- updateRepositoryStateStatus: the entry of the repository, or a new one at the end
unfoldable pub put_state :
    (t : ℕ)
    → (name : String) → RepositoryState
    → Option String
    → List RepositoryStateInfo
    → List RepositoryStateInfo
unfolding stated new_info
put_state t name state url [] = stated t state url (new_info name) ∷ []
put_state t name state url (info ∷ rest) =
    if str_eq info.repository_name name
    then stated t state url info ∷ rest
    else info ∷ put_state t name state url rest

-- the visibility of a new repository: the resource's, the target's, or private
unfoldable visibility_of : MigrationSpec → MigrationResource → String
visibility_of spec r =
    if not (str_eq r.visibility "")
    then r.visibility
    else if not (str_eq spec.default_visibility "")
    then spec.default_visibility
    else "private"

module _ (e : Env) where
  unfoldable pub with_detected : DefaultBranchInfo → Result String → M e.World (Unit {0})
  unfolding detected fallen_back
  with_detected info (err error) = modify (with_branch_info (fallen_back info))
  with_detected info (ok branch) = do t ← now e; modify (with_branch_info (detected t branch info))

  -- by the Azure DevOps token
  unfoldable pub detect_branch :
      MigrationSpec → MigrationResource → DefaultBranchInfo → Result String → M e.World (Unit {0})
  unfolding with_detected fallen_back
  detect_branch spec r info (err error) = modify (with_branch_info (fallen_back info))
  detect_branch spec r info (ok token) = do
    branch ←
        ask e (get_repository_default_branch token spec.organization spec.project r.source_name)
    with_detected info branch

  unfoldable pub setup_by :
      Migration
      → MigrationResource
      → DefaultBranchInfo
      → (is_configured is_known : Bool) → M e.World (Unit {0})
  unfolding detect_branch configured
  setup_by m r info true k = modify (with_branch_info (configured m.spec.default_branch info))
  setup_by m r info false true = modify (with_branch_info info)
  setup_by m r info false false = do
    modify (with_branch_info info)
    token ← get_azure_dev_ops_token e m.namespace m.spec
    detect_branch m.spec r info token

  -- it never gives an error
  unfoldable pub handle_default_branch_setup : MigrationResource → M e.World (Unit {0})
  unfolding setup_by info_or_empty
  handle_default_branch_setup r = do
    m ← gets (λ m. m)
    setup_by m r (info_or_empty m.status.default_branch_info)
        (not (str_eq m.spec.default_branch ""))
        (not (str_eq (info_or_empty m.status.default_branch_info).source_default_branch ""))

  unfoldable after_is_empty :
      (url : String) → Result Bool → Result (RepositoryState × Option String)
  after_is_empty url (err error) = err (str_append "failed to check if repository is empty: " error)
  after_is_empty url (ok true) = ok (RepositoryState.empty, some url)
  after_is_empty url (ok false) = ok (RepositoryState.non_empty, some url)

  unfoldable pub after_get :
      (token owner name : String)
      → Result String
      → M e.World (Result (RepositoryState × Option String))
  unfolding after_is_empty
  after_get token owner name (err error) =
      pure (err (str_append "failed to get repository information: " error))
  after_get token owner name (ok url) = do
    is_empty ← ask e (is_repository_empty token owner name)
    pure (after_is_empty url is_empty)

  unfoldable pub after_exists :
      (token owner name : String)
      → Result Bool
      → M e.World (Result (RepositoryState × Option String))
  unfolding after_get
  after_exists token owner name (err error) =
      pure (err (str_append "failed to check repository existence: " error))
  after_exists token owner name (ok false) = pure (ok (RepositoryState.not_exists, none))
  after_exists token owner name (ok true) = do
    repo ← ask e (get_repository token owner name)
    after_get token owner name repo

  -- the repository's state, with its address where it exists
  unfoldable pub validate_repository_state :
      (token owner name : String) → M e.World (Result (RepositoryState × Option String))
  unfolding after_exists
  validate_repository_state token owner name = do
    exists ← ask e (check_repository_exists token owner name)
    after_exists token owner name exists

  unfoldable pub update_repository_state_status :
      String → RepositoryState → Option String → M e.World (Unit {0})
  unfolding put_state
  update_repository_state_status name state url = do
    t ← now e
    modify (λ b. record b { repository_states = put_state t name state url b.repository_states })

  unfoldable pub after_create : MigrationResource → Result String → M e.World (Result String)
  after_create r (err error) = pure (err (str_append "failed to create repository: " error))
  after_create r (ok url) = do
    send_web_socket_update e (concat ("Created repository " ∷ r.target_name ∷ []))
    event "RepositoryCreated"
    pure (ok url)

  -- createRepository, which gives the address of the new repository
  unfoldable pub create :
      (token : String) → MigrationSpec → MigrationResource → M e.World (Result String)
  unfolding visibility_of after_create
  create token spec r = do
    repo ← ask e (create_repository token spec.owner r.target_name (visibility_of spec r))
    after_create r repo

  unfoldable after_branch_set : Option String → Option String
  after_branch_set none = none
  after_branch_set (some error) = some (str_append "failed to set default branch: " error)

  unfoldable pub set_branch :
      (token : String)
      → MigrationSpec
      → MigrationResource
      → (branch : String) → M e.World (Option String)
  unfolding after_branch_set
  set_branch token spec r branch =
      if str_eq branch "" then pure (some "target default branch not configured") else do
        error ← ask e (set_repository_default_branch token spec.owner r.target_name branch)
        pure (after_branch_set error)

  unfoldable pub set_default_branch :
      (token : String) → MigrationSpec → MigrationResource → M e.World (Option String)
  unfolding set_branch info_or_empty
  set_default_branch token spec r = do
    info ← gets (λ m. info_or_empty m.status.default_branch_info)
    set_branch token spec r info.target_default_branch
