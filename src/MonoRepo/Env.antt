-- ===== src/MonoRepo/Env.antt =====
-- What the monorepo controller and its service take from outside: the clock, the API server, git
-- and the files, GitHub and Azure DevOps. `World` is all that these read and change.
use reposhift.Common.{ℕ, String, Bool, Option, List}
use reposhift.Common.Int.{ℤ}
use reposhift.Common.Result.{Result}
use reposhift.MonoRepo.Types.{SourceRepo, MonoMigration}

-- services.CloneRepoResult, with the RepositoryInfo, as the controller reads it
pub record Cloned : Type 0 where
  pub default_branch : String
  pub branches : List String
  pub tags : List String
  pub commit_count : ℕ
  pub size_mb : ℕ

-- a command that ran: its output, and whether it failed
pub record Ran : Type 0 where
  pub output : String
  pub error : Option String

-- One call outside, with its arguments.
pub data Request : Type 0 where
  -- client.Get of a Secret, by namespace and name
  get_secret : (namespace name : String) → Request
  get_service_principal_token : (client_id client_secret tenant_id : String) → Request
  -- GitHubService.GetAppClient: whether the client is in the service's cache
  get_app_client : (app_id installation_id : ℤ) → Request
  get_client_from_app : (app_id installation_id : ℤ) → (private_key : String) → Request
  -- GetToken of an app's client
  get_token : (app_id installation_id : ℤ) → Request
  -- exec.Command with its arguments
  exec : List String → Request
  -- os.Stat: whether it gives no error
  stat : (path : String) → Request
  mkdir_all : (path : String) → Request
  remove_all : (path : String) → Request
  -- exec.LookPath: whether it gives no error
  look_path : (name : String) → Request
  -- MigrationService.CloneMonoRepoSource
  clone_mono_repo_source : (organization project name token work_dir : String) → ℤ → Request
  -- MigrationService.CleanupDir
  cleanup_dir : (path : String) → Request
  check_repository_exists : (token owner name : String) → Request
  create_repository : (token owner name visibility : String) → Request
  set_default_branch : (token owner name branch : String) → Request

abbrev pub Response : Request → Type 0
Response (get_secret namespace name) = Result (String → Option String)
Response (get_service_principal_token c s t) = Result String
Response (get_app_client a i) = Bool
Response (get_client_from_app a i key) = Option String
Response (get_token a i) = Result String
Response (exec command) = Ran
Response (stat path) = Bool
Response (mkdir_all path) = Option String
Response (remove_all path) = Option String
Response (look_path name) = Bool
Response (clone_mono_repo_source o p name token dir depth) = Result Cloned
Response (cleanup_dir path) = Unit {0}
Response (check_repository_exists t owner name) = Result Bool
Response (create_repository t owner name v) = Result String
Response (set_default_branch t owner name b) = Option String

pub data Fetched : Type 0 where
  found : MonoMigration → Fetched
  not_found : Fetched
  get_error : String → Fetched

-- client.Update of the object: the object as the API server now has it, or an error
pub data Updated : Type 0 where
  updated : MonoMigration → Updated
  rejected : String → Updated

pub record Env : Type 1 where
  pub World : Type 0
  -- time.Now()
  pub now : World → ℕ × World
  pub ask : (q : Request) → World → Response q × World
  -- the order in which the clones of a batch start and end
  pub schedule : World → List ℕ → List ℕ
  -- client.Get of the MonoRepoMigration
  pub get : World → Fetched
  pub update : World → MonoMigration → Updated × World
  -- Status().Update
  pub status_update : World → MonoMigration → Option String × World
  -- sort.Slice, by whether one goes before another
  pub sort_slice : (SourceRepo → SourceRepo → Bool) → List SourceRepo → List SourceRepo
  -- strconv.ParseInt(s, 10, 64)
  pub parse_int : String → Result ℤ
  -- the number that fmt.Sscanf(s, "%d", &n) leaves in n, which was 0
  pub scan_int : String → ℕ
  -- fmt's %d
  pub format_int : ℕ → String
  -- filepath.Match, where an error is no match
  pub match : (pattern name : String) → Bool
  -- whether the reconciler has a web socket manager
  pub has_web_socket_manager : Bool

-- A message of a web socket update, or the reason of an event.
pub data Notice : Type 0 where
  web_socket_update : String → Notice
  event : String → Notice

-- The reconciler in one call: the world, its copy of the migration, its directories by the name of
-- the migration, and what it has told, latest first.
pub record St (W : Type 0) : Type 0 where
  pub world : W
  pub migration : MonoMigration
  pub workspaces : List (String × String)
  pub notices : List Notice

-- ctrl.Result with the error
pub record Outcome : Type 0 where
  pub requeue : Bool
  pub requeue_after : ℕ
  pub error : Option String
