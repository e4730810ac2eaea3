-- ===== src/Migration/Env.antt =====
-- What the migration controller takes from outside: the clock, the API server, and the answers of
-- GitHub, of Azure DevOps and of the migration service. `World` is all that these read and change.
use reposhift.Common.{ℕ, String, Bool, Option, List}
use reposhift.Common.Result.{Result}
use reposhift.Common.Int.{ℤ}
use reposhift.Migration.Types.{Migration, MigrationResource}

-- How a GitHub client authenticates: by a personal access token, or as an installed app.
pub data Client : Type 0 where
  from_pat : String → Client
  from_app : (app_id installation_id : ℤ) → Client

-- client.Repositories.Get: the status code of the response (where there is one), the error, and
-- whether a repository came back
pub record Lookup : Type 0 where
  pub status_code : Option ℕ
  pub error : Option String
  pub has_repository : Bool

-- services.RepositoryMigrationProgress
pub record Report : Type 0 where
  pub phase : String
  pub description : String
  pub percentage : ℕ
  pub error : String

-- MigrateRepository: the progress it reports on the way, and its error
pub record Migrated : Type 0 where
  pub reports : List Report
  pub error : Option String

-- services.SyncResult
pub record Synced : Type 0 where
  pub branches_synced : List String
  pub tags_synced : List String

-- One call to a service, with its arguments.
pub data Request : Type 0 where
  -- client.Get of a Secret, by namespace and name
  get_secret : (namespace name : String) → Request
  -- GitHubService.GetAppClient: whether the client is in the service's cache
  get_app_client : (app_id installation_id : ℤ) → Request
  -- GitHubService.GetClientFromApp, with the private key
  get_client_from_app : (app_id installation_id : ℤ) → String → Request
  -- GetToken of an app's client
  get_token : (app_id installation_id : ℤ) → Request
  -- GetAzureDevOpsTokenFromServicePrincipal
  get_service_principal_token : (client_id client_secret tenant_id : String) → Request
  -- client.Organizations.Get
  get_organization : Client → (owner : String) → Request
  -- client.Repositories.Get
  get_repository_by_client : Client → (owner name : String) → Request
  check_repository_exists : (token owner name : String) → Request
  get_repository : (token owner name : String) → Request
  is_repository_empty : (token owner name : String) → Request
  create_repository : (token owner name visibility : String) → Request
  set_repository_default_branch : (token owner name branch : String) → Request
  get_repository_default_branch : (token organization project name : String) → Request
  migrate_repository : Migration → MigrationResource → (ado_token token : String) → Request
  sync_repository : Migration → MigrationResource → (ado_token token : String) → Request

-- What each call answers: of a secret its data, of an organization the remaining calls of its rate
-- limit, of a repository its address.
abbrev pub Response : Request → Type 0
Response (get_secret namespace name) = Result (String → Option String)
Response (get_app_client a i) = Bool
Response (get_client_from_app a i key) = Result Client
Response (get_token a i) = Result String
Response (get_service_principal_token c s t) = Result String
Response (get_organization c owner) = Result ℤ
Response (get_repository_by_client c owner name) = Lookup
Response (check_repository_exists t owner name) = Result Bool
Response (get_repository t owner name) = Result String
Response (is_repository_empty t owner name) = Result Bool
Response (create_repository t owner name v) = Result String
Response (set_repository_default_branch t owner name b) = Option String
Response (get_repository_default_branch t o p name) = Result String
Response (migrate_repository m r ado t) = Migrated
Response (sync_repository m r ado t) = Result Synced

pub data Fetched : Type 0 where
  found : Migration → Fetched
  not_found : Fetched
  get_error : String → Fetched

-- client.Update of the object: the object as the API server now has it
pub data Updated : Type 0 where
  updated : Migration → Updated
  gone : String → Updated
  rejected : String → Updated

pub record Env : Type 1 where
  pub World : Type 0
  -- time.Now()
  pub now : World → ℕ × World
  pub ask : (q : Request) → World → Response q × World
  -- client.Get of the AdoToGitMigration
  pub get : World → Fetched
  pub update : World → Migration → Updated × World
  -- Status().Update
  pub status_update : World → Migration → Option String × World
  -- strconv.ParseInt(s, 10, 64)
  pub parse_int : String → Result ℤ
  -- fmt's %d
  pub format_int : ℤ → String
  -- whether the reconciler has a web socket manager
  pub has_web_socket_manager : Bool

-- A message of a web socket update, or the reason of an event.
pub data Notice : Type 0 where
  web_socket_update : String → Notice
  event : String → Notice

-- The reconciler's state in one call: the world, its copy of the migration, and what it has told,
-- latest first.
pub record St (W : Type 0) : Type 0 where
  pub world : W
  pub migration : Migration
  pub notices : List Notice

-- ctrl.Result with the error; or a panic
pub data Outcome : Type 0 where
  returns : (requeue : Bool) (requeue_after : ℤ) → Option String → Outcome
  panics : Outcome
