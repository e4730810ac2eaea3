-- ===== src/Migration/Tokens.antt =====
-- The credentials: a GitHub client or token, by a personal access token, an inline token or a
-- GitHub App, and an Azure DevOps token, by a personal access token or a service principal.
pub mod Methods
use reposhift.Common.{
  ℕ, String, Bool, true, false, Option, none, some, List, [], ◌∷◌, str_eq, if◌then◌else◌, ◌+◌, ltb,
  ◌==◌,
}
use reposhift.Common.Int.{ℤ}
use reposhift.Common.Text.{concat}
use reposhift.Common.Result.{Result, ok, err, wrap}
use reposhift.Batch.Types.{SecretReference}
use reposhift.Migration.Types.{AppAuth, ServicePrincipal, MigrationSpec}
use reposhift.Migration.Env.{
  Env, St, get_secret, get_app_client, get_client_from_app, get_token, get_service_principal_token,
  Client, from_pat, from_app,
}
use reposhift.Migration.Action.{ask}
use reposhift.Migration.Action.Fallible.{◌>>=◌, ◌>>◌, pure, lift, asking, wrapping}

-- An action that may give an error.
abbrev pub Fallible : Type 0 → Type 0 → Type 0
Fallible W A = St W → Result A × St W

abbrev namespace_or : String → String → String
namespace_or default namespace = if str_eq namespace "" then default else namespace

unfoldable pub or_missing_key : (what : String) → SecretReference → Option String → Result String
or_missing_key what ref none =
    err (concat ("key " ∷ ref.key ∷ " not found in " ∷ what ∷ " " ∷ ref.name ∷ []))
or_missing_key what ref (some value) = ok value

unfoldable pub failed_to_get : (what name namespace : String) → String
failed_to_get what name namespace =
    concat ("failed to get " ∷ what ∷ " " ∷ name ∷ " in namespace " ∷ namespace ∷ ": " ∷ [])

abbrev some_count {ℓ} : {A : Type ℓ} → Option A → ℕ
some_count none = 0
some_count (some a) = 1

module _ (e : Env) where
  -- the value of a key of a secret; `what` is the secret's name in the messages
  unfoldable pub read_secret : (what default : String) → SecretReference → Fallible e.World String
  read_secret what default ref =
      let namespace = namespace_or default ref.namespace in
      do
        contents ←
            wrapping (failed_to_get what ref.name namespace) (ask e (get_secret namespace ref.name))
        lift (or_missing_key what ref (contents ref.key))

  unfoldable pub get_secret_value : String → SecretReference → Fallible e.World String
  unfolding read_secret
  get_secret_value default ref = read_secret "secret" default ref

  unfoldable pub get_azure_dev_ops_pat_token : String → SecretReference → Fallible e.World String
  unfolding read_secret
  get_azure_dev_ops_pat_token namespace ref = read_secret "Azure DevOps PAT secret" namespace ref

  unfoldable pub get_azure_dev_ops_service_principal_token :
      String → ServicePrincipal → Fallible e.World String
  unfolding read_secret
  get_azure_dev_ops_service_principal_token namespace sp = do
    client_id ← read_secret "Service Principal Client ID secret" namespace sp.client_id_ref
    client_secret ←
        read_secret "Service Principal Client Secret secret" namespace sp.client_secret_ref
    tenant_id ← read_secret "Service Principal Tenant ID secret" namespace sp.tenant_id_ref
    wrapping "failed to get Azure DevOps token from Service Principal: "
        (ask e (get_service_principal_token client_id client_secret tenant_id))

  unfoldable pub azure_dev_ops_token_by :
      String → Option SecretReference → Option ServicePrincipal → Fallible e.World String
  unfolding get_azure_dev_ops_pat_token get_azure_dev_ops_service_principal_token
  azure_dev_ops_token_by namespace (some pat) sp = get_azure_dev_ops_pat_token namespace pat
  azure_dev_ops_token_by namespace none (some sp) =
      get_azure_dev_ops_service_principal_token namespace sp
  azure_dev_ops_token_by namespace none none =
      lift (err "no Azure DevOps authentication configured (PAT or Service Principal required)")

  unfoldable pub get_azure_dev_ops_token : String → MigrationSpec → Fallible e.World String
  unfolding azure_dev_ops_token_by
  get_azure_dev_ops_token namespace spec =
      azure_dev_ops_token_by namespace spec.pat spec.service_principal

  unfoldable pub git_hub_token_by :
      String → Option AppAuth → Option SecretReference → Fallible e.World String
  unfolding get_secret_value
  git_hub_token_by namespace (some app) ref =
      lift (err "use getGitHubClient for GitHub App authentication")
  git_hub_token_by namespace none none = lift (err "no GitHub authentication configured")
  git_hub_token_by namespace none (some ref) = get_secret_value namespace ref

  unfoldable pub get_git_hub_token : String → MigrationSpec → Fallible e.World String
  unfolding git_hub_token_by
  get_git_hub_token namespace spec = git_hub_token_by namespace spec.app_auth spec.token_ref

  -- strconv.ParseInt of an identifier, with its error
  unfoldable parse_id : (what text : String) → Result ℤ
  parse_id what text =
      wrap (concat ("invalid GitHub " ∷ what ∷ " '" ∷ text ∷ "': " ∷ [])) (e.parse_int text)

  unfoldable pub client_from_app : String → AppAuth → Fallible e.World Client
  unfolding get_secret_value parse_id
  client_from_app namespace app = do
    app_id_text ←
        wrapping "failed to get GitHub App ID: " (get_secret_value namespace app.app_id_ref)
    installation_id_text ←
        wrapping "failed to get GitHub Installation ID: "
          (get_secret_value namespace app.installation_id_ref)
    private_key ←
        wrapping "failed to get GitHub App private key: "
          (get_secret_value namespace app.private_key_ref)
    app_id ← lift (parse_id "App ID" app_id_text)
    installation_id ← lift (parse_id "Installation ID" installation_id_text)
    wrapping "failed to create GitHub App client: "
        (ask e (get_client_from_app app_id installation_id private_key))

  unfoldable pub client_from_token_ref : String → SecretReference → Fallible e.World Client
  unfolding get_secret_value
  client_from_token_ref namespace ref = do
    token ← wrapping "failed to get GitHub PAT: " (get_secret_value namespace ref)
    pure (from_pat token)

  -- by the inline token, the app, and the reference, of which one at most is given
  unfoldable pub client_by :
      String → String → Option AppAuth → Option SecretReference → Fallible e.World Client
  unfolding client_from_app client_from_token_ref
  client_by namespace inline (some app) ref =
      if str_eq inline "" then client_from_app namespace app else pure (from_pat inline)
  client_by namespace inline none (some ref) =
      if str_eq inline "" then client_from_token_ref namespace ref else pure (from_pat inline)
  client_by namespace inline none none =
      if str_eq inline ""
      then lift (err "no GitHub authentication method configured")
      else pure (from_pat inline)

  unfoldable pub auth_method_count : MigrationSpec → ℕ
  auth_method_count spec =
      some_count spec.token_ref
      + some_count spec.app_auth
      + (if str_eq spec.inline_token "" then 0 else 1)

  unfoldable pub get_git_hub_client : String → MigrationSpec → Fallible e.World Client
  unfolding auth_method_count client_by
  get_git_hub_client namespace spec =
      if ltb 1 (auth_method_count spec)
      then lift (
          err
            "multiple GitHub authentication methods specified - please use only one (token, tokenRef, or appAuth)")
      else if auth_method_count spec == 0
      then lift
          (err "no GitHub authentication method configured (token, tokenRef, or appAuth required)")
      else client_by namespace spec.inline_token spec.app_auth spec.token_ref

  unfoldable pub or_not_cached : Bool → Result (Unit {0})
  or_not_cached true = ok tt
  or_not_cached false = err "failed to retrieve GitHub App client from cache"

  -- by whether the app's client is in the cache: if not, it is made and looked up again
  unfoldable pub ensure_app_client :
      String → MigrationSpec → (app_id installation_id : ℤ) → Bool → Fallible e.World (Unit {0})
  unfolding get_git_hub_client
  ensure_app_client namespace spec app_id installation_id true = pure tt
  ensure_app_client namespace spec app_id installation_id false = do
    wrapping "failed to initialize GitHub App client: " (get_git_hub_client namespace spec)
    cached ← asking (ask e (get_app_client app_id installation_id))
    lift (or_not_cached cached)

  unfoldable pub token_from_app : String → MigrationSpec → AppAuth → Fallible e.World String
  unfolding get_secret_value parse_id ensure_app_client
  token_from_app namespace spec app = do
    app_id_text ←
        wrapping "failed to get GitHub App ID: " (get_secret_value namespace app.app_id_ref)
    installation_id_text ←
        wrapping "failed to get GitHub Installation ID: "
          (get_secret_value namespace app.installation_id_ref)
    app_id ← lift (parse_id "App ID" app_id_text)
    installation_id ← lift (parse_id "Installation ID" installation_id_text)
    cached ← asking (ask e (get_app_client app_id installation_id))
    ensure_app_client namespace spec app_id installation_id cached
    wrapping "failed to get token from GitHub App: " (ask e (get_token app_id installation_id))

  unfoldable pub token_unified_by :
      String → MigrationSpec → Option AppAuth → Option SecretReference → Fallible e.World String
  unfolding token_from_app get_git_hub_token
  token_unified_by namespace spec (some app) (some ref) =
      lift
        (err "both tokenRef and appAuth are specified - please use only one authentication method")
  token_unified_by namespace spec (some app) none = token_from_app namespace spec app
  token_unified_by namespace spec none (some ref) = get_git_hub_token namespace spec
  token_unified_by namespace spec none none =
      lift (err "no GitHub authentication method configured (tokenRef or appAuth required)")

  unfoldable pub get_git_hub_token_unified : String → MigrationSpec → Fallible e.World String
  unfolding token_unified_by
  get_git_hub_token_unified namespace spec =
      token_unified_by namespace spec spec.app_auth spec.token_ref
