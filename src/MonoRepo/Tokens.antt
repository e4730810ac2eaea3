-- ===== src/MonoRepo/Tokens.antt =====
-- The credentials of a monorepo migration: an Azure DevOps token, by a personal access token or a
-- service principal, and a GitHub token, by an inline token, a reference or a GitHub App.
use reposhift.Common.{String, Bool, true, false, Option, none, some, [], ◌∷◌, str_eq, if◌then◌else◌}
use reposhift.Common.Int.{ℤ}
use reposhift.Common.Text.{concat}
use reposhift.Common.Result.{Result, ok, err, wrap}
use reposhift.Common.State.Fallible.{◌>>=◌, ◌>>◌, pure, lift, asking, wrapping}
use reposhift.Batch.Types.{SecretReference}
use reposhift.Migration.Types.{ServicePrincipal, AppAuth}
use reposhift.MonoRepo.Types.{MonoSpec}
use reposhift.MonoRepo.Env.{
  Env, St, get_secret, get_service_principal_token, get_app_client, get_client_from_app, get_token,
}
use reposhift.MonoRepo.Action.{ask}

-- An action that may give an error.
abbrev pub Try : Type 0 → Type 0 → Type 0
Try W A = St W → Result A × St W

abbrev pub of_error : Option String → Result (Unit {0})
of_error none = ok tt
of_error (some error) = err error

abbrev own_namespace : String → String → String
own_namespace default namespace = if str_eq namespace "" then default else namespace

unfoldable missing_key : SecretReference → (namespace : String) → Option String → Result String
missing_key ref namespace none =
    err (concat ("key " ∷ ref.key ∷ " not found in secret " ∷ namespace ∷ "/" ∷ ref.name ∷ []))
missing_key ref namespace (some value) = ok value

module _ (e : Env) where
  unfoldable pub get_secret_value : String → SecretReference → Try e.World String
  unfolding missing_key
  get_secret_value default ref =
      let namespace = own_namespace default ref.namespace in
      do
        contents ←
            wrapping (concat ("failed to get secret " ∷ namespace ∷ "/" ∷ ref.name ∷ ": " ∷ []))
              (ask e (get_secret namespace ref.name))
        lift (missing_key ref namespace (contents ref.key))

  unfoldable pub service_principal_token : String → ServicePrincipal → Try e.World String
  unfolding get_secret_value
  service_principal_token namespace sp = do
    client_id ←
        wrapping "failed to get SP client ID: " (get_secret_value namespace sp.client_id_ref)
    client_secret ←
        wrapping "failed to get SP client secret: "
          (get_secret_value namespace sp.client_secret_ref)
    tenant_id ←
        wrapping "failed to get SP tenant ID: " (get_secret_value namespace sp.tenant_id_ref)
    ask e (get_service_principal_token client_id client_secret tenant_id)

  unfoldable pub ado_token_by :
      String → Option SecretReference → Option ServicePrincipal → Try e.World String
  unfolding get_secret_value service_principal_token
  ado_token_by namespace (some pat) sp = get_secret_value namespace pat
  ado_token_by namespace none (some sp) = service_principal_token namespace sp
  ado_token_by namespace none none = lift (err "no Azure DevOps authentication configured")

  unfoldable pub get_azure_dev_ops_token : String → MonoSpec → Try e.World String
  unfolding ado_token_by
  get_azure_dev_ops_token namespace spec = ado_token_by namespace spec.pat spec.service_principal

  unfoldable in_cache : Bool → Result (Unit {0})
  in_cache true = ok tt
  in_cache false = err "failed to get GitHub App client after initialization"

  -- by whether the app's client is in the cache: if not, it is made and looked up again
  unfoldable pub initialize_client :
      String → AppAuth → (app_id installation_id : ℤ) → Bool → Try e.World (Unit {0})
  unfolding get_secret_value in_cache
  initialize_client namespace app app_id installation_id true = pure tt
  initialize_client namespace app app_id installation_id false = do
    private_key ←
        wrapping "failed to get GitHub App private key: "
          (get_secret_value namespace app.private_key_ref)
    error ← asking (ask e (get_client_from_app app_id installation_id private_key))
    wrapping "failed to initialize GitHub App client: " (lift (of_error error))
    cached ← asking (ask e (get_app_client app_id installation_id))
    lift (in_cache cached)

  unfoldable pub app_token : String → AppAuth → Try e.World String
  unfolding get_secret_value initialize_client
  app_token namespace app = do
    app_id_text ←
        wrapping "failed to get GitHub App ID: " (get_secret_value namespace app.app_id_ref)
    installation_id_text ←
        wrapping "failed to get GitHub Installation ID: "
          (get_secret_value namespace app.installation_id_ref)
    app_id ← lift (wrap "invalid GitHub App ID: " (e.parse_int app_id_text))
    installation_id ←
        lift (wrap "invalid GitHub Installation ID: " (e.parse_int installation_id_text))
    cached ← asking (ask e (get_app_client app_id installation_id))
    initialize_client namespace app app_id installation_id cached
    ask e (get_token app_id installation_id)

  unfoldable pub referenced_token :
      String → Option SecretReference → Option AppAuth → Try e.World String
  unfolding get_secret_value app_token
  referenced_token namespace (some ref) app = get_secret_value namespace ref
  referenced_token namespace none (some app) = app_token namespace app
  referenced_token namespace none none = lift (err "no GitHub authentication configured")

  unfoldable pub get_git_hub_token : String → MonoSpec → Try e.World String
  unfolding referenced_token
  get_git_hub_token namespace spec =
      if str_eq spec.token ""
      then referenced_token namespace spec.token_ref spec.app_auth
      else pure spec.token
