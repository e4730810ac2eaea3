-- ===== src/MonoRepo/Steady.antt =====
-- What the monorepo's requests keep is kept by the credentials and the git steps, which are made
-- of nothing else.
pub mod Git
use reposhift.Common.{String, Bool, true, false, Option, none, some}
use reposhift.Common.Int.{ℤ}
use reposhift.Common.State.{M}
use reposhift.Common.State.Fallible.{wrapping}
use reposhift.Common.State.Leads.{
  Leads, Keeps, Leads-if, Keeps-try, Keeps-try_then, Keeps-lift, Keeps-ok, Keeps-asking,
  Keeps-wrapping,
}
use reposhift.Batch.Types.{SecretReference}
use reposhift.Migration.Types.{ServicePrincipal, AppAuth}
use reposhift.MonoRepo.Types.{MonoSpec}
use reposhift.MonoRepo.Env.{
  Env, St, Request, get_secret, get_service_principal_token, get_app_client, get_client_from_app,
  get_token,
}
use reposhift.MonoRepo.Action.{ask}
use reposhift.MonoRepo.Tokens.{
  get_secret_value, service_principal_token, ado_token_by, get_azure_dev_ops_token,
  initialize_client, app_token, referenced_token, get_git_hub_token,
}

module _ (e : Env) {I : St e.World → Type 0} (asks : (q : Request) → Keeps I (ask e q)) where
  Keeps-get_secret_value :
      (namespace : String) (ref : SecretReference) → Keeps I (get_secret_value e namespace ref)
  unfolding get_secret_value
  Keeps-get_secret_value namespace ref =
      Keeps-try _ _ (Keeps-wrapping _ _ (asks (get_secret _ _))) (λ c. Keeps-lift _)

  Keeps-secret_text :
      (prefix namespace : String) (ref : SecretReference)
      → Keeps I (wrapping prefix (get_secret_value e namespace ref))
  Keeps-secret_text prefix namespace ref =
      Keeps-wrapping prefix _ (Keeps-get_secret_value namespace ref)

  Keeps-service_principal_token :
      (namespace : String) (sp : ServicePrincipal)
      → Keeps I (service_principal_token e namespace sp)
  unfolding service_principal_token
  Keeps-service_principal_token namespace sp =
      Keeps-try _ _ (Keeps-secret_text _ namespace sp.client_id_ref) λ client_id.
        Keeps-try _ _ (Keeps-secret_text _ namespace sp.client_secret_ref) λ client_secret.
          Keeps-try _ _ (Keeps-secret_text _ namespace sp.tenant_id_ref)
            λ tenant_id. asks (get_service_principal_token client_id client_secret tenant_id)

  Keeps-ado_token_by :
      (namespace : String) (pat : Option SecretReference) (sp : Option ServicePrincipal)
      → Keeps I (ado_token_by e namespace pat sp)
  unfolding ado_token_by
  Keeps-ado_token_by namespace (some pat) sp = Keeps-get_secret_value namespace pat
  Keeps-ado_token_by namespace none (some sp) = Keeps-service_principal_token namespace sp
  Keeps-ado_token_by namespace none none = Keeps-lift _

  pub Keeps-get_azure_dev_ops_token :
      (namespace : String) (spec : MonoSpec) → Keeps I (get_azure_dev_ops_token e namespace spec)
  unfolding get_azure_dev_ops_token
  Keeps-get_azure_dev_ops_token namespace spec = Keeps-ado_token_by _ _ _

  Keeps-initialize_client :
      (namespace : String) (app : AppAuth) (a i : ℤ) (cached : Bool)
      → Keeps I (initialize_client e namespace app a i cached)
  unfolding initialize_client
  Keeps-initialize_client namespace app a i true = Keeps-ok _
  Keeps-initialize_client namespace app a i false =
      Keeps-try _ _ (Keeps-secret_text _ namespace app.private_key_ref) λ key.
        Keeps-try _ _ (Keeps-asking _ (asks (get_client_from_app a i key))) λ error.
          Keeps-try_then _ _ (Keeps-wrapping _ _ (Keeps-lift _))
            (Keeps-try _ _ (Keeps-asking _ (asks (get_app_client a i))) λ cached. Keeps-lift _)

  Keeps-app_token : (namespace : String) (app : AppAuth) → Keeps I (app_token e namespace app)
  unfolding app_token
  Keeps-app_token namespace app =
      Keeps-try _ _ (Keeps-secret_text _ namespace app.app_id_ref) λ app_id_text.
        Keeps-try _ _ (Keeps-secret_text _ namespace app.installation_id_ref)
          λ installation_id_text. Keeps-try _ _ (Keeps-lift _) λ a.
            Keeps-try _ _ (Keeps-lift _) λ i.
              Keeps-try _ _ (Keeps-asking _ (asks (get_app_client a i))) λ cached.
                Keeps-try_then _ _ (Keeps-initialize_client namespace app a i cached)
                  (asks (get_token a i))

  Keeps-referenced_token :
      (namespace : String) (ref : Option SecretReference) (app : Option AppAuth)
      → Keeps I (referenced_token e namespace ref app)
  unfolding referenced_token
  Keeps-referenced_token namespace (some ref) app = Keeps-get_secret_value namespace ref
  Keeps-referenced_token namespace none (some app) = Keeps-app_token namespace app
  Keeps-referenced_token namespace none none = Keeps-lift _

  pub Keeps-get_git_hub_token :
      (namespace : String) (spec : MonoSpec) → Keeps I (get_git_hub_token e namespace spec)
  unfolding get_git_hub_token
  Keeps-get_git_hub_token namespace spec =
      Leads-if _ _ _ (Keeps-referenced_token _ _ _) (Keeps-ok _)
