-- ===== src/Migration/Keeps/Tokens.antt =====
-- The credentials are read without a change of the migration.
use reposhift.Common.{
  String, Bool, true, false, Option, none, some, Bool-cases, inl, inr, ltb, ◌==◌, if◌then◌else◌,
}
use reposhift.Common.Int.{ℤ}
use reposhift.Batch.Types.{SecretReference}
use reposhift.Migration.Types.{AppAuth, ServicePrincipal, MigrationSpec, MigrationStatus}
use reposhift.Migration.Env.{
  Env, St, get_secret, get_service_principal_token, get_client_from_app, get_app_client, get_token,
}
use reposhift.Migration.Action.{M}
use reposhift.Migration.Action.Fallible.{wrapping}
use reposhift.Migration.Tokens.{
  read_secret, get_secret_value, get_azure_dev_ops_pat_token,
  get_azure_dev_ops_service_principal_token, azure_dev_ops_token_by, get_azure_dev_ops_token,
  git_hub_token_by, get_git_hub_token, client_from_app, client_from_token_ref, client_by,
  get_git_hub_client, ensure_app_client, token_from_app, token_unified_by,
  get_git_hub_token_unified, auth_method_count,
}
use reposhift.Migration.Keeps.{
  Keeps, Inv, Stable, Keeps-try, Keeps-try_then, Keeps-lift, Keeps-ok, Keeps-asking, Keeps-wrapping,
  Keeps-ask,
}

Keeps-if :
    {W A : Type 0} {I : St W → Type 0} (b : Bool) (m n : M W A)
    → Keeps I m
    → Keeps I n
    → Keeps I (if b then m else n)
Keeps-if true m n k l = k
Keeps-if false m n k l = l

module _ (e : Env) {V : MigrationStatus → Type 0} {P : e.World → Type 0} (k : Stable e V P) where
  Keeps-read_secret :
      (what default : String) (ref : SecretReference)
      → Keeps (Inv V P) (read_secret e what default ref)
  unfolding read_secret
  Keeps-read_secret what default ref =
      Keeps-try _ _ (Keeps-wrapping _ _ (Keeps-ask e k (get_secret _ _))) (λ c. Keeps-lift _)

  Keeps-get_secret_value :
      (namespace : String) (ref : SecretReference)
      → Keeps (Inv V P) (get_secret_value e namespace ref)
  unfolding get_secret_value
  Keeps-get_secret_value namespace ref = Keeps-read_secret _ _ _

  Keeps-secret_text :
      (prefix namespace : String) (ref : SecretReference)
      → Keeps (Inv V P) (wrapping prefix (get_secret_value e namespace ref))
  Keeps-secret_text prefix namespace ref =
      Keeps-wrapping prefix _ (Keeps-get_secret_value namespace ref)

  Keeps-service_principal :
      (namespace : String) (sp : ServicePrincipal)
      → Keeps (Inv V P) (get_azure_dev_ops_service_principal_token e namespace sp)
  unfolding get_azure_dev_ops_service_principal_token
  Keeps-service_principal namespace sp = Keeps-try _ _ (Keeps-read_secret _ _ _) λ client_id.
      Keeps-try _ _ (Keeps-read_secret _ _ _) λ client_secret.
        Keeps-try _ _ (Keeps-read_secret _ _ _) λ tenant_id.
          Keeps-wrapping _ _
            (Keeps-ask e k (get_service_principal_token client_id client_secret tenant_id))

  Keeps-azure_dev_ops_token_by :
      (namespace : String) (pat : Option SecretReference) (sp : Option ServicePrincipal)
      → Keeps (Inv V P) (azure_dev_ops_token_by e namespace pat sp)
  unfolding azure_dev_ops_token_by get_azure_dev_ops_pat_token
  Keeps-azure_dev_ops_token_by namespace (some pat) sp = Keeps-read_secret _ _ _
  Keeps-azure_dev_ops_token_by namespace none (some sp) = Keeps-service_principal namespace sp
  Keeps-azure_dev_ops_token_by namespace none none = Keeps-lift _

  pub Keeps-get_azure_dev_ops_token :
      (namespace : String) (spec : MigrationSpec)
      → Keeps (Inv V P) (get_azure_dev_ops_token e namespace spec)
  unfolding get_azure_dev_ops_token
  Keeps-get_azure_dev_ops_token namespace spec = Keeps-azure_dev_ops_token_by _ _ _

  Keeps-git_hub_token_by :
      (namespace : String) (app : Option AppAuth) (ref : Option SecretReference)
      → Keeps (Inv V P) (git_hub_token_by e namespace app ref)
  unfolding git_hub_token_by
  Keeps-git_hub_token_by namespace (some app) ref = Keeps-lift _
  Keeps-git_hub_token_by namespace none none = Keeps-lift _
  Keeps-git_hub_token_by namespace none (some ref) = Keeps-get_secret_value _ _

  pub Keeps-get_git_hub_token :
      (namespace : String) (spec : MigrationSpec)
      → Keeps (Inv V P) (get_git_hub_token e namespace spec)
  unfolding get_git_hub_token
  Keeps-get_git_hub_token namespace spec = Keeps-git_hub_token_by _ _ _

  Keeps-client_from_app :
      (namespace : String) (app : AppAuth) → Keeps (Inv V P) (client_from_app e namespace app)
  unfolding client_from_app
  Keeps-client_from_app namespace app = Keeps-try _ _ (Keeps-secret_text _ _ _) λ app_id_text.
      Keeps-try _ _ (Keeps-secret_text _ _ _) λ installation_id_text.
        Keeps-try _ _ (Keeps-secret_text _ _ _) λ private_key.
          Keeps-try _ _ (Keeps-lift _) λ app_id. Keeps-try _ _ (Keeps-lift _) λ installation_id.
            Keeps-wrapping _ _
              (Keeps-ask e k (get_client_from_app app_id installation_id private_key))

  Keeps-client_from_token_ref :
      (namespace : String) (ref : SecretReference)
      → Keeps (Inv V P) (client_from_token_ref e namespace ref)
  unfolding client_from_token_ref
  Keeps-client_from_token_ref namespace ref =
      Keeps-try _ _ (Keeps-secret_text _ _ _) λ token. Keeps-ok _

  Keeps-client_by :
      (namespace inline : String) (app : Option AppAuth) (ref : Option SecretReference)
      → Keeps (Inv V P) (client_by e namespace inline app ref)
  unfolding client_by
  Keeps-client_by namespace inline (some app) ref =
      Keeps-if _ _ _ (Keeps-client_from_app namespace app) (Keeps-ok _)
  Keeps-client_by namespace inline none (some ref) =
      Keeps-if _ _ _ (Keeps-client_from_token_ref namespace ref) (Keeps-ok _)
  Keeps-client_by namespace inline none none = Keeps-if _ _ _ (Keeps-lift _) (Keeps-ok _)

  pub Keeps-get_git_hub_client :
      (namespace : String) (spec : MigrationSpec)
      → Keeps (Inv V P) (get_git_hub_client e namespace spec)
  unfolding get_git_hub_client
  Keeps-get_git_hub_client namespace spec = elim (Bool-cases (ltb 1 (auth_method_count e spec))) [
    | inl many ↦ rw many (Keeps-lift _)
    | inr few ↦ elim (Bool-cases (auth_method_count e spec == 0)) [
      | inl zero ↦ rw (few, zero) (Keeps-lift _)
      | inr one ↦
          rw (few, one) (Keeps-client_by namespace spec.inline_token spec.app_auth spec.token_ref)
    ]
  ]

  Keeps-ensure_app_client :
      (namespace : String) (spec : MigrationSpec) (a i : ℤ) (cached : Bool)
      → Keeps (Inv V P) (ensure_app_client e namespace spec a i cached)
  unfolding ensure_app_client
  Keeps-ensure_app_client namespace spec a i true = Keeps-ok _
  Keeps-ensure_app_client namespace spec a i false =
      Keeps-try_then _ _ (Keeps-wrapping _ _ (Keeps-get_git_hub_client namespace spec)) (
        Keeps-try _ _ (Keeps-asking _ (Keeps-ask e k (get_app_client a i)))
          (λ cached. Keeps-lift _))

  Keeps-token_from_app :
      (namespace : String) (spec : MigrationSpec) (app : AppAuth)
      → Keeps (Inv V P) (token_from_app e namespace spec app)
  unfolding token_from_app
  Keeps-token_from_app namespace spec app = Keeps-try _ _ (Keeps-secret_text _ _ _) λ app_id_text.
      Keeps-try _ _ (Keeps-secret_text _ _ _) λ installation_id_text.
        Keeps-try _ _ (Keeps-lift _) λ a. Keeps-try _ _ (Keeps-lift _) λ i.
          Keeps-try _ _ (Keeps-asking _ (Keeps-ask e k (get_app_client a i))) λ cached.
            Keeps-try_then _ _ (Keeps-ensure_app_client namespace spec a i cached)
              (Keeps-wrapping _ _ (Keeps-ask e k (get_token a i)))

  Keeps-token_unified_by :
      (namespace : String) (spec : MigrationSpec) (app : Option AppAuth)
      (ref : Option SecretReference)
      → Keeps (Inv V P) (token_unified_by e namespace spec app ref)
  unfolding token_unified_by
  Keeps-token_unified_by namespace spec (some app) (some ref) = Keeps-lift _
  Keeps-token_unified_by namespace spec (some app) none = Keeps-token_from_app namespace spec app
  Keeps-token_unified_by namespace spec none (some ref) = Keeps-get_git_hub_token namespace spec
  Keeps-token_unified_by namespace spec none none = Keeps-lift _

  pub Keeps-get_git_hub_token_unified :
      (namespace : String) (spec : MigrationSpec)
      → Keeps (Inv V P) (get_git_hub_token_unified e namespace spec)
  unfolding get_git_hub_token_unified
  Keeps-get_git_hub_token_unified namespace spec =
      Keeps-token_unified_by namespace spec spec.app_auth spec.token_ref
