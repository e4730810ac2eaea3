-- ===== src/Migration/Validate/Verdict.antt =====
-- What decides whether validation passes.
use reposhift.Common.{
  ℕ, ◌≡◌, refl, ◌∙◌, String, Bool, true, false, List, [], ◌∷◌, arith, ap, str_eq,
}
use reposhift.Common.Int.{ℤ}
use reposhift.Common.Result.{Result, ok, err}
use reposhift.Migration.Types.{MigrationResource, Remark, ValidationResults, Migration}
use reposhift.Migration.Env.{Env, St, Client, Lookup, get_organization, get_repository_by_client}
use reposhift.Migration.Action.{◌>>=◌, pure, ask, now}
use reposhift.Migration.Validate.{
  no_remarks, judge_organization, judge_present, judge_unless_error, judge_repository,
  handle_existing_repository, validate_repository_with_client, validate_by_type,
  validate_resources_with_client, perform_validation_with_client,
}

unfoldable pub is_ok {ℓ} : {A : Type ℓ} → Result A → Bool
is_ok (ok a) = true
is_ok (err error) = false

unfoldable pub has_no_errors : List Remark → Bool
has_no_errors [] = true
has_no_errors (w ∷ rest) = false

-- the same verdict and errors
abbrev SameVerdict : ValidationResults → ValidationResults → Type 0
SameVerdict u v = (u.valid ≡ v.valid) × (u.errors ≡ v.errors)

judge_repository-SameVerdict :
    (r : MigrationResource) (a : Lookup) (v : ValidationResults)
    → SameVerdict (judge_repository r a v) v
unfolding judge_repository judge_unless_error judge_present handle_existing_repository
judge_repository-SameVerdict r a v = ground arith

module _ (e : Env) where
  validate_by_type-SameVerdict :
      (b : Bool) (c : Client) (owner : String) (r : MigrationResource) (v : ValidationResults)
      (s : St e.World)
      → SameVerdict (validate_by_type e b c owner r v s).0 v
  unfolding validate_by_type validate_repository_with_client ◌>>=◌ pure
  validate_by_type-SameVerdict false c owner r v s = (refl, refl)
  validate_by_type-SameVerdict true c owner r v s =
      judge_repository-SameVerdict r (ask e (get_repository_by_client c owner r.target_name) s).0 v

  validate_resources-SameVerdict :
      (c : Client) (owner : String) (l : List MigrationResource) (v : ValidationResults)
      (s : St e.World)
      → SameVerdict (validate_resources_with_client e c owner l v s).0 v
  unfolding validate_resources_with_client ◌>>=◌ pure
  validate_resources-SameVerdict c owner [] v s = (refl, refl)
  validate_resources-SameVerdict c owner (r ∷ rest) v s =
      let first = validate_by_type e (str_eq r.type "repository") c owner r v s in
      let (p, q) = validate_by_type-SameVerdict (str_eq r.type "repository") c owner r v s in
      let (x, y) = validate_resources-SameVerdict c owner rest first.0 first.1 in (x ∙ p, y ∙ q)

  judge_organization-verdict :
      (a : Result ℤ) (t : ℕ)
      → ((judge_organization a (no_remarks t)).valid ≡ is_ok a)
        × (has_no_errors (judge_organization a (no_remarks t)).errors ≡ is_ok a)
  unfolding judge_organization no_remarks is_ok has_no_errors
  judge_organization-verdict (ok n) t = ground arith
  judge_organization-verdict (err x) t = (refl, refl)

  -- Validation with a client passes exactly when GitHub gives access to the target's organization,
  -- and then and only then the results have no errors: no answer about a repository, be it an
  -- error or one that exists already, makes them invalid.
  pub perform_validation_with_client_lem :
      (c : Client) (m : Migration) (s : St e.World)
      → ((perform_validation_with_client e c m s).0.valid
          ≡ is_ok (e.ask (get_organization c m.spec.owner) (e.now s.world).1).0)
        × (has_no_errors (perform_validation_with_client e c m s).0.errors
            ≡ is_ok (e.ask (get_organization c m.spec.owner) (e.now s.world).1).0)
  unfolding perform_validation_with_client ◌>>=◌ ask now
  perform_validation_with_client_lem c m s =
      let t = (e.now s.world).0 in
      let a = e.ask (get_organization c m.spec.owner) (e.now s.world).1 in
      let (p, q) = judge_organization-verdict a.0 t in
      let (x, y) =
        validate_resources-SameVerdict c m.spec.owner m.spec.resources
          (judge_organization a.0 (no_remarks t))
          (record { world = a.1; migration = s.migration; notices = s.notices }) in
      (x ∙ p, ap has_no_errors y ∙ q)
