-- ===== src/Migration/Validate.antt =====
-- processValidating: the GitHub client, the checks with it, and what their results lead to.
pub mod Verdict
use reposhift.Common.{
  ℕ, ◌*◌, ◌==◌, String, Bool, true, false, Option, none, some, List, [], ◌∷◌, ◌++◌, str_eq,
  if◌then◌else◌,
}
use reposhift.Common.Int.{ℤ, pos, ltb_ℤ}
use reposhift.Common.Text.{concat}
use reposhift.Common.Result.{Result, ok, err}
use reposhift.Batch.Types.{SecretReference}
use reposhift.Migration.Types.{
  MigrationPhase, MigrationResource, Remark, ValidationResults, Migration, MigrationStatus,
}
use reposhift.Migration.Env.{
  Env, Client, Lookup, Outcome, get_organization, get_repository_by_client,
}
use reposhift.Migration.Action.{
  M, ◌>>=◌, ◌>>◌, pure, gets, modify, event, now, ask, status_update, send_web_socket_update,
  second, returned, requeued,
}
use reposhift.Migration.Conditions.{set_condition}
use reposhift.Migration.Restart.{unless_error, save_and, running_requeue_interval}
use reposhift.Migration.Running.{with_phase, with_step, with_completion_time, fail_migration}
use reposhift.Migration.Tokens.{get_git_hub_client, get_git_hub_token}

abbrev pub pending_requeue_interval : ℕ
pending_requeue_interval = 5 * second

abbrev remark : (code resource : String) → Remark
remark code resource = record { code = code; resource = resource }

abbrev add_warning : Remark → ValidationResults → ValidationResults
add_warning w v = record v { warnings = v.warnings ++ w ∷ [] }

-- an error makes the results invalid
abbrev add_error : Remark → ValidationResults → ValidationResults
add_error w v = record v { valid = false; errors = v.errors ++ w ∷ [] }

unfoldable pub no_remarks : (t : ℕ) → ValidationResults
no_remarks t = record { valid = true; errors = []; warnings = []; timestamp = t }

-- by the answer on the organization: its remaining calls
unfoldable pub judge_organization : Result ℤ → ValidationResults → ValidationResults
judge_organization (err error) v = add_error (remark "GITHUB_ORG_ACCESS_FAILED" "") v
judge_organization (ok remaining) v =
    if ltb_ℤ remaining (pos 100) then add_warning (remark "LOW_RATE_LIMIT" "") v else v

abbrev is_code : ℕ → Option ℕ → Bool
is_code n none = false
is_code n (some code) = code == n

-- an existing repository is always allowed
unfoldable pub handle_existing_repository :
    MigrationResource → ValidationResults → ValidationResults
handle_existing_repository r v = add_warning (remark "REPO_WILL_USE_EXISTING" r.source_name) v

unfoldable pub judge_present : MigrationResource → Bool → ValidationResults → ValidationResults
unfolding handle_existing_repository
judge_present r true v = handle_existing_repository r v
judge_present r false v = v

unfoldable pub judge_unless_error :
    MigrationResource → Option String → Bool → ValidationResults → ValidationResults
unfolding judge_present
judge_unless_error r (some error) has_repository v =
    add_warning (remark "REPO_CHECK_FAILED" r.source_name) v
judge_unless_error r none has_repository v = judge_present r has_repository v

-- a code 404 is fine, whatever the error
unfoldable pub judge_repository : MigrationResource → Lookup → ValidationResults → ValidationResults
unfolding judge_unless_error
judge_repository r answer v =
    if is_code 404 answer.status_code
    then v
    else judge_unless_error r answer.error answer.has_repository v

unfoldable pub with_results : ValidationResults → MigrationStatus → MigrationStatus
with_results v b = record b { validation_results = some v }

unfoldable pub validation_failed : MigrationStatus → MigrationStatus
validation_failed b = record (with_step "Validation failed" b) {
  phase = MigrationPhase.failed;
  error_message = "Validation failed - see validation results for details";
}

abbrev pub unless_retried : Outcome → Option String → Outcome
unless_retried done none = done
unless_retried done (some error) = requeued pending_requeue_interval (some error)

module _ (e : Env) where
  unfoldable pub validate_repository_with_client :
      Client
      → (owner : String) → MigrationResource
      → ValidationResults
      → M e.World ValidationResults
  unfolding judge_repository
  validate_repository_with_client client owner r v = do
    answer ← ask e (get_repository_by_client client owner r.target_name)
    pure (judge_repository r answer v)

  unfoldable pub validate_by_type :
      Bool
      → Client
      → (owner : String) → MigrationResource
      → ValidationResults
      → M e.World ValidationResults
  unfolding validate_repository_with_client
  validate_by_type true client owner r v = validate_repository_with_client client owner r v
  validate_by_type false client owner r v = pure v

  unfoldable pub validate_resources_with_client :
      Client
      → (owner : String) → List MigrationResource
      → ValidationResults
      → M e.World ValidationResults
  unfolding validate_by_type
  validate_resources_with_client client owner [] v = pure v
  validate_resources_with_client client owner (r ∷ rest) v = do
    judged ← validate_by_type (str_eq r.type "repository") client owner r v
    validate_resources_with_client client owner rest judged

  unfoldable pub perform_validation_with_client : Client → Migration → M e.World ValidationResults
  unfolding no_remarks judge_organization validate_resources_with_client
  perform_validation_with_client client m = do
    t ← now e
    answer ← ask e (get_organization client m.spec.owner)
    validate_resources_with_client client m.spec.owner m.spec.resources
        (judge_organization answer (no_remarks t))

  unfoldable pub fail_validation : M e.World Outcome
  unfolding validation_failed save_and
  fail_validation = do
    modify validation_failed
    t ← now e
    modify (with_completion_time t)
    set_condition e "Validated" false "ValidationFailed"
        "Validation failed - see validation results for details"
    set_condition e "Ready" false "ValidationFailed"
        "Migration cannot proceed due to validation failures"
    send_web_socket_update e "Validation failed"
    event "ValidationFailed"
    save_and e (returned none)

  -- a status update whose error is retried after a while
  unfoldable pub save_or_retry : Outcome → M e.World Outcome
  save_or_retry done = do error ← status_update e; pure (unless_retried done error)

  unfoldable pub pass_validation : M e.World Outcome
  unfolding save_or_retry
  pass_validation = do
    modify (with_phase MigrationPhase.running)
    modify (with_step "Starting migration")
    set_condition e "Validated" true "ValidationPassed" "All validation checks passed"
    set_condition e "MigrationActive" true "MigrationRunning" "Migration is now running"
    send_web_socket_update e "Validation passed, starting migration"
    event "ValidationPassed"
    save_or_retry (requeued running_requeue_interval none)

  unfoldable pub handle_validation_results : Bool → M e.World Outcome
  unfolding fail_validation pass_validation
  handle_validation_results false = fail_validation
  handle_validation_results true = pass_validation

  unfoldable pub skip_validation : M e.World Outcome
  unfolding save_or_retry
  skip_validation = do
    modify (with_phase MigrationPhase.running)
    modify (with_step "Starting migration (validation skipped)")
    send_web_socket_update e "Validation skipped, starting migration"
    event "ValidationSkipped"
    save_or_retry (requeued running_requeue_interval none)

  -- the token of the older checks: read where there is a reference, and not used
  unfoldable pub token_if : Migration → Option SecretReference → M e.World (Result String)
  unfolding get_git_hub_token
  token_if m none = pure (ok "")
  token_if m (some ref) = get_git_hub_token e m.namespace m.spec

  unfoldable pub validate_with_token : Client → Migration → Result String → M e.World Outcome
  unfolding perform_validation_with_client with_results handle_validation_results
  validate_with_token client m (err error) =
      fail_migration e (concat ("Failed to get GitHub token: " ∷ error ∷ []))
  validate_with_token client m (ok token) = do
    results ← perform_validation_with_client client m
    modify (with_results results)
    handle_validation_results results.valid

  unfoldable pub validate_with_client : Migration → Result Client → M e.World Outcome
  unfolding token_if validate_with_token
  validate_with_client m (err error) =
      fail_migration e (concat ("Failed to get GitHub client: " ∷ error ∷ []))
  validate_with_client m (ok client) = do
    token ← token_if m m.spec.token_ref
    validate_with_token client m token

  unfoldable pub validate_unless_skipped : Migration → Bool → M e.World Outcome
  unfolding skip_validation validate_with_client get_git_hub_client
  validate_unless_skipped m true = skip_validation
  validate_unless_skipped m false = do
    client ← get_git_hub_client e m.namespace m.spec
    validate_with_client m client

  unfoldable pub process_validating : M e.World Outcome
  unfolding validate_unless_skipped
  process_validating = do m ← gets (λ m. m); validate_unless_skipped m m.spec.skip_validation
