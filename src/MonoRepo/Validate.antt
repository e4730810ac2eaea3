-- ===== src/MonoRepo/Validate.antt =====
-- processValidating, with ValidateMonoRepoMigration of internal/services/monorepo_migration.go.
pub mod Subdirectories
use reposhift.Common.{
  String, Option, none, some, List, [], ◌∷◌, ◌++◌, str_eq, str_append, if◌then◌else◌,
}
use reposhift.Common.Text.{concat}
use reposhift.Common.Result.{Result, ok, err}
use reposhift.Common.State.{M, ◌>>=◌, ◌>>◌, pure}
use reposhift.MonoRepo.Types.{MonoPhase, SourceRepo, MonoSpec}
use reposhift.MonoRepo.Env.{Env, St, Outcome, look_path}
use reposhift.MonoRepo.Action.{
  reads, change, event, ask, send_web_socket_update, requeued, mono_repo_running_requeue_interval,
  with_mono_phase, at_step,
}
use reposhift.MonoRepo.Tokens.{get_azure_dev_ops_token, get_git_hub_token}
use reposhift.MonoRepo.Branches.{is_empty}
use reposhift.MonoRepo.Progress.{find_workspace, save_and, fail_migration}

-- services.ValidationError, by its code and message
pub record Mistake : Type 0 where
  pub code : String
  pub message : String

abbrev unless_given : String → (code message : String) → List Mistake
unless_given text code message =
    if str_eq text "" then record { code = code; message = message } ∷ [] else []

-- the subdirectory of a source repository
unfoldable pub subdirectory_of : SourceRepo → String
subdirectory_of r = if str_eq r.subdirectory_name "" then r.name else r.subdirectory_name

abbrev used_twice : (subdir name : String) → Option String → List Mistake
used_twice subdir name none = []
used_twice subdir name (some other) =
    record {
      code = "DUPLICATE_SUBDIR";
      message = concat (
          "Subdirectory name '" ∷ subdir ∷ "' is used by both '" ∷ other ∷ "' and '" ∷ name ∷ "'"
          ∷ []);
    }
    ∷ []

-- the names by subdirectory, the latest entry of each first
unfoldable subdir_names : List (String × String) → List SourceRepo → List Mistake
unfolding subdirectory_of find_workspace
subdir_names names [] = []
subdir_names names (r ∷ rest) =
    let subdir = subdirectory_of r in
    let unnamed = str_eq r.name "" in
    (if unnamed
      then record { code = "MISSING_REPO_NAME"; message = "Source repository name is required" }
        ∷ []
      else used_twice subdir r.name (find_workspace subdir names))
    ++ subdir_names (if unnamed then names else (subdir, r.name) ∷ names) rest

unfoldable pub mistakes_in : MonoSpec → List Mistake
unfolding subdir_names
mistakes_in spec =
    unless_given spec.organization "MISSING_ORGANIZATION" "Source organization is required"
    ++ (unless_given spec.project "MISSING_PROJECT" "Source project is required"
        ++ (unless_given spec.owner "MISSING_TARGET_OWNER" "Target owner is required"
            ++ (unless_given spec.repository "MISSING_TARGET_REPO"
                  "Target repository name is required"
                ++ ((if is_empty spec.source_repos
                      then record {
                        code = "NO_SOURCE_REPOS";
                        message = "At least one source repository is required";
                      }
                        ∷ []
                      else [])
                    ++ subdir_names [] spec.source_repos))))

-- strings.Join of the messages with "; "
unfoldable joined_messages : List Mistake → String
joined_messages [] = ""
joined_messages (m ∷ []) = m.message
joined_messages (m ∷ next ∷ rest) = concat (m.message ∷ "; " ∷ joined_messages (next ∷ rest) ∷ [])

module _ (e : Env) where
  -- the search for git-filter-repo makes a warning at most, which nothing reads
  unfoldable pub validate_mono_repo_migration : MonoSpec → M (St e.World) (List Mistake)
  unfolding mistakes_in
  validate_mono_repo_migration spec = do
    ask e (look_path "git-filter-repo")
    pure (mistakes_in spec)

  unfoldable pub judge : List Mistake → M (St e.World) Outcome
  unfolding fail_migration joined_messages save_and
  judge (m ∷ rest) =
      fail_migration e (str_append "Validation failed: " (joined_messages (m ∷ rest)))
  judge [] = do
    change (λ b.
        at_step "Validation passed, starting clone phase" (with_mono_phase MonoPhase.cloning b))
    send_web_socket_update e "Validation passed, starting cloning"
    event "ValidationPassed"
    save_and e (requeued mono_repo_running_requeue_interval none)

  unfoldable pub validate_with : MonoSpec → Result String → M (St e.World) Outcome
  unfolding fail_migration validate_mono_repo_migration judge
  validate_with spec (err error) =
      fail_migration e (str_append "Failed to resolve GitHub token: " error)
  validate_with spec (ok token) = do mistakes ← validate_mono_repo_migration spec; judge mistakes

  unfoldable pub validate_after : String → MonoSpec → Result String → M (St e.World) Outcome
  unfolding fail_migration get_git_hub_token validate_with
  validate_after namespace spec (err error) =
      fail_migration e (str_append "Failed to resolve ADO token: " error)
  validate_after namespace spec (ok token) = do
    git_hub_token ← get_git_hub_token e namespace spec
    validate_with spec git_hub_token

  unfoldable pub process_validating : M (St e.World) Outcome
  unfolding get_azure_dev_ops_token validate_after
  process_validating = do
    m ← reads (λ m. m)
    token ← get_azure_dev_ops_token e m.namespace m.spec
    validate_after m.namespace m.spec token
