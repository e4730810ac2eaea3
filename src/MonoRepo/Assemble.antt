-- ===== src/MonoRepo/Assemble.antt =====
-- The monorepo itself, of internal/services/monorepo_migration.go: InitMonoRepo,
-- MergeRepoIntoMonoRepo and PushMonoRepo as their git commands.
use reposhift.Common.{String, Bool, none, some, List, [], ◌∷◌, str_eq, any, if◌then◌else◌}
use reposhift.Common.Text.{concat, codes, contains}
use reposhift.Common.Result.{Result, ok, err}
use reposhift.Common.State.Fallible.{◌>>=◌, ◌>>◌, pure, lift, asking, wrapping}
use reposhift.MonoRepo.Env.{Env, Ran, mkdir_all, set_default_branch}
use reposhift.MonoRepo.Action.{ask}
use reposhift.MonoRepo.Tokens.{Try, of_error}
use reposhift.MonoRepo.Branches.{filter_branches, is_empty}
use reposhift.MonoRepo.Git.{done_or, judged, must, attempt, git_in, slashed}

-- GitHub's rules refuse the push
abbrev is_blocked : String → Bool
is_blocked output =
    any (λ words. contains (codes output) (codes words))
      ("repository rule violations" ∷ "push declined" ∷ "protected branch" ∷ [])

unfoldable pub pushed_branches : (owner repo : String) → Ran → Result (Unit {0})
pushed_branches owner repo ran =
    if is_blocked ran.output
    then elim ran.error [
      | none ↦ ok tt
      | some error ↦ err (
          concat (
            "push blocked by GitHub repository rulesets for " ∷ owner ∷ "/" ∷ repo ∷ ": " ∷ error
            ∷ "\nOutput: " ∷ ran.output ∷ []))
    ]
    else done_or "git push branches failed: " ran

-- what a merge makes of the branches: those that the exclude list leaves, if there is one
unfoldable pub branches_to_merge :
    (match : (pattern name : String) → Bool)
    → List String
    → (exclude : List String) → (default : String) → List String
unfolding filter_branches
branches_to_merge match branches exclude default =
    if is_empty exclude then branches else filter_branches match branches [] exclude default

module _ (e : Env) where
  unfoldable pub init_mono_repo : (work_dir default_branch : String) → Try e.World String
  unfolding must
  init_mono_repo work_dir default_branch =
      let dir = slashed work_dir "monorepo" in
      do
        made ← asking (ask e (mkdir_all dir))
        wrapping "failed to create monorepo directory: " (lift (of_error made))
        must e "git init failed: " (git_in dir ("init" ∷ "--initial-branch" ∷ default_branch ∷ []))
        must e "git config failed: "
            (git_in dir ("config" ∷ "user.email" ∷ "migration@ado-to-git-migration.io" ∷ []))
        must e "git config failed: "
            (git_in dir ("config" ∷ "user.name" ∷ "ADO Migration Operator" ∷ []))
        must e "initial commit failed: "
            (git_in dir ("commit" ∷ "--allow-empty" ∷ "-m" ∷ "Initialize monorepo" ∷ []))
        pure dir

  -- a branch for each but the default one
  unfoldable pub create_branches :
      (dir repo_name default : String) → List String → Try e.World (Unit {0})
  unfolding attempt
  create_branches dir repo_name default [] = pure tt
  create_branches dir repo_name default (branch ∷ rest) =
      let others = create_branches dir repo_name default rest in
      if str_eq branch default then others else do
        asking (
            attempt e
              (git_in dir ("branch" ∷ slashed repo_name branch ∷ slashed repo_name branch ∷ [])))
        others

  unfoldable pub create_tags : (dir repo_name : String) → List String → Try e.World (Unit {0})
  unfolding attempt
  create_tags dir repo_name [] = pure tt
  create_tags dir repo_name (tag ∷ rest) = do
    asking (attempt e (git_in dir ("tag" ∷ slashed repo_name tag ∷ slashed repo_name tag ∷ [])))
    create_tags dir repo_name rest

  -- the exclude list filters the branches; the include list that the controller passes is not read
  unfoldable pub merge_repo_into_mono_repo :
      (dir rewritten_dir repo_name default : String)
      → (branches tags exclude : List String) → Try e.World (Unit {0})
  unfolding must attempt branches_to_merge create_branches create_tags
  merge_repo_into_mono_repo dir rewritten_dir repo_name default branches tags exclude = do
    must e (concat ("failed to add remote " ∷ repo_name ∷ ": " ∷ []))
        (git_in dir ("remote" ∷ "add" ∷ repo_name ∷ rewritten_dir ∷ []))
    must e (concat ("failed to fetch from " ∷ repo_name ∷ ": " ∷ []))
        (git_in dir ("fetch" ∷ repo_name ∷ []))
    must e (concat ("failed to merge " ∷ repo_name ∷ ": " ∷ [])) (
        git_in dir (
          "merge"
          ∷ "--allow-unrelated-histories"
          ∷ "--no-edit"
          ∷ "-m"
          ∷ concat ("Merge " ∷ repo_name ∷ " into monorepo" ∷ [])
          ∷ slashed repo_name default
          ∷ []))
    create_branches dir repo_name default (branches_to_merge e.match branches exclude default)
    create_tags dir repo_name tags
    asking (attempt e (git_in dir ("remote" ∷ "remove" ∷ repo_name ∷ [])))

  unfoldable pub push_mono_repo : (dir token owner repo default : String) → Try e.World (Unit {0})
  unfolding must judged pushed_branches
  push_mono_repo dir token owner repo default = do
    must e "failed to add origin remote: " (
        git_in dir (
          "remote"
          ∷ "add"
          ∷ "origin"
          ∷ concat (
              "https://x-access-token:" ∷ token ∷ "@github.com/" ∷ owner ∷ "/" ∷ repo ∷ ".git" ∷ [])
          ∷ []))
    judged e (pushed_branches owner repo) (git_in dir ("push" ∷ "--all" ∷ "origin" ∷ []))
    must e "git push tags failed: " (git_in dir ("push" ∷ "--tags" ∷ "origin" ∷ []))
    asking (ask e (set_default_branch token owner repo default))
    pure tt
