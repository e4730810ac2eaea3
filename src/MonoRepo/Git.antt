-- ===== src/MonoRepo/Git.antt =====
-- The git steps of a monorepo migration, of internal/services/monorepo_migration.go: rewriting a
-- clone into a subdirectory, with the commands that it runs.
use reposhift.Common.{ℕ, String, Bool, true, false, none, some, List, [], ◌∷◌, str_append}
use reposhift.Common.Text.{concat}
use reposhift.Common.Result.{Result, ok, err}
use reposhift.Common.State.{M, ◌>>=◌, ◌>>◌, pure}
use reposhift.Common.State.Fallible
use reposhift.MonoRepo.Env.{Env, St, Ran, exec, stat, remove_all}
use reposhift.MonoRepo.Action.{ask}
use reposhift.MonoRepo.Tokens.{Try}
use reposhift.MonoRepo.Branches.{branches_of, tags_of, trim_space}

-- services.RewriteRepoResult, as its readers use it
pub record Rewritten : Type 0 where
  pub branches : List String
  pub tags : List String
  pub commit_count : ℕ

-- the names in what a command printed, where it succeeded
abbrev pub listed : (String → List String) → Ran → List String
listed f ran = elim ran.error [ none ↦ f ran.output | some error ↦ [] ]

abbrev pub done_or : String → Ran → Result (Unit {0})
done_or what ran = elim ran.error [
  | none ↦ ok tt
  | some error ↦ err (concat (what ∷ error ∷ " (output: " ∷ ran.output ∷ ")" ∷ []))
]

abbrev pub git_in : String → List String → List String
git_in dir rest = "git" ∷ "-C" ∷ dir ∷ rest

abbrev pub slashed : String → String → String
slashed a b = concat (a ∷ "/" ∷ b ∷ [])

module _ (e : Env) where
  -- a command and what its end says
  unfoldable pub judged : (Ran → Result (Unit {0})) → List String → Try e.World (Unit {0})
  judged judge command s = let ran = ask e (exec command) s in (judge ran.0, ran.1)

  -- a command whose failure is an error
  unfoldable pub must : (what : String) → List String → Try e.World (Unit {0})
  unfolding judged
  must what command = judged (done_or what) command

  -- a command whose failure is only told
  unfoldable pub attempt : List String → M (St e.World) (Unit {0})
  attempt command s = (tt, (ask e (exec command) s).1)

  unfoldable pub remove_if : Bool → String → M (St e.World) (Unit {0})
  remove_if true dir = do ask e (remove_all dir); pure tt
  remove_if false dir = pure tt

  -- the clone is copied, and git-filter-repo rewrites the copy
  unfoldable pub copy_and_rewrite :
      (bare_clone_dir working_dir subdir_name : String) → Try e.World (Unit {0})
  unfolding must attempt
  copy_and_rewrite bare_clone_dir working_dir subdir_name =
      Fallible.◌>>◌
        (must "failed to create working copy: "
          ("git" ∷ "clone" ∷ bare_clone_dir ∷ working_dir ∷ []))
        (Fallible.◌>>◌
          (Fallible.asking
            (attempt (git_in working_dir ("fetch" ∷ "origin" ∷ "+refs/heads/*:refs/heads/*" ∷ []))))
          (must (concat ("git-filter-repo failed for " ∷ subdir_name ∷ ": " ∷ [])) (
            git_in working_dir (
              "filter-repo"
              ∷ "--to-subdirectory-filter"
              ∷ str_append subdir_name "/"
              ∷ "--force"
              ∷ []))))

  -- by whether the rewritten directory is there already; a partial working copy goes first
  unfoldable pub make_working_copy :
      Bool → (bare_clone_dir working_dir subdir_name : String) → Try e.World (Unit {0})
  unfolding copy_and_rewrite remove_if
  make_working_copy true bare_clone_dir working_dir subdir_name = Fallible.pure tt
  make_working_copy false bare_clone_dir working_dir subdir_name =
      Fallible.◌>>◌
        (Fallible.asking (do exists ← ask e (stat working_dir); remove_if exists working_dir))
        (copy_and_rewrite bare_clone_dir working_dir subdir_name)

  -- collectBranchesAndTags of the controller, and the same in RewriteRepoToSubdirectory
  unfoldable pub collect_branches_and_tags :
      (dir : String) → M (St e.World) (List String × List String)
  unfolding branches_of tags_of
  collect_branches_and_tags dir = do
    branches ← ask e (exec (git_in dir ("branch" ∷ "--list" ∷ "--no-color" ∷ [])))
    tags ← ask e (exec (git_in dir ("tag" ∷ "--list" ∷ [])))
    pure (listed branches_of branches, listed tags_of tags)

  abbrev counted_in : Ran → ℕ
  counted_in ran = elim ran.error [ none ↦ e.scan_int (trim_space ran.output) | some error ↦ 0 ]

  unfoldable pub collect_stats :
      (bare_clone_dir working_dir : String) → (cleanup : Bool) → M (St e.World) Rewritten
  unfolding collect_branches_and_tags remove_if trim_space
  collect_stats bare_clone_dir working_dir cleanup = do
    names ← collect_branches_and_tags working_dir
    count ← ask e (exec (git_in working_dir ("rev-list" ∷ "--count" ∷ "--all" ∷ [])))
    remove_if cleanup bare_clone_dir
    pure (record { branches = names.0; tags = names.1; commit_count = counted_in count })

  unfoldable pub rewrite_repo_to_subdirectory :
      (bare_clone_dir subdir_name : String) → (cleanup : Bool) → Try e.World Rewritten
  unfolding make_working_copy collect_stats
  rewrite_repo_to_subdirectory bare_clone_dir subdir_name cleanup =
      let working_dir = str_append bare_clone_dir "-work" in
      Fallible.◌>>=◌ (Fallible.asking (ask e (stat (slashed working_dir subdir_name)))) λ rewritten.
        Fallible.◌>>◌ (make_working_copy rewritten bare_clone_dir working_dir subdir_name)
          (Fallible.asking (collect_stats bare_clone_dir working_dir cleanup))
