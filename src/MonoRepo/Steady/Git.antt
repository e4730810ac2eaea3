-- ===== src/MonoRepo/Steady/Git.antt =====
-- What the requests keep is kept by the git steps.
use reposhift.Common.{String, Bool, true, false, List, [], ◌∷◌}
use reposhift.Common.State.Leads.{
  Keeps, Leads-pure, Leads-if, Leads-bind, Leads-then, Keeps-try, Keeps-try_then, Keeps-lift,
  Keeps-ok, Keeps-asking, Keeps-wrapping,
}
use reposhift.MonoRepo.Env.{
  Env, St, Ran, Request, exec, stat, mkdir_all, remove_all, set_default_branch,
}
use reposhift.Common.Result.{Result}
use reposhift.MonoRepo.Action.{ask}
use reposhift.MonoRepo.Git.{
  done_or, judged, must, attempt, remove_if, copy_and_rewrite, make_working_copy,
  collect_branches_and_tags, collect_stats, rewrite_repo_to_subdirectory,
}
use reposhift.MonoRepo.Assemble.{
  init_mono_repo, create_branches, create_tags, merge_repo_into_mono_repo, pushed_branches,
  push_mono_repo,
}

module _ (e : Env) {I : St e.World → Type 0} (asks : (q : Request) → Keeps I (ask e q)) where
  Keeps-judged :
      (judge : Ran → Result (Unit {0})) (command : List String) → Keeps I (judged e judge command)
  unfolding judged
  Keeps-judged judge command = record { at = (asks (exec command)).at }

  Keeps-must : (what : String) (command : List String) → Keeps I (must e what command)
  unfolding must
  Keeps-must what command = Keeps-judged (done_or what) command

  Keeps-attempt : (command : List String) → Keeps I (attempt e command)
  unfolding attempt
  Keeps-attempt command = record { at = (asks (exec command)).at }

  pub Keeps-remove_if : (b : Bool) (dir : String) → Keeps I (remove_if e b dir)
  unfolding remove_if
  Keeps-remove_if true dir = Leads-then _ _ (asks (remove_all dir)) (Leads-pure _)
  Keeps-remove_if false dir = Leads-pure _

  Keeps-copy_and_rewrite :
      (bare working subdir : String) → Keeps I (copy_and_rewrite e bare working subdir)
  unfolding copy_and_rewrite
  Keeps-copy_and_rewrite bare working subdir =
      Keeps-try_then _ _ (Keeps-must _ _)
        (Keeps-try_then _ _ (Keeps-asking _ (Keeps-attempt _)) (Keeps-must _ _))

  Keeps-make_working_copy :
      (b : Bool) (bare working subdir : String)
      → Keeps I (make_working_copy e b bare working subdir)
  unfolding make_working_copy
  Keeps-make_working_copy true bare working subdir = Keeps-ok _
  Keeps-make_working_copy false bare working subdir =
      Keeps-try_then _ _
        (Keeps-asking _ (Leads-bind _ _ (asks (stat working)) (λ b. Keeps-remove_if b working)))
        (Keeps-copy_and_rewrite bare working subdir)

  pub Keeps-collect_branches_and_tags : (dir : String) → Keeps I (collect_branches_and_tags e dir)
  unfolding collect_branches_and_tags
  Keeps-collect_branches_and_tags dir =
      Leads-bind _ _ (asks (exec _)) λ branches. Leads-bind _ _ (asks (exec _)) λ tags. Leads-pure _

  Keeps-collect_stats :
      (bare working : String) (cleanup : Bool) → Keeps I (collect_stats e bare working cleanup)
  unfolding collect_stats
  Keeps-collect_stats bare working cleanup =
      Leads-bind _ _ (Keeps-collect_branches_and_tags working) λ names.
        Leads-bind _ _ (asks (exec _))
          λ count. Leads-then _ _ (Keeps-remove_if cleanup bare) (Leads-pure _)

  pub Keeps-rewrite :
      (bare subdir : String) (cleanup : Bool)
      → Keeps I (rewrite_repo_to_subdirectory e bare subdir cleanup)
  unfolding rewrite_repo_to_subdirectory
  Keeps-rewrite bare subdir cleanup = Keeps-try _ _ (Keeps-asking _ (asks (stat _))) λ rewritten.
      Keeps-try_then _ _ (Keeps-make_working_copy rewritten bare _ subdir)
        (Keeps-asking _ (Keeps-collect_stats bare _ cleanup))

  pub Keeps-init_mono_repo : (dir branch : String) → Keeps I (init_mono_repo e dir branch)
  unfolding init_mono_repo
  Keeps-init_mono_repo dir branch = Keeps-try _ _ (Keeps-asking _ (asks (mkdir_all _))) λ made.
      Keeps-try_then _ _ (Keeps-wrapping _ _ (Keeps-lift _)) (
        Keeps-try_then _ _ (Keeps-must _ _) (
          Keeps-try_then _ _ (Keeps-must _ _) (
            Keeps-try_then _ _ (Keeps-must _ _)
              (Keeps-try_then _ _ (Keeps-must _ _) (Keeps-ok _)))))

  Keeps-create_branches :
      (dir name default : String) (l : List String) → Keeps I (create_branches e dir name default l)
  unfolding create_branches
  Keeps-create_branches dir name default [] = Keeps-ok _
  Keeps-create_branches dir name default (b ∷ l) =
      let others = Keeps-create_branches dir name default l in
      Leads-if _ _ _ others (Keeps-try_then _ _ (Keeps-asking _ (Keeps-attempt _)) others)

  Keeps-create_tags : (dir name : String) (l : List String) → Keeps I (create_tags e dir name l)
  unfolding create_tags
  Keeps-create_tags dir name [] = Keeps-ok _
  Keeps-create_tags dir name (t ∷ l) =
      Keeps-try_then _ _ (Keeps-asking _ (Keeps-attempt _)) (Keeps-create_tags dir name l)

  pub Keeps-merge :
      (dir rewritten name default : String) (branches tags exclude : List String)
      → Keeps I (merge_repo_into_mono_repo e dir rewritten name default branches tags exclude)
  unfolding merge_repo_into_mono_repo
  Keeps-merge dir rewritten name default branches tags exclude =
      Keeps-try_then _ _ (Keeps-must _ _) (
        Keeps-try_then _ _ (Keeps-must _ _) (
          Keeps-try_then _ _ (Keeps-must _ _) (
            Keeps-try_then _ _ (Keeps-create_branches dir name default _) (
              Keeps-try_then _ _ (Keeps-create_tags dir name tags)
                (Keeps-asking _ (Keeps-attempt _))))))

  pub Keeps-push :
      (dir token owner repo default : String)
      → Keeps I (push_mono_repo e dir token owner repo default)
  unfolding push_mono_repo
  Keeps-push dir token owner repo default = Keeps-try_then _ _ (Keeps-must _ _) (
      Keeps-try_then _ _ (Keeps-judged (pushed_branches owner repo) _) (
        Keeps-try_then _ _ (Keeps-must _ _)
          (Keeps-try_then _ _ (Keeps-asking _ (asks (set_default_branch _ _ _ _))) (Keeps-ok _))))
