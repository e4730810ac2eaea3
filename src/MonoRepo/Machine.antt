-- ===== src/MonoRepo/Machine.antt =====
-- The monorepo migration as a machine: the moves from one stored status to the next.
pub mod Order
pub mod Measure
use reposhift.Common.{
  ℕ, zero, suc, ◌≡◌, Bool, true, false, ◌&&◌, Option, none, some, List, [], ◌∷◌, map, all, any,
  length, get_elem?, set,
}
use reposhift.MonoRepo.Types.{MonoPhase, RepoPhase, RepoStatus, MonoProgress, MonoStatus}
use reposhift.MonoRepo.Progress.{is_completed, is_failed, is_skipped, count_repos}
use reposhift.MonoRepo.Merging.{has_completed}
use reposhift.MonoRepo.Annotations.{is_finished, reset_repo}

abbrev pub phases : List RepoStatus → List RepoPhase
phases l = map (λ r. r.phase) l

abbrev pub is_waiting : RepoPhase → Bool
is_waiting RepoPhase.pending = true
is_waiting RepoPhase.cloning = true
is_waiting _ = false

-- In a phase of the migration, the change of one repository's phase.
abbrev pub step_in : MonoPhase → RepoPhase → RepoPhase → Bool
step_in MonoPhase.cloning p RepoPhase.rewriting = is_waiting p
step_in MonoPhase.cloning p RepoPhase.failed = is_waiting p
step_in MonoPhase.rewriting RepoPhase.rewriting RepoPhase.merging = true
step_in MonoPhase.rewriting RepoPhase.rewriting RepoPhase.failed = true
step_in MonoPhase.merging RepoPhase.merging RepoPhase.completed = true
step_in MonoPhase.merging RepoPhase.merging RepoPhase.failed = true
step_in _ _ _ = false

-- Changes of one repository after another.
pub data Advances (phase : MonoPhase) : List RepoPhase → List RepoPhase → Type 0 where
  stays : {l : List RepoPhase} → Advances phase l l
  advances :
      {l k : List RepoPhase} (i : ℕ) (p q : RepoPhase)
      → get_elem? l i ≡ some p
      → step_in phase p q ≡ true
      → Advances phase (set l i q) k
      → Advances phase l k

-- the phase that follows when all repositories are past one
abbrev pub next_phase : MonoPhase → Option MonoPhase
next_phase MonoPhase.pending = some MonoPhase.validating
next_phase MonoPhase.validating = some MonoPhase.cloning
next_phase MonoPhase.cloning = some MonoPhase.rewriting
next_phase MonoPhase.rewriting = some MonoPhase.merging
next_phase MonoPhase.merging = some MonoPhase.pushing
next_phase _ = none

-- the phases that end by themselves
abbrev pub is_active : MonoPhase → Bool
is_active MonoPhase.pending = true
is_active MonoPhase.validating = true
is_active MonoPhase.cloning = true
is_active MonoPhase.rewriting = true
is_active MonoPhase.merging = true
is_active MonoPhase.pushing = true
is_active _ = false

-- a repository that a phase has nothing left to do for
abbrev pub is_done_in : MonoPhase → RepoPhase → Bool
is_done_in MonoPhase.cloning RepoPhase.pending = false
is_done_in MonoPhase.cloning RepoPhase.cloning = false
is_done_in MonoPhase.rewriting RepoPhase.rewriting = false
is_done_in MonoPhase.merging RepoPhase.merging = false
is_done_in _ _ = true

-- The counters say what the repositories are.
pub record IsExact (b : MonoStatus) : Type 0 where
  pub completed_lem : b.progress.completed_repos ≡ count_repos is_completed b.repo_statuses
  pub failed_lem : b.progress.failed_repos ≡ count_repos is_failed b.repo_statuses
  pub skipped_lem : b.progress.skipped_repos ≡ count_repos is_skipped b.repo_statuses

-- A status and the next one that a phase may store.
pub data Works (b c : MonoStatus) : Type 0 where
  goes_on :
      next_phase b.phase ≡ some c.phase
      → all (is_done_in b.phase) (phases b.repo_statuses) ≡ true
      → c.repo_statuses ≡ b.repo_statuses
      → Works b c
  changes :
      (i : ℕ) (p q : RepoPhase)
      → c.phase ≡ b.phase
      → get_elem? (phases b.repo_statuses) i ≡ some p
      → step_in b.phase p q ≡ true
      → Advances b.phase (set (phases b.repo_statuses) i q) (phases c.repo_statuses)
      → Works b c
  fails :
      is_active b.phase ≡ true
      → c.phase ≡ MonoPhase.failed
      → Advances b.phase (phases b.repo_statuses) (phases c.repo_statuses)
      → Works b c
  finishes :
      b.phase ≡ MonoPhase.pushing
      → has_completed b.repo_statuses ≡ true
      → c.phase ≡ MonoPhase.completed
      → c.repo_statuses ≡ b.repo_statuses
      → IsExact c
      → Works b c

-- With what the annotations ask for, and the start.
pub data Moves (b c : MonoStatus) : Type 0 where
  works : Works b c → Moves b c
  initializes : b.phase ≡ MonoPhase.unset → c.phase ≡ MonoPhase.pending → Moves b c
  pauses : c.phase ≡ MonoPhase.paused → c.repo_statuses ≡ b.repo_statuses → Moves b c
  cancels : c.phase ≡ MonoPhase.cancelled → c.repo_statuses ≡ b.repo_statuses → Moves b c
  retries :
      is_finished b.phase ≡ true
      → c.phase ≡ MonoPhase.pending
      → c.repo_statuses ≡ map reset_repo b.repo_statuses
      → Moves b c
