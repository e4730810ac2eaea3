-- ===== src/MonoRepo/Machine/Measure.antt =====
-- What is left to do: every move of a migration that is neither paused nor cancelled nor tried
-- again makes it less.
use reposhift.Common.{
  ℕ, zero, suc, ◌+◌, ◌≤◌, ◌<◌, ◌≡◌, refl, ap, true, false, some, List, [], ◌∷◌, get_elem?, set,
  arith,
}
use reposhift.MonoRepo.Types.{MonoPhase, RepoPhase, RepoStatus, MonoStatus}
use reposhift.MonoRepo.Machine.{
  phases, step_in, Advances, stays, advances, is_active, next_phase, Works, goes_on, changes, fails,
  finishes,
}

-- how many steps a repository is from its end
abbrev pub repo_rank : RepoPhase → ℕ
repo_rank RepoPhase.pending = 3
repo_rank RepoPhase.cloning = 3
repo_rank RepoPhase.rewriting = 2
repo_rank RepoPhase.merging = 1
repo_rank _ = 0

abbrev pub repos_rank : List RepoPhase → ℕ
repos_rank [] = 0
repos_rank (p ∷ rest) = repo_rank p + repos_rank rest

abbrev pub phase_rank : MonoPhase → ℕ
phase_rank MonoPhase.pending = 6
phase_rank MonoPhase.validating = 5
phase_rank MonoPhase.cloning = 4
phase_rank MonoPhase.rewriting = 3
phase_rank MonoPhase.merging = 2
phase_rank MonoPhase.pushing = 1
phase_rank _ = 0

abbrev pub measure : MonoStatus → ℕ
measure b = phase_rank b.phase + repos_rank (phases b.repo_statuses)

pub step-rank :
    (phase : MonoPhase) (p q : RepoPhase) → step_in phase p q ≡ true → repo_rank q < repo_rank p
step-rank MonoPhase.cloning RepoPhase.pending RepoPhase.rewriting h = omega arith
step-rank MonoPhase.cloning RepoPhase.cloning RepoPhase.rewriting h = omega arith
step-rank MonoPhase.cloning RepoPhase.pending RepoPhase.failed h = omega arith
step-rank MonoPhase.cloning RepoPhase.cloning RepoPhase.failed h = omega arith
step-rank MonoPhase.rewriting RepoPhase.rewriting RepoPhase.merging h = omega arith
step-rank MonoPhase.rewriting RepoPhase.rewriting RepoPhase.failed h = omega arith
step-rank MonoPhase.merging RepoPhase.merging RepoPhase.completed h = omega arith
step-rank MonoPhase.merging RepoPhase.merging RepoPhase.failed h = omega arith
step-rank phase p q h = ground arith

pub set-rank :
    (l : List RepoPhase) (i : ℕ) (p q : RepoPhase)
    → get_elem? l i ≡ some p
    → repo_rank q < repo_rank p
    → repos_rank (set l i q) < repos_rank l
set-rank [] i p q h lt = cc
set-rank (r ∷ l) zero p q h lt = ground arith
set-rank (r ∷ l) (suc i) p q h lt = omega (arith, set-rank l i p q h lt)

pub Advances-rank :
    {phase : MonoPhase} {l k : List RepoPhase} → Advances phase l k → repos_rank k ≤ repos_rank l
Advances-rank stays = omega arith
Advances-rank {phase} {l} (advances i p q g s a) =
    omega (arith, set-rank l i p q g (step-rank phase p q s), Advances-rank a)

active-rank : (p : MonoPhase) → is_active p ≡ true → 0 < phase_rank p
active-rank MonoPhase.pending h = omega arith
active-rank MonoPhase.validating h = omega arith
active-rank MonoPhase.cloning h = omega arith
active-rank MonoPhase.rewriting h = omega arith
active-rank MonoPhase.merging h = omega arith
active-rank MonoPhase.pushing h = omega arith
active-rank p h = ground arith

next-rank : (p q : MonoPhase) → next_phase p ≡ some q → phase_rank q < phase_rank p
next-rank MonoPhase.pending MonoPhase.validating h = omega arith
next-rank MonoPhase.validating MonoPhase.cloning h = omega arith
next-rank MonoPhase.cloning MonoPhase.rewriting h = omega arith
next-rank MonoPhase.rewriting MonoPhase.merging h = omega arith
next-rank MonoPhase.merging MonoPhase.pushing h = omega arith
next-rank p q h = ground arith

-- the measure by what the phase and the repositories become
lowers_by :
    (b c : MonoStatus) (q : MonoPhase)
    → c.phase ≡ q
    → phase_rank q < phase_rank b.phase
    → repos_rank (phases c.repo_statuses) ≤ repos_rank (phases b.repo_statuses)
    → measure c < measure b
lowers_by b c q e lt le = omega (arith, ap phase_rank e)

same-rank : (l k : List RepoStatus) → k ≡ l → repos_rank (phases k) ≤ repos_rank (phases l)
same-rank l k e = omega (arith, ap (λ (x : List RepoStatus). repos_rank (phases x)) e)

pub Works-lowers : {b c : MonoStatus} → is_active b.phase ≡ true → Works b c → measure c < measure b
Works-lowers {b} {c} h (goes_on n d s) =
    lowers_by b c c.phase refl (next-rank b.phase c.phase n) (same-rank _ _ s)
Works-lowers {b} {c} h (changes i p q e g s a) = omega (
  arith,
  ap phase_rank e,
  set-rank (phases b.repo_statuses) i p q g (step-rank b.phase p q s),
  Advances-rank a,
)
Works-lowers {b} {c} h (fails act e a) =
    lowers_by b c MonoPhase.failed e (active-rank b.phase h) (Advances-rank a)
Works-lowers {b} {c} h (finishes p has e s x) =
    lowers_by b c MonoPhase.completed e (active-rank b.phase h) (same-rank _ _ s)

pub measure-zero : (b : MonoStatus) → measure b ≤ 0 → is_active b.phase ≡ false
measure-zero b h = inactive b.phase (omega arith)
  where
    inactive : (p : MonoPhase) → phase_rank p ≤ 0 → is_active p ≡ false
    inactive p h = ground arith
