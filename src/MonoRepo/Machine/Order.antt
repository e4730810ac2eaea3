-- ===== src/MonoRepo/Machine/Order.antt =====
-- The order of the phases: in each, every repository is past the phases before it; and a completed
-- migration has counters that say so.
use reposhift.Common.{
  ℕ, zero, suc, ◌+◌, ◌≡◌, refl, sym, ap, ◌∙◌, subst, Bool, true, false, ◌&&◌, some, List, [], ◌∷◌,
  all, length, set, arith, ◌≢◌, if◌then◌else◌,
}
use reposhift.MonoRepo.Types.{MonoPhase, RepoPhase, RepoStatus, MonoStatus}
use reposhift.MonoRepo.Progress.{is_completed, is_failed, is_skipped, count_repos}
use reposhift.MonoRepo.Merging.{has_completed}
use reposhift.MonoRepo.Machine.{
  phases, step_in, Advances, stays, advances, next_phase, is_done_in, IsExact, Works, goes_on,
  changes, fails, finishes, Moves, works, initializes, pauses, cancels, retries,
}

-- where a repository may be in a phase of the migration
abbrev is_past : MonoPhase → RepoPhase → Bool
is_past MonoPhase.rewriting RepoPhase.pending = false
is_past MonoPhase.rewriting RepoPhase.cloning = false
is_past MonoPhase.merging RepoPhase.pending = false
is_past MonoPhase.merging RepoPhase.cloning = false
is_past MonoPhase.merging RepoPhase.rewriting = false
is_past MonoPhase.pushing RepoPhase.pending = false
is_past MonoPhase.pushing RepoPhase.cloning = false
is_past MonoPhase.pushing RepoPhase.rewriting = false
is_past MonoPhase.pushing RepoPhase.merging = false
is_past MonoPhase.completed RepoPhase.pending = false
is_past MonoPhase.completed RepoPhase.cloning = false
is_past MonoPhase.completed RepoPhase.rewriting = false
is_past MonoPhase.completed RepoPhase.merging = false
is_past _ _ = true

pub record IsInOrder (b : MonoStatus) : Type 0 where
  pub past_lem : all (is_past b.phase) (phases b.repo_statuses) ≡ true
  pub completed_lem :
      b.phase ≡ MonoPhase.completed → IsExact b × (has_completed b.repo_statuses ≡ true)

next-past :
    (p q : MonoPhase) (r : RepoPhase)
    → next_phase p ≡ some q
    → is_past p r ≡ true
    → is_done_in p r ≡ true
    → is_past q r ≡ true
next-past MonoPhase.pending MonoPhase.validating r n a d = refl
next-past MonoPhase.validating MonoPhase.cloning r n a d = refl
next-past MonoPhase.cloning MonoPhase.rewriting r n a d = ground arith
next-past MonoPhase.rewriting MonoPhase.merging r n a d = ground arith
next-past MonoPhase.merging MonoPhase.pushing r n a d = ground arith
next-past p q r n a d = ground arith

all_next :
    (p q : MonoPhase) (l : List RepoPhase)
    → next_phase p ≡ some q
    → all (is_past p) l ≡ true
    → all (is_done_in p) l ≡ true
    → all (is_past q) l ≡ true
all_next p q [] n a d = refl
all_next p q (r ∷ l) n a d = ground (arith, next-past p q r n, all_next p q l n)

step-past : (p : MonoPhase) (r s : RepoPhase) → step_in p r s ≡ true → is_past p s ≡ true
step-past MonoPhase.cloning r s h = refl
step-past MonoPhase.rewriting r s h = ground arith
step-past MonoPhase.merging r s h = ground arith
step-past p r s h = ground arith

all-set :
    (f : RepoPhase → Bool) (l : List RepoPhase) (i : ℕ) (q : RepoPhase)
    → f q ≡ true
    → all f l ≡ true
    → all f (set l i q) ≡ true
all-set f [] i q h a = refl
all-set f (r ∷ l) zero q h a = ground arith
all-set f (r ∷ l) (suc i) q h a = ground (arith, all-set f l i q h)

Advances-past :
    {phase : MonoPhase} {l k : List RepoPhase}
    → all (is_past phase) l ≡ true
    → Advances phase l k
    → all (is_past phase) k ≡ true
Advances-past h stays = h
Advances-past {phase} {l} h (advances i p q g s a) =
    Advances-past (all-set (is_past phase) l i q (step-past phase p q s) h) a

all-true :
    (p : MonoPhase) (l : List RepoPhase)
    → ((r : RepoPhase) → is_past p r ≡ true)
    → all (is_past p) l ≡ true
all-true p [] h = refl
all-true p (r ∷ l) h = ground (arith, h r, all-true p l h)

-- a phase in which repositories may be anywhere
loose :
    {c : MonoStatus} (p : MonoPhase)
    → c.phase ≡ p
    → ((r : RepoPhase) → is_past p r ≡ true)
    → p ≢ MonoPhase.completed
    → IsInOrder c
loose {c} p e h n = record {
  past_lem = rw e (all-true p (phases c.repo_statuses) h);
  completed_lem = λ d. absurd (n (sym e ∙ d));
}

next-ne-completed : (p : MonoPhase) → next_phase p ≢ some MonoPhase.completed
next-ne-completed p h = ground arith

completed-no-step : (p q : RepoPhase) → step_in MonoPhase.completed p q ≢ true
completed-no-step p q h = ground arith

Works-IsInOrder : {b c : MonoStatus} → IsInOrder b → Works b c → IsInOrder c
Works-IsInOrder {b} {c} o (goes_on n d s) = record {
  past_lem = rw s (all_next b.phase c.phase (phases b.repo_statuses) n o.past_lem d);
  completed_lem = λ e. absurd (next-ne-completed b.phase (n ∙ ap some e));
}
Works-IsInOrder {b} {c} o (changes i p q e g s a) = record {
  past_lem = rw e (
      Advances-past
        (all-set (is_past b.phase) (phases b.repo_statuses) i q (step-past b.phase p q s)
          o.past_lem)
        a);
  completed_lem = λ d.
      absurd
        (completed-no-step p q (subst (λ (x : MonoPhase). step_in x p q ≡ true) (sym e ∙ d) s));
}
Works-IsInOrder o (fails act e a) = loose MonoPhase.failed e (λ r. refl) (λ p. cc)
Works-IsInOrder {b} {c} o (finishes p has e s x) = record {
  past_lem =
      rw (e, s)
        (pushed_past (phases b.repo_statuses) (
          subst (λ (x : MonoPhase). all (is_past x) (phases b.repo_statuses) ≡ true) p o.past_lem));
  completed_lem = λ d. (x, rw s has);
}
  where
    pushed_past :
        (l : List RepoPhase)
        → all (is_past MonoPhase.pushing) l ≡ true
        → all (is_past MonoPhase.completed) l ≡ true
    pushed_past [] h = refl
    pushed_past (r ∷ l) h = ground (arith, pushed_past l)

pub Moves-IsInOrder : {b c : MonoStatus} → IsInOrder b → Moves b c → IsInOrder c
Moves-IsInOrder o (works w) = Works-IsInOrder o w
Moves-IsInOrder o (initializes u e) = loose MonoPhase.pending e (λ r. refl) (λ p. cc)
Moves-IsInOrder o (pauses e s) = loose MonoPhase.paused e (λ r. refl) (λ p. cc)
Moves-IsInOrder o (cancels e s) = loose MonoPhase.cancelled e (λ r. refl) (λ p. cc)
Moves-IsInOrder o (retries f e s) = loose MonoPhase.pending e (λ r. refl) (λ p. cc)

-- Every repository of a completed migration has ended, one of them well, and is counted.
pub record IsAccounted (b : MonoStatus) : Type 0 where
  pub some_completed : has_completed b.repo_statuses ≡ true
  total_lem :
      b.progress.completed_repos + b.progress.failed_repos + b.progress.skipped_repos
      ≡ length b.repo_statuses

ended_counts :
    (l : List RepoStatus)
    → all (is_past MonoPhase.completed) (phases l) ≡ true
    → count_repos is_completed l + count_repos is_failed l + count_repos is_skipped l ≡ length l
ended_counts [] h = omega arith
ended_counts (r ∷ l) h = ended_more r.phase h (ended_counts l)
  where
    ended_more :
        (p : RepoPhase)
        → (is_past MonoPhase.completed p && all (is_past MonoPhase.completed) (phases l)) ≡ true
        → (all (is_past MonoPhase.completed) (phases l) ≡ true
            → count_repos is_completed l + count_repos is_failed l + count_repos is_skipped l
              ≡ length l)
        → (if is_completed p then 1 else 0)
            + count_repos is_completed l
            + ((if is_failed p then 1 else 0) + count_repos is_failed l)
            + ((if is_skipped p then 1 else 0) + count_repos is_skipped l)
          ≡ suc (length l)
    ended_more p h ih = ground (arith, ih)

pub IsInOrder-IsAccounted :
    {b : MonoStatus} → IsInOrder b → b.phase ≡ MonoPhase.completed → IsAccounted b
IsInOrder-IsAccounted {b} o d =
    let (x, has) = o.completed_lem d in
    record {
      some_completed = has;
      total_lem = omega (
        arith,
        x.completed_lem,
        x.failed_lem,
        x.skipped_lem,
        ended_counts b.repo_statuses (
            subst (λ (p : MonoPhase). all (is_past p) (phases b.repo_statuses) ≡ true) d
              o.past_lem),
      );
    }
