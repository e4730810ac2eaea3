-- ===== src/MonoRepo/Refines/Search.antt =====
-- What the search for the next repository in a phase finds.
use reposhift.Common.{
  ℕ, suc, ◌+◌, ◌≡◌, refl, ◌∙◌, Bool, true, false, not, Option, none, some, List, [], ◌∷◌, all,
  get_elem?, arith, Bool-cases, inl, inr,
}
use reposhift.MonoRepo.Types.{MonoPhase, RepoPhase, RepoStatus}
use reposhift.MonoRepo.Merging.{find_next_repo, is_rewriting, is_merging}
use reposhift.MonoRepo.Machine.{phases, is_done_in}

-- what a search for the next repository tells, counted from `n`
abbrev pub NextIs : (RepoPhase → Bool) → ℕ → List RepoStatus → Option (ℕ × RepoStatus) → Type 0
NextIs p n l none = all (λ q. not (p q)) (phases l) ≡ true
NextIs p n l (some (i, r)) =
    (j : ℕ) × (i ≡ n + j) × (get_elem? (phases l) j ≡ some r.phase) × (p r.phase ≡ true)

NextIs-later :
    (p : RepoPhase → Bool) (n : ℕ) (r : RepoStatus) (l : List RepoStatus)
    (o : Option (ℕ × RepoStatus))
    → p r.phase ≡ false
    → NextIs p (suc n) l o
    → NextIs p n (r ∷ l) o
NextIs-later p n r l none h a = rw h a
NextIs-later p n r l (some (i, s)) h (j, e, g, t) = (suc j, e ∙ omega arith, g, t)

pub find_next_repo-NextIs :
    (p : RepoPhase → Bool) (n : ℕ) (l : List RepoStatus) → NextIs p n l (find_next_repo p n l)
unfolding find_next_repo
find_next_repo-NextIs p n [] = refl
find_next_repo-NextIs p n (r ∷ l) = elim (Bool-cases (p r.phase)) [
  | inl found ↦ rw found (0, omega arith, refl, found)
  | inr other ↦ rw other (NextIs-later p n r l _ other (find_next_repo-NextIs p (suc n) l))
]

pub all_done :
    (p : RepoPhase → Bool) (phase : MonoPhase) (l : List RepoPhase)
    → ((q : RepoPhase) → not (p q) ≡ is_done_in phase q)
    → all (λ q. not (p q)) l ≡ true
    → all (is_done_in phase) l ≡ true
all_done p phase [] h a = refl
all_done p phase (q ∷ l) h a = ground (arith, h q, all_done p phase l h)

pub rewriting_done : (q : RepoPhase) → not (is_rewriting q) ≡ is_done_in MonoPhase.rewriting q
rewriting_done q = ground arith

pub merging_done : (q : RepoPhase) → not (is_merging q) ≡ is_done_in MonoPhase.merging q
merging_done q = ground arith

pub is_rewriting-eq : (q : RepoPhase) → is_rewriting q ≡ true → q ≡ RepoPhase.rewriting
is_rewriting-eq q h = ground arith

pub is_merging-eq : (q : RepoPhase) → is_merging q ≡ true → q ≡ RepoPhase.merging
is_merging-eq q h = ground arith
