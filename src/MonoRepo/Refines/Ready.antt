-- ===== src/MonoRepo/Refines/Ready.antt =====
-- The batches of processCloning: places of repositories that wait, each once, also in whatever
-- order the clones end.
use mathlib.Core.List.{Permᴰ}
use reposhift.Common.{
  ℕ, zero, suc, ◌+◌, ◌<◌, ◌==◌, ◌≡◌, refl, sym, ap, ◌∙◌, subst, Bool, true, false, ◌||◌, some, List,
  [], ◌∷◌, all, take, get_elem?, set, arith, Bool-cases, inl, inr, if◌then◌else◌,
}
use reposhift.MonoRepo.Types.{MonoPhase, RepoPhase, RepoStatus}
use reposhift.MonoRepo.Cloning.{is_pending, is_cloning, pending_repos}
use reposhift.MonoRepo.Machine.{phases, is_waiting, is_done_in, step_in}

abbrev pub is_clone_end : RepoPhase → Bool
is_clone_end RepoPhase.rewriting = true
is_clone_end RepoPhase.failed = true
is_clone_end _ = false

-- the repository at a place waits to be cloned
abbrev pub waits_at : ℕ → List RepoPhase → Bool
waits_at i [] = false
waits_at zero (p ∷ l) = is_waiting p
waits_at (suc i) (p ∷ l) = waits_at i l

waits_at-set :
    (i j : ℕ) (q : RepoPhase) (l : List RepoPhase)
    → (j == i) ≡ false
    → waits_at j l ≡ true
    → waits_at j (set l i q) ≡ true
waits_at-set i j q [] n w = w
waits_at-set zero zero q (p ∷ l) n w = cc
waits_at-set zero (suc j) q (p ∷ l) n w = w
waits_at-set (suc i) zero q (p ∷ l) n w = w
waits_at-set (suc i) (suc j) q (p ∷ l) n w = waits_at-set i j q l (ground arith) w

-- a place that is not in a list
abbrev pub Apart : ℕ → List ℕ → Type 0
Apart i [] = Unit
Apart i (j ∷ rest) = ((j == i) ≡ false) × Apart i rest

-- The places are of repositories that wait, each once.
abbrev pub Ready : List RepoPhase → List ℕ → Type 0
Ready s [] = Unit
Ready s (i ∷ rest) = (waits_at i s ≡ true) × Apart i rest × Ready s rest

Apart-perm : (i : ℕ) {l k : List ℕ} → Permᴰ l k → Apart i l → Apart i k
Apart-perm i Permᴰ.nil a = a
Apart-perm i (Permᴰ.cons e p) (x, a) = (subst (λ (j : ℕ). (j == i) ≡ false) e x, Apart-perm i p a)
Apart-perm i (Permᴰ.swap e f) (x, (y, a)) =
    (subst (λ (j : ℕ). (j == i) ≡ false) f y, (subst (λ (j : ℕ). (j == i) ≡ false) e x, a))
Apart-perm i (Permᴰ.trans p q) a = Apart-perm i q (Apart-perm i p a)

==-sym : (i j i' j' : ℕ) → i ≡ i' → j ≡ j' → (i == j) ≡ false → (j' == i') ≡ false
==-sym i j i' j' e f h = ground arith

pub Ready-perm : (s : List RepoPhase) {l k : List ℕ} → Permᴰ l k → Ready s l → Ready s k
Ready-perm s Permᴰ.nil r = r
Ready-perm s (Permᴰ.cons {l₂ = k} e p) (w, d, r) = (
  subst (λ (i : ℕ). waits_at i s ≡ true) e w,
  subst (λ (i : ℕ). Apart i k) e (Apart-perm _ p d),
  Ready-perm s p r,
)
Ready-perm s (Permᴰ.swap {a} {b} {l} e f) (w, (n, d), (v, c, r)) = (
  subst (λ (i : ℕ). waits_at i s ≡ true) f v,
  (==-sym b a _ _ f e n, subst (λ (i : ℕ). Apart i l) f c),
  (subst (λ (i : ℕ). waits_at i s ≡ true) e w, subst (λ (i : ℕ). Apart i l) e d, r),
)
Ready-perm s (Permᴰ.trans p q) r = Ready-perm s q (Ready-perm s p r)

pub Ready-set :
    (i : ℕ) (q : RepoPhase) (s : List RepoPhase) (l : List ℕ)
    → Apart i l
    → Ready s l
    → Ready (set s i q) l
Ready-set i q s [] d r = tt
Ready-set i q s (j ∷ l) (n, d) (w, c, r) = (waits_at-set i j q s n w, c, Ready-set i q s l d r)

Apart-take : (i n : ℕ) (l : List ℕ) → Apart i l → Apart i (take n l)
Apart-take i zero l a = tt
Apart-take i (suc n) [] a = tt
Apart-take i (suc n) (x ∷ l) (h, a) = (h, Apart-take i n l a)

pub Ready-take : (n : ℕ) (s : List RepoPhase) (l : List ℕ) → Ready s l → Ready s (take n l)
Ready-take zero s l r = tt
Ready-take (suc n) s [] r = tt
Ready-take (suc n) s (i ∷ l) (w, d, r) = (w, Apart-take i n l d, Ready-take n s l r)

-- places counted from `n`, in a list that `before` stands before
below-Apart : (i n : ℕ) (l : List RepoStatus) → i < n → Apart i (pending_repos n l)
unfolding pending_repos
below-Apart i n [] h = tt
below-Apart i n (r ∷ l) h = elim (Bool-cases (is_pending r.phase || is_cloning r.phase)) [
  | inl waits ↦ rw waits (ground arith, below-Apart i (suc n) l (omega arith))
  | inr rests ↦ rw rests (below-Apart i (suc n) l (omega arith))
]

waiting : (p : RepoPhase) → (is_pending p || is_cloning p) ≡ is_waiting p
waiting RepoPhase.pending = refl
waiting RepoPhase.cloning = refl
waiting RepoPhase.rewriting = refl
waiting RepoPhase.merging = refl
waiting RepoPhase.completed = refl
waiting RepoPhase.failed = refl
waiting RepoPhase.skipped = refl

-- the list from its place `n` on
abbrev IsFrom : ℕ → List RepoPhase → List RepoPhase → Type 0
IsFrom n s t = (j : ℕ) → waits_at (n + j) s ≡ waits_at j t

pub pending_repos-Ready :
    (s : List RepoPhase) (n : ℕ) (l : List RepoStatus)
    → IsFrom n s (phases l)
    → Ready s (pending_repos n l)
unfolding pending_repos
pending_repos-Ready s n [] h = tt
pending_repos-Ready s n (r ∷ l) h =
    let later : IsFrom (suc n) s (phases l) =
      (λ j. ap (λ (x : ℕ). waits_at x s) (omega arith) ∙ h (suc j)) in
    elim (Bool-cases (is_pending r.phase || is_cloning r.phase)) [
      | inl waits ↦ rw waits (
        ap (λ (x : ℕ). waits_at x s) (omega arith) ∙ h 0 ∙ sym (waiting r.phase) ∙ waits,
        below-Apart n (suc n) l (omega arith),
        pending_repos-Ready s (suc n) l later,
      )
      | inr rests ↦ rw rests (pending_repos-Ready s (suc n) l later)
    ]

split_pending :
    (p : RepoPhase) (i : ℕ) (others : List ℕ)
    → (if is_pending p || is_cloning p then i ∷ others else others) ≡ []
    → (is_done_in MonoPhase.cloning p ≡ true) × (others ≡ [])
split_pending RepoPhase.pending i others h = cc
split_pending RepoPhase.cloning i others h = cc
split_pending RepoPhase.rewriting i others h = (refl, h)
split_pending RepoPhase.merging i others h = (refl, h)
split_pending RepoPhase.completed i others h = (refl, h)
split_pending RepoPhase.failed i others h = (refl, h)
split_pending RepoPhase.skipped i others h = (refl, h)

-- with nothing left to clone, every repository is past cloning
pub none_pending :
    (n : ℕ) (l : List RepoStatus)
    → pending_repos n l ≡ []
    → all (is_done_in MonoPhase.cloning) (phases l) ≡ true
unfolding pending_repos
none_pending n [] h = refl
none_pending n (r ∷ l) h =
    let (d, rest) = split_pending r.phase n (pending_repos (suc n) l) h in
    rw (d, none_pending (suc n) l rest) refl

-- a repository that waits, with its phase
pub waits_at-get :
    (i : ℕ) (s : List RepoPhase)
    → waits_at i s ≡ true
    → (p : RepoPhase) × (get_elem? s i ≡ some p) × (is_waiting p ≡ true)
waits_at-get i [] w = cc
waits_at-get zero (p ∷ s) w = (p, refl, w)
waits_at-get (suc i) (p ∷ s) w = waits_at-get i s w

pub clone_step :
    (p q : RepoPhase)
    → is_waiting p ≡ true
    → is_clone_end q ≡ true
    → step_in MonoPhase.cloning p q ≡ true
clone_step p RepoPhase.rewriting w h = w
clone_step p RepoPhase.failed w h = w
clone_step p RepoPhase.pending w h = cc
clone_step p RepoPhase.cloning w h = cc
clone_step p RepoPhase.merging w h = cc
clone_step p RepoPhase.completed w h = cc
clone_step p RepoPhase.skipped w h = cc
