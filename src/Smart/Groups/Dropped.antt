-- ===== src/Smart/Groups/Dropped.antt =====
-- A migration whose turn comes before its dependencies' is left out of the plan.
use reposhift.Common.{
  ◌≡◌, refl, ap, subst, ◌∙◌, String, Bool, true, false, not, List, [], ◌∷◌, all, str_eq, eq_iff,
  arith, inl, inr, Bool-cases, if◌then◌else◌,
}
use reposhift.Smart.Types.{PlannedMigration}
use reposhift.Smart.Groups.{
  processed, all_deps_processed, select, is_named, is_ready, level, add_group, groups_from,
  identify_parallel_groups,
}
use reposhift.Smart.Groups.Order.{extend, level-InOrder}

-- the names of the list but one, and those before it
abbrev pub names_but : String → List PlannedMigration → List String → List String
names_but name [] base = base
names_but name (pm ∷ pms) base =
    names_but name pms (if str_eq pm.name name then base else pm.name ∷ base)

-- One name is not listed after all of its dependencies, every other after all of its own, of which
-- the one is none; `base` has the other names listed before.
abbrev TooEarly : String → List String → List PlannedMigration → Type 0
TooEarly name base [] = Unit {0}
TooEarly name base (pm ∷ pms) =
    (all_deps_processed base pm ≡ not (str_eq pm.name name))
    × TooEarly name (if str_eq pm.name name then base else pm.name ∷ base) pms

-- no migration of the list has the name
abbrev pub lacks : String → List PlannedMigration → Bool
lacks name pms = all (λ pm. not (str_eq pm.name name)) pms

abbrev Same : List String → List String → Type 0
Same base done = (d : String) → processed d done ≡ processed d base

all-Same :
    (base done ds : List String)
    → Same base done
    → all (λ d. processed d done) ds ≡ all (λ d. processed d base) ds
all-Same base done [] h = refl
all-Same base done (d ∷ ds) h = ground (arith, h d, all-Same base done ds h)

all-nil :
    (base ds : List String)
    → all (λ d. processed d base) ds ≡ false
    → all (λ d. processed d []) ds ≡ false
all-nil base [] h = h
all-nil base (d ∷ ds) h = refl

-- the first pass finds the migration of the name not ready
named_pass :
    (name : String) (pms : List PlannedMigration) (base : List String)
    → TooEarly name base pms
    → select (is_named name) pms [] ≡ ([], [])
unfolding select
named_pass name [] base early = refl
named_pass name (pm ∷ pms) base early = elim (Bool-cases (str_eq pm.name name)) [
  | inl here ↦
      let next : select (is_named name) pms [] ≡ ([], []) = named_pass name pms _ early.1 in
      let unmet : all_deps_processed base pm ≡ false = early.0 ∙ ap not here in
      let out : is_named name [] pm ≡ false = ground (arith, all-nil base pm.dependencies unmet) in
      rw (out, next) refl
  | inr other ↦
      let next : select (is_named name) pms [] ≡ ([], []) = named_pass name pms _ early.1 in
      let out : is_named name [] pm ≡ false = ground (arith, other) in rw (out, next) refl
]

-- the second pass takes all others, and not that one
ready_pass :
    (name : String) (pms : List PlannedMigration) (base done : List String)
    → TooEarly name base pms
    → Same base done
    → (lacks name (select is_ready pms done).0 ≡ true)
      × Same (names_but name pms base) (select is_ready pms done).1
unfolding select
ready_pass name [] base done early same = (refl, same)
ready_pass name (pm ∷ pms) base done early same =
    let deps = all-Same base done pm.dependencies same in
    let met = early.0 in
    elim (Bool-cases (str_eq pm.name name)) [
      | inl here ↦
          let later : TooEarly name base pms =
            subst (λ b. TooEarly name (if b then base else pm.name ∷ base) pms) here early.1 in
          let out : is_ready done pm ≡ false = ground (arith, deps, met, here) in
          rw (here, out) (ready_pass name pms base done later same)
      | inr other ↦
          let later : TooEarly name (pm.name ∷ base) pms =
            subst (λ b. TooEarly name (if b then base else pm.name ∷ base) pms) other early.1 in
          elim (Bool-cases (is_ready done pm)) [
            | inl hit ↦
                let (l, n) =
                  ready_pass name pms (pm.name ∷ base) (pm.name ∷ done) later
                    (λ d. ground (arith, same d)) in
                rw (hit, other) (l, n)
            | inr miss ↦
                let known : processed pm.name done ≡ true =
                  ground (arith, deps, met, other, miss) in
                rw (miss, other)
                  (ready_pass name pms (pm.name ∷ base) done later
                    (λ d. ground (arith, same d, eq_iff pm.name d, known)))
          ]
    ]

dropped_level :
    (name : String) (pms : List PlannedMigration)
    → TooEarly name [] pms
    → (lacks name (level name pms []).0 ≡ true) × Same (names_but name pms []) (level name pms []).1
unfolding level
dropped_level name pms early =
    rw (named_pass name pms [] early) (ready_pass name pms [] [] early (λ d. refl))

-- names that are processed make no further groups
groups_from-processed :
    (names : List String) (pms : List PlannedMigration) (done : List String)
    → all (λ n. processed n done) names ≡ true
    → groups_from names pms done ≡ []
unfolding groups_from
groups_from-processed [] pms done h = refl
groups_from-processed (n ∷ names) pms done h =
    let first : processed n done ≡ true = ground arith in
    rw first (groups_from-processed names pms done (ground arith))

-- If one migration is not listed after all of its dependencies, every other is listed after all of
-- its own, of which the first is none, and the execution order has the first's name first and then
-- others of the list, then the plan has one group at most, in which that migration is not, and the
-- names in the group are all the others.
pub identify_parallel_groups_drops :
    (name : String) (names : List String) (pms : List PlannedMigration)
    → TooEarly name [] pms
    → all (λ n. processed n (names_but name pms [])) names ≡ true
    → (g : List PlannedMigration) × (identify_parallel_groups (name ∷ names) pms ≡ add_group g [])
      × (lacks name g ≡ true)
      × ((d : String) → processed d (extend g []) ≡ processed d (names_but name pms []))
unfolding identify_parallel_groups groups_from
identify_parallel_groups_drops name names pms early others =
    let g = (level name pms []).0 in
    let (l, n) = dropped_level name pms early in
    let (_, e) = level-InOrder name pms [] in
    (
      g,
      rw
          (groups_from-processed names pms (level name pms []).1
            (all-Same (names_but name pms []) (level name pms []).1 names n ∙ others))
          refl,
      l,
      subst
          (λ (done : List String).
            (d : String) → processed d done ≡ processed d (names_but name pms []))
          e n,
    )
