-- ===== src/Smart/Total.antt =====
-- estimateTotalDuration of internal/smart/engine.go, in seconds.
use reposhift.Common.{
  ℕ, ◌+◌, ◌≤◌, ◌≡◌, refl, Bool, true, List, [], ◌∷◌, ◌++◌, all, ltb, leb, if◌then◌else◌, arith,
}
use reposhift.Smart.Types.{PlannedMigration}
use reposhift.Smart.Groups.Order.{flatten}

unfoldable total_of : List PlannedMigration → ℕ → ℕ
total_of [] total = total
total_of (pm ∷ pms) total = total_of pms (total + pm.estimated_duration)

unfoldable max_in_group : List PlannedMigration → ℕ → ℕ
max_in_group [] longest = longest
max_in_group (pm ∷ pms) longest =
    max_in_group pms (if ltb longest pm.estimated_duration then pm.estimated_duration else longest)

unfoldable total_of_groups : List (List PlannedMigration) → ℕ → ℕ
unfolding max_in_group
total_of_groups [] total = total
total_of_groups (group ∷ groups) total = total_of_groups groups (total + max_in_group group 0)

unfoldable estimate_total_duration : List PlannedMigration → List (List PlannedMigration) → ℕ
unfolding total_of total_of_groups
estimate_total_duration pms [] = total_of pms 0
estimate_total_duration pms (group ∷ groups) = total_of_groups (group ∷ groups) 0

-- the loops add to what they start with
total_of_start : (pms : List PlannedMigration) (n : ℕ) → total_of pms n ≡ n + total_of pms 0
unfolding total_of
total_of_start [] n = omega arith
total_of_start (pm ∷ pms) n = omega (
  arith,
  total_of_start pms (n + pm.estimated_duration),
  total_of_start pms (0 + pm.estimated_duration),
)

total_of_groups_start :
    (groups : List (List PlannedMigration)) (n : ℕ)
    → total_of_groups groups n ≡ n + total_of_groups groups 0
unfolding total_of_groups
total_of_groups_start [] n = omega arith
total_of_groups_start (g ∷ gs) n = omega (
  arith,
  total_of_groups_start gs (n + max_in_group g 0),
  total_of_groups_start gs (0 + max_in_group g 0),
)

total_of-append :
    (xs ys : List PlannedMigration) (n : ℕ) → total_of (xs ++ ys) n ≡ total_of ys (total_of xs n)
unfolding total_of
total_of-append [] ys n = refl
total_of-append (x ∷ xs) ys n = total_of-append xs ys (n + x.estimated_duration)

-- the longest is at most the sum, and at least each
max_in_group_le : (pms : List PlannedMigration) (n : ℕ) → max_in_group pms n ≤ total_of pms n
unfolding max_in_group total_of
max_in_group_le [] n = omega arith
max_in_group_le (pm ∷ pms) n =
    let m = if ltb n pm.estimated_duration then pm.estimated_duration else n in
    let h : m ≤ n + pm.estimated_duration = ground arith in
    omega (
      arith,
      h,
      max_in_group_le pms m,
      total_of_start pms m,
      total_of_start pms (n + pm.estimated_duration),
    )

max_in_group_ge : (pms : List PlannedMigration) (n : ℕ) → n ≤ max_in_group pms n
unfolding max_in_group
max_in_group_ge [] n = omega arith
max_in_group_ge (pm ∷ pms) n =
    let m = if ltb n pm.estimated_duration then pm.estimated_duration else n in
    let h : n ≤ m = ground arith in omega (arith, h, max_in_group_ge pms m)

total_of_groups_le :
    (groups : List (List PlannedMigration)) → total_of_groups groups 0 ≤ total_of (flatten groups) 0
unfolding total_of_groups total_of
total_of_groups_le [] = omega arith
total_of_groups_le (g ∷ gs) = omega (
  arith,
  total_of_groups_start gs (0 + max_in_group g 0),
  max_in_group_le g 0,
  total_of-append g (flatten gs) 0,
  total_of_start (flatten gs) (total_of g 0),
  total_of_groups_le gs,
)

-- no migration of a list takes longer than `n`
abbrev within : ℕ → List PlannedMigration → Bool
within n pms = all (λ pm. leb pm.estimated_duration n) pms

within_le :
    (n m : ℕ) (pms : List PlannedMigration) → n ≤ m → within n pms ≡ true → within m pms ≡ true
within_le n m [] h w = refl
within_le n m (pm ∷ pms) h w = ground (arith, h, w, within_le n m pms)

within-append :
    (n : ℕ) (xs ys : List PlannedMigration)
    → within n xs ≡ true
    → within n ys ≡ true
    → within n (xs ++ ys) ≡ true
within-append n [] ys h k = k
within-append n (x ∷ xs) ys h k = ground (arith, h, within-append n xs ys)

group_within : (pms : List PlannedMigration) (n : ℕ) → within (max_in_group pms n) pms ≡ true
unfolding max_in_group
group_within [] n = refl
group_within (pm ∷ pms) n =
    let m = if ltb n pm.estimated_duration then pm.estimated_duration else n in
    let h : pm.estimated_duration ≤ m = ground arith in
    ground (arith, h, max_in_group_ge pms m, group_within pms m)

groups_within :
    (groups : List (List PlannedMigration))
    → within (total_of_groups groups 0) (flatten groups) ≡ true
unfolding total_of_groups
groups_within [] = refl
groups_within (g ∷ gs) =
    let start = total_of_groups_start gs (0 + max_in_group g 0) in
    let n = total_of_groups gs (0 + max_in_group g 0) in
    within-append n g (flatten gs)
      (within_le (max_in_group g 0) n g (omega (arith, start)) (group_within g 0))
      (within_le (total_of_groups gs 0) n (flatten gs) (omega (arith, start)) (groups_within gs))

-- The estimate of a plan with parallel groups is at most the sum of the durations of the
-- migrations in the groups, and at least the duration of each of them.
estimate_total_duration_lem :
    (pms : List PlannedMigration) (group : List PlannedMigration)
    (groups : List (List PlannedMigration))
    → (estimate_total_duration pms (group ∷ groups) ≤ total_of (flatten (group ∷ groups)) 0)
      × (within (estimate_total_duration pms (group ∷ groups)) (flatten (group ∷ groups)) ≡ true)
unfolding estimate_total_duration
estimate_total_duration_lem pms group groups =
    (total_of_groups_le (group ∷ groups), groups_within (group ∷ groups))
