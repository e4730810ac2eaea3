-- ===== src/Smart/Groups/Parallel.antt =====
-- Migrations that are listed after their dependencies all land in one parallel group.
use reposhift.Common.{
  ◌≡◌, ◌≢◌, refl, String, Bool, true, false, List, [], ◌∷◌, all, arith, ap, subst, inl, inr,
  Bool-cases, eq_iff, eq_refl,
}
use reposhift.Smart.Types.{PlannedMigration}
use reposhift.Smart.Groups.{
  processed, select, is_named, is_ready, level, add_group, groups_from, identify_parallel_groups,
}
use reposhift.Smart.Groups.Order.{extend, InOrder, level-InOrder}

abbrev Within : List String → List String → Type 0
Within base done = (d : String) → processed d base ≡ true → processed d done ≡ true

all-Within :
    (base done ds : List String)
    → Within base done
    → all (λ d. processed d base) ds ≡ true
    → all (λ d. processed d done) ds ≡ true
all-Within base done [] w h = refl
all-Within base done (d ∷ ds) w h = ground (arith, w d, all-Within base done ds w)

-- the second pass leaves out nothing whose dependencies come before it
select-Within :
    (pms : List PlannedMigration) (base done : List String)
    → InOrder base pms
    → Within base done
    → Within (extend pms base) (select is_ready pms done).1
unfolding select
select-Within [] base done o w = w
select-Within (pm ∷ pms) base done o w = elim (Bool-cases (is_ready done pm)) [
  | inl hit ↦
      rw hit (select-Within pms (pm.name ∷ base) (pm.name ∷ done) o.1 (λ d h. ground (arith, w d)))
  | inr miss ↦ rw miss (
      select-Within pms (pm.name ∷ base) done o.1
        (λ d h. ground (arith, w d, eq_iff pm.name d, all-Within base done pm.dependencies w o.0)))
]

select-grows :
    (test : List String → PlannedMigration → Bool) (pms : List PlannedMigration)
    (done : List String)
    → Within done (select test pms done).1
unfolding select
select-grows test [] done d h = h
select-grows test (pm ∷ pms) done d h = elim (Bool-cases (test done pm)) [
  | inl hit ↦ rw hit (select-grows test pms (pm.name ∷ done) d (ground arith))
  | inr miss ↦ rw miss (select-grows test pms done d h)
]

level-Within :
    (name : String) (pms : List PlannedMigration)
    → InOrder [] pms
    → Within (extend pms []) (level name pms []).1
unfolding level
level-Within name pms o = select-Within pms [] (select (is_named name) pms []).1 o (λ d h. cc)

extend-grows : (pms : List PlannedMigration) (done : List String) → Within done (extend pms done)
extend-grows [] done d h = h
extend-grows (pm ∷ pms) done d h = extend-grows pms (pm.name ∷ done) d (ground arith)

-- every migration of the list is processed
abbrev pub Full : List PlannedMigration → List String → Type 0
Full pms done = all (λ pm. processed pm.name done) pms ≡ true

Within-Full :
    (pms : List PlannedMigration) (base done : List String)
    → Within (extend pms base) done
    → Full pms done
Within-Full [] base done w = refl
Within-Full (pm ∷ pms) base done w = ground (
  arith,
  w pm.name (extend-grows pms (pm.name ∷ base) pm.name (ground (arith, eq_refl pm.name))),
  Within-Full pms (pm.name ∷ base) done w,
)

-- nothing is left to select
select_named-Full :
    (name : String) (pms : List PlannedMigration) (done : List String)
    → Full pms done
    → processed name done ≡ false
    → select (is_named name) pms done ≡ ([], done)
unfolding select
select_named-Full name [] done f h = refl
select_named-Full name (pm ∷ pms) done f h =
    ground (arith, eq_iff pm.name name, select_named-Full name pms done)

select_ready-Full :
    (pms : List PlannedMigration) (done : List String)
    → Full pms done
    → select is_ready pms done ≡ ([], done)
unfolding select
select_ready-Full [] done f = refl
select_ready-Full (pm ∷ pms) done f = ground (arith, select_ready-Full pms done)

level-Full :
    (name : String) (pms : List PlannedMigration) (done : List String)
    → Full pms done
    → processed name done ≡ false
    → level name pms done ≡ ([], done)
unfolding level
level-Full name pms done f h =
    rw (select_named-Full name pms done f h, select_ready-Full pms done f) refl

groups_from-Full :
    (names : List String) (pms : List PlannedMigration) (done : List String)
    → Full pms done
    → groups_from names pms done ≡ []
unfolding groups_from
groups_from-Full [] pms done f = refl
groups_from-Full (name ∷ names) pms done f = elim (Bool-cases (processed name done)) [
  | inl skip ↦ rw skip (groups_from-Full names pms done f)
  | inr new ↦ rw (new, level-Full name pms done f new) (groups_from-Full names pms done f)
]

add_group-cons : (g : List PlannedMigration) → g ≢ [] → add_group g [] ≡ g ∷ []
add_group-cons [] h = absurd (h refl)
add_group-cons (pm ∷ pms) h = refl

extend-nil :
    (g : List PlannedMigration) (pm : PlannedMigration) (pms : List PlannedMigration)
    → Within (extend (pm ∷ pms) []) (extend g [])
    → g ≢ []
extend-nil g pm pms w e = cc (
  ap (λ (h : List PlannedMigration). processed pm.name (extend h [])) e,
  w pm.name (extend-grows pms (pm.name ∷ []) pm.name (ground (arith, eq_refl pm.name))),
)

-- If there are migrations, and they are listed after their dependencies, then for any execution
-- order that is not empty the plan has one parallel group, which has every migration in it.
pub identify_parallel_groups_single :
    (name : String) (order : List String) (pm : PlannedMigration) (pms : List PlannedMigration)
    → InOrder [] (pm ∷ pms)
    → (g : List PlannedMigration) × (identify_parallel_groups (name ∷ order) (pm ∷ pms) ≡ g ∷ [])
      × Full (pm ∷ pms) (extend g [])
unfolding identify_parallel_groups groups_from
identify_parallel_groups_single name order pm pms o =
    let g = (level name (pm ∷ pms) []).0 in
    let w = level-Within name (pm ∷ pms) o in
    let (_, e) = level-InOrder name (pm ∷ pms) [] in
    let full = Within-Full (pm ∷ pms) [] (level name (pm ∷ pms) []).1 w in
    (
      g,
      rw (groups_from-Full order (pm ∷ pms) (level name (pm ∷ pms) []).1 full)
          (add_group-cons g (extend-nil g pm pms (subst (Within (extend (pm ∷ pms) [])) e w))),
      subst (Full (pm ∷ pms)) e full,
    )
