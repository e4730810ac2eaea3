-- ===== src/Smart/Groups/Order.antt =====
-- The groups respect the dependencies when they are run one migration at a time, and put
-- migrations that depend on one another side by side.
use reposhift.Common.{
  ◌≡◌, refl, String, Bool, true, List, [], ◌∷◌, ◌++◌, arith, ◌∙◌, inl, inr, Bool-cases,
}
use reposhift.Smart.Types.{PlannedMigration}
use reposhift.Smart.Groups.{
  processed, all_deps_processed, select, is_named, is_ready, level, add_group, groups_from,
  identify_parallel_groups,
}

abbrev pub flatten : List (List PlannedMigration) → List PlannedMigration
flatten [] = []
flatten (g ∷ gs) = g ++ flatten gs

-- The names processed after a list of migrations.
abbrev pub extend : List PlannedMigration → List String → List String
extend [] done = done
extend (pm ∷ pms) done = extend pms (pm.name ∷ done)

-- Each migration's dependencies are processed before it, given those in `done`.
abbrev pub InOrder : List String → List PlannedMigration → Type 0
InOrder done [] = Unit
InOrder done (pm ∷ pms) = (all_deps_processed done pm ≡ true) × InOrder (pm.name ∷ done) pms

InOrder-append :
    (xs ys : List PlannedMigration) (done : List String)
    → InOrder done xs
    → InOrder (extend xs done) ys
    → InOrder done (xs ++ ys)
InOrder-append [] ys done h k = k
InOrder-append (x ∷ xs) ys done h k = (h.0, InOrder-append xs ys (x.name ∷ done) h.1 k)

module _ (test : List String → PlannedMigration → Bool) where
  -- a pass whose test asks for the dependencies keeps the order
  select-InOrder :
      ((done : List String) (pm : PlannedMigration)
        → test done pm ≡ true
        → all_deps_processed done pm ≡ true)
      → (pms : List PlannedMigration) (done : List String)
      → InOrder done (select test pms done).0
        × ((select test pms done).1 ≡ extend (select test pms done).0 done)
  unfolding select
  select-InOrder h [] done = (tt, refl)
  select-InOrder h (pm ∷ pms) done = elim (Bool-cases (test done pm)) [
    | inl hit ↦ let (o, e) = select-InOrder h pms (pm.name ∷ done) in rw hit ((h done pm hit, o), e)
    | inr miss ↦ rw miss (select-InOrder h pms done)
  ]

-- Both tests ask for the dependencies.
is_named_deps :
    (name : String) (done : List String) (pm : PlannedMigration)
    → is_named name done pm ≡ true
    → all_deps_processed done pm ≡ true
is_named_deps name done pm h = ground arith

is_ready_deps :
    (done : List String) (pm : PlannedMigration)
    → is_ready done pm ≡ true
    → all_deps_processed done pm ≡ true
is_ready_deps done pm h = ground arith

extend-append :
    (xs ys : List PlannedMigration) (done : List String)
    → extend (xs ++ ys) done ≡ extend ys (extend xs done)
extend-append [] ys done = refl
extend-append (x ∷ xs) ys done = extend-append xs ys (x.name ∷ done)

pub level-InOrder :
    (name : String) (pms : List PlannedMigration) (done : List String)
    → InOrder done (level name pms done).0
      × ((level name pms done).1 ≡ extend (level name pms done).0 done)
unfolding level
level-InOrder name pms done =
    let (o, e) = select-InOrder (is_named name) (is_named_deps name) pms done in
    let (o', e') = select-InOrder is_ready is_ready_deps pms (select (is_named name) pms done).1 in
    (
      InOrder-append _ _ done o (rw (← e) o'),
      e' ∙ rw (extend-append (select (is_named name) pms done).0, ← e) refl,
    )

flatten-add_group :
    (g : List PlannedMigration) (gs : List (List PlannedMigration))
    → flatten (add_group g gs) ≡ g ++ flatten gs
flatten-add_group [] gs = refl
flatten-add_group (pm ∷ pms) gs = refl

groups_from-InOrder :
    (names : List String) (pms : List PlannedMigration) (done : List String)
    → InOrder done (flatten (groups_from names pms done))
unfolding groups_from
groups_from-InOrder [] pms done = tt
groups_from-InOrder (name ∷ names) pms done = elim (Bool-cases (processed name done)) [
  | inl skip ↦ rw skip (groups_from-InOrder names pms done)
  | inr new ↦
      let (o, e) = level-InOrder name pms done in
      rw (new, flatten-add_group)
        (InOrder-append (level name pms done).0 _ done o
          (rw (← e) (groups_from-InOrder names pms (level name pms done).1)))
]

-- Whatever the execution order and the migrations, running the groups one after another and the
-- migrations of a group in their order meets every migration's dependencies before it.
pub identify_parallel_groups-InOrder :
    (order : List String) (pms : List PlannedMigration)
    → InOrder [] (flatten (identify_parallel_groups order pms))
unfolding identify_parallel_groups
identify_parallel_groups-InOrder order pms = groups_from-InOrder order pms []
