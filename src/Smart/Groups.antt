-- ===== src/Smart/Groups.antt =====
-- identifyParallelGroups of internal/smart/engine.go.
pub mod Order
pub mod Parallel
pub mod Dropped
use reposhift.Common.{
  ℕ, String, Bool, true, false, ◌&&◌, not, List, [], ◌∷◌, ◌++◌, all, any, str_eq, if◌then◌else◌,
}
use reposhift.Smart.Types.{PlannedMigration}

-- The map `processed`, as the names that are in it.
abbrev pub processed : String → List String → Bool
processed name done = any (λ d. str_eq d name) done

abbrev pub all_deps_processed : List String → PlannedMigration → Bool
all_deps_processed done pm = all (λ d. processed d done) pm.dependencies

-- A pass over the migrations: those that pass a test on the names processed so far join the
-- group, and count as processed from then on.
unfoldable pub select :
    (List String → PlannedMigration → Bool)
    → List PlannedMigration
    → List String
    → List PlannedMigration × List String
select test [] done = ([], done)
select test (pm ∷ pms) done =
    let hit = test done pm in
    let (group, done') = select test pms (if hit then pm.name ∷ done else done) in
    (if hit then pm ∷ group else group, done')

-- the first pass takes the migration of the name in turn, the second whatever else is ready
abbrev pub is_named : String → List String → PlannedMigration → Bool
is_named name done pm = str_eq pm.name name && all_deps_processed done pm

abbrev pub is_ready : List String → PlannedMigration → Bool
is_ready done pm = not (processed pm.name done) && all_deps_processed done pm

unfoldable pub level :
    String → List PlannedMigration → List String → List PlannedMigration × List String
level name pms done =
    let (first, done') = select (is_named name) pms done in
    let (others, done'') = select is_ready pms done' in (first ++ others, done'')

abbrev pub add_group :
    List PlannedMigration → List (List PlannedMigration) → List (List PlannedMigration)
add_group [] groups = groups
add_group (pm ∷ pms) groups = (pm ∷ pms) ∷ groups

unfoldable pub groups_from :
    List String → List PlannedMigration → List String → List (List PlannedMigration)
groups_from [] pms done = []
groups_from (name ∷ names) pms done =
    let skip = processed name done in
    let (group, done') = level name pms done in
    let rest = groups_from names pms (if skip then done else done') in
    if skip then rest else add_group group rest

-- `order` is the plan's ExecutionOrder
unfoldable pub identify_parallel_groups :
    List String → List PlannedMigration → List (List PlannedMigration)
identify_parallel_groups order pms = groups_from order pms []
