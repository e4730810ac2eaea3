-- ===== src/Migration/Restart/Mirrors.antt =====
-- A restart of a migration whose resources are the ones that its statuses tell of.
use reposhift.Common.{
  ℕ, ◌+◌, ◌≡◌, refl, true, false, none, some, List, [], ◌∷◌, String, arith, eq_iff,
}
use reposhift.Migration.Types.{MigrationResource, ResourceMigrationStatus, Migration}
use reposhift.Migration.Restart.Diff.{
  or_this, existing, differs, is_new, is_modified_from, is_source_id, is_listed, modified_resources,
  removed_ids, new_resources,
}
use reposhift.Migration.Env.{Env, St}
use reposhift.Migration.Action.{◌>>=◌, ◌>>◌, pure, gets, modify, edit, now, status_update}
use reposhift.Migration.Conditions.{set_condition, condition_at, with_condition}
use reposhift.Migration.Restart.{
  observed, save_and, no_changes, restart_by, restart_migration_for_spec_change,
}

-- the status is one of the resource
pub record Matches (r : MigrationResource) (s : ResourceMigrationStatus) : Type 0 where
  pub id_lem : s.resource_id ≡ r.source_id
  pub target_lem : s.target_name ≡ r.target_name
  pub source_lem : s.source_name ≡ r.source_name
  pub type_lem : s.type ≡ r.type

-- One status for each resource, in their order, and no two resources with one identifier.
pub data Mirrors : List MigrationResource → List ResourceMigrationStatus → Type 0 where
  nothing : Mirrors [] []
  another :
      {rs : List MigrationResource} {l : List ResourceMigrationStatus} (r : MigrationResource)
      (s : ResourceMigrationStatus)
      → Matches r s
      → is_source_id r.source_id rs ≡ false
      → Mirrors rs l
      → Mirrors (r ∷ rs) (s ∷ l)

-- each resource has an existing status of its own
data Found (l : List ResourceMigrationStatus) : List MigrationResource → Type 0 where
  none_left : Found l []
  found :
      {rs : List MigrationResource} (r : MigrationResource) (s : ResourceMigrationStatus)
      → existing r.source_id l ≡ some s
      → Matches r s
      → Found l rs
      → Found l (r ∷ rs)

existing-none :
    (rs : List MigrationResource) (l : List ResourceMigrationStatus) (id : String)
    → Mirrors rs l
    → is_source_id id rs ≡ false
    → existing id l ≡ none
unfolding existing or_this is_source_id
existing-none rs l id nothing h = refl
existing-none rs l id (another {rs = rest} {l = later} r s m apart mirrors) h =
    let before : existing id later ≡ none =
      existing-none rest later id mirrors (ground (arith, h)) in
    rw before (ground (arith, h, m.id_lem))

Found-cons :
    (x : ResourceMigrationStatus) (l : List ResourceMigrationStatus) (rs : List MigrationResource)
    → Found l rs
    → Found (x ∷ l) rs
unfolding existing or_this
Found-cons x l rs none_left = none_left
Found-cons x l rs (found {rs = rest} r s at m later) =
    found r s (rw at refl) m (Found-cons x l rest later)

Mirrors-Found :
    (rs : List MigrationResource) (l : List ResourceMigrationStatus) → Mirrors rs l → Found l rs
unfolding existing or_this
Mirrors-Found rs l nothing = none_left
Mirrors-Found rs l (another {rs = rest} {l = later} r s m apart mirrors) =
    let first : existing r.source_id later ≡ none =
      existing-none rest later r.source_id mirrors apart in
    found r s (rw first (ground (arith, m.id_lem, eq_iff s.resource_id r.source_id))) m
      (Found-cons s later rest (Mirrors-Found rest later mirrors))

new_resources-Found :
    (l : List ResourceMigrationStatus) (rs : List MigrationResource)
    → Found l rs
    → new_resources rs l ≡ []
unfolding new_resources is_new
new_resources-Found l rs none_left = refl
new_resources-Found l rs (found {rs = rest} r s at m later) =
    rw at (new_resources-Found l rest later)

differs-Matches :
    (r : MigrationResource) (s : ResourceMigrationStatus) → Matches r s → differs r s ≡ false
unfolding differs
differs-Matches r s m = ground (
  arith,
  m.target_lem,
  m.source_lem,
  m.type_lem,
  eq_iff s.target_name r.target_name,
  eq_iff s.source_name r.source_name,
  eq_iff s.type r.type,
)

modified_resources-Found :
    (l : List ResourceMigrationStatus) (rs : List MigrationResource)
    → Found l rs
    → modified_resources rs l ≡ []
unfolding modified_resources is_modified_from
modified_resources-Found l rs none_left = refl
modified_resources-Found l rs (found {rs = rest} r s at m later) =
    rw (at, differs-Matches r s m) (modified_resources-Found l rest later)

-- every status is one of a resource of the list, which may go on before
removed_ids-Mirrors :
    (all rs : List MigrationResource) (l : List ResourceMigrationStatus)
    → ((id : String) → is_source_id id rs ≡ true → is_source_id id all ≡ true)
    → Mirrors rs l
    → removed_ids all l ≡ []
unfolding removed_ids is_source_id is_listed
removed_ids-Mirrors all rs l within nothing = refl
removed_ids-Mirrors all rs l within (another {rs = rest} {l = later} r s m apart mirrors) =
    let here : is_source_id s.resource_id all ≡ true =
      within s.resource_id (ground (arith, m.id_lem, eq_iff r.source_id s.resource_id)) in
    rw here (removed_ids-Mirrors all rest later (λ id h. within id (ground (arith, h))) mirrors)

no_changes-status :
    (e : Env) (m : Migration) (s : St e.World)
    → ((no_changes e m s).1.migration.status.phase ≡ s.migration.status.phase)
      × ((no_changes e m s).1.migration.status.resource_statuses
          ≡ s.migration.status.resource_statuses)
unfolding no_changes observed save_and set_condition condition_at with_condition ◌>>=◌ ◌>>◌ pure
    modify edit now status_update
no_changes-status e m s = (refl, refl)

restart_by-status :
    (e : Env) (m : Migration) (a b c : ℕ) (s : St e.World)
    → a + b + c ≡ 0
    → ((restart_by e m a b c s).1.migration.status.phase ≡ s.migration.status.phase)
      × ((restart_by e m a b c s).1.migration.status.resource_statuses
          ≡ s.migration.status.resource_statuses)
unfolding restart_by
restart_by-status e m a b c s h = rw h (no_changes-status e m s)

-- A restart, also one that the reconcile-trigger annotation forces, leaves the phase and every
-- status as they are where the statuses are, in their order, those of the resources, which have
-- different identifiers: what failed is not tried again, whatever the statuses say.
pub restart-Mirrors :
    (e : Env) (s : St e.World)
    → Mirrors s.migration.spec.resources s.migration.status.resource_statuses
    → ((restart_migration_for_spec_change e s).1.migration.status.phase ≡ s.migration.status.phase)
      × ((restart_migration_for_spec_change e s).1.migration.status.resource_statuses
          ≡ s.migration.status.resource_statuses)
unfolding restart_migration_for_spec_change ◌>>=◌ gets
restart-Mirrors e s mirrors =
    let rs = s.migration.spec.resources in
    let l = s.migration.status.resource_statuses in
    let all_found = Mirrors-Found rs l mirrors in
    restart_by-status e s.migration _ _ _ s (
      rw
        (
          new_resources-Found l rs all_found,
          modified_resources-Found l rs all_found,
          removed_ids-Mirrors rs rs l (λ id h. h) mirrors,
        )
        refl)
