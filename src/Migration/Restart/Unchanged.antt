-- ===== src/Migration/Restart/Unchanged.antt =====
-- What a restart leaves as it was.
use reposhift.Common.{
  ◌≡◌, ◌≢◌, refl, ◌∙◌, String, true, false, Option, none, some, List, [], ◌∷◌, ◌++◌, map, arith,
  eq_iff,
}
use reposhift.Migration.Types.{MigrationResource, ResourceMigrationStatus, MigrationStatus}
use reposhift.Migration.Restart.Diff.{
  first_with, change_first, skip_from, skip, skip_all, requeue_from, requeue, requeue_all,
  is_listed, is_source_id, modified_resources, removed_ids, new_resources, pending_status,
  skipped_status, requeued_status,
}
use reposhift.Migration.Restart.{changed_progress}

change_first-first_with :
    (f : ResourceMigrationStatus → ResourceMigrationStatus) (id other : String)
    (l : List ResourceMigrationStatus)
    → ((s : ResourceMigrationStatus) → (f s).resource_id ≡ s.resource_id)
    → id ≢ other
    → first_with other (change_first f id l) ≡ first_with other l
unfolding change_first first_with
change_first-first_with f id other [] h n = refl
change_first-first_with f id other (x ∷ rest) h n = ground (
  arith,
  change_first-first_with f id other rest h n,
  h x,
  eq_iff x.resource_id id,
  eq_iff x.resource_id other,
  eq_iff (f x).resource_id other,
)

skip_from-first_with :
    (id other : String) (o : Option ResourceMigrationStatus) (b : MigrationStatus)
    → id ≢ other
    → first_with other (skip_from id o b).resource_statuses ≡ first_with other b.resource_statuses
unfolding skip_from skipped_status
skip_from-first_with id other none b n = refl
skip_from-first_with id other (some s) b n =
    change_first-first_with skipped_status id other b.resource_statuses (λ x. refl) n

skip_all-first_with :
    (other : String) (ids : List String) (b : MigrationStatus)
    → is_listed other ids ≡ false
    → first_with other (skip_all ids b).resource_statuses ≡ first_with other b.resource_statuses
unfolding skip_all skip is_listed
skip_all-first_with other [] b h = refl
skip_all-first_with other (id ∷ ids) b h =
    skip_all-first_with other ids _ (ground arith)
    ∙ skip_from-first_with id other _ b (ground (arith, eq_iff id other))

requeue_from-first_with :
    (r : MigrationResource) (other : String) (o : Option ResourceMigrationStatus)
    (b : MigrationStatus)
    → r.source_id ≢ other
    → first_with other (requeue_from r o b).resource_statuses ≡ first_with other b.resource_statuses
unfolding requeue_from requeued_status
requeue_from-first_with r other none b n = refl
requeue_from-first_with r other (some s) b n =
    change_first-first_with (requeued_status r) r.source_id other b.resource_statuses (λ x. refl) n

requeue_all-first_with :
    (other : String) (l : List MigrationResource) (b : MigrationStatus)
    → is_source_id other l ≡ false
    → first_with other (requeue_all l b).resource_statuses ≡ first_with other b.resource_statuses
unfolding requeue_all requeue is_source_id
requeue_all-first_with other [] b h = refl
requeue_all-first_with other (r ∷ rest) b h =
    requeue_all-first_with other rest _ (ground arith)
    ∙ requeue_from-first_with r other _ b (ground (arith, eq_iff r.source_id other))

-- a removed identifier is not among the resources
removed_ids-source_id :
    (id : String) (resources : List MigrationResource) (l : List ResourceMigrationStatus)
    → is_source_id id resources ≡ true
    → is_listed id (removed_ids resources l) ≡ false
unfolding removed_ids is_listed
removed_ids-source_id id resources [] h = refl
removed_ids-source_id id resources (s ∷ rest) h =
    ground (arith, removed_ids-source_id id resources rest h, eq_iff s.resource_id id)

first_with-append :
    (id : String) (l m : List ResourceMigrationStatus) (s : ResourceMigrationStatus)
    → first_with id l ≡ some s
    → first_with id (l ++ m) ≡ some s
unfolding first_with
first_with-append id [] m s h = cc
first_with-append id (x ∷ rest) m s h = ground (arith, first_with-append id rest m s)

-- The status of a resource that is still listed and that the restart does not find modified, under
-- any resource of its identifier, is the same after a restart: one that failed stays failed, and
-- one that was skipped stays skipped.
pub changed_progress-first_with :
    (resources : List MigrationResource) (b : MigrationStatus) (id : String)
    (s : ResourceMigrationStatus)
    → first_with id b.resource_statuses ≡ some s
    → is_source_id id resources ≡ true
    → is_source_id id (modified_resources resources b.resource_statuses) ≡ false
    → first_with id (changed_progress resources b).resource_statuses ≡ some s
unfolding changed_progress
changed_progress-first_with resources b id s h listed same =
    let old = b.resource_statuses in
    let d = skip_all (removed_ids resources old) b in
    first_with-append id (requeue_all (modified_resources resources old) d).resource_statuses
      (map pending_status (new_resources resources old)) s
      (requeue_all-first_with id (modified_resources resources old) d same
        ∙ skip_all-first_with id (removed_ids resources old) b
            (removed_ids-source_id id resources old listed)
        ∙ h)
