-- ===== src/Migration/Restart/Diff.antt =====
-- The differences between the resources of the specification and the statuses, by identifier, and
-- the change of the statuses and counters for each kind of difference.
use reposhift.Common.{
  ℕ, zero, suc, String, Bool, true, false, not, ◌||◌, Option, none, some, List, [], ◌∷◌, ◌*◌, ◌/◌,
  str_eq, if◌then◌else◌,
}
use reposhift.Common.Int.{ℤ, pos, negsuc, ◌+ℤ◌, ◌-ℤ◌}
use reposhift.Batch.Types.{ResourceStatus}
use reposhift.Migration.Types.{
  MigrationResource, ResourceMigrationStatus, MigrationProgress, MigrationStatus,
}

unfoldable pub or_this :
    String
    → ResourceMigrationStatus
    → Option ResourceMigrationStatus
    → Option ResourceMigrationStatus
or_this id s none = if str_eq s.resource_id id then some s else none
or_this id s (some later) = some later

-- The entry of existingResourceStatuses: the last status with the identifier.
unfoldable pub existing : String → List ResourceMigrationStatus → Option ResourceMigrationStatus
unfolding or_this
existing id [] = none
existing id (s ∷ rest) = or_this id s (existing id rest)

-- 100 times a signed number
unfoldable hundredfold : ℤ → ℤ
hundredfold (pos a) = pos (a * 100)
hundredfold (negsuc a) = pos 0 -ℤ pos (suc a * 100)

-- Go's division of an int, which truncates
unfoldable div : ℤ → ℕ → ℤ
div (pos a) b = pos (a / b)
div (negsuc a) b = pos 0 -ℤ pos (suc a / b)

-- Progress.Percentage, which stays where the total is 0
unfoldable pub percent_of : (total : ℕ) → MigrationProgress → ℤ
unfolding div hundredfold
percent_of zero p = p.percentage
percent_of (suc total) p = div (hundredfold (p.completed +ℤ p.failed)) (suc total)

unfoldable pub is_listed : String → List String → Bool
is_listed id [] = false
is_listed id (x ∷ rest) = str_eq x id || is_listed id rest

unfoldable pub is_source_id : String → List MigrationResource → Bool
is_source_id id [] = false
is_source_id id (r ∷ rest) = str_eq r.source_id id || is_source_id id rest

unfoldable pub differs : MigrationResource → ResourceMigrationStatus → Bool
differs r s =
    not (str_eq s.target_name r.target_name)
    || (not (str_eq s.source_name r.source_name) || not (str_eq s.type r.type))

abbrev pub is_none {ℓ} : {A : Type ℓ} → Option A → Bool
is_none none = true
is_none (some a) = false

unfoldable pub is_new : List ResourceMigrationStatus → MigrationResource → Bool
unfolding existing
is_new l r = is_none (existing r.source_id l)

-- by the status that exists
unfoldable pub is_modified_from : MigrationResource → Option ResourceMigrationStatus → Bool
unfolding differs
is_modified_from r none = false
is_modified_from r (some s) = differs r s

unfoldable pub new_resources :
    List MigrationResource → List ResourceMigrationStatus → List MigrationResource
unfolding is_new
new_resources [] l = []
new_resources (r ∷ rest) l = if is_new l r then r ∷ new_resources rest l else new_resources rest l

unfoldable pub modified_resources :
    List MigrationResource → List ResourceMigrationStatus → List MigrationResource
unfolding is_modified_from existing
modified_resources [] l = []
modified_resources (r ∷ rest) l =
    if is_modified_from r (existing r.source_id l)
    then r ∷ modified_resources rest l
    else modified_resources rest l

-- removedResourceIDs: the identifiers of statuses, each once, that no resource has; in the order of
-- the last status of each
unfoldable pub removed_ids : List MigrationResource → List ResourceMigrationStatus → List String
unfolding is_listed is_source_id
removed_ids resources [] = []
removed_ids resources (s ∷ rest) =
    let ids = removed_ids resources rest in
    if is_source_id s.resource_id resources || is_listed s.resource_id ids
    then ids
    else s.resource_id ∷ ids

-- One resource less in the counter of a status that it no longer has.
unfoldable pub uncounted : ResourceStatus → MigrationProgress → MigrationProgress
uncounted ResourceStatus.completed p = record p { completed = p.completed -ℤ pos 1 }
uncounted ResourceStatus.failed p = record p { failed = p.failed -ℤ pos 1 }
uncounted _ p = p

unfoldable pub skipped_status : ResourceMigrationStatus → ResourceMigrationStatus
skipped_status s = record s {
  status = ResourceStatus.skipped;
  error_message = "Resource removed from spec";
}

unfoldable pub requeued_status :
    MigrationResource → ResourceMigrationStatus → ResourceMigrationStatus
requeued_status r s = record s {
  status = ResourceStatus.pending;
  target_name = r.target_name;
  source_name = r.source_name;
  type = r.type;
  progress = 0;
  error_message = "Resource modified - queued for re-migration";
  git_hub_url = "";
  repository_url = "";
}

-- the first status with the identifier
unfoldable pub first_with : String → List ResourceMigrationStatus → Option ResourceMigrationStatus
first_with id [] = none
first_with id (s ∷ rest) = if str_eq s.resource_id id then some s else first_with id rest

unfoldable pub change_first :
    (ResourceMigrationStatus → ResourceMigrationStatus)
    → String
    → List ResourceMigrationStatus
    → List ResourceMigrationStatus
change_first f id [] = []
change_first f id (s ∷ rest) =
    if str_eq s.resource_id id then f s ∷ rest else s ∷ change_first f id rest

unfoldable pub one_skipped : MigrationProgress → MigrationProgress
one_skipped p = record p { skipped = suc p.skipped }

-- by the first status with the identifier, before the change
unfoldable pub skip_from :
    String → Option ResourceMigrationStatus → MigrationStatus → MigrationStatus
unfolding uncounted one_skipped change_first skipped_status
skip_from id none b = b
skip_from id (some s) b = record b {
  resource_statuses = change_first skipped_status id b.resource_statuses;
  progress = one_skipped (uncounted s.status b.progress);
}

unfoldable pub skip : String → MigrationStatus → MigrationStatus
unfolding skip_from first_with
skip id b = skip_from id (first_with id b.resource_statuses) b

unfoldable pub skip_all : List String → MigrationStatus → MigrationStatus
unfolding skip
skip_all [] b = b
skip_all (id ∷ ids) b = skip_all ids (skip id b)

unfoldable pub requeue_from :
    MigrationResource → Option ResourceMigrationStatus → MigrationStatus → MigrationStatus
unfolding uncounted change_first requeued_status
requeue_from r none b = b
requeue_from r (some s) b = record b {
  resource_statuses = change_first (requeued_status r) r.source_id b.resource_statuses;
  progress = uncounted s.status b.progress;
}

unfoldable pub requeue : MigrationResource → MigrationStatus → MigrationStatus
unfolding requeue_from first_with
requeue r b = requeue_from r (first_with r.source_id b.resource_statuses) b

unfoldable pub requeue_all : List MigrationResource → MigrationStatus → MigrationStatus
unfolding requeue
requeue_all [] b = b
requeue_all (r ∷ rest) b = requeue_all rest (requeue r b)

-- the status of a new resource
unfoldable pub pending_status : MigrationResource → ResourceMigrationStatus
pending_status r = record {
  resource_id = r.source_id;
  type = r.type;
  source_name = r.source_name;
  target_name = r.target_name;
  status = ResourceStatus.pending;
  progress = 0;
  start_time = none;
  completion_time = none;
  error_message = "";
  git_hub_url = "";
  name = "";
  error = "";
  repository_url = "";
}
