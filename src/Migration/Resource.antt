-- ===== src/Migration/Resource.antt =====
-- One resource of a running migration: checkResourceStatus, processResource, and what each does to
-- the statuses, the counters and the statistics.
use reposhift.Common.{
  ℕ, suc, String, Bool, true, false, ◌&&◌, Option, none, some, List, [], ◌∷◌, ◌++◌, str_eq,
  if◌then◌else◌, length, get_elem?, set,
}
use reposhift.Common.Int.{pos, ◌+ℤ◌}
use reposhift.Common.Text.{concat}
use reposhift.Batch.Types.{ResourceStatus}
use reposhift.Migration.Types.{
  MigrationResource, ResourceMigrationStatus, MigrationProgress, MigrationStatistics, MigrationSpec,
  MigrationStatus,
}
use reposhift.Migration.Env.{Env}
use reposhift.Migration.Action.{
  M, ◌>>=◌, ◌>>◌, pure, gets, modify, event, now, status_update, send_web_socket_update,
}
use reposhift.Migration.Restart.Diff.{percent_of, is_none}
use reposhift.Migration.Code.{Processed, process_resource_by_type}

-- processed: completed or failed
unfoldable pub is_done : ResourceStatus → Bool
is_done ResourceStatus.completed = true
is_done ResourceStatus.failed = true
is_done _ = false

abbrev pub shifted : Option ℕ × Bool → Option ℕ × Bool
shifted (none, b) = (none, b)
shifted (some i, b) = (some (suc i), b)

-- The index of the first status with the name, and whether it is processed.
unfoldable pub check_resource_status : String → List ResourceMigrationStatus → Option ℕ × Bool
unfolding is_done
check_resource_status name [] = (none, false)
check_resource_status name (s ∷ rest) =
    if str_eq s.source_name name
    then (some 0, is_done s.status)
    else shifted (check_resource_status name rest)

unfoldable processing_text : MigrationResource → String
processing_text r = concat ("Processing " ∷ r.type ∷ ": " ∷ r.target_name ∷ [])

unfoldable pub shown_as_processing : MigrationResource → MigrationStatus → MigrationStatus
unfolding processing_text
shown_as_processing r b =
    let p : MigrationProgress = record b.progress {
      processing = 1;
      current_step = processing_text r;
    } in
    record b { progress = p }

-- createResourceStatus
unfoldable pub create_resource_status : (t : ℕ) → MigrationResource → ResourceMigrationStatus
create_resource_status t r = record {
  resource_id = r.source_id;
  type = r.type;
  source_name = r.source_name;
  target_name = r.target_name;
  status = ResourceStatus.running;
  progress = 0;
  start_time = some t;
  completion_time = none;
  error_message = "";
  git_hub_url = "";
  name = r.source_name;
  error = "";
  repository_url = "";
}

-- Add or update the status, by its index, which is in range, if it has one.
unfoldable pub place :
    Option ℕ → ResourceMigrationStatus → List ResourceMigrationStatus → List ResourceMigrationStatus
place none s l = l ++ s ∷ []
place (some i) s l = set l i s

-- the index that the status has then
unfoldable pub index_in : Option ℕ → List ResourceMigrationStatus → ℕ
index_in none l = length l
index_in (some i) l = i

unfoldable pub placed : Option ℕ → ResourceMigrationStatus → MigrationStatus → MigrationStatus
unfolding place
placed index s b = record b { resource_statuses = place index s b.resource_statuses }

-- the status after an error, and after none
unfoldable pub concluded :
    (t : ℕ) → Option String → ResourceMigrationStatus → ResourceMigrationStatus
concluded t (some error) st = record st {
  completion_time = some t;
  status = ResourceStatus.failed;
  error_message = error;
  error = error;
  progress = 0;
}
concluded t none st = record st {
  completion_time = some t;
  status = ResourceStatus.completed;
  progress = 100;
}

unfoldable pub counted : Option String → MigrationProgress → MigrationProgress
counted (some error) p = record p { failed = p.failed +ℤ pos 1; processing = 0 }
counted none p = record p { completed = p.completed +ℤ pos 1; processing = 0 }

-- updateProgressPercentage
unfoldable pub update_progress_percentage : MigrationProgress → MigrationProgress
unfolding percent_of
update_progress_percentage p = record p { percentage = percent_of p.total p }

unfoldable statistics_or_new : Option MigrationStatistics → MigrationStatistics
statistics_or_new none = record { duration = pos 0; repositories_created = 0 }
statistics_or_new (some stats) = stats

unfoldable pub update_statistics :
    Option String → MigrationResource → Option MigrationStatistics → MigrationStatistics
unfolding statistics_or_new
update_statistics error r old =
    let stats = statistics_or_new old in
    if is_none error && str_eq r.type "repository"
    then record stats { repositories_created = suc stats.repositories_created }
    else stats

-- updateResourceStatusAfterProcessing at an index in range, less what it tells
unfoldable pub settled :
    (t : ℕ)
    → Option String
    → (index : ℕ) → MigrationResource
    → ResourceMigrationStatus
    → MigrationStatus
    → MigrationStatus
unfolding concluded counted update_progress_percentage update_statistics
settled t error index r st b = record b {
  resource_statuses = set b.resource_statuses index (concluded t error st);
  progress = update_progress_percentage (counted error b.progress);
  statistics = some (update_statistics error r b.statistics);
}

unfoldable outcome_text : Option String → MigrationResource → String
outcome_text (some error) r = concat ("Failed to process " ∷ r.target_name ∷ ": " ∷ error ∷ [])
outcome_text none r = concat ("Successfully processed " ∷ r.target_name ∷ [])

abbrev outcome_event : Option String → String
outcome_event (some error) = "ResourceProcessingFailed"
outcome_event none = "ResourceProcessed"

-- whether ResourceStatuses has the index, if there is one
unfoldable pub has_index : Option ℕ → List ResourceMigrationStatus → Bool
has_index none l = true
has_index (some i) l = elim (get_elem? l i) [ none ↦ false | some old ↦ true ]

module _ (e : Env) where
  -- the status is written at its index: one that is out of range panics, which gives `none`
  unfoldable pub settle :
      (in_range : Bool)
      → (t index : ℕ) → MigrationResource
      → Processed
      → M e.World (Option (Option String))
  unfolding settled
  settle false t index r (error, st) = pure none
  settle true t index r (error, st) = do modify (settled t error index r st); pure (some error)

  unfoldable pub update_resource_status_after_processing :
      (index : ℕ) → MigrationResource → Processed → M e.World (Option (Option String))
  unfolding settle outcome_text has_index
  update_resource_status_after_processing index r (error, st) = do
    t ← now e
    send_web_socket_update e (outcome_text error r)
    event (outcome_event error)
    m ← gets (λ m. m)
    settle (has_index (some index) m.status.resource_statuses) t index r (error, st)

  -- The resource's status is written at its index, which panics where it is out of range, and
  -- settled after the work; `l` is the statuses before.
  unfoldable pub process_at :
      (in_range : Bool)
      → (token : String) → MigrationSpec
      → MigrationResource
      → (t : ℕ) → Option ℕ
      → (l : List ResourceMigrationStatus) → M e.World (Option (Option String))
  unfolding create_resource_status placed index_in update_resource_status_after_processing
  process_at false token spec r t index l = pure none
  process_at true token spec r t index l = do
    modify (placed index (create_resource_status t r))
    processed ← process_resource_by_type e token spec r (create_resource_status t r)
    update_resource_status_after_processing (index_in index l) r processed

  -- the error is that of the resource; one of the first status update is logged only
  unfoldable pub process_resource :
      (token : String) → MigrationResource → Option ℕ → M e.World (Option (Option String))
  unfolding shown_as_processing processing_text has_index process_at
  process_resource token r index = do
    modify (shown_as_processing r)
    send_web_socket_update e (processing_text r)
    status_update e
    t ← now e
    m ← gets (λ m. m)
    process_at (has_index index m.status.resource_statuses) token m.spec r t index
        m.status.resource_statuses
