-- ===== src/Cache.antt =====
-- internal/cache/migration_cache.go: the cache of migrations, under its mutex. A map is a list of
-- its keys with their entries; a `range` meets them in the order of the list, so that what holds
-- for every list holds for every order that Go may choose. Instants and durations count
-- nanoseconds.
pub mod Calls
pub mod Bound
pub mod Oldest
pub mod Stats
mod Examples
use reposhift.Common.{
  ℕ, ◌+◌, ◌≡◌, String, Bool, true, false, ◌&&◌, not, Option, none, some, List, [], ◌∷◌, length, any,
  ltb, leb, str_eq, if◌then◌else◌,
}

-- what the cache reads of a MigrationCacheEntry; the name, the paths, the size and the metadata
-- are stored with it and read by nothing
pub record MigrationCacheEntry : Type 0 where
  pub migration_id : String
  pub phase : String
  pub start_time : ℕ
  pub completion_time : Option ℕ
  pub cleaned_up : Bool

abbrev pub Entries : Type 0
Entries = List (String × MigrationCacheEntry)

pub record MigrationCache : Type 0 where
  pub entries : Entries
  pub retention_duration : ℕ
  pub max_entries : ℕ

abbrev new_migration_cache : ℕ → ℕ → MigrationCache
new_migration_cache retention_duration max_entries = record {
  entries = [];
  retention_duration = retention_duration;
  max_entries = max_entries;
}

-- the map's own operations
abbrev pub member : String → Entries → Bool
member id es = any (λ p. str_eq p.0 id) es

unfoldable pub lookup : String → Entries → Option MigrationCacheEntry
lookup id [] = none
lookup id (p ∷ es) = if str_eq p.0 id then some p.1 else lookup id es

unfoldable pub filter : (MigrationCacheEntry → Bool) → Entries → Entries
filter keep [] = []
filter keep (p ∷ es) = if keep p.1 then p ∷ filter keep es else filter keep es

unfoldable pub remove : String → Entries → Entries
remove id [] = []
remove id (p ∷ es) = if str_eq p.0 id then remove id es else p ∷ remove id es

unfoldable pub adjust : (MigrationCacheEntry → MigrationCacheEntry) → String → Entries → Entries
adjust f id [] = []
adjust f id (p ∷ es) = (if str_eq p.0 id then (p.0, f p.1) else p) ∷ adjust f id es

-- The loops of evictOldest: the first of the entries with the least time, and what was found
-- before.
abbrev pub is_older : ℕ → Option ℕ → Bool
is_older t none = true
is_older t (some oldest) = ltb t oldest

unfoldable pub visit : String → Option ℕ → String × Option ℕ → String × Option ℕ
visit id none oldest = oldest
visit id (some t) oldest = if is_older t oldest.1 then (id, some t) else oldest

unfoldable pub find_oldest :
    (MigrationCacheEntry → Option ℕ) → Entries → String × Option ℕ → String × Option ℕ
find_oldest time [] oldest = oldest
find_oldest time (p ∷ es) oldest = find_oldest time es (visit p.0 (time p.1) oldest)

abbrev pub oldest_completed : Entries → String × Option ℕ
oldest_completed es = find_oldest (λ e. e.completion_time) es ("", none)

abbrev pub oldest_started : Entries → String × Option ℕ → String × Option ℕ
oldest_started es oldest = find_oldest (λ e. some e.start_time) es oldest

unfoldable pub evict_oldest : Entries → Entries
evict_oldest es =
    let completed = oldest_completed es in
    let started = oldest_started es completed in
    if not (str_eq completed.0 "")
    then remove completed.0 es
    else if not (str_eq started.0 "")
    then remove started.0 es
    else es

unfoldable pub set : MigrationCacheEntry → MigrationCache → MigrationCache
set e c =
    let room =
      if leb c.max_entries (length c.entries) && not (member e.migration_id c.entries)
      then evict_oldest c.entries
      else c.entries in
    record c { entries = (e.migration_id, e) ∷ remove e.migration_id room }

unfoldable pub get : String → MigrationCache → Option MigrationCacheEntry
get id c = lookup id c.entries

unfoldable pub delete : String → MigrationCache → MigrationCache
delete id c = record c { entries = remove id c.entries }

-- the clock reads `now`
unfoldable pub mark_completed : ℕ → String → String → MigrationCache → MigrationCache
mark_completed now id phase c = record c {
  entries = adjust (λ e. record e { completion_time = some now; phase = phase }) id c.entries;
}

unfoldable pub mark_cleaned_up : String → MigrationCache → MigrationCache
mark_cleaned_up id c = record c {
  entries = adjust (λ e. record e { cleaned_up = true }) id c.entries;
}

abbrev pub is_completed : MigrationCacheEntry → Bool
is_completed e = elim e.completion_time [ none ↦ false | some t ↦ true ]

unfoldable pub get_pending_cleanup : MigrationCache → Entries
get_pending_cleanup c = filter (λ e. is_completed e && not e.cleaned_up) c.entries

abbrev is_expired : ℕ → ℕ → MigrationCacheEntry → Bool
is_expired now retention e = elim e.completion_time [
  | none ↦ false
  | some t ↦ ltb (t + retention) now
]

unfoldable pub cleanup : ℕ → MigrationCache → MigrationCache
cleanup now c = record c {
  entries = filter (λ e. not (is_expired now c.retention_duration e)) c.entries;
}

-- the counters of Stats
pub record CacheStats : Type 0 where
  pub running : ℕ
  pub completed : ℕ
  pub pending_cleanup : ℕ

abbrev pub count_entry : MigrationCacheEntry → CacheStats → CacheStats
count_entry e s = if not (is_completed e) then record s { running = s.running + 1 } else record s {
  completed = s.completed + 1;
  pending_cleanup = if e.cleaned_up then s.pending_cleanup else s.pending_cleanup + 1;
}

unfoldable pub count_entries : Entries → CacheStats → CacheStats
count_entries [] s = s
count_entries (p ∷ es) s = count_entries es (count_entry p.1 s)

unfoldable pub stats : MigrationCache → CacheStats
stats c = count_entries c.entries (record { running = 0; completed = 0; pending_cleanup = 0 })
