-- ===== src/Cache/Examples.antt =====
-- The theorems on the cache at concrete inputs.
use reposhift.Common.{ℕ, ◌≡◌, refl, String, true, Option, none, some, [], ◌∷◌, arith}
use reposhift.Cache.{
  MigrationCacheEntry, Entries, MigrationCache, lookup, remove, evict_oldest, find_oldest, visit,
}
use reposhift.Cache.Calls.{Op, apply}
use reposhift.Cache.Bound.{IsValid, apply-IsValid}
use reposhift.Cache.Oldest.{none_before, evict_oldest-completed}

abbrev entry : String → ℕ → Option ℕ → MigrationCacheEntry
entry id start done = record {
  migration_id = id;
  phase = "Running";
  start_time = start;
  completion_time = done;
  cleaned_up = true;
}

abbrev three : Entries
three =
    ("ns/a", entry "ns/a" 1 none)
    ∷ ("ns/b", entry "ns/b" 2 (some 9))
    ∷ ("ns/c", entry "ns/c" 3 (some 7))
    ∷ []

-- a full cache
abbrev cache : MigrationCache
cache = record { entries = three; retention_duration = 100; max_entries = 3 }

cache-IsValid : IsValid cache
cache-IsValid = record { keys = refl; names = refl; bound = omega arith }

-- the entry "ns/c" makes room for a new one
evicted : evict_oldest three ≡ remove "ns/c" three
unfolding evict_oldest find_oldest visit
evicted = refl

apply-IsValid_example : IsValid (apply (Op.set (entry "ns/d" 10 none)) cache)
apply-IsValid_example =
    apply-IsValid (Op.set (entry "ns/d" 10 none)) cache (omega arith) refl cache-IsValid

evict_oldest-completed_example :
    (id : String) × (t : ℕ) × (e : MigrationCacheEntry) × (lookup id three ≡ some e)
    × (e.completion_time ≡ some t)
    × (none_before (some t) three ≡ true)
    × (evict_oldest three ≡ remove id three)
evict_oldest-completed_example = evict_oldest-completed three refl refl refl
