-- ===== src/Cache/Calls.antt =====
-- The calls that change the cache, as data.
use reposhift.Common.{ℕ, String}
use reposhift.Cache.{MigrationCacheEntry, MigrationCache}
use reposhift.Cache

-- A call that changes the cache.
pub data Op : Type 0 where
  set : MigrationCacheEntry → Op
  delete : String → Op
  mark_completed : ℕ → String → String → Op
  mark_cleaned_up : String → Op
  cleanup : ℕ → Op

unfoldable pub apply : Op → MigrationCache → MigrationCache
apply (Op.set e) c = Cache.set e c
apply (Op.delete id) c = Cache.delete id c
apply (Op.mark_completed now id phase) c = Cache.mark_completed now id phase c
apply (Op.mark_cleaned_up id) c = Cache.mark_cleaned_up id c
apply (Op.cleanup now) c = Cache.cleanup now c
