-- ===== src/Cache/Stats.antt =====
-- The counters of Stats agree with the entries, and with the list of workspaces to clean up.
use reposhift.Common.{◌+◌, ◌≡◌, ◌&&◌, not, [], ◌∷◌, length, arith}
use reposhift.Cache.{
  Entries, MigrationCache, CacheStats, filter, is_completed, count_entry, count_entries, stats,
  get_pending_cleanup,
}

abbrev pending : Entries → Entries
pending es = filter (λ e. is_completed e && not e.cleaned_up) es

-- what the loop adds to the counters
count_entries_lem :
    (es : Entries) (s : CacheStats)
    → let t = count_entries es s in
      (t.running + t.completed ≡ length es + (s.running + s.completed))
      × (t.pending_cleanup ≡ length (pending es) + s.pending_cleanup)
unfolding count_entries filter
count_entries_lem [] s = (omega arith, omega arith)
count_entries_lem (p ∷ es) s =
    let (a, b) = count_entries_lem es (count_entry p.1 s) in (ground (arith, a), ground (arith, b))

-- The statistics count every entry once, as running or as completed, and they count as many
-- pending cleanups as GetPendingCleanup lists entries.
stats_lem :
    (c : MigrationCache)
    → ((stats c).running + (stats c).completed ≡ length c.entries)
      × ((stats c).pending_cleanup ≡ length (get_pending_cleanup c))
unfolding stats get_pending_cleanup
stats_lem c =
    let (a, b) =
      count_entries_lem c.entries (record { running = 0; completed = 0; pending_cleanup = 0 }) in
    (omega (arith, a), omega (arith, b))
