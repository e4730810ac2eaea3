-- ===== src/Migration/Safety/Running.antt =====
-- A running migration: each resource that is processed, and the end.
use reposhift.Common.{
  ℕ, suc, ◌≡◌, ◌≢◌, refl, String, Bool, true, false, Option, none, some, List, [], ◌∷◌, length,
}
use reposhift.Common.Result.{Result, ok, err}
use reposhift.Migration.Types.{
  MigrationResource, SyncSettings, MigrationStatistics, MigrationStatus,
}
use reposhift.Migration.Env.{Env, St, Outcome, panics}
use reposhift.Migration.Action.{M, ◌>>=◌, ◌>>◌, pure, gets, modify, now}
use reposhift.Migration.Restart.Diff.{is_none}
use reposhift.Migration.Resource.{check_resource_status}
use reposhift.Migration.Running.{
  with_duration, entered_sync, all_completed, finish, finish_unless_nil, complete_migration,
  resource_failed, at_item, handle_resource_processing_failure, after_save, after_resource,
  process_or_skip, process_from, item_summary, process_with, process_running,
}
use reposhift.Migration.Valid.{IsValid, IsOpen, IsOpenIf, check_resource_status-IsOpenIf}
use reposhift.Migration.Keeps.{
  Ends, Inv, Stable, Stable-weaken, Ends-pure, Ends-then, Keeps-event, Keeps-send, Keeps-modify,
  Keeps-status_update,
}
use reposhift.Migration.Keeps.Tokens.{Keeps-get_git_hub_token_unified}
use reposhift.Migration.Safety.{same_counts, save_and-Ends, fail_migration-Ends, Keeps-condition}
use reposhift.Migration.Safety.Resource.{IsStarted, process_resource-Returns}

with_duration_lem :
    (t : ℕ) (start : Option ℕ) (stats : Option MigrationStatistics)
    → (is_none start ≡ false → is_none stats ≡ false)
    → (new : Option MigrationStatistics) × (with_duration t start stats ≡ some new)
      × (is_none start ≡ false → is_none new ≡ false)
unfolding with_duration
with_duration_lem t none stats h = (stats, refl, h)
with_duration_lem t (some start) none h = absurd (cc (h refl))
with_duration_lem t (some start) (some stats) h = (_, refl, λ p. refl)

entered_sync-IsValid :
    (t interval : ℕ) (total : String) (b : MigrationStatus)
    → IsValid b
    → IsValid (entered_sync t interval total b)
unfolding entered_sync
entered_sync-IsValid t interval total b v = same_counts b _ refl refl refl (λ h. cc) refl (λ h. h) v

all_completed-IsValid :
    (total : String) (b : MigrationStatus) → IsValid b → IsValid (all_completed total b)
unfolding all_completed
all_completed-IsValid total b v = same_counts b _ refl refl refl (λ h. cc) refl (λ h. h) v

resource_failed-IsValid :
    (r : MigrationResource) (error : String) (b : MigrationStatus)
    → IsValid b
    → IsValid (resource_failed r error b)
unfolding resource_failed
resource_failed-IsValid r error b v = same_counts b _ refl refl refl (λ h. cc) refl (λ h. h) v

at_item-IsStarted :
    (item : ℕ) (summary : String) (b : MigrationStatus)
    → IsStarted b
    → IsStarted (at_item item summary b)
unfolding at_item
at_item-IsStarted item summary b v = record {
  valid = same_counts b _ refl refl refl (λ h. h) refl (λ h. h) v.valid;
  phase_lem = v.phase_lem;
}

at_item-IsOpen :
    (item : ℕ) (summary : String) (b : MigrationStatus) (index : Option ℕ)
    → IsOpen index b.resource_statuses
    → IsOpen index (at_item item summary b).resource_statuses
unfolding at_item
at_item-IsOpen item summary b index o = o

module _ (e : Env) {P : e.World → Type 0} (k : Stable e IsValid P) where
  finish-Ends : (t : ℕ) (sync : Option SyncSettings) → Ends (Inv IsValid P) (finish e t sync)
  unfolding finish
  finish-Ends t (some sync) =
      Ends-then _ _ (Keeps-modify e _ (λ b v. entered_sync-IsValid _ _ _ b v)) (
        Ends-then _ _ (Keeps-send e _)
          (Ends-then _ _ (Keeps-event e _) (save_and-Ends e k _ (λ p. cc))))
  finish-Ends t none = Ends-then _ _ (Keeps-modify e _ (λ b v. all_completed-IsValid _ b v)) (
      Ends-then _ _ (Keeps-condition e k _ _ _ _) (
        Ends-then _ _ (Keeps-condition e k _ _ _ _) (
          Ends-then _ _ (Keeps-send e _)
            (Ends-then _ _ (Keeps-event e _) (save_and-Ends e k _ (λ p. cc))))))

  complete_migration-Ends : Ends (Inv IsValid P) (complete_migration e)
  unfolding complete_migration ◌>>=◌ ◌>>◌ now modify gets finish_unless_nil
  complete_migration-Ends = record {
    at = λ s i.
        let (t, w) = e.now s.world in
        let b = s.migration.status in
        let (new, eq, h) = with_duration_lem t b.start_time b.statistics i.valid.statistics_lem in
        rw eq (
          (finish-Ends _ _).at _ (record {
            world = k.now _ i.world;
            valid = record {
              counted = record {
                completed_lem = i.valid.counted.completed_lem;
                failed_lem = i.valid.counted.failed_lem;
              };
              unset_lem = i.valid.unset_lem;
              statistics_lem = h;
            };
          }));
  }

  handle_resource_processing_failure-Ends :
      (r : MigrationResource) (error : String)
      → Ends (Inv IsValid P) (handle_resource_processing_failure e r error)
  unfolding handle_resource_processing_failure
  handle_resource_processing_failure-Ends r error =
      Ends-then _ _ (Keeps-modify e _ (resource_failed-IsValid r error))
        (Ends-then _ _ (Keeps-status_update e k) (Ends-pure _ (λ p. cc)))

  -- From a started migration: no panic, and a valid status.
  abbrev Finishes : M e.World Outcome → Type 0
  Finishes m = (s : St e.World) → Inv IsStarted P s → ((m s).0 ≢ panics) × Inv IsValid P (m s).1

  weakened : (s : St e.World) → Inv IsStarted P s → Inv IsValid P s
  weakened s i = record { world = i.world; valid = i.valid.valid }

  -- After a resource: the loop goes on, waits, or the migration fails.
  after_save-Finishes :
      (rest : List MigrationResource) (last : M e.World Outcome) (error : Option String)
      → Finishes last
      → Finishes (after_save e rest last error)
  unfolding after_save pure
  after_save-Finishes rest last (some error) n s i = (λ p. cc, weakened s i)
  after_save-Finishes (next ∷ rest) last none n s i = (λ p. cc, weakened s i)
  after_save-Finishes [] last none n s i = n s i

  after_resource-Finishes :
      (r : MigrationResource) (rest : List MigrationResource) (last : M e.World Outcome)
      (result : Option (Option String))
      → Finishes last
      → result ≢ none
      → Finishes (after_resource e r rest last result)
  unfolding after_resource ◌>>=◌
  after_resource-Finishes r rest last none n h s i = absurd (h refl)
  after_resource-Finishes r rest last (some (some error)) n h s i =
      (handle_resource_processing_failure-Ends r error).at s (weakened s i)
  after_resource-Finishes r rest last (some none) n h s i =
      let started : Stable e IsStarted P = Stable-weaken e _ _ _ (λ b x. x.valid) k in
      after_save-Finishes rest last _ n _ ((Keeps-status_update e started).at s i)

  process_or_skip-Finishes :
      (token : String) (item total : ℕ) (r : MigrationResource) (rest : List MigrationResource)
      (next : M e.World Outcome) (c : Option ℕ × Bool) (s : St e.World)
      → Finishes next
      → Inv IsStarted P s
      → IsOpenIf c s.migration.status.resource_statuses
      → ((process_or_skip e token item total r rest next c s).0 ≢ panics)
        × Inv IsValid P (process_or_skip e token item total r rest next c s).1
  unfolding process_or_skip ◌>>=◌ ◌>>◌ modify
  process_or_skip-Finishes token item total r rest next (index, true) s n i o = n s i
  process_or_skip-Finishes token item total r rest next (index, false) s n i o =
      let (returns, started) = (process_resource-Returns e k token r index).at _ (record {
        world = i.world;
        valid = record {
          started = at_item-IsStarted item _ s.migration.status i.valid;
          open_lem = at_item-IsOpen item (item_summary e item total) s.migration.status index o;
        };
      }) in
      after_resource-Finishes r rest next _ n returns _ started

  process_from-Finishes :
      (token : String) (item total : ℕ) (l : List MigrationResource)
      → Finishes (process_from e token item total l)
  unfolding process_from ◌>>=◌ gets
  process_from-Finishes token item total [] s i = complete_migration-Ends.at s (weakened s i)
  process_from-Finishes token item total (r ∷ rest) s i =
      let l = s.migration.status.resource_statuses in
      process_or_skip-Finishes token item total r rest (process_from e token (suc item) total rest)
        (check_resource_status r.source_name l) s
        (process_from-Finishes token (suc item) total rest) i
        (check_resource_status-IsOpenIf r.source_name l)

  process_with-Finishes :
      (token : Result String) (l : List MigrationResource) → Finishes (process_with e token l)
  unfolding process_with
  process_with-Finishes (err error) l s i = (fail_migration-Ends e k _).at s (weakened s i)
  process_with-Finishes (ok token) l s i = process_from-Finishes token 1 (length l) l s i

  pub process_running-Finishes : Finishes (process_running e)
  unfolding process_running ◌>>=◌ gets
  process_running-Finishes s i =
      let started : Stable e IsStarted P = Stable-weaken e _ _ _ (λ b x. x.valid) k in
      let m = s.migration in
      process_with-Finishes _ m.spec.resources _
        ((Keeps-get_git_hub_token_unified e started m.namespace m.spec).at s i)
