-- ===== src/Migration/Valid/Restart.antt =====
-- The restart of a finished migration keeps its counters right.
use reposhift.Common.{
  ◌+◌, ◌≡◌, refl, sym, ◌∙◌, ap, String, Bool, false, Option, none, some, List, [], ◌∷◌, ◌++◌, map,
  arith, count_if, count_if-append,
}
use reposhift.Common.Int.{pos, ◌-ℤ◌}
use reposhift.Migration.Types.{MigrationResource, ResourceMigrationStatus, MigrationStatus}
use reposhift.Migration.Restart.Diff.{
  uncounted, first_with, change_first, skip_from, skip, skip_all, requeue_from, requeue,
  requeue_all, pending_status, is_none, new_resources, modified_resources, removed_ids,
  skipped_status, requeued_status, one_skipped,
}
use reposhift.Migration.Restart.{changed_progress, resumed}
use reposhift.Migration.Valid.{IsValid, IsCounted, is_completed, is_failed, count_status}

count_status-change_first :
    (p : ResourceMigrationStatus → Bool) (f : ResourceMigrationStatus → ResourceMigrationStatus)
    (id : String) (l : List ResourceMigrationStatus) (s : ResourceMigrationStatus)
    → first_with id l ≡ some s
    → p (f s) ≡ false
    → count_status p l ≡ count_status p (change_first f id l) + count_status p (s ∷ [])
unfolding count_status first_with change_first
count_status-change_first p f id [] s h k = cc
count_status-change_first p f id (x ∷ rest) s h k =
    ground (arith, count_status-change_first p f id rest s)

module _ (b : MigrationStatus) (v : IsCounted b) (id : String) (s : ResourceMigrationStatus)
    (f : ResourceMigrationStatus → ResourceMigrationStatus)
    (at : first_with id b.resource_statuses ≡ some s) where
  uncounted-completed :
      is_completed (f s) ≡ false
      → (uncounted s.status b.progress).completed
        ≡ pos (count_status is_completed (change_first f id b.resource_statuses))
  unfolding uncounted is_completed count_status ◌-ℤ◌
  uncounted-completed h = ground (
    arith,
    v.completed_lem,
    count_status-change_first is_completed f id b.resource_statuses s at h,
  )

  uncounted-failed :
      is_failed (f s) ≡ false
      → (uncounted s.status b.progress).failed
        ≡ pos (count_status is_failed (change_first f id b.resource_statuses))
  unfolding uncounted is_failed count_status ◌-ℤ◌
  uncounted-failed h =
      ground
        (arith, v.failed_lem, count_status-change_first is_failed f id b.resource_statuses s at h)

  uncounted-skipped : (uncounted s.status b.progress).skipped ≡ b.progress.skipped
  unfolding uncounted
  uncounted-skipped = ground arith

skip_from-IsCounted :
    (b : MigrationStatus) (id : String) (o : Option ResourceMigrationStatus)
    → IsCounted b
    → first_with id b.resource_statuses ≡ o
    → IsCounted (skip_from id o b)
unfolding skip_from one_skipped is_completed is_failed
skip_from-IsCounted b id none v h = v
skip_from-IsCounted b id (some s) v h = record {
  completed_lem = uncounted-completed b v id s skipped_status h refl;
  failed_lem = uncounted-failed b v id s skipped_status h refl;
}

skip_all-IsCounted :
    (ids : List String) (b : MigrationStatus) → IsCounted b → IsCounted (skip_all ids b)
unfolding skip_all skip
skip_all-IsCounted [] b v = v
skip_all-IsCounted (id ∷ ids) b v =
    skip_all-IsCounted ids _ (skip_from-IsCounted b id (first_with id b.resource_statuses) v refl)

requeue_from-IsCounted :
    (b : MigrationStatus) (r : MigrationResource) (o : Option ResourceMigrationStatus)
    → IsCounted b
    → first_with r.source_id b.resource_statuses ≡ o
    → IsCounted (requeue_from r o b)
unfolding requeue_from is_completed is_failed
requeue_from-IsCounted b r none v h = v
requeue_from-IsCounted b r (some s) v h = record {
  completed_lem = uncounted-completed b v r.source_id s (requeued_status r) h refl;
  failed_lem = uncounted-failed b v r.source_id s (requeued_status r) h refl;
}

requeue_all-IsCounted :
    (l : List MigrationResource) (b : MigrationStatus) → IsCounted b → IsCounted (requeue_all l b)
unfolding requeue_all requeue
requeue_all-IsCounted [] b v = v
requeue_all-IsCounted (r ∷ rest) b v =
    requeue_all-IsCounted rest _
      (requeue_from-IsCounted b r (first_with r.source_id b.resource_statuses) v refl)

count_if-pending :
    (p : ResourceMigrationStatus → Bool) (new : List MigrationResource)
    → ((r : MigrationResource) → p (pending_status r) ≡ false)
    → count_if p (map pending_status new) ≡ 0
count_if-pending p [] h = refl
count_if-pending p (r ∷ rest) h = ground (arith, count_if-pending p rest h, h r)

-- pending statuses at the end are counted by neither counter
count_status-pending :
    (p : ResourceMigrationStatus → Bool) (l : List ResourceMigrationStatus)
    (new : List MigrationResource)
    → ((r : MigrationResource) → p (pending_status r) ≡ false)
    → count_status p (l ++ map pending_status new) ≡ count_status p l
unfolding count_status
count_status-pending p l new h =
    omega (arith, count_if-append p l (map pending_status new), count_if-pending p new h)

pending-counts : (r : MigrationResource) → is_completed (pending_status r) ≡ false
unfolding is_completed pending_status
pending-counts r = refl

pending-fails : (r : MigrationResource) → is_failed (pending_status r) ≡ false
unfolding is_failed pending_status
pending-fails r = refl

-- what the restart leaves alone
skip_from-times :
    (id : String) (o : Option ResourceMigrationStatus) (b : MigrationStatus)
    → ((skip_from id o b).start_time ≡ b.start_time)
      × ((skip_from id o b).statistics ≡ b.statistics)
unfolding skip_from
skip_from-times id none b = (refl, refl)
skip_from-times id (some s) b = (refl, refl)

requeue_from-times :
    (r : MigrationResource) (o : Option ResourceMigrationStatus) (b : MigrationStatus)
    → ((requeue_from r o b).start_time ≡ b.start_time)
      × ((requeue_from r o b).statistics ≡ b.statistics)
unfolding requeue_from
requeue_from-times r none b = (refl, refl)
requeue_from-times r (some s) b = (refl, refl)

skip_all-times :
    (ids : List String) (b : MigrationStatus)
    → ((skip_all ids b).start_time ≡ b.start_time) × ((skip_all ids b).statistics ≡ b.statistics)
unfolding skip_all skip
skip_all-times [] b = (refl, refl)
skip_all-times (id ∷ ids) b =
    let (p, q) = skip_all-times ids (skip_from id (first_with id b.resource_statuses) b) in
    let (r, s) = skip_from-times id (first_with id b.resource_statuses) b in (p ∙ r, q ∙ s)

requeue_all-times :
    (l : List MigrationResource) (b : MigrationStatus)
    → ((requeue_all l b).start_time ≡ b.start_time) × ((requeue_all l b).statistics ≡ b.statistics)
unfolding requeue_all requeue
requeue_all-times [] b = (refl, refl)
requeue_all-times (r ∷ rest) b =
    let o = first_with r.source_id b.resource_statuses in
    let (p, q) = requeue_all-times rest (requeue_from r o b) in
    let (u, v) = requeue_from-times r o b in (p ∙ u, q ∙ v)

changed_progress-times :
    (resources : List MigrationResource) (b : MigrationStatus)
    → ((changed_progress resources b).start_time ≡ b.start_time)
      × ((changed_progress resources b).statistics ≡ b.statistics)
unfolding changed_progress
changed_progress-times resources b =
    let old = b.resource_statuses in
    let d = skip_all (removed_ids resources old) b in
    let (p, q) = requeue_all-times (modified_resources resources old) d in
    let (r, s) = skip_all-times (removed_ids resources old) b in (p ∙ r, q ∙ s)

changed_progress-IsCounted :
    (resources : List MigrationResource) (b : MigrationStatus)
    → IsCounted b
    → IsCounted (changed_progress resources b)
unfolding changed_progress
changed_progress-IsCounted resources b v =
    let old = b.resource_statuses in
    let new = new_resources resources old in
    let d : MigrationStatus =
      requeue_all (modified_resources resources old) (skip_all (removed_ids resources old) b) in
    let c : IsCounted d =
      requeue_all-IsCounted (modified_resources resources old)
        (skip_all (removed_ids resources old) b)
        (skip_all-IsCounted (removed_ids resources old) b v) in
    record {
      completed_lem =
          c.completed_lem
          ∙ ap pos (
              sym (
                count_status-pending is_completed d.resource_statuses new (λ r. pending-counts r)));
      failed_lem =
          c.failed_lem
          ∙ ap pos
              (sym (count_status-pending is_failed d.resource_statuses new (λ r. pending-fails r)));
    }

-- A restart, or no restart, keeps the counters right.
pub resumed-IsValid :
    (step : String) (resources : List MigrationResource) (b : MigrationStatus)
    → IsValid b
    → IsValid (resumed step (changed_progress resources b))
unfolding resumed
resumed-IsValid step resources b v =
    let c = changed_progress-IsCounted resources b v.counted in
    record {
      counted = record { completed_lem = c.completed_lem; failed_lem = c.failed_lem };
      unset_lem = λ p. cc;
      statistics_lem =
          let (p, q) = changed_progress-times resources b in
          λ h. ap is_none q ∙ v.statistics_lem (sym (ap is_none p) ∙ h);
    }
