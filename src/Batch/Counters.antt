-- ===== src/Batch/Counters.antt =====
-- The counters agree with the statuses while resources are marked.
use reposhift.Common.{
  ℕ, ◌≡◌, refl, true, false, String, List, [], ◌∷◌, ◌++◌, arith, count_if-append,
}
use reposhift.Batch.Types.{MigrationResource, ResourceMigrationStatus, Status}
use reposhift.Batch.Resources.{
  is_terminal, is_processed_in, is_resource_processed, put_status, mark_resource_failed,
  mark_resource_completed, update_progress, failed_status, completed_status,
}
use reposhift.Batch.Valid.{all_terminal, IsCounted, is_completed, is_failed}

-- Where every status is terminal, a name that is not processed has no status, so it is appended.
put_status-fresh :
    (new : ResourceMigrationStatus) (l : List ResourceMigrationStatus)
    → all_terminal l ≡ true
    → is_processed_in new.source_name l ≡ false
    → put_status new l ≡ l ++ new ∷ []
unfolding put_status is_processed_in
put_status-fresh new [] t h = refl
put_status-fresh new (s ∷ rest) t h = ground (arith, put_status-fresh new rest)

all_terminal-append :
    (l : List ResourceMigrationStatus) (new : ResourceMigrationStatus)
    → all_terminal l ≡ true
    → is_terminal new.status ≡ true
    → all_terminal (l ++ new ∷ []) ≡ true
all_terminal-append [] new h k = ground arith
all_terminal-append (x ∷ l) new h k = ground (arith, all_terminal-append l new)

pub mark_resource_completed-IsCounted :
    (t : ℕ) (r : MigrationResource) (b : Status)
    → IsCounted b
    → is_resource_processed b r ≡ false
    → IsCounted (mark_resource_completed t r b)
unfolding mark_resource_completed is_resource_processed
mark_resource_completed-IsCounted t r b c h =
    let new = completed_status t r in
    rw (put_status-fresh new b.resource_statuses c.terminal h) (record {
      completed = omega (
        arith,
        c.completed,
        count_if-append (λ s. is_completed s.status) b.resource_statuses (new ∷ []),
      );
      failed = omega (
        arith,
        c.failed,
        count_if-append (λ s. is_failed s.status) b.resource_statuses (new ∷ []),
      );
      terminal = all_terminal-append b.resource_statuses new c.terminal refl;
    })

pub mark_resource_failed-IsCounted :
    (t : ℕ) (r : MigrationResource) (error : String) (b : Status)
    → IsCounted b
    → is_resource_processed b r ≡ false
    → IsCounted (mark_resource_failed t r error b)
unfolding mark_resource_failed is_resource_processed
mark_resource_failed-IsCounted t r error b c h =
    let new = failed_status t r error in
    rw (put_status-fresh new b.resource_statuses c.terminal h) (record {
      completed = omega (
        arith,
        c.completed,
        count_if-append (λ s. is_completed s.status) b.resource_statuses (new ∷ []),
      );
      failed = omega (
        arith,
        c.failed,
        count_if-append (λ s. is_failed s.status) b.resource_statuses (new ∷ []),
      );
      terminal = all_terminal-append b.resource_statuses new c.terminal refl;
    })

pub update_progress-IsCounted : (b : Status) → IsCounted b → IsCounted (update_progress b)
unfolding update_progress
update_progress-IsCounted b c = ground arith
