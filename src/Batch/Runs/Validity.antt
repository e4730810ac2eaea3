-- ===== src/Batch/Runs/Validity.antt =====
-- The stored status of a batch is valid after any reconciliations.
use reposhift.Common.{
  sym, ◌∙◌, Bool, [], ◌∷◌, all, if◌then◌else◌, str_eq, ℕ, ◌≡◌, ◌≢◌, refl, true, false, String, List,
  arith,
}
use reposhift.Batch.Changes.{initialised, all_successful}
use reposhift.Batch.Types.{Phase, ResourceMigrationStatus, MigrationResource, Spec, Status}
use reposhift.Batch.Env.{Env, panics}
use reposhift.Batch.Resources.{
  is_processed_in, is_resource_processed, mark_resource_completed, mark_resource_failed,
  update_progress,
}
use reposhift.Batch.Reconcile.{reconcile}
use reposhift.Batch.Valid.{IsCounted, IsValid, is_completed, failed_in}
use reposhift.Batch.Counters.{
  mark_resource_completed-IsCounted, mark_resource_failed-IsCounted, update_progress-IsCounted,
}
use reposhift.Batch.Closed.{Closed, all_processed}
use reposhift.Batch.Runs.{Server, as_worker, run, run-closed, reconcile-ne-panics}

module _ (spec : Spec) where
  -- marking changes the counters, the statuses and the percentage alone
  remarked :
      (b b' : Status)
      → IsValid spec b
      → b'.phase ≡ b.phase
      → b.phase ≡ Phase.processing
      → b'.retry_count ≡ b.retry_count
      → b'.start_time ≡ b.start_time
      → IsCounted b'
      → IsValid spec b'
  remarked b b' v same p retry_count start_time c = record {
    counted = c;
    retries = rw retry_count v.retries;
    fresh = λ q. cc;
    started = λ q. rw start_time (v.started p);
    successful = λ q. cc;
  }

  initialised-IsValid :
      (b : Status) → IsValid spec b → b.phase ≡ Phase.unset → IsValid spec (initialised spec b)
  initialised-IsValid b v u = record {
    counted = rw (v.fresh u) (record { completed = refl; failed = refl; terminal = refl });
    retries = omega arith;
    fresh = λ p. cc;
    started = λ p. cc;
    successful = λ p. cc;
  }

  mark_resource_completed-IsValid :
      (t : ℕ) (r : MigrationResource) (b : Status)
      → IsValid spec b
      → b.phase ≡ Phase.processing
      → is_resource_processed b r ≡ false
      → IsValid spec (mark_resource_completed t r b)
  unfolding mark_resource_completed
  mark_resource_completed-IsValid t r b v p h =
      remarked b _ v refl p refl refl (mark_resource_completed-IsCounted t r b v.counted h)

  mark_resource_failed-IsValid :
      (t : ℕ) (r : MigrationResource) (error : String) (b : Status)
      → IsValid spec b
      → b.phase ≡ Phase.processing
      → is_resource_processed b r ≡ false
      → IsValid spec (mark_resource_failed t r error b)
  unfolding mark_resource_failed
  mark_resource_failed-IsValid t r error b v p h =
      remarked b _ v refl p refl refl (mark_resource_failed-IsCounted t r error b v.counted h)

  update_progress-IsValid :
      (b : Status) → IsValid spec b → b.phase ≡ Phase.processing → IsValid spec (update_progress b)
  unfolding update_progress
  update_progress-IsValid b v p =
      remarked b _ v (ground arith) p (ground arith) (ground arith)
        (update_progress-IsCounted b v.counted)

  all_successful-IsValid :
      (b : Status)
      → IsValid spec b
      → b.phase ≡ Phase.processing
      → b.progress.failed ≡ 0
      → all_processed spec b ≡ true
      → IsValid spec (all_successful b)
  unfolding is_resource_processed
  all_successful-IsValid b v p z a = record {
    counted = record {
      completed = v.counted.completed;
      failed = v.counted.failed;
      terminal = v.counted.terminal;
    };
    retries = v.retries;
    fresh = λ q. cc;
    started = λ q. cc;
    successful = λ q. (z, a);
  }

  IsValid-Closed : Closed spec (IsValid spec)
  unfolding is_resource_processed
  IsValid-Closed = record {
    reconciled_at = λ t b v. ground (arith, v);
    initialised = initialised-IsValid;
    claim = λ worker t b v p. ground (arith, v);
    start_processing = λ t b v p. ground (arith, v);
    renewed = λ t b v p. ground (arith, v);
    mark_resource_completed = mark_resource_completed-IsValid;
    mark_resource_failed = mark_resource_failed-IsValid;
    update_progress = update_progress-IsValid;
    completed_at = λ t b v p. ground (arith, v);
    all_successful = all_successful-IsValid;
    become_stale = λ b v. ground (arith, v);
    begin_retry = λ next b v h. ground (arith, v);
    give_up = λ message t b v. ground (arith, v);
    back_to_pending = λ step b v p. ground (arith, v);
    started = λ b v. v.started;
  }

  -- From a valid stored status, every series of reconciliations by any workers, whatever the
  -- clock, the migrations and the answers to the status updates, leaves a valid stored status.
  pub run-IsValid :
      (e : Env) (server : Server e spec) (ids : List String) (w : e.World)
      → IsValid spec (server.stored w)
      → IsValid spec (server.stored (run e ids w))
  run-IsValid e server = run-closed e spec server (IsValid spec) IsValid-Closed

  -- A reconciliation of a batch whose stored status is valid does not panic.
  pub reconcile_total :
      (e : Env) (server : Server e spec) (id : String) (w : e.World)
      → IsValid spec (server.stored w)
      → (reconcile (as_worker e id) w).0 ≢ panics
  reconcile_total e server = reconcile-ne-panics e spec server (IsValid spec) IsValid-Closed

-- The status of a resource, the first under its name, is Completed.
pub is_completed_in : String → List ResourceMigrationStatus → Bool
is_completed_in name [] = false
is_completed_in name (s ∷ rest) =
    if str_eq s.source_name name then is_completed s.status else is_completed_in name rest

is_completed_in-eq-is_processed_in :
    (name : String) (l : List ResourceMigrationStatus)
    → failed_in l ≡ 0
    → is_completed_in name l ≡ is_processed_in name l
unfolding is_completed_in is_processed_in
is_completed_in-eq-is_processed_in name [] h = refl
is_completed_in-eq-is_processed_in name (s ∷ l) h =
    ground (arith, is_completed_in-eq-is_processed_in name l)

all_completed :
    (b : Status) (rs : List MigrationResource)
    → failed_in b.resource_statuses ≡ 0
    → all (λ r. is_resource_processed b r) rs ≡ true
    → all (λ r. is_completed_in r.source_name b.resource_statuses) rs ≡ true
unfolding is_resource_processed
all_completed b [] z a = refl
all_completed b (r ∷ rs) z a = ground (
  arith,
  is_completed_in-eq-is_processed_in r.source_name b.resource_statuses z,
  all_completed b rs z,
)

-- If, after any reconciliations from a valid stored status, the stored phase is Completed, then
-- every resource of the batch has the status Completed.
pub run-completed :
    (spec : Spec) (e : Env) (server : Server e spec) (ids : List String) (w : e.World)
    → IsValid spec (server.stored w)
    → (server.stored (run e ids w)).phase ≡ Phase.completed
    → all
        (λ r. is_completed_in r.source_name (server.stored (run e ids w)).resource_statuses)
        spec.resources
      ≡ true
run-completed spec e server ids w v p =
    let u = run-IsValid spec e server ids w v in
    let (z, a) = u.successful p in all_completed _ spec.resources (sym u.counted.failed ∙ z) a
