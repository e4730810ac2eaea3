-- ===== src/Batch/Safety/Phases.antt =====
-- The handler of each phase keeps a valid status and does not panic; so does Reconcile.
use reposhift.Common.{
  ℕ, ◌≡◌, ◌≢◌, refl, Bool, true, false, String, Option, none, some, arith, Bool-cases, inl, inr,
  ltb,
}
use reposhift.Common.Int.{ℤ, pos, ltb_ℤ}
use reposhift.Batch.Changes.{completed_at}
use reposhift.Batch.Types.{Phase, Spec, Status}
use reposhift.Batch.Env.{Env, St, returns, panics}
use reposhift.Batch.Resources.{is_resource_processed}
use reposhift.Batch.Retry.{get_retry_policy}
use reposhift.Batch.Reconcile.{
  is_lease_expired, expires_soon, renew_if, work_unless_expired, process_if_mine, requeue_resumed,
  resume_or_wait, wait_until, should_renew_lease, renew_lease, process_claimed, succeed,
  after_failures, complete_batch, process_processing, resume, process_retrying, process_phase,
  reconcile_found,
}
use reposhift.Batch.Closed.{Closed, all_processed}
use reposhift.Batch.Processed.{process_all_done}
use reposhift.Batch.Safety.Claims.{
  initialize_status-Good, process_pending-Good, expired_by_keeps, move, claimed_if_mine-Good,
}
use reposhift.Batch.Safety.Handlers.{Good, fail_batch-Good, retry_batch-Good, mark_stale-Good}
use reposhift.Batch.Safety.{Keeps, Works, At, Inv, process_all-Works}

module _ (e : Env) (spec : Spec) (V : Status → Type 0) (c : Closed spec V) (P : e.World → Type 0)
    (k : Keeps e spec V P) where
  succeed-Good :
      (duration : Option ℤ) (s : St e.World)
      → duration ≢ none
      → Works e V P s
      → s.status.progress.failed ≡ 0
      → all_processed spec s.status ≡ true
      → Good e V P (succeed e duration s)
  unfolding succeed
  succeed-Good none s h i z a = absurd (h refl)
  succeed-Good (some d) s h i z a =
      let v = c.all_successful s.status i.valid i.phase z a in
      record {
        returned = λ p. cc;
        state = record { world = k.status_update _ _ v i.world; valid = v };
      }

  after_failures-Good :
      (b : Status) (s : St e.World) → Inv e V P s → Good e V P (after_failures e spec b s)
  unfolding after_failures
  after_failures-Good b s i =
      elim (Bool-cases (ltb b.retry_count (get_retry_policy spec).max_retries)) [
        | inl again ↦ rw again (retry_batch-Good e spec V c P k s i)
        | inr out ↦ rw out (fail_batch-Good e spec V c P k _ s i)
      ]

  statistics-completed_at-ne-none :
      (t : ℕ) (b : Status) → b.start_time ≢ none → (completed_at t b).statistics ≢ none
  statistics-completed_at-ne-none t b h p = ground (arith, h)

  complete_batch-Good :
      (s : St e.World)
      → Works e V P s
      → all_processed spec s.status ≡ true
      → Good e V P (complete_batch e spec s)
  unfolding complete_batch is_resource_processed
  complete_batch-Good s i a =
      let t = (e.now s.world).0 in
      let b = completed_at t s.status in
      let v = c.completed_at t s.status i.valid i.phase in
      let timed = statistics-completed_at-ne-none t s.status (c.started s.status i.valid i.phase) in
      elim (Bool-cases (ltb 0 s.status.progress.failed)) [
        | inl some_failed ↦
            rw some_failed (after_failures-Good b _ (record { world = k.now _ i.world; valid = v }))
        | inr none_failed ↦ rw none_failed (
            succeed-Good _ _ timed (record { world = k.now _ i.world; valid = v; phase = i.phase })
              (ground arith) a)
      ]

  expires_soon_keeps :
      (o : Option ℕ) (s : St e.World)
      → P s.world
      → P (expires_soon e o s).1.world × ((expires_soon e o s).1.status ≡ s.status)
  unfolding expires_soon
  expires_soon_keeps none s p = (p, refl)
  expires_soon_keeps (some t) s p = (k.now _ p, refl)

  renew_if-Works :
      (renew : Bool) (s : St e.World) → Works e V P s → Works e V P (renew_if e renew s).1
  unfolding renew_if renew_lease
  renew_if-Works false s i = i
  renew_if-Works true s i =
      let v = c.renewed (e.now s.world).0 s.status i.valid i.phase in
      record { world = k.status_update _ _ v (k.now _ i.world); valid = v; phase = i.phase }

  work_unless_expired-Good :
      (expired : Bool) (s : St e.World)
      → Works e V P s
      → Good e V P (work_unless_expired e spec expired s)
  unfolding work_unless_expired should_renew_lease
  work_unless_expired-Good true s i =
      mark_stale-Good e spec V c P k s (record { world = i.world; valid = i.valid })
  work_unless_expired-Good false s i =
      let (p, same) = expires_soon_keeps s.status.lease_expires_at s i.world in
      let r = renew_if-Works _ _ (move e spec V c P k _ i p same) in
      complete_batch-Good _ (process_all-Works e spec V c P k spec.resources _ r)
        (process_all_done e spec _)

  process_if_mine-Good :
      (mine : Bool) (s : St e.World) → Works e V P s → Good e V P (process_if_mine e spec mine s)
  unfolding process_if_mine is_lease_expired
  process_if_mine-Good false s i = record {
    returned = λ p. cc;
    state = record { world = i.world; valid = i.valid };
  }
  process_if_mine-Good true s i =
      let (p, same) = expired_by_keeps e spec V c P k s.status.lease_expires_at s i.world in
      work_unless_expired-Good _ _ (move e spec V c P k _ i p same)

  requeue_resumed-ne-panics : (error : Option String) → requeue_resumed e error ≢ panics
  unfolding requeue_resumed
  requeue_resumed-ne-panics none p = cc
  requeue_resumed-ne-panics (some x) p = cc

  resume-Good : (s : St e.World) → At Phase.retrying e V P s → Good e V P (resume e s)
  unfolding resume
  resume-Good s i =
      let v = c.back_to_pending _ s.status i.valid i.phase in
      record {
        returned = requeue_resumed-ne-panics _;
        state = record { world = k.status_update _ _ v i.world; valid = v };
      }

  resume_or_wait-Good :
      (next : ℤ) (t : ℕ) (s : St e.World)
      → At Phase.retrying e V P s
      → Good e V P (resume_or_wait e next t s)
  unfolding resume_or_wait
  resume_or_wait-Good next t s i = elim (Bool-cases (ltb_ℤ (pos t) next)) [
    | inl early ↦
        rw early (record {
          returned = λ p. cc;
          state = record { world = k.now _ i.world; valid = i.valid };
        })
    | inr due ↦ rw due (resume-Good s i)
  ]

  wait_until-Good :
      (next : Option ℤ) (s : St e.World)
      → At Phase.retrying e V P s
      → Good e V P (wait_until e next s)
  unfolding wait_until
  wait_until-Good none s i = resume-Good s i
  wait_until-Good (some next) s i =
      resume_or_wait-Good next _ _
        (record { world = k.now _ i.world; valid = i.valid; phase = i.phase })

  idle-Good : (s : St e.World) → Inv e V P s → Good e V P (returns (pos 0) none, s)
  idle-Good s i = record { returned = λ p. cc; state = i }

  process_phase-Good :
      (phase : Phase) (s : St e.World)
      → At phase e V P s
      → Good e V P (process_phase e phase spec s)
  unfolding process_phase process_claimed process_processing process_retrying
  process_phase-Good Phase.unset s i = initialize_status-Good e spec V c P k s i
  process_phase-Good Phase.pending s i = process_pending-Good e spec V c P k s i
  process_phase-Good Phase.claimed s i = claimed_if_mine-Good e spec V c P k _ s i
  process_phase-Good Phase.processing s i = process_if_mine-Good _ s i
  process_phase-Good Phase.stale s i =
      retry_batch-Good e spec V c P k s (record { world = i.world; valid = i.valid })
  process_phase-Good Phase.retrying s i = wait_until-Good _ s i
  process_phase-Good Phase.completed s i = idle-Good s (record { world = i.world; valid = i.valid })
  process_phase-Good Phase.failed s i = idle-Good s (record { world = i.world; valid = i.valid })
  process_phase-Good (Phase.other name) s i =
      idle-Good s (record { world = i.world; valid = i.valid })

  pub reconcile_found-Good : (s : St e.World) → Inv e V P s → Good e V P (reconcile_found e spec s)
  unfolding reconcile_found
  reconcile_found-Good s i = process_phase-Good _ _ (record {
    world = k.now _ i.world;
    valid = c.reconciled_at (e.now s.world).0 s.status i.valid;
    phase = refl;
  })
