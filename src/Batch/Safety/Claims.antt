-- ===== src/Batch/Safety/Claims.antt =====
-- Initialisation, the claim, and the start of the processing keep a valid status.
use reposhift.Common.{ℕ, ◌≡◌, refl, Bool, true, false, String, Option, none, some}
use reposhift.Batch.Types.{Phase, Spec, Status}
use reposhift.Batch.Env.{Env, St}
use reposhift.Batch.Reconcile.{
  is_lease_expired, expired_by, start_unless_expired, claimed_if_mine, initialize_status,
  after_claim, process_pending,
}
use reposhift.Batch.Closed.{Closed}
use reposhift.Batch.Safety.Handlers.{Good, mark_stale-Good}
use reposhift.Batch.Safety.{Keeps, At, Inv}

module _ (e : Env) (spec : Spec) (V : Status → Type 0) (c : Closed spec V) (P : e.World → Type 0)
    (k : Keeps e spec V P) where
  pub initialize_status-Good :
      (s : St e.World) → At Phase.unset e V P s → Good e V P (initialize_status e spec s)
  unfolding initialize_status
  initialize_status-Good s i =
      let v = c.initialised s.status i.valid i.phase in
      record {
        returned = λ p. cc;
        state = record { world = k.status_update _ _ v i.world; valid = v };
      }

  after_claim-Good :
      (error : Option String) (s : St e.World) → Inv e V P s → Good e V P (after_claim e error s)
  unfolding after_claim
  after_claim-Good none s i = record {
    returned = λ p. cc;
    state = record { world = i.world; valid = i.valid };
  }
  after_claim-Good (some error) s i = record { returned = λ p. cc; state = i }

  pub process_pending-Good :
      (s : St e.World) → At Phase.pending e V P s → Good e V P (process_pending e s)
  unfolding process_pending
  process_pending-Good s i =
      let v = c.claim e.worker_id (e.now s.world).0 s.status i.valid i.phase in
      after_claim-Good _ _ (record { world = k.status_update _ _ v (k.now _ i.world); valid = v })

  pub expired_by_keeps :
      (o : Option ℕ) (s : St e.World)
      → P s.world
      → P (expired_by e o s).1.world × ((expired_by e o s).1.status ≡ s.status)
  unfolding expired_by
  expired_by_keeps none s p = (p, refl)
  expired_by_keeps (some t) s p = (k.now _ p, refl)

  -- a step that leaves the status alone
  pub move :
      {p : Phase} {s : St e.World} (s' : St e.World)
      → At p e V P s
      → P s'.world
      → s'.status ≡ s.status
      → At p e V P s'
  move s' i w same = record { world = w; valid = rw same i.valid; phase = rw same i.phase }

  start_unless_expired-Good :
      (expired : Bool) (s : St e.World)
      → At Phase.claimed e V P s
      → Good e V P (start_unless_expired e spec expired s)
  unfolding start_unless_expired
  start_unless_expired-Good true s i =
      mark_stale-Good e spec V c P k s (record { world = i.world; valid = i.valid })
  start_unless_expired-Good false s i =
      let v = c.start_processing (e.now s.world).0 s.status i.valid i.phase in
      record {
        returned = λ p. cc;
        state = record { world = k.status_update _ _ v (k.now _ i.world); valid = v };
      }

  pub claimed_if_mine-Good :
      (mine : Bool) (s : St e.World)
      → At Phase.claimed e V P s
      → Good e V P (claimed_if_mine e spec mine s)
  unfolding claimed_if_mine is_lease_expired
  claimed_if_mine-Good false s i = record {
    returned = λ p. cc;
    state = record { world = i.world; valid = i.valid };
  }
  claimed_if_mine-Good true s i =
      let (p, same) = expired_by_keeps s.status.lease_expires_at s i.world in
      start_unless_expired-Good _ _ (move _ i p same)
