-- ===== src/Batch/Runs.antt =====
-- Reconciliations of one batch, one after another, by any workers, against an API server that
-- stores the status it is sent or keeps the one it has.
pub mod Validity
pub mod Failures
use reposhift.Common.{
  ℕ, ◌≡◌, ◌≢◌, ◌⊎◌, inl, inr, ◌∙◌, sym, subst, String, Option, none, some, List, [], ◌∷◌,
}
use reposhift.Batch.Types.{MigrationResource, Spec, Status}
use reposhift.Batch.Env.{Env, St, Outcome, panics, Fetched, found}
use reposhift.Batch.Reconcile.{reconcile_found, reconcile}
use reposhift.Batch.Closed.{Closed}
use reposhift.Batch.Safety.{Keeps, Inv}
use reposhift.Batch.Safety.Handlers.{Good}
use reposhift.Batch.Safety.Phases.{reconcile_found-Good}

-- The documented behaviour of the API server for one batch, whose specification stays as it is: a
-- read gives what is stored, an update stores the new status or (on an error) may leave the old
-- one, and nothing else writes.
pub record Server (e : Env) (spec : Spec) : Type 0 where
  pub stored : e.World → Status
  pub get-stored : (w : e.World) → e.get w ≡ found spec (stored w)
  pub stored-now : (w : e.World) → stored (e.now w).1 ≡ stored w
  pub stored-rand : (w : e.World) → stored (e.rand w).1 ≡ stored w
  pub stored-migrate_repository :
      (w : e.World) (r : MigrationResource) (ado github : String)
      → stored (e.migrate_repository w spec r ado github).1 ≡ stored w
  pub stored-status_update :
      (w : e.World) (b : Status)
      → (stored (e.status_update w b).1 ≡ b) ⊎ (stored (e.status_update w b).1 ≡ stored w)

-- The replicas of the controller differ in their worker id.
abbrev pub as_worker : Env → String → Env
as_worker e id = record e { worker_id = id }

unfoldable pub run : (e : Env) → List String → e.World → e.World
run e [] w = w
run e (id ∷ ids) w = run e ids (reconcile (as_worker e id) w).1

module _ (e : Env) (spec : Spec) (server : Server e spec) (V : Status → Type 0)
    (c : Closed spec V) where
  abbrev Stored : e.World → Type 0
  Stored w = V (server.stored w)

  server_keeps : (id : String) → Keeps (as_worker e id) spec V Stored
  server_keeps id = record {
    now = λ w p. subst V (sym (server.stored-now w)) p;
    rand = λ w p. subst V (sym (server.stored-rand w)) p;
    migrate_repository =
        λ w r ado github p. subst V (sym (server.stored-migrate_repository w r ado github)) p;
    status_update = λ w b v p. elim (server.stored-status_update w b) [
      | inl new ↦ subst V (sym new) v
      | inr old ↦ subst V (sym old) p
    ];
  }

  reconcile-Good :
      (id : String) (w : e.World)
      → V (server.stored w)
      → ((reconcile (as_worker e id) w).0 ≢ panics)
        × V (server.stored (reconcile (as_worker e id) w).1)
  unfolding reconcile
  reconcile-Good id w v =
      let s : St e.World = record { world = w; status = server.stored w; events = [] } in
      let g =
        reconcile_found-Good (as_worker e id) spec V c Stored (server_keeps id) s
          (record { world = v; valid = v }) in
      rw (server.get-stored w, reconcile) (g.returned, g.state.world)

  -- A closed property of the stored status survives any reconciliations, none of which panics.
  pub run-closed :
      (ids : List String) (w : e.World) → V (server.stored w) → V (server.stored (run e ids w))
  unfolding run
  run-closed [] w v = v
  run-closed (id ∷ ids) w v = run-closed ids _ (reconcile-Good id w v).1

  pub reconcile-ne-panics :
      (id : String) (w : e.World) → V (server.stored w) → (reconcile (as_worker e id) w).0 ≢ panics
  reconcile-ne-panics id w v = (reconcile-Good id w v).0
