-- ===== src/Migration/Runs.antt =====
-- Reconciliations of one migration, with changes by its users in between, against an API server
-- that keeps the status apart from the rest of the object.
pub mod Paused
use reposhift.Common.{ℕ, ◌≡◌, ◌≢◌, ◌⊎◌, inl, inr, refl, sym, subst, List, []}
use reposhift.Migration.Types.{Migration, MigrationStatus}
use reposhift.Migration.Env.{
  Env, St, Request, Outcome, panics, Updated, updated, Fetched, found, not_found, get_error,
}
use reposhift.Migration.Reconcile.{reconcile_found, reconcile_fetched, reconcile}
use reposhift.Migration.Valid.{IsValid}
use reposhift.Migration.Keeps.{Inv, Stable, Answers}
use reposhift.Migration.Safety.Reconcile.{reconcile_found-Ends}

-- The documented behaviour of the API server: a read gives the stored status, an update of the
-- status stores it or (on an error) may leave the old one, an update of the object leaves the
-- status alone and answers with the stored one, and no other call writes.
pub record Server (e : Env) : Type 0 where
  pub stored : e.World → MigrationStatus
  pub get-stored : (w : e.World) (m : Migration) → e.get w ≡ found m → m.status ≡ stored w
  pub stored-now : (w : e.World) → stored (e.now w).1 ≡ stored w
  pub stored-ask : (q : Request) (w : e.World) → stored (e.ask q w).1 ≡ stored w
  pub stored-status_update :
      (w : e.World) (m : Migration)
      → (stored (e.status_update w m).1 ≡ m.status) ⊎ (stored (e.status_update w m).1 ≡ stored w)
  pub stored-update : (w : e.World) (m : Migration) → stored (e.update w m).1 ≡ stored w
  pub update-status :
      (w : e.World) (m n : Migration) → (e.update w m).0 ≡ updated n → n.status ≡ stored w

-- The worlds that reconciliations and users lead to. A user changes the specification, the
-- annotations or the deletion of the object, and not its status.
pub data Reach (e : Env) (server : Server e) (start : e.World) : e.World → Type 0 where
  begins : Reach e server start start
  reconciles :
      {w v : e.World} → Reach e server start w → v ≡ (reconcile e w).1 → Reach e server start v
  edits :
      {w v : e.World}
      → Reach e server start w
      → server.stored v ≡ server.stored w
      → Reach e server start v

module _ (e : Env) (server : Server e) where
  -- the stored status has a property
  abbrev pub Stored : (MigrationStatus → Type 0) → e.World → Type 0
  Stored V w = V (server.stored w)

  pub server-Stable : (V : MigrationStatus → Type 0) → Stable e V (Stored V)
  server-Stable V = record {
    now = λ w p. subst V (sym (server.stored-now w)) p;
    ask = λ q w p. subst V (sym (server.stored-ask q w)) p;
    status_update = λ w m v p. elim (server.stored-status_update w m) [
      | inl new ↦ subst V (sym new) v
      | inr old ↦ subst V (sym old) p
    ];
  }

  pub server-Answers : (V : MigrationStatus → Type 0) → Answers e V (Stored V)
  server-Answers V = record {
    update = λ w m p. subst V (sym (server.stored-update w m)) p;
    update-status = λ w m n p h. subst V (sym (server.update-status w m n h)) p;
  }

  pub fetched-Inv :
      (V : MigrationStatus → Type 0) (w : e.World) (m : Migration)
      → e.get w ≡ found m
      → V (server.stored w)
      → Inv {W = e.World} V (Stored V) (record { world = w; migration = m; notices = [] })
  fetched-Inv V w m h v = record { world = v; valid = subst V (sym (server.get-stored w m h)) v }

  reconcile_fetched-IsValid :
      (f : Fetched) (w : e.World)
      → e.get w ≡ f
      → IsValid (server.stored w)
      → ((reconcile_fetched e f w).0 ≢ panics) × IsValid (server.stored (reconcile_fetched e f w).1)
  unfolding reconcile_fetched
  reconcile_fetched-IsValid (found m) w h v =
      let (n, i) =
        (reconcile_found-Ends e (server-Stable IsValid) (server-Answers IsValid)).at _
          (fetched-Inv IsValid w m h v) in
      (n, i.world)
  reconcile_fetched-IsValid not_found w h v = (λ p. cc, v)
  reconcile_fetched-IsValid (get_error x) w h v = (λ p. cc, v)

  reconcile-IsValid :
      (w : e.World)
      → IsValid (server.stored w)
      → ((reconcile e w).0 ≢ panics) × IsValid (server.stored (reconcile e w).1)
  unfolding reconcile
  reconcile-IsValid w v = reconcile_fetched-IsValid (e.get w) w refl v

  -- If the stored status is valid at the start, it is valid in every world that reconciliations
  -- and users lead to: the counters of completed and failed resources are the numbers of statuses
  -- that say so.
  pub Reach-IsValid :
      (start w : e.World)
      → IsValid (server.stored start)
      → Reach e server start w
      → IsValid (server.stored w)
  Reach-IsValid start w v begins = v
  Reach-IsValid start w v (reconciles r h) =
      subst (Stored IsValid) (sym h) (reconcile-IsValid _ (Reach-IsValid start _ v r)).1
  Reach-IsValid start w v (edits r h) = subst IsValid (sym h) (Reach-IsValid start _ v r)

  -- If the stored status is valid at the start, no reconciliation that follows panics: it writes
  -- the status of a resource at an index that is there, and finds the statistics where it sets the
  -- duration.
  pub reconcile-total :
      (start w : e.World)
      → IsValid (server.stored start)
      → Reach e server start w
      → (reconcile e w).0 ≢ panics
  reconcile-total start w v r = (reconcile-IsValid w (Reach-IsValid start w v r)).0
