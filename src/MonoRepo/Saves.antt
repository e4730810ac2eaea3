-- ===== src/MonoRepo/Saves.antt =====
-- The one status update of a reconciliation: what is stored and what is held before it, and what
-- it sends.
use reposhift.Common.{◌≡◌, refl, sym, ap, ◌∙◌, subst, ◌⊎◌, String, List, ℕ}
use reposhift.Common.State.{M, ◌>>=◌}
use reposhift.Common.State.Leads.{Leads, Keeps, Leads-bind, Leads-pure}
use reposhift.MonoRepo.Types.{MonoStatus, MonoMigration}
use reposhift.MonoRepo.Env.{Env, St, Request, Outcome, Updated, updated, rejected, found}
use reposhift.MonoRepo.Action.{
  reads, change, edit, event, now, ask, schedule, update, kept, status_update,
  send_web_socket_update,
}
use reposhift.MonoRepo.Progress.{get_workspace, forget_workspace, save_and}

-- The documented behaviour of the API server: a read gives the stored status, an update of the
-- status stores it or (on an error) may leave the old one, an update of the object leaves the
-- status alone and answers with the stored one, and no other call writes.
pub record Server (e : Env) : Type 0 where
  pub stored : e.World → MonoStatus
  pub get-stored : (w : e.World) (m : MonoMigration) → e.get w ≡ found m → m.status ≡ stored w
  pub stored-now : (w : e.World) → stored (e.now w).1 ≡ stored w
  pub stored-ask : (q : Request) (w : e.World) → stored (e.ask q w).1 ≡ stored w
  pub stored-status_update :
      (w : e.World) (m : MonoMigration)
      → (stored (e.status_update w m).1 ≡ m.status) ⊎ (stored (e.status_update w m).1 ≡ stored w)
  pub stored-update : (w : e.World) (m : MonoMigration) → stored (e.update w m).1 ≡ stored w
  pub update-status :
      (w : e.World) (m n : MonoMigration) → (e.update w m).0 ≡ updated n → n.status ≡ stored w

-- Stored is `b`, and the reconciler's copy of the status is `c`.
pub record At (e : Env) (server : Server e) (b c : MonoStatus) (s : St e.World) : Type 0 where
  pub stored_lem : server.stored s.world ≡ b
  pub copy_lem : s.migration.status ≡ c

-- While `b` was stored, an update was sent that `R` allows, and nothing else is written since.
pub record Saved (e : Env) (server : Server e) (b : MonoStatus) (R : MonoStatus → Type 0)
    (s : St e.World) : Type 0 where
  pub before : e.World
  pub saved : MonoMigration
  pub before_lem : server.stored before ≡ b
  pub allowed : R saved.status
  pub world_lem : s.world ≡ (e.status_update before saved).1

module _ (e : Env) (server : Server e) {b c : MonoStatus} where
  pub At-ask : (q : Request) → Keeps (At e server b c) (ask e q)
  unfolding ask
  At-ask q = record {
    at = λ s h. record {
      stored_lem = server.stored-ask q s.world ∙ h.stored_lem;
      copy_lem = h.copy_lem;
    };
  }

  pub At-now : Keeps (At e server b c) (now e)
  unfolding now
  At-now = record {
    at = λ s h. record {
      stored_lem = server.stored-now s.world ∙ h.stored_lem;
      copy_lem = h.copy_lem;
    };
  }

  pub At-schedule : (l : List ℕ) → Keeps (At e server b c) (schedule e l)
  unfolding schedule
  At-schedule l = record { at = λ s h. h }

  pub At-event : (reason : String) → Keeps (At e server b c) (event reason)
  unfolding event
  At-event reason = record {
    at = λ s h. record { stored_lem = h.stored_lem; copy_lem = h.copy_lem };
  }

  pub At-send : (message : String) → Keeps (At e server b c) (send_web_socket_update e message)
  unfolding send_web_socket_update
  At-send message = record {
    at = λ s h. record { stored_lem = h.stored_lem; copy_lem = h.copy_lem };
  }

  pub At-get_workspace : Keeps (At e server b c) get_workspace
  unfolding get_workspace
  At-get_workspace = record {
    at = λ s h. record { stored_lem = h.stored_lem; copy_lem = h.copy_lem };
  }

  pub At-forget_workspace : Keeps (At e server b c) forget_workspace
  unfolding forget_workspace
  At-forget_workspace = record {
    at = λ s h. record { stored_lem = h.stored_lem; copy_lem = h.copy_lem };
  }

  pub At-edit :
      (f : MonoMigration → MonoMigration)
      → ((m : MonoMigration) → (f m).status ≡ m.status)
      → Keeps (At e server b c) (edit f)
  unfolding edit
  At-edit f same = record {
    at = λ s h. record { stored_lem = h.stored_lem; copy_lem = same s.migration ∙ h.copy_lem };
  }

  pub At-change :
      (f : MonoStatus → MonoStatus) → Leads (At e server b c) (At e server b (f c)) (change f)
  unfolding change
  At-change f = record {
    at = λ s h. record { stored_lem = h.stored_lem; copy_lem = ap f h.copy_lem };
  }

  -- what is read has the copy's status
  pub At-reads :
      {A B : Type 0} {K : St e.World → Type 0} (f : MonoMigration → A) (g : A → M (St e.World) B)
      → ((m : MonoMigration) → m.status ≡ c → Leads (At e server b c) K (g (f m)))
      → Leads (At e server b c) K (reads f >>= g)
  unfolding ◌>>=◌ reads
  At-reads f g h = record { at = λ s i. (h s.migration i.copy_lem).at s i }

  pub status_update-saves :
      {R : MonoStatus → Type 0}
      → R c
      → Leads (At e server b c) (Saved e server b R) (status_update e)
  unfolding status_update
  status_update-saves {R} r = record {
    at = λ s h. record {
      before = s.world;
      saved = s.migration;
      before_lem = h.stored_lem;
      allowed = subst R (sym h.copy_lem) r;
      world_lem = refl;
    };
  }

  pub save_and-saves :
      {R : MonoStatus → Type 0} (done : Outcome)
      → R c
      → Leads (At e server b c) (Saved e server b R) (save_and e done)
  unfolding save_and
  save_and-saves done r = Leads-bind _ _ (status_update-saves r) (λ error. Leads-pure _)

module _ (e : Env) (server : Server e) {b : MonoStatus} where
  kept-status :
      (m : MonoMigration) (u : Updated)
      → m.status ≡ b
      → ((n : MonoMigration) → u ≡ updated n → n.status ≡ b)
      → (kept u m).status ≡ b
  kept-status m (updated n) v h = h n refl
  kept-status m (rejected x) v h = v

  pub At-update : Keeps (At e server b b) (update e)
  unfolding update
  At-update = record {
    at = λ s h. record {
      stored_lem = server.stored-update s.world s.migration ∙ h.stored_lem;
      copy_lem =
          kept-status s.migration (e.update s.world s.migration).0 h.copy_lem
            (λ n u. server.update-status s.world s.migration n u ∙ h.stored_lem);
    };
  }
