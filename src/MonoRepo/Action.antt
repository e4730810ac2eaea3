-- ===== src/MonoRepo/Action.antt =====
-- The primitive actions of the monorepo reconciler.
use reposhift.Common.{ℕ, ◌*◌, String, Bool, true, false, Option, none, some, List, ◌∷◌}
use reposhift.Common.State.{M}
use reposhift.MonoRepo.Types.{MonoMigration, MonoStatus, MonoPhase, MonoProgress}
use reposhift.MonoRepo.Env.{
  Request, Response, Env, St, Notice, web_socket_update, Outcome, Updated, updated, rejected,
}
use reposhift.MonoRepo.Env.{event as event_notice}

module _ {W : Type 0} where
  -- what the reconciler's copy of the object says
  unfoldable pub reads : {A : Type 0} → (MonoMigration → A) → M (St W) A
  reads f s = (f s.migration, s)

  -- a change of the status
  unfoldable pub change : (MonoStatus → MonoStatus) → M (St W) (Unit {0})
  change f s =
      let m = s.migration in (tt, record s { migration = record m { status = f m.status } })

  -- a change of the metadata
  unfoldable pub edit : (MonoMigration → MonoMigration) → M (St W) (Unit {0})
  edit f s = (tt, record s { migration = f s.migration })

  -- r.Recorder.Event, by its reason
  unfoldable pub event : String → M (St W) (Unit {0})
  event reason s = (tt, record s { notices = event_notice reason ∷ s.notices })

-- what the object becomes after an update of its metadata
abbrev pub kept : Updated → MonoMigration → MonoMigration
kept (updated n) m = n
kept (rejected error) m = m

abbrev pub told : Bool → String → List Notice → List Notice
told true message notices = web_socket_update message ∷ notices
told false message notices = notices

module _ (e : Env) where
  unfoldable pub now : M (St e.World) ℕ
  now s = ((e.now s.world).0, record s { world = (e.now s.world).1 })

  unfoldable pub ask : (q : Request) → M (St e.World) (Response q)
  ask q s = ((e.ask q s.world).0, record s { world = (e.ask q s.world).1 })

  unfoldable pub schedule : List ℕ → M (St e.World) (List ℕ)
  schedule l s = (e.schedule s.world l, s)

  -- r.Update(ctx, migration): on success the controller's copy is overwritten by the server's
  unfoldable pub update : M (St e.World) Updated
  update s =
      let answer = e.update s.world s.migration in
      (answer.0, record s { world = answer.1; migration = kept answer.0 s.migration })

  -- r.Status().Update(ctx, migration)
  unfoldable pub status_update : M (St e.World) (Option String)
  status_update s =
      let answer = e.status_update s.world s.migration in (answer.0, record s { world = answer.1 })

  -- the payload's phase, progress and time are left out
  unfoldable pub send_web_socket_update : String → M (St e.World) (Unit {0})
  send_web_socket_update message s =
      (tt, record s { notices = told e.has_web_socket_manager message s.notices })

abbrev pub second : ℕ
second = 1000000000

abbrev pub returned : Option String → Outcome
returned error = record { requeue = false; requeue_after = 0; error = error }

abbrev pub requeued : ℕ → Option String → Outcome
requeued delay error = record { requeue = false; requeue_after = delay; error = error }

abbrev pub requeue : Outcome
requeue = record { requeue = true; requeue_after = 0; error = none }

-- an error of the status update in place of the outcome
abbrev pub unless_error : Outcome → Option String → Outcome
unless_error done none = done
unless_error done (some error) = returned (some error)

abbrev pub mono_repo_pending_requeue_interval : ℕ
mono_repo_pending_requeue_interval = 5 * second

abbrev pub mono_repo_running_requeue_interval : ℕ
mono_repo_running_requeue_interval = 10 * second

abbrev pub mono_repo_paused_requeue_interval : ℕ
mono_repo_paused_requeue_interval = 60 * second

-- the single assignments to the status
abbrev pub with_mono_phase : MonoPhase → MonoStatus → MonoStatus
with_mono_phase phase b = record b { phase = phase }

abbrev pub with_progress : (MonoProgress → MonoProgress) → MonoStatus → MonoStatus
with_progress f b = record b { progress = f b.progress }

abbrev pub at_step : String → MonoStatus → MonoStatus
at_step step b = with_progress (λ p. record p { current_step = step }) b
