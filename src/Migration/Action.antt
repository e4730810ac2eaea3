-- ===== src/Migration/Action.antt =====
-- Actions of the migration reconciler: functions of the state in one call, with the primitive ones.
pub mod Fallible
use reposhift.Common.{ℕ, String, Bool, Option, List, true, false, ◌∷◌}
use reposhift.Common.Int.{ℤ, pos}
use reposhift.Migration.Types.{Migration, MigrationStatus}
use reposhift.Migration.Env.{
  Request, Response, Env, St, Notice, web_socket_update, Outcome, returns, Updated, updated, gone,
  rejected,
}
use reposhift.Migration.Env.{event as event_notice}

abbrev pub M : Type 0 → Type 0 → Type 0
M W A = St W → A × St W

module _ {W A B : Type 0} where
  infixl 5 ◌>>=◌ ◌>>◌
  unfoldable pub ◌>>=◌ : M W A → (A → M W B) → M W B
  ◌>>=◌ m f s = f (m s).0 (m s).1

  unfoldable pub ◌>>◌ : M W A → M W B → M W B
  ◌>>◌ m n s = n (m s).1

module _ {W : Type 0} where
  unfoldable pub pure : {A : Type 0} → A → M W A
  pure a s = (a, s)

  unfoldable pub gets : {A : Type 0} → (Migration → A) → M W A
  gets f s = (f s.migration, s)

  unfoldable pub modify : (MigrationStatus → MigrationStatus) → M W (Unit {0})
  modify f s =
      let m = s.migration in (tt, record s { migration = record m { status = f m.status } })

  -- a change of the metadata
  unfoldable pub edit : (Migration → Migration) → M W (Unit {0})
  edit f s = (tt, record s { migration = f s.migration })

  -- r.Recorder.Event, by its reason
  unfoldable pub event : String → M W (Unit {0})
  event reason s = (tt, record s { notices = event_notice reason ∷ s.notices })

-- what the object becomes after an update of its metadata
abbrev pub kept : Updated → Migration → Migration
kept (updated n) m = n
kept (gone error) m = m
kept (rejected error) m = m

abbrev pub told : Bool → String → List Notice → List Notice
told true message notices = web_socket_update message ∷ notices
told false message notices = notices

module _ (e : Env) where
  unfoldable pub now : M e.World ℕ
  now s = ((e.now s.world).0, record s { world = (e.now s.world).1 })

  unfoldable pub ask : (q : Request) → M e.World (Response q)
  ask q s = ((e.ask q s.world).0, record s { world = (e.ask q s.world).1 })

  -- r.Update(ctx, migration): on success the controller's copy is overwritten by the server's
  unfoldable pub update : M e.World Updated
  update s =
      let answer = e.update s.world s.migration in
      (answer.0, record s { world = answer.1; migration = kept answer.0 s.migration })

  -- r.Status().Update(ctx, migration)
  unfoldable pub status_update : M e.World (Option String)
  status_update s =
      let answer = e.status_update s.world s.migration in (answer.0, record s { world = answer.1 })

  -- the payload's phase, progress and time are left out
  unfoldable pub send_web_socket_update : String → M e.World (Unit {0})
  send_web_socket_update message s =
      (tt, record s { notices = told e.has_web_socket_manager message s.notices })

abbrev pub second : ℕ
second = 1000000000

abbrev pub returned : Option String → Outcome
returned error = returns false (pos 0) error

abbrev pub requeued : ℕ → Option String → Outcome
requeued delay error = returns false (pos delay) error
