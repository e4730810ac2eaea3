-- ===== src/Batch/Action.antt =====
-- Actions of the batch reconciler: functions of the state in one call, with the primitive ones.
use reposhift.Common.{ℕ, String, Option, ◌∷◌}
use reposhift.Batch.Types.{Status}
use reposhift.Batch.Env.{Env, St}

abbrev pub M : Type 0 → Type 0 → Type 0
M W A = St W → A × St W

infixl 5 ◌>>=◌ ◌>>◌
abbrev pub ◌>>=◌ : {W A B : Type 0} → M W A → (A → M W B) → M W B
◌>>=◌ m f s = f (m s).0 (m s).1

abbrev pub ◌>>◌ : {W A B : Type 0} → M W A → M W B → M W B
◌>>◌ m n s = n (m s).1

abbrev pub pure : {W A : Type 0} → A → M W A
pure a s = (a, s)

abbrev pub gets : {W A : Type 0} → (Status → A) → M W A
gets f s = (f s.status, s)

abbrev pub modify : {W : Type 0} → (Status → Status) → M W (Unit {0})
modify f s = (tt, record s { status = f s.status })

-- r.Recorder.Event, by its reason
abbrev pub event : {W : Type 0} → String → M W (Unit {0})
event reason s = (tt, record s { events = reason ∷ s.events })

module _ (e : Env) where
  abbrev pub now : M e.World ℕ
  now s = let (t, w) = e.now s.world in (t, record s { world = w })

  abbrev pub rand : M e.World e.floats.Float
  rand s = let (x, w) = e.rand s.world in (x, record s { world = w })

  -- r.Status().Update(ctx, batch)
  abbrev pub update : M e.World (Option String)
  update s = let (error, w) = e.status_update s.world s.status in (error, record s { world = w })
