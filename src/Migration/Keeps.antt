-- ===== src/Migration/Keeps.antt =====
-- Invariants of the reconciler's actions, one rule for each way to build an action.
pub mod Tokens
pub mod Code
pub mod Returns
use reposhift.Common.{
  ℕ, String, Bool, true, false, Option, none, some, List, ◌≡◌, ◌≢◌, refl, sym, subst,
}
use reposhift.Common.Result.{Result, ok, err, wrap}
use reposhift.Migration.Types.{Condition, Migration, MigrationStatus}
use reposhift.Migration.Env.{
  Env, St, Request, Response, Outcome, panics, Updated, updated, gone, rejected,
}
use reposhift.Migration.Action.{
  M, ◌>>=◌, ◌>>◌, pure, gets, modify, edit, event, now, ask, update, kept, status_update,
  send_web_socket_update,
}
use reposhift.Migration.Action.Fallible
use reposhift.Migration.Conditions.{set_condition, condition_at, with_condition, put_condition}

pub record Keeps {W A : Type 0} (I : St W → Type 0) (m : M W A) : Type 0 where
  pub at : (s : St W) → I s → I (m s).1

-- It keeps the invariant and does not panic.
pub record Ends {W : Type 0} (I : St W → Type 0) (m : M W Outcome) : Type 0 where
  pub at : (s : St W) → I s → ((m s).0 ≢ panics) × I (m s).1

-- The same for an action that may give no outcome.
pub record EndsIf {W : Type 0} (I : St W → Type 0) (m : M W (Option Outcome)) : Type 0 where
  pub at : (s : St W) → I s → ((m s).0 ≢ some panics) × I (m s).1

module _ {W : Type 0} {I : St W → Type 0} where
  pub Keeps-pure : {A : Type 0} (a : A) → Keeps I (pure a)
  unfolding pure
  Keeps-pure a = record { at = λ s h. h }

  pub Keeps-gets : {A : Type 0} (f : Migration → A) → Keeps I (gets f)
  unfolding gets
  Keeps-gets f = record { at = λ s h. h }

  pub Ends-pure : (o : Outcome) → o ≢ panics → Ends I (pure o)
  unfolding pure
  Ends-pure o n = record { at = λ s h. (n, h) }

module _ {W A B : Type 0} {I : St W → Type 0} where
  pub Keeps-bind :
      (m : M W A) (f : A → M W B) → Keeps I m → ((a : A) → Keeps I (f a)) → Keeps I (m >>= f)
  unfolding ◌>>=◌
  Keeps-bind m f k g = record { at = λ s h. (g (m s).0).at (m s).1 (k.at s h) }

  pub Keeps-then : (m : M W A) (n : M W B) → Keeps I m → Keeps I n → Keeps I (m >> n)
  unfolding ◌>>◌
  Keeps-then m n k l = record { at = λ s h. l.at (m s).1 (k.at s h) }

module _ {W A : Type 0} {I : St W → Type 0} where
  pub Ends-bind :
      (m : M W A) (f : A → M W Outcome) → Keeps I m → ((a : A) → Ends I (f a)) → Ends I (m >>= f)
  unfolding ◌>>=◌
  Ends-bind m f k g = record { at = λ s h. (g (m s).0).at (m s).1 (k.at s h) }

  pub Ends-then : (m : M W A) (n : M W Outcome) → Keeps I m → Ends I n → Ends I (m >> n)
  unfolding ◌>>◌
  Ends-then m n k l = record { at = λ s h. l.at (m s).1 (k.at s h) }

-- From one property of the state to another.
pub record Leads {W A : Type 0} (I J : St W → Type 0) (m : M W A) : Type 0 where
  pub at : (s : St W) → I s → J (m s).1

pub Leads-keeps : {W A : Type 0} {I : St W → Type 0} {m : M W A} → Keeps I m → Leads I I m
Leads-keeps k = record { at = k.at }

module _ {W A B : Type 0} {I J K : St W → Type 0} where
  pub Leads-bind :
      (m : M W A) (f : A → M W B) → Leads I J m → ((a : A) → Leads J K (f a)) → Leads I K (m >>= f)
  unfolding ◌>>=◌
  Leads-bind m f k g = record { at = λ s h. (g (m s).0).at (m s).1 (k.at s h) }

  pub Leads-then : (m : M W A) (n : M W B) → Leads I J m → Leads J K n → Leads I K (m >> n)
  unfolding ◌>>◌
  Leads-then m n k l = record { at = λ s h. l.at (m s).1 (k.at s h) }

module _ {W A B : Type 0} {I : St W → Type 0} where
  continue-keeps :
      (r : Result A) (f : A → M W (Result B))
      → ((a : A) → Keeps I (f a))
      → (s : St W) → I s
      → I (Fallible.continue r f s).1
  continue-keeps (ok a) f g s h = (g a).at s h
  continue-keeps (err x) f g s h = h

  pub Keeps-try :
      (m : M W (Result A)) (f : A → M W (Result B))
      → Keeps I m
      → ((a : A) → Keeps I (f a))
      → Keeps I (Fallible.◌>>=◌ m f)
  unfolding Fallible.◌>>=◌
  Keeps-try m f k g = record { at = λ s h. continue-keeps (m s).0 f g (m s).1 (k.at s h) }

  pub Keeps-try_then :
      (m : M W (Result A)) (n : M W (Result B))
      → Keeps I m
      → Keeps I n
      → Keeps I (Fallible.◌>>◌ m n)
  unfolding Fallible.◌>>◌
  Keeps-try_then m n k l = record {
    at = λ s h. continue-keeps (m s).0 (λ a. n) (λ a. l) (m s).1 (k.at s h);
  }

module _ {W A : Type 0} {I : St W → Type 0} where
  pub Keeps-lift : (r : Result A) → Keeps I (Fallible.lift r)
  unfolding Fallible.lift
  Keeps-lift r = record { at = λ s h. h }

  pub Keeps-ok : (a : A) → Keeps I (Fallible.pure a)
  unfolding Fallible.pure
  Keeps-ok a = record { at = λ s h. h }

  pub Keeps-asking : (m : M W A) → Keeps I m → Keeps I (Fallible.asking m)
  unfolding Fallible.asking
  Keeps-asking m k = record { at = k.at }

  pub Keeps-wrapping :
      (prefix : String) (m : M W (Result A)) → Keeps I m → Keeps I (Fallible.wrapping prefix m)
  unfolding Fallible.wrapping
  Keeps-wrapping prefix m k = record { at = k.at }

-- A property of the status held by the reconciler, with one of the world.
pub record Inv {W : Type 0} (V : MigrationStatus → Type 0) (P : W → Type 0) (s : St W)
    : Type 0 where
  pub world : P s.world
  pub valid : V s.migration.status

-- What the world keeps: nothing but updates reach the stored object, and an update of the status
-- stores a status with the property.
pub record Stable (e : Env) (V : MigrationStatus → Type 0) (P : e.World → Type 0) : Type 0 where
  pub now : (w : e.World) → P w → P (e.now w).1
  pub ask : (q : Request) (w : e.World) → P w → P (e.ask q w).1
  pub status_update : (w : e.World) (m : Migration) → V m.status → P w → P (e.status_update w m).1

-- An update of the metadata answers with a status that has the property.
pub record Answers (e : Env) (V : MigrationStatus → Type 0) (P : e.World → Type 0) : Type 0 where
  pub update : (w : e.World) (m : Migration) → P w → P (e.update w m).1
  pub update-status :
      (w : e.World) (m n : Migration) → P w → (e.update w m).0 ≡ updated n → V n.status

pub Stable-weaken :
    (e : Env) (V U : MigrationStatus → Type 0) (P : e.World → Type 0)
    → ((b : MigrationStatus) → U b → V b)
    → Stable e V P
    → Stable e U P
Stable-weaken e V U P h k = record {
  now = k.now;
  ask = k.ask;
  status_update = λ w m u p. k.status_update w m (h _ u) p;
}

-- a property that does not look at the conditions
abbrev pub IgnoresConditions : (MigrationStatus → Type 0) → Type 0
IgnoresConditions V =
    (b : MigrationStatus) (l : List Condition) → V b → V (record b { conditions = l })

module _ (e : Env) {V : MigrationStatus → Type 0} {P : e.World → Type 0} where
  pub Keeps-event : (reason : String) → Keeps {W = e.World} (Inv V P) (event reason)
  unfolding event
  Keeps-event reason = record { at = λ s i. record { world = i.world; valid = i.valid } }

  pub Keeps-send : (message : String) → Keeps (Inv V P) (send_web_socket_update e message)
  unfolding send_web_socket_update
  Keeps-send message = record { at = λ s i. record { world = i.world; valid = i.valid } }

  pub Keeps-modify :
      (f : MigrationStatus → MigrationStatus)
      → ((b : MigrationStatus) → V b → V (f b))
      → Keeps {W = e.World} (Inv V P) (modify f)
  unfolding modify
  Keeps-modify f v = record { at = λ s i. record { world = i.world; valid = v _ i.valid } }

  pub Keeps-edit :
      (f : Migration → Migration)
      → ((m : Migration) → (f m).status ≡ m.status)
      → Keeps {W = e.World} (Inv V P) (edit f)
  unfolding edit
  Keeps-edit f same = record {
    at = λ s i. record { world = i.world; valid = subst V (sym (same s.migration)) i.valid };
  }

module _ (e : Env) {V : MigrationStatus → Type 0} {P : e.World → Type 0} (k : Stable e V P) where
  pub Keeps-now : Keeps (Inv V P) (now e)
  unfolding now
  Keeps-now = record { at = λ s i. record { world = k.now _ i.world; valid = i.valid } }

  pub Keeps-ask : (q : Request) → Keeps (Inv V P) (ask e q)
  unfolding ask
  Keeps-ask q = record { at = λ s i. record { world = k.ask q _ i.world; valid = i.valid } }

  pub Keeps-status_update : Keeps (Inv V P) (status_update e)
  unfolding status_update
  Keeps-status_update = record {
    at = λ s i. record { world = k.status_update _ _ i.valid i.world; valid = i.valid };
  }

  pub Keeps-set_condition :
      IgnoresConditions V
      → (type : String) (status : Bool) (reason message : String)
      → Keeps (Inv V P) (set_condition e type status reason message)
  unfolding set_condition condition_at with_condition ◌>>=◌ now edit
  Keeps-set_condition c type status reason message = record {
    at = λ s i. record { world = k.now _ i.world; valid = c _ _ i.valid };
  }

module _ (e : Env) {V : MigrationStatus → Type 0} {P : e.World → Type 0} (k : Answers e V P) where
  kept-valid :
      (m : Migration) (u : Updated)
      → V m.status
      → ((n : Migration) → u ≡ updated n → V n.status)
      → V (kept u m).status
  kept-valid m (updated n) v h = h n refl
  kept-valid m (gone x) v h = v
  kept-valid m (rejected x) v h = v

  pub Keeps-update : Keeps (Inv V P) (update e)
  unfolding update
  Keeps-update = record {
    at = λ s i. record {
      world = k.update _ _ i.world;
      valid =
          kept-valid s.migration (e.update s.world s.migration).0 i.valid
            (λ n h. k.update-status s.world s.migration n i.world h);
    };
  }
