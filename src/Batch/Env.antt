-- ===== src/Batch/Env.antt =====
-- What the batch controller takes from outside: the clock, the random source, the API server, the
-- secrets and the migration service. `World` is all that these read and change.
use reposhift.Common.{ℕ, String, Option, List, Floats}
use reposhift.Common.Result.{Result}
use reposhift.Common.Int.{ℤ}
use reposhift.Batch.Types.{Spec, Status, MigrationResource}

pub data Fetched : Type 0 where
  found : Spec → Status → Fetched
  not_found : Fetched
  get_error : String → Fetched

pub record Env : Type 1 where
  pub floats : Floats
  pub World : Type 0
  -- time.Now()
  pub now : World → ℕ × World
  -- rand.Float64()
  pub rand : World → floats.Float × World
  -- client.Get of the BatchMigration
  pub get : World → Fetched
  -- Status().Update
  pub status_update : World → Status → Option String × World
  -- client.Get of a Secret, by namespace and name: its data
  pub get_secret : World → String → String → Result (String → Option String)
  -- MigrationService.MigrateRepository, with the two tokens
  pub migrate_repository :
      World → Spec → MigrationResource → String → String → Option String × World
  -- fmt's %d
  pub format_int : ℕ → String
  -- r.WorkerID
  pub worker_id : String

-- The reconciler's state in one call: the world, its copy of the status, and the reasons of the
-- events that it has recorded, latest first.
pub record St (W : Type 0) : Type 0 where
  pub world : W
  pub status : Status
  pub events : List String

-- ctrl.Result, of which the batch controller sets RequeueAfter alone, with the error; or a panic
pub data Outcome : Type 0 where
  returns : (requeue_after : ℤ) → Option String → Outcome
  panics : Outcome
