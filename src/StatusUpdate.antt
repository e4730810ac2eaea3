-- ===== src/StatusUpdate.antt =====
-- internal/controller/status.go: status updates with retries on conflict, and batches of them.
pub mod Lost
pub mod Attempts
pub mod Batch
mod Examples
use reposhift.Common.{
  ℕ, zero, suc, ◌+◌, ◌*◌, String, Bool, true, false, Option, none, some, List, [], ◌∷◌,
}

-- client.Get of an object by its key
pub data Fetched (Object : Type 0) : Type 0 where
  fresh : Object → Fetched Object
  gone : Fetched Object
  unread : String → Fetched Object

-- Status().Update
pub data Answer : Type 0 where
  saved : Answer
  conflict : String → Answer
  refused : String → Answer

-- What the updater takes from outside: the API server and time.
pub record Api : Type 1 where
  pub World : Type 0
  pub Object : Type 0
  -- client.ObjectKeyFromObject
  pub key : Object → String
  pub get : World → Object → Fetched Object × World
  pub status_update : World → Object → Answer × World
  -- time.Sleep, in milliseconds
  pub sleep : World → ℕ → World

-- what a call gives: its error, and the world
pub record Outcome (W : Type 0) : Type 0 where
  pub error : Option String
  pub world : W

module _ (a : Api) where
  -- One update, and what follows: `again` is the next round, after a conflict.
  unfoldable pub answered :
      Answer → a.World → (again : Option String → Outcome a.World) → Outcome a.World
  answered saved w again = record { error = none; world = w }
  answered (conflict error) w again = again (some error)
  answered (refused error) w again = record { error = some error; world = w }

  unfoldable pub update_round :
      a.Object
      → a.World
      → (again : a.Object → a.World → Option String → Outcome a.World) → Outcome a.World
  unfolding answered
  update_round o w again = let r = a.status_update w o in answered r.0 r.1 (again o r.1)

  -- a round after the first: the object is fetched again before it is sent
  unfoldable pub refreshed :
      Fetched a.Object
      → a.World
      → (again : a.Object → a.World → Option String → Outcome a.World) → Outcome a.World
  unfolding update_round
  refreshed (fresh o) w again = update_round o w again
  refreshed gone w again = record { error = none; world = w }
  refreshed (unread error) w again = record { error = some error; world = w }

  -- the rounds that are left, from an attempt on; the first does not wait and does not fetch
  unfoldable pub update_from :
      (rounds attempt : ℕ) → a.Object → a.World → (last : Option String) → Outcome a.World
  unfolding update_round refreshed
  update_from zero attempt o w last = record { error = last; world = w }
  update_from (suc n) zero o w last = update_round o w (update_from n 1)
  update_from (suc n) (suc k) o w last =
      let r = a.get (a.sleep w (suc k * suc k * 100)) o in
      refreshed r.0 r.1 (update_from n (suc (suc k)))

  unfoldable pub update_status_with_retry : (max_retries : ℕ) → a.Object → a.World → Outcome a.World
  unfolding update_from
  update_status_with_retry max_retries o w = update_from max_retries 0 o w none

  -- "For now, we'll always update if called"
  unfoldable update_status_if_changed : (old new : a.Object) → a.World → Outcome a.World
  unfolding update_status_with_retry
  update_status_if_changed old new w = update_status_with_retry 3 new w

  -- the error is logged only
  unfoldable safe_status_update : a.Object → a.World → a.World
  unfolding update_status_with_retry
  safe_status_update o w = (update_status_with_retry 3 o w).world
