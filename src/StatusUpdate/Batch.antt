-- ===== src/StatusUpdate/Batch.antt =====
-- StatusBatcher: updates staged by the object's key, and sent together. The map is a list of keys
-- and objects, each key once, met in the order of the list.
pub mod Flushing
use reposhift.Common.{
  ℕ, suc, ◌≡◌, refl, String, Bool, true, false, Option, none, some, List, [], ◌∷◌, str_eq, eq_iff,
  arith, if◌then◌else◌, length,
}
use reposhift.Common.Int.{ℤ, pos, ◌-ℤ◌}
use reposhift.StatusUpdate.{Api, Outcome, update_status_with_retry}

module _ (a : Api) where
  abbrev pub Pending : Type 0
  Pending = List (String × a.Object)

  unfoldable pub put : String → a.Object → Pending → Pending
  put key o [] = (key, o) ∷ []
  put key o ((k, p) ∷ rest) = if str_eq k key then (key, o) ∷ rest else (k, p) ∷ put key o rest

  unfoldable stage : a.Object → Pending → Pending
  unfolding put
  stage o pending = put (a.key o) o pending

  unfoldable has_pending : Pending → Bool
  has_pending [] = false
  has_pending (p ∷ rest) = true

  -- the last error, the number of successes, and the world
  record Sent : Type 0 where
    pub last_error : Option String
    pub success_count : ℕ
    pub world : a.World

  unfoldable sent_by : Option String → a.World → Sent → Sent
  sent_by none w s = record s { success_count = suc s.success_count; world = w }
  sent_by (some error) w s = record s { last_error = some error; world = w }

  unfoldable sent_one : Outcome a.World → Sent → Sent
  unfolding sent_by
  sent_one r s = sent_by r.error r.world s

  unfoldable send_all : Pending → Sent → Sent
  unfolding sent_one
  send_all [] s = s
  send_all ((key, o) ∷ rest) s = send_all rest (sent_one (update_status_with_retry a 3 o s.world) s)

  -- What Flush leaves: the error, the pending updates, the count of failures that it logs, and the
  -- world.
  pub record Flushed : Type 0 where
    pub error : Option String
    pub pending : Pending
    pub logged_failed : Option ℤ
    pub world : a.World

  -- the failures are counted after the pending updates are cleared
  unfoldable flushed : Sent → Flushed
  flushed s = record {
    error = s.last_error;
    pending = [];
    logged_failed = some (pos (length {A = String × a.Object} []) -ℤ pos s.success_count);
    world = s.world;
  }

  unfoldable pub flush : Pending → a.World → Flushed
  unfolding flushed send_all
  flush [] w = record { error = none; pending = []; logged_failed = none; world = w }
  flush (p ∷ rest) w =
      flushed (send_all (p ∷ rest) (record { last_error = none; success_count = 0; world = w }))

  unfoldable clear : Pending → Pending
  clear pending = []
