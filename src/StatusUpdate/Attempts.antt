-- ===== src/StatusUpdate/Attempts.antt =====
-- How many updates a call sends to the API server.
use reposhift.Common.{ℕ, zero, suc, ◌+◌, ◌*◌, ◌≤◌, ◌≡◌, refl, String, Option, none, some, arith}
use reposhift.StatusUpdate.{
  Fetched, fresh, gone, unread, Answer, saved, conflict, refused, Api, Outcome, answered,
  update_round, refreshed, update_from, update_status_with_retry,
}

-- An API server that counts the status updates that reach it.
pub record Counter (a : Api) : Type 0 where
  pub count : a.World → ℕ
  pub count-sleep : (w : a.World) (t : ℕ) → count (a.sleep w t) ≡ count w
  pub count-get : (w : a.World) (o : a.Object) → count (a.get w o).1 ≡ count w
  pub count-status_update :
      (w : a.World) (o : a.Object) → count (a.status_update w o).1 ≡ suc (count w)

-- the error of a call whose updates all meet the conflict `x`
unfoldable last_conflict : ℕ → String → Option String
last_conflict zero x = none
last_conflict (suc n) x = some x

-- every fetch gives an object, and every update of it meets the conflict `x`
record AlwaysConflicts (a : Api) (x : String) : Type 0 where
  fetched : (w : a.World) (o : a.Object) → (n : a.Object) × ((a.get w o).0 ≡ fresh n)
  conflicting : (w : a.World) (o : a.Object) → (a.status_update w o).0 ≡ conflict x

module _ (a : Api) (counter : Counter a) where
  -- the rounds that follow send a number of updates at most
  abbrev SendsBy : ℕ → (a.Object → a.World → Option String → Outcome a.World) → Type 0
  SendsBy n again =
      (o : a.Object) (w : a.World) (last : Option String)
      → counter.count (again o w last).world ≤ counter.count w + n

  answered-SendsBy :
      (n : ℕ) (x : Answer) (o : a.Object) (w : a.World)
      (again : a.Object → a.World → Option String → Outcome a.World)
      → SendsBy n again
      → counter.count (answered a x w (again o w)).world ≤ counter.count w + n
  unfolding answered
  answered-SendsBy n saved o w again k = omega arith
  answered-SendsBy n (conflict x) o w again k = k o w (some x)
  answered-SendsBy n (refused x) o w again k = omega arith

  update_round-SendsBy :
      (n : ℕ) (o : a.Object) (w : a.World)
      (again : a.Object → a.World → Option String → Outcome a.World)
      → SendsBy n again
      → counter.count (update_round a o w again).world ≤ counter.count w + suc n
  unfolding update_round
  update_round-SendsBy n o w again k =
      let r = a.status_update w o in
      omega (arith, counter.count-status_update w o, answered-SendsBy n r.0 o r.1 again k)

  refreshed-SendsBy :
      (n : ℕ) (f : Fetched a.Object) (w : a.World)
      (again : a.Object → a.World → Option String → Outcome a.World)
      → SendsBy n again
      → counter.count (refreshed a f w again).world ≤ counter.count w + suc n
  unfolding refreshed
  refreshed-SendsBy n (fresh o) w again k = update_round-SendsBy n o w again k
  refreshed-SendsBy n gone w again k = omega arith
  refreshed-SendsBy n (unread x) w again k = omega arith

  update_from-SendsBy : (n k : ℕ) → SendsBy n (update_from a n k)
  unfolding update_from
  update_from-SendsBy zero k o w last = omega arith
  update_from-SendsBy (suc n) zero o w last =
      update_round-SendsBy n o w (update_from a n 1) (update_from-SendsBy n 1)
  update_from-SendsBy (suc n) (suc k) o w last =
      let t = suc k * suc k * 100 in
      let r = a.get (a.sleep w t) o in
      omega (
        arith,
        counter.count-sleep w t,
        counter.count-get (a.sleep w t) o,
        refreshed-SendsBy n r.0 r.1 (update_from a n (suc (suc k)))
            (update_from-SendsBy n (suc (suc k))),
      )

  -- On an API server that counts the status updates it receives, a call sends at most the allowed
  -- number of them, whatever the server answers.
  pub update_status_with_retry_le :
      (max_retries : ℕ) (o : a.Object) (w : a.World)
      → counter.count (update_status_with_retry a max_retries o w).world
        ≤ counter.count w + max_retries
  unfolding update_status_with_retry
  update_status_with_retry_le max_retries o w = update_from-SendsBy max_retries 0 o w none

  module _ (x : String) (always : AlwaysConflicts a x) where
    refreshed-conflict :
        (f : Fetched a.Object) (w : a.World)
        (again : a.Object → a.World → Option String → Outcome a.World)
        → ((n : a.Object) × (f ≡ fresh n))
        → (o : a.Object) × (refreshed a f w again ≡ again o (a.status_update w o).1 (some x))
    unfolding refreshed update_round answered
    refreshed-conflict (fresh o) w again h = (o, rw (always.conflicting w o) refl)
    refreshed-conflict gone w again (n, h) = absurd (cc h)
    refreshed-conflict (unread y) w again (n, h) = absurd (cc h)

    update_from-conflict :
        (n k : ℕ) (o : a.Object) (w : a.World)
        → (counter.count (update_from a n (suc k) o w (some x)).world ≡ counter.count w + n)
          × ((update_from a n (suc k) o w (some x)).error ≡ some x)
    unfolding update_from
    update_from-conflict zero k o w = (omega arith, refl)
    update_from-conflict (suc n) k o w =
        let t = suc k * suc k * 100 in
        let slept = a.sleep w t in
        let r = a.get slept o in
        let (p, eq) =
          refreshed-conflict r.0 r.1 (update_from a n (suc (suc k))) (always.fetched slept o) in
        let (c, d) = update_from-conflict n (suc k) p (a.status_update r.1 p).1 in
        rw eq (
          omega (
            arith,
            c,
            counter.count-sleep w t,
            counter.count-get slept o,
            counter.count-status_update r.1 p,
          ),
          d,
        )

    -- If every update meets a conflict, a call sends exactly the allowed number of updates and
    -- returns the conflict; with none allowed it sends nothing and returns no error.
    update_status_with_retry-AlwaysConflicts :
        (max_retries : ℕ) (o : a.Object) (w : a.World)
        → (counter.count (update_status_with_retry a max_retries o w).world
            ≡ counter.count w + max_retries)
          × ((update_status_with_retry a max_retries o w).error ≡ last_conflict max_retries x)
    unfolding update_status_with_retry update_from update_round answered last_conflict
    update_status_with_retry-AlwaysConflicts zero o w = (omega arith, refl)
    update_status_with_retry-AlwaysConflicts (suc n) o w =
        let (c, d) = update_from-conflict n 0 o (a.status_update w o).1 in
        rw (always.conflicting w o) (omega (arith, c, counter.count-status_update w o), d)
