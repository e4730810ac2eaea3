-- ===== src/StatusUpdate/Lost.antt =====
-- What reaches the API server when the first update meets a conflict.
use reposhift.Common.{ℕ, zero, suc, ◌*◌, ◌≡◌, ◌⊎◌, inl, inr, refl, ◌∙◌, String, Option, some}
use reposhift.StatusUpdate.{
  Fetched, fresh, gone, unread, Answer, saved, conflict, refused, Api, Outcome, answered,
  update_round, refreshed, update_from, update_status_with_retry,
}

-- The documented behaviour of the API server for one object: a fetch gives what is stored, an
-- update that conflicts leaves it, and any other stores what it is sent or leaves it.
pub record Server (a : Api) : Type 0 where
  pub stored : a.World → a.Object
  pub stored-sleep : (w : a.World) (t : ℕ) → stored (a.sleep w t) ≡ stored w
  pub stored-get : (w : a.World) (o : a.Object) → stored (a.get w o).1 ≡ stored w
  pub get-stored :
      (w : a.World) (o n : a.Object) → (a.get w o).0 ≡ fresh n → n ≡ stored (a.get w o).1
  pub stored-conflict :
      (w : a.World) (o : a.Object) (x : String)
      → (a.status_update w o).0 ≡ conflict x
      → stored (a.status_update w o).1 ≡ stored w
  pub stored-status_update :
      (w : a.World) (o : a.Object)
      → (stored (a.status_update w o).1 ≡ o) ⊎ (stored (a.status_update w o).1 ≡ stored w)

module _ (a : Api) (server : Server a) where
  -- an update of what is stored leaves it
  same_update :
      (w : a.World) (o : a.Object)
      → o ≡ server.stored w
      → server.stored (a.status_update w o).1 ≡ server.stored w
  same_update w o h = elim (server.stored-status_update w o) [ inl p ↦ p ∙ h | inr p ↦ p ]

  -- the rounds that follow leave the stored object
  abbrev KeepsStored : (a.Object → a.World → Option String → Outcome a.World) → Type 0
  KeepsStored again =
      (o : a.Object) (w : a.World) (last : Option String)
      → server.stored (again o w last).world ≡ server.stored w

  answered-same :
      (x : Answer) (o : a.Object) (w : a.World)
      (again : a.Object → a.World → Option String → Outcome a.World)
      → KeepsStored again
      → server.stored (answered a x w (again o w)).world ≡ server.stored w
  unfolding answered
  answered-same saved o w again k = refl
  answered-same (conflict x) o w again k = k o w (some x)
  answered-same (refused x) o w again k = refl

  refreshed-same :
      (f : Fetched a.Object) (w : a.World)
      (again : a.Object → a.World → Option String → Outcome a.World)
      → ((n : a.Object) → f ≡ fresh n → n ≡ server.stored w)
      → KeepsStored again
      → server.stored (refreshed a f w again).world ≡ server.stored w
  unfolding refreshed update_round
  refreshed-same (fresh o) w again h k = answered-same _ o _ again k ∙ same_update w o (h o refl)
  refreshed-same gone w again h k = refl
  refreshed-same (unread x) w again h k = refl

  update_from-same : (n k : ℕ) → KeepsStored (update_from a n (suc k))
  unfolding update_from
  update_from-same zero k o w last = refl
  update_from-same (suc n) k o w last =
      let slept = a.sleep w (suc k * suc k * 100) in
      refreshed-same (a.get slept o).0 (a.get slept o).1 (update_from a n (suc (suc k)))
        (λ m h. server.get-stored slept o m h) (update_from-same n (suc k))
      ∙ server.stored-get slept o
      ∙ server.stored-sleep w (suc k * suc k * 100)

  first_round :
      (n : ℕ) (x : Answer) (y : String) (o : a.Object) (w : a.World)
      → x ≡ conflict y
      → server.stored (answered a x w (update_from a n 1 o w)).world ≡ server.stored w
  unfolding answered
  first_round n x y o w h = rw h (update_from-same n 0 o w (some y))

  -- If the first update meets a conflict, the call leaves the stored object as it was, however
  -- many retries it makes and whatever they answer: each retry sends what it has just fetched.
  pub update_status_with_retry-conflict :
      (max_retries : ℕ) (o : a.Object) (w : a.World) (x : String)
      → (a.status_update w o).0 ≡ conflict x
      → server.stored (update_status_with_retry a max_retries o w).world ≡ server.stored w
  unfolding update_status_with_retry update_from update_round
  update_status_with_retry-conflict zero o w x h = refl
  update_status_with_retry-conflict (suc n) o w x h =
      first_round n (a.status_update w o).0 x o (a.status_update w o).1 h
      ∙ server.stored-conflict w o x h
