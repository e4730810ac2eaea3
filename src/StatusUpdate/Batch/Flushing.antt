-- ===== src/StatusUpdate/Batch/Flushing.antt =====
-- What Flush tells of the updates that it sends.
use reposhift.Common.{
  ℕ, ◌+◌, ◌≡◌, refl, ap, subst, String, Bool, true, false, Option, none, some, List, [], ◌∷◌,
  count_if, arith,
}
use reposhift.Common.Int.{pos, ◌-ℤ◌}
use reposhift.StatusUpdate.{Api, Outcome, update_status_with_retry}
use reposhift.StatusUpdate.Batch.{Pending, Sent, sent_by, sent_one, send_all, flushed, flush}

abbrev pub succeeds : Option String → Bool
succeeds none = true
succeeds (some error) = false

-- the last error of some calls, if any failed; `before` is that of the calls before
abbrev pub last_failure : (before : Option String) → List (Option String) → Option String
last_failure before [] = before
last_failure before (none ∷ rest) = last_failure before rest
last_failure before (some error ∷ rest) = last_failure (some error) rest

module _ (a : Api) where
  -- the errors of updating one object after another, and the world that this leaves
  unfoldable pub errors_of : Pending a → a.World → List (Option String)
  errors_of [] w = []
  errors_of ((key, o) ∷ rest) w =
      let r = update_status_with_retry a 3 o w in r.error ∷ errors_of rest r.world

  -- the sums over the calls before and the calls that follow
  record Tells (s t : Sent a) (errors : List (Option String)) : Type 0 where
    error_lem : t.last_error ≡ last_failure s.last_error errors
    success_lem : t.success_count ≡ s.success_count + count_if succeeds errors

  sent_one-Tells :
      (r : Outcome a.World) (s t : Sent a) (errors : List (Option String))
      → Tells (sent_one a r s) t errors
      → Tells s t (r.error ∷ errors)
  unfolding sent_one sent_by
  sent_one-Tells r s t errors h = by_error r.error h
    where
      by_error :
          (error : Option String)
          → Tells (sent_by a error r.world s) t errors
          → Tells s t (error ∷ errors)
      by_error none h = record {
        error_lem = h.error_lem;
        success_lem = omega (arith, h.success_lem);
      }
      by_error (some x) h = record {
        error_lem = h.error_lem;
        success_lem = omega (arith, h.success_lem);
      }

  world-sent_one : (r : Outcome a.World) (s : Sent a) → (sent_one a r s).world ≡ r.world
  unfolding sent_one sent_by
  world-sent_one r s = by_error r.error
    where
      by_error : (error : Option String) → (sent_by a error r.world s).world ≡ r.world
      by_error none = refl
      by_error (some x) = refl

  send_all-Tells : (l : Pending a) (s : Sent a) → Tells s (send_all a l s) (errors_of l s.world)
  unfolding send_all errors_of
  send_all-Tells [] s = record { error_lem = refl; success_lem = omega arith }
  send_all-Tells ((key, o) ∷ rest) s =
      let r = update_status_with_retry a 3 o s.world in
      let next = sent_one a r s in
      sent_one-Tells r s (send_all a rest next) (errors_of rest r.world) (
        subst (λ (w : a.World). Tells next (send_all a rest next) (errors_of rest w))
          (world-sent_one r s) (send_all-Tells rest next))

  -- A flush of updates that are pending returns the last error of updating the objects one after
  -- another, so none exactly if all succeed; it forgets the objects whose update failed with the
  -- others; and the number of failures that it logs is minus the number of successes.
  pub flush-errors_of :
      (p : String × a.Object) (rest : Pending a) (w : a.World)
      → ((flush a (p ∷ rest) w).error ≡ last_failure none (errors_of (p ∷ rest) w))
        × ((flush a (p ∷ rest) w).pending ≡ [])
        × ((flush a (p ∷ rest) w).logged_failed
            ≡ some (pos 0 -ℤ pos (count_if succeeds (errors_of (p ∷ rest) w))))
  unfolding flush flushed
  flush-errors_of p rest w =
      let start : Sent a = record { last_error = none; success_count = 0; world = w } in
      let t = send_all-Tells (p ∷ rest) start in
      let successes : (send_all a (p ∷ rest) start).success_count
          ≡ count_if succeeds (errors_of (p ∷ rest) w) =
        omega (arith, t.success_lem) in
      (t.error_lem, refl, ap (λ (n : ℕ). some (pos 0 -ℤ pos n)) successes)
