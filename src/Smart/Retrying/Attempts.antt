-- ===== src/Smart/Retrying/Attempts.antt =====
-- How often the operation runs, and what a success says.
use reposhift.Common.{
  ℕ, zero, suc, ◌+◌, ◌≤◌, ◌≡◌, refl, ◌∙◌, String, Bool, true, false, Option, none, some, arith,
  Bool-cases, inl, inr, leb, not,
}
use reposhift.Smart.Matching.{is_retryable_error}
use reposhift.Smart.Retrying.{
  Attempt, max_retries, or_stop, after_operation, after_error, run_operation, one_attempt,
  attempts_from, execute_with_smart_retry,
}

-- An account of the state: how often the operation has run, and whether it has succeeded.
pub record Account (a : Attempt) : Type 0 where
  pub runs : a.World → ℕ
  pub succeeded : a.World → Bool
  pub wait_keeps :
      (w : a.World) → (runs (a.wait w).1 ≡ runs w) × (succeeded (a.wait w).1 ≡ succeeded w)
  pub pause_keeps :
      (n : ℕ) (w : a.World)
      → (runs (a.pause n w).1 ≡ runs w) × (succeeded (a.pause n w).1 ≡ succeeded w)
  pub counts : (w : a.World) → runs (a.operation w).1 ≡ runs w + 1
  pub on_success : (w : a.World) → (a.operation w).0 ≡ none → succeeded (a.operation w).1 ≡ true
  pub on_error :
      (w : a.World) (e : String)
      → (a.operation w).0 ≡ some e
      → succeeded (a.operation w).1 ≡ succeeded w

-- The result says `none` exactly where the operation has succeeded.
abbrev pub agrees : Option String → Bool → Bool
agrees none b = b
agrees (some e) b = not b

module _ (a : Attempt) (c : Account a) where
  -- what holds of an end of the loop with `k` rounds left at the beginning
  record Sound (k : ℕ) (w : a.World) (r : Option String × a.World) : Type 0 where
    pub runs_le : c.runs r.1 ≤ c.runs w + k
    pub agreement : agrees r.0 (c.succeeded r.1) ≡ true

  stopped : (k : ℕ) (w : a.World) (e : String) → c.succeeded w ≡ false → Sound k w (some e, w)
  stopped k w e f = record { runs_le = omega arith; agreement = rw f refl }

  or_stop-Sound :
      (k : ℕ) (o : Option String) (rest : a.World → Option String × a.World) (w : a.World)
      → Sound k w (rest w)
      → c.succeeded w ≡ false
      → Sound k w (or_stop o rest w)
  unfolding or_stop
  or_stop-Sound k none rest w h f = h
  or_stop-Sound k (some e) rest w h f = stopped k w e f

  -- to an account of the state before
  shift :
      (k n : ℕ) (w w' : a.World) (r : Option String × a.World)
      → c.runs w' + k ≤ c.runs w + n
      → Sound k w' r
      → Sound n w r
  shift k n w w' r h s = record { runs_le = omega (arith, s.runs_le); agreement = s.agreement }

  module _ (k attempt : ℕ) (rest : a.World → Option String × a.World)
      (next : (w : a.World) → c.succeeded w ≡ false → Sound k w (rest w)) where
    after_error-Sound :
        (e : String) (w : a.World)
        → c.succeeded w ≡ false
        → Sound k w (after_error a attempt rest e w)
    unfolding after_error
    after_error-Sound e w f = elim (Bool-cases (not (is_retryable_error e))) [
      | inl terminal ↦ rw terminal (stopped k w _ f)
      | inr again ↦ elim (Bool-cases (leb max_retries attempt)) [
        | inl last ↦ rw (again, last) (stopped k w _ f)
        | inr more ↦
            let (r, s) = c.pause_keeps attempt w in
            let fresh = s ∙ f in
            rw (again, more)
              (shift k k w _ _ (omega arith)
                (or_stop-Sound k (a.pause attempt w).0 rest _ (next _ fresh) fresh))
      ]
    ]

    after_operation-Sound :
        (o : Option String) (w w' : a.World)
        → c.runs w' ≡ c.runs w + 1
        → (o ≡ none → c.succeeded w' ≡ true)
        → ((e : String) → o ≡ some e → c.succeeded w' ≡ false)
        → Sound (suc k) w (after_operation a attempt rest o w')
    unfolding after_operation
    after_operation-Sound none w w' r t f = record { runs_le = omega arith; agreement = t refl }
    after_operation-Sound (some e) w w' r t f =
        shift k (suc k) w w' _ (omega arith) (after_error-Sound e w' (f e refl))

    run_operation-Sound :
        (w : a.World) → c.succeeded w ≡ false → Sound (suc k) w (run_operation a attempt rest w)
    unfolding run_operation
    run_operation-Sound w f =
        after_operation-Sound (a.operation w).0 w (a.operation w).1 (c.counts w) (c.on_success w)
          (λ e p. c.on_error w e p ∙ f)

    one_attempt-Sound :
        (w : a.World) → c.succeeded w ≡ false → Sound (suc k) w (one_attempt a attempt rest w)
    unfolding one_attempt
    one_attempt-Sound w f = elim (Bool-cases (a.is_open w)) [
      | inl open_breaker ↦ rw open_breaker (stopped (suc k) w _ f)
      | inr closed ↦
          let (r, s) = c.wait_keeps w in
          let fresh = s ∙ f in
          rw closed (
            shift (suc k) (suc k) w _ _ (omega arith) (
              or_stop-Sound (suc k) _ (run_operation a attempt rest) _ (run_operation-Sound _ fresh)
                fresh))
    ]

  attempts_from-Sound :
      (k attempt : ℕ) (w : a.World)
      → c.succeeded w ≡ false
      → Sound k w (attempts_from a k attempt w)
  unfolding attempts_from
  attempts_from-Sound zero attempt w f = stopped zero w _ f
  attempts_from-Sound (suc k) attempt w f =
      one_attempt-Sound k attempt (λ w'. attempts_from a k (attempt + 1) w')
        (λ w' f'. attempts_from-Sound k (attempt + 1) w' f') w f

  -- The operation runs at most six times, and the retry loop returns no error exactly if a run of
  -- the operation has succeeded, given that none had before.
  pub execute_with_smart_retry_sound :
      (w : a.World)
      → c.succeeded w ≡ false
      → (c.runs (execute_with_smart_retry a w).1 ≤ c.runs w + 6)
        × (agrees (execute_with_smart_retry a w).0 (c.succeeded (execute_with_smart_retry a w).1)
            ≡ true)
  unfolding execute_with_smart_retry
  execute_with_smart_retry_sound w f =
      let s = attempts_from-Sound 6 0 w f in (s.runs_le, s.agreement)
