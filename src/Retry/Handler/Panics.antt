-- ===== src/Retry/Handler/Panics.antt =====
-- When handling a failure panics.
use reposhift.Common.{
  ℕ, zero, suc, ◌+◌, ◌≡◌, refl, sym, ap, ◌∙◌, String, Bool, true, false, not, Option, none, some,
  List, [], ◌∷◌, get_elem?, set, inl, inr, Bool-cases, Option-cases,
}
use reposhift.Common.Int.{ℤ, pos, negsuc}
use reposhift.Retry.Errors.{GoError, is_some}
use reposhift.Retry.Classify.{classify_error}
use reposhift.Retry.Handler.{
  ResourceState, Migration, HandlerEnv, Handled, returned, panicked, at, set_at, answer, announce,
  failed_state, count_failure, handle_terminal_failure, pending_state, handle_retryable_failure,
  should_retry, handle_resource_failure,
}

abbrev pub is_panic : {W : Type 0} → Handled W → Bool
is_panic (returned r e m w) = false
is_panic (panicked m w) = true

-- the object that a call leaves behind
abbrev pub migration_of : {W : Type 0} → Handled W → Migration
migration_of (returned r e m w) = m
migration_of (panicked m w) = m

-- an element that is there can be written and read again
get-set :
    (xs : List ResourceState) (n : ℕ) (s v : ResourceState)
    → get_elem? xs n ≡ some s
    → get_elem? (set xs n v) n ≡ some v
get-set [] n s v h = cc
get-set (x ∷ xs) zero s v h = refl
get-set (x ∷ xs) (suc n) s v h = get-set xs n s v h

at-set_at :
    (xs : List ResourceState) (i : ℤ) (s v : ResourceState)
    → at xs i ≡ some s
    → at (set_at xs i v) i ≡ some v
unfolding at set_at
at-set_at xs (pos n) s v h = get-set xs n s v h
at-set_at xs (negsuc n) s v h = cc

-- A call that returns, and leaves the resource with `p` attempts.
pub record Leaves (i : ℤ) (p attempts : ℕ) (W : Type 0) (h : Handled W) : Type 0 where
  pub returns : is_panic h ≡ false
  pub state : ResourceState
  pub found : at (migration_of h).resource_statuses i ≡ some state
  pub counted : state.progress ≡ p
  pub same : (migration_of h).retry_attempts ≡ attempts

module _ (env : HandlerEnv) (i : ℤ) where
  answer-Leaves :
      (r : ℤ) (m : Migration) (s : ResourceState) (o : Option String × env.World)
      → at m.resource_statuses i ≡ some s
      → Leaves i s.progress m.retry_attempts env.World (answer env r m o)
  answer-Leaves r m s (none, w) h = record {
    returns = refl;
    state = s;
    found = h;
    counted = refl;
    same = refl;
  }
  answer-Leaves r m s (some e, w) h = record {
    returns = refl;
    state = s;
    found = h;
    counted = refl;
    same = refl;
  }

  announce-Leaves :
      (a b c : String) (r : ℤ) (m : Migration) (s : ResourceState) (w : env.World)
      → at m.resource_statuses i ≡ some s
      → Leaves i s.progress m.retry_attempts env.World (announce env a b c r m w)
  unfolding announce
  announce-Leaves a b c r m s w h = answer-Leaves r m s _ h

  pub handle_terminal_failure-Leaves :
      (m : Migration) (target : String) (e : Option GoError) (s : ResourceState) (w : env.World)
      → at m.resource_statuses i ≡ some s
      → Leaves i s.progress m.retry_attempts env.World (handle_terminal_failure env m target i e w)
  unfolding handle_terminal_failure count_failure failed_state
  handle_terminal_failure-Leaves m target e s w h =
      let v = failed_state env (classify_error e) e (env.now w).0 s in
      let h' = at-set_at m.resource_statuses i s v h in
      rw (h, h') (announce-Leaves _ _ _ _ _ v _ h')

  pub handle_retryable_failure-Leaves :
      (m : Migration) (target : String) (e : Option GoError) (r : ℤ) (s : ResourceState)
      (w : env.World)
      → at m.resource_statuses i ≡ some s
      → Leaves i
          (s.progress + 1)
          m.retry_attempts
          env.World
          (handle_retryable_failure env m target i e r w)
  unfolding handle_retryable_failure pending_state
  handle_retryable_failure-Leaves m target e r s w h =
      let v = pending_state env (classify_error e) r s in
      let h' = at-set_at m.resource_statuses i s v h in
      rw (h, h') (announce-Leaves _ _ _ _ _ v _ h')

  no_retry :
      (m : Migration) (e : Option GoError)
      → at m.resource_statuses i ≡ none
      → (should_retry env m i e).0 ≡ false
  unfolding should_retry
  no_retry m e h = rw h refl

  terminal_panics :
      (m : Migration) (target : String) (e : Option GoError) (w : env.World)
      → at m.resource_statuses i ≡ none
      → is_panic (handle_terminal_failure env m target i e w) ≡ true
  unfolding handle_terminal_failure count_failure
  terminal_panics m target e w h = rw h (rw h refl)

  -- Handling a failure panics exactly if the index of the resource is out of range, whatever the
  -- error, the world and the outcome of the update.
  pub handle_resource_failure_panics :
      (m : Migration) (target : String) (e : Option GoError) (w : env.World)
      → is_panic (handle_resource_failure env m target i e w)
        ≡ not (is_some (at m.resource_statuses i))
  unfolding handle_resource_failure
  handle_resource_failure_panics m target e w = elim (Option-cases (at m.resource_statuses i)) [
    | inl outside ↦
        rw (no_retry m e outside)
          (terminal_panics m target e w outside ∙ sym (ap (λ o. not (is_some o)) outside))
    | inr (s, inside) ↦
        let valid = sym (ap (λ o. not (is_some o)) inside) in
        elim (Bool-cases (should_retry env m i e).0) [
          | inl retry ↦
              rw retry ((handle_retryable_failure-Leaves m target e _ s w inside).returns ∙ valid)
          | inr stop ↦
              rw stop ((handle_terminal_failure-Leaves m target e s w inside).returns ∙ valid)
        ]
  ]
