-- ===== src/Retry/Handler/Bounded.antt =====
-- Failures of one resource, handled one after the other: the retries are bounded.
use reposhift.Common.{
  ℕ, ◌+◌, ◌≤◌, ◌≡◌, refl, sym, ap, ◌∙◌, String, true, Option, some, List, [], ◌∷◌, arith, inl, inr,
  Bool-cases, if◌then◌else◌,
}
use reposhift.Common.Int.{ℤ}
use reposhift.Retry.Errors.{GoError}
use reposhift.Retry.Handler.{
  ResourceState, Migration, HandlerEnv, at, max_retries_of, retry_state, retry_found, should_retry,
  handle_resource_failure,
}
use reposhift.Retry.Handler.Panics.{
  migration_of, Leaves, handle_terminal_failure-Leaves, handle_retryable_failure-Leaves,
}

module _ (env : HandlerEnv) (target : String) (i : ℤ) where
  -- how many retries are scheduled when the failures are handled in turn, each with a world of its
  -- own and with the object that the failure before it left
  abbrev pub retries : List (Option GoError × env.World) → Migration → ℕ
  retries [] m = 0
  retries (e ∷ es) m =
      (if (should_retry env m i e.0).0 then 1 else 0)
      + retries es (migration_of (handle_resource_failure env m target i e.0 e.1))

  -- a retry is scheduled only below the limit
  retry_below :
      (m : Migration) (s : ResourceState) (e : Option GoError)
      → (retry_state env m s e).0 ≡ true
      → s.progress + 1 ≤ max_retries_of env m
  retry_below m s e h = ground (arith, h)

  module _ (m : Migration) (s : ResourceState) (found : at m.resource_statuses i ≡ some s) where
    retry_decided : (e : Option GoError) → should_retry env m i e ≡ retry_state env m s e
    unfolding should_retry retry_found
    retry_decided e = rw found refl

    handle_resource_failure-Leaves :
        (e : Option GoError) (w : env.World)
        → Leaves i
            ((if (should_retry env m i e).0 then 1 else 0) + s.progress)
            m.retry_attempts
            env.World
            (handle_resource_failure env m target i e w)
    unfolding handle_resource_failure
    handle_resource_failure-Leaves e w = elim (Bool-cases (should_retry env m i e).0) [
      | inl retry ↦
          let l =
            handle_retryable_failure-Leaves env i m target e (should_retry env m i e).1 s w found in
          rw retry (record {
            returns = l.returns;
            state = l.state;
            found = l.found;
            counted = omega (arith, l.counted);
            same = l.same;
          })
      | inr stop ↦
          let l = handle_terminal_failure-Leaves env i m target e s w found in
          rw stop (record {
            returns = l.returns;
            state = l.state;
            found = l.found;
            counted = omega (arith, l.counted);
            same = l.same;
          })
    ]

  -- the limit depends on nothing that the handler changes
  same_limit :
      (m m' : Migration)
      → m'.retry_attempts ≡ m.retry_attempts
      → max_retries_of env m' ≡ max_retries_of env m
  same_limit m m' h = rw h refl

  -- However many failures of a resource are handled, of whatever kind and with whatever outcome of
  -- the updates, the retries that are scheduled and the attempts so far stay together within the
  -- limit, where the attempts are within it at first and the index of the resource is in range.
  pub retries_bounded :
      (es : List (Option GoError × env.World)) (m : Migration) (s : ResourceState)
      → at m.resource_statuses i ≡ some s
      → s.progress ≤ max_retries_of env m
      → retries es m + s.progress ≤ max_retries_of env m
  retries_bounded [] m s found h = omega (arith, h)
  retries_bounded (e ∷ es) m s found h =
      let l = handle_resource_failure-Leaves m s found e.0 e.1 in
      let m' = migration_of (handle_resource_failure env m target i e.0 e.1) in
      let limit = same_limit m m' l.same in
      let more = retries_bounded es m' l.state l.found in
      elim (Bool-cases (should_retry env m i e.0).0) [
        | inl retry ↦
            let below =
              retry_below m s e.0 (sym (ap (λ r. r.0) (retry_decided m s found e.0)) ∙ retry) in
            let counted : l.state.progress ≡ 1 + s.progress = l.counted ∙ rw retry refl in
            let rest = more (omega (arith, counted, below, limit)) in
            rw retry (omega (arith, counted, rest, limit))
        | inr stop ↦
            let counted : l.state.progress ≡ s.progress = l.counted ∙ rw stop (omega arith) in
            let rest = more (omega (arith, counted, h, limit)) in
            rw stop (omega (arith, counted, rest, limit))
      ]
