-- ===== src/Limiter/Examples.antt =====
-- The theorem on the limiter at a concrete history.
use reposhift.Common.{◌*◌, ◌≤◌, ◌≡◌, List, [], ◌∷◌}
use reposhift.Limiter.{Report, limiter_after, get_backoff}
use reposhift.Limiter.History.{count, get_backoff-after}

-- a server error, a rate limit, a success and a refusal, and an error for another key
abbrev history : List Report
history =
    Report.error "other" 502
    ∷ Report.error "org" 404
    ∷ Report.success "org"
    ∷ Report.error "org" 429
    ∷ Report.error "org" 503
    ∷ []

get_backoff-after_example :
    (get_backoff "org" (limiter_after 300 history) ≡ count "org" history * 300)
    × (count "org" history ≤ 10)
get_backoff-after_example = get_backoff-after "org" 300 history
