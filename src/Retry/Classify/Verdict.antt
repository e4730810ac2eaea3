-- ===== src/Retry/Classify/Verdict.antt =====
-- Which texts are retried, said without the order of the loops.
use reposhift.Common.{
  ◌≡◌, refl, String, Bool, true, false, ◌&&◌, ◌||◌, not, some, List, [], ◌∷◌, any, arith, inl, inr,
  Bool-cases, str_append, if◌then◌else◌,
}
use reposhift.Retry.Errors.{ErrorType, GoError, error}
use reposhift.Retry.Classify.{
  ErrorClassification, contains_ignore_case, match_patterns, transient_patterns,
  rate_limit_patterns, validation_patterns, server_error_patterns, retry_in, refuse, out_of_memory,
  classify_text, classify_error,
}

abbrev pub has : List String → String → Bool
has patterns text = any (contains_ignore_case text) patterns

-- a loop whose patterns all have one verdict
match_patterns-retryable :
    (text : String) (patterns : List String) (found : String → ErrorClassification)
    (rest : ErrorClassification) (v : Bool)
    → ((p : String) → (found p).retryable ≡ v)
    → (match_patterns text patterns found rest).retryable
      ≡ (if has patterns text then v else rest.retryable)
unfolding match_patterns
match_patterns-retryable text [] found rest v h = refl
match_patterns-retryable text (p ∷ ps) found rest v h =
    elim (Bool-cases (contains_ignore_case text p)) [
      | inl hit ↦ rw hit (h p)
      | inr miss ↦ rw miss (match_patterns-retryable text ps found rest v h)
    ]

verdict :
    (a b c d e : Bool)
    → (if a
        then true
        else if b
        then true
        else if c
        then false
        else if d
        then true
        else if e
        then false
        else true)
      ≡ (a || b || (not c && (d || not e)))
verdict a b c d e = ground arith

-- An error of no class is retried if its text names a transient error or a rate limit; else, if
-- it names no validation error, and either a server error or no lack of memory.
pub classify_error-plain :
    (text : String)
    → (classify_error (some (GoError.plain text))).retryable ≡ (
        has transient_patterns text
        || has rate_limit_patterns text
        || (not (has validation_patterns text)
            && (has server_error_patterns text
                || not (has ("out of memory" ∷ "OOMKilled" ∷ []) text))))
unfolding classify_error classify_text error out_of_memory
classify_error-plain text =
    rw
      (
        match_patterns-retryable text transient_patterns (retry_in 30 "Transient network error: ") _
            true (λ p. refl),
        match_patterns-retryable text rate_limit_patterns (retry_in 300 "Rate limit encountered: ")
            _ true (λ p. refl),
        match_patterns-retryable text validation_patterns
            (λ p. refuse ErrorType.validation (str_append "Validation error: " p)) _ false
            (λ p. refl),
        match_patterns-retryable text server_error_patterns (retry_in 120 "Server error: ")
            (out_of_memory text) true (λ p. refl),
        match_patterns-retryable text ("out of memory" ∷ "OOMKilled" ∷ [])
            (λ p.
              refuse ErrorType.terminal
                "Out of memory - increase pod resources (see values-production.yaml)")
            (retry_in 60 "" "Unclassified error, treating as transient") false (λ p. refl),
      )
      (verdict (has transient_patterns text) (has rate_limit_patterns text)
        (has validation_patterns text) (has server_error_patterns text)
        (has ("out of memory" ∷ "OOMKilled" ∷ []) text))
