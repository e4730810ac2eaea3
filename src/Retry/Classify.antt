-- ===== src/Retry/Classify.antt =====
-- ClassifyError of internal/controller/retry_handler.go: what the text of an error says of it.
pub mod Verdict
use reposhift.Common.{
  ℕ, ◌*◌, ◌≡◌, refl, String, Bool, true, false, Option, none, some, List, [], ◌∷◌, map, str_append,
  if◌then◌else◌, arith,
}
use reposhift.Common.Text
use reposhift.Common.Text.{codes, to_lower_code}
use reposhift.Retry.Errors.{ErrorType, GoError, error, is_retryable_type}

pub record ErrorClassification : Type 0 where
  pub type : ErrorType
  pub message : String
  pub suggested_delay : ℕ
  pub retryable : Bool

-- strings.ToLower maps the letters beyond ASCII as well, which no pattern has
abbrev pub contains_ignore_case : String → String → Bool
contains_ignore_case s substr =
    Text.contains (map to_lower_code (codes s)) (map to_lower_code (codes substr))

-- a loop over patterns: the class of the first that the text contains, or what follows the loop
unfoldable pub match_patterns :
    String
    → List String
    → (String → ErrorClassification)
    → ErrorClassification
    → ErrorClassification
match_patterns text [] found rest = rest
match_patterns text (pattern ∷ patterns) found rest =
    if contains_ignore_case text pattern
    then found pattern
    else match_patterns text patterns found rest

abbrev pub transient_patterns : List String
transient_patterns =
    "connection reset" ∷ "connection refused" ∷ "timeout" ∷ "temporary failure"
    ∷ "network is unreachable" ∷ "TLS handshake timeout" ∷ "EOF" ∷ "i/o timeout" ∷ "broken pipe"
    ∷ "connection timed out" ∷ "dial tcp" ∷ "no such host" ∷ []

abbrev pub rate_limit_patterns : List String
rate_limit_patterns =
    "rate limit" ∷ "429" ∷ "too many requests" ∷ "abuse detection" ∷ "secondary rate limit"
    ∷ "retry after" ∷ "rate_limit_exceeded" ∷ []

abbrev pub validation_patterns : List String
validation_patterns =
    "invalid" ∷ "malformed" ∷ "bad request" ∷ "400" ∷ "403" ∷ "forbidden" ∷ "unauthorized" ∷ "401"
    ∷ "not found" ∷ "404" ∷ "conflict" ∷ "409" ∷ "already exists" ∷ []

abbrev pub server_error_patterns : List String
server_error_patterns =
    "500" ∷ "502" ∷ "503" ∷ "504" ∷ "internal server error" ∷ "bad gateway" ∷ "service unavailable"
    ∷ "gateway timeout" ∷ []

-- what a pattern says: durations are nanoseconds
abbrev pub retry_in : ℕ → String → String → ErrorClassification
retry_in seconds prefix pattern = record {
  type = ErrorType.retryable;
  message = str_append prefix pattern;
  suggested_delay = seconds * 1_000_000_000;
  retryable = true;
}

abbrev pub refuse : ErrorType → String → ErrorClassification
refuse type message = record {
  type = type;
  message = message;
  suggested_delay = 0;
  retryable = false;
}

-- what follows the loops
unfoldable pub out_of_memory : String → ErrorClassification
out_of_memory text =
    match_patterns text ("out of memory" ∷ "OOMKilled" ∷ [])
      (λ p.
        refuse ErrorType.terminal
          "Out of memory - increase pod resources (see values-production.yaml)")
      (retry_in 60 "" "Unclassified error, treating as transient")

unfoldable pub classify_text : String → ErrorClassification
classify_text text =
    match_patterns text transient_patterns (retry_in 30 "Transient network error: ") (
      match_patterns text rate_limit_patterns (retry_in 300 "Rate limit encountered: ") (
        match_patterns text validation_patterns
          (λ p. refuse ErrorType.validation (str_append "Validation error: " p))
          (match_patterns text server_error_patterns (retry_in 120 "Server error: ")
            (out_of_memory text))))

unfoldable pub classify_error : Option GoError → ErrorClassification
unfolding classify_text error
classify_error none = refuse ErrorType.terminal ""
classify_error (some (GoError.classified c)) = record {
  type = c.type;
  message = c.message;
  suggested_delay = c.retry_after;
  retryable = is_retryable_type c.type;
}
classify_error (some (GoError.plain e)) = classify_text (error (GoError.plain e))
