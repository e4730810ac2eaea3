-- ===== src/Smart/Matching.antt =====
-- contains and findSubstring of internal/smart/engine.go, on the bytes of two texts.
pub mod Substring
use reposhift.Common.{
  ℕ, zero, suc, ◌+◌, ◌-◌, Bool, true, false, ◌&&◌, ◌||◌, String, List, [], ◌∷◌, length, take, drop,
  any, ltb, leb, if◌then◌else◌,
}
use reposhift.Common.Text.{codes, eq_codes}

-- s[i:i+n]
abbrev slice : List ℕ → ℕ → ℕ → List ℕ
slice s i n = take n (drop i s)

-- the loop of findSubstring, by the rounds that are left
unfoldable pub find_from : ℕ → ℕ → List ℕ → List ℕ → Bool
find_from zero i s substr = false
find_from (suc rounds) i s substr =
    eq_codes (slice s i (length substr)) substr || find_from rounds (i + 1) s substr

unfoldable pub find_substring : List ℕ → List ℕ → Bool
find_substring s substr =
    if ltb (length s) (length substr)
    then false
    else find_from (suc (length s - length substr)) 0 s substr

unfoldable pub contains : List ℕ → List ℕ → Bool
contains s substr =
    (leb (length substr) (length s) && eq_codes (drop (length s - length substr) s) substr)
    || (ltb (length substr) (length s) && eq_codes (take (length substr) s) substr)
    || (ltb (length substr) (length s) && find_substring s substr)

-- isRetryableError, on the text of an error
unfoldable pub is_retryable_error : String → Bool
unfolding contains find_substring find_from
is_retryable_error error =
    any (λ pattern. contains (codes error) (codes pattern))
      ("timeout" ∷ "connection refused" ∷ "connection reset" ∷ "temporary failure" ∷ "rate limit"
        ∷ "429" ∷ "503" ∷ "502" ∷ "504" ∷ [])
