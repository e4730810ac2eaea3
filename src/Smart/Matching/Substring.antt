-- ===== src/Smart/Matching/Substring.antt =====
-- The three tests of `contains` together decide whether one text stands in the other.
use reposhift.Common.{
  ℕ, zero, suc, ◌+◌, ◌-◌, ◌<◌, ◌≡◌, refl, ◌∙◌, sym, ap, Bool, true, false, ◌||◌, List, [], ◌∷◌,
  length, take, drop, ltb, arith, Bool-cases, inl, inr,
}
use native.Mathlib.Numerals.{add-one}
use reposhift.Common.Text
use reposhift.Common.Text.{eq_codes, has_prefix}
use reposhift.Smart.Matching.{find_from, find_substring, contains}

has_prefix_short : (s p : List ℕ) → length s < length p → has_prefix s p ≡ false
has_prefix_short s [] h = absurd (omega arith)
has_prefix_short [] (x ∷ p) h = refl
has_prefix_short (c ∷ s) (x ∷ p) h = ground (arith, has_prefix_short s p)

contains_short : (s p : List ℕ) → length s < length p → Text.contains s p ≡ false
contains_short [] p h = has_prefix_short [] p h
contains_short (c ∷ s) p h = rw (has_prefix_short (c ∷ s) p h) (contains_short s p (omega arith))

eq_codes-take : (s p : List ℕ) → eq_codes (take (length p) s) p ≡ has_prefix s p
eq_codes-take s [] = refl
eq_codes-take [] (x ∷ p) = refl
eq_codes-take (c ∷ s) (x ∷ p) = ground (arith, eq_codes-take s p)

eq_codes-has_prefix : (s p : List ℕ) → eq_codes s p ≡ true → has_prefix s p ≡ true
eq_codes-has_prefix [] [] h = refl
eq_codes-has_prefix [] (x ∷ p) h = cc
eq_codes-has_prefix (c ∷ s) [] h = refl
eq_codes-has_prefix (c ∷ s) (x ∷ p) h = ground (arith, eq_codes-has_prefix s p)

has_prefix-eq_codes : (s p : List ℕ) → length s ≡ length p → has_prefix s p ≡ eq_codes s p
has_prefix-eq_codes [] [] h = refl
has_prefix-eq_codes [] (x ∷ p) h = absurd (omega arith)
has_prefix-eq_codes (c ∷ s) [] h = absurd (omega arith)
has_prefix-eq_codes (c ∷ s) (x ∷ p) h = ground (arith, has_prefix-eq_codes s p)

contains_of_prefix : (s p : List ℕ) → has_prefix s p ≡ true → Text.contains s p ≡ true
contains_of_prefix [] p h = h
contains_of_prefix (c ∷ s) p h = rw h refl

contains_of_drop :
    (n : ℕ) (s p : List ℕ) → has_prefix (drop n s) p ≡ true → Text.contains s p ≡ true
contains_of_drop zero s p h = contains_of_prefix s p h
contains_of_drop (suc n) [] p h = h
contains_of_drop (suc n) (c ∷ s) p h = ground (arith, contains_of_drop n s p h)

-- the rounds of the loop, on what is left of the text
scan : ℕ → List ℕ → List ℕ → Bool
scan zero s p = false
scan (suc k) s p = has_prefix s p || scan k (drop 1 s) p

drop-suc : (i : ℕ) (s : List ℕ) → drop 1 (drop i s) ≡ drop (suc i) s
drop-suc zero s = refl
drop-suc (suc i) [] = refl
drop-suc (suc i) (c ∷ s) = drop-suc i s

find_from-eq-scan : (k i : ℕ) (s p : List ℕ) → find_from k i s p ≡ scan k (drop i s) p
unfolding find_from scan
find_from-eq-scan zero i s p = refl
find_from-eq-scan (suc k) i s p =
    rw (eq_codes-take (drop i s) p, drop-suc i s)
      (ap (λ b. has_prefix (drop i s) p || b) (find_from-eq-scan k (i + 1) s p ∙ rw add-one refl))

scan-eq-contains :
    (k : ℕ) (s p : List ℕ) → length s ≡ k + length p → scan (suc k) s p ≡ Text.contains s p
unfolding scan
scan-eq-contains zero [] p h = ground arith
scan-eq-contains zero (c ∷ s) p h = rw (contains_short s p (omega arith)) refl
scan-eq-contains (suc k) [] p h = absurd (omega arith)
scan-eq-contains (suc k) (c ∷ s) p h =
    ap (λ b. has_prefix (c ∷ s) p || b) (scan-eq-contains k s p (omega arith))

find_substring_lem : (s p : List ℕ) → find_substring s p ≡ Text.contains s p
unfolding find_substring
find_substring_lem s p = elim (Bool-cases (ltb (length s) (length p))) [
  | inl short ↦ rw short (sym (contains_short s p (ground arith)))
  | inr long ↦ rw long (
      find_from-eq-scan (suc (length s - length p)) 0 s p
      ∙ scan-eq-contains (length s - length p) s p (ground arith))
]

-- a text that ends or begins in the other contains it
suffix_contains :
    (s p : List ℕ) → eq_codes (drop (length s - length p) s) p ≡ true → Text.contains s p ≡ true
suffix_contains s p h = contains_of_drop (length s - length p) s p (eq_codes-has_prefix _ p h)

prefix_contains : (s p : List ℕ) → eq_codes (take (length p) s) p ≡ true → Text.contains s p ≡ true
prefix_contains s p h = contains_of_prefix s p (sym (eq_codes-take s p) ∙ h)

contains-eq-has_prefix : (s p : List ℕ) → length s ≡ length p → Text.contains s p ≡ has_prefix s p
contains-eq-has_prefix [] p h = refl
contains-eq-has_prefix (c ∷ s) p h = rw (contains_short s p (omega arith)) (ground arith)

equal_length :
    (s p : List ℕ)
    → length s ≡ length p
    → eq_codes (drop (length s - length p) s) p ≡ Text.contains s p
equal_length s p h =
    let e : length s - length p ≡ 0 = omega arith in
    rw e (sym (has_prefix-eq_codes s p h) ∙ sym (contains-eq-has_prefix s p h))

-- The three tests of the engine's `contains`, at the end, at the beginning and in the middle,
-- decide together whether the second text is a substring of the first, for any two texts.
contains_lem : (s p : List ℕ) → contains s p ≡ Text.contains s p
unfolding contains
contains_lem s p = ground (
  arith,
  contains_short s p,
  equal_length s p,
  suffix_contains s p,
  prefix_contains s p,
  find_substring_lem s p,
)
