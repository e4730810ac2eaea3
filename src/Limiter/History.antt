-- ===== src/Limiter/History.antt =====
-- The count of a key is a function of the calls for that key.
use reposhift.Common.{
  ℕ, zero, suc, ◌+◌, ◌-◌, ◌*◌, ◌≤◌, ◌≡◌, refl, ap, ◌∙◌, String, Bool, true, false, List, [], ◌∷◌,
  ltb, str_eq, eq_iff, eq_refl, arith, inl, inr, Bool-cases, if◌then◌else◌,
}
use reposhift.Limiter.{
  AdaptiveRateLimiter, count_of, write_count, drop_key, counts_as_error, report_error,
  report_success, reset, get_backoff, Report, apply_report, limiter_after,
}

-- One call, as seen from a key.
abbrev pub counted : String → Report → ℕ → ℕ
counted key (Report.error k status_code) n =
    if str_eq k key
    then if counts_as_error status_code then if ltb n 10 then n + 1 else 10 else n
    else n
counted key (Report.success k) n = if str_eq k key then n - 1 else n
counted key (Report.cleared k) n = if str_eq k key then 0 else n

-- The specification: a counter for one key, that forgets the calls for all others.
abbrev pub count : String → List Report → ℕ
count key [] = 0
count key (r ∷ rs) = counted key r (count key rs)

collapse : (b : Bool) (n m l : ℕ) → (if b then n else l) ≡ (if b then n else if b then m else l)
collapse true n m l = refl
collapse false n m l = refl

times_zero : (n d : ℕ) → (if ltb 0 n then n * d else 0) ≡ n * d
times_zero zero d = omega arith
times_zero (suc n) d = ground arith

-- equal keys answer alike
str_eq-left : (a b c : String) → str_eq a b ≡ true → str_eq a c ≡ str_eq b c
str_eq-left a b c h = ap (λ x. str_eq x c) ((eq_iff a b).0 h)

str_eq-apart : (a b c : String) → str_eq a b ≡ false → str_eq a c ≡ true → str_eq b c ≡ false
str_eq-apart a b c h k = elim (Bool-cases (str_eq b c)) [
  | inr other ↦ other
  | inl same ↦ cc (h, ap (str_eq a) ((eq_iff b c).0 same), k)
]

count_of-same :
    (k key : String) (counts : List (String × ℕ))
    → str_eq k key ≡ true
    → count_of k counts ≡ count_of key counts
count_of-same k key counts h = ap (λ x. count_of x counts) ((eq_iff k key).0 h)

count_of-write_count :
    (key k : String) (n : ℕ) (counts : List (String × ℕ))
    → count_of key (write_count k n counts) ≡ (if str_eq k key then n else count_of key counts)
unfolding count_of write_count
count_of-write_count key k n [] = refl
count_of-write_count key k n (p ∷ rest) = elim (Bool-cases (str_eq p.0 k)) [
  | inr other ↦ elim (Bool-cases (str_eq p.0 key)) [
    | inr away ↦ rw (other, away) (count_of-write_count key k n rest)
    | inl here ↦ rw (other, here, str_eq-apart p.0 k key other here) refl
  ]
  | inl same ↦
      rw (same, str_eq-left p.0 k key same) (collapse (str_eq k key) n p.1 (count_of key rest))
]

count_of-drop_key :
    (key k : String) (counts : List (String × ℕ))
    → count_of key (drop_key k counts) ≡ (if str_eq k key then 0 else count_of key counts)
unfolding count_of drop_key
count_of-drop_key key k [] = ground arith
count_of-drop_key key k (p ∷ rest) = elim (Bool-cases (str_eq p.0 k)) [
  | inr other ↦ elim (Bool-cases (str_eq p.0 key)) [
    | inr away ↦ rw (other, away) (count_of-drop_key key k rest)
    | inl here ↦ rw (other, here, str_eq-apart p.0 k key other here) refl
  ]
  | inl same ↦
      rw (same, count_of-drop_key key k rest, str_eq-left p.0 k key same)
        (collapse (str_eq k key) 0 p.1 (count_of key rest))
]

-- one call moves the count of a key as the specification says
apply_report-counted :
    (key : String) (r : Report) (a : AdaptiveRateLimiter)
    → count_of key (apply_report r a).error_counts ≡ counted key r (count_of key a.error_counts)
unfolding apply_report report_error report_success reset
apply_report-counted key (Report.error k status_code) a =
    let cs = a.error_counts in
    let written = write_count k (count_of k cs + 1) cs in
    ground (
      arith,
      count_of-write_count key k (count_of k cs + 1) cs,
      count_of-write_count k k (count_of k cs + 1) cs,
      count_of-write_count key k 10 written,
      eq_refl k,
      count_of-same k key cs,
    )
apply_report-counted key (Report.success k) a =
    let cs = a.error_counts in
    ground (arith, count_of-write_count key k (count_of k cs - 1) cs, count_of-same k key cs)
apply_report-counted key (Report.cleared k) a = count_of-drop_key key k a.error_counts

same_backoff : (d : ℕ) (rs : List Report) → (limiter_after d rs).backoff_duration ≡ d
unfolding limiter_after apply_report report_error report_success reset
same_backoff d [] = refl
same_backoff d (Report.error k status_code ∷ rs) = ground (arith, same_backoff d rs)
same_backoff d (Report.success k ∷ rs) = ground (arith, same_backoff d rs)
same_backoff d (Report.cleared k ∷ rs) = same_backoff d rs

count_of-after :
    (key : String) (d : ℕ) (rs : List Report)
    → count_of key (limiter_after d rs).error_counts ≡ count key rs
unfolding limiter_after count_of
count_of-after key d [] = refl
count_of-after key d (r ∷ rs) =
    apply_report-counted key r (limiter_after d rs) ∙ ap (counted key r) (count_of-after key d rs)

count_le : (key : String) (rs : List Report) → count key rs ≤ 10
count_le key [] = omega arith
count_le key (Report.error k status_code ∷ rs) = ground (arith, count_le key rs)
count_le key (Report.success k ∷ rs) = ground (arith, count_le key rs)
count_le key (Report.cleared k ∷ rs) = ground (arith, count_le key rs)

-- After any history of calls the backoff of a key is the backoff duration times a count that
-- depends on the calls for that key alone, and the count is at most 10.
pub get_backoff-after :
    (key : String) (d : ℕ) (rs : List Report)
    → (get_backoff key (limiter_after d rs) ≡ count key rs * d) × (count key rs ≤ 10)
unfolding get_backoff
get_backoff-after key d rs =
    (rw (count_of-after key d rs, same_backoff d rs) (times_zero (count key rs) d), count_le key rs)
