-- ===== src/Smart/Breaker/History.antt =====
-- The breaker as a function of the history of calls.
use reposhift.Common.{
  ℕ, ◌+◌, ◌≡◌, refl, Bool, true, false, ◌&&◌, List, [], ◌∷◌, leb, ltb, arith, ◌||◌,
}
use reposhift.Smart.Breaker.{after}

-- How many calls of one kind stand at the head of the history.
streak : Bool → List Bool → ℕ
streak kind [] = 0
streak true (true ∷ calls) = streak true calls + 1
streak false (false ∷ calls) = streak false calls + 1
streak true (false ∷ calls) = 0
streak false (true ∷ calls) = 0

-- The specification: open from the fifth failure in a row until the third success in a row.
pub tripped : List Bool → Bool
tripped [] = false
tripped (true ∷ calls) = tripped calls && ltb (streak true (true ∷ calls)) 3
tripped (false ∷ calls) = tripped calls || leb 5 (streak false (false ∷ calls))

counts :
    (calls : List Bool)
    → ((after calls).failures ≡ streak false calls)
      × ((after calls).successes ≡ streak true calls)
      × ((after calls).threshold ≡ 5)
unfolding after streak
counts [] = (refl, refl, refl)
counts (true ∷ calls) = let (f, s, t) = counts calls in ground arith
counts (false ∷ calls) = let (f, s, t) = counts calls in ground arith

-- After any history of successes and failures the breaker is open exactly when it should be: from
-- the fifth failure in a row until the third success in a row.
pub is_open-after : (calls : List Bool) → (after calls).is_open ≡ tripped calls
unfolding after tripped streak
is_open-after [] = refl
is_open-after (true ∷ calls) = ground (arith, is_open-after calls, counts calls)
is_open-after (false ∷ calls) = ground (arith, is_open-after calls, counts calls)
