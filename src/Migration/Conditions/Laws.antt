-- ===== src/Migration/Conditions/Laws.antt =====
-- What setting and removing a condition does to the entries of every type.
use reposhift.Common.{
  ℕ, String, true, Option, none, some, List, [], ◌∷◌, ◌≡◌, ◌+◌, sym, ◌&&◌, ◌==◌, refl, str_eq,
  eq_iff, if◌then◌else◌, arith,
}
use reposhift.Migration.Types.{Condition}
use reposhift.Migration.Conditions.{
  refreshed, put_condition, find_condition, without, says_the_same, eq_Bool,
}

abbrev set_to : Condition → Option Condition → Condition
set_to c none = c
set_to c (some d) = refreshed c d

refreshed-type : (c d : Condition) → d.type ≡ c.type → (refreshed c d).type ≡ c.type
unfolding refreshed
refreshed-type c d h = ground arith

-- Setting a condition: the entry of its type is the new one, or the old one refreshed, and the
-- entry of every other type is what it was.
find_condition-put_condition :
    (type : String) (c : Condition) (l : List Condition)
    → find_condition type (put_condition c l) ≡ (
        if str_eq type c.type
        then some (set_to c (find_condition c.type l))
        else find_condition type l)
unfolding find_condition put_condition
find_condition-put_condition type c [] = ground (arith, eq_iff type c.type, eq_iff c.type type)
find_condition-put_condition type c (d ∷ rest) = ground (
  arith,
  find_condition-put_condition type c rest,
  eq_iff type c.type,
  eq_iff c.type type,
  eq_iff d.type c.type,
  eq_iff d.type type,
  eq_iff (refreshed c d).type type,
  refreshed-type c d,
)

-- the transition time that setting `c` leaves
unfoldable transition_time : Condition → Option Condition → ℕ
transition_time c none = c.last_transition_time
transition_time c (some d) =
    if eq_Bool d.status c.status then d.last_transition_time else c.last_transition_time

-- the entry that the Kubernetes convention asks for
unfoldable pub expected : Condition → List Condition → Condition
unfolding transition_time
expected c l = record c { last_transition_time = transition_time c (find_condition c.type l) }

says_the_same-eq :
    (c d : Condition)
    → d.type ≡ c.type
    → says_the_same c d ≡ true
    → d ≡ record c { last_transition_time = d.last_transition_time }
unfolding says_the_same
says_the_same-eq c d h k = ground (arith, eq_iff d.reason c.reason, eq_iff d.message c.message)

says_the_same-status :
    (c d : Condition) → says_the_same c d ≡ true → eq_Bool d.status c.status ≡ true
unfolding says_the_same
says_the_same-status c d k = ground arith

refreshed-eq :
    (c d : Condition)
    → d.type ≡ c.type
    → refreshed c d ≡ record c { last_transition_time = transition_time c (some d) }
unfolding refreshed transition_time
refreshed-eq c d h = ground (arith, says_the_same-eq c d h, says_the_same-status c d)

find_condition-type :
    (type : String) (l : List Condition) (d : Condition)
    → find_condition type l ≡ some d
    → d.type ≡ type
unfolding find_condition
find_condition-type type [] d h = cc
find_condition-type type (x ∷ rest) d h =
    ground (arith, eq_iff x.type type, find_condition-type type rest d)

set_to-eq :
    (c : Condition) (l : List Condition) (o : Option Condition)
    → find_condition c.type l ≡ o
    → set_to c o ≡ record c { last_transition_time = transition_time c o }
unfolding transition_time
set_to-eq c l none h = refl
set_to-eq c l (some d) h = refreshed-eq c d (find_condition-type c.type l d h)

-- Setting a condition leaves exactly one thing changed: the entry of its type has the given status,
-- reason, message and generation, with the old transition time if the status is the old one and the
-- given time if it is not; the entry of every other type is what it was.
pub put_condition_lem :
    (type : String) (c : Condition) (l : List Condition)
    → find_condition type (put_condition c l)
      ≡ (if str_eq type c.type then some (expected c l) else find_condition type l)
unfolding expected
put_condition_lem type c l =
    rw (sym (set_to-eq c l (find_condition c.type l) refl)) (find_condition-put_condition type c l)

-- how many entries a type has
unfoldable count_type : String → List Condition → ℕ
count_type type [] = 0
count_type type (d ∷ rest) = (if str_eq d.type type then 1 else 0) + count_type type rest

-- Setting a condition adds an entry for its type only where there is none, and never one for
-- another type: no type gets a second entry.
count_type-put_condition :
    (type : String) (c : Condition) (l : List Condition)
    → count_type type (put_condition c l)
      ≡ (if str_eq type c.type && count_type type l == 0 then 1 else count_type type l)
unfolding count_type put_condition
count_type-put_condition type c [] = ground (arith, eq_iff c.type type, eq_iff type c.type)
count_type-put_condition type c (d ∷ rest) = ground (
  arith,
  count_type-put_condition type c rest,
  eq_iff d.type c.type,
  refreshed-type c d,
  eq_iff d.type type,
  eq_iff (refreshed c d).type type,
  eq_iff type c.type,
)

-- Removing a condition removes its entries and keeps those of every other type.
find_condition-without :
    (type removed : String) (l : List Condition)
    → find_condition type (without removed l)
      ≡ (if str_eq type removed then none else find_condition type l)
unfolding find_condition without
find_condition-without type removed [] = ground arith
find_condition-without type removed (d ∷ rest) = ground (
  arith,
  find_condition-without type removed rest,
  eq_iff d.type removed,
  eq_iff d.type type,
  eq_iff type removed,
)
