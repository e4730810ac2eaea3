-- ===== src/Cache/Oldest.antt =====
-- Which entry makes room: the one whose migration completed first.
use reposhift.Common.{
  subst, ℕ, ◌≡◌, ◌⊎◌, inl, inr, refl, sym, ap, ◌∙◌, String, Bool, true, false, Option, none, some,
  [], ◌∷◌, all, any, ltb, leb, str_eq, eq_iff, eq_refl, arith, Bool-cases, Option-cases,
}
use reposhift.Cache.{
  MigrationCacheEntry, Entries, member, lookup, remove, is_older, visit, find_oldest,
  oldest_completed, evict_oldest, is_completed,
}
use reposhift.Cache.Bound.{distinct, named, key_named}

-- the time `u` does not come before `t`, and no time comes before another only if there is none
abbrev not_before : Option ℕ → Option ℕ → Bool
not_before t none = true
not_before none (some u) = false
not_before (some t) (some u) = leb t u

-- no entry has completed before `t`
abbrev pub none_before : Option ℕ → Entries → Bool
none_before t es = all (λ p. not_before t p.1.completion_time) es

-- an entry of the list that completed at the time that was found
record Entry (es : Entries) (found : String × Option ℕ) : Type 0 where
  e : MigrationCacheEntry
  at_key : lookup found.0 es ≡ some e
  at_time : e.completion_time ≡ found.1
  is_key : member found.0 es ≡ true

-- What the loop finds: what was found before, or an entry of the list.
record Found (es : Entries) (before found : String × Option ℕ) : Type 0 where
  least : none_before found.1 es ≡ true
  down : not_before found.1 before.1 ≡ true
  entry : (found ≡ before) ⊎ Entry es found

not_before_refl : (t : Option ℕ) → not_before t t ≡ true
not_before_refl none = refl
not_before_refl (some t) = ground arith

not_before_trans :
    (t u v : Option ℕ) → not_before t u ≡ true → not_before u v ≡ true → not_before t v ≡ true
not_before_trans t u none h k = refl
not_before_trans t none (some v) h k = cc
not_before_trans none (some u) (some v) h k = cc
not_before_trans (some t) (some u) (some v) h k = ground (arith, h, k)

-- the loop keeps the earlier of two times
visit_down :
    (id : String) (t : Option ℕ) (oldest : String × Option ℕ)
    → (not_before (visit id t oldest).1 oldest.1 ≡ true)
      × (not_before (visit id t oldest).1 t ≡ true)
unfolding visit
visit_down id none oldest = (not_before_refl oldest.1, refl)
visit_down id (some t) (x, none) = (refl, not_before_refl (some t))
visit_down id (some t) (x, some o) = elim (Bool-cases (ltb t o)) [
  | inl older ↦ rw older (ground arith, ground arith)
  | inr younger ↦ rw younger (ground arith, ground arith)
]

visit_entry :
    (p : String × MigrationCacheEntry) (es : Entries) (t : Option ℕ) (oldest : String × Option ℕ)
    → p.1.completion_time ≡ t
    → (visit p.0 t oldest ≡ oldest) ⊎ Entry (p ∷ es) (visit p.0 t oldest)
unfolding visit lookup
visit_entry p es none oldest done = inl refl
visit_entry p es (some t) oldest done = elim (Bool-cases (is_older t oldest.1)) [
  | inr younger ↦ rw younger (inl refl)
  | inl older ↦ rw older (
      inr (record {
        e = p.1;
        at_key = rw (eq_refl p.0) refl;
        at_time = done;
        is_key = rw (eq_refl p.0) refl;
      }))
]

-- an entry of the rest of the list is one of the list, as keys are distinct
Entry-cons :
    (p : String × MigrationCacheEntry) (es : Entries) (found : String × Option ℕ)
    → distinct (p ∷ es) ≡ true
    → Entry es found
    → Entry (p ∷ es) found
unfolding lookup
Entry-cons p es found d r = elim (Bool-cases (str_eq p.0 found.0)) [
  | inl same ↦
      absurd (ground (arith, d, r.is_key, ap (λ k. member k es) ((eq_iff p.0 found.0).0 same)))
  | inr other ↦ record {
    e = r.e;
    at_key = rw other r.at_key;
    at_time = r.at_time;
    is_key = ground (arith, r.is_key);
  }
]

find_oldest-Found :
    (es : Entries) (before : String × Option ℕ)
    → distinct es ≡ true
    → Found es before (find_oldest (λ e. e.completion_time) es before)
unfolding find_oldest
find_oldest-Found [] before d = record {
  least = refl;
  down = not_before_refl before.1;
  entry = inl refl;
}
find_oldest-Found (p ∷ es) before d =
    let t = p.1.completion_time in
    let v = visit p.0 t before in
    let r = find_oldest-Found es v (ground (arith, d)) in
    let found = find_oldest (λ e. e.completion_time) es v in
    let (b, c) = visit_down p.0 t before in
    record {
      least = rw (not_before_trans found.1 v.1 t r.down c) r.least;
      down = not_before_trans found.1 v.1 before.1 r.down b;
      entry = elim r.entry [
        | inr later ↦ inr (Entry-cons p es found d later)
        | inl same ↦ elim (visit_entry p es t before refl) [
          | inl kept ↦ inl (same ∙ kept)
          | inr here ↦ inr (subst (Entry (p ∷ es)) (sym same) here)
        ]
      ];
    }

-- some entry has completed, so that the loop finds a time
completed_found :
    (es : Entries) → any (λ p. is_completed p.1) es ≡ true → none_before none es ≡ false
completed_found [] h = sym h
completed_found (p ∷ es) h = elim (Option-cases p.1.completion_time) [
  | inl running ↦ rw running (completed_found es (ground (arith, h, running)))
  | inr (t, done) ↦ rw done refl
]

-- Where some migration has completed, and the keys are distinct and not empty, making room is the
-- removal of the key of one entry, that of a migration than which none completed earlier.
pub evict_oldest-completed :
    (es : Entries)
    → distinct es ≡ true
    → named es ≡ true
    → any (λ p. is_completed p.1) es ≡ true
    → (id : String) × (t : ℕ) × (e : MigrationCacheEntry) × (lookup id es ≡ some e)
      × (e.completion_time ≡ some t)
      × (none_before (some t) es ≡ true)
      × (evict_oldest es ≡ remove id es)
unfolding evict_oldest
evict_oldest-completed es d n h =
    let found = oldest_completed es in
    let r = find_oldest-Found es ("", none) d in
    elim (Option-cases found.1) [
      | inl nothing ↦
          absurd (cc (completed_found es h, ap (λ t. none_before t es) nothing, r.least))
      | inr (t, done) ↦ elim r.entry [
        | inl same ↦ absurd (cc (done, ap (λ (f : String × Option ℕ). f.1) same))
        | inr entry ↦ (
          found.0,
          t,
          entry.e,
          entry.at_key,
          entry.at_time ∙ done,
          rw (← done) r.least,
          rw (key_named found.0 es n entry.is_key) refl,
        )
      ]
    ]
