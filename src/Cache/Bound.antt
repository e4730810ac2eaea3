-- ===== src/Cache/Bound.antt =====
-- The cache never holds more entries than it may, nor two under one key.
use reposhift.Common.{
  ℕ, ◌≤◌, ◌<◌, ◌≡◌, ◌⊎◌, inl, inr, refl, ap, ◌∙◌, String, Bool, true, false, ◌&&◌, not, Option,
  none, some, [], ◌∷◌, length, leb, str_eq, eq_iff, eq_refl, arith, Bool-cases, if◌then◌else◌,
}
use reposhift.Cache.{
  MigrationCacheEntry, Entries, MigrationCache, member, filter, remove, adjust, is_older, visit,
  find_oldest, oldest_completed, oldest_started, evict_oldest, set, delete, mark_completed,
  mark_cleaned_up, cleanup,
}
use reposhift.Cache.Calls.{Op, apply}

abbrev pub distinct : Entries → Bool
distinct [] = true
distinct (p ∷ es) = not (member p.0 es) && distinct es

-- no key is the empty text, which evictOldest reads as "nothing found"
abbrev pub named : Entries → Bool
named es = not (member "" es)

pub record IsValid (c : MigrationCache) : Type 0 where
  pub keys : distinct c.entries ≡ true
  pub names : named c.entries ≡ true
  pub bound : length c.entries ≤ c.max_entries

-- what each call keeps of the entries
record Keeps (es es' : Entries) : Type 0 where
  no_more : length es' ≤ length es
  old : (id : String) → member id es ≡ false → member id es' ≡ false
  apart : distinct es ≡ true → distinct es' ≡ true

remove-Keeps : (id : String) (es : Entries) → Keeps es (remove id es)
unfolding remove
remove-Keeps id [] = record { no_more = omega arith; old = λ k h. h; apart = λ h. h }
remove-Keeps id (p ∷ es) =
    let ih = remove-Keeps id es in
    record {
      no_more = ground (arith, ih.no_more);
      old = λ k h. ground (arith, ih.old k);
      apart = λ h. ground (arith, ih.old p.0, ih.apart);
    }

filter-Keeps : (keep : MigrationCacheEntry → Bool) (es : Entries) → Keeps es (filter keep es)
unfolding filter
filter-Keeps keep [] = record { no_more = omega arith; old = λ k h. h; apart = λ h. h }
filter-Keeps keep (p ∷ es) =
    let ih = filter-Keeps keep es in
    record {
      no_more = ground (arith, ih.no_more);
      old = λ k h. ground (arith, ih.old k);
      apart = λ h. ground (arith, ih.old p.0, ih.apart);
    }

adjust-key :
    (f : MigrationCacheEntry → MigrationCacheEntry) (id : String) (p : String × MigrationCacheEntry)
    → (if str_eq p.0 id then (p.0, f p.1) else p).0 ≡ p.0
adjust-key f id p = elim (Bool-cases (str_eq p.0 id)) [
  | inl same ↦ rw same refl
  | inr other ↦ rw other refl
]

adjust-Keeps :
    (f : MigrationCacheEntry → MigrationCacheEntry) (id : String) (es : Entries)
    → Keeps es (adjust f id es)
unfolding adjust
adjust-Keeps f id [] = record { no_more = omega arith; old = λ k h. h; apart = λ h. h }
adjust-Keeps f id (p ∷ es) =
    let ih = adjust-Keeps f id es in
    let same = adjust-key f id p in
    record {
      no_more = omega (arith, ih.no_more);
      old = λ k h. rw same (ground (arith, ih.old k));
      apart = λ h. rw same (ground (arith, ih.old p.0, ih.apart));
    }

-- removing a key that is there makes room
remove-shorter :
    (id : String) (es : Entries) → member id es ≡ true → length (remove id es) < length es
unfolding remove
remove-shorter id [] h = cc
remove-shorter id (p ∷ es) h =
    let k = remove-Keeps id es in ground (arith, k.no_more, remove-shorter id es)

remove-gone : (id : String) (es : Entries) → member id (remove id es) ≡ false
unfolding remove
remove-gone id [] = refl
remove-gone id (p ∷ es) = ground (arith, remove-gone id es)

visit-new :
    (id : String) (t : Option ℕ) (oldest : String × Option ℕ)
    → ((visit id t oldest).0 ≡ id) ⊎ (visit id t oldest ≡ oldest)
unfolding visit
visit-new id none oldest = inr refl
visit-new id (some t) oldest = elim (Bool-cases (is_older t oldest.1)) [
  | inl older ↦ inl (rw older refl)
  | inr younger ↦ inr (rw younger refl)
]

-- what the loop finds is a key, or was found before
find_oldest-member :
    (time : MigrationCacheEntry → Option ℕ) (es : Entries) (oldest : String × Option ℕ)
    → (member (find_oldest time es oldest).0 es ≡ true) ⊎ (find_oldest time es oldest ≡ oldest)
unfolding find_oldest
find_oldest-member time [] oldest = inr refl
find_oldest-member time (p ∷ es) oldest =
    elim (find_oldest-member time es (visit p.0 (time p.1) oldest)) [
      | inl found ↦ inl (ground (arith, found))
      | inr same ↦ elim (visit-new p.0 (time p.1) oldest) [
        | inl key ↦ inl (rw (same, key) (ground (arith, eq_refl p.0)))
        | inr kept ↦ inr (same ∙ kept)
      ]
    ]

-- the second loop finds a key, since every entry has been started
oldest_started-member :
    (p : String × MigrationCacheEntry) (es : Entries) (id : String)
    → member (oldest_started (p ∷ es) (id, none)).0 (p ∷ es) ≡ true
unfolding find_oldest visit
oldest_started-member p es id =
    elim (find_oldest-member (λ e. some e.start_time) es (p.0, some p.1.start_time)) [
      | inl found ↦ ground (arith, found)
      | inr same ↦ rw same (ground (arith, eq_refl p.0))
    ]

-- a key is not the empty text
pub key_named :
    (id : String) (es : Entries) → named es ≡ true → member id es ≡ true → str_eq id "" ≡ false
key_named id es n m = elim (Bool-cases (str_eq id "")) [
  | inr other ↦ other
  | inl same ↦ cc (n, m, ap (λ k. member k es) ((eq_iff id "").0 same))
]

evict_oldest-shorter :
    (p : String × MigrationCacheEntry) (es : Entries)
    → named (p ∷ es) ≡ true
    → length (evict_oldest (p ∷ es)) < length (p ∷ es)
unfolding evict_oldest
evict_oldest-shorter p es n =
    elim (find_oldest-member (λ e. e.completion_time) (p ∷ es) ("", none)) [
      | inl found ↦ rw (key_named _ (p ∷ es) n found) (remove-shorter _ (p ∷ es) found)
      | inr none_completed ↦
          let found = oldest_started-member p es "" in
          rw (none_completed, key_named _ (p ∷ es) n found) (remove-shorter _ (p ∷ es) found)
    ]

evict_oldest-Keeps : (es : Entries) → Keeps es (evict_oldest es)
unfolding evict_oldest
evict_oldest-Keeps es =
    let completed = oldest_completed es in
    elim (Bool-cases (str_eq completed.0 "")) [
      | inr found ↦ rw found (remove-Keeps completed.0 es)
      | inl none_completed ↦ elim (Bool-cases (str_eq (oldest_started es completed).0 "")) [
        | inr found ↦ rw (none_completed, found) (remove-Keeps (oldest_started es completed).0 es)
        | inl nothing ↦
            rw (none_completed, nothing)
              (record { no_more = omega arith; old = λ k h. h; apart = λ h. h })
      ]
    ]

-- a call that keeps the entries keeps the cache valid
Keeps-IsValid :
    (c : MigrationCache) (es : Entries)
    → IsValid c
    → Keeps c.entries es
    → IsValid (record c { entries = es })
Keeps-IsValid c es v k = record {
  keys = k.apart v.keys;
  names = ground (arith, k.old "", v.names);
  bound = omega (arith, k.no_more, v.bound);
}

-- the key is there already, or the entries have room
room_for :
    (max : ℕ) (id : String) (es : Entries)
    → 1 ≤ max
    → length es ≤ max
    → named es ≡ true
    → leb max (length es) && not (member id es) ≡ true
    → length (evict_oldest es) < max
room_for max id [] h b n full = absurd (ground arith)
room_for max id (p ∷ es) h b n full = ground (arith, evict_oldest-shorter p es n)

set-IsValid :
    (e : MigrationCacheEntry) (c : MigrationCache)
    → 1 ≤ c.max_entries
    → str_eq e.migration_id "" ≡ false
    → IsValid c
    → IsValid (set e c)
unfolding set
set-IsValid e c m n v =
    let id = e.migration_id in
    let es = c.entries in
    elim (Bool-cases (leb c.max_entries (length es) && not (member id es))) [
      | inl full ↦
          let k = evict_oldest-Keeps es in
          let r = remove-Keeps id (evict_oldest es) in
          rw full (record {
            keys = ground (arith, remove-gone id (evict_oldest es), r.apart, k.apart, v.keys);
            names = ground (arith, r.old "", k.old "", v.names, n);
            bound = omega (arith, r.no_more, room_for c.max_entries id es m v.bound v.names full);
          })
      | inr room ↦
          let r = remove-Keeps id es in
          rw room (record {
            keys = ground (arith, remove-gone id es, r.apart, v.keys);
            names = ground (arith, r.old "", v.names, n);
            bound = ground (arith, r.no_more, v.bound, remove-shorter id es, room);
          })
    ]

-- what a call asks of its caller: an entry has a name
abbrev Named : Op → Type 0
Named (Op.set e) = str_eq e.migration_id "" ≡ false
Named (Op.delete id) = Unit
Named (Op.mark_completed now id phase) = Unit
Named (Op.mark_cleaned_up id) = Unit
Named (Op.cleanup now) = Unit

-- Every call keeps a cache that may hold an entry at all within its bound, with one entry for each
-- key and no empty key, provided that an entry that is set has a name.
pub apply-IsValid :
    (op : Op) (c : MigrationCache) → 1 ≤ c.max_entries → Named op → IsValid c → IsValid (apply op c)
unfolding apply delete mark_completed mark_cleaned_up cleanup
apply-IsValid (Op.set e) c m n v = set-IsValid e c m n v
apply-IsValid (Op.delete id) c m n v = Keeps-IsValid c _ v (remove-Keeps id c.entries)
apply-IsValid (Op.mark_completed now id phase) c m n v =
    Keeps-IsValid c _ v
      (adjust-Keeps (λ e. record e { completion_time = some now; phase = phase }) id c.entries)
apply-IsValid (Op.mark_cleaned_up id) c m n v =
    Keeps-IsValid c _ v (adjust-Keeps (λ e. record e { cleaned_up = true }) id c.entries)
apply-IsValid (Op.cleanup now) c m n v = Keeps-IsValid c _ v (filter-Keeps _ c.entries)
