-- ===== src/Migration/Valid.antt =====
-- What holds of the status of a migration, and that the changes of one resource keep it.
pub mod Restart
use reposhift.Common.{
  ℕ, zero, suc, ◌+◌, ◌≡◌, ◌≢◌, refl, sym, ◌∙◌, ap, Bool-cases, inl, inr, String, Bool, true, false,
  not, ◌||◌, Option, none, some, List, [], ◌∷◌, ◌++◌, arith, count_if, count_if-append, get_elem?,
  set, length, str_eq, eq_iff,
}
use reposhift.Common.Int.{ℤ, pos, ◌+ℤ◌}
use reposhift.Batch.Types.{ResourceStatus}
use reposhift.Migration.Types.{
  MigrationPhase, MigrationResource, ResourceMigrationStatus, MigrationProgress, MigrationStatus,
}
use reposhift.Migration.Restart.Diff.{is_none}
use reposhift.Migration.Resource.{
  is_done, check_resource_status, create_resource_status, place, index_in, placed, concluded,
  counted, settled, update_progress_percentage, shown_as_processing, shifted,
}

unfoldable pub is_completed : ResourceMigrationStatus → Bool
is_completed s = elim s.status [ ResourceStatus.completed ↦ true | _ ↦ false ]

unfoldable pub is_failed : ResourceMigrationStatus → Bool
is_failed s = elim s.status [ ResourceStatus.failed ↦ true | _ ↦ false ]

-- how many statuses pass a test
unfoldable pub count_status : (ResourceMigrationStatus → Bool) → List ResourceMigrationStatus → ℕ
count_status p l = count_if p l

-- The counters are the numbers of statuses.
pub record IsCounted (b : MigrationStatus) : Type 0 where
  pub completed_lem : b.progress.completed ≡ pos (count_status is_completed b.resource_statuses)
  pub failed_lem : b.progress.failed ≡ pos (count_status is_failed b.resource_statuses)

-- The counters are right, there are no statuses before the migration starts,
-- and a migration with a start time has statistics.
pub record IsValid (b : MigrationStatus) : Type 0 where
  pub counted : IsCounted b
  pub unset_lem : b.phase ≡ MigrationPhase.unset → b.resource_statuses ≡ []
  pub statistics_lem : is_none b.start_time ≡ false → is_none b.statistics ≡ false

-- a test that only a processed status passes
abbrev Settles : (ResourceMigrationStatus → Bool) → Type 0
Settles p = (s : ResourceMigrationStatus) → is_done s.status ≡ false → p s ≡ false

is_completed-Settles : Settles is_completed
unfolding is_completed is_done
is_completed-Settles s h = ground arith

is_failed-Settles : Settles is_failed
unfolding is_failed is_done
is_failed-Settles s h = ground arith

-- the status at an index is there and is not processed
abbrev pub IsOpenAt : ℕ → List ResourceMigrationStatus → Type 0
IsOpenAt i l = (s : ResourceMigrationStatus) × (get_elem? l i ≡ some s) × (is_done s.status ≡ false)

-- an index, if any, of a status that is not processed
abbrev pub IsOpen : Option ℕ → List ResourceMigrationStatus → Type 0
IsOpen none l = Unit {0}
IsOpen (some i) l = IsOpenAt i l

count_status-set :
    (p : ResourceMigrationStatus → Bool) (l : List ResourceMigrationStatus) (i : ℕ)
    (old new : ResourceMigrationStatus)
    → get_elem? l i ≡ some old
    → p old ≡ false
    → count_status p (set l i new) ≡ count_status p l + count_status p (new ∷ [])
unfolding count_status
count_status-set p [] i old new h k = cc
count_status-set p (x ∷ rest) zero old new h k = ground arith
count_status-set p (x ∷ rest) (suc i) old new h k =
    omega (arith, count_status-set p rest i old new h k)

-- Placing a status that is not processed where none is processed changes no count.
count_status-place :
    (p : ResourceMigrationStatus → Bool) (l : List ResourceMigrationStatus) (index : Option ℕ)
    (new : ResourceMigrationStatus)
    → Settles p
    → IsOpen index l
    → is_done new.status ≡ false
    → count_status p (place index new l) ≡ count_status p l
unfolding count_status place
count_status-place p l none new s o h = ground (arith, count_if-append p l (new ∷ []), s new h)
count_status-place p l (some i) new s (old, at, k) h =
    ground (arith, count_status-set p l i old new at (s old k), s new h)

get_elem?-append :
    (l : List ResourceMigrationStatus) (s : ResourceMigrationStatus)
    → get_elem? (l ++ s ∷ []) (length l) ≡ some s
get_elem?-append [] s = refl
get_elem?-append (x ∷ rest) s = get_elem?-append rest s

get_elem?-set :
    (l : List ResourceMigrationStatus) (i : ℕ) (old s : ResourceMigrationStatus)
    → get_elem? l i ≡ some old
    → get_elem? (set l i s) i ≡ some s
get_elem?-set [] i old s h = cc
get_elem?-set (x ∷ rest) zero old s h = refl
get_elem?-set (x ∷ rest) (suc i) old s h = get_elem?-set rest i old s h

pub place-IsOpenAt :
    (l : List ResourceMigrationStatus) (index : Option ℕ) (s : ResourceMigrationStatus)
    → IsOpen index l
    → is_done s.status ≡ false
    → IsOpenAt (index_in index l) (place index s l)
unfolding place index_in
place-IsOpenAt l none s o h = (s, get_elem?-append l s, h)
place-IsOpenAt l (some i) s (old, at, k) h = (s, get_elem?-set l i old s at, h)

-- an index, if any, that stands beside whether its status is processed
abbrev pub IsOpenIf : Option ℕ × Bool → List ResourceMigrationStatus → Type 0
IsOpenIf (index, true) l = Unit {0}
IsOpenIf (index, false) l = IsOpen index l

IsOpenIf-shifted :
    (x : ResourceMigrationStatus) (rest : List ResourceMigrationStatus) (c : Option ℕ × Bool)
    → IsOpenIf c rest
    → IsOpenIf (shifted c) (x ∷ rest)
IsOpenIf-shifted x rest (none, true) o = o
IsOpenIf-shifted x rest (none, false) o = o
IsOpenIf-shifted x rest (some i, true) o = o
IsOpenIf-shifted x rest (some i, false) o = o

IsOpenIf-first :
    (x : ResourceMigrationStatus) (rest : List ResourceMigrationStatus) (b : Bool)
    → is_done x.status ≡ b
    → IsOpenIf (some 0, b) (x ∷ rest)
IsOpenIf-first x rest true h = tt
IsOpenIf-first x rest false h = (x, refl, h)

-- checkResourceStatus gives the index of a status that is not processed, or a processed one.
pub check_resource_status-IsOpenIf :
    (name : String) (l : List ResourceMigrationStatus) → IsOpenIf (check_resource_status name l) l
unfolding check_resource_status
check_resource_status-IsOpenIf name [] = tt
check_resource_status-IsOpenIf name (s ∷ rest) = elim (Bool-cases (str_eq s.source_name name)) [
  | inl here ↦ rw here (IsOpenIf-first s rest (is_done s.status) refl)
  | inr further ↦ rw further (
      IsOpenIf-shifted s rest (check_resource_status name rest)
        (check_resource_status-IsOpenIf name rest))
]

pub create_resource_status-is_done :
    (t : ℕ) (r : MigrationResource) → is_done (create_resource_status t r).status ≡ false
unfolding create_resource_status is_done
create_resource_status-is_done t r = refl

module _ (b : MigrationStatus) (v : IsValid b) where
  shown_as_processing-IsValid : (r : MigrationResource) → IsValid (shown_as_processing r b)
  unfolding shown_as_processing
  shown_as_processing-IsValid r = record {
    counted = record { completed_lem = v.counted.completed_lem; failed_lem = v.counted.failed_lem };
    unset_lem = v.unset_lem;
    statistics_lem = v.statistics_lem;
  }

  pub placed-IsValid :
      (index : Option ℕ) (t : ℕ) (r : MigrationResource)
      → b.phase ≢ MigrationPhase.unset
      → IsOpen index b.resource_statuses
      → IsValid (placed index (create_resource_status t r) b)
  unfolding placed
  placed-IsValid index t r n o =
      let new = create_resource_status t r in
      let l = b.resource_statuses in
      record {
        counted = record {
          completed_lem =
              v.counted.completed_lem
              ∙ ap pos (
                  sym (
                    count_status-place is_completed l index new is_completed-Settles o
                      (create_resource_status-is_done t r)));
          failed_lem =
              v.counted.failed_lem
              ∙ ap pos (
                  sym (
                    count_status-place is_failed l index new is_failed-Settles o
                      (create_resource_status-is_done t r)));
        };
        unset_lem = λ u. elim (n u) [ ];
        statistics_lem = v.statistics_lem;
      }

  settled-completed :
      (t : ℕ) (error : Option String) (i : ℕ) (r : MigrationResource) (st : ResourceMigrationStatus)
      → IsOpenAt i b.resource_statuses
      → (settled t error i r st b).progress.completed
        ≡ pos (count_status is_completed (settled t error i r st b).resource_statuses)
  unfolding settled update_progress_percentage counted concluded is_completed count_status ◌+ℤ◌
  settled-completed t none i r st (old, at, k) = ground (
    arith,
    v.counted.completed_lem,
    is_completed-Settles old k,
    count_status-set is_completed b.resource_statuses i old (concluded t none st) at,
  )
  settled-completed t (some error) i r st (old, at, k) = ground (
    arith,
    v.counted.completed_lem,
    is_completed-Settles old k,
    count_status-set is_completed b.resource_statuses i old (concluded t (some error) st) at,
  )

  settled-failed :
      (t : ℕ) (error : Option String) (i : ℕ) (r : MigrationResource) (st : ResourceMigrationStatus)
      → IsOpenAt i b.resource_statuses
      → (settled t error i r st b).progress.failed
        ≡ pos (count_status is_failed (settled t error i r st b).resource_statuses)
  unfolding settled update_progress_percentage counted concluded is_failed count_status ◌+ℤ◌
  settled-failed t none i r st (old, at, k) = ground (
    arith,
    v.counted.failed_lem,
    is_failed-Settles old k,
    count_status-set is_failed b.resource_statuses i old (concluded t none st) at,
  )
  settled-failed t (some error) i r st (old, at, k) = ground (
    arith,
    v.counted.failed_lem,
    is_failed-Settles old k,
    count_status-set is_failed b.resource_statuses i old (concluded t (some error) st) at,
  )

  -- the counts after the status at an open index is concluded
  pub settled-IsValid :
      (t : ℕ) (error : Option String) (i : ℕ) (r : MigrationResource) (st : ResourceMigrationStatus)
      → b.phase ≢ MigrationPhase.unset
      → IsOpenAt i b.resource_statuses
      → IsValid (settled t error i r st b)
  unfolding settled
  settled-IsValid t error i r st n (old, at, k) = record {
    counted = record {
      completed_lem = settled-completed t error i r st (old, at, k);
      failed_lem = settled-failed t error i r st (old, at, k);
    };
    unset_lem = λ u. elim (n u) [ ];
    statistics_lem = λ h. refl;
  }
