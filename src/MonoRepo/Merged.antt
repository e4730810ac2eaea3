-- ===== src/MonoRepo/Merged.antt =====
-- What the status tells of a repository that was merged.
use reposhift.Common.{
  ◌+◌, ◌≡◌, refl, ap, String, Bool, not, ◌&&◌, List, [], ◌∷◌, length, count_if, arith,
}
use reposhift.MonoRepo.Branches.{is_included, is_excluded, filter_by, filter_branches}
use reposhift.MonoRepo.Assemble.{branches_to_merge}
use reposhift.MonoRepo.Merging.{actual_branches_migrated}

module _ (match : (pattern name : String) → Bool) (include exclude : List String)
    (default : String) where
  -- merged, as the exclude list leaves it, and not wanted, as the include list has no pattern for
  -- it
  abbrev pub is_unwanted : String → Bool
  is_unwanted branch =
      not (is_included match include default branch)
      && not (is_excluded match exclude default branch)

  length-filter_by :
      (branches : List String)
      → length (filter_by match include exclude default branches) + count_if is_unwanted branches
        ≡ length (filter_by match [] exclude default branches)
  unfolding filter_by is_included
  length-filter_by [] = omega arith
  length-filter_by (b ∷ rest) = ground (arith, length-filter_by rest)

module _ (match : (pattern name : String) → Bool) (default : String) where
  filter_by-nil : (branches : List String) → filter_by match [] [] default branches ≡ branches
  unfolding filter_by is_included is_excluded
  filter_by-nil [] = refl
  filter_by-nil (b ∷ rest) = ap (λ (x : List String). b ∷ x) (filter_by-nil rest)

  none_unwanted :
      (exclude branches : List String)
      → count_if (is_unwanted match [] exclude default) branches ≡ 0
  unfolding is_included
  none_unwanted exclude [] = refl
  none_unwanted exclude (b ∷ rest) = omega (arith, none_unwanted exclude rest)

  -- The branches that the status reports as migrated are fewer than those that the merge works
  -- through, by exactly the branches that no include pattern matches, that are not the default one,
  -- and that the exclude list leaves: the merge does not read the include list.
  pub actual_branches_migrated-unwanted :
      (include exclude branches : List String)
      → actual_branches_migrated match branches include exclude default
          + count_if (is_unwanted match include exclude default) branches
        ≡ length (branches_to_merge match branches exclude default)
  unfolding actual_branches_migrated branches_to_merge filter_branches
  actual_branches_migrated-unwanted [] [] branches = omega (arith, none_unwanted [] branches)
  actual_branches_migrated-unwanted [] (x ∷ exclude) branches =
      omega (arith, none_unwanted (x ∷ exclude) branches)
  actual_branches_migrated-unwanted (i ∷ include) [] [] = omega arith
  actual_branches_migrated-unwanted (i ∷ include) [] (b ∷ rest) = omega (
    arith,
    length-filter_by match (i ∷ include) [] default (b ∷ rest),
    ap (λ (l : List String). length l) (filter_by-nil (b ∷ rest)),
  )
  actual_branches_migrated-unwanted (i ∷ include) (x ∷ exclude) [] = omega arith
  actual_branches_migrated-unwanted (i ∷ include) (x ∷ exclude) (b ∷ rest) =
      length-filter_by match (i ∷ include) (x ∷ exclude) default (b ∷ rest)
