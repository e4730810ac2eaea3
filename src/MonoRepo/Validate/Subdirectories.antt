-- ===== src/MonoRepo/Validate/Subdirectories.antt =====
-- Which monorepo migrations ValidateMonoRepoMigration accepts.
use reposhift.Common.{
  ◌≡◌, refl, ◌∙◌, String, Bool, true, false, not, ◌&&◌, Option, none, some, List, [], ◌∷◌, ◌++◌,
  map, all, any, str_eq, arith, inl, inr, Bool-cases, if◌then◌else◌,
}
use reposhift.MonoRepo.Types.{SourceRepo, MonoSpec}
use reposhift.MonoRepo.Branches.{is_empty}
use reposhift.MonoRepo.Progress.{find_workspace}
use reposhift.MonoRepo.Validate.{
  Mistake, unless_given, subdirectory_of, used_twice, subdir_names, mistakes_in,
}

abbrev is_given : String → Bool
is_given text = not (str_eq text "")

-- no text stands twice in the list
abbrev pub distinct : List String → Bool
distinct [] = true
distinct (s ∷ rest) = not (any (str_eq s) rest) && distinct rest

abbrev pub is_complete : MonoSpec → Bool
is_complete spec =
    is_given spec.organization
    && (is_given spec.project
        && (is_given spec.owner
            && (is_given spec.repository
                && (not (is_empty spec.source_repos)
                    && (all (λ r. is_given r.name) spec.source_repos
                        && distinct (map subdirectory_of spec.source_repos))))))

is_empty-append : {A : Type 0} (l k : List A) → is_empty (l ++ k) ≡ (is_empty l && is_empty k)
is_empty-append [] k = refl
is_empty-append (a ∷ l) k = refl

is_empty-unless_given :
    (text code message : String) → is_empty (unless_given text code message) ≡ is_given text
is_empty-unless_given text code message = ground arith

-- no entry yet for a subdirectory
abbrev is_fresh : List (String × String) → String → Bool
is_fresh names subdir = elim (find_workspace subdir names) [ none ↦ true | some other ↦ false ]

is_empty-used_twice :
    (subdir name : String) (other : Option String)
    → is_empty (used_twice subdir name other) ≡ elim other [ none ↦ true | some x ↦ false ]
is_empty-used_twice subdir name none = refl
is_empty-used_twice subdir name (some x) = refl

is_fresh-cons :
    (subdir name : String) (names : List (String × String)) (l : List String)
    → all (is_fresh ((subdir, name) ∷ names)) l
      ≡ (not (any (str_eq subdir) l) && all (is_fresh names) l)
unfolding find_workspace
is_fresh-cons subdir name names [] = refl
is_fresh-cons subdir name names (s ∷ l) = ground (arith, is_fresh-cons subdir name names l)

is_empty-subdir_names :
    (names : List (String × String)) (l : List SourceRepo)
    → is_empty (subdir_names names l) ≡ (
        all (λ r. is_given r.name) l
        && (all (is_fresh names) (map subdirectory_of l) && distinct (map subdirectory_of l)))
unfolding subdir_names
is_empty-subdir_names names [] = refl
is_empty-subdir_names names (r ∷ l) =
    let subdir = subdirectory_of r in
    elim (Bool-cases (str_eq r.name "")) [
      | inl unnamed ↦ rw unnamed refl
      | inr named ↦ rw named (
          is_empty-append (used_twice subdir r.name (find_workspace subdir names)) _
          ∙ ground (
            arith,
            is_empty-used_twice subdir r.name (find_workspace subdir names),
            is_empty-subdir_names ((subdir, r.name) ∷ names) l,
            is_fresh-cons subdir r.name names (map subdirectory_of l),
          ))
    ]

is_empty-unless : (m : Mistake) (b : Bool) → is_empty (if b then m ∷ [] else []) ≡ not b
is_empty-unless m true = refl
is_empty-unless m false = refl

all-fresh : (l : List String) → all (is_fresh []) l ≡ true
unfolding find_workspace
all-fresh [] = refl
all-fresh (s ∷ l) = all-fresh l

-- ValidateMonoRepoMigration finds no mistake exactly if the organization, the project, the owner and
-- the repository are given, there are source repositories, each has a name, and no two of them go
-- into the same subdirectory.
pub is_empty-mistakes_in : (spec : MonoSpec) → is_empty (mistakes_in spec) ≡ is_complete spec
unfolding mistakes_in
is_empty-mistakes_in spec =
    simp (is_empty-append, is_empty-unless_given, is_empty-unless, is_empty-subdir_names, all-fresh)
