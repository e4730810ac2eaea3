-- ===== src/MonoRepo/Branches.antt =====
-- Branch names: FilterBranches with its patterns, of internal/services/migration.go, and the lists
-- that git prints.
use mathlib.Core.Option
use reposhift.Common.{
  Option, none, some, ℕ, String, Bool, true, false, not, ◌&&◌, ◌||◌, List, [], ◌∷◌, ◌==◌, str_eq,
  str_append, any, if◌then◌else◌,
}
use reposhift.Common.Text.{codes, has_prefix}
use Prim.Native.Char.{code}

-- unicode.IsSpace on the ASCII characters
abbrev is_space : ℕ → Bool
is_space c = c == 32 || c == 9 || c == 10 || c == 11 || c == 12 || c == 13

abbrev trim_left : String → String
trim_left String.[] = ""
trim_left (String.◌∷◌ c s) = if is_space (code c) then trim_left s else String.◌∷◌ c s

-- less the spaces at the end
abbrev trim_right : String → String
trim_right String.[] = ""
trim_right (String.◌∷◌ c s) =
    let rest = trim_right s in if is_space (code c) && str_eq rest "" then "" else String.◌∷◌ c rest

-- strings.TrimSpace
unfoldable pub trim_space : String → String
trim_space s = trim_right (trim_left s)

abbrev on_first : (String → String) → List String → List String
on_first f [] = f "" ∷ []
on_first f (s ∷ rest) = f s ∷ rest

-- strings.Split(s, "\n")
unfoldable split_lines : String → List String
split_lines String.[] = "" ∷ []
split_lines (String.◌∷◌ c s) =
    let rest = split_lines s in
    if code c == 10 then "" ∷ rest else on_first (λ line. String.◌∷◌ c line) rest

-- the text after its first two characters, where these are `* `
unfoldable without_star : String → String
without_star (String.◌∷◌ c (String.◌∷◌ d s)) =
    if code c == b'*' && code d == 32 then s else String.◌∷◌ c (String.◌∷◌ d s)
without_star s = s

-- the lines that are not empty once trimmed
unfoldable names_in : (String → String) → List String → List String
unfolding trim_space
names_in f [] = []
names_in f (line ∷ rest) =
    let name = trim_space (f line) in
    if str_eq name "" then names_in f rest else name ∷ names_in f rest

-- of `git branch --list`, and of `git tag --list`
unfoldable pub branches_of : String → List String
unfolding names_in split_lines trim_space without_star
branches_of output = names_in without_star (split_lines (trim_space output))

unfoldable pub tags_of : String → List String
unfolding names_in split_lines trim_space
tags_of output = names_in (λ line. line) (split_lines (trim_space output))

-- strings.HasPrefix of texts
abbrev starts_with : String → String → Bool
starts_with s p = has_prefix (codes s) (codes p)

-- what stands before a `/*` at the end, where there is one
unfoldable without_wildcard : String → Option String
without_wildcard String.[] = none
without_wildcard (String.◌∷◌ c s) =
    if str_eq (String.◌∷◌ c s) "/*"
    then some ""
    else Option.map (λ rest. String.◌∷◌ c rest) (without_wildcard s)

abbrev pub is_empty {ℓ} : {A : Type ℓ} → List A → Bool
is_empty [] = true
is_empty (a ∷ rest) = false

module _ (match : (pattern name : String) → Bool) where
  -- past the exact match: a prefix with a separator, everything, or a glob
  unfoldable matches_by : (branch pattern : String) → Option String → Bool
  matches_by branch pattern (some prefix) =
      starts_with branch (str_append prefix "/") || starts_with branch (str_append prefix "-")
  matches_by branch pattern none = str_eq pattern "*" || match pattern branch

  unfoldable match_branch_pattern : (branch pattern : String) → Bool
  unfolding matches_by without_wildcard
  match_branch_pattern branch pattern =
      str_eq branch pattern || matches_by branch pattern (without_wildcard pattern)

  unfoldable matches_any_pattern : String → List String → Bool
  unfolding match_branch_pattern
  matches_any_pattern branch patterns = any (match_branch_pattern branch) patterns

  -- past the include list, or the default branch
  unfoldable pub is_included : (include : List String) → (default branch : String) → Bool
  unfolding matches_any_pattern
  is_included include default branch =
      is_empty include || (matches_any_pattern branch include || str_eq branch default)

  -- on the exclude list, and not the default branch
  unfoldable pub is_excluded : (exclude : List String) → (default branch : String) → Bool
  unfolding matches_any_pattern
  is_excluded exclude default branch =
      not (is_empty exclude) && (matches_any_pattern branch exclude && not (str_eq branch default))

  unfoldable pub filter_by :
      (include exclude : List String) → (default : String) → List String → List String
  unfolding is_included is_excluded
  filter_by include exclude default [] = []
  filter_by include exclude default (branch ∷ rest) =
      let filtered = filter_by include exclude default rest in
      if is_included include default branch && not (is_excluded exclude default branch)
      then branch ∷ filtered
      else filtered

  unfoldable pub filter_branches :
      List String → (include exclude : List String) → (default : String) → List String
  unfolding filter_by
  filter_branches branches include exclude default =
      if is_empty branches || (is_empty include && is_empty exclude)
      then branches
      else filter_by include exclude default branches
