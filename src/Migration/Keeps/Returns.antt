-- ===== src/Migration/Keeps/Returns.antt =====
-- Actions that panic by giving nothing: one rule for each way to build one that does not.
use reposhift.Common.{◌≡◌, ◌≢◌, refl, Option, none}
use reposhift.Migration.Types.{Migration}
use reposhift.Migration.Env.{St}
use reposhift.Migration.Action.{M, ◌>>=◌, ◌>>◌, gets}
use reposhift.Migration.Keeps.{Keeps, Leads}

-- It does not panic, and leads from one property of the state to another.
pub record Returns {W A : Type 0} (I J : St W → Type 0) (m : M W (Option A)) : Type 0 where
  pub at : (s : St W) → I s → ((m s).0 ≢ none) × J (m s).1

module _ {W A B : Type 0} {I J K : St W → Type 0} where
  pub Returns-bind :
      (m : M W B) (f : B → M W (Option A))
      → Leads I J m
      → ((b : B) → Returns J K (f b))
      → Returns I K (m >>= f)
  unfolding ◌>>=◌
  Returns-bind m f k g = record { at = λ s h. (g (m s).0).at (m s).1 (k.at s h) }

  pub Returns-then :
      (m : M W B) (n : M W (Option A)) → Leads I J m → Returns J K n → Returns I K (m >> n)
  unfolding ◌>>◌
  Returns-then m n k l = record { at = λ s h. l.at (m s).1 (k.at s h) }

module _ {W A B : Type 0} {I K : St W → Type 0} where
  pub Returns-after :
      (m : M W B) (n : M W (Option A)) → Keeps I m → Returns I K n → Returns I K (m >> n)
  Returns-after m n k l = Returns-then m n (record { at = k.at }) l

  -- what is read is the state's own
  pub Returns-read :
      (f : Migration → B) (g : B → M W (Option A))
      → ((m : Migration) → Returns (λ s. I s × (s.migration ≡ m)) K (g (f m)))
      → Returns I K (gets f >>= g)
  unfolding ◌>>=◌ gets
  Returns-read f g h = record { at = λ s i. (h s.migration).at s (i, refl) }
