-- ===== src/Migration/Action/Fallible.antt =====
-- Actions that may give an error, in do blocks that stop at the first one.
use reposhift.Common.{String}
use reposhift.Common.Result.{Result, ok, err, wrap}
use reposhift.Migration.Env.{St}

-- The action's result and state, and what to do with a result.
abbrev pub continue :
    {W A B : Type 0} → Result A → (A → St W → Result B × St W) → St W → Result B × St W
continue (ok a) f s = f a s
continue (err error) f s = (err error, s)

infixl 5 ◌>>=◌ ◌>>◌
unfoldable pub ◌>>=◌ :
    {W A B : Type 0}
    → (St W → Result A × St W)
    → (A → St W → Result B × St W)
    → St W
    → Result B × St W
◌>>=◌ m f s = continue (m s).0 f (m s).1

unfoldable pub ◌>>◌ :
    {W A B : Type 0} → (St W → Result A × St W) → (St W → Result B × St W) → St W → Result B × St W
◌>>◌ m n s = continue (m s).0 (λ a. n) (m s).1

-- an action that gives no error
unfoldable pub asking : {W A : Type 0} → (St W → A × St W) → St W → Result A × St W
asking m s = (ok (m s).0, (m s).1)

unfoldable pub pure : {W A : Type 0} → A → St W → Result A × St W
pure a s = (ok a, s)

-- a result that reads and changes nothing
unfoldable pub lift : {W A : Type 0} → Result A → St W → Result A × St W
lift r s = (r, s)

-- fmt.Errorf("prefix: %w", err) on the error of an action
unfoldable pub wrapping :
    {W A : Type 0} → String → (St W → Result A × St W) → St W → Result A × St W
wrapping prefix m s = (wrap prefix (m s).0, (m s).1)
