-- ===== src/Common/State/Fallible.antt =====
-- Actions that may give an error, in do blocks that stop at the first one.
use Prim.Native.String.{String}
use reposhift.Common.Result.{Result, ok, err, wrap}

abbrev pub continue : {S A B : Type 0} → Result A → (A → S → Result B × S) → S → Result B × S
continue (ok a) f s = f a s
continue (err error) f s = (err error, s)

infixl 5 ◌>>=◌ ◌>>◌
unfoldable pub ◌>>=◌ :
    {S A B : Type 0} → (S → Result A × S) → (A → S → Result B × S) → S → Result B × S
◌>>=◌ m f s = continue (m s).0 f (m s).1

unfoldable pub ◌>>◌ : {S A B : Type 0} → (S → Result A × S) → (S → Result B × S) → S → Result B × S
◌>>◌ m n s = continue (m s).0 (λ a. n) (m s).1

-- an action that gives no error
unfoldable pub asking : {S A : Type 0} → (S → A × S) → S → Result A × S
asking m s = (ok (m s).0, (m s).1)

unfoldable pub pure : {S A : Type 0} → A → S → Result A × S
pure a s = (ok a, s)

-- a result that reads and changes nothing
unfoldable pub lift : {S A : Type 0} → Result A → S → Result A × S
lift r s = (r, s)

-- fmt.Errorf("prefix: %w", err) on the error of an action
unfoldable pub wrapping : {S A : Type 0} → String → (S → Result A × S) → S → Result A × S
wrapping prefix m s = (wrap prefix (m s).0, (m s).1)
