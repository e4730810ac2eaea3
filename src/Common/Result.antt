-- ===== src/Common/Result.antt =====
-- Go's `(T, error)`: a value, or the text of the error. An `error` alone is an `Option String`.
use Prim.Native.String.{String}
use Prim.Native.String.{◌++◌ as str_append}
use mathlib.Core.Option.{Option, none, some}

pub data Result {ℓ} (A : Type ℓ) : Type ℓ where
  ok : A → Result A
  err : String → Result A

infixl 5 ◌>>=◌
abbrev pub ◌>>=◌ {ℓ κ} : {A : Type ℓ} {B : Type κ} → Result A → (A → Result B) → Result B
ok a >>= f = f a
err e >>= f = err e

-- fmt.Errorf("prefix: %w", err)
abbrev pub wrap {ℓ} : {A : Type ℓ} → String → Result A → Result A
wrap p (ok a) = ok a
wrap p (err e) = err (str_append p e)

abbrev pub wrap_error : String → Option String → Option String
wrap_error p none = none
wrap_error p (some e) = some (str_append p e)
