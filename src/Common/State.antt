-- ===== src/Common/State.antt =====
-- Actions on a state: what they give, and the state after them.
pub mod Fallible
pub mod Leads
use mathlib.Core.Bool.{Bool}

abbrev pub M : Type 0 → Type 0 → Type 0
M S A = S → A × S

module _ {S A B : Type 0} where
  infixl 5 ◌>>=◌ ◌>>◌
  unfoldable pub ◌>>=◌ : M S A → (A → M S B) → M S B
  ◌>>=◌ m f s = f (m s).0 (m s).1

  unfoldable pub ◌>>◌ : M S A → M S B → M S B
  ◌>>◌ m n s = n (m s).1

unfoldable pub pure : {S A : Type 0} → A → M S A
pure a s = (a, s)

unfoldable pub gets : {S A : Type 0} → (S → A) → M S A
gets f s = (f s, s)

unfoldable pub modify : {S : Type 0} → (S → S) → M S (Unit {0})
modify f s = (tt, f s)
