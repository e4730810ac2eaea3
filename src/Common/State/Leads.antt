-- ===== src/Common/State/Leads.antt =====
-- What an action makes of a property of the state, one rule for each way to build an action.
use Prim.Native.String.{String}
use mathlib.Core.Bool.{Bool, true, false}
use reposhift.Common.Tests.{if◌then◌else◌}
use reposhift.Common.Result.{Result, ok, err}
use reposhift.Common.State.{M, ◌>>=◌, ◌>>◌, pure}
use reposhift.Common.State.Fallible

-- From one property of the state to another.
pub record Leads {S A : Type 0} (I J : S → Type 0) (m : M S A) : Type 0 where
  pub at : (s : S) → I s → J (m s).1

abbrev pub Keeps : {S A : Type 0} → (S → Type 0) → M S A → Type 0
Keeps I m = Leads I I m

module _ {S A : Type 0} {I : S → Type 0} where
  pub Leads-pure : (a : A) → Leads I I (pure {S = S} a)
  unfolding pure
  Leads-pure a = record { at = λ s h. h }

  pub Leads-if :
      {J : S → Type 0} (b : Bool) (m n : M S A)
      → Leads I J m
      → Leads I J n
      → Leads I J (if b then m else n)
  Leads-if true m n k l = k
  Leads-if false m n k l = l

module _ {S A B : Type 0} {I J K : S → Type 0} where
  pub Leads-bind :
      (m : M S A) (f : A → M S B) → Leads I J m → ((a : A) → Leads J K (f a)) → Leads I K (m >>= f)
  unfolding ◌>>=◌
  Leads-bind m f k g = record { at = λ s h. (g (m s).0).at (m s).1 (k.at s h) }

  pub Leads-then : (m : M S A) (n : M S B) → Leads I J m → Leads J K n → Leads I K (m >> n)
  unfolding ◌>>◌
  Leads-then m n k l = record { at = λ s h. l.at (m s).1 (k.at s h) }

-- actions that may give an error, and keep a property whether they do or not
module _ {S A B : Type 0} {I : S → Type 0} where
  Keeps-continue :
      (r : Result A) (f : A → M S (Result B))
      → ((a : A) → Keeps I (f a))
      → Keeps I (Fallible.continue r f)
  Keeps-continue (ok a) f g = record { at = (g a).at }
  Keeps-continue (err x) f g = record { at = λ s h. h }

  pub Keeps-try :
      (m : M S (Result A)) (f : A → M S (Result B))
      → Keeps I m
      → ((a : A) → Keeps I (f a))
      → Keeps I (Fallible.◌>>=◌ m f)
  unfolding Fallible.◌>>=◌
  Keeps-try m f k g = record { at = λ s h. (Keeps-continue (m s).0 f g).at (m s).1 (k.at s h) }

  pub Keeps-try_then :
      (m : M S (Result A)) (n : M S (Result B))
      → Keeps I m
      → Keeps I n
      → Keeps I (Fallible.◌>>◌ m n)
  unfolding Fallible.◌>>◌
  Keeps-try_then m n k l = record {
    at = λ s h. (Keeps-continue (m s).0 (λ a. n) (λ a. l)).at (m s).1 (k.at s h);
  }

module _ {S A : Type 0} {I : S → Type 0} where
  pub Keeps-lift : (r : Result A) → Keeps I (Fallible.lift {S = S} r)
  unfolding Fallible.lift
  Keeps-lift r = record { at = λ s h. h }

  pub Keeps-ok : (a : A) → Keeps I (Fallible.pure {S = S} a)
  unfolding Fallible.pure
  Keeps-ok a = record { at = λ s h. h }

  pub Keeps-asking : (m : M S A) → Keeps I m → Keeps I (Fallible.asking m)
  unfolding Fallible.asking
  Keeps-asking m k = record { at = k.at }

  pub Keeps-wrapping :
      (prefix : String) (m : M S (Result A)) → Keeps I m → Keeps I (Fallible.wrapping prefix m)
  unfolding Fallible.wrapping
  Keeps-wrapping prefix m k = record { at = k.at }

-- what an action gives has a property, whatever the state
module _ {S A B : Type 0} {I J K : S → Type 0} where
  pub Leads-bind_with :
      (Q : A → Type 0) (m : M S A) (f : A → M S B)
      → ((s : S) → Q (m s).0)
      → Leads I J m
      → ((a : A) → Q a → Leads J K (f a))
      → Leads I K (m >>= f)
  unfolding ◌>>=◌
  Leads-bind_with Q m f v k g = record { at = λ s h. (g (m s).0 (v s)).at (m s).1 (k.at s h) }
