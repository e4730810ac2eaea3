-- ===== src/Retry/Errors.antt =====
-- internal/controller/errors.go: the classes of errors and what a controller returns for them.
use reposhift.Common.{
  ℕ, ◌≡◌, refl, String, Bool, true, false, Option, none, some, str_append, str_eq, not, ◌&&◌, ◌||◌,
  arith, if◌then◌else◌,
}

-- type ErrorType; `other` is any text that is no constant
pub data ErrorType : Type 0 where
  retryable terminal validation : ErrorType
  other : String → ErrorType

-- type ClassifiedError, with the text of the error that it wraps
pub record ClassifiedError : Type 0 where
  pub type : ErrorType
  pub err : String
  pub message : String
  pub retry_after : ℕ

-- An error is a *ClassifiedError or of another type, of which its text alone is read.
pub data GoError : Type 0 where
  classified : ClassifiedError → GoError
  plain : String → GoError

abbrev pub is_some {ℓ} : {A : Type ℓ} → Option A → Bool
is_some none = false
is_some (some a) = true

abbrev new_retryable_error : String → String → ClassifiedError
new_retryable_error err message = record {
  type = ErrorType.retryable;
  err = err;
  message = message;
  retry_after = 0;
}

abbrev pub new_terminal_error : String → String → ClassifiedError
new_terminal_error err message = record {
  type = ErrorType.terminal;
  err = err;
  message = message;
  retry_after = 0;
}

abbrev new_validation_error : String → String → ClassifiedError
new_validation_error err message = record {
  type = ErrorType.validation;
  err = err;
  message = message;
  retry_after = 0;
}

abbrev type_text : ErrorType → String
type_text ErrorType.retryable = "Retryable"
type_text ErrorType.terminal = "Terminal"
type_text ErrorType.validation = "Validation"
type_text (ErrorType.other s) = s

-- ClassifiedError.Error
unfoldable pub error : GoError → String
error (GoError.plain s) = s
error (GoError.classified c) =
    if not (str_eq c.message "")
    then str_append "[" (
        str_append (type_text c.type)
          (str_append "] " (str_append c.message (str_append ": " c.err))))
    else str_append "[" (str_append (type_text c.type) (str_append "] " c.err))

abbrev pub is_retryable_type : ErrorType → Bool
is_retryable_type ErrorType.retryable = true
is_retryable_type _ = false

abbrev is_terminal_type : ErrorType → Bool
is_terminal_type ErrorType.terminal = true
is_terminal_type ErrorType.validation = true
is_terminal_type _ = false

-- `none` is the nil error
unfoldable pub is_retryable : Option GoError → Bool
is_retryable none = false
is_retryable (some (GoError.classified c)) = is_retryable_type c.type
is_retryable (some (GoError.plain e)) = true

unfoldable pub is_terminal : Option GoError → Bool
is_terminal none = false
is_terminal (some (GoError.classified c)) = is_terminal_type c.type
is_terminal (some (GoError.plain e)) = false

-- HandleReconcileError, whose ctrl.Result is always empty: the error that it returns
unfoldable pub handle_reconcile_error : Option GoError → Option GoError
handle_reconcile_error none = none
handle_reconcile_error (some (GoError.classified c)) =
    if is_retryable_type c.type
    then some (GoError.classified c)
    else if is_terminal_type c.type
    then none
    else some (GoError.classified c)
handle_reconcile_error (some (GoError.plain e)) = some (GoError.plain e)

-- The constants of ErrorType.
abbrev Known : Option GoError → Type 0
Known none = Unit
Known (some (GoError.plain e)) = Unit
Known (some (GoError.classified c)) = (is_retryable_type c.type || is_terminal_type c.type) ≡ true

-- For an error whose type is one of the three constants, or that has no type, the reconciler
-- returns an error, so that the call is repeated, exactly if the error is retryable; it is then
-- the same error. An error that is not repeated is terminal.
pub handle_reconcile_error_lem :
    (e : Option GoError)
    → Known e
    → (handle_reconcile_error e ≡ (if is_retryable e then e else none))
      × (is_terminal e ≡ (is_some e && not (is_retryable e)))
unfolding handle_reconcile_error is_retryable is_terminal
handle_reconcile_error_lem none k = (refl, refl)
handle_reconcile_error_lem (some (GoError.plain e)) k = (refl, refl)
handle_reconcile_error_lem (some (GoError.classified c)) k = ground arith
