-- ===== src/Common/Errors.antt =====
-- Go's `error` values, and a result that is a value or an error.
use mathlib.Core.Bool.{Bool, true, false}
use mathlib.Core.Option.{Option, none, some}
use mathlib.Core.List.{◌++◌}
use rancher_operator.Common.Text.{Text, codes}

-- What `apierrors.IsNotFound` and `apierrors.IsAlreadyExists` see of an error.
pub data Reason : Type 0 where
  not_found already_exists other : Reason

pub record Error : Type 0 where
  pub reason : Reason
  pub message : Text

-- `errors.New(m)`, and `fmt.Errorf(m)` with no `%w`
abbrev pub new_error : Text → Error
new_error m = record { reason = Reason.other; message = m }

-- `fmt.Errorf(prefix + ": %w", e)`: the wrapped error keeps its reason.
abbrev pub wrap : Text → Error → Error
wrap prefix e = record e { message = prefix ++ codes ": " ++ e.message }

-- `apierrors.IsNotFound(err)`
abbrev pub is_not_found : Error → Bool
is_not_found e = elim e.reason [ not_found ↦ true | _ ↦ false ]

-- `apierrors.IsAlreadyExists(err)`
abbrev pub is_already_exists : Error → Bool
is_already_exists e = elim e.reason [ already_exists ↦ true | _ ↦ false ]

pub data Result {ℓ} (A : Type ℓ) : Type ℓ where
  ok : A → Result A
  err : Error → Result A

-- The error that a call with no value returns, `none` for nil.
abbrev pub error_of {ℓ} : {A : Type ℓ} → Result A → Option Error
error_of (ok _) = none
error_of (err e) = some e

abbrev pub is_ok {ℓ} : {A : Type ℓ} → Result A → Bool
is_ok (ok _) = true
is_ok (err _) = false
