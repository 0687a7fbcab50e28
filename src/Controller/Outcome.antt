-- ===== src/Controller/Outcome.antt =====
-- What a `Reconcile` returns, and the constants that the reconcilers share.
use rancher_operator.Common.{ℕ, ◌*◌, Option, none, some, Error, Result, error_of}
use rancher_operator.Common.Text.{Text, codes}

-- `ctrl.Result` by its `RequeueAfter`, in nanoseconds, and the error.
pub record Outcome : Type 0 where
  pub requeue_after : ℕ
  pub error : Option Error

abbrev pub second : ℕ
second = 1000000000

abbrev pub requeue_after_success : ℕ
requeue_after_success = 5 * (60 * second)

abbrev pub requeue_after_error : ℕ
requeue_after_error = 30 * second

abbrev pub condition_type_available : Text
condition_type_available = codes "Available"

-- `return ctrl.Result{}, nil`
abbrev pub done : Outcome
done = record { requeue_after = 0; error = none }

-- `return ctrl.Result{}, e`
abbrev pub failed : Error → Outcome
failed e = record { requeue_after = 0; error = some e }

-- `return ctrl.Result{RequeueAfter: t}, err` behind a call that returned `r`
abbrev pub after_write : ℕ → Result (Unit {0}) → Outcome
after_write t r = record { requeue_after = t; error = error_of r }
