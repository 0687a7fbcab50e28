-- ===== src/Runtime/Rules.antt =====
-- Rules for a property `P` of the result and the log of a function body, one for each way to go on.
use rancher_operator.Common.{
  ◌≡◌, refl, Bool, true, false, Option, none, some, Error, Result, ok, err,
}
use rancher_operator.Runtime.Calls.{Log}
use rancher_operator.Runtime.Programs.{M, Flow, and_then, or_exit, some_or_exit, exit_if, result_of}

module _ {R A : Type 0} (P : R × Log → Type 0) where
  -- Behind a fallible call that answered `r`.
  pub or_exit-rule :
      (r : Result A) (log : Log) (handler : Error → M R) (f : A → Flow R R)
      → ((e : Error) → r ≡ err e → P (handler e log))
      → ((a : A) → r ≡ ok a → P (result_of (f a log)))
      → P (result_of (and_then f (or_exit handler (r, log))))
  or_exit-rule (ok a) log handler f failing going = going a refl
  or_exit-rule (err e) log handler f failing going = failing e refl

  -- Behind a fallible part of the program that led to `p`.
  pub attempt-rule :
      (p : Result A × Log) (handler : Error → M R) (f : A → Flow R R)
      → ((e : Error) (log : Log) → p ≡ (err e, log) → P (handler e log))
      → ((a : A) (log : Log) → p ≡ (ok a, log) → P (result_of (f a log)))
      → P (result_of (and_then f (or_exit handler p)))
  attempt-rule (ok a, log) handler f failing going = going a log refl
  attempt-rule (err e, log) handler f failing going = failing e log refl

  -- Behind a nil check.
  pub some_or_exit-rule :
      (o : Option A) (log : Log) (m : M R) (f : A → Flow R R)
      → (o ≡ none → P (m log))
      → ((a : A) → o ≡ some a → P (result_of (f a log)))
      → P (result_of (and_then f (some_or_exit m o log)))
  some_or_exit-rule none log m f missing going = missing refl
  some_or_exit-rule (some a) log m f missing going = going a refl

module _ {R : Type 0} (P : R × Log → Type 0) where
  -- Behind a guard.
  pub exit_if-rule :
      (b : Bool) (log : Log) (m : M R) (f : Unit {0} → Flow R R)
      → (b ≡ true → P (m log))
      → (b ≡ false → P (result_of (f tt log)))
      → P (result_of (and_then f (exit_if b m log)))
  exit_if-rule true log m f leaving going = leaving refl
  exit_if-rule false log m f leaving going = going refl
