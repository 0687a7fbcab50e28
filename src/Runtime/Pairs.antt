-- ===== src/Runtime/Pairs.antt =====
-- Rules for a relation `Q` of two runs that meet the same answers.
use rancher_operator.Common.{
  ◌≡◌, sym, subst, Bool, true, false, Option, none, some, Error, Result, ok, err,
}
use rancher_operator.Runtime.Calls.{Log}
use rancher_operator.Runtime.Programs.{M, Flow, and_then, or_exit, some_or_exit, exit_if, result_of}

module _ {R A : Type 0} (Q : R × Log → R × Log → Type 0) where
  or_exit-same :
      (r : Result A) (log log' : Log) (handler handler' : Error → M R) (f f' : A → Flow R R)
      → ((e : Error) → Q (handler e log) (handler' e log'))
      → ((a : A) → Q (result_of (f a log)) (result_of (f' a log')))
      → Q
          (result_of (and_then f (or_exit handler (r, log))))
          (result_of (and_then f' (or_exit handler' (r, log'))))
  or_exit-same (ok a) log log' handler handler' f f' failing going = going a
  or_exit-same (err e) log log' handler handler' f f' failing going = failing e

  -- Behind two calls with one answer.
  pub or_exit-pair :
      (r r' : Result A) (log log' : Log) (handler handler' : Error → M R) (f f' : A → Flow R R)
      → r' ≡ r
      → ((e : Error) → Q (handler e log) (handler' e log'))
      → ((a : A) → Q (result_of (f a log)) (result_of (f' a log')))
      → Q
          (result_of (and_then f (or_exit handler (r, log))))
          (result_of (and_then f' (or_exit handler' (r', log'))))
  or_exit-pair r r' log log' handler handler' f f' same failing going =
      subst
        (λ s.
          Q (result_of (and_then f (or_exit handler (r, log))))
            (result_of (and_then f' (or_exit handler' (s, log')))))
        (sym same) (or_exit-same r log log' handler handler' f f' failing going)

  -- Behind two parts of the program with one result.
  pub attempt-pair :
      (p p' : Result A × Log) (handler handler' : Error → M R) (f f' : A → Flow R R)
      → p'.0 ≡ p.0
      → ((e : Error) (log log' : Log) → Q (handler e log) (handler' e log'))
      → ((a : A) (log log' : Log) → Q (result_of (f a log)) (result_of (f' a log')))
      → Q
          (result_of (and_then f (or_exit handler p)))
          (result_of (and_then f' (or_exit handler' p')))
  attempt-pair (r, log) (r', log') handler handler' f f' same failing going =
      or_exit-pair r r' log log' handler handler' f f' same (λ e. failing e log log')
        (λ a. going a log log')

  -- Behind one nil check.
  pub some_or_exit-pair :
      (o : Option A) (log log' : Log) (m m' : M R) (f f' : A → Flow R R)
      → Q (m log) (m' log')
      → ((a : A) → Q (result_of (f a log)) (result_of (f' a log')))
      → Q
          (result_of (and_then f (some_or_exit m o log)))
          (result_of (and_then f' (some_or_exit m' o log')))
  some_or_exit-pair none log log' m m' f f' missing going = missing
  some_or_exit-pair (some a) log log' m m' f f' missing going = going a

module _ {R : Type 0} (Q : R × Log → R × Log → Type 0) where
  -- Behind one guard.
  pub exit_if-pair :
      (b : Bool) (log log' : Log) (m m' : M R) (f f' : Unit {0} → Flow R R)
      → Q (m log) (m' log')
      → Q (result_of (f tt log)) (result_of (f' tt log'))
      → Q (result_of (and_then f (exit_if b m log))) (result_of (and_then f' (exit_if b m' log')))
  exit_if-pair true log log' m m' f f' leaving going = leaving
  exit_if-pair false log log' m m' f f' leaving going = going
