-- ===== src/Runtime/Programs.antt =====
-- Programs that make calls and return early.
use rancher_operator.Common.{Bool, true, false, Option, none, some, ◌∷◌, Error, Result, ok, err}
use rancher_operator.Runtime.Calls.{Event, Log}

-- A program: from the calls made so far to its result and the calls made by then.
abbrev pub M {ℓ} : Type ℓ → Type ℓ
M A = Log → A × Log

abbrev pub return {ℓ} : {A : Type ℓ} → A → M A
return a l = (a, l)

-- One call, answered by the environment from the calls before it, and logged.
abbrev pub call {ℓ} : {A : Type ℓ} → (Log → A) → (A → Event) → M A
call answer event l = let a = answer l in (a, event a ∷ l)

-- The middle of a function body that returns an `R`: it goes on with an `A`, or has returned.
pub data Step (R A : Type 0) : Type 0 where
  next : A → Step R A
  exit : R → Step R A

abbrev pub Flow : Type 0 → Type 0 → Type 0
Flow R A = M (Step R A)

abbrev pub and_then : {R A B : Type 0} → (A → Flow R B) → Step R A × Log → Step R B × Log
and_then f (next a, l) = f a l
and_then f (exit r, l) = (exit r, l)

infixl 5 ◌>>=◌ ◌>>◌
abbrev pub ◌>>=◌ : {R A B : Type 0} → Flow R A → (A → Flow R B) → Flow R B
◌>>=◌ m f l = and_then f (m l)

abbrev pub ◌>>◌ : {R B : Type 0} → Flow R (Unit {0}) → Flow R B → Flow R B
m >> k = m >>= λ _. k

abbrev pub exiting : {R A : Type 0} → R × Log → Step R A × Log
exiting (r, l) = (exit r, l)

abbrev pub or_exit : {R A : Type 0} → (Error → M R) → Result A × Log → Step R A × Log
or_exit handler (ok a, l) = (next a, l)
or_exit handler (err e, l) = exiting (handler e l)

-- `a, err := m(); if err != nil { return handler(err) }`
abbrev pub attempt : {R A : Type 0} → M (Result A) → (Error → M R) → Flow R A
attempt m handler l = or_exit handler (m l)

abbrev pub or_go_on : {R A : Type 0} → (A → M R) → Result A × Log → Step R Error × Log
or_go_on handler (ok a, l) = exiting (handler a l)
or_go_on handler (err e, l) = (next e, l)

-- `a, err := m(); if err == nil { return handler(a) }`, and `err` from then on
abbrev pub unless_ok : {R A : Type 0} → M (Result A) → (A → M R) → Flow R Error
unless_ok m handler l = or_go_on handler (m l)

-- `attempt` for a call with no effect.
abbrev pub attempt_pure : {R A : Type 0} → Result A → (Error → M R) → Flow R A
attempt_pure r handler l = or_exit handler (r, l)

abbrev pub some_or_exit : {R A : Type 0} → M R → Option A → Flow R A
some_or_exit m (some a) l = (next a, l)
some_or_exit m none l = exiting (m l)

-- `if p == nil { return m() }`, and `p` from then on
abbrev pub require : {R A : Type 0} → Option A → M R → Flow R A
require o m = some_or_exit m o

-- `if b { return m() }`
abbrev pub exit_if : {R : Type 0} → Bool → M R → Flow R (Unit {0})
exit_if true m l = exiting (m l)
exit_if false m l = (next tt, l)

abbrev pub going_on : {R A : Type 0} → A × Log → Step R A × Log
going_on (a, l) = (next a, l)

-- A statement that cannot return.
abbrev pub perform : {R A : Type 0} → M A → Flow R A
perform m l = going_on (m l)

abbrev pub result_of : {R : Type 0} → Step R R × Log → R × Log
result_of (next r, l) = (r, l)
result_of (exit r, l) = (r, l)

-- A function body.
abbrev pub body : {R : Type 0} → Flow R R → M R
body m l = result_of (m l)
