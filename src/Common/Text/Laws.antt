-- ===== src/Common/Text/Laws.antt =====
-- What the string functions decide.
use mathlib.Core.Path.{◌≡◌, refl, ap}
use mathlib.Core.Logic.{◌↔◌, inl, inr}
use mathlib.Core.Bool.{true}
use mathlib.Core.Option.{some}
use mathlib.Core.List.{[], ◌∷◌, ◌++◌}
use native.Mathlib.Omega.{arith}
use rancher_operator.Common.Tests.{Bool-cases}
use rancher_operator.Common.Text.{Text, text_eq, has_prefix, after_prefix, trim_prefix, contains}

pub text_eq_iff : (s t : Text) → (text_eq s t ≡ true) ↔ (s ≡ t)
unfolding text_eq
text_eq_iff [] [] = ground arith
text_eq_iff [] (_ ∷ _) = ground arith
text_eq_iff (_ ∷ _) [] = ground arith
text_eq_iff (a ∷ s) (b ∷ t) = ground (arith, text_eq_iff s t)

pub text_eq_refl : (s : Text) → text_eq s s ≡ true
text_eq_refl s = (text_eq_iff s s).1 refl

pub has_prefix-append : (p rest : Text) → has_prefix (p ++ rest) p ≡ true
unfolding has_prefix
has_prefix-append [] rest = refl
has_prefix-append (_ ∷ p) rest = ground (arith, has_prefix-append p rest)

-- A text with a prefix is the prefix and a rest.
has_prefix-split : (s p : Text) → has_prefix s p ≡ true → (rest : Text) × (s ≡ p ++ rest)
unfolding has_prefix
has_prefix-split s [] h = (s, refl)
has_prefix-split [] (_ ∷ _) h = absurd (ground arith)
has_prefix-split (a ∷ s) (b ∷ p) h =
    let (rest, e) = has_prefix-split s p (ground arith) in (rest, ground arith)

pub contains-split :
    (s sub : Text) → contains s sub ≡ true → (left right : Text) × (s ≡ left ++ sub ++ right)
unfolding contains
contains-split [] sub h = let (rest, e) = has_prefix-split [] sub h in ([], rest, e)
contains-split (c ∷ s) sub h = elim (Bool-cases (has_prefix (c ∷ s) sub)) [
  | inl here ↦ let (rest, e) = has_prefix-split (c ∷ s) sub here in ([], rest, e)
  | inr later ↦
      let (left, right, e) = contains-split s sub (ground arith) in
      (c ∷ left, right, ap (λ t. c ∷ t) e)
]

contains-append : (left sub right : Text) → contains (left ++ sub ++ right) sub ≡ true
unfolding contains
contains-append [] [] [] = refl
contains-append [] [] (_ ∷ _) = refl
contains-append [] (c ∷ sub) right = ground (arith, has_prefix-append sub right)
contains-append (c ∷ left) sub right = ground (arith, contains-append left sub right)

pub contains_iff :
    (s sub : Text) → (contains s sub ≡ true) ↔ ((left right : Text) × (s ≡ left ++ sub ++ right))
contains_iff s sub =
    (contains-split s sub, λ (left, right, e). rw e (contains-append left sub right))

pub after_prefix-append : (p rest : Text) → after_prefix (p ++ rest) p ≡ some rest
unfolding after_prefix
after_prefix-append [] rest = refl
after_prefix-append (_ ∷ p) rest = ground (arith, after_prefix-append p rest)

pub after_prefix-split : (s p rest : Text) → after_prefix s p ≡ some rest → s ≡ p ++ rest
unfolding after_prefix
after_prefix-split s [] rest h = ground arith
after_prefix-split [] (_ ∷ _) rest h = absurd (ground arith)
after_prefix-split (a ∷ s) (b ∷ p) rest h = ground (arith, after_prefix-split s p rest)

pub trim_prefix-append : (p rest : Text) → trim_prefix (p ++ rest) p ≡ rest
unfolding trim_prefix
trim_prefix-append p rest = ground (arith, after_prefix-append p rest)

-- What `TrimPrefix` leaves is what stands behind the prefix.
pub append-trim_prefix : (s p : Text) → has_prefix s p ≡ true → s ≡ p ++ trim_prefix s p
append-trim_prefix s p h =
    let (rest, e) = has_prefix-split s p h in rw (e, trim_prefix-append p rest)
