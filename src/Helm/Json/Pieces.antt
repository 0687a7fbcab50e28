-- ===== src/Helm/Json/Pieces.antt =====
-- Reading the pieces of a printed string.
use rancher_operator.Common.{
  ℕ, ◌+◌, ◌*◌, ◌/◌, ◌%◌, ◌<◌, ◌≡◌, ◌≢◌, refl, Option, none, some, [], ◌∷◌, ◌++◌, arith,
}
use rancher_operator.Common.Text.{Text}
use rancher_operator.Helm.Json.{hex, escape_ascii}
use rancher_operator.Helm.Json.Reader.{unhex, utf8, unescaped, plain, prefixed, read_from}

unhex-hex : (n : ℕ) → n < 16 → unhex (hex n) ≡ n
unfolding unhex hex
unhex-hex n h = ground arith

-- A byte that needs no escape is read as it is.
pub read_copied :
    (c : ℕ) (s : Text)
    → c ≢ b'"'
    → c ≢ b'\\'
    → read_from plain (c ∷ s) ≡ prefixed (c ∷ []) (read_from plain s)
unfolding read_from
read_copied c s h h' = ground arith

prefixed-nil : (o : Option (Text × Text)) → prefixed [] o ≡ o
prefixed-nil none = refl
prefixed-nil (some (s, rest)) = refl

-- A backslash with one more byte.
read_short :
    (e : ℕ) (s : Text)
    → e ≢ b'u'
    → read_from plain (b'\\' ∷ e ∷ s) ≡ prefixed (unescaped e ∷ []) (read_from plain s)
unfolding read_from
read_short e s h = ground (arith, prefixed-nil (prefixed (unescaped e ∷ []) (read_from plain s)))

pub read_unicode :
    (a b c d : ℕ) (s : Text)
    → a < 16
    → b < 16
    → c < 16
    → d < 16
    → read_from plain (b'\\' ∷ b'u' ∷ hex a ∷ hex b ∷ hex c ∷ hex d ∷ s)
      ≡ prefixed (utf8 (16 * (16 * (16 * a + b) + c) + d)) (read_from plain s)
unfolding read_from
read_unicode a b c d s ha hb hc hd =
    let zeros : 16 * (16 * (16 * (16 * 0 + a) + b) + c) + d ≡ 16 * (16 * (16 * a + b) + c) + d =
      omega arith in
    rw (unhex-hex a ha, unhex-hex b hb, unhex-hex c hc, unhex-hex d hd, zeros)
      (simp (prefixed-nil) refl)

pub read-escape_ascii :
    (c : ℕ) (s : Text)
    → c < 0x80
    → read_from plain (escape_ascii c ++ s) ≡ prefixed (c ∷ []) (read_from plain s)
unfolding escape_ascii unescaped utf8
read-escape_ascii c s h = ground (
  arith,
  read_short c s,
  read_short b'b' s,
  read_short b'f' s,
  read_short b'n' s,
  read_short b'r' s,
  read_short b't' s,
  read_copied c s,
  read_unicode 0 0 (c / 16) (c % 16) s,
)
