-- ===== src/Helm/Base64/Laws.antt =====
-- A decoder, independent of the encoder, and the round trip.
use rancher_operator.Common.{
  ℕ, ◌+◌, ◌-◌, ◌*◌, ◌/◌, ◌%◌, ◌<◌, ◌≡◌, refl, leb, ◌==◌, false, if◌then◌else◌, [], ◌∷◌, All, arith,
}
use rancher_operator.Common.Text.{Text, Bytes}
use rancher_operator.Helm.Base64.{digit, encode}

-- The six-bit number of a character of the alphabet; 0 for any other.
unfoldable pub undigit : ℕ → ℕ
undigit c =
    if leb b'a' c
    then c - b'a' + 26
    else if leb b'A' c
    then c - b'A'
    else if leb b'0' c
    then c - b'0' + 52
    else if c == b'+'
    then 62
    else 63

-- Four characters at a time; the padding tells how many bytes the last group holds.
unfoldable pub decode : Text → Bytes
decode (w ∷ x ∷ y ∷ z ∷ rest) =
    let a = undigit w * 4 + undigit x / 16 in
    let b = undigit x % 16 * 16 + undigit y / 4 in
    let c = undigit y % 4 * 64 + undigit z in
    let more = decode rest in
    if y == b'=' then a ∷ [] else if z == b'=' then a ∷ b ∷ [] else a ∷ b ∷ c ∷ more
decode _ = []

undigit-digit : (n : ℕ) → n < 64 → undigit (digit n) ≡ n
unfolding undigit digit
undigit-digit n h = ground arith

digit-ne-padding : (n : ℕ) → n < 64 → (digit n == b'=') ≡ false
unfolding digit
digit-ne-padding n h = ground arith

-- Decoding the encoding of a sequence of numbers below 256 gives the sequence back.
pub decode-encode : (bytes : Bytes) → All (λ b. b < 256) bytes → decode (encode bytes) ≡ bytes
unfolding decode encode
decode-encode [] h = refl
decode-encode (a ∷ []) h = ground (arith, undigit-digit (a / 4), undigit-digit (a % 4 * 16))
decode-encode (a ∷ b ∷ []) h = ground (
  arith,
  undigit-digit (a / 4),
  undigit-digit (a % 4 * 16 + b / 16),
  undigit-digit (b % 16 * 4),
  digit-ne-padding (b % 16 * 4),
)
decode-encode (a ∷ b ∷ c ∷ rest) h = ground (
  arith,
  undigit-digit (a / 4),
  undigit-digit (a % 4 * 16 + b / 16),
  undigit-digit (b % 16 * 4 + c / 64),
  undigit-digit (c % 64),
  digit-ne-padding (b % 16 * 4 + c / 64),
  digit-ne-padding (c % 64),
  decode-encode rest,
)
