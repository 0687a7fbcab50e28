-- ===== src/Helm/Json.antt =====
-- What `json.Marshal` of Go's standard library prints for the structs of `dockerconfigjson`: a
-- string is quoted, HTML's special characters are escaped, and bytes that are no UTF-8 are replaced.
pub mod Reader
pub mod Pieces
pub mod Runes
pub mod RoundTrip
use rancher_operator.Common.{
  ℕ, zero, suc, ◌+◌, ◌-◌, ◌/◌, ◌%◌, ltb, leb, ◌==◌, if◌then◌else◌, Bool, false, ◌&&◌, ◌||◌, [], ◌∷◌,
  ◌++◌,
}
use rancher_operator.Common.Text.{Text, Bytes, codes}

-- A hexadecimal digit.
unfoldable pub hex : ℕ → ℕ
hex n = if ltb n 10 then b'0' + n else b'a' + (n - 10)

-- A byte below 0x80, as `appendString` writes it.
unfoldable pub escape_ascii : ℕ → Text
unfolding hex
escape_ascii b =
    if b == b'"' || b == b'\\'
    then b'\\' ∷ b ∷ []
    else if b == 0x08
    then codes "\\b"
    else if b == 0x0c
    then codes "\\f"
    else if b == 0x0a
    then codes "\\n"
    else if b == 0x0d
    then codes "\\r"
    else if b == 0x09
    then codes "\\t"
    else if ltb b 0x20 || (b == b'<' || (b == b'>' || b == b'&'))
    then codes "\\u00" ++ (hex (b / 16) ∷ hex (b % 16) ∷ [])
    else b ∷ []

abbrev within : ℕ → ℕ → ℕ → Bool
within lo hi b = leb lo b && leb b hi

-- A byte that continues a rune.
abbrev is_tail : ℕ → Bool
is_tail = within 0x80 0xbf

-- The ranges in which two, three or four bytes are a rune.
abbrev pub is_pair : ℕ → ℕ → Bool
is_pair a b = within 0xc2 0xdf a && is_tail b

abbrev pub is_triple : ℕ → ℕ → ℕ → Bool
is_triple a b c =
    ((a == 0xe0 && within 0xa0 0xbf b)
      || ((within 0xe1 0xec a || within 0xee 0xef a) && is_tail b
          || (a == 0xed && within 0x80 0x9f b)))
    && is_tail c

abbrev pub is_quadruple : ℕ → ℕ → ℕ → ℕ → Bool
is_quadruple a b c d =
    ((a == 0xf0 && within 0x90 0xbf b)
      || ((within 0xf1 0xf3 a && is_tail b) || (a == 0xf4 && within 0x80 0x8f b)))
    && (is_tail c && is_tail d)

-- U+2028 and U+2029
abbrev pub is_line_separator : ℕ → ℕ → ℕ → Bool
is_line_separator a b c = a == 0xe2 && (b == 0x80 && (c == 0xa8 || c == 0xa9))

-- The length of the rune that a byte of 0x80 or more begins, 0 if none: `utf8.DecodeRune`.
unfoldable pub rune_length : ℕ → Bytes → ℕ
rune_length a [] = 0
rune_length a (b ∷ []) = if is_pair a b then 2 else 0
rune_length a (b ∷ c ∷ []) = if is_pair a b then 2 else if is_triple a b c then 3 else 0
rune_length a (b ∷ c ∷ d ∷ _) =
    if is_pair a b then 2 else if is_triple a b c then 3 else if is_quadruple a b c d then 4 else 0

unfoldable pub at_line_separator : ℕ → Bytes → Bool
at_line_separator a (b ∷ c ∷ _) = is_line_separator a b c
at_line_separator a _ = false

-- The last digit of an escaped line separator.
unfoldable pub separator_digit : Bytes → ℕ
unfolding hex
separator_digit (b ∷ c ∷ _) = hex (c % 16)
separator_digit _ = b'0'

-- At the start of a rune, or inside one whose other bytes are copied or dropped.
pub data Mode : Type 0 where
  start : Mode
  copy drop : ℕ → Mode

abbrev pub copying : ℕ → Mode
copying zero = start
copying (suc n) = copy n

abbrev pub dropping : ℕ → Mode
dropping zero = start
dropping (suc n) = drop n

-- The loop of `appendString`. `copy n` copies one byte, and `n` more.
unfoldable pub escape_from : Mode → Bytes → Text
unfolding escape_ascii rune_length at_line_separator separator_digit
escape_from mode [] = []
escape_from (copy n) (c ∷ s) = c ∷ escape_from (copying n) s
escape_from (drop n) (c ∷ s) = escape_from (dropping n) s
escape_from start (c ∷ s) =
    let plain = escape_ascii c ++ escape_from start s in
    let replaced = codes "\\ufffd" ++ escape_from start s in
    let separator = codes "\\u202" ++ (separator_digit s ∷ escape_from (dropping 2) s) in
    let copied = c ∷ escape_from (copying (rune_length c s - 1)) s in
    if ltb c 0x80
    then plain
    else if rune_length c s == 0
    then replaced
    else if at_line_separator c s
    then separator
    else copied

unfoldable pub marshal_string : Text → Text
unfolding escape_from
marshal_string s = b'"' ∷ (escape_from start s ++ b'"' ∷ [])

-- A member of an object: its name, which needs no escape here, and its value's text.
abbrev pub member : Text → Text → Text
member name value = b'"' ∷ (name ++ (b'"' ∷ b':' ∷ value))
