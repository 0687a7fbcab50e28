-- ===== src/Helm/Json/Reader.antt =====
-- A reader of JSON strings, independent of the printer, and what printing does to a text that is not
-- UTF-8.
use rancher_operator.Common.{
  ℕ, zero, suc, ◌+◌, ◌-◌, ◌*◌, ◌/◌, ◌%◌, ltb, ◌==◌, if◌then◌else◌, Bool, false, Option, none, some,
  [], ◌∷◌, ◌++◌,
}
use rancher_operator.Common.Text.{Text, Bytes}
use rancher_operator.Helm.Json.{Mode, start, copy, drop, copying, rune_length}

-- The value of a hexadecimal digit.
unfoldable pub unhex : ℕ → ℕ
unhex c = if ltb c b'a' then c - b'0' else c - b'a' + 10

-- The UTF-8 bytes of a code point below 0x10000.
unfoldable pub utf8 : ℕ → Bytes
utf8 v =
    if ltb v 0x80
    then v ∷ []
    else if ltb v 0x800
    then (0xc0 + v / 64) ∷ (0x80 + v % 64) ∷ []
    else (0xe0 + v / 4096) ∷ (0x80 + v / 64 % 64) ∷ (0x80 + v % 64) ∷ []

-- The byte that a backslash and one more byte stand for.
unfoldable pub unescaped : ℕ → ℕ
unescaped c =
    if c == b'b'
    then 0x08
    else if c == b'f'
    then 0x0c
    else if c == b'n'
    then 0x0a
    else if c == b'r'
    then 0x0d
    else if c == b't'
    then 0x09
    else c

-- Between two characters, behind a backslash, or inside the digits of `\u`: `digits k v` expects
-- `k + 1` more of them behind the value `v`.
pub data Reading : Type 0 where
  plain escape : Reading
  digits : ℕ → ℕ → Reading

-- What a byte adds to the text that is read.
abbrev pub step_out : Reading → ℕ → Text
step_out plain c = if c == b'\\' then [] else c ∷ []
step_out escape c = if c == b'u' then [] else unescaped c ∷ []
step_out (digits zero v) c = utf8 (16 * v + unhex c)
step_out (digits (suc k) v) c = []

abbrev pub step_to : Reading → ℕ → Reading
step_to plain c = if c == b'\\' then escape else plain
step_to escape c = if c == b'u' then digits 3 0 else plain
step_to (digits zero v) c = plain
step_to (digits (suc k) v) c = digits k (16 * v + unhex c)

abbrev pub closes : Reading → ℕ → Bool
closes plain c = c == b'"'
closes _ c = false

abbrev pub prefixed : Text → Option (Text × Text) → Option (Text × Text)
prefixed out none = none
prefixed out (some (s, rest)) = some (out ++ s, rest)

-- The text up to the closing quote, and what follows it.
unfoldable pub read_from : Reading → Text → Option (Text × Text)
read_from r [] = none
read_from r (c ∷ s) =
    let others = prefixed (step_out r c) (read_from (step_to r c) s) in
    if closes r c then some ([], s) else others

-- A string with its quotes.
unfoldable pub read_string : Text → Option (Text × Text)
read_string [] = none
read_string (c ∷ s) = if c == b'"' then read_from plain s else none

-- The text with each byte that begins no rune replaced by U+FFFD.
unfoldable pub to_utf8_from : Mode → Bytes → Text
to_utf8_from mode [] = []
to_utf8_from (copy n) (c ∷ s) = c ∷ to_utf8_from (copying n) s
to_utf8_from (drop n) (c ∷ s) = c ∷ to_utf8_from (copying n) s
to_utf8_from start (c ∷ s) =
    let single = c ∷ to_utf8_from start s in
    let replaced = 0xef ∷ 0xbf ∷ 0xbd ∷ to_utf8_from start s in
    let copied = c ∷ to_utf8_from (copying (rune_length c s - 1)) s in
    if ltb c 0x80 then single else if rune_length c s == 0 then replaced else copied

abbrev pub to_utf8 : Bytes → Text
to_utf8 s = to_utf8_from start s
