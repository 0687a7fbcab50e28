-- ===== src/Helm/Json/Runes.antt =====
-- What the printer does with the runes of a text.
use rancher_operator.Common.{
  ℕ, ◌%◌, ◌≡◌, ◌≢◌, inl, inr, refl, Bool-cases, ltb, true, false, [], ◌∷◌, ◌++◌, arith,
}
use rancher_operator.Common.Text.{Text, codes}
use rancher_operator.Helm.Json.{
  start, hex, rune_length, at_line_separator, separator_digit, escape_from, is_pair, is_triple,
  is_quadruple, is_line_separator,
}
use rancher_operator.Helm.Json.Reader.{to_utf8_from, to_utf8}

-- The bytes behind a rune's first byte, by the rune's length.
pub data RuneAt (a : ℕ) (s : Text) : Type 0 where
  no_rune : rune_length a s ≡ 0 → RuneAt a s
  pair :
      (b : ℕ) (rest : Text) → s ≡ b ∷ rest → rune_length a s ≡ 2 → is_pair a b ≡ true → RuneAt a s
  triple :
      (b c : ℕ) (rest : Text)
      → s ≡ b ∷ c ∷ rest
      → rune_length a s ≡ 3
      → is_triple a b c ≡ true
      → RuneAt a s
  quadruple :
      (b c d : ℕ) (rest : Text)
      → s ≡ b ∷ c ∷ d ∷ rest
      → rune_length a s ≡ 4
      → is_quadruple a b c d ≡ true
      → RuneAt a s

pub rune_at : (a : ℕ) (s : Text) → RuneAt a s
unfolding rune_length
rune_at a [] = no_rune refl
rune_at a (b ∷ []) = elim (Bool-cases (is_pair a b)) [
  | inl p ↦ pair b [] refl (rw p refl) p
  | inr q ↦ no_rune (rw q refl)
]
rune_at a (b ∷ c ∷ []) = elim (Bool-cases (is_pair a b)) [
  | inl p ↦ pair b (c ∷ []) refl (rw p refl) p
  | inr q ↦ elim (Bool-cases (is_triple a b c)) [
    | inl p ↦ triple b c [] refl (rw (q, p) refl) p
    | inr r ↦ no_rune (rw (q, r) refl)
  ]
]
rune_at a (b ∷ c ∷ d ∷ s) = elim (Bool-cases (is_pair a b)) [
  | inl p ↦ pair b (c ∷ d ∷ s) refl (rw p refl) p
  | inr q ↦ elim (Bool-cases (is_triple a b c)) [
    | inl p ↦ triple b c (d ∷ s) refl (rw (q, p) refl) p
    | inr r ↦ elim (Bool-cases (is_quadruple a b c d)) [
      | inl p ↦ quadruple b c d s refl (rw (q, r, p) refl) p
      | inr r' ↦ no_rune (rw (q, r, r') refl)
    ]
  ]
]

not_separator : (a : ℕ) (s : Text) → a ≢ 0xe2 → at_line_separator a s ≡ false
unfolding at_line_separator
not_separator a [] h = refl
not_separator a (b ∷ []) h = refl
not_separator a (b ∷ c ∷ s) h = ground arith

-- What the printer does with a rune, by its length.
pub escape_pair :
    (a b : ℕ) (s : Text)
    → rune_length a (b ∷ s) ≡ 2
    → is_pair a b ≡ true
    → escape_from start (a ∷ b ∷ s) ≡ a ∷ b ∷ escape_from start s
unfolding escape_from
escape_pair a b s len p =
    let large : ltb a 0x80 ≡ false = ground arith in
    let no_separator = not_separator a (b ∷ s) (ground arith) in rw (large, len, no_separator) refl

pub escape_triple :
    (a b c : ℕ) (s : Text)
    → rune_length a (b ∷ c ∷ s) ≡ 3
    → is_triple a b c ≡ true
    → is_line_separator a b c ≡ false
    → escape_from start (a ∷ b ∷ c ∷ s) ≡ a ∷ b ∷ c ∷ escape_from start s
unfolding escape_from at_line_separator
escape_triple a b c s len t no_separator =
    let large : ltb a 0x80 ≡ false = ground arith in rw (large, len, no_separator) refl

pub escape_separator :
    (a b c : ℕ) (s : Text)
    → rune_length a (b ∷ c ∷ s) ≡ 3
    → is_line_separator a b c ≡ true
    → escape_from start (a ∷ b ∷ c ∷ s) ≡ codes "\\u202" ++ (hex (c % 16) ∷ escape_from start s)
unfolding escape_from at_line_separator separator_digit
escape_separator a b c s len separator =
    let large : ltb a 0x80 ≡ false = ground arith in rw (large, len, separator) refl

pub escape_quadruple :
    (a b c d : ℕ) (s : Text)
    → rune_length a (b ∷ c ∷ d ∷ s) ≡ 4
    → is_quadruple a b c d ≡ true
    → escape_from start (a ∷ b ∷ c ∷ d ∷ s) ≡ a ∷ b ∷ c ∷ d ∷ escape_from start s
unfolding escape_from
escape_quadruple a b c d s len q =
    let large : ltb a 0x80 ≡ false = ground arith in
    let no_separator = not_separator a (b ∷ c ∷ d ∷ s) (ground arith) in
    rw (large, len, no_separator) refl

pub to_utf8_pair :
    (a b : ℕ) (s : Text)
    → ltb a 0x80 ≡ false
    → rune_length a (b ∷ s) ≡ 2
    → to_utf8 (a ∷ b ∷ s) ≡ a ∷ b ∷ to_utf8 s
unfolding to_utf8_from
to_utf8_pair a b s large len = rw (large, len) refl

pub to_utf8_triple :
    (a b c : ℕ) (s : Text)
    → ltb a 0x80 ≡ false
    → rune_length a (b ∷ c ∷ s) ≡ 3
    → to_utf8 (a ∷ b ∷ c ∷ s) ≡ a ∷ b ∷ c ∷ to_utf8 s
unfolding to_utf8_from
to_utf8_triple a b c s large len = rw (large, len) refl

pub to_utf8_quadruple :
    (a b c d : ℕ) (s : Text)
    → ltb a 0x80 ≡ false
    → rune_length a (b ∷ c ∷ d ∷ s) ≡ 4
    → to_utf8 (a ∷ b ∷ c ∷ d ∷ s) ≡ a ∷ b ∷ c ∷ d ∷ to_utf8 s
unfolding to_utf8_from
to_utf8_quadruple a b c d s large len = rw (large, len) refl
