-- ===== src/Helm/Json/RoundTrip.antt =====
-- Reading what `json.Marshal` prints for a string.
use rancher_operator.Common.{
  ℕ, zero, suc, ◌+◌, ◌*◌, ◌%◌, ◌≤◌, ◌≡◌, inl, inr, refl, ap, sym, subst, ◌∙◌, Bool-cases, ltb, true,
  false, some, [], ◌∷◌, ◌++◌, append_assoc, length, arith,
}
use rancher_operator.Common.Text.{Text}
use rancher_operator.Helm.Json.{
  start, hex, escape_ascii, rune_length, escape_from, marshal_string, is_pair, is_triple,
  is_quadruple, is_line_separator,
}
use rancher_operator.Helm.Json.Reader.{utf8, plain, read_from, read_string, to_utf8_from, to_utf8}
use rancher_operator.Helm.Json.Pieces.{read_copied, read_unicode, read-escape_ascii}
use rancher_operator.Helm.Json.Runes.{
  RuneAt, no_rune, pair, triple, quadruple, rune_at, escape_pair, escape_triple, escape_separator,
  escape_quadruple, to_utf8_pair, to_utf8_triple, to_utf8_quadruple,
}

-- The texts that are read back, in front of a text that follows.
abbrev ReadsBack : Text → Text → Type 0
ReadsBack s rest = read_from plain (escape_from start s ++ (b'"' ∷ rest)) ≡ some (to_utf8 s, rest)

ReadsBack-ascii :
    (a : ℕ) (s rest : Text) → ltb a 0x80 ≡ true → ReadsBack s rest → ReadsBack (a ∷ s) rest
unfolding escape_from to_utf8_from
ReadsBack-ascii a s rest small ih =
    rw
      (
        small,
        append_assoc (escape_ascii a) (escape_from start s) (b'"' ∷ rest),
        read-escape_ascii a (escape_from start s ++ (b'"' ∷ rest)) (ground arith),
        ih,
      )
      refl

ReadsBack-replaced :
    (a : ℕ) (s rest : Text)
    → ltb a 0x80 ≡ false
    → rune_length a s ≡ 0
    → ReadsBack s rest
    → ReadsBack (a ∷ s) rest
unfolding escape_from to_utf8_from hex utf8
ReadsBack-replaced a s rest large len ih =
    let read =
      read_unicode 15 15 15 13 (escape_from start s ++ (b'"' ∷ rest)) (omega arith) (omega arith)
        (omega arith) (omega arith) in
    rw (large, len) (read ∙ rw ih refl)

ReadsBack-pair :
    (a b : ℕ) (s rest : Text)
    → rune_length a (b ∷ s) ≡ 2
    → is_pair a b ≡ true
    → ReadsBack s rest
    → ReadsBack (a ∷ b ∷ s) rest
ReadsBack-pair a b s rest len p ih =
    rw
      (
        escape_pair a b s len p,
        read_copied a _ (ground arith) (ground arith),
        read_copied b _ (ground arith) (ground arith),
        ih,
        to_utf8_pair a b s (ground arith) len,
      )
      refl

ReadsBack-separator :
    (a b c : ℕ) (s rest : Text)
    → rune_length a (b ∷ c ∷ s) ≡ 3
    → is_line_separator a b c ≡ true
    → ReadsBack s rest
    → ReadsBack (a ∷ b ∷ c ∷ s) rest
unfolding hex utf8
ReadsBack-separator a b c s rest len p ih =
    let read =
      read_unicode 2 0 2 (c % 16) (escape_from start s ++ (b'"' ∷ rest)) (omega arith) (omega arith)
        (omega arith) (omega arith) in
    let decoded : utf8 (16 * (16 * (16 * 2 + 0) + 2) + c % 16) ≡ a ∷ b ∷ c ∷ [] = ground arith in
    rw (escape_separator a b c s len p, to_utf8_triple a b c s (ground arith) len)
      (read ∙ rw (decoded, ih) refl)

ReadsBack-triple :
    (a b c : ℕ) (s rest : Text)
    → rune_length a (b ∷ c ∷ s) ≡ 3
    → is_triple a b c ≡ true
    → is_line_separator a b c ≡ false
    → ReadsBack s rest
    → ReadsBack (a ∷ b ∷ c ∷ s) rest
ReadsBack-triple a b c s rest len p other ih =
    rw
      (
        escape_triple a b c s len p other,
        read_copied a _ (ground arith) (ground arith),
        read_copied b _ (ground arith) (ground arith),
        read_copied c _ (ground arith) (ground arith),
        ih,
        to_utf8_triple a b c s (ground arith) len,
      )
      refl

ReadsBack-quadruple :
    (a b c d : ℕ) (s rest : Text)
    → rune_length a (b ∷ c ∷ d ∷ s) ≡ 4
    → is_quadruple a b c d ≡ true
    → ReadsBack s rest
    → ReadsBack (a ∷ b ∷ c ∷ d ∷ s) rest
ReadsBack-quadruple a b c d s rest len p ih =
    rw
      (
        escape_quadruple a b c d s len p,
        read_copied a _ (ground arith) (ground arith),
        read_copied b _ (ground arith) (ground arith),
        read_copied c _ (ground arith) (ground arith),
        read_copied d _ (ground arith) (ground arith),
        ih,
        to_utf8_quadruple a b c d s (ground arith) len,
      )
      refl

ReadsBack-rune :
    (a : ℕ) (s rest : Text)
    → RuneAt a s
    → ltb a 0x80 ≡ false
    → ((t : Text) → length t ≤ length s → ReadsBack t rest)
    → ReadsBack (a ∷ s) rest
ReadsBack-rune a s rest (no_rune len) large ih =
    ReadsBack-replaced a s rest large len (ih s (omega arith))
ReadsBack-rune a s rest (pair b t e len p) large ih =
    subst (λ x. ReadsBack (a ∷ x) rest) (sym e)
      (ReadsBack-pair a b t rest (subst (λ x. rune_length a x ≡ 2) e len) p
        (ih t (omega (arith, ap length e))))
ReadsBack-rune a s rest (triple b c t e len p) large ih =
    let len' : rune_length a (b ∷ c ∷ t) ≡ 3 = subst (λ x. rune_length a x ≡ 3) e len in
    let others = ih t (omega (arith, ap length e)) in
    subst (λ x. ReadsBack (a ∷ x) rest) (sym e)
      (elim (Bool-cases (is_line_separator a b c)) [
        | inl separator ↦ ReadsBack-separator a b c t rest len' separator others
        | inr other ↦ ReadsBack-triple a b c t rest len' p other others
      ])
ReadsBack-rune a s rest (quadruple b c d t e len p) large ih =
    subst (λ x. ReadsBack (a ∷ x) rest) (sym e)
      (ReadsBack-quadruple a b c d t rest (subst (λ x. rune_length a x ≡ 4) e len) p
        (ih t (omega (arith, ap length e))))

-- For a text of at most `n` bytes.
ReadsBack_lem : (n : ℕ) (s rest : Text) → length s ≤ n → ReadsBack s rest
unfolding escape_from to_utf8_from read_from
ReadsBack_lem n [] rest h = refl
ReadsBack_lem zero (a ∷ s) rest h = absurd (omega (arith, h))
ReadsBack_lem (suc n) (a ∷ s) rest h = elim (Bool-cases (ltb a 0x80)) [
  | inl small ↦ ReadsBack-ascii a s rest small (ReadsBack_lem n s rest (omega (arith, h)))
  | inr large ↦
      ReadsBack-rune a s rest (rune_at a s) large
        λ t k. ReadsBack_lem n t rest (omega (arith, h, k))
]

-- What is printed for a string is read as this string, up to its closing quote, where each byte that
-- begins no rune has become U+FFFD.
pub read-marshal_string :
    (s rest : Text) → read_string (marshal_string s ++ rest) ≡ some (to_utf8 s, rest)
unfolding read_string marshal_string
read-marshal_string s rest =
    rw (append_assoc (escape_from start s) (b'"' ∷ []) rest)
      (ReadsBack_lem (length s) s rest (omega arith))
