-- ===== src/TestUtils/Uncomment.antt =====
-- `UncommentCode` takes back what commenting out has done.
use rancher_operator.Common.{
  ◌≡◌, ◌==◌, ◌≤◌, subst, sym, inl, inr, arith, Option-cases, refl, ap, ◌∙◌, true, false, List, [],
  ◌∷◌, ◌++◌, length, ltb, All, some, Result, ok,
}
use rancher_operator.Common.Text.{Text, Bytes, is_empty, after_prefix}
use rancher_operator.Common.Text.Laws.{after_prefix-append, after_prefix-split, trim_prefix-append}
use rancher_operator.TestUtils.{
  split_lines, cut_around, max_scan_token_size, drop_cr, scanned, uncommented, uncomment_code,
}

-- A line that is read as it stands: it is not empty, has no line feed, no carriage return at its end,
-- and fits the buffer.
pub record IsLine (line : Text) : Type 0 where
  pub filled : is_empty line ≡ false
  pub no_feed : All (λ c. (c == b'\n') ≡ false) line
  pub no_return : drop_cr line ≡ line
  pub short : ltb (length line) max_scan_token_size ≡ true

-- The lines with a line feed between two.
abbrev pub joined : List Text → Text
joined [] = []
joined (line ∷ []) = line
joined (line ∷ next ∷ lines) = line ++ (b'\n' ∷ joined (next ∷ lines))

-- The lines with the prefix in front of each.
abbrev pub prefixed : Text → List Text → List Text
prefixed prefix [] = []
prefixed prefix (line ∷ lines) = (prefix ++ line) ∷ prefixed prefix lines

split_lines-line :
    (line : Text) → All (λ c. (c == b'\n') ≡ false) line → split_lines line ≡ line ∷ []
unfolding split_lines
split_lines-line [] h = refl
split_lines-line (c ∷ s) (here, later) = rw (here, split_lines-line s later) refl

split_lines-append :
    (line rest : Text)
    → All (λ c. (c == b'\n') ≡ false) line
    → split_lines (line ++ (b'\n' ∷ rest)) ≡ line ∷ split_lines rest
unfolding split_lines
split_lines-append [] rest h = refl
split_lines-append (c ∷ s) rest (here, later) = rw (here, split_lines-append s rest later) refl

split_lines-joined :
    (line : Text) (lines : List Text)
    → All IsLine (line ∷ lines)
    → split_lines (joined (line ∷ lines)) ≡ line ∷ lines
split_lines-joined line [] (h, _) = split_lines-line line h.no_feed
split_lines-joined line (next ∷ lines) (h, hs) =
    split_lines-append line (joined (next ∷ lines)) h.no_feed
    ∙ ap (λ ls. line ∷ ls) (split_lines-joined next lines hs)

scanned_lines : (lines : List Text) → All IsLine lines → scanned lines ≡ lines
unfolding scanned
scanned_lines [] h = refl
scanned_lines (line ∷ []) (h, _) = rw (h.filled, h.short, h.no_return) refl
scanned_lines (line ∷ next ∷ lines) (h, hs) =
    rw (h.short, h.no_return, scanned_lines (next ∷ lines) hs) refl

uncommented-prefixed :
    (prefix : Text) (lines : List Text) → uncommented prefix (prefixed prefix lines) ≡ joined lines
unfolding uncommented
uncommented-prefixed prefix [] = refl
uncommented-prefixed prefix (line ∷ []) = trim_prefix-append prefix line
uncommented-prefixed prefix (line ∷ next ∷ lines) =
    rw (trim_prefix-append prefix line, uncommented-prefixed prefix (next ∷ lines)) refl

-- No occurrence of the target in the contents has less in front of it.
abbrev pub IsFirst : Text → Text → Text → Type 0
IsFirst target content before =
    (left right : Text) → content ≡ left ++ (target ++ right) → length before ≤ length left

cut_around_here :
    (target s rest : Text)
    → after_prefix s target ≡ some rest
    → cut_around target s ≡ some ([], rest)
unfolding cut_around
cut_around_here target [] rest h = rw (cut_around, h) refl
cut_around_here target (c ∷ s) rest h = rw (cut_around, h) refl

cut_around_first :
    (target before after : Text)
    → IsFirst target (before ++ (target ++ after)) before
    → cut_around target (before ++ (target ++ after)) ≡ some (before, after)
unfolding cut_around
cut_around_first target [] after first =
    cut_around_here target (target ++ after) after (after_prefix-append target after)
cut_around_first target (c ∷ before) after first =
    let content = before ++ (target ++ after) in
    let later =
      cut_around_first target before after
        λ left right e. omega (arith, first (c ∷ left) right (ap (λ s. c ∷ s) e)) in
    elim (Option-cases (after_prefix (c ∷ content) target)) [
      | inl none_here ↦ rw (cut_around, none_here, later) refl
      | inr (rest, here) ↦
          absurd (omega (arith, first [] rest (after_prefix-split (c ∷ content) target rest here)))
    ]

-- When the file has a block of lines with the prefix in front of each, no occurrence of the block stands
-- earlier in it, and each of these lines is read as it stands, then the file is written with this
-- occurrence of the block replaced by the lines without the prefix, between what stands in front of it
-- and what stands behind it.
pub uncomment_code-joined :
    (read_file : Text → Result Bytes) (write_file : Text → Bytes → Result (Unit {0}))
    (quote : Text → Text) (filename prefix content before after line : Text) (lines : List Text)
    → read_file filename ≡ ok content
    → All IsLine (prefixed prefix (line ∷ lines))
    → content ≡ before ++ (joined (prefixed prefix (line ∷ lines)) ++ after)
    → IsFirst (joined (prefixed prefix (line ∷ lines))) content before
    → (uncomment_code read_file write_file quote filename
        (joined (prefixed prefix (line ∷ lines)))
        prefix).written
      ≡ some (filename, before ++ (joined (line ∷ lines) ++ after))
unfolding uncomment_code
uncomment_code-joined read_file write_file quote filename prefix content before after line lines got
      fine split first =
    let block_lines = prefixed prefix (line ∷ lines) in
    let block = joined block_lines in
    let cut =
      subst (λ s. cut_around block s ≡ some (before, after)) (sym split)
        (cut_around_first block before after (subst (λ s. IsFirst block s before) split first)) in
    rw
      (
        uncomment_code,
        got,
        cut,
        split_lines-joined (prefix ++ line) (prefixed prefix lines) fine,
        scanned_lines block_lines fine,
        uncommented-prefixed prefix (line ∷ lines),
      )
      refl
