-- ===== src/Tests/TestUtilsRuns.antt =====
-- Runs of the helpers in test/utils.
use rancher_operator.Common.{◌≡◌, refl, arith, [], ◌∷◌, ◌++◌, some, ok, true, All}
use rancher_operator.Common.Text.{Text, codes, contains, has_prefix}
use rancher_operator.TestUtils.{
  split_lines, drop_empty, get_non_empty_lines, is_listed, is_any_listed,
  is_cert_manager_crds_installed, drop_cr, uncomment_code,
}
use rancher_operator.TestUtils.Uncomment.{IsLine, joined, prefixed, IsFirst, uncomment_code-joined}

skips_empty : get_non_empty_lines (codes "a\n\nb\n") ≡ codes "a" ∷ codes "b" ∷ []
unfolding get_non_empty_lines split_lines drop_empty
skips_empty = refl

finds_issuers :
    is_cert_manager_crds_installed (ok (codes "NAME\nissuers.cert-manager.io  2026\n")) ≡ true
unfolding is_cert_manager_crds_installed is_any_listed is_listed get_non_empty_lines split_lines
    drop_empty contains has_prefix
finds_issuers = refl

abbrev block : Text
block = joined (prefixed (codes "#") (codes "a" ∷ codes "b" ∷ []))

are_lines : All IsLine (prefixed (codes "#") (codes "a" ∷ codes "b" ∷ []))
unfolding drop_cr
are_lines = (
  record { filled = refl; no_feed = (refl, (refl, tt)); no_return = refl; short = refl },
  (record { filled = refl; no_feed = (refl, (refl, tt)); no_return = refl; short = refl }, tt),
)

-- The block stands in it twice.
abbrev content : Text
content = codes "x\n#a\n#b\n#a\n#b"

-- Neither at its first nor at its second byte.
starts : IsFirst block content (codes "x\n")
starts [] right e = absurd (ground arith)
starts (_ ∷ []) right e = absurd (ground arith)
starts (_ ∷ _ ∷ left) right e = omega arith

uncomment_code-joined_example :
    (uncomment_code (λ f. ok content) (λ f s. ok tt) (λ s. s) (codes "f") block (codes "#")).written
    ≡ some (codes "f", codes "x\n" ++ (joined (codes "a" ∷ codes "b" ∷ []) ++ codes "\n#a\n#b"))
uncomment_code-joined_example =
    uncomment_code-joined (λ f. ok content) (λ f s. ok tt) (λ s. s) (codes "f") (codes "#") content
      (codes "x\n") (codes "\n#a\n#b") (codes "a") (codes "b" ∷ []) refl are_lines refl starts
