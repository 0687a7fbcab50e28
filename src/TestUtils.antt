-- ===== src/TestUtils.antt =====
-- test/utils/utils.go, without the functions that only run a command
pub mod Uncomment
use rancher_operator.Common.{
  ℕ, zero, suc, ◌-◌, ◌^◌, ◌==◌, ltb, if◌then◌else◌, Bool, true, false, ◌&&◌, ◌||◌, Option, none,
  some, List, [], ◌∷◌, ◌++◌, length, Error, Result, ok, err, new_error, wrap,
}
use rancher_operator.Common.Text.{Text, Bytes, codes, is_empty, after_prefix, trim_prefix, contains}

-- The first element, longer by one byte in front.
abbrev onto_first : ℕ → List Text → List Text
onto_first c [] = (c ∷ []) ∷ []
onto_first c (line ∷ lines) = (c ∷ line) ∷ lines

-- `strings.Split(s, "\n")`
unfoldable pub split_lines : Text → List Text
split_lines [] = [] ∷ []
split_lines (c ∷ s) =
    let rest = split_lines s in if c == b'\n' then [] ∷ rest else onto_first c rest

-- The elements that are not empty.
unfoldable pub drop_empty : List Text → List Text
drop_empty [] = []
drop_empty (line ∷ lines) =
    let rest = drop_empty lines in if is_empty line then rest else line ∷ rest

-- `GetNonEmptyLines`
unfoldable pub get_non_empty_lines : Text → List Text
unfolding split_lines drop_empty
get_non_empty_lines output = drop_empty (split_lines output)

abbrev pub cert_manager_crds : List Text
cert_manager_crds =
    codes "certificates.cert-manager.io"
    ∷ codes "issuers.cert-manager.io"
    ∷ codes "clusterissuers.cert-manager.io"
    ∷ codes "certificaterequests.cert-manager.io"
    ∷ codes "orders.acme.cert-manager.io"
    ∷ codes "challenges.acme.cert-manager.io"
    ∷ []

-- The inner and the outer loop.
unfoldable pub is_listed : Text → List Text → Bool
is_listed crd [] = false
is_listed crd (line ∷ lines) = contains line crd || is_listed crd lines

unfoldable pub is_any_listed : List Text → List Text → Bool
unfolding is_listed
is_any_listed [] lines = false
is_any_listed (crd ∷ crds) lines = is_listed crd lines || is_any_listed crds lines

-- `IsCertManagerCRDsInstalled`, from what `kubectl get crds` printed.
unfoldable pub is_cert_manager_crds_installed : Result Text → Bool
unfolding is_any_listed get_non_empty_lines
is_cert_manager_crds_installed (err e) = false
is_cert_manager_crds_installed (ok output) =
    is_any_listed cert_manager_crds (get_non_empty_lines output)

-- The texts before and behind the first occurrence, by `strings.Index`.
unfoldable pub cut_around : Text → Text → Option (Text × Text)
unfolding after_prefix
cut_around target [] = elim (after_prefix [] target) [ none ↦ none | some rest ↦ some ([], rest) ]
cut_around target (c ∷ s) = elim (after_prefix (c ∷ s) target) [
  | some rest ↦ some ([], rest)
  | none ↦ elim (cut_around target s) [
    | none ↦ none
    | some (before, after) ↦ some (c ∷ before, after)
  ]
]

-- `bufio.MaxScanTokenSize`
abbrev pub max_scan_token_size : ℕ
max_scan_token_size = 2 ^ 16

-- A line without the carriage return at its end.
unfoldable pub drop_cr : Text → Text
drop_cr [] = []
drop_cr (c ∷ s) = let rest = drop_cr s in if c == b'\r' && is_empty s then [] else c ∷ rest

-- What a `bufio.Scanner` reads of lines: it skips an empty one at the end, and stops for good at one
-- that is too long for its buffer.
unfoldable pub scanned : List Text → List Text
unfolding drop_cr
scanned [] = []
scanned (line ∷ []) =
    if is_empty line
    then []
    else if ltb (length line) max_scan_token_size
    then drop_cr line ∷ []
    else []
scanned (line ∷ next ∷ lines) =
    let rest = scanned (next ∷ lines) in
    if ltb (length line) max_scan_token_size then drop_cr line ∷ rest else []

-- The lines without the prefix, with a line feed between two.
unfoldable pub uncommented : Text → List Text → Text
uncommented prefix [] = []
uncommented prefix (line ∷ []) = trim_prefix line prefix
uncommented prefix (line ∷ next ∷ lines) =
    trim_prefix line prefix ++ (b'\n' ∷ uncommented prefix (next ∷ lines))

-- The error, and the file that was written with its contents.
pub record Edit : Type 0 where
  pub result : Result (Unit {0})
  pub written : Option (Text × Bytes)

-- What happens to the file once the lines are known. No line at all leaves it as it is.
abbrev pub write_out :
    (Text → Bytes → Result (Unit {0}))
    → (quote : Text → Text) (filename prefix before after : Text) → List Text
    → Edit
write_out write_file quote filename prefix before after [] = record {
  result = ok tt;
  written = none;
}
write_out write_file quote filename prefix before after (line ∷ lines) =
    let contents = before ++ (uncommented prefix (line ∷ lines) ++ after) in
    record {
      result = elim (write_file filename contents) [
        | err e ↦ err (wrap (codes "failed to write file " ++ quote filename) e)
        | ok _ ↦ ok tt
      ];
      written = some (filename, contents);
    }

-- `UncommentCode`, over the calls of `os` and `%q`. Writing to a `bytes.Buffer` does not fail.
unfoldable pub uncomment_code :
    (read_file : Text → Result Bytes) (write_file : Text → Bytes → Result (Unit {0}))
    (quote : Text → Text) (filename target prefix : Text)
    → Edit
uncomment_code read_file write_file quote filename target prefix = elim (read_file filename) [
  | err e ↦ record {
    result = err (wrap (codes "failed to read file " ++ quote filename) e);
    written = none;
  }
  | ok content ↦ elim (cut_around target content) [
    | none ↦ record {
      result = err (
          new_error
            (codes "unable to find the code " ++ (quote target ++ codes " to be uncommented")));
      written = none;
    }
    | some (before, after) ↦
        write_out write_file quote filename prefix before after (scanned (split_lines target))
  ]
]
