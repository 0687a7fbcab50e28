-- ===== src/Helm/PullSecret/RoundTrip.antt =====
-- Reading what `dockerconfigjson` prints.
use rancher_operator.Common.{
  ℕ, ◌+◌, ◌*◌, ◌/◌, ◌%◌, ◌<◌, ◌≡◌, refl, some, [], ◌∷◌, ◌++◌, append_assoc, ok, All, arith,
}
use rancher_operator.Common.Text.{Text, Bytes, codes}
use rancher_operator.Common.Text.Laws.{after_prefix-append}
use rancher_operator.Helm.Base64.{digit, encode}
use rancher_operator.Helm.Base64.Laws.{decode-encode}
use rancher_operator.Helm.Json.{marshal_string}
use rancher_operator.Helm.Json.Reader.{to_utf8, to_utf8_from}
use rancher_operator.Helm.Json.RoundTrip.{read-marshal_string}
use rancher_operator.Helm.PullSecret.{dockerconfigjson, auth_entry}
use rancher_operator.Helm.PullSecret.Reader.{read_dockerconfigjson}

-- The printed text as a row of pieces.
printed_lem :
    (h u p : Text)
    → dockerconfigjson h u p
      ≡ ok (
          codes "{\"auths\":{"
          ++ (marshal_string h
              ++ (codes ":{\"username\":"
                  ++ (marshal_string u
                      ++ (codes ",\"password\":"
                          ++ (marshal_string p
                              ++ (codes ",\"auth\":"
                                  ++ (marshal_string (encode (u ++ (b':' ∷ p)))
                                      ++ codes "}}}"))))))))
unfolding dockerconfigjson auth_entry
printed_lem h u p = simp (append_assoc) refl

digit-lt : (n : ℕ) → n < 64 → digit n < 0x80
unfolding digit
digit-lt n h = ground arith

to_utf8_of_ascii : (s : Text) → All (λ c. c < 0x80) s → to_utf8 s ≡ s
unfolding to_utf8_from
to_utf8_of_ascii [] h = refl
to_utf8_of_ascii (c ∷ s) h = ground (arith, to_utf8_of_ascii s h.1)

All-encode : (bytes : Bytes) → All (λ b. b < 256) bytes → All (λ c. c < 0x80) (encode bytes)
unfolding encode
All-encode [] h = tt
All-encode (a ∷ []) h = ground (arith, digit-lt (a / 4), digit-lt (a % 4 * 16))
All-encode (a ∷ b ∷ []) h =
    ground (arith, digit-lt (a / 4), digit-lt (a % 4 * 16 + b / 16), digit-lt (b % 16 * 4))
All-encode (a ∷ b ∷ c ∷ rest) h = ground (
  arith,
  digit-lt (a / 4),
  digit-lt (a % 4 * 16 + b / 16),
  digit-lt (b % 16 * 4 + c / 64),
  digit-lt (c % 64),
  All-encode rest,
)

All-joined :
    (u p : Bytes)
    → All (λ b. b < 256) u
    → All (λ b. b < 256) p
    → All (λ b. b < 256) (u ++ (b':' ∷ p))
All-joined [] p h h' = (omega arith, h')
All-joined (a ∷ u) p h h' = (h.0, All-joined u p h.1 h')

-- For a user name and a password of bytes: the text that is printed is read back with the same
-- registry, user name and password, but that each byte in them that begins no rune has become U+FFFD;
-- what is under `auth` is the user name, a colon and the password, byte for byte.
pub read-dockerconfigjson :
    (registry_host username password : Text)
    → All (λ b. b < 256) username
    → All (λ b. b < 256) password
    → (text : Bytes) × (dockerconfigjson registry_host username password ≡ ok text)
      × (read_dockerconfigjson text
          ≡ some (record {
            registry = to_utf8 registry_host;
            username = to_utf8 username;
            password = to_utf8 password;
            auth = username ++ (b':' ∷ password);
          }))
unfolding read_dockerconfigjson
read-dockerconfigjson h u p bytes bytes' =
    let joined = All-joined u p bytes bytes' in
    (
      _,
      printed_lem h u p,
      rw
          (
            after_prefix-append (codes "{\"auths\":{") _,
            read-marshal_string h _,
            after_prefix-append (codes ":{\"username\":") _,
            read-marshal_string u _,
            after_prefix-append (codes ",\"password\":") _,
            read-marshal_string p _,
            after_prefix-append (codes ",\"auth\":") _,
            read-marshal_string (encode (u ++ (b':' ∷ p))) _,
            to_utf8_of_ascii (encode (u ++ (b':' ∷ p))) (All-encode (u ++ (b':' ∷ p)) joined),
            decode-encode (u ++ (b':' ∷ p)) joined,
            after_prefix-append (codes "}}}") [],
          )
          refl,
    )
