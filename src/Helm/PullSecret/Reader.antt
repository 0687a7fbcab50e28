-- ===== src/Helm/PullSecret/Reader.antt =====
-- A reader of the text in an image-pull Secret, as a kubelet needs it: the one registry in it, with its
-- credentials.
use rancher_operator.Common.{Option, none, some, if◌then◌else◌}
use rancher_operator.Common.Text.{Text, Bytes, codes, after_prefix, is_empty}
use rancher_operator.Helm.Base64.Laws.{decode}
use rancher_operator.Helm.Json.Reader.{read_string}

infixl 5 ◌>>=◌
abbrev pub ◌>>=◌ : {A B : Type 0} → Option A → (A → Option B) → Option B
none >>= f = none
some a >>= f = f a

-- The credentials for a registry; `auth` is decoded from base64.
pub record Login : Type 0 where
  pub registry : Text
  pub username : Text
  pub password : Text
  pub auth : Bytes

unfoldable pub read_dockerconfigjson : Text → Option Login
read_dockerconfigjson s = do
  at_registry ← after_prefix s (codes "{\"auths\":{")
  registry ← read_string at_registry
  at_username ← after_prefix registry.1 (codes ":{\"username\":")
  username ← read_string at_username
  at_password ← after_prefix username.1 (codes ",\"password\":")
  password ← read_string at_password
  at_auth ← after_prefix password.1 (codes ",\"auth\":")
  auth ← read_string at_auth
  rest ← after_prefix auth.1 (codes "}}}")
  if is_empty rest
      then some (record {
        registry = registry.0;
        username = username.0;
        password = password.0;
        auth = decode auth.0;
      })
      else none
