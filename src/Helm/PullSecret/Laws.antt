-- ===== src/Helm/PullSecret/Laws.antt =====
-- What the image-pull Secret is after a run, and when nothing is written.
use rancher_operator.Common.{
  Bool-cases, ◌≡◌, ◌≢◌, ◌↔◌, ◌∙◌, sym, ap, not, ◌⊎◌, inl, inr, refl, true, ◌&&◌, Option, none, some,
  [], ◌∷◌, get_or, Error, Result, ok, err, is_not_found, is_already_exists, arith, is_ok,
}
use rancher_operator.Common.Text.{Text, Bytes, text_eq}
use rancher_operator.Common.Text.Laws.{text_eq_iff}
use rancher_operator.Api.Meta.{NamespacedName, Secret, secret_value, lookup, insert}
use rancher_operator.Api.Meta.Laws.{lookup-insert, lookup-insert_self}
use rancher_operator.Runtime.{
  Env, Log, Clientset, got_namespace, got_remote_secret, created_remote_secret,
  updated_remote_secret, exit_if-rule, or_exit-rule,
}
use rancher_operator.Helm.PullSecret.{
  bytes_equal, ensure_namespace, create_if_missing, update_if_different, ensure_secret,
  secret_type_docker_config_json, docker_config_json_key,
}

-- `bytesEqual` decides equality.
bytes_equal_iff : (a b : Bytes) → (bytes_equal a b ≡ true) ↔ (a ≡ b)
unfolding bytes_equal
bytes_equal_iff [] [] = ground arith
bytes_equal_iff [] (_ ∷ _) = ground arith
bytes_equal_iff (_ ∷ _) [] = ground arith
bytes_equal_iff (a ∷ s) (b ∷ t) = ground (arith, bytes_equal_iff s t)

-- The Secret that the operator wants: of the type, and with the bytes at the key.
pub record Provides (desired : Bytes) (secret : Secret) : Type 0 where
  pub right_type : secret.type ≡ secret_type_docker_config_json
  pub right_data : secret_value secret docker_config_json_key ≡ some desired

-- Nothing but the wanted entry of the Secret differs from `existing`.
abbrev pub Keeps : Secret → Secret → Type 0
Keeps secret existing =
    (k : Text)
    → (text_eq docker_config_json_key k ≡ true) ⊎ (secret_value secret k ≡ secret_value existing k)

-- What the calls of a successful run behind `before` show, at the Secret of this cluster and name:
-- it was found as wanted, and nothing was written; or it was not found, and created as wanted; or
-- it was found and overwritten as wanted, with its other entries kept.
abbrev pub Ensures : Clientset → NamespacedName → Bytes → Log → Log → Type 0
Ensures clientset name desired before (got_remote_secret c n (ok secret) ∷ log) =
    Provides desired secret × (c ≡ clientset) × (n ≡ name) × (log ≡ before)
Ensures clientset name desired before
      (created_remote_secret c n secret (ok _) ∷ got_remote_secret _ _ (err e) ∷ log) =
    Provides desired secret
    × (is_not_found e ≡ true)
    × (c ≡ clientset)
    × (n ≡ name)
    × (log ≡ before)
Ensures clientset name desired before
      (updated_remote_secret c n secret (ok _) ∷ got_remote_secret _ _ (ok existing) ∷ log) =
    Provides desired secret × Keeps secret existing × (c ≡ clientset) × (n ≡ name) × (log ≡ before)
Ensures clientset name desired before _ = ⊥

-- The Secret that an update writes.
abbrev pub overwritten : Bytes → Secret → Secret
overwritten desired existing = record {
  type = secret_type_docker_config_json;
  contents = some (insert docker_config_json_key desired (get_or existing.contents []));
}

pub overwritten-Provides :
    (desired : Bytes) (existing : Secret) → Provides desired (overwritten desired existing)
unfolding secret_value
overwritten-Provides desired existing = record {
  right_type = refl;
  right_data = lookup-insert_self docker_config_json_key desired (get_or existing.contents []);
}

-- The Secret that is created.
abbrev pub created : Bytes → Secret
created desired = record {
  type = secret_type_docker_config_json;
  contents = some ((docker_config_json_key, desired) ∷ []);
}

pub created-Provides : (desired : Bytes) → Provides desired (created desired)
unfolding secret_value insert
created-Provides desired = record {
  right_type = refl;
  right_data = lookup-insert_self docker_config_json_key desired [];
}

secret_value-get_or : (s : Secret) (k : Text) → secret_value s k ≡ lookup k (get_or s.contents [])
unfolding secret_value lookup
secret_value-get_or s k = ground arith

pub overwritten-Keeps :
    (desired : Bytes) (existing : Secret) → Keeps (overwritten desired existing) existing
overwritten-Keeps desired existing k = elim (Bool-cases (text_eq docker_config_json_key k)) [
  | inl same ↦ inl same
  | inr different ↦ inr (
      secret_value-get_or (overwritten desired existing) k
      ∙ (rw different at
            (lookup-insert docker_config_json_key k desired (get_or existing.contents []))
          ∙ sym (secret_value-get_or existing k)))
]

-- A value that is not empty was read from an entry.
secret_value_of_get_or :
    (o : Option Bytes) (desired : Bytes) → desired ≢ [] → get_or o [] ≡ desired → o ≡ some desired
secret_value_of_get_or none desired filled e = absurd (filled (sym e))
secret_value_of_get_or (some bytes) desired filled e = ap some e

-- The test of `EnsureImagePullSecret` finds a Secret as wanted.
pub Provides-of_test :
    (desired : Bytes) (secret : Secret)
    → desired ≢ []
    → (text_eq secret.type secret_type_docker_config_json
        && bytes_equal (get_or (secret_value secret docker_config_json_key) []) desired)
      ≡ true
    → Provides desired secret
Provides-of_test desired secret filled same = record {
  right_type = (text_eq_iff secret.type secret_type_docker_config_json).0 (ground arith);
  right_data =
      secret_value_of_get_or _ desired filled ((bytes_equal_iff _ desired).0 (ground arith));
}

module _ (env : Env) (clientset : Clientset) (name : NamespacedName) (desired : Bytes)
    (filled : desired ≢ []) where
  update_if_different-Ensures :
      (secret : Secret) (before : Log)
      → let p =
          update_if_different env clientset name desired secret
            (got_remote_secret clientset name (ok secret) ∷ before) in
        p.0 ≡ ok tt → Ensures clientset name desired before p.1
  unfolding update_if_different
  update_if_different-Ensures secret before =
      let P : Result (Unit {0}) × Log → Type 0 =
        λ p. p.0 ≡ ok tt → Ensures clientset name desired before p.1 in
      exit_if-rule P
        (text_eq secret.type secret_type_docker_config_json
          && bytes_equal (get_or (secret_value secret docker_config_json_key) []) desired)
        _ _ _ (λ same _. (Provides-of_test desired secret filled same, refl, refl, refl))
        λ _.
          or_exit-rule P (env.update_remote_secret _ clientset name (overwritten desired secret)) _
            _ _ (λ e _ h. absurd (ground arith))
            λ _ written _. rw written (
              overwritten-Provides desired secret,
              overwritten-Keeps desired secret,
              refl,
              refl,
              refl,
            )

  create_if_missing-Ensures :
      (e : Error) (before : Log)
      → let p =
          create_if_missing env clientset name desired e
            (got_remote_secret clientset name (err e) ∷ before) in
        p.0 ≡ ok tt → Ensures clientset name desired before p.1
  unfolding create_if_missing
  create_if_missing-Ensures e before =
      let P : Result (Unit {0}) × Log → Type 0 =
        λ p. p.0 ≡ ok tt → Ensures clientset name desired before p.1 in
      exit_if-rule P (not (is_not_found e)) _ _ _ (λ _ h. absurd (ground arith))
        λ missing.
          or_exit-rule P (env.create_remote_secret _ clientset name (created desired)) _ _ _
            (λ e' _ h. absurd (ground arith))
            λ _ written _. rw written (created-Provides desired, ground arith, refl, refl, refl)

  pub Ensures-when_ok :
      (before : Log)
      → let p = ensure_secret env clientset name desired before in
        p.0 ≡ ok tt → Ensures clientset name desired before p.1
  unfolding ensure_secret
  Ensures-when_ok before =
      let P : Result (Unit {0}) × Log → Type 0 =
        λ p. p.0 ≡ ok tt → Ensures clientset name desired before p.1 in
      or_exit-rule P (env.get_remote_secret before clientset name) _ _ _
        (λ e got. rw got (create_if_missing-Ensures e before))
        λ existing got. rw got (update_if_different-Ensures existing before)

-- Once the Secret is as wanted, a run reads it and writes nothing.
pub ensure_secret_of_Provides :
    (env : Env) (clientset : Clientset) (name : NamespacedName) (desired : Bytes) (log : Log)
    (secret : Secret)
    → env.get_remote_secret log clientset name ≡ ok secret
    → Provides desired secret
    → ensure_secret env clientset name desired log
      ≡ (ok tt, got_remote_secret clientset name (ok secret) ∷ log)
unfolding ensure_secret update_if_different
ensure_secret_of_Provides env clientset name desired log secret got wanted =
    let same : (text_eq secret.type secret_type_docker_config_json
          && bytes_equal (get_or (secret_value secret docker_config_json_key) []) desired)
        ≡ true =
      ground (
        arith,
        wanted.right_data,
        bytes_equal_iff desired desired,
        text_eq_iff secret.type secret_type_docker_config_json,
      ) in
    rw (got, same)

-- The function succeeds exactly when the namespace is found, or is not found and then created, by
-- this call or, as the answer to it shows, by someone else meanwhile.
pub ensure_namespace_iff :
    (env : Env) (clientset : Clientset) (name : Text) (log : Log)
    → let found = env.get_namespace log clientset name in
      let later = got_namespace clientset name found ∷ log in
      ((ensure_namespace env clientset name log).0 ≡ ok tt) ↔ (
        (is_ok found ≡ true)
        ⊎ ((e : Error) × (found ≡ err e)
            × (is_not_found e ≡ true)
            × ((env.create_namespace later clientset name ≡ ok tt)
                ⊎ ((e' : Error) × (env.create_namespace later clientset name ≡ err e')
                    × (is_already_exists e' ≡ true)))))
unfolding ensure_namespace
ensure_namespace_iff env clientset name log = ground arith
