-- ===== src/Helm/Server/Published.antt =====
-- What it is to publish an image-pull Secret on a cluster.
use rancher_operator.Common.{
  ◌≡◌, ◌⊎◌, inl, inr, refl, sym, ap, subst, ◌∙◌, Bool, true, Bool-cases, Option, none, some, arith,
  get_or,
}
use rancher_operator.Common.Text.{Text, Bytes, text_eq}
use rancher_operator.Common.Text.Laws.{text_eq_iff, text_eq_refl}
use rancher_operator.Api.Meta.{NamespacedName, Secret}
use rancher_operator.Helm.PullSecret.{secret_type_docker_config_json}
use rancher_operator.Helm.PullSecret.Laws.{Provides, Keeps}
use rancher_operator.Helm.Server.{Cluster, add, put, name_eq}

-- What the operator may do to the Secret of a name, so that it provides the wanted bytes: nothing, if
-- it does already; create it; or replace it, with its entries under other keys kept.
pub data SecretChange (n : NamespacedName) (desired : Bytes) (before after : Cluster) : Type 0 where
  unchanged :
      (s : Secret)
      → before.secrets n ≡ some s
      → Provides desired s
      → after ≡ before
      → SecretChange n desired before after
  made :
      (s : Secret)
      → before.secrets n ≡ none
      → Provides desired s
      → after ≡ record before { secrets = put n s before.secrets }
      → SecretChange n desired before after
  replaced :
      (s old : Secret)
      → before.secrets n ≡ some old
      → Provides desired s
      → Keeps s old
      → after ≡ record before { secrets = put n s before.secrets }
      → SecretChange n desired before after

-- The specification: the namespace is there and the Secret provides the wanted bytes, where the other
-- entries of a Secret that was there are kept; no other Secret, no other namespace and no release
-- has changed.
pub record Published (n : NamespacedName) (desired : Bytes) (before after : Cluster) : Type 0 where
  pub secret : Secret
  pub namespace_there : after.namespaces n.namespace ≡ true
  pub stored : after.secrets n ≡ some secret
  pub provides : Provides desired secret
  pub kept :
      (before.secrets n ≡ none)
      ⊎ ((old : Secret) × (before.secrets n ≡ some old) × ((old ≡ secret) ⊎ Keeps secret old))
  pub other_secrets : (m : NamespacedName) → (m ≡ n) ⊎ (after.secrets m ≡ before.secrets m)
  pub other_namespaces : (m : Text) → (m ≡ n.namespace) ⊎ (after.namespaces m ≡ before.namespaces m)
  pub same_releases : after.releases ≡ before.releases

-- What `ensureNamespace` may do.
abbrev pub NamespaceChange : Text → Cluster → Cluster → Type 0
NamespaceChange n before after =
    (after ≡ before) ⊎ (after ≡ record before { namespaces = add n before.namespaces })

name_eq_refl : (n : NamespacedName) → name_eq n n ≡ true
name_eq_refl n = rw (text_eq_refl n.namespace, text_eq_refl n.name) refl

eq_of_name_eq : (m n : NamespacedName) → name_eq m n ≡ true → m ≡ n
eq_of_name_eq m n h = ground (arith, text_eq_iff m.namespace n.namespace, text_eq_iff m.name n.name)

put_other :
    (n : NamespacedName) (s : Secret) (f : NamespacedName → Option Secret) (m : NamespacedName)
    → (m ≡ n) ⊎ (put n s f m ≡ f m)
put_other n s f m = elim (Bool-cases (name_eq m n)) [
  | inl same ↦ inl (eq_of_name_eq m n same)
  | inr different ↦ inr (rw different refl)
]

add_other : (n : Text) (f : Text → Bool) (m : Text) → (m ≡ n) ⊎ (add n f m ≡ f m)
add_other n f m = elim (Bool-cases (text_eq m n)) [
  | inl same ↦ inl ((text_eq_iff m n).0 same)
  | inr different ↦ inr (rw different refl)
]

-- The Secret of the name, if it is there, has the type of an image-pull Secret.
abbrev pub IsUsable : NamespacedName → Cluster → Type 0
IsUsable n cluster =
    (old : Secret) → cluster.secrets n ≡ some old → old.type ≡ secret_type_docker_config_json

pub IsUsable-of_namespaces :
    (n : NamespacedName) (added : Text) (before after : Cluster)
    → NamespaceChange added before after
    → IsUsable n before
    → IsUsable n after
IsUsable-of_namespaces n added before after (inl same) usable = subst (IsUsable n) (sym same) usable
IsUsable-of_namespaces n added before after (inr same) usable = subst (IsUsable n) (sym same) usable

-- To publish a Secret keeps this for each name, also for its own.
pub IsUsable-of_Published :
    (n m : NamespacedName) (desired : Bytes) (before after : Cluster)
    → Published n desired before after
    → IsUsable m before
    → IsUsable m after
IsUsable-of_Published n m desired before after p usable = elim (p.other_secrets m) [
  | inl same ↦ λ old found.
      ap (λ o. (get_or o old).type) (sym found ∙ ap after.secrets same ∙ p.stored)
      ∙ p.provides.right_type
  | inr kept ↦ λ old found. usable old (sym kept ∙ found)
]

-- With the namespace there already.
pub Published-of_there :
    (n : NamespacedName) (desired : Bytes) (before after : Cluster)
    → before.namespaces n.namespace ≡ true
    → SecretChange n desired before after
    → Published n desired before after
Published-of_there n desired before after there (unchanged s found provides same) =
    subst (Published n desired before) (sym same) (record {
      secret = s;
      namespace_there = there;
      stored = found;
      provides = provides;
      kept = inr (s, found, inl refl);
      other_secrets = λ m. inr refl;
      other_namespaces = λ m. inr refl;
      same_releases = refl;
    })
Published-of_there n desired before after there (made s absent provides same) =
    subst (Published n desired before) (sym same) (record {
      secret = s;
      namespace_there = there;
      stored = rw (name_eq_refl n) refl;
      provides = provides;
      kept = inl absent;
      other_secrets = λ m. put_other n s before.secrets m;
      other_namespaces = λ m. inr refl;
      same_releases = refl;
    })
Published-of_there n desired before after there (replaced s old found provides keeps same) =
    subst (Published n desired before) (sym same) (record {
      secret = s;
      namespace_there = there;
      stored = rw (name_eq_refl n) refl;
      provides = provides;
      kept = inr (old, found, inr keeps);
      other_secrets = λ m. put_other n s before.secrets m;
      other_namespaces = λ m. inr refl;
      same_releases = refl;
    })

-- With the namespace ensured first.
pub Published-of_steps :
    (n : NamespacedName) (desired : Bytes) (before middle after : Cluster)
    → NamespaceChange n.namespace before middle
    → Published n desired middle after
    → Published n desired before after
Published-of_steps n desired before middle after (inl same) published =
    subst (λ b. Published n desired b after) same published
Published-of_steps n desired before middle after (inr added) published =
    let p : Published n desired (record before { namespaces = add n.namespace before.namespaces })
        after =
      subst (λ b. Published n desired b after) added published in
    record {
      secret = p.secret;
      namespace_there = p.namespace_there;
      stored = p.stored;
      provides = p.provides;
      kept = p.kept;
      other_secrets = p.other_secrets;
      other_namespaces = λ m. elim (p.other_namespaces m) [
        | inl same ↦ inl same
        | inr kept ↦ elim (add_other n.namespace before.namespaces m) [
          | inl same ↦ inl same
          | inr before_too ↦ inr (kept ∙ before_too)
        ]
      ];
      same_releases = p.same_releases;
    }
