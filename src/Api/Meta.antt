-- ===== src/Api/Meta.antt =====
-- The parts of the Kubernetes API types that the operator reads and writes, and the references
-- of api/v1alpha1 that two resources share.
pub mod Laws
use rancher_operator.Common.{ℕ, Option, none, some, List, [], ◌∷◌, if◌then◌else◌}
use rancher_operator.Common.Text.{Text, Bytes, text_eq}

pub record NamespacedName : Type 0 where
  pub namespace : Text
  pub name : Text

-- `generation` is an int64 that the API server counts up from 1.
pub record ObjectMeta : Type 0 where
  pub name : Text
  pub namespace : Text
  pub generation : ℕ

pub data ConditionStatus : Type 0 where
  condition_true condition_false condition_unknown : ConditionStatus

-- `last_transition_time` is set by `meta.SetStatusCondition`, in seconds.
pub record Condition : Type 0 where
  pub type : Text
  pub status : ConditionStatus
  pub observed_generation : ℕ
  pub last_transition_time : ℕ
  pub reason : Text
  pub message : Text

-- The value at a key of a Go map; the zero value's absence is `none`.
unfoldable pub lookup {ℓ} : {V : Type ℓ} → Text → List (Text × V) → Option V
unfolding text_eq
lookup k [] = none
lookup k ((j, v) ∷ m) = if text_eq j k then some v else lookup k m

-- `m[k] = v`
unfoldable pub insert {ℓ} : {V : Type ℓ} → Text → V → List (Text × V) → List (Text × V)
unfolding text_eq
insert k v [] = (k, v) ∷ []
insert k v ((j, w) ∷ m) = if text_eq j k then (k, v) ∷ m else (j, w) ∷ insert k v m

-- A `corev1.Secret`. `contents` is its `Data` map, `none` for nil.
pub record Secret : Type 0 where
  pub type : Text
  pub contents : Option (List (Text × Bytes))

-- Reading a nil map finds nothing.
unfoldable pub secret_value : Secret → Text → Option Bytes
unfolding lookup
secret_value s key = elim s.contents [ none ↦ none | some m ↦ lookup key m ]

pub record LocalObjectReference : Type 0 where
  pub name : Text
