-- ===== src/Api/DeepCopy.antt =====
-- What the functions of api/v1alpha1/zz_generated.deepcopy.go share: memory in which every pointer
-- and every array has its address, the allocation of new ones, and the three forms of their bodies.
pub mod Laws
pub mod TargetCluster
pub mod ClusterPrerequisites
pub mod RancherManager
pub mod Sharing
use rancher_operator.Common.{ℕ, suc, Option, none, some, List, [], ◌∷◌, ◌++◌}
use rancher_operator.Common.Text.{Text}

-- What an address holds.
pub record Cell (A : Type 0) : Type 0 where
  pub address : ℕ
  pub content : A

-- A `*A`; `none` is nil.
abbrev pub Ptr : Type 0 → Type 0
Ptr A = Option (Cell A)

-- A `[]A`: nil, or an array of which all the elements belong to the slice.
abbrev pub Slice : Type 0 → Type 0
Slice A = Option (Cell (List A))

-- A value of the interface `runtime.Object`: nil, or a pointer with its type, which may itself be nil.
pub data Object (A : Type 0) : Type 0 where
  nil_object : Object A
  object : Ptr A → Object A

-- Code that allocates: from the first free address to a result and the next free address.
abbrev pub Alloc : Type 0 → Type 0
Alloc A = ℕ → A × ℕ

abbrev pub return : {A : Type 0} → A → Alloc A
return a n = (a, n)

infixl 5 ◌>>=◌
abbrev pub ◌>>=◌ : {A B : Type 0} → Alloc A → (A → Alloc B) → Alloc B
◌>>=◌ m f n = f (m n).0 (m n).1

-- A new cell, filled by `fill`: `new`, or `make`.
abbrev pub new : {A : Type 0} → Alloc A → Alloc (Ptr A)
new fill n = (some (record { address = n; content = (fill (suc n)).0 }), (fill (suc n)).1)

-- `if in == nil { return nil }; out := new(A); in.DeepCopyInto(out); return out`, and likewise
-- `if in.F != nil { …; *out = new(A); (*in).DeepCopyInto(*out) }` at a field.
abbrev pub copy_pointer : {A : Type 0} → (A → Alloc A) → Ptr A → Alloc (Ptr A)
copy_pointer into none = return none
copy_pointer into (some cell) = new (into cell.content)

-- The loop over the elements.
unfoldable pub copy_items : {A : Type 0} → (A → Alloc A) → List A → Alloc (List A)
copy_items into [] = return []
copy_items into (x ∷ xs) = do y ← into x; ys ← copy_items into xs; return (y ∷ ys)

-- `if in.F != nil { …; *out = make([]A, len(*in)); for i := range *in { … } }`
abbrev pub copy_slice : {A : Type 0} → (A → Alloc A) → Slice A → Alloc (Slice A)
copy_slice into none = return none
copy_slice into (some cell) = new (copy_items into cell.content)

-- `if c := in.DeepCopy(); c != nil { return c }; return nil`
abbrev pub as_object : {A : Type 0} → Ptr A → Alloc (Object A)
as_object none = return nil_object
as_object (some cell) = return (object (some cell))

-- How the memory of a type is looked at: the addresses in it, in the order in which they are
-- allocated, and the value with every address replaced by 0.
pub record Layout (A : Type 0) : Type 0 where
  pub addresses : A → List ℕ
  pub erase : A → A

-- A type without pointers.
abbrev pub flat : {A : Type 0} → Layout A
flat = record { addresses = λ x. []; erase = λ x. x }

abbrev pub pointer_addresses : {A : Type 0} → Layout A → Ptr A → List ℕ
pointer_addresses l none = []
pointer_addresses l (some cell) = cell.address ∷ l.addresses cell.content

abbrev pub pointer_erase : {A : Type 0} → Layout A → Ptr A → Ptr A
pointer_erase l none = none
pointer_erase l (some cell) = some (record { address = 0; content = l.erase cell.content })

abbrev pub pointer : {A : Type 0} → Layout A → Layout (Ptr A)
pointer l = record { addresses = pointer_addresses l; erase = pointer_erase l }

unfoldable pub items_addresses : {A : Type 0} → Layout A → List A → List ℕ
items_addresses l [] = []
items_addresses l (x ∷ xs) = l.addresses x ++ items_addresses l xs

unfoldable pub items_erase : {A : Type 0} → Layout A → List A → List A
items_erase l [] = []
items_erase l (x ∷ xs) = l.erase x ∷ items_erase l xs

abbrev pub items : {A : Type 0} → Layout A → Layout (List A)
items l = record { addresses = items_addresses l; erase = items_erase l }

abbrev pub slice : {A : Type 0} → Layout A → Layout (Slice A)
slice l = pointer (items l)

-- The types of k8s.io/apimachinery that the resources hold, with their generated functions
-- `DeepCopyInto`.
pub record Apimachinery : Type 1 where
  pub ObjectMeta : Type 0
  pub ListMeta : Type 0
  pub Condition : Type 0
  pub object_meta : Layout ObjectMeta
  pub list_meta : Layout ListMeta
  pub condition : Layout Condition
  pub object_meta_into : ObjectMeta → Alloc ObjectMeta
  pub list_meta_into : ListMeta → Alloc ListMeta
  pub condition_into : Condition → Alloc Condition

-- `metav1.TypeMeta`
pub record TypeMeta : Type 0 where
  pub kind : Text
  pub api_version : Text
