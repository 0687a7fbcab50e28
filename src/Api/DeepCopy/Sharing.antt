-- ===== src/Api/DeepCopy/Sharing.antt =====
-- What the generated deep copies promise to their callers.
use rancher_operator.Common.{
  ℕ, suc, ◌≤◌, ◌<◌, ◌≡◌, refl, none, some, List, [], ◌∷◌, All, subst, arith,
}
use mathlib.Core.List.{Memᴰ}
use rancher_operator.Api.DeepCopy.{
  Cell, Ptr, Object, nil_object, object, Alloc, ◌>>=◌, copy_pointer, as_object, Layout, pointer,
  Apimachinery,
}
use rancher_operator.Api.DeepCopy.Laws.{Rising, IsDeep, CopiesDeeply}
use rancher_operator.Api.DeepCopy.TargetCluster.{
  StoredTargetCluster, StoredTargetClusterList, target_cluster_layout, copy_target_cluster_object,
  copy_target_cluster_list_object, target_cluster_into, target_cluster_list_into,
}
use rancher_operator.Api.DeepCopy.TargetCluster
use rancher_operator.Api.DeepCopy.TargetCluster.Copies.{
  target_cluster_into-IsDeep, target_cluster_list_into-IsDeep,
}
use rancher_operator.Api.DeepCopy.ClusterPrerequisites.{
  StoredClusterPrerequisites, StoredClusterPrerequisitesList, cluster_prerequisites_layout,
  copy_cluster_prerequisites_object, copy_cluster_prerequisites_list_object,
  cluster_prerequisites_into, cluster_prerequisites_list_into,
}
use rancher_operator.Api.DeepCopy.ClusterPrerequisites
use rancher_operator.Api.DeepCopy.ClusterPrerequisites.Copies.{
  cluster_prerequisites_into-IsDeep, cluster_prerequisites_list_into-IsDeep,
}
use rancher_operator.Api.DeepCopy.RancherManager.{
  StoredRancherManager, StoredRancherManagerList, rancher_manager_layout,
  copy_rancher_manager_object, copy_rancher_manager_list_object, rancher_manager_into,
  rancher_manager_list_into,
}
use rancher_operator.Api.DeepCopy.RancherManager
use rancher_operator.Api.DeepCopy.RancherManager.Copies.{
  rancher_manager_into-IsDeep, rancher_manager_list_into-IsDeep,
}

-- What `DeepCopyObject` returns for a pointer: nil for nil, with nothing allocated; else a pointer
-- that is not nil, to the same value, where all of its memory is new.
pub data IsObjectCopy {A : Type 0} (l : Layout A) (given : Ptr A) (n : ℕ) (p : Object A × ℕ)
    : Type 0 where
  nothing : given ≡ none → p ≡ (nil_object, n) → IsObjectCopy l given n p
  copied :
      (cell copy : Cell A)
      → given ≡ some cell
      → p.0 ≡ object (some copy)
      → l.erase copy.content ≡ l.erase cell.content
      → Rising n p.1 (copy.address ∷ l.addresses copy.content)
      → IsObjectCopy l given n p

abbrev object_addresses : {A : Type 0} → Layout A → Object A → List ℕ
object_addresses l nil_object = []
object_addresses l (object p) = (pointer l).addresses p

copy_object_lem :
    {A : Type 0} (l : Layout A) (into : A → Alloc A)
    → IsDeep l into
    → (given : Ptr A) (n : ℕ) → IsObjectCopy l given n ((copy_pointer into given >>= as_object) n)
unfolding Rising
copy_object_lem l into deep none n = IsObjectCopy.nothing refl refl
copy_object_lem l into deep (some cell) n =
    let inner = deep cell.content (suc n) in
    IsObjectCopy.copied cell (record { address = n; content = (into cell.content (suc n)).0 }) refl
      refl inner.same (rising n _ _ inner.fresh)
  where
    rising : (n m : ℕ) (rest : List ℕ) → Rising (suc n) m rest → Rising n m (n ∷ rest)
    rising n m rest h = (omega arith, h)

-- Of the objects of the three resources, and of their lists.
pub record CopiesObjects (api : Apimachinery) : Type 0 where
  pub target_cluster :
      (given : Ptr (StoredTargetCluster api)) (n : ℕ)
      → IsObjectCopy (target_cluster_layout api) given n (copy_target_cluster_object api given n)
  pub target_cluster_list :
      (given : Ptr (StoredTargetClusterList api)) (n : ℕ)
      → IsObjectCopy
          (TargetCluster.list_layout api)
          given
          n
          (copy_target_cluster_list_object api given n)
  pub cluster_prerequisites :
      (given : Ptr (StoredClusterPrerequisites api)) (n : ℕ)
      → IsObjectCopy
          (cluster_prerequisites_layout api)
          given
          n
          (copy_cluster_prerequisites_object api given n)
  pub cluster_prerequisites_list :
      (given : Ptr (StoredClusterPrerequisitesList api)) (n : ℕ)
      → IsObjectCopy
          (ClusterPrerequisites.list_layout api)
          given
          n
          (copy_cluster_prerequisites_list_object api given n)
  pub rancher_manager :
      (given : Ptr (StoredRancherManager api)) (n : ℕ)
      → IsObjectCopy (rancher_manager_layout api) given n (copy_rancher_manager_object api given n)
  pub rancher_manager_list :
      (given : Ptr (StoredRancherManagerList api)) (n : ℕ)
      → IsObjectCopy
          (RancherManager.list_layout api)
          given
          n
          (copy_rancher_manager_list_object api given n)

-- With the deep copies of apimachinery's types, every `DeepCopyObject` returns nil exactly for nil, and
-- else a pointer to the same value, with nil pointers and nil slices kept; each address in the copy,
-- at every depth, is a new one, and all of them are different.
pub deep_copies-CopiesObjects : (api : Apimachinery) → CopiesDeeply api → CopiesObjects api
deep_copies-CopiesObjects api laws = record {
  target_cluster =
      copy_object_lem (target_cluster_layout api) (target_cluster_into api)
        (target_cluster_into-IsDeep api laws);
  target_cluster_list =
      copy_object_lem (TargetCluster.list_layout api) (target_cluster_list_into api)
        (target_cluster_list_into-IsDeep api laws);
  cluster_prerequisites =
      copy_object_lem (cluster_prerequisites_layout api) (cluster_prerequisites_into api)
        (cluster_prerequisites_into-IsDeep api laws);
  cluster_prerequisites_list =
      copy_object_lem (ClusterPrerequisites.list_layout api) (cluster_prerequisites_list_into api)
        (cluster_prerequisites_list_into-IsDeep api laws);
  rancher_manager =
      copy_object_lem (rancher_manager_layout api) (rancher_manager_into api)
        (rancher_manager_into-IsDeep api laws);
  rancher_manager_list =
      copy_object_lem (RancherManager.list_layout api) (rancher_manager_list_into api)
        (rancher_manager_list_into-IsDeep api laws);
}

-- A rising list is from its first bound on.
bounded_below : (n m a : ℕ) (rest : List ℕ) → Rising n m rest → Memᴰ a rest → n ≤ a
unfolding Rising
bounded_below n m a [] h i = elim i [ ]
bounded_below n m a (x ∷ rest) h (Memᴰ.head e) = omega (arith, h.0, e)
bounded_below n m a (x ∷ rest) h (Memᴰ.tail i) =
    omega (arith, h.0, bounded_below (suc x) m a rest h.1 i)

below : (n a : ℕ) (rest : List ℕ) → All (λ x. x < n) rest → Memᴰ a rest → a < n
below n a [] h i = elim i [ ]
below n a (x ∷ rest) h (Memᴰ.head e) = omega (arith, h.0, e)
below n a (x ∷ rest) h (Memᴰ.tail i) = below n a rest h.1 i

-- No address in the one is in the other.
pub record Unshared {A : Type 0} (l : Layout A) (x y : A) : Type 0 where
  pub apart : (a : ℕ) → Memᴰ a (l.addresses x) → Memᴰ a (l.addresses y) → ⊥

unshared_lem :
    {A : Type 0} (l : Layout A) (given copy : Ptr A) (n m : ℕ)
    → IsObjectCopy l given n (object copy, m)
    → All (λ a. a < n) ((pointer l).addresses given)
    → Unshared (pointer l) given copy
unshared_lem l given copy n m (nothing absent e) old = absurd (ground arith)
unshared_lem l given copy n m (copied cell new present e same fresh) old = record {
  apart = λ a i j.
      let known = below n a ((pointer l).addresses given) old i in
      let later =
        bounded_below n m a (new.address ∷ l.addresses new.content) fresh
          (subst (λ o. Memᴰ a (object_addresses l o)) e j) in
      omega (arith, known, later);
}

-- Where the allocator is past every address in a list of ClusterPrerequisites, the copy that
-- `DeepCopyObject` returns of this list has no pointer and no array, at any depth, in common with it: a
-- write through the one does not reach the other.
pub copy_cluster_prerequisites_list_object-Unshared :
    (api : Apimachinery) (given copy : Ptr (StoredClusterPrerequisitesList api)) (n m : ℕ)
    → CopiesDeeply api
    → copy_cluster_prerequisites_list_object api given n ≡ (object copy, m)
    → All (λ a. a < n) ((pointer (ClusterPrerequisites.list_layout api)).addresses given)
    → Unshared (pointer (ClusterPrerequisites.list_layout api)) given copy
copy_cluster_prerequisites_list_object-Unshared api given copy n m laws ran old =
    unshared_lem (ClusterPrerequisites.list_layout api) given copy n m
      (subst (IsObjectCopy (ClusterPrerequisites.list_layout api) given n) ran
        ((deep_copies-CopiesObjects api laws).cluster_prerequisites_list given n))
      old
