-- ===== src/Api/DeepCopy/Laws.antt =====
-- What a deep copy is, for each form of type.
use rancher_operator.Common.{ℕ, suc, ◌≤◌, ◌≡◌, refl, none, some, List, [], ◌∷◌, ◌++◌, arith}
use rancher_operator.Api.DeepCopy.{
  Alloc, return, copy_pointer, copy_items, copy_slice, Layout, flat, pointer, items,
  items_addresses, items_erase, slice, Apimachinery,
}

-- Addresses that rise strictly, from `n` or later to before `m`.
unfoldable pub Rising : ℕ → ℕ → List ℕ → Type 0
Rising n m [] = n ≤ m
Rising n m (a ∷ rest) = (n ≤ a) × Rising (suc a) m rest

pub Rising-append :
    (n m k : ℕ) (rest bs : List ℕ) → Rising n m rest → Rising m k bs → Rising n k (rest ++ bs)
unfolding Rising
Rising-append n m k [] [] h h' = omega (arith, h, h')
Rising-append n m k [] (b ∷ bs) h h' = (omega (arith, h, h'.0), h'.1)
Rising-append n m k (a ∷ rest) bs h h' = (h.0, Rising-append (suc a) m k rest bs h.1 h')

-- A copy that code beginning at the free address `n` makes: it has the value of the original, and each
-- of its addresses is new.
pub record IsCopyOf {A : Type 0} (l : Layout A) (x : A) (n : ℕ) (p : A × ℕ) : Type 0 where
  pub same : l.erase p.0 ≡ l.erase x
  pub fresh : Rising n p.1 (l.addresses p.0)

abbrev pub IsDeep : {A : Type 0} → Layout A → (A → Alloc A) → Type 0
IsDeep {A} l into = (x : A) (n : ℕ) → IsCopyOf l x n (into x n)

pub flat-IsDeep : {A : Type 0} → IsDeep (flat {A = A}) return
unfolding Rising
flat-IsDeep x n = record { same = refl; fresh = omega arith }

pub copy_pointer-IsDeep :
    {A : Type 0} (l : Layout A) (into : A → Alloc A)
    → IsDeep l into
    → IsDeep (pointer l) (copy_pointer into)
unfolding Rising
copy_pointer-IsDeep l into deep none n = record { same = refl; fresh = omega arith }
copy_pointer-IsDeep l into deep (some cell) n =
    let inner = deep cell.content (suc n) in
    record { same = rw inner.same refl; fresh = (omega arith, inner.fresh) }

copy_items-IsDeep :
    {A : Type 0} (l : Layout A) (into : A → Alloc A)
    → IsDeep l into
    → IsDeep (items l) (copy_items into)
unfolding Rising copy_items items_addresses items_erase
copy_items-IsDeep l into deep [] n = record { same = refl; fresh = omega arith }
copy_items-IsDeep l into deep (x ∷ xs) n =
    let first = deep x n in
    let others = copy_items-IsDeep l into deep xs (into x n).1 in
    record {
      same = rw (first.same, others.same) refl;
      fresh = Rising-append n _ _ _ _ first.fresh others.fresh;
    }

pub copy_slice-IsDeep :
    {A : Type 0} (l : Layout A) (into : A → Alloc A)
    → IsDeep l into
    → IsDeep (slice l) (copy_slice into)
unfolding Rising
copy_slice-IsDeep l into deep none n = record { same = refl; fresh = omega arith }
copy_slice-IsDeep l into deep (some cell) n =
    let inner = copy_items-IsDeep l into deep cell.content (suc n) in
    record { same = rw inner.same refl; fresh = (omega arith, inner.fresh) }

-- What k8s.io/apimachinery says of its own deep copies.
pub record CopiesDeeply (api : Apimachinery) : Type 0 where
  pub object_meta : IsDeep api.object_meta api.object_meta_into
  pub list_meta : IsDeep api.list_meta api.list_meta_into
  pub condition : IsDeep api.condition api.condition_into
