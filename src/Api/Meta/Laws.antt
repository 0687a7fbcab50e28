-- ===== src/Api/Meta/Laws.antt =====
-- The laws of Go's maps, as the operator uses them.
use rancher_operator.Common.{◌≡◌, refl, some, List, [], ◌∷◌, arith, if◌then◌else◌}
use rancher_operator.Common.Text.{Text, text_eq}
use rancher_operator.Common.Text.Laws.{text_eq_iff, text_eq_refl}
use rancher_operator.Api.Meta.{lookup, insert}

module _ {ℓ} {V : Type ℓ} where
  pub lookup-insert :
      (k j : Text) (v : V) (m : List (Text × V))
      → lookup j (insert k v m) ≡ (if text_eq k j then some v else lookup j m)
  unfolding lookup insert
  lookup-insert k j v [] = refl
  lookup-insert k j v ((i, w) ∷ m) =
      ground (arith, text_eq_iff k j, text_eq_iff i k, text_eq_iff i j, lookup-insert k j v m)

  pub lookup-insert_self :
      (k : Text) (v : V) (m : List (Text × V)) → lookup k (insert k v m) ≡ some v
  lookup-insert_self k v m = rw (lookup-insert k k v m, text_eq_refl k)
