-- ===== src/Tests/CopyRuns.antt =====
-- Deep copies of a stored list.
use rancher_operator.Common.{ℕ, refl, true, false, none, some, [], ◌∷◌, arith}
use rancher_operator.Common.Text.{codes}
use rancher_operator.Api.Meta.{Condition}
use rancher_operator.Api.DeepCopy.{
  Ptr, Object, nil_object, object, return, flat, pointer, slice, copy_slice, Apimachinery, TypeMeta,
}
use rancher_operator.Api.DeepCopy.Laws.{CopiesDeeply, flat-IsDeep, copy_slice-IsDeep}
use rancher_operator.Api.DeepCopy.ClusterPrerequisites.{
  StoredClusterPrerequisites, StoredClusterPrerequisitesList,
  copy_cluster_prerequisites_list_object, list_layout,
}
use rancher_operator.Api.DeepCopy.Sharing.{
  CopiesObjects, deep_copies-CopiesObjects, Unshared,
  copy_cluster_prerequisites_list_object-Unshared,
}
use rancher_operator.Api.DeepCopy.{Slice, copy_items, items_addresses}
use rancher_operator.Common.Text.{Text}
use rancher_operator.Tests.World.{no_status}

-- Metadata of which only the finalizers are kept, and conditions without pointers.
abbrev machinery : Apimachinery
machinery = record {
  ObjectMeta = Slice Text;
  ListMeta = Text;
  Condition = Condition;
  object_meta = slice flat;
  list_meta = flat;
  condition = flat;
  object_meta_into = copy_slice return;
  list_meta_into = return;
  condition_into = return;
}

machinery-CopiesDeeply : CopiesDeeply machinery
machinery-CopiesDeeply = record {
  object_meta = copy_slice-IsDeep flat return flat-IsDeep;
  list_meta = flat-IsDeep;
  condition = flat-IsDeep;
}

abbrev type_meta : TypeMeta
type_meta = record { kind = codes "ClusterPrerequisites"; api_version = codes "v1alpha1" }

abbrev stored : StoredClusterPrerequisites machinery
stored = record {
  type_meta = type_meta;
  meta = some (record { address = 0; content = codes "f" ∷ [] });
  spec = record {
    target_cluster_ref = record { name = codes "edge" };
    application_collection_credentials_secret_ref =
        some (record { address = 1; content = record { name = codes "ac" } });
    cert_manager = some (record { address = 2; content = record { enabled = true; version = [] } });
    ingress = none;
    load_balancer = some (record {
      address = 3;
      content = record {
        type = codes "metallb";
        metallb = some (record {
          address = 4;
          content = record { address_pool = codes "10.0.0.0/24"; version = [] };
        });
      };
    });
  };
  status = record {
    ready = false;
    components = record {
      cert_manager = no_status;
      ingress = no_status;
      load_balancer = no_status;
    };
    observed_generation = 0;
    conditions = some (record { address = 5; content = [] });
  };
}

abbrev stored_list : Ptr (StoredClusterPrerequisitesList machinery)
stored_list = some (record {
  address = 6;
  content = record {
    type_meta = type_meta;
    meta = [];
    items = some (record { address = 7; content = stored ∷ [] });
  };
})

abbrev copied : Object (StoredClusterPrerequisitesList machinery) × ℕ
copied = copy_cluster_prerequisites_list_object machinery stored_list 8

abbrev content_of :
    Object (StoredClusterPrerequisitesList machinery)
    → Ptr (StoredClusterPrerequisitesList machinery)
content_of o = elim o [ nil_object ↦ none | object p ↦ p ]

deep_copies-CopiesObjects_example : CopiesObjects machinery
deep_copies-CopiesObjects_example = deep_copies-CopiesObjects machinery machinery-CopiesDeeply

copy_cluster_prerequisites_list_object-Unshared_example :
    Unshared (pointer (list_layout machinery)) stored_list (content_of copied.0)
unfolding copy_items items_addresses
copy_cluster_prerequisites_list_object-Unshared_example =
    copy_cluster_prerequisites_list_object-Unshared machinery stored_list (content_of copied.0) 8
      copied.1 machinery-CopiesDeeply refl (omega arith)
