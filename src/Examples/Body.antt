-- ===== src/Examples/Body.antt =====
-- The theorems on the body of a response for the metrics, applied.
use crdmetrics.Prelude.{
  Bytes, ◌≡◌, refl, some, none, true, false, List, [], ◌∷◌, ◌++◌, ok, get_elem?, get_elem?_in_range,
  string_eq, All, arith,
}
use crdmetrics.Prelude.Map.{lookup, insert}
use crdmetrics.Store.{StoreType, new_store, inherit_family, add, add_call, call}
use crdmetrics.Store.Balance.{IsBalanced, add-ok, added}
use crdmetrics.Store.Shape.{IsShaped, call-IsShaped}
use crdmetrics.Builder.{build_store, build_all_headers}
use crdmetrics.Family.{build_headers}
use crdmetrics.Builder.Headers.{build_store-IsShaped, build_store-IsBalanced}
use crdmetrics.Config.{
  Process, build_one, build_stores, build_loaded, drop_stores, parse, new_configurer,
}
use crdmetrics.Handler.Healthy.{expected, handle_event-expected}
use crdmetrics.Writer.Chunks.Exposition.{IsFamilies}
use crdmetrics.Server.{metrics_handler}
use crdmetrics.Server.Reach.{Reachable, start, next, handles, reflects, start_process, set_at}
use crdmetrics.Server.Workers.{store_for}
use crdmetrics.Server.Exposition.{IsNamed, into_buffer, all_families, metrics_handler-IsFamilies}
use crdmetrics.Server.Body.{metrics_handler-shows}
use crdmetrics.Examples.{libs, objects, pod, family, in_order}
use crdmetrics.Examples.Serving.{store, target, family_balanced, name_one_line}
use crdmetrics.Examples.Status.{slices, resource}
use crdmetrics.Examples.Whole.{http}
use crdmetrics.Examples.Queue.{steady, healthy, one_store, one_store-IsWhole}

-- the process after the add event of a resource
abbrev added_resource : Process
added_resource = expected one_store "addEvent" false resource start_process

added_resource_reachable : Reachable libs objects steady slices one_store added_resource
added_resource_reachable =
    let (w, e) =
      handle_event-expected steady slices resource healthy one_store "addEvent" false
        one_store-IsWhole none start_process in
    next start (handles none w added_resource "addEvent" resource false e)

empty_store : get_elem? added_resource.heap 0 ≡ some (store_for false store)
unfolding parse new_configurer drop_stores build_loaded build_stores build_one lookup
empty_store = refl

store_balanced : IsBalanced (store_for false store)
store_balanced =
    build_store-IsBalanced 0 _ (family ∷ []) false "" "" "" store.label_keys store.label_values
      (omega arith) family_balanced

-- the texts of a pod
pod_texts :
    (raws : List Bytes) × (add libs objects (store_for false store) (some pod)
      ≡ ok (added (store_for false store) pod raws))
pod_texts = add-ok libs objects (store_for false store) (some pod) pod store_balanced refl

abbrev with_pod : StoreType
with_pod = added (store_for false store) pod pod_texts.0

called : call libs objects (store_for false store) (add_call (some pod)) ≡ ok with_pod
unfolding call
called = pod_texts.1

-- the process once the pod is added
abbrev serving : Process
serving = record added_resource { heap = set_at 0 with_pod added_resource.heap }

serving_reachable : Reachable libs objects steady slices one_store serving
serving_reachable =
    next added_resource_reachable
      (reflects 0 (store_for false store) with_pod (add_call (some pod)) empty_store called)

pod_text : (raw : Bytes) × (get_elem? pod_texts.0 0 ≡ some raw)
unfolding insert build_store new_store build_all_headers build_headers
pod_text =
    let shaped : IsShaped with_pod =
      call-IsShaped libs objects (store_for false store) with_pod (add_call (some pod)) called (
        build_store-IsShaped 0 target (family ∷ []) false "" "" "" store.label_keys
          store.label_values) in
    let sized = shaped.entries.0 in
    let (raw, e) =
      get_elem?_in_range pod_texts.0 0 (omega (arith, sized, shaped.families_headers)) in
    (raw, e)

has_resource : lookup "resource-1" serving.uid_to_stores ≡ some (0 ∷ [])
unfolding parse new_configurer drop_stores build_loaded build_stores build_one lookup insert
has_resource = refl

has_store : get_elem? serving.heap 0 ≡ some with_pod
unfolding parse new_configurer drop_stores build_loaded build_stores build_one lookup insert
has_store = refl

has_pod : lookup "uid-1" with_pod.metrics ≡ some pod_texts.0
unfolding build_store new_store lookup insert
has_pod = refl

metrics_handler-shows_example :
    (before : Bytes) × (after : Bytes) × (metrics_handler
        (into_buffer http)
        in_order
        serving
        true
        []
      ≡ ok (before ++ (pod_text.0 ++ after)))
metrics_handler-shows_example =
    metrics_handler-shows in_order http libs objects steady slices one_store serving true
      "resource-1" (0 ∷ []) 0 0 with_pod "uid-1" pod_texts.0 0 pod_text.0 serving_reachable
      has_resource refl has_store has_pod pod_text.1

all_named : All IsNamed serving.heap
unfolding parse new_configurer drop_stores build_loaded build_stores build_one build_store new_store
    lookup build_all_headers build_headers inherit_family
all_named = (name_one_line, tt)

metrics_handler-IsFamilies_example :
    (text : Bytes) × (metrics_handler (into_buffer http) in_order serving true [] ≡ ok text)
    × IsFamilies (all_families serving.heap serving.uid_to_stores) text
metrics_handler-IsFamilies_example =
    metrics_handler-IsFamilies http in_order libs objects steady slices one_store serving true
      serving_reachable all_named
