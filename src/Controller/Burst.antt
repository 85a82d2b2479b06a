-- ===== src/Controller/Burst.antt =====
-- internal/controller.go: notifications that come faster than the worker.
use crdmetrics.Prelude.{
  String, Bool, true, false, ◌≡◌, ◌≢◌, refl, ap, ◌∙◌, none, some, List, [], ◌∷◌, ◌++◌, All, ok,
  ◌==◌, ==_refl, ==_iff, string_eq,
}
use crdmetrics.Prelude.Map.{lookup}
use crdmetrics.Resource.{CrdMetricsResource, Slices}
use crdmetrics.Config.{Yaml, Process}
use crdmetrics.Config.Stores.{lookup-drop_stores}
use crdmetrics.Handler.{Client, Object}
use crdmetrics.Handler.Healthy.{IsHealthy, IsWhole, expected, handle_event-expected}
use crdmetrics.Controller.{
  Cache, Workqueue, Item, found, on_add, on_delete, enqueue_crd_metrics, process_next_work_item,
  process_item, finish_item, sync_handler, handle_object, process_object,
}

-- What the documentation of the work queue says while no item is being processed (`is_idle`) and of
-- items whose handling succeeds: an item that waits is not added again, and the items are handed
-- out in the order they were added.
pub record InOrder (queue : Workqueue) : Type 0 where
  pub waiting : queue.State → List Item
  pub is_idle : queue.State → Bool
  pub adds :
      (q : queue.State) (items : List Item) (item : Item)
      → is_idle q ≡ true
      → waiting q ≡ items
      → All (λ (other : Item). other ≢ item) items
      → (waiting (queue.add item q) ≡ items ++ item ∷ []) × (is_idle (queue.add item q) ≡ true)
  pub ignores :
      (q : queue.State) (before after : List Item) (item : Item)
      → is_idle q ≡ true
      → waiting q ≡ before ++ item ∷ after
      → (waiting (queue.add item q) ≡ waiting q) × (is_idle (queue.add item q) ≡ true)
  pub hands_out :
      (q : queue.State) (item : Item) (rest : List Item)
      → is_idle q ≡ true
      → waiting q ≡ item ∷ rest
      → (q' : queue.State) × (queue.get q ≡ (q', some item)) × (waiting q' ≡ rest)
  -- if nothing was added meanwhile
  pub finishes :
      (q q' : queue.State) (item : Item)
      → is_idle q ≡ true
      → queue.get q ≡ (q', some item)
      → (waiting (queue.done item (queue.forget item q')) ≡ waiting q')
        × (is_idle (queue.done item (queue.forget item q')) ≡ true)

abbrev item_of : String → String → Item
item_of key event = (key, event)

apart : (key : String) → item_of key "addEvent" ≢ item_of key "deleteEvent"
apart key e =
    let same = ap (λ (item : Item). item.1) e in
    let equal = (==_iff "addEvent" "deleteEvent").1 same in cc equal

module _ (client : Client) (slices : Slices) (yaml : Yaml) (try_no_cache : Bool) (cache : Cache)
    (queue : Workqueue) (laws : InOrder queue) (key namespace name : String)
    (resource : CrdMetricsResource)
    (is_key : cache.split_meta_namespace_key key ≡ some (namespace, name))
    (is_there : cache.get namespace name ≡ found resource) (healthy : IsHealthy client resource)
    (whole : IsWhole yaml resource) where
  open client use {World}
  open laws use {waiting, is_idle}

  one_round :
      (w : World) (p : Process) (q : queue.State) (event : String) (rest : List Item)
      → is_idle q ≡ true
      → waiting q ≡ (key, event) ∷ rest
      → (w' : World) × (q' : queue.State) × (process_next_work_item client slices yaml try_no_cache
            cache queue w p q
          ≡ ok (((w', expected yaml event try_no_cache resource p), q'), true))
        × (waiting q' ≡ rest)
        × (is_idle q' ≡ true)
  unfolding process_next_work_item process_item sync_handler handle_object process_object
      finish_item
  one_round w p q event rest idle h =
      let (q1, got, less) = laws.hands_out q (key, event) rest idle h in
      let (kept, idle') = laws.finishes q q1 (key, event) idle got in
      let (w', handled) =
        handle_event-expected client slices resource healthy yaml event try_no_cache whole w p in
      (
        w',
        queue.done (key, event) (queue.forget (key, event) q1),
        rw got (rw is_key (rw is_there (rw handled refl))),
        kept ∙ less,
        idle',
      )

  -- the notifications of a resource that is added, deleted and added again
  abbrev notified : queue.State → Object → Object → queue.State
  notified q old new = on_add cache queue (on_delete cache queue (on_add cache queue q old) old) new

  notified-waiting :
      (q : queue.State) (old new : Object)
      → is_idle q ≡ true
      → waiting q ≡ []
      → cache.meta_namespace_key_func old ≡ some key
      → cache.meta_namespace_key_func new ≡ some key
      → (waiting (notified q old new) ≡ (key, "addEvent") ∷ (key, "deleteEvent") ∷ [])
        × (is_idle (notified q old new) ≡ true)
  unfolding on_add on_delete enqueue_crd_metrics
  notified-waiting q old new idle h k k' =
      let a = item_of key "addEvent" in
      let d = item_of key "deleteEvent" in
      let q1 = queue.add a q in
      let (one, idle1) = laws.adds q [] a idle h tt in
      let (two, idle2) = laws.adds q1 (a ∷ []) d idle1 one (apart key, tt) in
      let (three, idle3) = laws.ignores (queue.add d q1) [] (d ∷ []) a idle2 two in
      rw (k, k') (three ∙ two, idle3)

  dropped :
      (p : Process)
      → (resource.spec.configuration == "") ≡ false
      → lookup resource.uid (expected yaml "deleteEvent" try_no_cache resource p).uid_to_stores
        ≡ none
  dropped p h =
      rw h (lookup-drop_stores resource.uid resource.uid p ∙ rw (==_refl resource.uid) refl)

  -- A resource that is deleted and created again before a worker comes to its items can end without
  -- stores, though it exists: the second add notification is taken for the first, which still
  -- waits, so the delete event is handled last, and it drops the stores of the new resource. Then
  -- nothing is left in the queue that would build them again. This is for a queue that is empty and of
  -- which no item is being processed at first, an API server that answers, and a configuration that
  -- is not empty and has no nil pointer to a store or a family.
  pub recreated-loses_stores :
      (w : World) (p : Process) (q : queue.State) (old new : Object)
      → is_idle q ≡ true
      → waiting q ≡ []
      → cache.meta_namespace_key_func old ≡ some key
      → cache.meta_namespace_key_func new ≡ some key
      → (resource.spec.configuration == "") ≡ false
      → (w1 : World) × (p1 : Process) × (q1 : queue.State) × (w2 : World) × (p2 : Process)
        × (q2 : queue.State) × (process_next_work_item client slices yaml try_no_cache cache queue w
              p
              (on_add cache queue (on_delete cache queue (on_add cache queue q old) old) new)
            ≡ ok (((w1, p1), q1), true))
        × (process_next_work_item client slices yaml try_no_cache cache queue w1 p1 q1
            ≡ ok (((w2, p2), q2), true))
        × (waiting q2 ≡ [])
        × (lookup resource.uid p2.uid_to_stores ≡ none)
  recreated-loses_stores w p q old new idle h k k' full =
      let (queued, still_idle) = notified-waiting q old new idle h k k' in
      let (w1, q1, first, left, idle1) =
        one_round w p (notified q old new) "addEvent" ((key, "deleteEvent") ∷ []) still_idle
          queued in
      let p1 = expected yaml "addEvent" try_no_cache resource p in
      let (w2, q2, second, none_left, idle2) = one_round w1 p1 q1 "deleteEvent" [] idle1 left in
      let p2 = expected yaml "deleteEvent" try_no_cache resource p1 in
      (w1, p1, q1, w2, p2, q2, first, second, none_left, dropped p1 full)
