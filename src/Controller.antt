-- ===== src/Controller.antt =====
-- internal/controller.go: from the informer's notifications through the work queue to the handler.
pub mod Queueing
pub mod Drain
pub mod Burst
pub mod Startup
use crdmetrics.Prelude.{
  ℕ, zero, suc, String, Bool, true, false, ◌≡◌, Option, none, some, [], if◌then◌else◌, ◌||◌, Error,
  api_failed, Result, ok, err, panic, ◌>>=◌, ◌==◌, string_eq,
}
use crdmetrics.Resource.{CrdMetricsResource, Slices}
use crdmetrics.Config.{Yaml, Process}
use crdmetrics.Handler.{
  Client, Object, managed, unmanaged, EventType, add_event, update_event, delete_event,
  event_string, handle_event,
}

-- An item of the work queue: a key, and an event's name.
abbrev pub Item : Type 0
Item = String × String

-- The rate limited work queue of k8s.io/client-go. `get` is `none` once the queue shuts down.
pub record Workqueue : Type 1 where
  pub State : Type 0
  pub add : Item → State → State
  pub get : State → State × Option Item
  pub done : Item → State → State
  pub add_rate_limited : Item → State → State
  pub forget : Item → State → State

-- What the lister of the informer answers.
pub data Found : Type 0 where
  found : CrdMetricsResource → Found
  missing : Found
  failing : Found

-- `cache.MetaNamespaceKeyFunc`, `cache.SplitMetaNamespaceKey` and the lister, all of k8s.io/client-go.
pub record Cache : Type 0 where
  pub meta_namespace_key_func : Object → Option String
  pub split_meta_namespace_key : String → Option (String × String)
  pub get : String → String → Found

-- What `handleObject` is handed: nil, a `metav1.Object`, a tombstone with what it holds, if that is a
-- `metav1.Object`, or a value of another type.
pub data Handed : Type 0 where
  nil : Handed
  an_object : Object → Handed
  tombstone : Option Object → Handed
  anything_else : Handed

module _ (cache : Cache) (queue : Workqueue) where
  open queue use {State, add}

  -- after the call of the key function
  abbrev add_key : EventType → State → Option String → State
  add_key event q none = q
  add_key event q (some key) = add (key, event_string event) q

  -- enqueueCRDMetrics
  unfoldable pub enqueue_crd_metrics : State → Object → EventType → State
  enqueue_crd_metrics q obj event = add_key event q (cache.meta_namespace_key_func obj)

  -- AddFunc and DeleteFunc of `NewController`
  unfoldable pub on_add : State → Object → State
  on_add q obj = enqueue_crd_metrics q obj add_event

  unfoldable pub on_delete : State → Object → State
  on_delete q obj = enqueue_crd_metrics q obj delete_event

  -- UpdateFunc. A spec is its configuration, so `reflect.DeepEqual` compares these.
  unfoldable pub on_update : State → Object → Object → State
  on_update q (managed old_resource) (managed new_resource) =
      if old_resource.resource_version == new_resource.resource_version
        || old_resource.spec.configuration == new_resource.spec.configuration
      then q
      else enqueue_crd_metrics q (managed new_resource) update_event
  on_update q _ _ = q

-- the resource that stands for one that the lister does not have
abbrev pub named : String → CrdMetricsResource
named name = record {
  namespace = "";
  name = name;
  uid = "";
  generation = 0;
  resource_version = "";
  labels = none;
  spec = record { configuration = "" };
  status = record { conditions = [] };
}

module _ (client : Client) (slices : Slices) (yaml : Yaml) (try_no_cache : Bool) where
  open client use {World}

  abbrev pub Handled : Type 0
  Handled = Result ((World × Process) × Option Error)

  -- the `switch` on the object's type
  unfoldable pub process_object : World → Process → Object → String → Handled
  process_object w p unmanaged event = ok ((w, p), none)
  process_object w p (managed resource) event =
      handle_event client slices yaml w p event (managed resource) try_no_cache

  unfoldable pub handle_object : World → Process → Handed → String → Handled
  handle_object w p nil event = ok ((w, p), none)
  handle_object w p (an_object object) event = process_object w p object event
  handle_object w p (tombstone none) event = ok ((w, p), none)
  handle_object w p (tombstone (some object)) event = process_object w p object event
  handle_object w p anything_else event = ok ((w, p), none)

  module _ (cache : Cache) where
    -- after the lister's answer
    abbrev pub sync_found : World → Process → String → String → Found → Handled
    sync_found w p name event (found resource) =
        handle_object w p (an_object (managed resource)) event
    sync_found w p name event missing = handle_object w p (an_object (managed (named name))) event
    sync_found w p name event failing = ok ((w, p), some api_failed)

    abbrev pub sync_key : World → Process → String → Option (String × String) → Handled
    sync_key w p event none = ok ((w, p), none)
    sync_key w p event (some (namespace, name)) =
        sync_found w p name event (cache.get namespace name)

    unfoldable pub sync_handler : World → Process → String → String → Handled
    sync_handler w p key event = sync_key w p event (cache.split_meta_namespace_key key)

    module _ (queue : Workqueue) where
      open queue use {State, get, done, add_rate_limited, forget}

      -- The function literal in `processNextWorkItem`: its deferred `Done` comes last.
      unfoldable pub finish_item :
          Item → State → (World × Process) × Option Error → (World × Process) × State
      finish_item item q (wp, some e) = (wp, done item (add_rate_limited item q))
      finish_item item q (wp, none) = (wp, done item (forget item q))

      -- after `Get`; the second component says whether to go on
      unfoldable pub process_item :
          World → Process → State × Option Item → Result (((World × Process) × State) × Bool)
      process_item w p (q, none) = ok (((w, p), q), false)
      process_item w p (q, some item) = do
        r ← sync_handler w p item.0 item.1
        ok (finish_item item q r, true)

      unfoldable pub process_next_work_item :
          World → Process → State → Result (((World × Process) × State) × Bool)
      process_next_work_item w p q = process_item w p (get q)

      -- the loop of a worker in `Run`, given at most that many rounds; `none` if they do not do
      unfoldable pub run_worker :
          ℕ → World → Process → State → Result (Option ((World × Process) × State))
      run_worker zero w p q = ok none
      run_worker (suc fuel) w p q = do
        (((w', p'), q'), more) ← process_next_work_item w p q
        let rest = run_worker fuel w' p' q'
        if more then rest else ok (some ((w', p'), q'))
