-- ===== src/Examples/Status.antt =====
-- The theorems on types.go, internal/events.go and internal/controller.go, applied.
use crdmetrics.Prelude.{
  ℕ, zero, suc, String, Bool, true, false, ◌≡◌, ◌≢◌, refl, Option, none, some, List, [], ◌∷◌, ◌++◌,
  ◌&&◌, if◌then◌else◌, ◌==◌, ==_iff, string_eq, arith, get_elem?, Error, poll_failed, ok, panic,
  ◌⊎◌,
}
use crdmetrics.Resource.{
  Condition, CrdMetricsResource, CrdMetricsResourceStatus, Slices, set, condition_true,
}
use crdmetrics.Resource.Conditions.{find, IsKeyed, IsEntry, reason_for, set_lem}
use crdmetrics.Config.{Yaml, Process}
use crdmetrics.Config.Stores.{Grows}
use crdmetrics.Config.Change.{Change}
use crdmetrics.Handler.{Client, managed, handle_event, add_labels}
use crdmetrics.Handler.Outcome.{HasNull, handle_event-Change}
use crdmetrics.Controller.{
  Cache, Workqueue, Item, missing, sync_handler, process_next_work_item, on_update,
}
use crdmetrics.Controller.Queueing.{
  lister_fails, process_next_work_item-requeues, sync_handler_missing, on_update-add_labels,
}

abbrev pub up : Option ℕ → Option ℕ
up none = none
up (some n) = some (suc n)

abbrev pub index : List String → String → Option ℕ
index [] x = none
index (y ∷ ys) x = if y == x then some 0 else up (index ys x)

pub index_sound :
    (xs : List String) (x : String) (i : ℕ) → index xs x ≡ some i → get_elem? xs i ≡ some x
index_sound [] x i h = cc
index_sound (y ∷ ys) x zero h = ground (arith, ==_iff y x)
index_sound (y ∷ ys) x (suc i) h = ground (arith, index_sound ys x i)

pub index_complete :
    (xs : List String) (x : String) (i : ℕ) → get_elem? xs i ≡ some x → index xs x ≢ none
index_complete [] x i h k = cc
index_complete (y ∷ ys) x zero h k = ground (arith, ==_iff y x)
index_complete (y ∷ ys) x (suc i) h k = ground (arith, index_complete ys x i h)

abbrev pub slices : Slices
slices = record { index = index; index_sound = index_sound; index_complete = index_complete }

abbrev pub resource : CrdMetricsResource
resource = record {
  namespace = "default";
  name = "foos";
  uid = "resource-1";
  generation = 3;
  resource_version = "7";
  labels = none;
  spec = record { configuration = "stores: []" };
  status = record { conditions = [] };
}

abbrev failure : Condition
failure = record {
  type_of = "Failed";
  status = "True";
  observed_generation = 0;
  last_transition_time = 0;
  reason = "";
  message = "no";
}

abbrev status : CrdMetricsResourceStatus
status = record { conditions = failure ∷ [] }

set_lem_example :
    (entry : Condition) × (status' : CrdMetricsResourceStatus) × (set slices 9 resource failure
        status
      ≡ ok status')
    × IsEntry (reason_for false (failure.status == condition_true)) 9 resource failure entry
    × ((t : String)
        → find t status'.conditions
          ≡ (if failure.type_of == t then some entry else find t status.conditions))
    × IsKeyed status'.conditions
set_lem_example = set_lem slices 9 resource false failure status refl (refl, tt)

-- an API server with at most one resource
abbrev pub World : Type 0
World = Option CrdMetricsResource

abbrev pub pick : String → String → World → Option CrdMetricsResource
pick namespace name none = none
pick namespace name (some r) = if r.namespace == namespace && r.name == name then some r else none

-- one call of the condition; if it is not done, the time runs out
abbrev pub after_call : World × Bool × Option Error → World × Option Error
after_call (w, true, e) = (w, e)
after_call (w, false, none) = (w, some poll_failed)
after_call (w, false, some e) = (w, some e)

pub after_call_done :
    (r : World × Bool × Option Error) → (after_call r).1 ≡ none → (r.1 ≡ true) × (r.2 ≡ none)
after_call_done (w, true, e) h = (refl, h)
after_call_done (w, false, none) h = cc
after_call_done (w, false, some e) h = cc

abbrev pub client : Client
client = record {
  World = World;
  get = λ w namespace name. (w, pick namespace name w);
  update = λ w r. (some r, some r);
  update_status = λ w r. (some r, some r);
  now = λ w. 9;
  poll = λ w condition. after_call (condition w);
  poll_done = λ w condition h.
      (w, (after_call_done (condition w) h).0, (after_call_done (condition w) h).1);
  revision_sha = some "abc";
}

abbrev pub yaml : Yaml
yaml = record { unmarshal = λ raw c. (record { stores = [] }, none) }

abbrev pub process : Process
process = record { heap = []; uid_to_stores = ("resource-1", []) ∷ []; reflectors = [] }

-- the server after the resource was deleted: it has nothing
abbrev other : Client
other = record client { get = λ w namespace name. (w, none) }

abbrev pub split : String → Option (String × String)
split key = if key == "default/foos" then some ("default", "foos") else none

-- the lister knows no resource
abbrev cache : Cache
cache = record {
  meta_namespace_key_func = λ o. some "default/foos";
  split_meta_namespace_key = split;
  get = λ namespace name. missing;
}

abbrev pub first : List Item → List Item × Option Item
first [] = ([], none)
first (item ∷ items) = (items, some item)

-- a queue without delays, on which `forget` and `done` do nothing
abbrev queue : Workqueue
queue = record {
  State = List Item;
  add = λ item q. q ++ item ∷ [];
  get = first;
  done = λ item q. q;
  add_rate_limited = λ item q. q ++ item ∷ [];
  forget = λ item q. q;
}

abbrev item : Item
item = ("default/foos", "deleteEvent")

process_next_work_item-requeues_example :
    (HasNull client yaml
      × (lister_fails cache "default/foos" ≡ false)
      × (process_next_work_item client slices yaml true cache queue
            (some resource)
            process
            (item ∷ [])
          ≡ panic))
    ⊎ ((uid : String) × (w' : World) × (p' : Process) × Grows uid process p'
        × (process_next_work_item client slices yaml true cache queue
              (some resource)
              process
              (item ∷ [])
            ≡ ok (((w', p'), if lister_fails cache "default/foos" then item ∷ [] else []), true)))
process_next_work_item-requeues_example =
    process_next_work_item-requeues client slices yaml true cache queue (some resource) process
      (item ∷ []) [] item refl

sync_handler_missing_example :
    (w' : World) × (sync_handler other slices yaml true cache none process "default/foos"
        "deleteEvent"
      ≡ ok ((w', process), none))
sync_handler_missing_example =
    sync_handler_missing other slices yaml true cache none process "default/foos" "default" "foos"
      "deleteEvent" refl refl (λ v. refl)

on_update-add_labels_example :
    on_update cache queue
      (item ∷ [])
      (managed resource)
      (managed (record (add_labels client resource) { status = status; resource_version = "8" }))
    ≡ item ∷ []
on_update-add_labels_example =
    on_update-add_labels cache queue client (item ∷ []) resource status "8"

handle_event-Change_example :
    (HasNull client yaml
      × (handle_event client slices yaml
            (some resource)
            process
            "updateEvent"
            (managed resource)
            true
          ≡ panic))
    ⊎ ((w' : World) × (q : Process) × Change process q
        × (handle_event client slices yaml
              (some resource)
              process
              "updateEvent"
              (managed resource)
              true
            ≡ ok ((w', q), none)))
handle_event-Change_example =
    handle_event-Change client slices yaml "updateEvent" true (some resource) process resource
