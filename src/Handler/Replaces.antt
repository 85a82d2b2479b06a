-- ===== src/Handler/Replaces.antt =====
-- internal/events.go with internal/config.go: which stores an event leaves, and what they are.
use crdmetrics.Prelude.{
  String, Bool, true, false, ◌≡◌, refl, ◌∙◌, none, some, List, [], ok, ◌==◌, string_eq, Bool-cases,
  inl, inr, ◌||◌, ==_refl,
}
use crdmetrics.Prelude.Map.{lookup}
use crdmetrics.Resource.{CrdMetricsResource, Slices}
use crdmetrics.Store.{StoreType}
use crdmetrics.Config.{Yaml, Process, Configuration, stores_of, drop_stores, parse, new_configurer}
use crdmetrics.Config.Stores.{
  IsRebuilt, build_loaded-IsRebuilt, heap-drop_stores, reflectors-drop_stores, lookup-drop_stores,
}
use crdmetrics.Handler.{Client, managed, handle_event}
use crdmetrics.Handler.Healthy.{IsHealthy, IsWhole, expected, handle_event-expected}

-- `q` is `p` without the stores of one resource: nothing is under its UID any more, and all else is
-- as it was.
pub record IsDropped (uid : String) (p q : Process) : Type 0 where
  pub gone : lookup uid q.uid_to_stores ≡ none
  pub others_kept :
      (k : String) → (uid == k) ≡ false → lookup k q.uid_to_stores ≡ lookup k p.uid_to_stores
  pub heap : q.heap ≡ p.heap
  pub reflectors : q.reflectors ≡ p.reflectors

drop_stores-IsDropped : (uid : String) (p : Process) → IsDropped uid p (drop_stores uid p)
drop_stores-IsDropped uid p = record {
  gone = lookup-drop_stores uid uid p ∙ rw (==_refl uid) refl;
  others_kept = λ k h. lookup-drop_stores uid k p ∙ rw h refl;
  heap = heap-drop_stores uid p;
  reflectors = reflectors-drop_stores uid p;
}

-- Whether an event is one that builds.
abbrev pub is_building : String → Bool
is_building event = event == "addEvent" || event == "updateEvent"

-- What an event on a resource does to the shared state, by the kind of event and by what the decoder
-- makes of the resource's configuration.
pub record IsOutcome (yaml : Yaml) (event : String) (try_no_cache : Bool)
    (resource : CrdMetricsResource) (p q : Process) : Type 0 where
  pub no_configuration : resource.spec.configuration ≡ "" → q ≡ p
  pub replaced :
      (c : Configuration) (scs : List StoreType)
      → (resource.spec.configuration == "") ≡ false
      → is_building event ≡ true
      → yaml.unmarshal resource.spec.configuration (record { stores = [] }) ≡ (c, none)
      → stores_of c.stores ≡ some scs
      → IsRebuilt resource.uid try_no_cache scs p q
  pub rejected :
      (c : Configuration) (text : String)
      → (resource.spec.configuration == "") ≡ false
      → is_building event ≡ true
      → yaml.unmarshal resource.spec.configuration (record { stores = [] }) ≡ (c, some text)
      → IsDropped resource.uid p q
  pub deleted :
      (resource.spec.configuration == "") ≡ false
      → event ≡ "deleteEvent"
      → IsDropped resource.uid p q
  pub ignored : is_building event ≡ false → (event == "deleteEvent") ≡ false → q ≡ p

expected-IsOutcome :
    (yaml : Yaml) (event : String) (b : Bool) (resource : CrdMetricsResource) (p : Process)
    → IsOutcome yaml event b resource p (expected yaml event b resource p)
unfolding parse new_configurer
expected-IsOutcome yaml event b resource p = record {
  no_configuration = λ h. rw h refl;
  replaced = λ c scs full building read whole. rw full (
      rw building (
        rw read (
          rw whole
            (build_loaded-IsRebuilt (record { resource_uid = resource.uid; stores = scs }) b p))));
  rejected = λ c text full building read.
      rw full (rw building (rw read (drop_stores-IsDropped resource.uid p)));
  deleted = λ full is_delete. rw full (rw is_delete (drop_stores-IsDropped resource.uid p));
  ignored = λ h k. elim (Bool-cases (resource.spec.configuration == "")) [
    | inl e ↦ rw e refl
    | inr e ↦ rw e (rw h (rw k refl))
  ];
}

module _ (client : Client) (slices : Slices) (resource : CrdMetricsResource)
    (healthy : IsHealthy client resource) (yaml : Yaml) (event : String) (try_no_cache : Bool)
    (whole : IsWhole yaml resource) where
  -- While the API server has the resource and takes the handler's updates of it, and the resource's
  -- configuration has no nil pointer to a store or a family, `handleEvent` returns no error and leaves
  -- these stores. An add or update event of a resource with a configuration that can be decoded leaves
  -- it with exactly the stores of the configuration, each new and empty, with its headers, families,
  -- labels and resolver, and with one more reflector for each of them; if it cannot be decoded, the
  -- resource is left without stores, as by a delete event. The stores of other resources are as they
  -- were. Any other event and an empty configuration change nothing.
  pub handle_event-replaces :
      (w : client.World) (p : Process)
      → (w' : client.World) × (q : Process) × (handle_event client slices yaml w p event
            (managed resource)
            try_no_cache
          ≡ ok ((w', q), none))
        × IsOutcome yaml event try_no_cache resource p q
  handle_event-replaces w p =
      let (w', e) =
        handle_event-expected client slices resource healthy yaml event try_no_cache whole w p in
      (
        w',
        expected yaml event try_no_cache resource p,
        e,
        expected-IsOutcome yaml event try_no_cache resource p,
      )
