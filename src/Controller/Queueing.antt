-- ===== src/Controller/Queueing.antt =====
-- internal/controller.go: which items are queued again, and which notifications are dropped.
use crdmetrics.Prelude.{
  String, Bool, true, false, ◌≡◌, refl, ap, Option, none, some, inl, inr, Error, Result, ok, panic,
  ◌⊎◌, if◌then◌else◌, ◌==◌, ==_refl, string_eq, Bool-cases, api_failed,
}
use crdmetrics.Resource.{CrdMetricsResource, CrdMetricsResourceStatus, Slices}
use crdmetrics.Config.{Yaml, Process}
use crdmetrics.Config.Stores.{Grows, Grows-refl}
use crdmetrics.Handler.{Client, managed, add_labels}
use crdmetrics.Handler.Outcome.{HasNull, handle_event-Grows, handle_event_gone}
use crdmetrics.Controller.{
  Cache, Workqueue, Item, Found, found, missing, failing, named, handle_object, process_object,
  sync_found, sync_key, sync_handler, finish_item, process_item, process_next_work_item, on_update,
}

abbrev is_failing : Found → Bool
is_failing failing = true
is_failing _ = false

abbrev key_fails : Cache → Option (String × String) → Bool
key_fails cache none = false
key_fails cache (some (namespace, name)) = is_failing (cache.get namespace name)

-- Whether the lister fails on the key of an item, other than by having no such resource.
abbrev pub lister_fails : Cache → String → Bool
lister_fails cache key = key_fails cache (cache.split_meta_namespace_key key)

module _ (client : Client) (slices : Slices) (yaml : Yaml) (try_no_cache : Bool) where
  open client use {World}

  -- An error exactly if `fails`, and at most one resource's stores changed; or a panic, which takes
  -- a configuration with a nil pointer.
  abbrev Answers : Bool → Process → Result ((World × Process) × Option Error) → Type 0
  Answers fails p r =
      (HasNull client yaml × (fails ≡ false) × (r ≡ panic))
      ⊎ ((uid : String) × (w' : World) × (q : Process) × Grows uid p q
          × (r ≡ ok ((w', q), if fails then some api_failed else none)))

  of_handled :
      {p : Process} {r : Result ((World × Process) × Option Error)}
      → (HasNull client yaml × (r ≡ panic))
        ⊎ ((uid : String) × (w' : World) × (q : Process) × Grows uid p q × (r ≡ ok ((w', q), none)))
      → Answers false p r
  of_handled (inl (null, e)) = inl (null, refl, e)
  of_handled (inr t) = inr t

  module _ (cache : Cache) where
    sync_found-Answers :
        (w : World) (p : Process) (name event : String) (f : Found)
        → Answers
            (is_failing f)
            p
            (sync_found client slices yaml try_no_cache cache w p name event f)
    unfolding handle_object process_object
    sync_found-Answers w p name event (found resource) =
        of_handled (handle_event-Grows client slices yaml event try_no_cache w p resource)
    sync_found-Answers w p name event missing =
        of_handled (handle_event-Grows client slices yaml event try_no_cache w p (named name))
    sync_found-Answers w p name event failing = inr ("", w, p, Grows-refl "" p, refl)

    sync_key-Answers :
        (w : World) (p : Process) (event : String) (k : Option (String × String))
        → Answers (key_fails cache k) p (sync_key client slices yaml try_no_cache cache w p event k)
    sync_key-Answers w p event none = inr ("", w, p, Grows-refl "" p, refl)
    sync_key-Answers w p event (some (namespace, name)) =
        sync_found-Answers w p name event (cache.get namespace name)

    -- When the lister no longer has the resource of an item, and the API server has none of that name
    -- without a namespace, then no event changes the stores. This is so for the delete event that
    -- the informer sends once it has dropped the resource: the stores stay.
    pub sync_handler_missing :
        (w : World) (p : Process) (key namespace name event : String)
        → cache.split_meta_namespace_key key ≡ some (namespace, name)
        → cache.get namespace name ≡ missing
        → ((v : World) → (client.get v "" name).1 ≡ none)
        → (w' : World) × (sync_handler client slices yaml try_no_cache cache w p key event
            ≡ ok ((w', p), none))
    unfolding sync_handler handle_object process_object
    sync_handler_missing w p key namespace name event split gone absent =
        rw split (
          rw gone (handle_event_gone client slices yaml event try_no_cache w p (named name) absent))

    module _ (queue : Workqueue) where
      open queue use {State, get, done, add_rate_limited, forget}

      finish_item-if :
          (item : Item) (q : State) (wp : World × Process) (fails : Bool)
          → finish_item client slices yaml try_no_cache cache queue item q
              (wp, if fails then some api_failed else none)
            ≡ (wp, done item (if fails then add_rate_limited item q else forget item q))
      unfolding finish_item
      finish_item-if item q wp true = refl
      finish_item-if item q wp false = refl

      -- The worker's step on an item that the queue hands out. The item is queued again if the lister
      -- fails on its key, other than by having no such resource, and in no other case: it is forgotten
      -- when the key is malformed and whatever the handler met, the API server's errors and a
      -- configuration that cannot be parsed included. Either way it is marked as done, the worker goes
      -- on, and the stores of at most one resource have changed. The only other end is a panic; it
      -- takes a lister that does not fail on the key, and that the API server hands back, from an update
      -- of a status, a resource whose configuration the YAML decoder takes without an error and that
      -- has a null store, or a store with a null family.
      pub process_next_work_item-requeues :
          (w : World) (p : Process) (q q1 : State) (item : Item)
          → get q ≡ (q1, some item)
          → (HasNull client yaml
              × (lister_fails cache item.0 ≡ false)
              × (process_next_work_item client slices yaml try_no_cache cache queue w p q ≡ panic))
            ⊎ ((uid : String) × (w' : World) × (p' : Process) × Grows uid p p'
                × (process_next_work_item client slices yaml try_no_cache cache queue w p q
                    ≡ ok (
                      (
                        (w', p'),
                        done item (
                            if lister_fails cache item.0
                            then add_rate_limited item q1
                            else forget item q1),
                      ),
                      true,
                    )))
      unfolding process_next_work_item process_item sync_handler
      process_next_work_item-requeues w p q q1 (key, event) h =
          let fails = lister_fails cache key in
          elim (sync_key-Answers w p event (cache.split_meta_namespace_key key)) [
            | inl (null, calm, e) ↦ inl (null, calm, rw h (rw e refl))
            | inr (uid, w', p', g, e) ↦ inr (
              uid,
              w',
              p',
              g,
              rw h (
                  rw e (
                    ap (λ (t : (World × Process) × State). ok (t, true))
                      (finish_item-if (key, event) q1 (w', p') fails))),
            )
          ]

-- No update that the handler makes itself comes back as an item, so there is no reconciliation loop:
-- a resource with the handler's labels, any status and any version is dropped by the filter.
pub on_update-add_labels :
    (cache : Cache) (queue : Workqueue) (client : Client) (q : queue.State)
    (resource : CrdMetricsResource) (status : CrdMetricsResourceStatus) (version : String)
    → on_update cache queue q (managed resource) (
        managed
          (record (add_labels client resource) { status = status; resource_version = version }))
      ≡ q
unfolding on_update add_labels
on_update-add_labels cache queue client q resource status version =
    elim (Bool-cases (resource.resource_version == version)) [
      | inl e ↦ rw e refl
      | inr e ↦ rw e (rw (==_refl resource.spec.configuration) refl)
    ]
