-- ===== src/Handler.antt =====
-- internal/events.go: what an event on a managed resource does to the API server and to the stores.
pub mod Outcome
pub mod Healthy
pub mod Replaces
use Prim.Native.String.{◌++◌ as str_append}
use crdmetrics.Prelude.{
  ℕ, String, Bool, true, false, ◌≡◌, Option, none, some, [], ◌∷◌, if◌then◌else◌, ◌||◌, Error,
  bad_yaml, api_failed, poll_failed, Result, ok, panic, ◌>>=◌, ◌==◌, string_eq,
}
use crdmetrics.Prelude.Map.{Map, insert}
use crdmetrics.Resource.{
  Condition, CrdMetricsResource, Slices, set, condition_true, condition_false, processed, failed,
}
use crdmetrics.Config.{Yaml, Process, Configurer, new_configurer, parse, build, drop_stores}

pub data EventType : Type 0 where
  add_event update_event delete_event : EventType

-- eventType.String
abbrev pub event_string : EventType → String
event_string add_event = "addEvent"
event_string update_event = "updateEvent"
event_string delete_event = "deleteEvent"

-- A `metav1.Object`: the managed resource, or anything else.
pub data Object : Type 0 where
  managed : CrdMetricsResource → Object
  unmanaged : Object

-- What the handler asks of the world outside: the API server behind the generated client, the clock,
-- `wait.PollUntilContextTimeout` of k8s.io/apimachinery, and the version of the build. None of it is
-- code that is modelled here. The state of the world is opaque, so other clients may act in between.
pub record Client : Type 1 where
  pub World : Type 0
  -- Get by namespace and name; `none` is an error
  pub get : World → String → String → World × Option CrdMetricsResource
  pub update : World → CrdMetricsResource → World × Option CrdMetricsResource
  pub update_status : World → CrdMetricsResource → World × Option CrdMetricsResource
  -- metav1.Now()
  pub now : World → ℕ
  -- the condition returns whether it is done, and an error
  pub poll : World → (World → World × Bool × Option Error) → World × Option Error
  -- polling succeeds only if a call of the condition said that it is done, without an error
  pub poll_done :
      (w : World) (condition : World → World × Bool × Option Error)
      → (poll w condition).1 ≡ none
      → (v : World) × ((condition v).1 ≡ true) × ((condition v).2 ≡ none)
  -- what the regular expression finds in `version.Version()`
  pub revision_sha : Option String

-- `version.ControllerName` has no underscore to replace
abbrev pub controller_name_sanitized : String
controller_name_sanitized = "crdmetrics"

-- a `metav1.Condition` literal with these fields
abbrev pub given : String → String → String → Condition
given type_of status message = record {
  type_of = type_of;
  status = status;
  observed_generation = 0;
  last_transition_time = 0;
  reason = "";
  message = message;
}

abbrev add_version : Option String → Map String String → Map String String
add_version none labels = labels
add_version (some sha) labels = insert "app.kubernetes.io/version" sha labels

abbrev or_empty : Option (Map String String) → Map String String
or_empty none = []
or_empty (some labels) = labels

module _ (client : Client) where
  open client use {World, get, update, update_status, now, poll, revision_sha}

  -- "Build relevant labels." in `updateMetadata`
  unfoldable pub add_labels : CrdMetricsResource → CrdMetricsResource
  add_labels resource = record resource {
    labels = some (
        add_version revision_sha (
          insert "app.kubernetes.io/managed-by" controller_name_sanitized
            (or_empty resource.labels)));
  }

  -- after the update that the condition of the poll makes
  abbrev pub updated : World × Option CrdMetricsResource → World × Bool × Option Error
  updated (w, none) = (w, false, some api_failed)
  updated (w, some resource) = (w, true, none)

  -- the condition, after its Get
  abbrev pub fetched : World × Option CrdMetricsResource → World × Bool × Option Error
  fetched (w, none) = (w, false, some api_failed)
  fetched (w, some resource) = updated (update w (add_labels resource))

  -- The function literal that `updateMetadata` polls with. It is not called again once it returns
  -- an error or true, so its assignments to `resource` are not seen by a later call.
  abbrev pub poll_condition : CrdMetricsResource → World → World × Bool × Option Error
  poll_condition resource w = fetched (get w resource.namespace resource.name)

  -- the `%w` of `updateMetadata`
  abbrev pub polled : World × Option Error → World × Option Error
  polled (w, none) = (w, none)
  polled (w, some e) = (w, some poll_failed)

  unfoldable pub update_metadata : World → CrdMetricsResource → World × Option Error
  update_metadata w resource = polled (poll w (poll_condition resource))

  module _ (slices : Slices) where
    -- a condition set in what Get returned, and the status sent
    unfoldable pub set_condition :
        String
        → String
        → String
        → World × Option CrdMetricsResource
        → Result (World × Option CrdMetricsResource)
    set_condition type_of status message (w, none) = ok (w, none)
    set_condition type_of status message (w, some resource) = do
      status' ←
          set slices (now w) resource
            (record {
              type_of = type_of;
              status = status;
              observed_generation = 0;
              last_transition_time = 0;
              reason = "";
              message = message;
            })
            resource.status
      ok (update_status w (record resource { status = status' }))

    -- emitSuccessOnResource; `none` is an error
    unfoldable pub emit_success_on_resource :
        World → CrdMetricsResource → String → String → Result (World × Option CrdMetricsResource)
    emit_success_on_resource w got_resource condition_bool message =
        set_condition processed condition_bool message
          (get w got_resource.namespace got_resource.name)

    -- emitFailureOnResource
    unfoldable pub emit_failure_on_resource : World → CrdMetricsResource → String → Result World
    emit_failure_on_resource w got_resource message = do
      (w', r) ←
          set_condition failed condition_true message
            (get w got_resource.namespace got_resource.name)
      ok w'

    -- What `handleEvent` leaves: the world, the shared state, and its error.
    abbrev pub Handled : Type 0
    Handled = Result ((World × Process) × Option Error)

    -- "Update the status of the resource." at the end; an error of it is only logged
    unfoldable pub finish : World → Process → String → CrdMetricsResource → Handled
    finish w p event resource = do
      (w', r) ←
          emit_success_on_resource w resource condition_true
            (str_append "Event handler successfully processed event: " event)
      ok ((w', p), none)

    -- each `emitFailureOnResource` that is followed by `return nil`
    unfoldable pub give_up : World → Process → CrdMetricsResource → String → Handled
    give_up w p resource message = do
      w' ← emit_failure_on_resource w resource message
      ok ((w', p), none)

    abbrev error_text : Error → String
    error_text (bad_yaml text) = text
    error_text e = ""

    -- add and update events, once the configuration is parsed
    unfoldable pub handle_parsed :
        World → Process → String → Bool → CrdMetricsResource → Configurer × Option Error → Handled
    handle_parsed w p event try_no_cache resource (c, none) = do
      q ← build c p try_no_cache
      finish w q event resource
    handle_parsed w p event try_no_cache resource (c, some e) =
        give_up w p resource (str_append "Failed to parse configuration YAML: " (error_text e))

    module _ (yaml : Yaml) where
      -- "Handle the event."
      unfoldable pub handle_switch : World → Process → String → Bool → CrdMetricsResource → Handled
      handle_switch w p event try_no_cache resource =
          if event == event_string add_event || event == event_string update_event
          then handle_parsed w (drop_stores resource.uid p) event try_no_cache resource
              (parse yaml (new_configurer resource.uid) resource.spec.configuration)
          else if event == event_string delete_event
          then finish w (drop_stores resource.uid p) event resource
          else give_up w p resource (str_append "Unknown event type: " event)

      -- from the first status update on
      unfoldable pub handle_emitted :
          Process → String → Bool → World × Option CrdMetricsResource → Handled
      handle_emitted p event try_no_cache (w, none) = ok ((w, p), none)
      handle_emitted p event try_no_cache (w, some resource) =
          if resource.spec.configuration == ""
          then give_up w p resource "Configuration YAML is empty"
          else handle_switch w p event try_no_cache resource

      -- after the update of the metadata
      unfoldable pub handle_updated :
          Process → String → Bool → CrdMetricsResource → World × Option Error → Handled
      handle_updated p event try_no_cache resource (w, some e) = ok ((w, p), none)
      handle_updated p event try_no_cache resource (w, none) = do
        r ←
            emit_success_on_resource w resource condition_false
              (str_append "Event handler received event: " event)
        handle_emitted p event try_no_cache r

      -- handleEvent. An object that is no managed resource leaves `resource` nil, and the statement
      -- that logs this takes the address of a field of it.
      unfoldable pub handle_event : World → Process → String → Object → Bool → Handled
      handle_event w p event unmanaged try_no_cache = panic
      handle_event w p event (managed resource) try_no_cache =
          handle_updated p event try_no_cache resource (update_metadata w resource)
