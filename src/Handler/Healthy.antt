-- ===== src/Handler/Healthy.antt =====
-- internal/events.go, `handleEvent`: what an event does to the stores while the API server answers.
use mathlib.Core.Path.{subst}
use Prim.Native.String.{◌++◌ as str_append}
use crdmetrics.Prelude.{
  String, Bool, true, ◌≡◌, ◌≢◌, some-injective, refl, ap, sym, ◌∙◌, Option, none, some, inl, inr,
  Error, ok, Option-cases, [], ◌==◌, string_eq, Bool-cases, ◌||◌, if◌then◌else◌,
}
use crdmetrics.Resource.{
  CrdMetricsResource, CrdMetricsResourceStatus, Slices, condition_false, processed,
}
use crdmetrics.Resource.Conditions.{set_total}
use crdmetrics.Config.{
  Yaml, Process, Configurer, Configuration, Loaded, load, stores_of, build_loaded, new_configurer,
  parse, build, drop_stores,
}
use crdmetrics.Handler.{
  Client, polled, fetched, updated, managed, update_metadata, poll_condition, given, set_condition,
  add_labels, emit_success_on_resource, handle_parsed, handle_switch, handle_emitted,
  handle_updated, handle_event, event_string, add_event, update_event, delete_event,
}
use crdmetrics.Handler.Outcome.{Leaves, finish-Leaves, give_up-Leaves}

-- the resource as the API server has it: of the same name, UID and configuration
pub record IsVersion (resource r : CrdMetricsResource) : Type 0 where
  pub same_namespace : r.namespace ≡ resource.namespace
  pub same_name : r.name ≡ resource.name
  pub same_uid : r.uid ≡ resource.uid
  pub same_configuration : r.spec.configuration ≡ resource.spec.configuration

-- The API server has the resource and takes the handler's updates of it, and polling succeeds if the
-- condition always does.
pub record IsHealthy (client : Client) (resource : CrdMetricsResource) : Type 0 where
  pub gets :
      (v : client.World)
      → (r : CrdMetricsResource) × ((client.get v resource.namespace resource.name).1 ≡ some r)
        × IsVersion resource r
  pub updates :
      (v : client.World) (r : CrdMetricsResource)
      → IsVersion resource r
      → (r' : CrdMetricsResource) × ((client.update v r).1 ≡ some r')
  pub updates_status :
      (v : client.World) (r : CrdMetricsResource)
      → IsVersion resource r
      → (r' : CrdMetricsResource) × ((client.update_status v r).1 ≡ some r') × IsVersion resource r'
  pub polls :
      (w : client.World) (condition : client.World → client.World × Bool × Option Error)
      → ((v : client.World) → ((condition v).1 ≡ true) × ((condition v).2 ≡ none))
      → (client.poll w condition).1 ≡ none

-- the shared state once the resource's configuration is parsed
abbrev pub after_load : Process → Bool → Option Loaded → Process
after_load p try_no_cache none = p
after_load p try_no_cache (some l) = build_loaded l p try_no_cache

abbrev pub after_parse : Process → Bool → Configurer × Option Error → Process
after_parse p try_no_cache (c, none) = after_load p try_no_cache (load c)
after_parse p try_no_cache (c, some e) = p

-- The shared state that an event on a resource should leave: an add or update event replaces its
-- stores by those of its configuration, or by none if that does not parse; a delete event drops them;
-- any other event and an empty configuration do nothing.
abbrev pub expected : Yaml → String → Bool → CrdMetricsResource → Process → Process
expected yaml event try_no_cache resource p =
    if resource.spec.configuration == ""
    then p
    else if event == event_string add_event || event == event_string update_event
    then after_parse (drop_stores resource.uid p) try_no_cache
        (parse yaml (new_configurer resource.uid) resource.spec.configuration)
    else if event == event_string delete_event
    then drop_stores resource.uid p
    else p

-- The resource's configuration, if it can be decoded, has no nil pointer to a store or a family.
abbrev pub IsWhole : Yaml → CrdMetricsResource → Type 0
IsWhole yaml resource =
    (c : Configuration)
    → yaml.unmarshal resource.spec.configuration (record { stores = [] }) ≡ (c, none)
    → stores_of c.stores ≢ none

parse-IsWhole :
    (yaml : Yaml) (resource : CrdMetricsResource) (uid raw : String)
    → raw ≡ resource.spec.configuration
    → IsWhole yaml resource
    → (parse yaml (new_configurer uid) raw).1 ≡ none
    → stores_of (parse yaml (new_configurer uid) raw).0.configuration.stores ≢ none
unfolding parse new_configurer
parse-IsWhole yaml resource uid raw same whole h k =
    let read = yaml.unmarshal raw (record { stores = [] }) in
    elim (Option-cases read.1) [
      | inl e ↦
          whole read.0
            (ap (λ (t : String). yaml.unmarshal t (record { stores = [] })) (sym same)
              ∙ ap (λ (o : Option String). (read.0, o)) e)
            k
      | inr (text, e) ↦ let h' = rw e at h in cc h'
    ]

module _ (client : Client) (slices : Slices) (resource : CrdMetricsResource)
    (healthy : IsHealthy client resource) where
  open client use {World, get, poll, update, update_status}

  none_is_not : {x : CrdMetricsResource} → none ≢ some x
  none_is_not h = cc

  add_labels-IsVersion :
      (r : CrdMetricsResource) → IsVersion resource r → IsVersion resource (add_labels client r)
  unfolding add_labels
  add_labels-IsVersion r v = record {
    same_namespace = v.same_namespace;
    same_name = v.same_name;
    same_uid = v.same_uid;
    same_configuration = v.same_configuration;
  }

  with_status-IsVersion :
      (r : CrdMetricsResource) (status : CrdMetricsResourceStatus)
      → IsVersion resource r
      → IsVersion resource (record r { status = status })
  with_status-IsVersion r status v = record {
    same_namespace = v.same_namespace;
    same_name = v.same_name;
    same_uid = v.same_uid;
    same_configuration = v.same_configuration;
  }

  is_version :
      {x y : CrdMetricsResource} → some y ≡ some x → IsVersion resource x → IsVersion resource y
  is_version h v = subst (IsVersion resource) (sym (some-injective h)) v

  updated-done :
      (r : World × Option CrdMetricsResource) (x : CrdMetricsResource)
      → r.1 ≡ some x
      → ((updated client r).1 ≡ true) × ((updated client r).2 ≡ none)
  updated-done (w, none) x h = (cc, cc)
  updated-done (w, some y) x h = (refl, refl)

  fetched-done :
      (r : World × Option CrdMetricsResource) (x : CrdMetricsResource)
      → r.1 ≡ some x
      → IsVersion resource x
      → ((fetched client r).1 ≡ true) × ((fetched client r).2 ≡ none)
  fetched-done (w, none) x h v = (cc, cc)
  fetched-done (w, some y) x h v =
      let v' = add_labels-IsVersion y (is_version h v) in
      let (x', e) = healthy.updates w (add_labels client y) v' in
      updated-done (update w (add_labels client y)) x' e

  polled_fine : (r : World × Option Error) → r.1 ≡ none → (polled client r).1 ≡ none
  polled_fine (w, none) h = refl
  polled_fine (w, some e) h = cc

  update_metadata_healthy : (w : World) → (update_metadata client w resource).1 ≡ none
  unfolding update_metadata
  update_metadata_healthy w = polled_fine (poll w (poll_condition client resource)) (
      healthy.polls w (poll_condition client resource) (λ v.
        let (x, e, same) = healthy.gets v in
        fetched-done (get v resource.namespace resource.name) x e same))

  -- the status sent is taken, and what comes back is a version of the resource
  set_condition_healthy :
      (status message : String) (r : World × Option CrdMetricsResource) (x : CrdMetricsResource)
      → r.1 ≡ some x
      → IsVersion resource x
      → (w' : World) × (x' : CrdMetricsResource) × IsVersion resource x'
        × (set_condition client slices processed status message r ≡ ok (w', some x'))
  unfolding set_condition
  set_condition_healthy status message (w, none) x h same = absurd (none_is_not h)
  set_condition_healthy status message (w, some y) x h same =
      let (status', e) =
        set_total slices (client.now w) y true (given processed status message) y.status refl in
      let y' = record y { status = status' } in
      let (x', u, v) =
        healthy.updates_status w y' (with_status-IsVersion y status' (is_version h same)) in
      (
        (update_status w y').0,
        x',
        v,
        rw e (ap (λ (o : Option CrdMetricsResource). ok ((update_status w y').0, o)) u),
      )

  module _ (yaml : Yaml) (event : String) (try_no_cache : Bool)
      (whole : IsWhole yaml resource) where
    handle_parsed_healthy :
        (w : World) (p : Process) (r : CrdMetricsResource) (c : Configurer × Option Error)
        → (c.1 ≡ none → stores_of c.0.configuration.stores ≢ none)
        → Leaves client slices
            (handle_parsed client slices w p event try_no_cache r c)
            (after_parse p try_no_cache c)
    unfolding handle_parsed build
    handle_parsed_healthy w p r (c, none) h =
        elim (Option-cases (stores_of c.configuration.stores)) [
          | inl e ↦ absurd (h refl e)
          | inr (scs, e) ↦ rw e (finish-Leaves client slices w _ event r)
        ]
    handle_parsed_healthy w p r (c, some e) h = give_up-Leaves client slices w p r _

    handle_emitted_healthy :
        (w : World) (p : Process) (r : CrdMetricsResource)
        → IsVersion resource r
        → Leaves client slices
            (handle_emitted client slices yaml p event try_no_cache (w, some r))
            (expected yaml event try_no_cache r p)
    unfolding handle_emitted handle_switch
    handle_emitted_healthy w p r v = elim (Bool-cases (r.spec.configuration == "")) [
      | inl e ↦ rw e (give_up-Leaves client slices w p r _)
      | inr e ↦
          rw e
            (elim (Bool-cases
              (event == event_string add_event || event == event_string update_event)) [
                | inl a ↦ rw a (
                    handle_parsed_healthy w _ r _ (
                      parse-IsWhole yaml resource r.uid r.spec.configuration v.same_configuration
                        whole))
                | inr a ↦ rw a (elim (Bool-cases (event == event_string delete_event)) [
                  | inl d ↦ rw d (finish-Leaves client slices w _ event r)
                  | inr d ↦ rw d (give_up-Leaves client slices w p r _)
                ])
              ])
    ]

    expected-IsVersion :
        (r : CrdMetricsResource) (p : Process)
        → IsVersion resource r
        → expected yaml event try_no_cache r p ≡ expected yaml event try_no_cache resource p
    expected-IsVersion r p v = rw (v.same_uid, v.same_configuration) refl

    handle_updated_healthy :
        (p : Process) (r : World × Option Error)
        → r.1 ≡ none
        → Leaves client slices
            (handle_updated client slices yaml p event try_no_cache resource r)
            (expected yaml event try_no_cache resource p)
    unfolding handle_updated emit_success_on_resource
    handle_updated_healthy p (w, some e) h = cc
    handle_updated_healthy p (w, none) h =
        let (x, e, same) = healthy.gets w in
        let (w', x', v, done) =
          set_condition_healthy condition_false (str_append "Event handler received event: " event)
            (get w resource.namespace resource.name) x e same in
        let (w'', left) = handle_emitted_healthy w' p x' v in
        (
          w'',
          rw done (left ∙ ap (λ (q : Process). ok ((w'', q), none)) (expected-IsVersion x' p v)),
        )

    -- the shared state is the expected one, and no error is returned
    pub handle_event-expected :
        (w : World) (p : Process)
        → (w' : World) × (handle_event client slices yaml w p event (managed resource) try_no_cache
            ≡ ok ((w', expected yaml event try_no_cache resource p), none))
    unfolding handle_event
    handle_event-expected w p =
        handle_updated_healthy p (update_metadata client w resource) (update_metadata_healthy w)
