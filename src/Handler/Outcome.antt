-- ===== src/Handler/Outcome.antt =====
-- internal/events.go, `handleEvent`: when it panics, and what it may do to the stores.
use Prim.Native.String.{◌++◌ as str_append}
use mathlib.Core.Path.{subst}
use crdmetrics.Prelude.{
  String, Bool, true, false, ◌≡◌, ◌≢◌, refl, Option, none, some, inl, inr, Error, ok, ◌==◌,
  >>=-eq-ok, string_eq, Bool-cases, Option-cases, ◌⊎◌, panic, sym, ap, ◌∙◌, some-injective,
  ok-injective, [], ◌||◌,
}
use crdmetrics.Resource.{
  CrdMetricsResource, Slices, set, condition_true, condition_false, processed, failed,
}
use crdmetrics.Resource.Conditions.{set_total}
use crdmetrics.Config.{
  Yaml, Process, Configurer, Configuration, Loaded, load, stores_of, build_loaded, new_configurer,
  parse, build, drop_stores,
}
use crdmetrics.Config.Stores.{Grows}
use crdmetrics.Config.Change.{Change, unchanged, dropped, rebuilt, Change-Grows}
use crdmetrics.Handler.{
  Client, polled, fetched, managed, update_metadata, poll_condition, given, set_condition,
  emit_success_on_resource, emit_failure_on_resource, Handled, finish, give_up, handle_parsed,
  handle_switch, handle_emitted, handle_updated, handle_event, update_metadata, poll_condition,
  event_string, add_event, update_event, delete_event,
}

-- The API server hands back, from an update of a status, a resource whose configuration the YAML
-- decoder takes without an error and makes a configuration of that has a nil pointer to a store or to
-- a store's family.
abbrev pub HasNull : Client → Yaml → Type 0
HasNull client yaml =
    (v : client.World) × (sent resource : CrdMetricsResource) × (c : Configuration)
    × ((client.update_status v sent).1 ≡ some resource)
    × (yaml.unmarshal resource.spec.configuration (record { stores = [] }) ≡ (c, none))
    × (stores_of c.stores ≡ none)

module _ (client : Client) (slices : Slices) where
  open client use {World, get, poll}

  set_condition-processed :
      (status message : String) (r : World × Option CrdMetricsResource)
      → (r' : World × Option CrdMetricsResource) × (set_condition client slices processed status
            message r
          ≡ ok r')
  unfolding set_condition
  set_condition-processed status message (w, none) = (_, refl)
  set_condition-processed status message (w, some resource) =
      let (status', e) =
        set_total slices (client.now w) resource true (given processed status message)
          resource.status refl in
      (client.update_status w (record resource { status = status' }), rw e refl)

  set_condition-failed :
      (status message : String) (r : World × Option CrdMetricsResource)
      → (r' : World × Option CrdMetricsResource) × (set_condition client slices failed status
            message r
          ≡ ok r')
  unfolding set_condition
  set_condition-failed status message (w, none) = (_, refl)
  set_condition-failed status message (w, some resource) =
      let (status', e) =
        set_total slices (client.now w) resource false (given failed status message) resource.status
          refl in
      (client.update_status w (record resource { status = status' }), rw e refl)

  -- a resource that is there is one that an update of a status handed back
  Comes : World × Option CrdMetricsResource → Type 0
  Comes r =
      (resource : CrdMetricsResource)
      → r.1 ≡ some resource
      → (v : World) × (sent : CrdMetricsResource) × ((client.update_status v sent).1
          ≡ some resource)

  set_condition-Comes :
      (type_of status message : String) (r r' : World × Option CrdMetricsResource)
      → set_condition client slices type_of status message r ≡ ok r'
      → Comes r'
  unfolding set_condition Comes
  set_condition-Comes type_of status message (w, none) r' e x h =
      let is_none = ap (λ (t : World × Option CrdMetricsResource). t.1) (ok-injective e) in
      let both = is_none ∙ h in cc both
  set_condition-Comes type_of status message (w, some resource) r' e x h =
      let (status', _, e') = >>=-eq-ok (set slices (client.now w) resource _ resource.status) _ e in
      (
        w,
        record resource { status = status' },
        ap (λ (t : World × Option CrdMetricsResource). t.1) (ok-injective e') ∙ h,
      )

  -- The call returned no error, and the shared state is `q`.
  abbrev pub Leaves : Handled client slices → Process → Type 0
  Leaves r q = (w' : World) × (r ≡ ok ((w', q), none))

  pub finish-Leaves :
      (w : World) (p : Process) (event : String) (resource : CrdMetricsResource)
      → Leaves (finish client slices w p event resource) p
  unfolding finish emit_success_on_resource
  finish-Leaves w p event resource =
      let (r, e) =
        set_condition-processed condition_true
          (str_append "Event handler successfully processed event: " event)
          (get w resource.namespace resource.name) in
      (r.0, rw e refl)

  pub give_up-Leaves :
      (w : World) (p : Process) (resource : CrdMetricsResource) (message : String)
      → Leaves (give_up client slices w p resource message) p
  unfolding give_up emit_failure_on_resource
  give_up-Leaves w p resource message =
      let (r, e) =
        set_condition-failed condition_true message (get w resource.namespace resource.name) in
      (r.0, rw e refl)

  module _ (yaml : Yaml) (event : String) (try_no_cache : Bool) where
    -- The call returned no error, and made one of the changes that an event may make; or it panicked,
    -- which takes a configuration with a nil pointer.
    abbrev Answers : Handled client slices → Process → Type 0
    Answers r p = (HasNull client yaml × (r ≡ panic)) ⊎ ((q : Process) × Change p q × Leaves r q)

    load-none : (c : Configurer) → load c ≡ none → stores_of c.configuration.stores ≡ none
    load-none c h = elim (Option-cases (stores_of c.configuration.stores)) [
      | inl e ↦ e
      | inr (scs, e) ↦ let h' = rw e at h in cc h'
    ]

    load-some : (c : Configurer) (l : Loaded) → load c ≡ some l → l.resource_uid ≡ c.resource_uid
    load-some c l h = elim (Option-cases (stores_of c.configuration.stores)) [
      | inl e ↦ let h' = rw e at h in cc h'
      | inr (scs, e) ↦
          let h' = rw e at h in sym (ap (λ (x : Loaded). x.resource_uid) (some-injective h'))
    ]

    abbrev parsed : CrdMetricsResource → Configurer × Option Error
    parsed resource = parse yaml (new_configurer resource.uid) resource.spec.configuration

    parse-HasNull :
        (resource : CrdMetricsResource) (w : World)
        → Comes (w, some resource)
        → (parsed resource).1 ≡ none
        → stores_of (parsed resource).0.configuration.stores ≡ none
        → HasNull client yaml
    unfolding parse new_configurer Comes
    parse-HasNull resource w comes h k =
        let read = yaml.unmarshal resource.spec.configuration (record { stores = [] }) in
        let (v, sent, back) = comes resource refl in
        elim (Option-cases read.1) [
          | inl e ↦ (v, sent, resource, read.0, back, ap (λ (o : Option String). (read.0, o)) e, k)
          | inr (text, e) ↦ let h' = rw e at h in cc h'
        ]

    handle_parsed-Answers :
        (w : World) (p : Process) (resource : CrdMetricsResource) (c : Configurer × Option Error)
        → c.0.resource_uid ≡ resource.uid
        → (c.1 ≡ none → stores_of c.0.configuration.stores ≡ none → HasNull client yaml)
        → Answers
            (handle_parsed client slices w
              (drop_stores resource.uid p)
              event
              try_no_cache
              resource
              c)
            p
    unfolding handle_parsed build
    handle_parsed-Answers w p resource (c, none) h k = elim (Option-cases (load c)) [
      | inl e ↦ rw e (inl (k refl (load-none c e), refl))
      | inr (l, e) ↦ rw e (
          inr (
            build_loaded l (drop_stores resource.uid p) try_no_cache,
            subst (λ (uid : String). Change p (build_loaded l (drop_stores uid p) try_no_cache))
                (load-some c l e ∙ h) (rebuilt l try_no_cache),
            finish-Leaves w _ event resource,
          ))
    ]
    handle_parsed-Answers w p resource (c, some e) h k =
        inr (drop_stores resource.uid p, dropped resource.uid, give_up-Leaves w _ resource _)

    handle_switch-Answers :
        (w : World) (p : Process) (resource : CrdMetricsResource)
        → Comes (w, some resource)
        → Answers (handle_switch client slices yaml w p event try_no_cache resource) p
    unfolding handle_switch
    handle_switch-Answers w p resource comes =
        elim (Bool-cases (event == event_string add_event || event == event_string update_event)) [
          | inl e ↦ rw e (
              handle_parsed-Answers w p resource _ (unfold parse new_configurer in refl)
                (parse-HasNull resource w comes))
          | inr e ↦ elim (Bool-cases (event == event_string delete_event)) [
            | inl d ↦ rw e (
                rw d (
                  inr (
                    drop_stores resource.uid p,
                    dropped resource.uid,
                    finish-Leaves w (drop_stores resource.uid p) event resource,
                  )))
            | inr d ↦ rw e (
                rw d (
                  inr (
                    p,
                    unchanged,
                    give_up-Leaves w p resource (str_append "Unknown event type: " event),
                  )))
          ]
        ]

    handle_emitted-Answers :
        (p : Process) (r : World × Option CrdMetricsResource)
        → Comes r
        → Answers (handle_emitted client slices yaml p event try_no_cache r) p
    unfolding handle_emitted
    handle_emitted-Answers p (w, none) comes = inr (p, unchanged, (w, refl))
    handle_emitted-Answers p (w, some resource) comes =
        elim (Bool-cases (resource.spec.configuration == "")) [
          | inl e ↦ rw e (inr (p, unchanged, give_up-Leaves w p resource _))
          | inr e ↦ rw e (handle_switch-Answers w p resource comes)
        ]

    handle_updated-Answers :
        (p : Process) (resource : CrdMetricsResource) (r : World × Option Error)
        → Answers (handle_updated client slices yaml p event try_no_cache resource r) p
    unfolding handle_updated emit_success_on_resource
    handle_updated-Answers p resource (w, some e) = inr (p, unchanged, (w, refl))
    handle_updated-Answers p resource (w, none) =
        let (r, e) =
          set_condition-processed condition_false
            (str_append "Event handler received event: " event)
            (get w resource.namespace resource.name) in
        rw e (
          handle_emitted-Answers p r (
            set_condition-Comes processed condition_false
              (str_append "Event handler received event: " event)
              (get w resource.namespace resource.name) r e))

    handle_updated_err :
        (p : Process) (resource : CrdMetricsResource) (r : World × Option Error)
        → r.1 ≢ none
        → Leaves (handle_updated client slices yaml p event try_no_cache resource r) p
    unfolding handle_updated
    handle_updated_err p resource (w, some e) h = (w, refl)
    handle_updated_err p resource (w, none) h = absurd (h refl)

    -- For a managed resource and any event, whatever the API server answers: `handleEvent` returns
    -- without an error, and it has done one of three things to the stores: nothing, dropped those of
    -- one resource, or dropped them and built those of a configuration. Or it panics; this takes that
    -- the API server hands back, from an update of a status, a resource whose configuration the YAML
    -- decoder takes without an error and that has a null store, or a store with a null family.
    pub handle_event-Change :
        (w : World) (p : Process) (resource : CrdMetricsResource)
        → (HasNull client yaml
            × (handle_event client slices yaml w p event (managed resource) try_no_cache ≡ panic))
          ⊎ ((w' : World) × (q : Process) × Change p q
              × (handle_event client slices yaml w p event (managed resource) try_no_cache
                  ≡ ok ((w', q), none)))
    unfolding handle_event
    handle_event-Change w p resource =
        elim (handle_updated-Answers p resource (update_metadata client w resource)) [
          | inl stopped ↦ inl stopped
          | inr (q, change, (w', e)) ↦ inr (w', q, change, e)
        ]

    -- what it does to the stores if it returns
    pub handle_event_returned :
        (w w' : World) (p q : Process) (resource : CrdMetricsResource) (r : Option Error)
        → handle_event client slices yaml w p event (managed resource) try_no_cache
          ≡ ok ((w', q), r)
        → Change p q
    handle_event_returned w w' p q resource r h = elim (handle_event-Change w p resource) [
      | inl (_, e) ↦ let no = sym e ∙ h in cc no
      | inr (v, q', change, e) ↦
          subst (Change p)
            (ap (λ (t : (World × Process) × Option Error). t.0.1) (ok-injective (sym e ∙ h))) change
    ]

    -- The stores of one resource at most change, if it returns.
    pub handle_event-Grows :
        (w : World) (p : Process) (resource : CrdMetricsResource)
        → (HasNull client yaml
            × (handle_event client slices yaml w p event (managed resource) try_no_cache ≡ panic))
          ⊎ ((uid : String) × (w' : World) × (q : Process) × Grows uid p q
              × (handle_event client slices yaml w p event (managed resource) try_no_cache
                  ≡ ok ((w', q), none)))
    handle_event-Grows w p resource = elim (handle_event-Change w p resource) [
      | inl stopped ↦ inl stopped
      | inr (w', q, change, e) ↦ let (uid, g) = Change-Grows change in inr (uid, w', q, g, e)
    ]

    polled-none : (r : World × Option Error) → (polled client r).1 ≡ none → r.1 ≡ none
    polled-none (w, none) h = refl
    polled-none (w, some e) h = cc

    fetched-none :
        (r : World × Option CrdMetricsResource) → r.1 ≡ none → (fetched client r).1 ≡ false
    fetched-none (w, none) h = refl
    fetched-none (w, some resource) h = cc

    update_metadata_gone :
        (w : World) (resource : CrdMetricsResource)
        → ((v : World) → (get v resource.namespace resource.name).1 ≡ none)
        → (update_metadata client w resource).1 ≢ none
    unfolding update_metadata
    update_metadata_gone w resource gone h =
        let (v, done, fine) =
          client.poll_done w (poll_condition client resource)
            (polled-none (poll w (poll_condition client resource)) h) in
        let failed_get = fetched-none (get v resource.namespace resource.name) (gone v) in
        cc (done, failed_get)

    -- If the API server has no resource under the name and namespace of the event's resource, whatever
    -- is asked of it, then no event changes the stores, a delete event included: the handler returns
    -- before it reaches `dropStores`.
    pub handle_event_gone :
        (w : World) (p : Process) (resource : CrdMetricsResource)
        → ((v : World) → (get v resource.namespace resource.name).1 ≡ none)
        → (w' : World) × (handle_event client slices yaml w p event (managed resource) try_no_cache
            ≡ ok ((w', p), none))
    unfolding handle_event
    handle_event_gone w p resource gone =
        handle_updated_err p resource (update_metadata client w resource)
          (update_metadata_gone w resource gone)
