-- ===== src/Server/EndToEnd.antt =====
-- The whole way from a managed resource to what is served: internal/events.go, internal/config.go,
-- internal/builder.go and internal/store.go together.
use mathlib.Core.List.{foldl}
use mathlib.Core.Path.{subst}
use crdmetrics.Prelude.{
  Option, String, Bool, ℕ, zero, suc, ◌+◌, ◌<◌, ◌≤◌, true, false, ◌≡◌, ◌≢◌, refl, sym, ap, ◌∙◌,
  none, some, List, [], ◌∷◌, ◌++◌, map, All, length, ok, some-injective, get_elem?,
  get_elem?_in_range, ◌==◌, string_eq, arith,
}
use crdmetrics.Prelude.Map.{lookup}
use crdmetrics.Resource.{CrdMetricsResource, Slices}
use crdmetrics.Family.{Libs, Unstructured}
use crdmetrics.Store.{StoreType, Objects, serve}
use crdmetrics.Store.Balance.{IsBalancedFamily}
use crdmetrics.Store.History.{served, is_served}
use crdmetrics.Builder.{Ref, Reflector, ListOptions, build_store, list_options}
use crdmetrics.Builder.Headers.{build_store-IsBalanced}
use crdmetrics.Builder.Sessions.{WatchEvent, added, call_for, Round, round_calls}
use crdmetrics.Builder.Sessions.Existing.{existing-served}
use crdmetrics.Config.{
  Process, Yaml, Configuration, Loaded, refs_of, new_configurer, parse, build_loaded, drop_stores,
  stores_of as stores_at_pointers,
}
use crdmetrics.Config.Change.{rebuilt}
use crdmetrics.Config.Stores.{places, build_loaded-IsRebuilt, built_reflector, built_reflectors}
use crdmetrics.Handler.{Client, managed, handle_event}
use crdmetrics.Handler.Healthy.{IsHealthy, IsWhole, expected, handle_event-expected}
use crdmetrics.Server.Linked.{IsLinked, InHeap, InHeap-lookup, Change-IsLinked}
use crdmetrics.Server.Reach.{set_at, length-set_at, stores_of}
use crdmetrics.Server.Workers.{store_for, stores_at-build_loaded}

get_elem?-map :
    (f : StoreType → StoreType) (l : List StoreType) (j : ℕ) (s : StoreType)
    → get_elem? l j ≡ some s
    → get_elem? (map f l) j ≡ some (f s)
get_elem?-map f [] j s h = cc
get_elem?-map f (x ∷ l) zero s h = ap some (ap f (some-injective h))
get_elem?-map f (x ∷ l) (suc j) s h = get_elem?-map f l j s h

pub get_elem?-length {ℓ} :
    {A : Type ℓ} (l : List A) (j : ℕ) (s : A) → get_elem? l j ≡ some s → j < length l
get_elem?-length [] j s h = cc
get_elem?-length (x ∷ l) zero s h = omega arith
get_elem?-length (x ∷ l) (suc j) s h = let rest = get_elem?-length l j s h in omega arith

get_elem?-places : (n k j : ℕ) → j < k → get_elem? (places n k) j ≡ some (n + j)
get_elem?-places n zero j h = absurd (omega arith)
get_elem?-places n (suc k) zero h = ap some (omega arith)
get_elem?-places n (suc k) (suc j) h =
    get_elem?-places (n + 1) k j (omega arith) ∙ ap some (omega arith)

-- the j-th store is the one that the j-th pointer leads to
pub get_elem?-stores_of :
    (heap : List StoreType) (refs : List Ref) (j : ℕ) (ref : Ref)
    → InHeap (length heap) refs
    → get_elem? refs j ≡ some ref
    → get_elem? (stores_of heap refs) j ≡ get_elem? heap ref
get_elem?-stores_of heap [] j ref hs h = cc
get_elem?-stores_of heap (r ∷ refs) zero ref (k, ks) h =
    let (s, e) = get_elem?_in_range heap r k in
    rw e (subst (λ (x : Ref). some s ≡ get_elem? heap x) (some-injective h) (sym e))
get_elem?-stores_of heap (r ∷ refs) (suc j) ref (k, ks) h =
    let (s, e) = get_elem?_in_range heap r k in rw e (get_elem?-stores_of heap refs j ref ks h)

get_elem?-set_at :
    (i : ℕ) (s : StoreType) (heap : List StoreType)
    → i < length heap
    → get_elem? (set_at i s heap) i ≡ some s
get_elem?-set_at i s [] h = absurd (omega arith)
get_elem?-set_at zero s (t ∷ heap) h = refl
get_elem?-set_at (suc i) s (t ∷ heap) h = get_elem?-set_at i s heap (omega arith)

get_elem?-append_right {ℓ} :
    {A : Type ℓ} (l m : List A) (j : ℕ) → get_elem? (l ++ m) (length l + j) ≡ get_elem? m j
get_elem?-append_right [] m j = ap (get_elem? m) (omega arith)
get_elem?-append_right (x ∷ l) m j =
    ap (get_elem? (x ∷ (l ++ m))) {x = length (x ∷ l) + j} {y = suc (length l + j)} (omega arith)
    ∙ get_elem?-append_right l m j

get_elem?-built_reflectors :
    (b : Bool) (n : ℕ) (scs : List StoreType) (j : ℕ) (sc : StoreType)
    → get_elem? scs j ≡ some sc
    → get_elem? (built_reflectors b n scs) j ≡ some (built_reflector b (n + j) sc)
get_elem?-built_reflectors b n [] j sc h = cc
get_elem?-built_reflectors b n (x ∷ scs) zero sc h =
    ap (λ (y : StoreType). some (built_reflector b n y)) (some-injective h)
    ∙ ap (λ (k : ℕ). some (built_reflector b k sc)) (omega arith)
get_elem?-built_reflectors b n (x ∷ scs) (suc j) sc h =
    get_elem?-built_reflectors b (n + 1) scs j sc h
    ∙ ap (λ (k : ℕ). some (built_reflector b k sc)) (omega arith)

module _ (libs : Libs) (objects : Objects) (client : Client) (slices : Slices) (yaml : Yaml)
    (resource : CrdMetricsResource) (c : Configuration) (healthy : IsHealthy client resource)
    (full : (resource.spec.configuration == "") ≡ false)
    (parsed : yaml.unmarshal resource.spec.configuration (record { stores = [] }) ≡ (c, none))
    (scs : List StoreType) (pointed : stores_at_pointers c.stores ≡ some scs) where
  open objects use {Object, to_unstructured}

  abbrev configured : Loaded
  configured = record { resource_uid = resource.uid; stores = scs }

  whole : IsWhole yaml resource
  whole d read none_left =
      let same = ap (λ (t : Configuration × Option String). t.0) (sym read ∙ parsed) in
      let no = ap (λ (e : Configuration). stores_at_pointers e.stores) (sym same) in
      let both = sym pointed ∙ no ∙ none_left in cc both

  -- the shared state after the add event
  abbrev after_add : Process → Process
  after_add p = build_loaded configured (drop_stores resource.uid p) false

  expected-after_add : (p : Process) → expected yaml "addEvent" false resource p ≡ after_add p
  unfolding parse new_configurer
  expected-after_add p = rw full (rw parsed (rw pointed refl))

  -- the pointers of the resource after the add event
  abbrev refs : Process → List Ref
  refs p = refs_of (lookup resource.uid (after_add p).uid_to_stores)

  -- the pointer to the store of the j-th entry, and the store
  placed :
      (p : Process) (j : ℕ) (sc : StoreType)
      → IsLinked p
      → get_elem? scs j ≡ some sc
      → (ref : Ref) × (ref ≡ length p.heap + j)
        × (get_elem? (refs p) j ≡ some ref)
        × (get_elem? (after_add p).heap ref ≡ some (store_for false sc))
        × InHeap (length (after_add p).heap) (refs p)
  placed p j sc linked entry =
      let places_of = (build_loaded-IsRebuilt configured false p).refs in
      let at_j =
        ap (λ (l : List Ref). get_elem? l j) places_of
        ∙ get_elem?-places (length p.heap) (length scs) j (get_elem?-length scs j sc entry) in
      let linked' = Change-IsLinked (rebuilt configured false) linked in
      let in_heap =
        InHeap-lookup (length (after_add p).heap) resource.uid (after_add p).uid_to_stores
          linked'.entries in
      (
        length p.heap + j,
        refl,
        at_j,
        sym (get_elem?-stores_of (after_add p).heap (refs p) j (length p.heap + j) in_heap at_j)
            ∙ ap (λ (l : List StoreType). get_elem? l j)
                (stores_at-build_loaded configured false p linked)
            ∙ get_elem?-map (store_for false) scs j sc entry,
        in_heap,
      )

  -- From a resource to what is served. Let the API server have the managed resource and take the
  -- handler's updates of it, and let its configuration be decoded without an error and without a nil
  -- pointer to a store or a family; let every pointer of the map lead to a store and every store have
  -- one text for each header and object, and let the j-th store of the configuration have no more label
  -- values than keys, and its families and their metrics too, and no nil pointer to a metric. Once the add event is handled (without
  -- `try-no-cache`), a reflector runs for that entry, which lists the entry's group, version and
  -- resource into the j-th store of the resource. Once it has made a round, in which its list does not
  -- fail and its watch sends what exists and then some changes, the j-th store that is served for the
  -- resource serves each object that existed and that the changes left.
  pub added-served :
      (w : client.World) (p : Process) (j : ℕ) (sc : StoreType) (round : Round Object)
      (existing before rest : List Object) (changes : List (WatchEvent Object)) (o : Object)
      (u : Unstructured)
      → IsLinked p
      → get_elem? scs j ≡ some sc
      → length sc.label_values ≤ length sc.label_keys
      → All IsBalancedFamily sc.families
      → ((options : ListOptions) → round.list options ≢ none)
      → ((options : ListOptions)
          → options.resource_version ≡ ""
          → options.resource_version_match ≡ ""
          → round.watch options ≡ some (map added existing ++ changes))
      → existing ≡ before ++ o ∷ rest
      → to_unstructured o ≡ some u
      → (w' : client.World) × (q : Process) × (ref : Ref) × (reflector : Reflector) × (s
          s' : StoreType)
        × (handle_event client slices yaml w p "addEvent" (managed resource) false
            ≡ ok ((w', q), none))
        × (get_elem? (refs_of (lookup resource.uid q.uid_to_stores)) j ≡ some ref)
        × (get_elem? q.heap ref ≡ some s)
        × (get_elem? q.reflectors (length p.reflectors + j) ≡ some reflector)
        × (reflector.store ≡ ref)
        × (reflector.target ≡ record {
          group = sc.group;
          version = sc.version;
          kind = sc.kind;
          resource = sc.resource_name;
        })
        × (serve libs objects s (round_calls reflector round) ≡ ok s')
        × (get_elem?
              (stores_of (set_at ref s' q.heap) (refs_of (lookup resource.uid q.uid_to_stores)))
              j
            ≡ some s')
        × (is_served objects u.uid s' ≡ foldl (served objects u.uid) true (map call_for changes))
  unfolding build_store list_options
  added-served w p j sc round existing before rest changes o u linked entry own families lists
        starts split reads =
      let (w', handled) =
        handle_event-expected client slices resource healthy yaml "addEvent" false whole w p in
      let (ref, is_place, at_j, in_heap_at, in_heap) = placed p j sc linked entry in
      let s = store_for false sc in
      let (s', served_so, is_so) =
        existing-served libs objects 0 (built_reflector false 0 sc).target sc.families
          sc.selectors.label sc.selectors.field sc.resolver sc.label_keys sc.label_values s round
          existing before rest changes o u
          (build_store-IsBalanced 0 (built_reflector false 0 sc).target sc.families false
            sc.selectors.label sc.selectors.field sc.resolver sc.label_keys sc.label_values own
            families)
          lists starts split reads in
      (
        w',
        after_add p,
        ref,
        built_reflector false (length p.heap + j) sc,
        s,
        s',
        handled ∙ ap (λ (q : Process). ok ((w', q), none)) (expected-after_add p),
        at_j,
        in_heap_at,
        ap (λ (l : List Reflector). get_elem? l (length p.reflectors + j))
              (build_loaded-IsRebuilt configured false p).reflectors
            ∙ get_elem?-append_right p.reflectors (built_reflectors false (length p.heap) scs) j
            ∙ get_elem?-built_reflectors false (length p.heap) scs j sc entry,
        sym is_place,
        refl,
        served_so,
        get_elem?-stores_of (set_at ref s' (after_add p).heap) (refs p) j ref
              (subst (λ (n : ℕ). InHeap n (refs p)) (sym (length-set_at ref s' (after_add p).heap))
                in_heap)
              at_j
            ∙ get_elem?-set_at ref s' (after_add p).heap (get_elem?-length _ ref s in_heap_at),
        is_so,
      )
