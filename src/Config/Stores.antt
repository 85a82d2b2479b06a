-- ===== src/Config/Stores.antt =====
-- internal/config.go and internal/events.go: what dropping and building do to the shared state.
use mathlib.Core.Path.{ap₂}
use crdmetrics.Prelude.{
  arith, ==_iff, map, codes, Bool-cases, panic, ok, some, ℕ, zero, suc, ◌+◌, String, Bool, false,
  ◌≡◌, refl, sym, ap, ◌∙◌, none, List, [], ◌∷◌, ◌++◌, append_assoc, append-nil, length,
  length-append, true, false, ◌==◌, ==_refl, if◌then◌else◌, string_eq, Option-cases, inl, inr,
}
use crdmetrics.Prelude.Map.{
  lookup, lookup-insert_ne, lookup-insert_self, lookup-remove_ne, lookup-remove,
}
use crdmetrics.Store.{StoreType, new_store}
use crdmetrics.Builder.{Ref, Reflector, ListOptions, list_options, build_store, default_resolver}
use crdmetrics.Builder.Headers.{header_of, build_store_store}
use crdmetrics.Family.{FamilyType}
use crdmetrics.Config.{
  Process, Configurer, refs_of, build_one, build_stores, build, drop_stores, Loaded, stores_of,
  build_loaded,
}

-- The places from `n` on, `k` of them.
abbrev pub places : ℕ → ℕ → List Ref
places n zero = []
places n (suc k) = n ∷ places (n + 1) k

unless {ℓ} : {A : Type ℓ} (b : Bool) (x y : A) → (b ≡ false → x ≡ y) → x ≡ (if b then x else y)
unless true x y h = refl
unless false x y h = h refl

when_not {ℓ} : {A : Type ℓ} (b : Bool) (x y : A) → x ≡ (if b then x else y) → b ≡ false → x ≡ y
when_not true x y h e = cc
when_not false x y h e = h

-- How the shared state `q` comes out of `p`: stores and reflectors are only added, and the stores of
-- the other resources are as before.
pub record Grows (uid : String) (p q : Process) : Type 0 where
  pub new_stores : List StoreType
  pub new_reflectors : List Reflector
  pub heap_grown : q.heap ≡ p.heap ++ new_stores
  pub reflectors_grown : q.reflectors ≡ p.reflectors ++ new_reflectors
  pub others_kept :
      (k : String)
      → lookup k q.uid_to_stores
        ≡ (if uid == k then lookup k q.uid_to_stores else lookup k p.uid_to_stores)

pub Grows-refl : (uid : String) (p : Process) → Grows uid p p
Grows-refl uid p = record {
  new_stores = [];
  new_reflectors = [];
  heap_grown = sym (append-nil p.heap);
  reflectors_grown = sym (append-nil p.reflectors);
  others_kept = λ k. unless (uid == k) _ _ (λ h. refl);
}

pub Grows-trans : {uid : String} {p q r : Process} → Grows uid p q → Grows uid q r → Grows uid p r
Grows-trans {uid = uid} {p = p} {r = r} a b = record {
  new_stores = a.new_stores ++ b.new_stores;
  new_reflectors = a.new_reflectors ++ b.new_reflectors;
  heap_grown =
      b.heap_grown
      ∙ ap (λ (l : List StoreType). l ++ b.new_stores) a.heap_grown
      ∙ append_assoc p.heap a.new_stores b.new_stores;
  reflectors_grown =
      b.reflectors_grown
      ∙ ap (λ (l : List Reflector). l ++ b.new_reflectors) a.reflectors_grown
      ∙ append_assoc p.reflectors a.new_reflectors b.new_reflectors;
  others_kept = λ k. unless (uid == k) (lookup k r.uid_to_stores) (lookup k p.uid_to_stores) (λ h.
      when_not (uid == k) _ _ (b.others_kept k) h ∙ when_not (uid == k) _ _ (a.others_kept k) h);
}

module _ (uid : String) where
  pub drop_stores-Grows : (p : Process) → Grows uid p (drop_stores uid p)
  unfolding drop_stores
  drop_stores-Grows p = elim (Option-cases (lookup uid p.uid_to_stores)) [
    | inl e ↦ rw (e, drop_stores) (Grows-refl uid p)
    | inr (refs, e) ↦
        rw (e, drop_stores)
          (record {
            new_stores = [];
            new_reflectors = [];
            heap_grown = sym (append-nil p.heap);
            reflectors_grown = sym (append-nil p.reflectors);
            others_kept =
                λ k. unless (uid == k) _ _ (λ h. lookup-remove_ne uid k p.uid_to_stores h);
          })
  ]

  drop_stores-dropped : (p : Process) → lookup uid (drop_stores uid p).uid_to_stores ≡ none
  unfolding drop_stores
  drop_stores-dropped p = elim (Option-cases (lookup uid p.uid_to_stores)) [
    | inl e ↦ rw (e, drop_stores) e
    | inr (refs, e) ↦
        rw (e, drop_stores) (lookup-remove uid uid p.uid_to_stores ∙ rw (==_refl uid) refl)
  ]

  pub lookup-drop_stores :
      (k : String) (p : Process)
      → lookup k (drop_stores uid p).uid_to_stores
        ≡ (if uid == k then none else lookup k p.uid_to_stores)
  unfolding drop_stores
  lookup-drop_stores k p = elim (Option-cases (lookup uid p.uid_to_stores)) [
    | inl e ↦ rw (e, drop_stores) (ground (arith, ==_iff uid k))
    | inr (refs, e) ↦ rw (e, drop_stores) (lookup-remove uid k p.uid_to_stores)
  ]

  pub heap-drop_stores : (p : Process) → (drop_stores uid p).heap ≡ p.heap
  unfolding drop_stores
  heap-drop_stores p = elim (Option-cases (lookup uid p.uid_to_stores)) [
    | inl e ↦ rw (e, drop_stores) refl
    | inr (refs, e) ↦ rw (e, drop_stores) refl
  ]

  module _ (try_no_cache : Bool) where
    build_one-Grows : (p : Process) (sc : StoreType) → Grows uid p (build_one uid try_no_cache p sc)
    unfolding build_one
    build_one-Grows p sc = record {
      new_stores = _ ∷ [];
      new_reflectors = _ ∷ [];
      heap_grown = refl;
      reflectors_grown = refl;
      others_kept = λ k. unless (uid == k) _ _ (λ h. lookup-insert_ne uid k _ p.uid_to_stores h);
    }

    pub build_stores-Grows :
        (p : Process) (scs : List StoreType) → Grows uid p (build_stores uid try_no_cache p scs)
    unfolding build_stores
    build_stores-Grows p [] = Grows-refl uid p
    build_stores-Grows p (sc ∷ scs) =
        Grows-trans (build_one-Grows p sc)
          (build_stores-Grows (build_one uid try_no_cache p sc) scs)

    refs-build_one :
        (p : Process) (sc : StoreType)
        → refs_of (lookup uid (build_one uid try_no_cache p sc).uid_to_stores)
          ≡ refs_of (lookup uid p.uid_to_stores) ++ length p.heap ∷ []
    unfolding build_one
    refs-build_one p sc = ap refs_of (lookup-insert_self uid _ p.uid_to_stores)

    length-build_one :
        (p : Process) (sc : StoreType)
        → length (build_one uid try_no_cache p sc).heap ≡ length p.heap + 1
    unfolding build_one
    length-build_one p sc = length-append p.heap _

    refs-build_stores :
        (p : Process) (scs : List StoreType)
        → refs_of (lookup uid (build_stores uid try_no_cache p scs).uid_to_stores)
          ≡ refs_of (lookup uid p.uid_to_stores) ++ places (length p.heap) (length scs)
    unfolding build_stores
    refs-build_stores p [] = sym (append-nil _)
    refs-build_stores p (sc ∷ scs) =
        refs-build_stores (build_one uid try_no_cache p sc) scs
        ∙ ap₂ (λ (l : List Ref) (n : ℕ). l ++ places n (length scs)) (refs-build_one p sc)
            (length-build_one p sc)
        ∙ append_assoc (refs_of (lookup uid p.uid_to_stores)) (length p.heap ∷ [])
            (places (length p.heap + 1) (length scs))

-- the store that is built for an entry of a configuration
abbrev pub built_store : StoreType → StoreType
built_store sc = record {
  metrics = [];
  headers = map (λ (f : FamilyType). header_of f.name f.help) sc.families;
  group = [];
  version = [];
  kind = [];
  resource_name = [];
  selectors = record { label = ""; field = "" };
  families = map (λ (f : FamilyType). record f { t = codes "gauge" }) sc.families;
  resolver = if sc.resolver == "" then "unstructured" else sc.resolver;
  label_keys = sc.label_keys;
  label_values = sc.label_values;
}

-- the options of the lists and watches for an entry of a configuration
abbrev pub built_options : Bool → StoreType → ListOptions
built_options try_no_cache sc = record {
  label_selector = sc.selectors.label;
  field_selector = sc.selectors.field;
  resource_version_match = if try_no_cache then "NotOlderThan" else "";
  resource_version = if try_no_cache then "0" else "";
}

-- the reflector that is started for an entry of a configuration
abbrev pub built_reflector : Bool → Ref → StoreType → Reflector
built_reflector try_no_cache ref sc = record {
  target = record {
    group = sc.group;
    version = sc.version;
    kind = sc.kind;
    resource = sc.resource_name;
  };
  list_watch = λ asked. built_options try_no_cache sc;
  resync_period = 0;
  store = ref;
}

-- the reflectors for the entries, on stores in the places from `n` on
abbrev pub built_reflectors : Bool → ℕ → List StoreType → List Reflector
built_reflectors try_no_cache n [] = []
built_reflectors try_no_cache n (sc ∷ scs) =
    built_reflector try_no_cache n sc ∷ built_reflectors try_no_cache (n + 1) scs

module _ (uid : String) (try_no_cache : Bool) where
  list_options_lem :
      (sc : StoreType)
      → list_options try_no_cache sc.selectors.label sc.selectors.field
        ≡ built_options try_no_cache sc
  unfolding list_options
  list_options_lem sc = elim (Bool-cases try_no_cache) [ inl e ↦ rw e refl | inr e ↦ rw e refl ]

  heap-build_one :
      (p : Process) (sc : StoreType)
      → (build_one uid try_no_cache p sc).heap ≡ p.heap ++ built_store sc ∷ []
  unfolding build_one new_store default_resolver
  heap-build_one p sc =
      ap (λ (s : StoreType). p.heap ++ s ∷ [])
        (build_store_store (length p.heap) _ sc.families try_no_cache sc.selectors.label
          sc.selectors.field sc.resolver sc.label_keys sc.label_values)

  reflectors-build_one :
      (p : Process) (sc : StoreType)
      → (build_one uid try_no_cache p sc).reflectors
        ≡ p.reflectors ++ built_reflector try_no_cache (length p.heap) sc ∷ []
  unfolding build_one build_store
  reflectors-build_one p sc =
      ap
        (λ (o : ListOptions).
          p.reflectors
          ++ record (built_reflector try_no_cache (length p.heap) sc) { list_watch = λ asked. o }
            ∷ [])
        (list_options_lem sc)

  heap-build_stores :
      (p : Process) (scs : List StoreType)
      → (build_stores uid try_no_cache p scs).heap ≡ p.heap ++ map built_store scs
  unfolding build_stores
  heap-build_stores p [] = sym (append-nil p.heap)
  heap-build_stores p (sc ∷ scs) =
      heap-build_stores (build_one uid try_no_cache p sc) scs
      ∙ ap (λ (l : List StoreType). l ++ map built_store scs) (heap-build_one p sc)
      ∙ append_assoc p.heap (built_store sc ∷ []) (map built_store scs)

  reflectors-build_stores :
      (p : Process) (scs : List StoreType)
      → (build_stores uid try_no_cache p scs).reflectors
        ≡ p.reflectors ++ built_reflectors try_no_cache (length p.heap) scs
  unfolding build_stores
  reflectors-build_stores p [] = sym (append-nil p.reflectors)
  reflectors-build_stores p (sc ∷ scs) =
      reflectors-build_stores (build_one uid try_no_cache p sc) scs
      ∙ ap₂ (λ (l : List Reflector) (n : ℕ). l ++ built_reflectors try_no_cache n scs)
          (reflectors-build_one p sc) (length-build_one uid try_no_cache p sc)
      ∙ append_assoc p.reflectors (built_reflector try_no_cache (length p.heap) sc ∷ [])
          (built_reflectors try_no_cache (length p.heap + 1) scs)

-- What is left of `p` when a resource has been given the stores `scs`, and those it had before are
-- gone from the map.
pub record IsRebuilt (uid : String) (try_no_cache : Bool) (scs : List StoreType) (p q : Process)
    : Type 0 where
  pub refs : refs_of (lookup uid q.uid_to_stores) ≡ places (length p.heap) (length scs)
  pub heap : q.heap ≡ p.heap ++ map built_store scs
  pub reflectors : q.reflectors ≡ p.reflectors ++ built_reflectors try_no_cache (length p.heap) scs
  pub others_kept :
      (k : String) → (uid == k) ≡ false → lookup k q.uid_to_stores ≡ lookup k p.uid_to_stores

pub others-Grows :
    {uid : String} {p q : Process} (k : String)
    → Grows uid p q
    → (uid == k) ≡ false
    → lookup k q.uid_to_stores ≡ lookup k p.uid_to_stores
others-Grows {uid} k g h = when_not (uid == k) _ _ (g.others_kept k) h

pub reflectors-drop_stores :
    (uid : String) (p : Process) → (drop_stores uid p).reflectors ≡ p.reflectors
unfolding drop_stores
reflectors-drop_stores uid p = elim (Option-cases (lookup uid p.uid_to_stores)) [
  | inl e ↦ rw (e, drop_stores) refl
  | inr (refs, e) ↦ rw (e, drop_stores) refl
]

pub build_loaded-IsRebuilt :
    (c : Loaded) (try_no_cache : Bool) (p : Process)
    → IsRebuilt c.resource_uid try_no_cache c.stores p
        (build_loaded c (drop_stores c.resource_uid p) try_no_cache)
unfolding build_loaded
build_loaded-IsRebuilt c b p =
    let uid = c.resource_uid in
    let scs = c.stores in
    let dropped = drop_stores uid p in
    let size = ap length (heap-drop_stores uid p) in
    record {
      refs =
          refs-build_stores uid b dropped scs
          ∙ ap₂ (λ (l : List Ref) (n : ℕ). l ++ places n (length scs))
              (ap refs_of (drop_stores-dropped uid p)) size;
      heap =
          heap-build_stores uid b dropped scs
          ∙ ap (λ (l : List StoreType). l ++ map built_store scs) (heap-drop_stores uid p);
      reflectors =
          reflectors-build_stores uid b dropped scs
          ∙ ap₂ (λ (l : List Reflector) (n : ℕ). l ++ built_reflectors b n scs)
              (reflectors-drop_stores uid p) size;
      others_kept = λ k.
          others-Grows k
            (Grows-trans (drop_stores-Grows uid p) (build_stores-Grows uid b dropped scs));
    }

-- What a resource's add and update events do to the shared state. If the configuration has a nil store
-- or a store with a nil family, `build` panics. Otherwise the resource then has exactly the stores of
-- its configuration, each a new one: empty, with the headers, families, labels and resolver that the
-- configuration gives it; for each of them one more reflector runs, on that store, which lists what
-- the entry names with the entry's selectors. The stores of every other resource are as they were, and
-- no store that was built goes away and no reflector is stopped.
pub build-drop_stores :
    (c : Configurer) (try_no_cache : Bool) (p : Process)
    → (stores_of c.configuration.stores ≡ none
        → build c (drop_stores c.resource_uid p) try_no_cache ≡ panic)
      × ((scs : List StoreType)
          → stores_of c.configuration.stores ≡ some scs
          → (q : Process) × (build c (drop_stores c.resource_uid p) try_no_cache ≡ ok q)
            × IsRebuilt c.resource_uid try_no_cache scs p q)
unfolding build
build-drop_stores c b p = (
  λ e. rw e refl,
  λ scs e.
      let l : Loaded = record { resource_uid = c.resource_uid; stores = scs } in
      (build_loaded l (drop_stores c.resource_uid p) b, rw e refl, build_loaded-IsRebuilt l b p),
)
