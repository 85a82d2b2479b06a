-- ===== src/Server/Workers.antt =====
-- internal/controller.go, internal/events.go and internal/config.go: what the workers that `Run`
-- starts do to the shared map when the operations of their events interleave. Each operation is taken
-- to be atomic, which the code does not ensure.
pub mod Orders
use mathlib.Core.List.{foldl}
use crdmetrics.Prelude.{
  ℕ, zero, suc, ◌+◌, ◌<◌, String, Bool, true, false, ◌≡◌, ◌≢◌, refl, sym, ap, ◌∙◌, Option, none,
  some, List, [], ◌∷◌, ◌++◌, map, All, arith, length, inl, inr, Option-cases, Bool-cases,
  if◌then◌else◌, get_elem?, append_assoc, append-nil, get_elem?_in_range, string_eq, ◌==◌, ==_refl,
  ==_ne, ==_iff,
}
use crdmetrics.Prelude.Map.{lookup, lookup-insert_ne, lookup-insert_self}
use crdmetrics.Store.{StoreType}
use crdmetrics.Builder.{Ref, build_store}
use crdmetrics.Config.{Process, Loaded, refs_of, build_one, build_stores, build_loaded, drop_stores}
use crdmetrics.Server.Linked.{
  IsLinked, InHeap, Entries, InHeap-lookup, build_one-IsLinked, drop_stores-IsLinked,
}
use mathlib.Core.Path.{subst}
use crdmetrics.Config.Stores.{lookup-drop_stores, heap-drop_stores}
use crdmetrics.Server.Reach.{push, stores_of}

-- One operation of a worker on the shared map: `dropStores`, or one round of the loop in `build`.
pub data Op : Type 0 where
  drops : String → Op
  appends : String → Bool → StoreType → Op

unfoldable pub run_op : Op → Process → Process
run_op (drops uid) p = drop_stores uid p
run_op (appends uid try_no_cache sc) p = build_one uid try_no_cache p sc

unfoldable pub run_ops : List Op → Process → Process
run_ops [] p = p
run_ops (op ∷ ops) p = run_ops ops (run_op op p)

-- the operations of a worker that handles an add or update event
unfoldable pub event_ops : Loaded → Bool → List Op
event_ops c try_no_cache =
    drops c.resource_uid ∷ map (λ (sc : StoreType). appends c.resource_uid try_no_cache sc) c.stores

-- The store that is built for an entry of a configuration.
abbrev pub store_for : Bool → StoreType → StoreType
store_for try_no_cache sc =
    (build_store 0
      (record {
        group = sc.group;
        version = sc.version;
        kind = sc.kind;
        resource = sc.resource_name;
      })
      sc.families try_no_cache sc.selectors.label sc.selectors.field sc.resolver sc.label_keys
      sc.label_values).0

-- The stores that are served for a resource.
abbrev pub stores_at : String → Process → List StoreType
stores_at uid p = stores_of p.heap (refs_of (lookup uid p.uid_to_stores))

-- What an operation does to the stores of the resource `uid`.
abbrev pub effect : String → List StoreType → Op → List StoreType
effect uid l (drops k) = if k == uid then [] else l
effect uid l (appends k try_no_cache sc) =
    if k == uid then l ++ store_for try_no_cache sc ∷ [] else l

get_elem?-append :
    (heap : List StoreType) (s : StoreType) (i : ℕ)
    → i < length heap
    → get_elem? (heap ++ s ∷ []) i ≡ get_elem? heap i
get_elem?-append [] s i h = elim h [ ]
get_elem?-append (t ∷ heap) s zero h = refl
get_elem?-append (t ∷ heap) s (suc i) h = get_elem?-append heap s i (omega arith)

get_elem?-last :
    (heap : List StoreType) (s : StoreType) → get_elem? (heap ++ s ∷ []) (length heap) ≡ some s
get_elem?-last [] s = refl
get_elem?-last (t ∷ heap) s = get_elem?-last heap s

stores_of-grown :
    (heap : List StoreType) (s : StoreType) (refs : List Ref)
    → InHeap (length heap) refs
    → stores_of (heap ++ s ∷ []) refs ≡ stores_of heap refs
stores_of-grown heap s [] h = refl
stores_of-grown heap s (ref ∷ refs) (h, hs) =
    rw (get_elem?-append heap s ref h, stores_of-grown heap s refs hs)

push-append : (o : Option StoreType) (xs ys : List StoreType) → push o (xs ++ ys) ≡ push o xs ++ ys
push-append none xs ys = refl
push-append (some s) xs ys = refl

stores_of-append :
    (heap : List StoreType) (xs ys : List Ref)
    → stores_of heap (xs ++ ys) ≡ stores_of heap xs ++ stores_of heap ys
stores_of-append heap [] ys = refl
stores_of-append heap (x ∷ xs) ys =
    ap (push (get_elem? heap x)) (stores_of-append heap xs ys)
    ∙ push-append (get_elem? heap x) (stores_of heap xs) (stores_of heap ys)

stores_of-last :
    (heap : List StoreType) (s : StoreType) (refs : List Ref)
    → InHeap (length heap) refs
    → stores_of (heap ++ s ∷ []) (refs ++ length heap ∷ []) ≡ stores_of heap refs ++ s ∷ []
stores_of-last heap s refs h =
    stores_of-append (heap ++ s ∷ []) refs (length heap ∷ [])
    ∙ rw (stores_of-grown heap s refs h, get_elem?-last heap s)

drop_stores-stores_at :
    (k uid : String) (p : Process)
    → stores_at uid (drop_stores k p) ≡ effect uid (stores_at uid p) (drops k)
drop_stores-stores_at k uid p = elim (Bool-cases (k == uid)) [
  | inl e ↦ rw (lookup-drop_stores k uid p, heap-drop_stores k p, e) refl
  | inr e ↦ rw (lookup-drop_stores k uid p, heap-drop_stores k p, e) refl
]

-- an entry's store does not depend on the place where it will stand
build_one_self :
    (uid : String) (b : Bool) (sc : StoreType) (p : Process)
    → IsLinked p
    → stores_at uid (build_one uid b p sc) ≡ stores_at uid p ++ store_for b sc ∷ []
unfolding build_one build_store
build_one_self uid b sc p h =
    ap (λ (o : Option (List Ref)). stores_of (p.heap ++ store_for b sc ∷ []) (refs_of o))
      (lookup-insert_self uid _ p.uid_to_stores)
    ∙ stores_of-last p.heap (store_for b sc) (refs_of (lookup uid p.uid_to_stores))
        (InHeap-lookup (length p.heap) uid p.uid_to_stores h.entries)

build_one-other :
    (k uid : String) (b : Bool) (sc : StoreType) (p : Process)
    → IsLinked p
    → (k == uid) ≡ false
    → stores_at uid (build_one k b p sc) ≡ stores_at uid p
unfolding build_one build_store
build_one-other k uid b sc p h e =
    ap (λ (o : Option (List Ref)). stores_of (p.heap ++ store_for b sc ∷ []) (refs_of o))
      (lookup-insert_ne k uid _ p.uid_to_stores e)
    ∙ stores_of-grown p.heap (store_for b sc) (refs_of (lookup uid p.uid_to_stores))
        (InHeap-lookup (length p.heap) uid p.uid_to_stores h.entries)

build_one-stores_at :
    (k uid : String) (b : Bool) (sc : StoreType) (p : Process)
    → IsLinked p
    → stores_at uid (build_one k b p sc) ≡ effect uid (stores_at uid p) (appends k b sc)
build_one-stores_at k uid b sc p h = elim (Bool-cases (k == uid)) [
  | inl e ↦ rw e (
      subst
        (λ (j : String).
          stores_at uid (build_one j b p sc) ≡ stores_at uid p ++ store_for b sc ∷ [])
        (sym ((==_iff k uid).0 e)) (build_one_self uid b sc p h))
  | inr e ↦ rw e (build_one-other k uid b sc p h e)
]

run_op-stores_at :
    (uid : String) (op : Op) (p : Process)
    → IsLinked p
    → stores_at uid (run_op op p) ≡ effect uid (stores_at uid p) op
unfolding run_op
run_op-stores_at uid (drops k) p h = drop_stores-stores_at k uid p
run_op-stores_at uid (appends k b sc) p h = build_one-stores_at k uid b sc p h

run_op-IsLinked : (op : Op) (p : Process) → IsLinked p → IsLinked (run_op op p)
unfolding run_op
run_op-IsLinked (drops k) p h = drop_stores-IsLinked k p h
run_op-IsLinked (appends k b sc) p h = build_one-IsLinked k b p sc h

pub run_ops-stores_at :
    (uid : String) (ops : List Op) (p : Process)
    → IsLinked p
    → stores_at uid (run_ops ops p) ≡ foldl (effect uid) (stores_at uid p) ops
unfolding run_ops
run_ops-stores_at uid [] p h = refl
run_ops-stores_at uid (op ∷ ops) p h =
    run_ops-stores_at uid ops (run_op op p) (run_op-IsLinked op p h)
    ∙ ap (λ (l : List StoreType). foldl (effect uid) l ops) (run_op-stores_at uid op p h)

pub effect_self :
    (uid : String) (b : Bool) (l : List StoreType) (sc : StoreType)
    → effect uid l (appends uid b sc) ≡ l ++ store_for b sc ∷ []
effect_self uid b l sc = rw (==_refl uid) refl

pub foldl-appends :
    (uid : String) (b : Bool) (l : List StoreType) (scs : List StoreType)
    → foldl (effect uid) l (map (λ (sc : StoreType). appends uid b sc) scs)
      ≡ l ++ map (store_for b) scs
foldl-appends uid b l [] = sym (append-nil l)
foldl-appends uid b l (sc ∷ scs) =
    ap (λ (m : List StoreType). foldl (effect uid) m (map (λ (t : StoreType). appends uid b t) scs))
      (effect_self uid b l sc)
    ∙ foldl-appends uid b (l ++ store_for b sc ∷ []) scs
    ∙ append_assoc l (store_for b sc ∷ []) (map (store_for b) scs)

-- The operations of one event, run without a break, are `dropStores` and `build`.
pub run_ops-event_ops :
    (c : Loaded) (b : Bool) (p : Process)
    → run_ops (event_ops c b) p ≡ build_loaded c (drop_stores c.resource_uid p) b
unfolding run_ops run_op event_ops build_loaded build_stores
run_ops-event_ops c b p = go c.stores (drop_stores c.resource_uid p)
  where
    go :
        (scs : List StoreType) (q : Process)
        → run_ops (map (λ (sc : StoreType). appends c.resource_uid b sc) scs) q
          ≡ build_stores c.resource_uid b q scs
    go [] q = refl
    go (sc ∷ scs) q = go scs (build_one c.resource_uid b q sc)

pub run_ops-IsLinked : (ops : List Op) (p : Process) → IsLinked p → IsLinked (run_ops ops p)
unfolding run_ops
run_ops-IsLinked [] p h = h
run_ops-IsLinked (op ∷ ops) p h = run_ops-IsLinked ops (run_op op p) (run_op-IsLinked op p h)

effect-drops : (uid : String) (l : List StoreType) → effect uid l (drops uid) ≡ []
effect-drops uid l = rw (==_refl uid) refl

-- the stores that an add or update event leaves for its resource
pub stores_at-build_loaded :
    (c : Loaded) (b : Bool) (p : Process)
    → IsLinked p
    → stores_at c.resource_uid (build_loaded c (drop_stores c.resource_uid p) b)
      ≡ map (store_for b) c.stores
unfolding event_ops
stores_at-build_loaded c b p linked =
    let uid = c.resource_uid in
    let scs = c.stores in
    ap (stores_at uid) (sym (run_ops-event_ops c b p))
    ∙ run_ops-stores_at uid (event_ops c b) p linked
    ∙ ap
        (λ (l : List StoreType).
          foldl (effect uid) l (map (λ (sc : StoreType). appends uid b sc) scs))
        (effect-drops uid (stores_at uid p))
    ∙ foldl-appends uid b [] scs
