-- ===== src/Server/Workers/Orders.antt =====
-- internal/controller.go, internal/events.go and internal/config.go: the orders in which the operations
-- of two workers can reach the shared map, and what each order leaves.
use mathlib.Core.List.{foldl}
use mathlib.Core.Path.{subst}
use crdmetrics.Prelude.{
  String, Bool, true, false, ◌≡◌, refl, sym, ap, ◌∙◌, List, [], ◌∷◌, ◌++◌, map, All, inl, inr, ◌⊎◌,
  Bool-cases, string_eq, ◌==◌, ==_refl, ==_iff,
}
use crdmetrics.Store.{StoreType}
use crdmetrics.Config.{Process, Loaded, build_loaded, drop_stores}
use crdmetrics.Server.Linked.{IsLinked}
use crdmetrics.Server.Workers.{
  Op, drops, appends, run_ops, event_ops, store_for, stores_at, effect, run_ops-stores_at,
  run_ops-event_ops, run_ops-IsLinked, foldl-appends,
}

-- `zs` is made of `xs` and `ys`, each in its order.
pub data Interleaving : List Op → List Op → List Op → Type 0 where
  both_done : Interleaving [] [] []
  first :
      {op : Op} {xs ys zs : List Op} → Interleaving xs ys zs → Interleaving (op ∷ xs) ys (op ∷ zs)
  second :
      {op : Op} {xs ys zs : List Op} → Interleaving xs ys zs → Interleaving xs (op ∷ ys) (op ∷ zs)

-- operations that leave the stores of `uid` alone
abbrev Spares : String → Op → Type 0
Spares uid (drops k) = (k == uid) ≡ false
Spares uid (appends k b sc) = (k == uid) ≡ false

effect-Spares : (uid : String) (op : Op) (l : List StoreType) → Spares uid op → effect uid l op ≡ l
effect-Spares uid (drops k) l h = rw h refl
effect-Spares uid (appends k b sc) l h = rw h refl

foldl-interleaved :
    (uid : String) (l : List StoreType) {xs ys zs : List Op}
    → Interleaving xs ys zs
    → All (Spares uid) ys
    → foldl (effect uid) l zs ≡ foldl (effect uid) l xs
foldl-interleaved uid l both_done h = refl
foldl-interleaved uid l (first {op} i) h = foldl-interleaved uid (effect uid l op) i h
foldl-interleaved uid l (second {op} {zs = zs} i) (h, hs) =
    ap (λ (m : List StoreType). foldl (effect uid) m zs) (effect-Spares uid op l h)
    ∙ foldl-interleaved uid l i hs

event_ops-Spares :
    (c : Loaded) (b : Bool) (uid : String)
    → (c.resource_uid == uid) ≡ false
    → All (Spares uid) (event_ops c b)
unfolding event_ops
event_ops-Spares c b uid h = (h, go c.stores)
  where
    go :
        (scs : List StoreType)
        → All (Spares uid) (map (λ (sc : StoreType). appends c.resource_uid b sc) scs)
    go [] = tt
    go (sc ∷ scs) = (h, go scs)

Interleaving-flip : {xs ys zs : List Op} → Interleaving xs ys zs → Interleaving ys xs zs
Interleaving-flip both_done = both_done
Interleaving-flip (first i) = second (Interleaving-flip i)
Interleaving-flip (second i) = first (Interleaving-flip i)

foldl-spared :
    (uid : String) (l : List StoreType) (ys : List Op)
    → All (Spares uid) ys
    → foldl (effect uid) l ys ≡ l
foldl-spared uid l [] h = refl
foldl-spared uid l (op ∷ ys) (h, hs) =
    ap (λ (m : List StoreType). foldl (effect uid) m ys) (effect-Spares uid op l h)
    ∙ foldl-spared uid l ys hs

module _ (uid : String) (p : Process) (linked : IsLinked p) where
  one_after_another :
      (xs ys : List Op)
      → stores_at uid (run_ops ys (run_ops xs p))
        ≡ foldl (effect uid) (foldl (effect uid) (stores_at uid p) xs) ys
  one_after_another xs ys =
      run_ops-stores_at uid ys (run_ops xs p) (run_ops-IsLinked xs p linked)
      ∙ ap (λ (l : List StoreType). foldl (effect uid) l ys) (run_ops-stores_at uid xs p linked)

  second-Spares :
      {xs ys zs : List Op}
      → Interleaving xs ys zs
      → All (Spares uid) ys
      → stores_at uid (run_ops zs p) ≡ stores_at uid (run_ops ys (run_ops xs p))
  second-Spares {xs} {ys} {zs} i h =
      run_ops-stores_at uid zs p linked
      ∙ foldl-interleaved uid (stores_at uid p) i h
      ∙ sym (foldl-spared uid (foldl (effect uid) (stores_at uid p) xs) ys h)
      ∙ sym (one_after_another xs ys)

  first-Spares :
      {xs ys zs : List Op}
      → Interleaving xs ys zs
      → All (Spares uid) xs
      → stores_at uid (run_ops zs p) ≡ stores_at uid (run_ops ys (run_ops xs p))
  first-Spares {xs} {ys} {zs} i h =
      run_ops-stores_at uid zs p linked
      ∙ foldl-interleaved uid (stores_at uid p) (Interleaving-flip i) h
      ∙ sym (
          ap (λ (l : List StoreType). foldl (effect uid) l ys)
            (foldl-spared uid (stores_at uid p) xs h))
      ∙ sym (one_after_another xs ys)

-- Two workers that handle add or update events of two resources with different UIDs, their operations
-- on the shared map (`dropStores`, and each round of the loop of `build`) interleaved in any order,
-- leave every resource with the stores it would have if the two events were handled one after the
-- other. This is on the condition that no two of the operations overlap in time: the code does not
-- lock the map, and the Go runtime ends a process in which two goroutines are seen to write it at
-- once. It is for configurations without nil pointers to stores or families, and when every pointer of
-- the map leads to a store, and every store has one text for each header and object.
pub run_ops-as_if_in_turn :
    (c d : Loaded) (b b' : Bool) (p : Process) (zs : List Op) (uid : String)
    → IsLinked p
    → (c.resource_uid == d.resource_uid) ≡ false
    → Interleaving (event_ops c b) (event_ops d b') zs
    → stores_at uid (run_ops zs p)
      ≡ stores_at uid (
          build_loaded d
            (drop_stores d.resource_uid (build_loaded c (drop_stores c.resource_uid p) b))
            b')
run_ops-as_if_in_turn c d b b' p zs uid linked apart i =
    by_uid (Bool-cases (d.resource_uid == uid))
    ∙ rw
        (
          run_ops-event_ops c b p,
          run_ops-event_ops d b' (build_loaded c (drop_stores c.resource_uid p) b),
        )
        refl
  where
    by_uid :
        ((d.resource_uid == uid) ≡ true) ⊎ ((d.resource_uid == uid) ≡ false)
        → stores_at uid (run_ops zs p)
          ≡ stores_at uid (run_ops (event_ops d b') (run_ops (event_ops c b) p))
    by_uid (inl e) = first-Spares uid p linked i (
        event_ops-Spares c b uid (
          subst (λ (k : String). (c.resource_uid == k) ≡ false) ((==_iff d.resource_uid uid).0 e)
            apart))
    by_uid (inr e) = second-Spares uid p linked i (event_ops-Spares d b' uid e)

drops_first : (op : Op) (xs ys : List Op) → Interleaving (op ∷ xs) (op ∷ ys) (op ∷ op ∷ xs ++ ys)
drops_first op xs ys = first (second (all_of_first xs))
  where
    all_of_second : (l : List Op) → Interleaving [] l l
    all_of_second [] = both_done
    all_of_second (o ∷ l) = second (all_of_second l)

    all_of_first : (l : List Op) → Interleaving l ys (l ++ ys)
    all_of_first [] = all_of_second ys
    all_of_first (o ∷ l) = first (all_of_first l)

effect-drop : (uid : String) (l : List StoreType) → effect uid l (drops uid) ≡ []
effect-drop uid l = rw (==_refl uid) refl

foldl-append :
    (uid : String) (l : List StoreType) (xs ys : List Op)
    → foldl (effect uid) l (xs ++ ys) ≡ foldl (effect uid) (foldl (effect uid) l xs) ys
foldl-append uid l [] ys = refl
foldl-append uid l (op ∷ xs) ys = foldl-append uid (effect uid l op) xs ys

-- the operations of `build` alone
abbrev builds : String → Bool → List StoreType → List Op
builds uid b scs = map (λ (sc : StoreType). appends uid b sc) scs

-- Two workers that handle two events of one resource at once (each queue item is the key with the
-- event, so two events of one resource are two items) can leave it with the stores of both: there is
-- an order of their operations, each worker keeping its own, after which the stores of both
-- configurations are served for it, one after the other, when the configurations have no nil pointers
-- to stores or families, every pointer of the map leads to a store and every store has one text for
-- each header and object.
pub run_ops-served_twice :
    (c d : Loaded) (b b' : Bool) (p : Process)
    → IsLinked p
    → c.resource_uid ≡ d.resource_uid
    → (zs : List Op) × Interleaving (event_ops c b) (event_ops d b') zs
      × (stores_at c.resource_uid (run_ops zs p)
          ≡ map (store_for b) c.stores ++ map (store_for b') d.stores)
unfolding event_ops
run_ops-served_twice c d b b' p linked same =
    let uid = c.resource_uid in
    let xs = builds uid b c.stores in
    let ys = builds uid b' d.stores in
    (
      drops uid ∷ drops uid ∷ xs ++ ys,
      subst
          (λ (k : String).
            Interleaving (drops uid ∷ xs) (drops k ∷ builds k b' d.stores)
              (drops uid ∷ drops uid ∷ xs ++ ys))
          same (drops_first (drops uid) xs ys),
      run_ops-stores_at uid (drops uid ∷ drops uid ∷ xs ++ ys) p linked
          ∙ ap (λ (l : List StoreType). foldl (effect uid) l (xs ++ ys))
              (effect-drop uid (effect uid (stores_at uid p) (drops uid)))
          ∙ foldl-append uid [] xs ys
          ∙ ap (λ (l : List StoreType). foldl (effect uid) l ys) (foldl-appends uid b [] c.stores)
          ∙ foldl-appends uid b' (map (store_for b) c.stores) d.stores,
    )
