-- ===== src/Server/Linked.antt =====
-- internal/events.go and internal/server.go: the pointers in the shared map lead to stores, and every
-- store has one text for each header and object.
use mathlib.Core.Path.{subst}
use crdmetrics.Prelude.{
  ℕ, ◌+◌, ◌<◌, String, Bool, sym, List, [], ◌∷◌, ◌++◌, All, All-append, arith, length,
  length-append, inl, inr, Option-cases, Bool-cases, string_eq, ◌==◌,
}
use crdmetrics.Prelude.Map.{Map, lookup, insert}
use crdmetrics.Store.{StoreType}
use crdmetrics.Store.Shape.{IsShaped, All-insert, All-remove}
use crdmetrics.Builder.{Ref, Reflector}
use crdmetrics.Builder.Headers.{build_store-IsShaped}
use crdmetrics.Config.{Process, refs_of, build_one, build_stores, build_loaded, drop_stores}
use crdmetrics.Config.Change.{Change, unchanged, dropped, rebuilt}

abbrev pub InHeap : ℕ → List Ref → Type 0
InHeap n = All (λ r. r < n)

abbrev pub Entries : ℕ → Map String (List Ref) → Type 0
Entries n = All (λ (e : String × List Ref). InHeap n e.1)

-- Every pointer in the map leads to a store, and every store has one text for each header and object.
pub record IsLinked (p : Process) : Type 0 where
  pub shaped : All IsShaped p.heap
  pub entries : All (λ (e : String × List Ref). InHeap (length p.heap) e.1) p.uid_to_stores

InHeap-suc : (n : ℕ) (refs : List Ref) → InHeap n refs → InHeap (n + 1) refs
InHeap-suc n [] h = tt
InHeap-suc n (r ∷ refs) (h, hs) = (omega arith, InHeap-suc n refs hs)

Entries-suc : (n : ℕ) (m : Map String (List Ref)) → Entries n m → Entries (n + 1) m
Entries-suc n [] h = tt
Entries-suc n (e ∷ m) (h, hs) = (InHeap-suc n e.1 h, Entries-suc n m hs)

pub InHeap-lookup :
    (n : ℕ) (uid : String) (m : Map String (List Ref))
    → Entries n m
    → InHeap n (refs_of (lookup uid m))
unfolding lookup
InHeap-lookup n uid [] h = tt
InHeap-lookup n uid ((k, refs) ∷ m) (h, hs) = elim (Bool-cases (k == uid)) [
  | inl e ↦ rw e h
  | inr e ↦ rw e (InHeap-lookup n uid m hs)
]

-- a process with one store more, and a pointer to it under a UID
abbrev grown : String → StoreType → List Reflector → Process → Process
grown uid s reflectors p = record {
  heap = p.heap ++ s ∷ [];
  uid_to_stores =
      insert uid (refs_of (lookup uid p.uid_to_stores) ++ length p.heap ∷ []) p.uid_to_stores;
  reflectors = reflectors;
}

grown-IsLinked :
    (uid : String) (s : StoreType) (reflectors : List Reflector) (p : Process)
    → IsShaped s
    → IsLinked p
    → IsLinked (grown uid s reflectors p)
grown-IsLinked uid s reflectors p hs h =
    let n = length p.heap in
    let refs : List Ref = refs_of (lookup uid p.uid_to_stores) ++ n ∷ [] in
    record {
      shaped = All-append IsShaped p.heap (s ∷ []) h.shaped (hs, tt);
      entries =
          subst (λ (k : ℕ). Entries k (insert uid refs p.uid_to_stores))
            (sym (length-append p.heap (s ∷ [])))
            (All-insert (InHeap (n + 1)) uid refs p.uid_to_stores
              (All-append (λ r. r < n + 1) (refs_of (lookup uid p.uid_to_stores)) (n ∷ [])
                (InHeap-suc n _ (InHeap-lookup n uid p.uid_to_stores h.entries)) (omega arith, tt))
              (Entries-suc n p.uid_to_stores h.entries));
    }

pub build_one-IsLinked :
    (uid : String) (b : Bool) (p : Process) (sc : StoreType)
    → IsLinked p
    → IsLinked (build_one uid b p sc)
unfolding build_one
build_one-IsLinked uid b p sc h =
    grown-IsLinked uid _ _ p (build_store-IsShaped _ _ _ _ _ _ _ _ _) h

build_stores-IsLinked :
    (uid : String) (b : Bool) (p : Process) (scs : List StoreType)
    → IsLinked p
    → IsLinked (build_stores uid b p scs)
unfolding build_stores
build_stores-IsLinked uid b p [] h = h
build_stores-IsLinked uid b p (sc ∷ scs) h =
    build_stores-IsLinked uid b (build_one uid b p sc) scs (build_one-IsLinked uid b p sc h)

pub drop_stores-IsLinked : (uid : String) (p : Process) → IsLinked p → IsLinked (drop_stores uid p)
unfolding drop_stores
drop_stores-IsLinked uid p h = elim (Option-cases (lookup uid p.uid_to_stores)) [
  | inl e ↦ rw (e, drop_stores) h
  | inr (refs, e) ↦
      rw (e, drop_stores)
        (record {
          shaped = h.shaped;
          entries = All-remove (InHeap (length p.heap)) uid p.uid_to_stores h.entries;
        })
]

pub Change-IsLinked : {p q : Process} → Change p q → IsLinked p → IsLinked q
Change-IsLinked unchanged h = h
Change-IsLinked {p} (dropped uid) h = drop_stores-IsLinked uid p h
Change-IsLinked {p} (rebuilt c b) h =
    unfold build_loaded in
    build_stores-IsLinked c.resource_uid b (drop_stores c.resource_uid p) c.stores
      (drop_stores-IsLinked c.resource_uid p h)
