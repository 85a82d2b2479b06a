-- ===== src/Server/Reach.antt =====
-- internal/server.go with the rest of the program: which states the process can be in, and what a
-- request for the metrics does in each of them.
use mathlib.Core.Path.{subst}
use crdmetrics.Prelude.{
  ℕ, zero, suc, String, Bool, ◌≡◌, refl, sym, ap, Option, none, some, List, [], ◌∷◌, All, length,
  ok, some-injective, get_elem?, get_elem?_in_range, if◌then◌else◌,
}
use crdmetrics.Writer.Chunks.{chunks, write_chunks, write_all_to-chunks}
use crdmetrics.Writer.{RangeOrder}
use crdmetrics.Server.{Http, deref, write_groups, metrics_handler}
use crdmetrics.Prelude.Map.{Map}
use mathlib.Core.List.{foldl}
use crdmetrics.Resource.{CrdMetricsResource, Slices}
use crdmetrics.Family.{Libs}
use crdmetrics.Store.{StoreType, Objects, Call, call}
use crdmetrics.Store.Shape.{IsShaped, call-IsShaped}
use crdmetrics.Builder.{Ref}
use crdmetrics.Config.{Process, Yaml}
use crdmetrics.Handler.{Client, managed, handle_event}
use crdmetrics.Handler.Outcome.{handle_event_returned}
use crdmetrics.Server.Linked.{IsLinked, InHeap, Change-IsLinked}

abbrev pub set_at : ℕ → StoreType → List StoreType → List StoreType
set_at i s [] = []
set_at zero s (t ∷ heap) = s ∷ heap
set_at (suc i) s (t ∷ heap) = t ∷ set_at i s heap

-- the process when the workers start
abbrev pub start_process : Process
start_process = record { heap = []; uid_to_stores = []; reflectors = [] }

module _ (libs : Libs) (objects : Objects) (client : Client) (slices : Slices) (yaml : Yaml) where
  -- One step of the process: a worker handles an event of a managed resource, in any state of the API
  -- server; or the reflector of any store that was ever built, also of one that was dropped, makes a
  -- call of the store.
  pub data Step (p : Process) : Process → Type 0 where
    handles :
        (w w' : client.World) (q : Process) (event : String) (resource : CrdMetricsResource)
        (b : Bool)
        → handle_event client slices yaml w p event (managed resource) b ≡ ok ((w', q), none)
        → Step p q
    reflects :
        (ref : Ref) (s s' : StoreType) (c : Call objects.Object)
        → get_elem? p.heap ref ≡ some s
        → call libs objects s c ≡ ok s'
        → Step p (record p { heap = set_at ref s' p.heap })

  -- The states that steps lead to, in any order.
  pub data Reachable : Process → Type 0 where
    start : Reachable start_process
    next : {p q : Process} → Reachable p → Step p q → Reachable q

pub length-set_at :
    (i : ℕ) (s : StoreType) (heap : List StoreType) → length (set_at i s heap) ≡ length heap
length-set_at i s [] = refl
length-set_at zero s (t ∷ heap) = refl
length-set_at (suc i) s (t ∷ heap) = ap suc (length-set_at i s heap)

pub All-set_at :
    (P : StoreType → Type 0) (i : ℕ) (s : StoreType) (heap : List StoreType)
    → P s
    → All P heap
    → All P (set_at i s heap)
All-set_at P i s [] h hs = tt
All-set_at P zero s (t ∷ heap) h (ht, hs) = (h, hs)
All-set_at P (suc i) s (t ∷ heap) h (ht, hs) = (ht, All-set_at P i s heap h hs)

pub All-get_elem? {ℓ κ} :
    {A : Type ℓ} (P : A → Type κ) (l : List A) (i : ℕ) {x : A}
    → get_elem? l i ≡ some x
    → All P l
    → P x
All-get_elem? P [] i e h = cc
All-get_elem? P (y ∷ l) zero e (ht, h) = subst P (some-injective e) ht
All-get_elem? P (y ∷ l) (suc i) e (ht, h) = All-get_elem? P l i e h

module _ (libs : Libs) (objects : Objects) (client : Client) (slices : Slices) (yaml : Yaml) where
  Step-IsLinked :
      {p q : Process} → Step libs objects client slices yaml p q → IsLinked p → IsLinked q
  Step-IsLinked {p} (handles w w' q event resource b e) h =
      Change-IsLinked (handle_event_returned client slices yaml event b w w' p q resource none e) h
  Step-IsLinked {p} (reflects ref s s' c found e) h = record {
    shaped =
        All-set_at IsShaped ref s' p.heap
          (call-IsShaped libs objects s s' c e (All-get_elem? IsShaped p.heap ref found h.shaped))
          h.shaped;
    entries =
        subst (λ (n : ℕ). All (λ (e : String × List Ref). InHeap n e.1) p.uid_to_stores)
          (sym (length-set_at ref s' p.heap)) h.entries;
  }

  pub Reachable-IsLinked : {p : Process} → Reachable libs objects client slices yaml p → IsLinked p
  Reachable-IsLinked start = record { shaped = tt; entries = tt }
  Reachable-IsLinked (next r step) = Step-IsLinked step (Reachable-IsLinked r)

abbrev pub push : Option StoreType → List StoreType → List StoreType
push none rest = rest
push (some s) rest = s ∷ rest

-- The stores that pointers lead to.
abbrev pub stores_of : List StoreType → List Ref → List StoreType
stores_of heap [] = []
stores_of heap (ref ∷ refs) = push (get_elem? heap ref) (stores_of heap refs)

pub deref_lem :
    (heap : List StoreType) (refs : List Ref)
    → All IsShaped heap
    → InHeap (length heap) refs
    → (deref heap refs ≡ ok (stores_of heap refs)) × All IsShaped (stores_of heap refs)
unfolding deref
deref_lem heap [] h _ = (refl, tt)
deref_lem heap (ref ∷ refs) h (k, ks) =
    let (s, e) = get_elem?_in_range heap ref k in
    let (rest, shaped) = deref_lem heap refs h ks in
    rw e (rw rest (refl, (All-get_elem? IsShaped heap ref e h, shaped)))

module _ (http : Http) (order : RangeOrder) where
  open http use {sink}

  -- What one resource's stores add to a response: their headers and texts, up to the first write that
  -- fails.
  abbrev pub after_group : List StoreType → sink.State → String × List Ref → sink.State
  after_group heap w (uid, refs) = (write_chunks sink (chunks order (stores_of heap refs)) w).0

  write_groups_lem :
      (heap : List StoreType) (m : Map String (List Ref)) (w : sink.State)
      → All IsShaped heap
      → All (λ (e : String × List Ref). InHeap (length heap) e.1) m
      → write_groups http order heap m w ≡ ok (foldl (after_group heap) w m)
  unfolding write_groups
  write_groups_lem heap [] w h _ = refl
  write_groups_lem heap ((uid, refs) ∷ m) w h (k, ks) =
      let (e, shaped) = deref_lem heap refs h k in
      rw e (
        rw (write_all_to-chunks sink order (stores_of heap refs) w shaped)
          (write_groups_lem heap m _ h ks))

  -- In every state that the process can reach, by any events and any calls of reflectors in any order,
  -- a request for the metrics is answered without a panic: resource by resource, the headers of each
  -- store are written, each followed by its family's texts. A write that fails ends what is written
  -- for its resource, and the next resource follows.
  pub metrics_handler_reachable :
      (libs : Libs) (objects : Objects) (client : Client) (slices : Slices) (yaml : Yaml)
      (p : Process) (r : http.Request) (w : sink.State)
      → Reachable libs objects client slices yaml p
      → metrics_handler http order p r w
        ≡ ok (
            foldl
              (after_group p.heap)
              (if http.negotiates_text r then w else http.set_content_type_text w)
              p.uid_to_stores)
  unfolding metrics_handler
  metrics_handler_reachable libs objects client slices yaml p r w h =
      let linked = Reachable-IsLinked libs objects client slices yaml h in
      write_groups_lem p.heap p.uid_to_stores _ linked.shaped linked.entries
