-- ===== src/Server/Exposition.antt =====
-- internal/server.go with the rest of the program: the whole body of a response for the metrics, in
-- every state that the process can be in.
use mathlib.Core.Path.{subst}
use crdmetrics.Prelude.{
  String, Bytes, none, Bool, ◌≡◌, sym, ap, ◌∙◌, List, [], ◌∷◌, ◌++◌, append_assoc, append-nil, All,
  All-append, length, ok, get_elem?_in_range, Bool-cases, inl, inr,
}
use crdmetrics.Prelude.Map.{Map}
use crdmetrics.Floats.{IsOneLine}
use crdmetrics.Resource.{Slices}
use crdmetrics.Family.{Libs}
use crdmetrics.Store.{StoreType, Objects, new_store, Call, call}
use crdmetrics.Store.Shape.{IsShaped}
use crdmetrics.Store.Contents.{names, HasSamples, IsServable, call-IsServable}
use crdmetrics.Store.Names.{call-names}
use crdmetrics.Builder.{Ref, build_store}
use crdmetrics.Config.{Process, Yaml, build_one, build_stores, build_loaded, drop_stores}
use crdmetrics.Config.Stores.{heap-drop_stores}
use crdmetrics.Config.Change.{Change, unchanged, dropped, rebuilt}
use crdmetrics.Handler.{Client}
use crdmetrics.Handler.Outcome.{handle_event_returned}
use crdmetrics.Writer.{RangeOrder}
use crdmetrics.Writer.Chunks.Exposition.{
  buffer, IsFamilies, no_family, families_of, IsFamilies-append, write_all_to-IsFamilies,
}
use crdmetrics.Server.{Http, write_groups, metrics_handler}
use crdmetrics.Server.Linked.{InHeap}
use crdmetrics.Server.Reach.{
  handles, reflects, Reachable, start, next, stores_of, All-set_at, All-get_elem?, deref_lem,
  Reachable-IsLinked,
}

-- The family names of a store hold no line break.
abbrev pub IsNamed : StoreType → Type 0
IsNamed s = All IsOneLine (names s.families)

-- If the family names hold no line break, the texts are lines of their families.
abbrev Serves : StoreType → Type 0
Serves s =
    IsNamed s → All (λ (e : String × List Bytes). HasSamples (names s.families) e.1) s.metrics

All-IsServable : (l : List StoreType) → All Serves l → All IsNamed l → All IsServable l
All-IsServable [] _ _ = tt
All-IsServable (s ∷ l) (h, hs) (k, ks) =
    (record { named = k; entries = h k }, All-IsServable l hs ks)

build_one-Serves :
    (uid : String) (b : Bool) (p : Process) (sc : StoreType)
    → All Serves p.heap
    → All Serves (build_one uid b p sc).heap
unfolding build_one build_store new_store
build_one-Serves uid b p sc h = All-append Serves p.heap (_ ∷ []) h (λ k. tt, tt)

build_stores-Serves :
    (uid : String) (b : Bool) (p : Process) (scs : List StoreType)
    → All Serves p.heap
    → All Serves (build_stores uid b p scs).heap
unfolding build_stores
build_stores-Serves uid b p [] h = h
build_stores-Serves uid b p (sc ∷ scs) h =
    build_stores-Serves uid b (build_one uid b p sc) scs (build_one-Serves uid b p sc h)

drop_stores-Serves :
    (uid : String) (p : Process) → All Serves p.heap → All Serves (drop_stores uid p).heap
drop_stores-Serves uid p h = subst (All Serves) (sym (heap-drop_stores uid p)) h

Change-Serves : {p q : Process} → Change p q → All Serves p.heap → All Serves q.heap
Change-Serves unchanged h = h
Change-Serves {p} (dropped uid) h = drop_stores-Serves uid p h
Change-Serves {p} (rebuilt c b) h =
    unfold build_loaded in
    build_stores-Serves c.resource_uid b (drop_stores c.resource_uid p) c.stores
      (drop_stores-Serves c.resource_uid p h)

module _ (libs : Libs) (objects : Objects) (client : Client) (slices : Slices) (yaml : Yaml) where
  call-Serves :
      (s s' : StoreType) (c : Call objects.Object)
      → call libs objects s c ≡ ok s'
      → Serves s
      → Serves s'
  call-Serves s s' c e h k =
      let named = subst (All IsOneLine) (call-names libs objects s s' c e) k in
      let servable =
        call-IsServable libs objects s s' c e (record { named = named; entries = h named }) in
      servable.entries

  Reachable-Serves : {p : Process} → Reachable libs objects client slices yaml p → All Serves p.heap
  Reachable-Serves start = tt
  Reachable-Serves (next {p} r (handles w w' q event resource b e)) =
      Change-Serves (handle_event_returned client slices yaml event b w w' p q resource none e)
        (Reachable-Serves r)
  Reachable-Serves (next {p} r (reflects ref s s' c found e)) =
      let h = Reachable-Serves r in
      All-set_at Serves ref s' p.heap
        (call-Serves s s' c e (All-get_elem? Serves p.heap ref found h)) h

-- The body of a response as it is written: no write fails, and headers are not part of it.
abbrev pub into_buffer : Http → Http
into_buffer http = record {
  sink = buffer;
  write_header = λ status w. w;
  set_content_type_text = λ w. w;
  Request = http.Request;
  negotiates_text = http.negotiates_text;
  get_fails = http.get_fails;
}

-- The headers and family names of all resources' stores.
abbrev pub all_families : List StoreType → Map String (List Ref) → List (Bytes × Bytes)
all_families heap [] = []
all_families heap ((uid, refs) ∷ m) = families_of (stores_of heap refs) ++ all_families heap m

IsServable-stores_of :
    (heap : List StoreType) (refs : List Ref)
    → All IsServable heap
    → InHeap (length heap) refs
    → All IsServable (stores_of heap refs)
IsServable-stores_of heap [] h _ = tt
IsServable-stores_of heap (ref ∷ refs) h (k, ks) =
    let (s, e) = get_elem?_in_range heap ref k in
    rw e (All-get_elem? IsServable heap ref e h, IsServable-stores_of heap refs h ks)

module _ (http : Http) (order : RangeOrder) where
  write_groups-IsFamilies :
      (heap : List StoreType) (m : Map String (List Ref)) (w : Bytes)
      → All IsShaped heap
      → All IsServable heap
      → All (λ (e : String × List Ref). InHeap (length heap) e.1) m
      → (text : Bytes) × (write_groups (into_buffer http) order heap m w ≡ ok (w ++ text))
        × IsFamilies (all_families heap m) text
  unfolding write_groups
  write_groups-IsFamilies heap [] w h k _ = ([], ap ok (sym (append-nil w)), no_family)
  write_groups-IsFamilies heap ((uid, refs) ∷ m) w h k (l, ls) =
      let (e, shaped) = deref_lem heap refs h l in
      let (text, written, families) =
        write_all_to-IsFamilies order (stores_of heap refs) w shaped
          (IsServable-stores_of heap refs k l) in
      let (text', written', families') = write_groups-IsFamilies heap m (w ++ text) h k ls in
      (
        text ++ text',
        rw e (rw written (written' ∙ ap ok (append_assoc w text text'))),
        IsFamilies-append text' families families',
      )

  -- In every state that the process can reach, by any events of managed resources and any calls of
  -- reflectors in any order, and if no family name of a store holds a line break: a request for the
  -- metrics is answered without a panic, and if no write fails, the body is, resource by resource,
  -- store by store and family by family, the header with its line break, and then only lines of that
  -- family, each of which begins with the prefix, the family's name and an opening brace.
  pub metrics_handler-IsFamilies :
      (libs : Libs) (objects : Objects) (client : Client) (slices : Slices) (yaml : Yaml)
      (p : Process) (r : http.Request)
      → Reachable libs objects client slices yaml p
      → All IsNamed p.heap
      → (text : Bytes) × (metrics_handler (into_buffer http) order p r [] ≡ ok text)
        × IsFamilies (all_families p.heap p.uid_to_stores) text
  unfolding metrics_handler
  metrics_handler-IsFamilies libs objects client slices yaml p r h k =
      let linked = Reachable-IsLinked libs objects client slices yaml h in
      let servable = All-IsServable p.heap (Reachable-Serves libs objects client slices yaml h) k in
      let (text, e, families) =
        write_groups-IsFamilies p.heap p.uid_to_stores [] linked.shaped servable linked.entries in
      (
        text,
        elim (Bool-cases (http.negotiates_text r)) [ inl n ↦ rw n e | inr n ↦ rw n e ],
        families,
      )
