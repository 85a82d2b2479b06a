-- ===== src/Server/Body.antt =====
-- internal/server.go with the rest of the program: what a response for the metrics shows of each
-- object.
use mathlib.Core.List.{foldl}
use crdmetrics.Prelude.{
  ℕ, zero, suc, ◌<◌, String, Bytes, ◌≡◌, refl, sym, ap, ◌∙◌, some, List, [], ◌∷◌, ◌++◌,
  append_assoc, append-nil, length, ok, get_elem?, some-injective, Bool-cases, Option, Error, inl,
  inr, ◌==◌, string_eq,
}
use mathlib.Core.Path.{subst}
use crdmetrics.Prelude.Map.{Map, lookup}
use crdmetrics.Resource.{Slices}
use crdmetrics.Family.{Libs}
use crdmetrics.Store.{StoreType, Objects}
use crdmetrics.Store.Shape.{IsShaped}
use crdmetrics.Builder.{Ref}
use crdmetrics.Config.{Process, Yaml}
use crdmetrics.Handler.{Client}
use crdmetrics.Writer.{RangeOrder}
use crdmetrics.Writer.Chunks.{chunks}
use crdmetrics.Writer.Chunks.Exposition.{concat, write_chunks-buffer}
use crdmetrics.Writer.Chunks.Within.{Within, Within-left, Within-right, store_chunks-Within}
use crdmetrics.Server.{Http, metrics_handler}
use crdmetrics.Server.Linked.{InHeap}
use crdmetrics.Server.Reach.{
  Reachable, stores_of, after_group, All-get_elem?, Reachable-IsLinked, metrics_handler_reachable,
}
use crdmetrics.Server.Exposition.{into_buffer}
use crdmetrics.Server.EndToEnd.{get_elem?-length, get_elem?-stores_of}

-- an entry that holds what a key leads to
lookup-get_elem? {ℓ} :
    {V : Type ℓ} (k : String) (v : V) (m : Map String V)
    → lookup k m ≡ some v
    → (n : ℕ) × (e : String × V) × (get_elem? m n ≡ some e) × (e.1 ≡ v)
unfolding lookup
lookup-get_elem? k v [] h = cc
lookup-get_elem? k v ((j, w) ∷ m) h = elim (Bool-cases (j == k)) [
  | inl e ↦ (zero, (j, w), refl, some-injective (rw e at h))
  | inr e ↦ let (n, x, at_n, is_v) = lookup-get_elem? k v m (rw e at h) in (suc n, x, at_n, is_v)
]

module _ (order : RangeOrder) where
  -- the body of a response: resource by resource the texts of the stores
  abbrev body : List StoreType → Map String (List Ref) → Bytes
  body heap [] = []
  body heap ((uid, refs) ∷ m) = concat (chunks order (stores_of heap refs)) ++ body heap m

  foldl-after_group :
      (http : Http) (heap : List StoreType) (m : Map String (List Ref)) (w : Bytes)
      → foldl (after_group (into_buffer http) order heap) w m ≡ w ++ body heap m
  foldl-after_group http heap [] w = sym (append-nil w)
  foldl-after_group http heap ((uid, refs) ∷ m) w =
      let text = concat (chunks order (stores_of heap refs)) in
      ap (λ (r : Bytes × Option Error). foldl (after_group (into_buffer http) order heap) r.0 m)
        (write_chunks-buffer (chunks order (stores_of heap refs)) w)
      ∙ foldl-after_group http heap m (w ++ text)
      ∙ append_assoc w text (body heap m)

  body-Within :
      (heap : List StoreType) (m : Map String (List Ref)) (n : ℕ) (e : String × List Ref)
      (raw : Bytes)
      → get_elem? m n ≡ some e
      → Within raw (concat (chunks order (stores_of heap e.1)))
      → Within raw (body heap m)
  body-Within heap [] n e raw h k = cc
  body-Within heap ((uid, refs) ∷ m) zero e raw h k =
      Within-left raw (concat (chunks order (stores_of heap refs))) (body heap m) (
        subst (λ (x : String × List Ref). Within raw (concat (chunks order (stores_of heap x.1))))
          (sym (some-injective h)) k)
  body-Within heap ((uid, refs) ∷ m) (suc n) e raw h k =
      Within-right raw (concat (chunks order (stores_of heap refs))) (body heap m)
        (body-Within heap m n e raw h k)

  metrics_handler-body :
      (http : Http) (libs : Libs) (objects : Objects) (client : Client) (slices : Slices)
      (yaml : Yaml) (p : Process) (r : http.Request)
      → Reachable libs objects client slices yaml p
      → metrics_handler (into_buffer http) order p r [] ≡ ok (body p.heap p.uid_to_stores)
  metrics_handler-body http libs objects client slices yaml p r h =
      metrics_handler_reachable (into_buffer http) order libs objects client slices yaml p r [] h
      ∙ elim (Bool-cases (http.negotiates_text r)) [
        | inl e ↦ rw e (ap ok (foldl-after_group http p.heap p.uid_to_stores []))
        | inr e ↦ rw e (ap ok (foldl-after_group http p.heap p.uid_to_stores []))
      ]

  -- In every state that the process can reach, by any events of managed resources and any calls of
  -- reflectors in any order: if a managed resource has a store, and that store has the texts of an
  -- object, then each of the texts is part of the body that a request for the metrics gets, if no
  -- write fails.
  pub metrics_handler-shows :
      (http : Http) (libs : Libs) (objects : Objects) (client : Client) (slices : Slices)
      (yaml : Yaml) (p : Process) (r : http.Request) (resource : String) (refs : List Ref) (j : ℕ)
      (ref : Ref) (s : StoreType) (object : String) (raws : List Bytes) (i : ℕ) (raw : Bytes)
      → Reachable libs objects client slices yaml p
      → lookup resource p.uid_to_stores ≡ some refs
      → get_elem? refs j ≡ some ref
      → get_elem? p.heap ref ≡ some s
      → lookup object s.metrics ≡ some raws
      → get_elem? raws i ≡ some raw
      → (before : Bytes) × (after : Bytes) × (metrics_handler (into_buffer http) order p r []
          ≡ ok (before ++ (raw ++ after)))
  metrics_handler-shows http libs objects client slices yaml p r resource refs j ref s object raws i
        raw h at_resource at_j at_ref at_object at_i =
      let linked = Reachable-IsLinked libs objects client slices yaml h in
      let (n, group, at_n, is_refs) = lookup-get_elem? resource refs p.uid_to_stores at_resource in
      let (k, entry, at_k, is_raws) = lookup-get_elem? object raws s.metrics at_object in
      let shaped = All-get_elem? IsShaped p.heap ref at_ref linked.shaped in
      let in_heap = subst (InHeap (length p.heap)) is_refs (
        All-get_elem? (λ (e : String × List Ref). InHeap (length p.heap) e.1) p.uid_to_stores n at_n
          linked.entries) in
      let sized =
        All-get_elem? (λ (e : String × List Bytes). length e.1 ≡ length s.headers) s.metrics k at_k
          shaped.entries in
      let at_entry = subst (λ (l : List Bytes). get_elem? l i ≡ some raw) (sym is_raws) at_i in
      let stored =
        store_chunks-Within order 0 (stores_of p.heap refs) j i k s entry raw
          (get_elem?-stores_of p.heap refs j ref in_heap at_j ∙ at_ref)
          (subst (λ (l : ℕ). i < l) sized (get_elem?-length entry.1 i raw at_entry)) at_k
          at_entry in
      let (before, after, e) = body-Within p.heap p.uid_to_stores n group raw at_n (
        subst (λ (l : List Ref). Within raw (concat (chunks order (stores_of p.heap l))))
          (sym is_refs) stored) in
      (before, after, metrics_handler-body http libs objects client slices yaml p r h ∙ ap ok e)
