-- ===== src/Family/Labels.antt =====
-- internal/family.go, `rawFrom`: the labels of a metric, and when their making panics.
use mathlib.Core.Path.{subst}
use crdmetrics.Prelude.{
  ok-injective, bind-panic, ℕ, ◌+◌, ◌≤◌, ◌<◌, Bytes, Bool-cases, ltb, ltb→lt, ltb→ge,
  get_elem?_out_of_range, ◌≡◌, ◌≢◌, inl, inr, refl, Option, none, some, List, [], ◌∷◌, ◌++◌, length,
  length-append, get_elem?, get_elem?_in_range, ok, panic, or_panic, >>=-eq-ok, arith, bytes_eq,
}
use crdmetrics.Prelude.Map.{Map, lookup}
use crdmetrics.Family.{Resolved, add_entries, add_label, resolve_labels}

-- As many values as keys.
abbrev pub IsEven : Resolved → Type 0
IsEven r = length r.0 ≡ length r.1

push_both : (r : Resolved) (k v : Bytes) → IsEven r → IsEven (r.0 ++ k ∷ [], r.1 ++ v ∷ [])
push_both r k v h = omega (arith, length-append r.0 (k ∷ []), length-append r.1 (v ∷ []))

module _ (label_keys : List Bytes) (i : ℕ) where
  add_entries-IsEven :
      (m : Map Bytes Bytes) (r : Resolved) {r' : Resolved}
      → add_entries label_keys i m r ≡ ok r'
      → IsEven r
      → IsEven r'
  unfolding add_entries
  add_entries-IsEven [] r e h = ground arith
  add_entries-IsEven ((k, v) ∷ m) r e h =
      let (label, _, e') = >>=-eq-ok (or_panic (get_elem? label_keys i)) _ e in
      add_entries-IsEven m _ e' (push_both r _ v h)

  add_label-IsEven :
      (found : Option Bytes) (m : Map Bytes Bytes) (r : Resolved) {r' : Resolved}
      → add_label label_keys i found m r ≡ ok r'
      → IsEven r
      → IsEven r'
  unfolding add_label
  add_label-IsEven (some v) m r e h =
      let (label, _, e') = >>=-eq-ok (or_panic (get_elem? label_keys i)) _ e in
      subst IsEven (ok-injective e') (push_both r _ v h)
  add_label-IsEven none m r e h = add_entries-IsEven m r e h

module _ (resolve : Bytes → Map Bytes Bytes) (label_keys : List Bytes) where
  pub resolve_labels-IsEven :
      (i : ℕ) (queries : List Bytes) (r : Resolved) {r' : Resolved}
      → resolve_labels resolve label_keys i queries r ≡ ok r'
      → IsEven r
      → IsEven r'
  unfolding resolve_labels
  resolve_labels-IsEven i [] r e h = subst IsEven (ok-injective e) h
  resolve_labels-IsEven i (query ∷ queries) r e h =
      let (s, e1, e2) =
        >>=-eq-ok (add_label label_keys i (lookup query (resolve query)) (resolve query) r) _ e in
      resolve_labels-IsEven (i + 1) queries s e2
        (add_label-IsEven label_keys i (lookup query (resolve query)) (resolve query) r e1 h)

  add_entries_total :
      (i : ℕ) (m : Map Bytes Bytes) (r : Resolved)
      → i < length label_keys
      → (r' : Resolved) × (add_entries label_keys i m r ≡ ok r')
  unfolding add_entries
  add_entries_total i [] r h = (r, refl)
  add_entries_total i ((k, v) ∷ m) r h =
      let (label, e) = get_elem?_in_range label_keys i h in rw e (add_entries_total i m _ h)

  add_label_total :
      (i : ℕ) (found : Option Bytes) (m : Map Bytes Bytes) (r : Resolved)
      → i < length label_keys
      → (r' : Resolved) × (add_label label_keys i found m r ≡ ok r')
  unfolding add_label
  add_label_total i none m r h = add_entries_total i m r h
  add_label_total i (some v) m r h =
      let (label, e) = get_elem?_in_range label_keys i h in rw e (_, refl)

  pub resolve_labels_total :
      (i : ℕ) (queries : List Bytes) (r : Resolved)
      → i + length queries ≤ length label_keys
      → (r' : Resolved) × (resolve_labels resolve label_keys i queries r ≡ ok r')
  unfolding resolve_labels
  resolve_labels_total i [] r h = (r, refl)
  resolve_labels_total i (query ∷ queries) r h =
      let (s, e) =
        add_label_total i (lookup query (resolve query)) (resolve query) r (omega arith) in
      rw e (resolve_labels_total (i + 1) queries s (omega arith))

  add_label_out_of_range :
      (i : ℕ) (found : Option Bytes) (m : Map Bytes Bytes) (r : Resolved)
      → found ≢ none
      → length label_keys ≤ i
      → add_label label_keys i found m r ≡ panic
  unfolding add_label
  add_label_out_of_range i none m r n h = absurd (n refl)
  add_label_out_of_range i (some v) m r n h = rw (get_elem?_out_of_range label_keys i h) refl

  -- every query is a key of its own labelset
  pub resolve_labels_panics :
      ((q : Bytes) → lookup q (resolve q) ≢ none)
      → (i : ℕ) (queries : List Bytes) (r : Resolved) → i ≤ length label_keys
      → length label_keys < i + length queries
      → resolve_labels resolve label_keys i queries r ≡ panic
  unfolding resolve_labels
  resolve_labels_panics found i [] r h k = absurd (omega arith)
  resolve_labels_panics found i (query ∷ queries) r h k =
      elim (Bool-cases (ltb i (length label_keys))) [
        | inl lt ↦
            let (s, e) =
              add_label_total i (lookup query (resolve query)) (resolve query) r (ltb→lt i _ lt) in
            rw e (
              resolve_labels_panics found (i + 1) queries s
                (omega (arith, ltb→lt i (length label_keys) lt)) (omega arith))
        | inr ge ↦ bind-panic _ _ (
            add_label_out_of_range i (lookup query (resolve query)) (resolve query) r (found query)
              (ltb→ge i _ ge))
      ]
