-- ===== src/Resolver/Unstructured.antt =====
-- pkg/resolver/unstructured.go: a query is a path of field names with dots between them.
use mathlib.Core.Path.{ap₂}
use crdmetrics.Prelude.{
  Bytes, Bool, false, not, Option, none, some, List, [], ◌∷◌, ◌++◌, append_assoc, append-nil, eqb,
  if◌then◌else◌, ◌≡◌, ◌≢◌, refl, sym, ◌∙◌, Bool-cases, eqb_iff, arith, Error, inl, inr,
}
use crdmetrics.Prelude.Map.{Map}
use crdmetrics.Floats.{Floats}
use crdmetrics.Resolver.Values.{Value, Fields, sprint}

-- `unstructured.NestedFieldNoCopy` of k8s.io/apimachinery, which is not this repository's code:
-- the value, whether it was found, and the error.
pub record Nested : Type 0 where
  pub nested_field_no_copy : Fields → List Bytes → Value × Bool × Option Error
  -- an error (a field inside something that is no map) comes with `found == false`
  pub error_not_found :
      (o : Fields) (path : List Bytes)
      → (nested_field_no_copy o path).2 ≢ none
      → (nested_field_no_copy o path).1 ≡ false

-- strings.Split(s, "."); `cur` is the part being read
split_from : Bytes → Bytes → List Bytes
split_from cur [] = cur ∷ []
split_from cur (c ∷ s) =
    let next = split_from [] s in
    let more = split_from (cur ++ c ∷ []) s in if eqb c b'.' then cur ∷ next else more

unfoldable pub split_dots : Bytes → List Bytes
unfolding split_from
split_dots s = split_from [] s

module _ (floats : Floats) (lib : Nested) where
  unfoldable pub resolve : Bytes → Fields → Map Bytes Bytes
  resolve query o =
      let r = lib.nested_field_no_copy o (split_dots query) in
      if not r.1
      then (query, query) ∷ []
      else (elim r.2 [ some e ↦ (query, query) ∷ [] | none ↦ (query, sprint floats r.0) ∷ [] ])

  -- The result holds one entry, under the query: the text of the value at the path, if the path is
  -- found, and the query itself if it is not, an error included.
  pub resolve_one_entry :
      (query : Bytes) (o : Fields)
      → let r = lib.nested_field_no_copy o (split_dots query) in
        resolve query o ≡ (query, if r.1 then sprint floats r.0 else query) ∷ []
  unfolding resolve
  resolve_one_entry query o = ground (arith, lib.error_not_found o (split_dots query))

-- The parts with a dot between them.
abbrev pub join_dots : List Bytes → Bytes
join_dots [] = []
join_dots (p ∷ []) = p
join_dots (p ∷ q ∷ ps) = p ++ b'.' ∷ join_dots (q ∷ ps)

split_from-cons : (cur s : Bytes) → (p : Bytes) × (ps : List Bytes) × (split_from cur s ≡ p ∷ ps)
unfolding split_from
split_from-cons cur [] = (cur, [], refl)
split_from-cons cur (c ∷ s) = elim (Bool-cases (eqb c b'.')) [
  | inl h ↦ (cur, split_from [] s, rw h)
  | inr h ↦ let (p, ps, e) = split_from-cons (cur ++ c ∷ []) s in (p, ps, rw h e)
]

join_dots-cons :
    (cur : Bytes) (l : List Bytes) (p : Bytes) (ps : List Bytes)
    → l ≡ p ∷ ps
    → join_dots (cur ∷ l) ≡ cur ++ b'.' ∷ join_dots l
join_dots-cons cur l p ps e = rw e

join_dots-split_from : (cur s : Bytes) → join_dots (split_from cur s) ≡ cur ++ s
unfolding split_from
join_dots-split_from cur [] = sym (append-nil cur)
join_dots-split_from cur (c ∷ s) = elim (Bool-cases (eqb c b'.')) [
  | inl h ↦
      let (p, ps, e) = split_from-cons [] s in
      rw h (
        join_dots-cons cur (split_from [] s) p ps e
        ∙ ap₂ (λ d t. cur ++ d ∷ t) (sym ((eqb_iff c b'.').0 h)) (join_dots-split_from [] s))
  | inr h ↦ rw h (join_dots-split_from (cur ++ c ∷ []) s ∙ append_assoc cur (c ∷ []) s)
]

-- Joining the field names of a path with dots gives back the query: no name is lost or changed.
pub join_dots-split_dots : (s : Bytes) → join_dots (split_dots s) ≡ s
unfolding split_dots
join_dots-split_dots s = join_dots-split_from [] s
