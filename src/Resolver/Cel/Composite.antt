-- ===== src/Resolver/Cel/Composite.antt =====
-- pkg/resolver/cel.go: the labels that `resolveList` and `resolveMap` make of a composite output.
use mathlib.Core.Path.{subst}
use crdmetrics.Prelude.{
  itoa-injective, List, ◌∷◌, ==_iff, ℕ, zero, suc, ◌+◌, ◌^◌, ◌≤◌, ◌<◌, Bytes, false, Option, none,
  some, [], itoa, if◌then◌else◌, bytes_eq, ◌==◌, ==_ne, ==_symm, ◌≡◌, refl, sym, ap, ◌∙◌, arith,
  Bool-cases, inl, inr,
}
use crdmetrics.Prelude.Map.{Map, insert, lookup, lookup-insert_ne, lookup-insert_self}
use crdmetrics.Floats.{Floats}
use crdmetrics.Resolver.Values.{
  ℤ, Fields, object, int64, end, field, Value, Items, list, nil, cons, sprint,
}
use crdmetrics.Resolver.Cel.{
  resolve_fields, resolve_map, go_value, is_primitive, resolve_items, resolve_list, CelLib, Val,
  list_type, resolve, of_output, by_type,
}

abbrev pub length_items : Items → ℕ
length_items nil = 0
length_items (cons v xs) = suc (length_items xs)

abbrev pub get_item? : Items → ℕ → Option Value
get_item? nil i = none
get_item? (cons v xs) zero = some v
get_item? (cons v xs) (suc i) = get_item? xs i

itoa-ne : (a b : ℕ) → a < b → b < 10 ^ 20 → (itoa a == itoa b) ≡ false
itoa-ne a b h k =
    ==_ne (itoa a) (itoa b) (λ e. absurd (omega (arith, itoa-injective a b (omega arith) k e)))

module _ (floats : Floats) where
  -- The text under which a caller finds a value: nothing if the value is not of a primitive type.
  abbrev pub label : Value → Option Bytes
  label v = if is_primitive v then some (sprint floats v) else none

  -- one round of either loop leaves the other keys alone
  lookup-round_ne :
      (v : Value) (k j : Bytes) (m : Map Bytes Bytes)
      → (k == j) ≡ false
      → lookup j (if is_primitive v then insert k (sprint floats v) m else m) ≡ lookup j m
  lookup-round_ne v k j m h = elim (Bool-cases (is_primitive v)) [
    | inl p ↦ rw p (lookup-insert_ne k j (sprint floats v) m h)
    | inr p ↦ rw p refl
  ]

  lookup-round_self :
      (v : Value) (k : Bytes) (m : Map Bytes Bytes)
      → lookup k m ≡ none
      → lookup k (if is_primitive v then insert k (sprint floats v) m else m) ≡ label v
  lookup-round_self v k m h = elim (Bool-cases (is_primitive v)) [
    | inl p ↦ rw p (lookup-insert_self k (sprint floats v) m)
    | inr p ↦ rw p h
  ]

  lookup-resolve_items_before :
      (i j : ℕ) (xs : Items) (m : Map Bytes Bytes)
      → j < i
      → i + length_items xs ≤ 10 ^ 20
      → lookup (itoa j) (resolve_items floats i xs m) ≡ lookup (itoa j) m
  unfolding resolve_items
  lookup-resolve_items_before i j nil m h k = refl
  lookup-resolve_items_before i j (cons v xs) m h k =
      lookup-resolve_items_before (i + 1) j xs _ (omega arith) (omega arith)
      ∙ lookup-round_ne v (itoa i) (itoa j) m
          (==_symm (itoa j) (itoa i) (itoa-ne j i h (omega arith)))

  abbrev label? : Option Value → Option Bytes
  label? none = none
  label? (some v) = label v

  lookup-resolve_items :
      (i d : ℕ) (xs : Items) (m : Map Bytes Bytes)
      → i + length_items xs ≤ 10 ^ 20
      → i + d < 10 ^ 20
      → ((j : ℕ) → i ≤ j → j < 10 ^ 20 → lookup (itoa j) m ≡ none)
      → lookup (itoa (i + d)) (resolve_items floats i xs m) ≡ label? (get_item? xs d)
  unfolding resolve_items
  lookup-resolve_items i d nil m h k fresh = fresh (i + d) (omega arith) k
  lookup-resolve_items i zero (cons v xs) m h k fresh =
      let e : i + 0 ≡ i = omega arith in
      rw e (
        lookup-resolve_items_before (i + 1) i xs _ (omega arith) (omega arith)
        ∙ lookup-round_self v (itoa i) m (fresh i (omega arith) (omega arith)))
  lookup-resolve_items i (suc d) (cons v xs) m h k fresh =
      let e : i + suc d ≡ i + 1 + d = omega arith in
      rw e (
        lookup-resolve_items (i + 1) d xs _ (omega arith) (omega arith) (λ j le lt.
          lookup-round_ne v (itoa i) (itoa j) m (itoa-ne i j (omega arith) lt)
          ∙ fresh j (omega arith) lt))

  -- If the output is a list with fewer than 10^20 elements, the labels are named after the indices:
  -- under the decimal text of `i` stands the text of the element at `i` if it is of one of the five
  -- primitive types, and nothing if it is of another type, int64 included, or if there is none.
  pub lookup-resolve_list :
      (xs : Items) (i : ℕ)
      → length_items xs ≤ 10 ^ 20
      → i < 10 ^ 20
      → (m : Map Bytes Bytes) × (resolve_list floats (go_value (list xs)) ≡ some m)
        × (lookup (itoa i) m ≡ label? (get_item? xs i))
  unfolding resolve_list
  lookup-resolve_list xs i h k =
      let e : 0 + i ≡ i = omega arith in
      (
        resolve_items floats 0 xs [],
        refl,
        subst (λ (n : ℕ). lookup (itoa n) (resolve_items floats 0 xs []) ≡ label? (get_item? xs i))
            e
            (lookup-resolve_items 0 i xs [] (omega arith) (omega arith)
              (λ j le lt. unfold lookup in refl)),
      )

abbrev pub get_field? : Fields → Bytes → Option Value
get_field? end k = none
get_field? (field j v fs) k = if j == k then some v else get_field? fs k

-- A Go map: no key has two entries.
abbrev pub IsMap : Fields → Type 0
IsMap end = Unit
IsMap (field k v fs) = (get_field? fs k ≡ none) × IsMap fs

module _ (floats : Floats) where
  lookup-resolve_fields_absent :
      (k : Bytes) (fs : Fields) (m : Map Bytes Bytes)
      → get_field? fs k ≡ none
      → lookup k (resolve_fields floats fs m) ≡ lookup k m
  unfolding resolve_fields
  lookup-resolve_fields_absent k end m h = refl
  lookup-resolve_fields_absent k (field j v fs) m h = elim (Bool-cases (j == k)) [
    | inl e ↦ let h' = rw e at h in cc h'
    | inr e ↦ lookup-resolve_fields_absent k fs _ (rw e at h) ∙ lookup-round_ne floats v j k m e
  ]

  lookup-resolve_fields :
      (k : Bytes) (fs : Fields) (m : Map Bytes Bytes)
      → IsMap fs
      → lookup k m ≡ none
      → lookup k (resolve_fields floats fs m) ≡ label? floats (get_field? fs k)
  unfolding resolve_fields
  lookup-resolve_fields k end m _ h = h
  lookup-resolve_fields k (field j v fs) m (fresh, rest) h = elim (Bool-cases (j == k)) [
    | inl e ↦ rw e (
        lookup-resolve_fields_absent k fs _
          (subst (λ (t : Bytes). get_field? fs t ≡ none) ((==_iff j k).0 e) fresh)
        ∙ subst
            (λ t.
              lookup k (if is_primitive v then insert t (sprint floats v) m else m)
              ≡ label floats v)
            (sym ((==_iff j k).0 e)) (lookup-round_self floats v k m h))
    | inr e ↦ rw e (lookup-resolve_fields k fs _ rest (lookup-round_ne floats v j k m e ∙ h))
  ]

  -- If the output is a map, each key whose value is of one of the five primitive types is a label
  -- with the value's text, and no other key is one. The order in which Go visits the map does not
  -- matter.
  pub lookup-resolve_map :
      (fs : Fields) (k : Bytes)
      → IsMap fs
      → (m : Map Bytes Bytes) × (resolve_map floats (go_value (object fs)) ≡ some m)
        × (lookup k m ≡ label? floats (get_field? fs k))
  unfolding resolve_map
  lookup-resolve_map fs k h =
      (resolve_fields floats fs [], refl, lookup-resolve_fields k fs [] h (unfold lookup in refl))

-- A list of integers of a custom resource: the decoder of Kubernetes makes them int64.
abbrev pub int64_items : List ℤ → Items
int64_items [] = nil
int64_items (n ∷ ns) = cons (int64 n) (int64_items ns)

module _ (floats : Floats) where
  resolve_items_of_int64 :
      (i : ℕ) (ns : List ℤ) (m : Map Bytes Bytes) → resolve_items floats i (int64_items ns) m ≡ m
  unfolding resolve_items is_primitive
  resolve_items_of_int64 i [] m = refl
  resolve_items_of_int64 i (n ∷ ns) m = resolve_items_of_int64 (i + 1) ns m

  resolve_list_of_int64 :
      (ns : List ℤ) → resolve_list floats (go_value (list (int64_items ns))) ≡ some []
  unfolding resolve_list
  resolve_list_of_int64 ns = ap some (resolve_items_of_int64 0 ns [])

-- A query that compiles and whose output is a list of int64 resolves to no label at all, however long
-- the list is: not to one for each element, and not to the query itself.
pub resolve_of_int64 :
    (floats : Floats) (cel : CelLib) (query : Bytes) (o : Fields) (env : cel.Env) (ast : cel.Ast)
    (program : cel.Program) (out : Val) (ns : List ℤ)
    → cel.new_env ≡ some env
    → cel.parse env query ≡ some ast
    → cel.program env ast ≡ some program
    → cel.eval program o ≡ some out
    → out.type_of ≡ list_type
    → out.value ≡ go_value (list (int64_items ns))
    → resolve floats cel query o ≡ []
unfolding resolve of_output by_type
resolve_of_int64 floats cel query o env ast program out ns has_env parsed made ran is_list
      is_value =
    rw (has_env, parsed, made, ran, is_list, is_value) (rw (resolve_list_of_int64 floats ns) refl)
