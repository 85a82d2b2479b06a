-- ===== src/Resolver/Cel.antt =====
-- pkg/resolver/cel.go: a query is an expression of the Common Expression Language over the object,
-- which it calls `o`.
pub mod Fallback
pub mod Composite
use crdmetrics.Prelude.{
  ℕ, zero, suc, ◌+◌, Bytes, Bool, true, false, Option, none, some, List, [], ◌∷◌, itoa, codes,
  if◌then◌else◌, bytes_eq,
}
use crdmetrics.Prelude.Map.{Map, insert, lookup}
use crdmetrics.Floats.{Floats}
use crdmetrics.Resolver.Values.{
  Value, Items, Fields, null, bool, int, uint, float64, string, list, object, nil, cons, end, field,
  sprint,
}

-- What `out.Type()` is compared with; every other type is `other`.
pub data CelType : Type 0 where
  bool_type double_type int_type string_type uint_type map_type list_type other_type : CelType

-- What `out.Value()` holds: a Go value of the kinds above, or any other one, of which the code can
-- only ask the text that `%v` prints.
pub data Native : Type 0 where
  go_value : Value → Native
  opaque : Bytes → Native

-- ref.Val
pub record Val : Type 0 where
  pub type_of : CelType
  pub value : Native

-- The calls of github.com/google/cel-go, which is not this repository's code. `none` is an error.
-- The program is built with the cost limit 1000000, and evaluation past it is an error.
pub record CelLib : Type 1 where
  pub Env : Type 0
  pub Ast : Type 0
  pub Program : Type 0
  pub new_env : Option Env
  pub parse : Env → Bytes → Option Ast
  pub program : Env → Ast → Option Program
  pub eval : Program → Fields → Option Val

-- `costEstimator.CallCost`: one, and what the empty table of custom costs holds for the function
unfoldable pub call_cost : Bytes → ℕ
unfolding lookup
call_cost function =
    let custom_functions_costs : Map Bytes ℕ = [] in
    elim (lookup function custom_functions_costs) [ none ↦ 1 + 0 | some c ↦ 1 + c ]

-- the types of `case string, int, uint, float64, bool`; int64, which the objects' integers have,
-- is not among them
unfoldable pub is_primitive : Value → Bool
is_primitive (string s) = true
is_primitive (int i) = true
is_primitive (uint n) = true
is_primitive (float64 x) = true
is_primitive (bool b) = true
is_primitive _ = false

module _ (floats : Floats) where
  sprint_native : Native → Bytes
  sprint_native (go_value v) = sprint floats v
  sprint_native (opaque t) = t

  -- the loop of `resolveList` from index `i` on
  unfoldable pub resolve_items : ℕ → Items → Map Bytes Bytes → Map Bytes Bytes
  resolve_items i nil m = m
  resolve_items i (cons v xs) m =
      resolve_items (i + 1) xs (if is_primitive v then insert (itoa i) (sprint floats v) m else m)

  -- `none` is the nil map
  unfoldable pub resolve_list : Native → Option (Map Bytes Bytes)
  resolve_list (go_value (list xs)) = some (resolve_items 0 xs [])
  resolve_list _ = none

  -- the loop of `resolveMap`
  unfoldable pub resolve_fields : Fields → Map Bytes Bytes → Map Bytes Bytes
  resolve_fields end m = m
  resolve_fields (field k v fs) m =
      resolve_fields fs (if is_primitive v then insert k (sprint floats v) m else m)

  unfoldable pub resolve_map : Native → Option (Map Bytes Bytes)
  resolve_map (go_value (object fs)) = some (resolve_fields fs [])
  resolve_map _ = none

  -- the `switch` on the output's type; `default` leaves the map empty
  unfoldable pub by_type : Bytes → CelType → Native → Option (Map Bytes Bytes)
  unfolding sprint_native
  by_type query map_type v = resolve_map v
  by_type query list_type v = resolve_list v
  by_type query other_type v = some []
  by_type query _ v = some ((query, sprint_native v) ∷ [])

  -- the end of `Resolve`: a nil map is replaced
  abbrev or_query : Bytes → Option (Map Bytes Bytes) → Map Bytes Bytes
  or_query query none = (query, query) ∷ []
  or_query query (some m) = m

  unfoldable pub of_output : Bytes → Val → Map Bytes Bytes
  of_output query out = or_query query (by_type query out.type_of out.value)

module _ (floats : Floats) (cel : CelLib) where
  open cel use {new_env, parse, program, eval}

  unfoldable pub resolve : Bytes → Fields → Map Bytes Bytes
  resolve query o = elim new_env [
    | none ↦ (query, query) ∷ []
    | some env ↦ elim (parse env query) [
      | none ↦ (query, query) ∷ []
      | some ast ↦ elim (program env ast) [
        | none ↦ (query, query) ∷ []
        | some p ↦ elim (eval p o) [
          | none ↦ (query, query) ∷ []
          | some out ↦ of_output floats query out
        ]
      ]
    ]
  ]
