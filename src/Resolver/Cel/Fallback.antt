-- ===== src/Resolver/Cel/Fallback.antt =====
-- pkg/resolver/cel.go: what `Resolve` returns when the query has no value of a primitive type.
use crdmetrics.Prelude.{
  List, ◌≢◌, sym, ap, ◌∙◌, Bool-cases, ◌≡◌, Option, none, some, [], ◌∷◌, Bytes, arith, refl,
  bytes_eq, ==_refl, inl, inr, Bool, true, false,
}
use crdmetrics.Prelude.Map.{lookup}
use crdmetrics.Floats.{Floats}
use crdmetrics.Resolver.Values.{Fields}
use crdmetrics.Resolver.Cel.{
  CelLib, CelType, Val, map_type, list_type, other_type, resolve, of_output, by_type,
}

-- a chain of calls each of which may fail
infixl 5 ◌>>=◌
abbrev ◌>>=◌ {ℓ κ} : {A : Type ℓ} {B : Type κ} → Option A → (A → Option B) → Option B
none >>= f = none
some a >>= f = f a

-- The output of a query: environment, parser, compiler and evaluation all succeed.
abbrev pub output : CelLib → Bytes → Fields → Option Val
output cel query o = do
  env ← cel.new_env
  ast ← cel.parse env query
  p ← cel.program env ast
  cel.eval p o

abbrev pub is_primitive_type : CelType → Bool
is_primitive_type map_type = false
is_primitive_type list_type = false
is_primitive_type other_type = false
is_primitive_type _ = true

module _ (floats : Floats) (query : Bytes) where
  of_result : Option Val → List (Bytes × Bytes)
  of_result none = (query, query) ∷ []
  of_result (some out) = of_output floats query out

  lookup-of_output :
      (out : Val)
      → is_primitive_type out.type_of ≡ true
      → lookup query (of_output floats query out) ≢ none
  unfolding of_output by_type lookup
  lookup-of_output out h e = ground (arith, ==_refl query)

  lookup-of_result :
      (r : Option Val)
      → lookup query (of_result r) ≡ none
      → (out : Val) × (r ≡ some out) × (is_primitive_type out.type_of ≡ false)
  unfolding of_result lookup
  lookup-of_result none h = cc (h, ==_refl query)
  lookup-of_result (some out) h = elim (Bool-cases (is_primitive_type out.type_of)) [
    | inl e ↦ absurd (lookup-of_output out e h)
    | inr e ↦ (out, refl, e)
  ]

module _ (floats : Floats) (cel : CelLib) (query : Bytes) (o : Fields) where
  resolve-output : resolve floats cel query o ≡ of_result floats query (output cel query o)
  unfolding resolve of_result
  resolve-output = ground arith

  -- The result has no entry under the query itself only if the query was parsed, compiled and
  -- evaluated to a value that is a map, a list or of a type that the code does not support. In every
  -- other case, each failure included, a caller finds the query.
  pub resolve-misses :
      lookup query (resolve floats cel query o) ≡ none
      → (out : Val) × (output cel query o ≡ some out) × (is_primitive_type out.type_of ≡ false)
  resolve-misses h =
      lookup-of_result floats query (output cel query o)
        (sym (ap (lookup query) resolve-output) ∙ h)

  -- Where any of the four calls fails, the result is the query under itself.
  pub resolve_of_failure :
      output cel query o ≡ none → resolve floats cel query o ≡ (query, query) ∷ []
  unfolding of_result
  resolve_of_failure h = resolve-output ∙ ap (of_result floats query) h
