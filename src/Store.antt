-- ===== src/Store.antt =====
-- internal/store.go: the store that a reflector writes to, with the metrics of each object under the
-- object's UID. Each method holds the store's mutex from its first to its last statement, so a
-- method is one step here. The process does not survive a panic, so no state comes back with one.
pub mod Balance
pub mod Contents
pub mod Shape
pub mod Growth
pub mod History
pub mod Names
use mathlib.Core.Path.{subst}
use crdmetrics.Prelude.{
  ok-injective, Result-cases, inl, inr, ℕ, String, Bytes, Bool, Option, none, some, List, [], ◌∷◌,
  ◌++◌, if◌then◌else◌, Error, not_an_object, Result, ok, err, panic, ◌>>=◌, ◌==◌, string_eq, ◌≡◌,
}
use crdmetrics.Prelude.Map.{Map, insert, remove}
use crdmetrics.Family.{FamilyType, ResolverType, Unstructured, Libs, raw_from, resolver_type_none}

-- the anonymous struct of the field Selectors
pub record Selectors : Type 0 where
  pub label : String
  pub field : String

pub record StoreType : Type 0 where
  pub metrics : Map String (List Bytes)
  pub headers : List Bytes
  pub group : Bytes
  pub version : Bytes
  pub kind : Bytes
  pub resource_name : Bytes
  pub selectors : Selectors
  pub families : List FamilyType
  pub resolver : ResolverType
  pub label_keys : List Bytes
  pub label_values : List Bytes

-- newStore; the fields that it does not name are empty
unfoldable pub new_store :
    List Bytes → List FamilyType → ResolverType → List Bytes → List Bytes → StoreType
new_store headers families resolver label_keys label_values = record {
  metrics = [];
  headers = headers;
  group = [];
  version = [];
  kind = [];
  resource_name = [];
  selectors = record { label = ""; field = "" };
  families = families;
  resolver = resolver;
  label_keys = label_keys;
  label_values = label_values;
}

-- What the store asks of k8s.io/apimachinery about the object that it is handed:
-- `DefaultUnstructuredConverter.ToUnstructured` and `meta.Accessor` with `GetUID`. `none` is an
-- error.
pub record Objects : Type 1 where
  pub Object : Type 0
  pub to_unstructured : Object → Option Unstructured
  pub accessor_uid : Object → Option String
  -- both read `metadata.uid`
  pub same_uid :
      (o : Object) (u : Unstructured) → to_unstructured o ≡ some u → accessor_uid o ≡ some u.uid

-- what `Add` sets in a family before it makes the family's text
unfoldable pub inherit_family : StoreType → FamilyType → FamilyType
inherit_family s f = record f {
  resolver = if f.resolver == resolver_type_none then s.resolver else f.resolver;
  label_keys = f.label_keys ++ s.label_keys;
  label_values = f.label_values ++ s.label_values;
}

module _ (libs : Libs) where
  -- the loop over the families: the families as it leaves them, and `familyMetrics`
  unfoldable pub add_families :
      StoreType → Unstructured → List FamilyType → Result (List FamilyType × List Bytes)
  add_families s u [] = ok ([], [])
  add_families s u (f ∷ fs) = do
    (f', raw) ← raw_from libs (inherit_family s f) u
    (fs', raws) ← add_families s u fs
    ok (f' ∷ fs', raw ∷ raws)

  unfoldable pub add_unstructured : StoreType → Unstructured → Result StoreType
  add_unstructured s u = do
    (families', family_metrics) ← add_families s u s.families
    ok (record s { families = families'; metrics = insert u.uid family_metrics s.metrics })

  module _ (objects : Objects) where
    open objects use {Object, to_unstructured, accessor_uid}

    unfoldable pub add : StoreType → Object → Result StoreType
    add s o = elim (to_unstructured o) [ none ↦ err not_an_object | some u ↦ add_unstructured s u ]

    unfoldable pub update : StoreType → Object → Result StoreType
    update s o = add s o

module _ (objects : Objects) where
  open objects use {Object, accessor_uid}

  unfoldable pub delete : StoreType → Object → Result StoreType
  delete s o = elim (accessor_uid o) [
    | none ↦ err not_an_object
    | some uid ↦ ok (record s { metrics = remove uid s.metrics })
  ]

  -- the methods that do nothing
  unfoldable pub list : StoreType → List Object
  list s = []

  unfoldable pub list_keys : StoreType → List String
  list_keys s = []

  unfoldable pub get : StoreType → Object → Option Object
  get s o = none

  unfoldable pub get_by_key : StoreType → String → Option Object
  get_by_key s key = none

  unfoldable pub replace : StoreType → List Object → String → Result StoreType
  replace s items resource_version = ok s

unfoldable pub resync : StoreType → Result StoreType
resync s = ok s

-- The calls that a reflector makes of its `cache.Store`.
pub data Call (O : Type 0) : Type 0 where
  add_call update_call delete_call : O → Call O
  replace_call : List O → String → Call O
  resync_call : Call O

module _ (libs : Libs) (objects : Objects) where
  open objects use {Object}

  unfoldable pub call : StoreType → Call Object → Result StoreType
  unfolding replace resync
  call s (add_call o) = add libs objects s o
  call s (update_call o) = update libs objects s o
  call s (delete_call o) = delete objects s o
  call s (replace_call items resource_version) = replace objects s items resource_version
  call s resync_call = resync s

  -- The calls one after the other. The reflector logs an error and goes on.
  unfoldable pub serve : StoreType → List (Call Object) → Result StoreType
  serve s [] = ok s
  serve s (c ∷ cs) = elim (call s c) [ ok s' ↦ serve s' cs | err e ↦ serve s cs | panic ↦ panic ]

  -- A property that every call keeps holds after any calls.
  pub serve_induction {ℓ} :
      (P : StoreType → Type ℓ)
      → ((s s' : StoreType) (c : Call Object) → call s c ≡ ok s' → P s → P s')
      → (cs : List (Call Object)) (s s' : StoreType) → serve s cs ≡ ok s'
      → P s
      → P s'
  unfolding serve
  serve_induction P keep [] s s' e h = subst P (ok-injective e) h
  serve_induction P keep (c ∷ cs) s s' e h = elim (Result-cases (call s c)) [
    | inl (t, p) ↦ serve_induction P keep cs t s' (rw (p, serve) at e) (keep s t c p h)
    | inr (inl (x, p)) ↦ serve_induction P keep cs s s' (rw (p, serve) at e) h
    | inr (inr p) ↦ let e' = rw (p, serve) at e in cc e'
  ]

  pub serve-cons :
      (s t : StoreType) (c : Call Object) (cs : List (Call Object))
      → call s c ≡ ok t
      → serve s (c ∷ cs) ≡ serve t cs
  unfolding serve
  serve-cons s t c cs p = rw (p, serve)

  pub serve-cons_err :
      (s : StoreType) (c : Call Object) (cs : List (Call Object)) {x : Error}
      → call s c ≡ err x
      → serve s (c ∷ cs) ≡ serve s cs
  unfolding serve
  serve-cons_err s c cs p = rw (p, serve)
