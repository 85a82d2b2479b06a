-- ===== src/Builder/Headers.antt =====
-- internal/builder.go, `buildStore`: the store that it builds is one that can be served.
use mathlib.Core.Path.{ap₂}
use crdmetrics.Prelude.{
  ◌≤◌, String, Bytes, codes, Bool, ◌≡◌, refl, sym, ap, ◌∙◌, List, [], ◌∷◌, ◌++◌, append_assoc, map,
  length, length-map, All, if◌then◌else◌, ◌==◌, string_eq,
}
use crdmetrics.Floats.{IsOneLine}
use crdmetrics.Family.{
  FamilyType, ResolverType, resolver_type_none, resolver_type_unstructured, build_headers,
  metric_type_gauge,
}
use crdmetrics.Store.{StoreType, new_store}
use crdmetrics.Store.Shape.{IsShaped}
use crdmetrics.Store.Balance.{IsBalanced, IsBalancedFamily}
use crdmetrics.Store.Contents.{IsServable, names}
use crdmetrics.Builder.{Gvkr, Ref, Reflector, build_all_headers, build_store, default_resolver}

-- The header of a family of this name and help text: its help line and its type line.
abbrev pub header_of : Bytes → Bytes → Bytes
header_of name help =
    (codes "# HELP kube_customresource_" ++ (name ++ (codes " " ++ help)))
    ++ codes "\n# TYPE kube_customresource_"
    ++ (name ++ codes " gauge")

header_lem : (f : FamilyType) → (build_headers f).1 ≡ header_of f.name f.help
unfolding build_headers
header_lem f = simp append_assoc

type_lem : (f : FamilyType) → (build_headers f).0 ≡ record f { t = metric_type_gauge }
unfolding build_headers
type_lem f = refl

abbrev typed : FamilyType → FamilyType
typed f = record f { t = metric_type_gauge }

build_all_headers_lem :
    (fs : List FamilyType)
    → build_all_headers fs ≡ (map typed fs, map (λ (f : FamilyType). header_of f.name f.help) fs)
unfolding build_all_headers
build_all_headers_lem [] = refl
build_all_headers_lem (f ∷ fs) = rw (build_all_headers_lem fs) (
    ap₂
      (λ (g : FamilyType) (h : Bytes).
        (g ∷ map typed fs, h ∷ map (λ (f : FamilyType). header_of f.name f.help) fs))
      (type_lem f) (header_lem f))

map-typed-names : (fs : List FamilyType) → names (map typed fs) ≡ names fs
map-typed-names [] = refl
map-typed-names (f ∷ fs) = ap (◌∷◌ f.name) (map-typed-names fs)

map-typed-IsBalanced :
    (fs : List FamilyType) → All IsBalancedFamily fs → All IsBalancedFamily (map typed fs)
map-typed-IsBalanced [] _ = tt
map-typed-IsBalanced (f ∷ fs) (h, hs) =
    (record { own = h.own; metrics = h.metrics }, map-typed-IsBalanced fs hs)

module _ (ref : Ref) (target : Gvkr) (fs : List FamilyType) (try_no_cache : Bool)
    (label_selector field_selector : String) (resolver : ResolverType)
    (label_keys label_values : List Bytes) where
  abbrev built : StoreType × Reflector
  built =
      build_store ref target fs try_no_cache label_selector field_selector resolver label_keys
        label_values

  pub build_store_store :
      built.0
      ≡ new_store
          (map (λ (f : FamilyType). header_of f.name f.help) fs)
          (map typed fs)
          (default_resolver resolver)
          label_keys
          label_values
  unfolding build_store
  build_store_store =
      ap
        (λ (p : List FamilyType × List Bytes).
          new_store p.1 p.0 (default_resolver resolver) label_keys label_values)
        (build_all_headers_lem fs)

  -- The store that is built for a configuration is empty and has one header for each family, in
  -- order: its HELP line with the name and help text, and its TYPE line, which says gauge. It keeps
  -- the families' names and the store's own labels, and its resolver is the configured one or, where
  -- none is configured, the one for unstructured objects.
  pub build_store_headers :
      (built.0.headers ≡ map (λ (f : FamilyType). header_of f.name f.help) fs)
      × (names built.0.families ≡ names fs)
      × (built.0.metrics ≡ [])
      × (built.0.label_keys ≡ label_keys)
      × (built.0.label_values ≡ label_values)
      × (built.0.resolver
          ≡ (if resolver == resolver_type_none then resolver_type_unstructured else resolver))
  build_store_headers =
      rw build_store_store
        (unfold new_store default_resolver in (refl, map-typed-names fs, refl, refl, refl, refl))

  pub build_store-IsShaped : IsShaped built.0
  build_store-IsShaped = rw build_store_store (
      unfold new_store in
      record {
        families_headers =
            length-map typed fs ∙ sym (length-map (λ (f : FamilyType). header_of f.name f.help) fs);
        entries = tt;
      })

  -- If no family name holds a line break, the built store meets what serving it relies on: one text
  -- for each header and object, each made of its family's lines.
  pub build_store_serves : All IsOneLine (names fs) → IsShaped built.0 × IsServable built.0
  build_store_serves h = (
    build_store-IsShaped,
    rw build_store_store
        (unfold new_store in record { named = rw (map-typed-names fs) h; entries = tt }),
  )

  -- If the configured store, its families and their metrics each have not more label values than
  -- label keys, and no pointer to a metric is nil, so have those of the built store: no sequence of calls of its methods panics.
  pub build_store-IsBalanced :
      length label_values ≤ length label_keys → All IsBalancedFamily fs → IsBalanced built.0
  build_store-IsBalanced h hs =
      rw build_store_store
        (unfold new_store in record { own = h; families = map-typed-IsBalanced fs hs })
