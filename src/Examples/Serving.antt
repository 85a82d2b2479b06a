-- ===== src/Examples/Serving.antt =====
-- The theorems on internal/store.go, internal/writer.go, internal/builder.go and internal/config.go,
-- applied.
use mathlib.Core.List.{Perm, foldl}
use crdmetrics.Prelude.{
  String, Bytes, codes, true, false, ◌≡◌, refl, none, some, List, [], ◌∷◌, length, ◌==◌, string_eq,
  arith, All, if◌then◌else◌, ok, panic, map, ◌+◌, ◌*◌,
}
use crdmetrics.Prelude.Map.{lookup}
use crdmetrics.Floats.{IsOneLine}
use crdmetrics.Family.{FamilyType, resolver_type_none}
use crdmetrics.Metric.{MetricType}
use crdmetrics.Store.{
  StoreType, Call, add_call, update_call, delete_call, replace_call, resync_call, serve, add,
  add_families,
}
use crdmetrics.Store.Balance.{IsBalanced, IsBalancedFamily, add-ok, added}
use crdmetrics.Store.Shape.{IsShaped, serve-IsShaped}
use crdmetrics.Store.Contents.{names, IsServable, lookup-add}
use crdmetrics.Store.Growth.{HasMetric, label_keys_growth}
use crdmetrics.Store.History.{served, is_served, serve-served}
use crdmetrics.Builder.{Gvkr, Reflector, build_store}
use crdmetrics.Builder.Headers.{build_store_serves}
use crdmetrics.Writer.{write_all_to}
use crdmetrics.Writer.Chunks.{chunks, write_chunks, write_all_to-chunks, write_all_to_perm}
use crdmetrics.Config.{Process, Configurer, StoreConfiguration, stores_of, build, drop_stores}
use crdmetrics.Config.Stores.{IsRebuilt, build-drop_stores}
use crdmetrics.Examples.{libs, objects, pod, metric, family, buffer, in_order}

abbrev pub target : Gvkr
target = record {
  group = codes "example.com";
  version = codes "v1";
  kind = codes "Foo";
  resource = codes "foos";
}

abbrev built : StoreType × Reflector
built =
    build_store 0 target (family ∷ []) true "app=web" "" resolver_type_none (codes "cluster" ∷ [])
      (codes "west" ∷ [])

pub name_one_line : All IsOneLine (names (family ∷ []))
name_one_line = (ground arith, tt)

built_serves : IsShaped built.0 × IsServable built.0
built_serves =
    build_store_serves 0 target (family ∷ []) true "app=web" "" resolver_type_none
      (codes "cluster" ∷ []) (codes "west" ∷ []) name_one_line

pub family_balanced : All IsBalancedFamily (family ∷ [])
family_balanced = (record { own = omega arith; metrics = (omega arith, tt) }, tt)

-- A store as a configuration describes it.
abbrev pub store : StoreType
store = record {
  metrics = [];
  headers = codes "# HELP\n# TYPE" ∷ [];
  group = codes "example.com";
  version = codes "v1";
  kind = codes "Foo";
  resource_name = codes "foos";
  selectors = record { label = ""; field = "" };
  families = family ∷ [];
  resolver = "";
  label_keys = codes "cluster" ∷ [];
  label_values = codes "west" ∷ [];
}

pub store_balanced : IsBalanced store
store_balanced = record { own = omega arith; families = family_balanced }

store_shaped : IsShaped store
store_shaped = record { families_headers = refl; entries = tt }

store_servable : IsServable store
store_servable = record { named = name_one_line; entries = tt }

abbrev calls : List (Call objects.Object)
calls =
    add_call (some pod)
    ∷ add_call none
    ∷ replace_call [] "7"
    ∷ delete_call (some pod)
    ∷ update_call (some pod)
    ∷ resync_call
    ∷ []

serve-served_example :
    (s' : StoreType) × IsBalanced s'
    × (serve libs objects store calls ≡ ok s')
    × (is_served objects "uid-1" s' ≡ foldl (served objects "uid-1") false calls)
unfolding lookup
serve-served_example = serve-served libs objects "uid-1" calls store store_balanced

-- the store after the calls
after : (s' : StoreType) × (serve libs objects store calls ≡ ok s')
after = let (s', b, e, h) = serve-served libs objects "uid-1" calls store store_balanced in (s', e)

-- the store after one Add
one : (raws : List Bytes) × (add libs objects store (some pod) ≡ ok (added store pod raws))
one = add-ok libs objects store (some pod) pod store_balanced refl

lookup-add_example :
    (raws : List Bytes) × (add_families libs store pod (family ∷ [])
      ≡ ok ((added store pod one.0).families, raws))
    × ((k : String)
        → lookup k (added store pod one.0).metrics
          ≡ (if "uid-1" == k then some raws else lookup k store.metrics))
    × ((added store pod one.0).headers ≡ store.headers)
    × ((added store pod one.0).label_keys ≡ store.label_keys)
    × ((added store pod one.0).label_values ≡ store.label_values)
    × ((added store pod one.0).resolver ≡ store.resolver)
    × ((added store pod one.0).selectors ≡ store.selectors)
    × ((added store pod one.0).group ≡ store.group)
    × ((added store pod one.0).version ≡ store.version)
    × ((added store pod one.0).kind ≡ store.kind)
    × ((added store pod one.0).resource_name ≡ store.resource_name)
lookup-add_example = lookup-add libs objects store (added store pod one.0) (some pod) pod refl one.1

abbrev pods : List objects.Object
pods = some pod ∷ some pod ∷ some pod ∷ []

thrice : (s' : StoreType) × (serve libs objects store (map add_call pods) ≡ ok s')
thrice =
    let (s', b, e, h) =
      serve-served libs objects "uid-1" (map add_call pods) store store_balanced in
    (s', e)

label_keys_growth_example :
    (f' : FamilyType) × (m' : MetricType) × HasMetric thrice.0 0 0 f' m'
    × (length f'.label_keys ≡ 1 + 3 * 1)
    × (2 * length m'.label_keys ≡ 2 * 1 + 2 * (3 * 1) + 3 * (4 * 1))
label_keys_growth_example =
    label_keys_growth libs objects pods store thrice.0 0 0 family metric store_balanced
      ((pod, refl), ((pod, refl), ((pod, refl), tt))) (refl, refl) thrice.1

write_all_to-chunks_example :
    write_all_to buffer in_order (store ∷ built.0 ∷ []) []
    ≡ ok (write_chunks buffer (chunks in_order (store ∷ built.0 ∷ [])) [])
write_all_to-chunks_example =
    write_all_to-chunks buffer in_order (store ∷ built.0 ∷ []) []
      (store_shaped, (built_serves.0, tt))

write_all_to_perm_example :
    (xs ys : List Bytes) × Perm xs ys
    × (write_all_to buffer in_order (after.0 ∷ []) [] ≡ ok (write_chunks buffer xs []))
    × (write_all_to buffer in_order (after.0 ∷ []) [] ≡ ok (write_chunks buffer ys []))
write_all_to_perm_example =
    write_all_to_perm buffer in_order in_order (after.0 ∷ []) []
      (serve-IsShaped libs objects calls store after.0 after.1 store_shaped, tt)

-- The same store as the YAML decoder leaves it.
abbrev pub entry : StoreConfiguration
entry = record {
  group = codes "example.com";
  version = codes "v1";
  kind = codes "Foo";
  resource_name = codes "foos";
  selectors = record { label = ""; field = "" };
  families = some family ∷ [];
  resolver = "";
  label_keys = codes "cluster" ∷ [];
  label_values = codes "west" ∷ [];
}

-- what the pointer to it points to
abbrev pub loaded : StoreType
loaded = record store { headers = [] }

-- A resource that has one store, configured with two.
abbrev configurer : Configurer
configurer = record {
  configuration = record { stores = some entry ∷ some entry ∷ [] };
  resource_uid = "resource-1";
}

abbrev process : Process
process = record {
  heap = built.0 ∷ [];
  uid_to_stores = ("resource-1", 0 ∷ []) ∷ [];
  reflectors = built.1 ∷ [];
}

build-drop_stores_example :
    (stores_of configurer.configuration.stores ≡ none
      → build configurer (drop_stores "resource-1" process) true ≡ panic)
    × ((scs : List StoreType)
        → stores_of configurer.configuration.stores ≡ some scs
        → (q : Process) × (build configurer (drop_stores "resource-1" process) true ≡ ok q)
          × IsRebuilt "resource-1" true scs process q)
build-drop_stores_example = build-drop_stores configurer true process
