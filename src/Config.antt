-- ===== src/Config.antt =====
-- internal/config.go: from a resource's configuration to its stores, in the state that the handlers
-- and the server of the process share.
pub mod Stores
pub mod Change
use Prim.Native.String.{◌++◌ as str_append}
use crdmetrics.Prelude.{
  ℕ, String, Bool, true, false, Option, none, some, List, [], ◌∷◌, ◌++◌, length, if◌then◌else◌,
  Error, bad_yaml, Bytes, map, Result, ok, or_panic, ◌>>=◌, ◌==◌, string_eq,
}
use crdmetrics.Prelude.Map.{Map, lookup, insert, remove}
use crdmetrics.Store.{StoreType, Selectors}
use crdmetrics.Family.{FamilyType, ResolverType}
use mathlib.Core.Option
use crdmetrics.Builder.{Ref, Gvkr, Reflector, build_store}

-- A `StoreType` as the YAML decoder leaves it. `Families` is a slice of pointers, of which a null entry
-- of the text leaves a nil one.
pub record StoreConfiguration : Type 0 where
  pub group : Bytes
  pub version : Bytes
  pub kind : Bytes
  pub resource_name : Bytes
  pub selectors : Selectors
  pub families : List (Option FamilyType)
  pub resolver : ResolverType
  pub label_keys : List Bytes
  pub label_values : List Bytes

-- `Stores` is a slice of pointers too.
pub record Configuration : Type 0 where
  pub stores : List (Option StoreConfiguration)

-- yaml.Unmarshal into a configuration, which is not this repository's code: the configuration as it
-- leaves it, and the text of the error, if there is one.
pub record Yaml : Type 0 where
  pub unmarshal : String → Configuration → Configuration × Option String

-- The stores that were ever built, `crdmetricsUIDToStores`, and the reflectors that run: one
-- goroutine each, started by `go reflector.Run(ctx.Done())` with the context of the whole process.
pub record Process : Type 0 where
  pub heap : List StoreType
  pub uid_to_stores : Map String (List Ref)
  pub reflectors : List Reflector

-- The configurer of a resource, of which it uses the UID.
pub record Configurer : Type 0 where
  pub configuration : Configuration
  pub resource_uid : String

unfoldable pub new_configurer : String → Configurer
new_configurer uid = record { configuration = record { stores = [] }; resource_uid = uid }

-- the `%w` of `parse`
abbrev wrap_error : Option String → Option Error
wrap_error none = none
wrap_error (some text) = some (bad_yaml (str_append "error unmarshalling configuration: " text))

-- parse
unfoldable pub parse : Yaml → Configurer → String → Configurer × Option Error
parse yaml c raw =
    let (configuration, e) = yaml.unmarshal raw c.configuration in
    (record c { configuration = configuration }, wrap_error e)

-- the value of a missing key is the nil slice
abbrev pub refs_of : Option (List Ref) → List Ref
refs_of none = []
refs_of (some refs) = refs

-- one round of the loop in `build`
unfoldable pub build_one : String → Bool → Process → StoreType → Process
build_one uid try_no_cache p sc =
    let ref = length p.heap in
    let target : Gvkr = record {
      group = sc.group;
      version = sc.version;
      kind = sc.kind;
      resource = sc.resource_name;
    } in
    let (s, reflector) =
      build_store ref target sc.families try_no_cache sc.selectors.label sc.selectors.field
        sc.resolver sc.label_keys sc.label_values in
    record {
      heap = p.heap ++ s ∷ [];
      uid_to_stores = insert uid (refs_of (lookup uid p.uid_to_stores) ++ ref ∷ []) p.uid_to_stores;
      reflectors = p.reflectors ++ reflector ∷ [];
    }

unfoldable pub build_stores : String → Bool → Process → List StoreType → Process
build_stores uid try_no_cache p [] = p
build_stores uid try_no_cache p (sc ∷ scs) =
    build_stores uid try_no_cache (build_one uid try_no_cache p sc) scs

-- A configurer without nil pointers: its resource's UID and its stores.
pub record Loaded : Type 0 where
  pub resource_uid : String
  pub stores : List StoreType

-- what pointers point to, if none is nil
abbrev pub pointees {ℓ} : {A : Type ℓ} → List (Option A) → Option (List A)
pointees [] = some []
pointees (none ∷ l) = none
pointees (some x ∷ l) = Option.map (λ xs. x ∷ xs) (pointees l)

abbrev pub with_families : StoreConfiguration → List FamilyType → StoreType
with_families sc families = record {
  metrics = [];
  headers = [];
  group = sc.group;
  version = sc.version;
  kind = sc.kind;
  resource_name = sc.resource_name;
  selectors = sc.selectors;
  families = families;
  resolver = sc.resolver;
  label_keys = sc.label_keys;
  label_values = sc.label_values;
}

abbrev pub store_of : Option StoreConfiguration → Option StoreType
store_of none = none
store_of (some sc) = Option.map (with_families sc) (pointees sc.families)

abbrev pub stores_of : List (Option StoreConfiguration) → Option (List StoreType)
stores_of scs = pointees (map store_of scs)

-- The configurer's stores, if neither a store nor a family of one is nil.
abbrev pub load : Configurer → Option Loaded
load c =
    Option.map (λ scs. record { resource_uid = c.resource_uid; stores = scs })
      (stores_of c.configuration.stores)

-- the loop of `build` over stores that are there
unfoldable pub build_loaded : Loaded → Process → Bool → Process
build_loaded l p try_no_cache = build_stores l.resource_uid try_no_cache p l.stores

-- build. The round of a nil store dereferences it, and that of a store with a nil family does so in
-- `buildHeaders`: the process panics, and nothing is left of what the rounds before have built.
unfoldable pub build : Configurer → Process → Bool → Result Process
build c p try_no_cache = do l ← or_panic (load c); ok (build_loaded l p try_no_cache)

-- `dropStores` of internal/events.go
unfoldable pub drop_stores : String → Process → Process
drop_stores uid p = elim (lookup uid p.uid_to_stores) [
  | none ↦ p
  | some refs ↦ record p { uid_to_stores = remove uid p.uid_to_stores }
]
