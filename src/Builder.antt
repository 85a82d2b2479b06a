-- ===== src/Builder.antt =====
-- internal/builder.go: a store, its headers and the reflector that feeds it.
pub mod Headers
pub mod Sessions
use crdmetrics.Prelude.{
  ℕ, zero, String, Bytes, Bool, true, false, List, [], ◌∷◌, ◌++◌, map, length, if◌then◌else◌, ◌==◌,
  string_eq, ◌≡◌,
}
use crdmetrics.Family.{
  FamilyType, ResolverType, resolver_type_none, resolver_type_unstructured, build_headers,
}
use crdmetrics.Store.{StoreType, new_store}

-- The embedded GroupVersionKind and GroupVersionResource.
pub record Gvkr : Type 0 where
  pub group : Bytes
  pub version : Bytes
  pub kind : Bytes
  pub resource : Bytes

-- The fields of metav1.ListOptions that the code sets.
pub record ListOptions : Type 0 where
  pub label_selector : String
  pub field_selector : String
  pub resource_version_match : String
  pub resource_version : String

abbrev pub resource_version_match_not_older_than : String
resource_version_match_not_older_than = "NotOlderThan"

abbrev pub resource_version_latest_best_effort : String
resource_version_latest_best_effort = "0"

unfoldable pub list_options : Bool → String → String → ListOptions
list_options try_no_cache label_selector field_selector =
    let lwo : ListOptions = record {
      label_selector = label_selector;
      field_selector = field_selector;
      resource_version_match = "";
      resource_version = "";
    } in
    if try_no_cache
    then record lwo {
      resource_version_match = resource_version_match_not_older_than;
      resource_version = resource_version_latest_best_effort;
    }
    else lwo

-- A pointer to a store: its place in the heap.
abbrev pub Ref : Type 0
Ref = ℕ

-- What `cache.NewReflectorWithOptions` is given. The list and watch functions send the API server the
-- options below, whatever options the reflector asks them for.
pub record Reflector : Type 0 where
  pub target : Gvkr
  pub list_watch : ListOptions → ListOptions
  pub resync_period : ℕ
  pub store : Ref

-- the loop that fills `headers`; it sets the type of each family
unfoldable pub build_all_headers : List FamilyType → List FamilyType × List Bytes
build_all_headers [] = ([], [])
build_all_headers (f ∷ fs) =
    let (f', header) = build_headers f in
    let (fs', headers) = build_all_headers fs in (f' ∷ fs', header ∷ headers)

unfoldable pub default_resolver : ResolverType → ResolverType
default_resolver resolver =
    if resolver == resolver_type_none then resolver_type_unstructured else resolver

-- buildStore: the store, and the reflector that is started on it; `ref` is where the store will stand
unfoldable pub build_store :
    Ref
    → Gvkr
    → List FamilyType
    → Bool
    → String
    → String
    → ResolverType
    → List Bytes
    → List Bytes
    → StoreType × Reflector
build_store ref gvk_with_r metric_families try_no_cache label_selector field_selector resolver
      label_keys label_values =
    let lwo = list_options try_no_cache label_selector field_selector in
    let (families, headers) = build_all_headers metric_families in
    (
      new_store headers families (default_resolver resolver) label_keys label_values,
      record { target = gvk_with_r; list_watch = λ asked. lwo; resync_period = 0; store = ref },
    )
