-- ===== src/Family.antt =====
-- internal/family.go: a metric family, and the text that it makes of an object.
pub mod LabelKey
pub mod Labels
pub mod Panics
pub mod Samples
use crdmetrics.Prelude.{
  ℕ, suc, ◌+◌, String, Bytes, codes, Bool, true, false, ◌≡◌, Option, none, some, List, [], ◌∷◌,
  ◌++◌, if◌then◌else◌, Error, unknown_resolver, Result, ok, err, panic, or_panic, ◌>>=◌, get_elem?,
  ◌==◌, string_eq, bytes_eq,
}
use crdmetrics.Prelude.Map.{Map, lookup}
use crdmetrics.Floats.{Floats}
use crdmetrics.Metric.{MetricType, write_metric_to}
use crdmetrics.Resolver.Values.{Fields}
use crdmetrics.Resolver.Unstructured.{Nested, resolve as resolve_unstructured}
use crdmetrics.Resolver.Cel.{CelLib, resolve as resolve_cel}
use LabelKey.{label_key}

abbrev pub metric_type_gauge : Bytes
metric_type_gauge = codes "gauge"

abbrev pub kube_custom_resource_prefix : Bytes
kube_custom_resource_prefix = codes "kube_customresource_"

-- ResolverType is a string, which the configuration may set to anything.
abbrev pub ResolverType : Type 0
ResolverType = String

abbrev pub resolver_type_cel : ResolverType
resolver_type_cel = "cel"

abbrev pub resolver_type_unstructured : ResolverType
resolver_type_unstructured = "unstructured"

abbrev pub resolver_type_none : ResolverType
resolver_type_none = ""

pub record FamilyType : Type 0 where
  pub name : Bytes
  pub help : Bytes
  pub t : Bytes
  -- pointers, of which a null entry of the configuration leaves a nil one
  pub metrics : List (Option MetricType)
  pub resolver : ResolverType
  pub label_keys : List Bytes
  pub label_values : List Bytes

-- What the code asks of an `*unstructured.Unstructured`: `Object`, `GetUID()` and the parts of
-- `GroupVersionKind()`.
pub record Unstructured : Type 0 where
  pub object : Fields
  pub uid : String
  pub group : Bytes
  pub version : Bytes
  pub kind : Bytes

-- The libraries that resolving and printing rest on.
pub record Libs : Type 1 where
  pub floats : Floats
  pub nested : Nested
  pub cel : CelLib

-- The implementations of the interface `resolver.Resolver`.
pub data Resolver : Type 0 where
  cel_resolver unstructured_resolver : Resolver

-- FamilyType.resolver
unfoldable pub resolver_of : FamilyType → ResolverType → Result Resolver
resolver_of f inherited =
    let r = if inherited == resolver_type_none then f.resolver else inherited in
    if r == resolver_type_none
    then ok cel_resolver
    else if r == resolver_type_cel
    then ok cel_resolver
    else if r == resolver_type_unstructured
    then ok unstructured_resolver
    else err (unknown_resolver r)

-- the first statements of the loop body: they change the metric itself
unfoldable pub inherit : FamilyType → MetricType → MetricType
inherit f metric = record metric {
  label_keys = metric.label_keys ++ f.label_keys;
  label_values = metric.label_values ++ f.label_values;
}

-- `resolvedLabelKeys` and `resolvedLabelValues`
abbrev pub Resolved : Type 0
Resolved = List Bytes × List Bytes

-- the branch of a query that is no key of its labelset: one label for each entry
unfoldable pub add_entries : List Bytes → ℕ → Map Bytes Bytes → Resolved → Result Resolved
add_entries label_keys i [] r = ok r
add_entries label_keys i ((k, v) ∷ labelset) r = do
  label ← or_panic (get_elem? label_keys i)
  add_entries label_keys i labelset (r.0 ++ label_key (label ++ k) ∷ [], r.1 ++ v ∷ [])

unfoldable pub add_label :
    List Bytes → ℕ → Option Bytes → Map Bytes Bytes → Resolved → Result Resolved
add_label label_keys i (some v) labelset r = do
  label ← or_panic (get_elem? label_keys i)
  ok (r.0 ++ label_key label ∷ [], r.1 ++ v ∷ [])
add_label label_keys i none labelset r = add_entries label_keys i labelset r

-- the loop over `metric.LabelValues` from index `i` on
unfoldable pub resolve_labels :
    (Bytes → Map Bytes Bytes) → List Bytes → ℕ → List Bytes → Resolved → Result Resolved
resolve_labels resolve label_keys i [] r = ok r
resolve_labels resolve label_keys i (query ∷ queries) r = do
  r' ← add_label label_keys i (lookup query (resolve query)) (resolve query) r
  resolve_labels resolve label_keys (i + 1) queries r'

module _ (libs : Libs) where
  open libs use {floats, nested, cel}

  -- the method `Resolve` of the interface
  unfoldable pub resolve_with : Resolver → Fields → Bytes → Map Bytes Bytes
  resolve_with cel_resolver o query = resolve_cel floats cel query o
  resolve_with unstructured_resolver o query = resolve_unstructured floats nested query o

  -- from "Write the metric." on: what a failed write leaves is dropped with its builder
  unfoldable pub write_sample : FamilyType → Unstructured → Bytes → Resolved → Bytes
  write_sample f u resolved_value r =
      let (raw, e) =
        write_metric_to floats (kube_custom_resource_prefix ++ f.name) u.group u.version u.kind
          resolved_value r.0 r.1 in
      elim e [ none ↦ raw | some _ ↦ [] ]

  unfoldable pub write_resolved : FamilyType → Unstructured → Option Bytes → Resolved → Bytes
  write_resolved f u none r = []
  write_resolved f u (some v) r = write_sample f u v r

  -- the rest of the loop body once the resolver is known; each `continue` adds no text
  unfoldable pub raw_with : FamilyType → Unstructured → MetricType → Result Resolver → Result Bytes
  raw_with f u metric (ok resolver) =
      let resolve = resolve_with resolver u.object in
      (do
        r ← resolve_labels resolve metric.label_keys 0 metric.label_values ([], [])
        ok (write_resolved f u (lookup metric.value (resolve metric.value)) r))
  raw_with f u metric (err e) = ok []
  raw_with f u metric panic = panic

  -- one round: the changed metric, and what is appended to the family's text
  unfoldable pub raw_metric : FamilyType → Unstructured → MetricType → Result (MetricType × Bytes)
  raw_metric f u metric =
      let metric' = inherit f metric in
      (do raw ← raw_with f u metric' (resolver_of f metric'.resolver); ok (metric', raw))

  unfoldable pub raw_metrics :
      FamilyType
      → Unstructured
      → List (Option MetricType)
      → Result (List (Option MetricType) × Bytes)
  raw_metrics f u [] = ok ([], [])
  raw_metrics f u (none ∷ metrics) = panic
  raw_metrics f u (some metric ∷ metrics) = do
    (metric', raw) ← raw_metric f u metric
    (metrics', raws) ← raw_metrics f u metrics
    ok (some metric' ∷ metrics', raw ++ raws)

  -- rawFrom: the family comes back with the metrics as the loop leaves them
  unfoldable pub raw_from : FamilyType → Unstructured → Result (FamilyType × Bytes)
  raw_from f u = do
    (metrics', raw) ← raw_metrics f u f.metrics
    ok (record f { metrics = metrics' }, raw)

-- buildHeaders: the family with its type set, and the header
unfoldable pub build_headers : FamilyType → FamilyType × Bytes
build_headers f =
    let f' = record f { t = metric_type_gauge } in
    (
      f',
      codes "# HELP "
          ++ (kube_custom_resource_prefix
              ++ (f.name
                  ++ (codes " "
                      ++ (f.help
                          ++ (codes "\n"
                              ++ (codes "# TYPE "
                                  ++ (kube_custom_resource_prefix
                                      ++ (f.name ++ (codes " " ++ f'.t))))))))),
    )
