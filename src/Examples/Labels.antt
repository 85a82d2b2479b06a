-- ===== src/Examples/Labels.antt =====
-- The theorems on internal/family.go, applied, and a run of it.
use crdmetrics.Prelude.{
  Result, Option, some, none, Bytes, codes, ◌≡◌, refl, [], ◌∷◌, length, arith, All, ok, panic, ◌<◌,
  ◌↔◌, map, string_eq, bytes_eq, bytes_beq, ◌==◌, if◌then◌else◌,
}
use crdmetrics.Prelude.Map.{Map, lookup}
use crdmetrics.Metric.{
  write_metric_to, sort_labelset, sort_slice, zip_labels, sift, less, lt_bytes, write_labelset,
  write_labels, write_value, escape, MetricType,
}
use crdmetrics.Family.{
  FamilyType, raw_metrics, raw_with, resolve_with, write_resolved, write_sample, raw_metric,
  raw_from, inherit, resolve_labels, resolver_of, unstructured_resolver, add_label, Resolved,
  resolver_of, add_entries, unstructured_resolver,
}
use crdmetrics.Family.LabelKey.{label_key}
use crdmetrics.Family.Samples.{IsSamples, raw_from-IsSamples}
use crdmetrics.Family.Panics.{inherit_at, raw_from_total, raw_metric_panics_iff}
use crdmetrics.Examples.{libs, pod, metric, family}

raw_from_total_example :
    (raw : Bytes) × (raw_from libs family pod
      ≡ ok (record family { metrics = map (inherit_at family) (some metric ∷ []) }, raw))
raw_from_total_example = raw_from_total libs pod family (omega arith, tt)

text_of :
    (raw : Bytes) × (raw_from libs family pod
      ≡ ok (record family { metrics = map (inherit_at family) (some metric ∷ []) }, raw))
text_of = raw_from_total libs pod family (omega arith, tt)

raw_from-IsSamples_example : IsSamples (codes "foo_replicas") text_of.0
raw_from-IsSamples_example =
    raw_from-IsSamples libs pod family (ground arith)
      (record family { metrics = map (inherit_at family) (some metric ∷ []) }) text_of.0 text_of.1

-- one key for two values
abbrev short_metric : MetricType
short_metric = record {
  label_keys = codes "a" ∷ [];
  label_values = codes "b" ∷ codes "c" ∷ [];
  value = codes "1";
  resolver = "unstructured";
}

uses_unstructured : resolver_of family "unstructured" ≡ ok unstructured_resolver
unfolding resolver_of
uses_unstructured = refl

raw_metric_panics_iff_example : (raw_metric libs family pod short_metric ≡ panic) ↔ (2 < 3)
raw_metric_panics_iff_example = raw_metric_panics_iff libs pod family short_metric uses_unstructured

-- a composite value under one query, itself under any other
abbrev resolve : Bytes → Map Bytes Bytes
resolve q =
    if q == codes "xs" then (codes "0", codes "7") ∷ (codes "1", codes "8") ∷ [] else (q, q) ∷ []

abbrev resolved : Resolved
resolved = (codes "x_y0" ∷ codes "x_y1" ∷ codes "z" ∷ [], codes "7" ∷ codes "8" ∷ codes "q" ∷ [])

resolve_labels_run :
    resolve_labels resolve (codes "X-Y" ∷ codes "Z" ∷ []) 0 (codes "xs" ∷ codes "q" ∷ []) ([], [])
    ≡ ok resolved
unfolding resolve_labels add_label add_entries lookup bytes_beq label_key
resolve_labels_run = refl

-- a whole run: the labels of metric and family, the escaped line break, and the object's kind
abbrev map_text : Result (FamilyType × Bytes) → Option Bytes
map_text (ok (f, text)) = some text
map_text _ = none

line : Bytes
line =
    codes
      "kube_customresource_foo_replicas{name=\"a\\nb\",team=\"core\",group=\"example.com\",version=\"v1\",kind=\"Foo\"} 1.000000\n"

raw_from_run : map_text (raw_from libs family pod) ≡ some line
unfolding raw_from raw_metrics raw_metric raw_with inherit resolver_of resolve_labels add_label
    add_entries lookup bytes_beq label_key resolve_with write_resolved write_sample write_metric_to
    sort_labelset sort_slice zip_labels sift less lt_bytes write_labelset write_labels write_value
    escape line crdmetrics.Resolver.Unstructured.resolve crdmetrics.Resolver.Unstructured.split_dots
    crdmetrics.Resolver.Values.sprint crdmetrics.Resolver.Values.format_int crdmetrics.Prelude.itoa
raw_from_run = refl
