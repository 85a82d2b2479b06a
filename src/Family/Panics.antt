-- ===== src/Family/Panics.antt =====
-- internal/family.go, `rawFrom`: on which configurations the indexing of `LabelKeys` panics, and
-- why the test on lengths in `writeMetricTo` (internal/metric.go) never fails.
use crdmetrics.Prelude.{
  Option, some, none, ◌≤◌, ◌<◌, Bytes, ◌≡◌, ◌≢◌, ◌↔◌, inl, inr, refl, none, List, [], ◌∷◌, ◌++◌,
  map, String, length, All, Result, ok, err, panic, bind-panic, arith, Bool-cases, ltb, ltb→lt,
  ltb→ge, bytes_eq, ==_refl,
}
use crdmetrics.Prelude.Map.{Map, lookup}
use crdmetrics.Floats.{Floats}
use crdmetrics.Metric.{MetricType, write_metric_to}
use crdmetrics.Metric.Line.{write_metric_to-succeeds_iff}
use crdmetrics.Resolver.Unstructured.{resolve_one_entry}
use crdmetrics.Family.{
  FamilyType, Unstructured, Libs, Resolver, unstructured_resolver, Resolved, resolver_of, inherit,
  resolve_labels, resolve_with, raw_with, raw_metric, raw_metrics, raw_from,
}
use crdmetrics.Family.Labels.{resolve_labels-IsEven, resolve_labels_total, resolve_labels_panics}

-- Whatever the resolver returns, if the labels of a metric are made at all, then there are as many
-- keys as values, so writing the metric fails only if its value is no float64: the error on
-- different lengths in `writeMetricTo` does not occur.
pub write_resolved_labels :
    (floats : Floats) (resolve : Bytes → Map Bytes Bytes) (label_keys queries : List Bytes)
    (r : Resolved) (w g v k value : Bytes)
    → resolve_labels resolve label_keys 0 queries ([], []) ≡ ok r
    → ((write_metric_to floats w g v k value r.0 r.1).1 ≡ none) ↔ (floats.parse_float value ≢ none)
write_resolved_labels floats resolve label_keys queries r w g v k value h =
    let (fails, succeeds) = write_metric_to-succeeds_iff floats w g v k value r.0 r.1 in
    (
      λ e. (fails e).1,
      λ p. succeeds (resolve_labels-IsEven resolve label_keys 0 queries ([], []) h refl, p),
    )

-- A metric with the family's labels behind its own has a key for each value.
abbrev pub HasKeys : FamilyType → MetricType → Type 0
HasKeys f metric =
    length (metric.label_values ++ f.label_values) ≤ length (metric.label_keys ++ f.label_keys)

-- The pointer is not nil, and the metric that it points to is one of these.
abbrev pub PointsToKeys : FamilyType → Option MetricType → Type 0
PointsToKeys f none = ⊥
PointsToKeys f (some metric) = HasKeys f metric

-- what a pointer to a metric points to, once the family's labels are appended
abbrev pub inherit_at : FamilyType → Option MetricType → Option MetricType
inherit_at f none = none
inherit_at f (some metric) = some (inherit f metric)

module _ (libs : Libs) (u : Unstructured) where
  raw_with_total :
      (f : FamilyType) (metric : MetricType) (r : Result Resolver)
      → r ≢ panic
      → length metric.label_values ≤ length metric.label_keys
      → (raw : Bytes) × (raw_with libs f u metric r ≡ ok raw)
  unfolding raw_with
  raw_with_total f metric (ok resolver) n h =
      let (s, e) =
        resolve_labels_total (resolve_with libs resolver u.object) metric.label_keys 0
          metric.label_values ([], []) (omega arith) in
      rw e (_, refl)
  raw_with_total f metric (err e) n h = ([], refl)
  raw_with_total f metric panic n h = absurd (n refl)

  resolver_of-ne-panic : (f : FamilyType) (inherited : String) → resolver_of f inherited ≢ panic
  unfolding resolver_of
  resolver_of-ne-panic f inherited = ground arith

  raw_metric_total :
      (f : FamilyType) (metric : MetricType)
      → HasKeys f metric
      → (raw : Bytes) × (raw_metric libs f u metric ≡ ok (inherit f metric, raw))
  unfolding raw_metric inherit
  raw_metric_total f metric h =
      let (raw, e) =
        raw_with_total f (inherit f metric) (resolver_of f metric.resolver)
          (resolver_of-ne-panic f metric.resolver) h in
      (raw, rw e refl)

  raw_metrics_total :
      (f : FamilyType) (metrics : List (Option MetricType))
      → All (PointsToKeys f) metrics
      → (raw : Bytes) × (raw_metrics libs f u metrics ≡ ok (map (inherit_at f) metrics, raw))
  unfolding raw_metrics
  raw_metrics_total f [] _ = ([], refl)
  raw_metrics_total f (none ∷ metrics) (h, hs) = absurd h
  raw_metrics_total f (some metric ∷ metrics) (h, hs) =
      let (raw, e) = raw_metric_total f metric h in
      let (raws, es) = raw_metrics_total f metrics hs in (raw ++ raws, rw e (rw es refl))

  -- If no pointer to a metric of a family is nil, and each metric, with the family's labels behind its
  -- own, has no more label values than label keys, then the family's text is made without a panic,
  -- for every object, every resolver type (an unknown one included) and whatever the resolvers
  -- return. The metrics come back with the family's labels appended.
  pub raw_from_total :
      (f : FamilyType)
      → All (PointsToKeys f) f.metrics
      → (raw : Bytes) × (raw_from libs f u
          ≡ ok (record f { metrics = map (inherit_at f) f.metrics }, raw))
  unfolding raw_from
  raw_from_total f h = let (raw, e) = raw_metrics_total f f.metrics h in (raw, rw e refl)

  unstructured-finds :
      (q : Bytes) → lookup q (resolve_with libs unstructured_resolver u.object q) ≢ none
  unfolding resolve_with lookup
  unstructured-finds q =
      rw (resolve_one_entry libs.floats libs.nested q u.object) (ground (arith, ==_refl q))

  raw_with_panics :
      (f : FamilyType) (metric : MetricType)
      → length metric.label_keys < length metric.label_values
      → raw_with libs f u metric (ok unstructured_resolver) ≡ panic
  unfolding raw_with
  raw_with_panics f metric h = bind-panic _ _ (
      resolve_labels_panics (resolve_with libs unstructured_resolver u.object) metric.label_keys
        unstructured-finds 0 metric.label_values ([], []) (omega arith) (omega arith))

  -- With the resolver for unstructured objects a metric makes the process panic exactly when it has
  -- more label values than label keys, the family's included. No error is reported instead.
  pub raw_metric_panics_iff :
      (f : FamilyType) (metric : MetricType)
      → resolver_of f metric.resolver ≡ ok unstructured_resolver
      → (raw_metric libs f u metric ≡ panic) ↔ (
          length (metric.label_keys ++ f.label_keys)
          < length (metric.label_values ++ f.label_values))
  raw_metric_panics_iff f metric h = (forth, back)
    where
      back :
          length (metric.label_keys ++ f.label_keys)
            < length (metric.label_values ++ f.label_values)
          → raw_metric libs f u metric ≡ panic
      back lt =
          unfold raw_metric inherit in
          rw h (bind-panic _ _ (raw_with_panics f (inherit f metric) lt))

      forth :
          raw_metric libs f u metric ≡ panic
          → length (metric.label_keys ++ f.label_keys)
            < length (metric.label_values ++ f.label_values)
      forth p =
          elim (Bool-cases (
            ltb (length (metric.label_keys ++ f.label_keys))
              (length (metric.label_values ++ f.label_values)))) [
                | inl lt ↦ ltb→lt _ _ lt
                | inr ge ↦ let (raw, e) = raw_metric_total f metric (ltb→ge _ _ ge) in cc (p, e)
              ]
