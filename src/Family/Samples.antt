-- ===== src/Family/Samples.antt =====
-- internal/family.go: the shape of a family's text.
use mathlib.Core.Path.{subst}
use crdmetrics.Prelude.{
  Error, ℕ, ◌+◌, Bytes, ◌≡◌, ◌≢◌, inl, inr, refl, ap, ◌∙◌, Option, none, some, List, [], ◌∷◌, ◌++◌,
  append_assoc, length, All, All-append, Result, ok, err, panic, or_panic, ok-injective, >>=-eq-ok,
  arith, Option-cases, get_elem?, bytes_eq,
}
use crdmetrics.Prelude.Map.{Map, lookup}
use crdmetrics.Floats.{newline, IsOneLine}
use crdmetrics.Metric.{MetricType, write_metric_to}
use crdmetrics.Metric.Line.{write_metric_to-one_line, write_metric_to-succeeds_iff}
use crdmetrics.Family.{
  FamilyType, Unstructured, Libs, Resolver, Resolved, resolver_of, inherit, add_entries, add_label,
  resolve_labels, resolve_with, write_sample, write_resolved, raw_with, raw_metric, raw_metrics,
  raw_from, kube_custom_resource_prefix,
}
use crdmetrics.Family.LabelKey.{IsKeyByte, label_key, label_key-All}
use crdmetrics.Family.Labels.{resolve_labels-IsEven}

-- The text is a sequence of lines. Each begins with the prefix, the family's name and a brace, and
-- ends at its first line break.
pub data IsSamples (name : Bytes) : Bytes → Type 0 where
  no_sample : IsSamples name []
  sample :
      (body rest : Bytes) {text : Bytes}
      → text ≡ (kube_custom_resource_prefix ++ name) ++ b'{' ∷ (body ++ newline ∷ rest)
      → IsOneLine (kube_custom_resource_prefix ++ name)
      → IsOneLine body
      → IsSamples name rest
      → IsSamples name text

pub IsSamples-append :
    {name s : Bytes} (t : Bytes) → IsSamples name s → IsSamples name t → IsSamples name (s ++ t)
IsSamples-append t no_sample ht = ht
IsSamples-append {name} t (sample body rest e hn hb hs) ht =
    sample body (rest ++ t) (ap (λ (x : Bytes). x ++ t) e ∙ simp append_assoc) hn hb
      (IsSamples-append t hs ht)

abbrev HasKeyBytes : Resolved → Type 0
HasKeyBytes r = All (All IsKeyByte) r.0

push_key :
    (r : Resolved) (key : Bytes) → HasKeyBytes r → All (All IsKeyByte) (r.0 ++ label_key key ∷ [])
push_key r key h = All-append (All IsKeyByte) r.0 (label_key key ∷ []) h (label_key-All key, tt)

module _ (label_keys : List Bytes) (i : ℕ) where
  add_entries-HasKeyBytes :
      (m : Map Bytes Bytes) (r : Resolved) {r' : Resolved}
      → add_entries label_keys i m r ≡ ok r'
      → HasKeyBytes r
      → HasKeyBytes r'
  unfolding add_entries
  add_entries-HasKeyBytes [] r e h = subst HasKeyBytes (ok-injective e) h
  add_entries-HasKeyBytes ((k, v) ∷ m) r e h =
      let (label, _, e') = >>=-eq-ok (or_panic (get_elem? label_keys i)) _ e in
      add_entries-HasKeyBytes m _ e' (push_key r (label ++ k) h)

  add_label-HasKeyBytes :
      (found : Option Bytes) (m : Map Bytes Bytes) (r : Resolved) {r' : Resolved}
      → add_label label_keys i found m r ≡ ok r'
      → HasKeyBytes r
      → HasKeyBytes r'
  unfolding add_label
  add_label-HasKeyBytes (some v) m r e h =
      let (label, _, e') = >>=-eq-ok (or_panic (get_elem? label_keys i)) _ e in
      subst HasKeyBytes (ok-injective e') (push_key r label h)
  add_label-HasKeyBytes none m r e h = add_entries-HasKeyBytes m r e h

module _ (resolve : Bytes → Map Bytes Bytes) (label_keys : List Bytes) where
  resolve_labels-HasKeyBytes :
      (i : ℕ) (queries : List Bytes) (r : Resolved) {r' : Resolved}
      → resolve_labels resolve label_keys i queries r ≡ ok r'
      → HasKeyBytes r
      → HasKeyBytes r'
  unfolding resolve_labels
  resolve_labels-HasKeyBytes i [] r e h = subst HasKeyBytes (ok-injective e) h
  resolve_labels-HasKeyBytes i (query ∷ queries) r e h =
      let (s, e1, e2) =
        >>=-eq-ok (add_label label_keys i (lookup query (resolve query)) (resolve query) r) _ e in
      resolve_labels-HasKeyBytes (i + 1) queries s e2
        (add_label-HasKeyBytes label_keys i (lookup query (resolve query)) (resolve query) r e1 h)

  -- Whatever the resolver returns, composite values included, every label key of a metric holds only
  -- lower case letters, digits and underscores, and there are as many keys as values.
  pub resolve_labels_keys :
      (queries : List Bytes) (r : Resolved)
      → resolve_labels resolve label_keys 0 queries ([], []) ≡ ok r
      → All (All IsKeyByte) r.0 × (length r.0 ≡ length r.1)
  resolve_labels_keys queries r h = (
    resolve_labels-HasKeyBytes 0 queries ([], []) h tt,
    resolve_labels-IsEven resolve label_keys 0 queries ([], []) h refl,
  )

key_byte_one_line : (c : ℕ) → IsKeyByte c → c ≢ newline
key_byte_one_line c h = ground arith

key_one_line : (k : Bytes) → All IsKeyByte k → IsOneLine k
key_one_line [] _ = tt
key_one_line (c ∷ k) (h, hs) = (key_byte_one_line c h, key_one_line k hs)

keys_one_line : (ks : List Bytes) → All (All IsKeyByte) ks → All IsOneLine ks
keys_one_line [] _ = tt
keys_one_line (k ∷ ks) (h, hs) = (key_one_line k h, keys_one_line ks hs)

prefix-IsOneLine : IsOneLine kube_custom_resource_prefix
prefix-IsOneLine = ground arith

module _ (libs : Libs) (u : Unstructured) (f : FamilyType) (name_ok : IsOneLine f.name) where
  prefixed : IsOneLine (kube_custom_resource_prefix ++ f.name)
  prefixed =
      All-append (λ c. c ≢ newline) kube_custom_resource_prefix f.name prefix-IsOneLine name_ok

  write_sample-IsSamples :
      (v : Bytes) (r : Resolved)
      → HasKeyBytes r
      → length r.0 ≡ length r.1
      → IsSamples f.name (write_sample libs f u v r)
  unfolding write_sample
  write_sample-IsSamples v r hk hl = elim (Option-cases (libs.floats.parse_float v)) [
    | inl bad ↦
        (let m =
            write_metric_to libs.floats (kube_custom_resource_prefix ++ f.name) u.group u.version
              u.kind v r.0 r.1 in
          elim (Option-cases m.1) [
            | inl wrote ↦ absurd (
                ((write_metric_to-succeeds_iff libs.floats _ u.group u.version u.kind v r.0 r.1).0
                    wrote).1
                  bad)
            | inr (e, failed) ↦ rw (failed, write_sample) no_sample
          ])
    | inr (x, good) ↦
        let (body, e, one) =
          write_metric_to-one_line libs.floats (kube_custom_resource_prefix ++ f.name) u.group
            u.version u.kind v r.0 r.1 x hl good (keys_one_line r.0 hk) in
        rw (ap (λ (p : Bytes × Option Error). p.1) e, write_sample)
          (sample body [] (ap (λ (p : Bytes × Option Error). p.0) e) prefixed one no_sample)
  ]

  write_resolved-IsSamples :
      (v : Option Bytes) (r : Resolved)
      → HasKeyBytes r
      → length r.0 ≡ length r.1
      → IsSamples f.name (write_resolved libs f u v r)
  unfolding write_resolved
  write_resolved-IsSamples none r hk hl = no_sample
  write_resolved-IsSamples (some v) r hk hl = write_sample-IsSamples v r hk hl

  raw_with-IsSamples :
      (metric : MetricType) (r : Result Resolver) {raw : Bytes}
      → raw_with libs f u metric r ≡ ok raw
      → IsSamples f.name raw
  unfolding raw_with
  raw_with-IsSamples metric (ok resolver) e =
      let resolve = resolve_with libs resolver u.object in
      let (s, e1, e2) =
        >>=-eq-ok (resolve_labels resolve metric.label_keys 0 metric.label_values ([], [])) _ e in
      let (keys, even) = resolve_labels_keys resolve metric.label_keys metric.label_values s e1 in
      subst (IsSamples f.name) (ok-injective e2)
        (write_resolved-IsSamples (lookup metric.value (resolve metric.value)) s keys even)
  raw_with-IsSamples metric (err x) e = subst (IsSamples f.name) (ok-injective e) no_sample
  raw_with-IsSamples metric panic e = cc

  raw_metric-IsSamples :
      (metric : MetricType) {metric' : MetricType} {raw : Bytes}
      → raw_metric libs f u metric ≡ ok (metric', raw)
      → IsSamples f.name raw
  unfolding raw_metric
  raw_metric-IsSamples metric e =
      let (s, e1, e2) =
        >>=-eq-ok (raw_with libs f u (inherit f metric) (resolver_of f (inherit f metric).resolver))
          _ e in
      subst (IsSamples f.name) (ap (λ (p : MetricType × Bytes). p.1) (ok-injective e2))
        (raw_with-IsSamples (inherit f metric) (resolver_of f (inherit f metric).resolver) e1)

  raw_metrics-IsSamples :
      (metrics : List (Option MetricType)) {metrics' : List (Option MetricType)} {raw : Bytes}
      → raw_metrics libs f u metrics ≡ ok (metrics', raw)
      → IsSamples f.name raw
  unfolding raw_metrics
  raw_metrics-IsSamples [] e =
      subst (IsSamples f.name) (ap (λ (p : List (Option MetricType) × Bytes). p.1) (ok-injective e))
        no_sample
  raw_metrics-IsSamples (none ∷ metrics) e = cc
  raw_metrics-IsSamples (some metric ∷ metrics) e =
      let (s, e1, e2) = >>=-eq-ok (raw_metric libs f u metric) _ e in
      let (t, e3, e4) = >>=-eq-ok (raw_metrics libs f u metrics) _ e2 in
      subst (IsSamples f.name)
        (ap (λ (p : List (Option MetricType) × Bytes). p.1) (ok-injective e4))
        (IsSamples-append t.1 (raw_metric-IsSamples metric {metric' = s.0} {raw = s.1} e1)
          (raw_metrics-IsSamples metrics {metrics' = t.0} {raw = t.1} e3))

  -- If the family's name holds no line break, then for every object and every configuration of its
  -- metrics the family's text, if it is made, is a sequence of lines, each of which begins with the
  -- prefix, the family's name and an opening brace and ends at its only line break. What the
  -- object holds cannot add a line or break one.
  pub raw_from-IsSamples :
      (f' : FamilyType) (raw : Bytes) → raw_from libs f u ≡ ok (f', raw) → IsSamples f.name raw
  unfolding raw_from
  raw_from-IsSamples f' raw e =
      let (s, e1, e2) = >>=-eq-ok (raw_metrics libs f u f.metrics) _ e in
      subst (IsSamples f.name) (ap (λ (p : FamilyType × Bytes). p.1) (ok-injective e2))
        (raw_metrics-IsSamples f.metrics {metrics' = s.0} {raw = s.1} e1)
