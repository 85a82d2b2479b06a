-- ===== src/Store/Balance.antt =====
-- internal/store.go, `Add`: what it leaves in the families, and on which stores it returns.
use crdmetrics.Prelude.{
  Option, ◌≤◌, Bytes, ◌≡◌, refl, none, some, List, [], ◌∷◌, length, length-append, All, ok, err,
  arith, map, Option-cases, inl, inr, ◌⊎◌, not_an_object, string_eq,
}
use crdmetrics.Prelude.Map.{insert}
use crdmetrics.Metric.{MetricType}
use crdmetrics.Family.{FamilyType, Unstructured, Libs, raw_from, inherit}
use crdmetrics.Family.Panics.{PointsToKeys, inherit_at, raw_from_total}
use crdmetrics.Store.{StoreType, Objects, inherit_family, add_families, add_unstructured, add}

-- The pointer is not nil, and the metric has not more label values than label keys.
abbrev pub IsBalancedMetric : Option MetricType → Type 0
IsBalancedMetric none = ⊥
IsBalancedMetric (some m) = length m.label_values ≤ length m.label_keys

pub record IsBalancedFamily (f : FamilyType) : Type 0 where
  pub own : length f.label_values ≤ length f.label_keys
  pub metrics : All IsBalancedMetric f.metrics

-- The store, each family and each metric has, taken by itself, not more label values than keys, and no
-- pointer to a metric is nil.
pub record IsBalanced (s : StoreType) : Type 0 where
  pub own : length s.label_values ≤ length s.label_keys
  pub families : All IsBalancedFamily s.families

-- A family as `Add` leaves it.
abbrev pub after_add : StoreType → FamilyType → FamilyType
after_add s f = let f' = inherit_family s f in record f' { metrics = map (inherit_at f') f.metrics }

inherit_metrics-HasKeys :
    (f : FamilyType) (ms : List (Option MetricType))
    → length f.label_values ≤ length f.label_keys
    → All IsBalancedMetric ms
    → All (PointsToKeys f) ms
inherit_metrics-HasKeys f [] h _ = tt
inherit_metrics-HasKeys f (none ∷ ms) h (p, ps) = absurd p
inherit_metrics-HasKeys f (some m ∷ ms) h (p, ps) = (
  omega
      (arith, length-append m.label_values f.label_values, length-append m.label_keys f.label_keys),
  inherit_metrics-HasKeys f ms h ps,
)

inherit_metrics-IsBalanced :
    (f : FamilyType) (ms : List (Option MetricType))
    → All (PointsToKeys f) ms
    → All IsBalancedMetric (map (inherit_at f) ms)
unfolding inherit
inherit_metrics-IsBalanced f [] _ = tt
inherit_metrics-IsBalanced f (none ∷ ms) (h, hs) = absurd h
inherit_metrics-IsBalanced f (some m ∷ ms) (h, hs) = (h, inherit_metrics-IsBalanced f ms hs)

module _ (s : StoreType) (balanced : length s.label_values ≤ length s.label_keys) where
  inherit_family-own :
      (f : FamilyType)
      → IsBalancedFamily f
      → length (inherit_family s f).label_values ≤ length (inherit_family s f).label_keys
  unfolding inherit_family
  inherit_family-own f h = omega (
    arith,
    h.own,
    length-append f.label_values s.label_values,
    length-append f.label_keys s.label_keys,
  )

  inherit_family-HasKeys :
      (f : FamilyType) → IsBalancedFamily f → All (PointsToKeys (inherit_family s f)) f.metrics
  inherit_family-HasKeys f h =
      inherit_metrics-HasKeys (inherit_family s f) f.metrics (inherit_family-own f h) h.metrics

  after_add-IsBalanced : (f : FamilyType) → IsBalancedFamily f → IsBalancedFamily (after_add s f)
  after_add-IsBalanced f h = record {
    own = inherit_family-own f h;
    metrics =
        inherit_metrics-IsBalanced (inherit_family s f) f.metrics (inherit_family-HasKeys f h);
  }

  map-after_add-IsBalanced :
      (fs : List FamilyType) → All IsBalancedFamily fs → All IsBalancedFamily (map (after_add s) fs)
  map-after_add-IsBalanced [] _ = tt
  map-after_add-IsBalanced (f ∷ fs) (h, hs) =
      (after_add-IsBalanced f h, map-after_add-IsBalanced fs hs)

  raw_from-after_add :
      (libs : Libs) (u : Unstructured) (f : FamilyType)
      → IsBalancedFamily f
      → (raw : Bytes) × (raw_from libs (inherit_family s f) u ≡ ok (after_add s f, raw))
  unfolding inherit_family
  raw_from-after_add libs u f h =
      raw_from_total libs u (inherit_family s f) (inherit_family-HasKeys f h)

  add_families_total :
      (libs : Libs) (u : Unstructured) (fs : List FamilyType)
      → All IsBalancedFamily fs
      → (raws : List Bytes) × (add_families libs s u fs ≡ ok (map (after_add s) fs, raws))
  unfolding add_families
  add_families_total libs u [] _ = ([], refl)
  add_families_total libs u (f ∷ fs) (h, hs) =
      let (raw, e) = raw_from-after_add libs u f h in
      let (raws, es) = add_families_total libs u fs hs in (raw ∷ raws, rw e (rw es refl))

-- The store as `Add` leaves it: the families changed, and the texts under the object's UID.
abbrev pub added : StoreType → Unstructured → List Bytes → StoreType
added s u raws = record s {
  families = map (after_add s) s.families;
  metrics = insert u.uid raws s.metrics;
}

pub add_unstructured_total :
    (libs : Libs) (s : StoreType) (u : Unstructured)
    → IsBalanced s
    → (raws : List Bytes) × (add_unstructured libs s u ≡ ok (added s u raws))
unfolding add_unstructured
add_unstructured_total libs s u h =
    let (raws, e) = add_families_total s h.own libs u s.families h.families in (raws, rw e refl)

pub added-IsBalanced :
    (s : StoreType) (u : Unstructured) (raws : List Bytes)
    → IsBalanced s
    → IsBalanced (added s u raws)
added-IsBalanced s u raws h = record {
  own = h.own;
  families = map-after_add-IsBalanced s h.own s.families h.families;
}

module _ (libs : Libs) (objects : Objects) where
  open objects use {Object, to_unstructured, accessor_uid}

  -- On a balanced store `Add` either reports that the object cannot be converted, or returns.
  pub add-cases :
      (s : StoreType) (o : Object)
      → IsBalanced s
      → ((to_unstructured o ≡ none) × (add libs objects s o ≡ err not_an_object))
        ⊎ ((u : Unstructured) × (raws : List Bytes) × (to_unstructured o ≡ some u)
            × (add libs objects s o ≡ ok (added s u raws)))
  unfolding add
  add-cases s o h = elim (Option-cases (to_unstructured o)) [
    | inl p ↦ inl (p, rw (p, add))
    | inr (u, p) ↦
        let (raws, e) = add_unstructured_total libs s u h in inr (u, raws, p, rw (p, add) e)
  ]

  pub add-ok :
      (s : StoreType) (o : Object) (u : Unstructured)
      → IsBalanced s
      → to_unstructured o ≡ some u
      → (raws : List Bytes) × (add libs objects s o ≡ ok (added s u raws))
  unfolding add
  add-ok s o u h p = let (raws, e) = add_unstructured_total libs s u h in (raws, rw (p, add) e)
