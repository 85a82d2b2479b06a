-- ===== src/Store/Growth.antt =====
-- internal/store.go, `Add`, and internal/family.go, `rawFrom`: both append the inherited labels to
-- the configuration itself, so each Add appends them again.
use mathlib.Core.Path.{subst}
use crdmetrics.Prelude.{
  ℕ, zero, suc, ◌+◌, ◌*◌, Bytes, ◌≡◌, sym, ap, ◌∙◌, none, some, List, [], ◌∷◌, ◌++◌, length,
  length-append, get_elem?, All, ok, ok-injective, arith, map,
}
use crdmetrics.Metric.{MetricType}
use crdmetrics.Family.{FamilyType, Unstructured, Libs, inherit}
use crdmetrics.Store.{StoreType, Objects, inherit_family, add_call, call, serve, serve-cons}
use crdmetrics.Family.Panics.{inherit_at}
use crdmetrics.Store.Balance.{IsBalanced, after_add, added, added-IsBalanced, add-ok}

pub get_elem?-map {ℓ κ} :
    {A : Type ℓ} {B : Type κ} (g : A → B) (xs : List A) (i : ℕ) {a : A}
    → get_elem? xs i ≡ some a
    → get_elem? (map g xs) i ≡ some (g a)
get_elem?-map g [] i h = cc
get_elem?-map g (x ∷ xs) zero h = ap (λ o. elim o [ none ↦ none | some y ↦ some (g y) ]) h
get_elem?-map g (x ∷ xs) (suc i) h = get_elem?-map g xs i h

-- The family at `i` and its metric at `j`.
abbrev pub HasMetric : StoreType → ℕ → ℕ → FamilyType → MetricType → Type 0
HasMetric s i j f m = (get_elem? s.families i ≡ some f) × (get_elem? f.metrics j ≡ some (some m))

HasMetric-added :
    (s : StoreType) (u : Unstructured) (raws : List Bytes) (i j : ℕ) (f : FamilyType)
    (m : MetricType)
    → HasMetric s i j f m
    → HasMetric (added s u raws) i j (after_add s f) (inherit (inherit_family s f) m)
unfolding inherit_family
HasMetric-added s u raws i j f m (p, q) = (
  get_elem?-map (after_add s) s.families i p,
  get_elem?-map (inherit_at (inherit_family s f)) f.metrics j q,
)

length-after_add :
    (s : StoreType) (f : FamilyType)
    → length (after_add s f).label_keys ≡ length f.label_keys + length s.label_keys
unfolding inherit_family
length-after_add s f = length-append f.label_keys s.label_keys

length-inherit :
    (s : StoreType) (f : FamilyType) (m : MetricType)
    → length (inherit (inherit_family s f) m).label_keys
      ≡ length m.label_keys + (length f.label_keys + length s.label_keys)
unfolding inherit_family inherit
length-inherit s f m = omega (
  arith,
  length-append m.label_keys (f.label_keys ++ s.label_keys),
  length-append f.label_keys s.label_keys,
)

module _ (libs : Libs) (objects : Objects) where
  open objects use {Object, to_unstructured}

  -- all objects are converted
  abbrev pub AllConvert : List Object → Type 0
  AllConvert = All (λ o. (u : Unstructured) × (to_unstructured o ≡ some u))

  -- After n Adds, a family's label keys have grown by n times the store's, and those of each of its
  -- metrics by n times the family's first ones and n(n+1)/2 times the store's. The store has to be
  -- balanced and without nil pointers to metrics, so that no Add panics, and the objects have to be convertible.
  pub label_keys_growth :
      (os : List Object) (s s' : StoreType) (i j : ℕ) (f : FamilyType) (m : MetricType)
      → IsBalanced s
      → AllConvert os
      → HasMetric s i j f m
      → serve libs objects s (map add_call os) ≡ ok s'
      → (f' : FamilyType) × (m' : MetricType) × HasMetric s' i j f' m'
        × (length f'.label_keys ≡ length f.label_keys + length os * length s.label_keys)
        × (2 * length m'.label_keys
            ≡ 2 * length m.label_keys
              + 2 * (length os * length f.label_keys)
              + length os * ((length os + 1) * length s.label_keys))
  unfolding serve
  label_keys_growth [] s s' i j f m h _ has e = (
    f,
    m,
    subst (λ (t : StoreType). HasMetric t i j f m) (ok-injective e) has,
    omega arith,
    omega arith,
  )
  label_keys_growth (o ∷ os) s s' i j f m h ((u, p), ps) has e =
      let (raws, added_ok) = add-ok libs objects s o u h p in
      let t : StoreType = added s u raws in
      let (f', m', has', a, b) =
        label_keys_growth os t s' i j (after_add s f) (inherit (inherit_family s f) m)
          (added-IsBalanced s u raws h) ps (HasMetric-added s u raws i j f m has)
          (sym
              (serve-cons libs objects s t (add_call o) (map add_call os) (unfold call in added_ok))
            ∙ e) in
      (
        f',
        m',
        has',
        omega (arith, a, length-after_add s f),
        omega (
          arith,
          b,
          ap (λ (t : ℕ). length os * t) (length-after_add s f),
          length-after_add s f,
          length-inherit s f m,
        ),
      )
