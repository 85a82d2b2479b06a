-- ===== src/Store/Contents.antt =====
-- internal/store.go: what `Add`, `Update` and `Delete` do to the texts under each UID, and that all
-- texts in a store are lines of their families.
use mathlib.Core.Path.{subst, ap₂}
use crdmetrics.Prelude.{
  String, Bytes, ◌≡◌, refl, sym, ap, ◌∙◌, none, some, List, [], ◌∷◌, All, ok, ok-injective,
  >>=-eq-ok, arith, map, Option-cases, inl, inr, ◌==◌, string_eq, if◌then◌else◌,
}
use crdmetrics.Prelude.Map.{lookup, remove, lookup-insert, lookup-remove}
use crdmetrics.Floats.{IsOneLine}
use crdmetrics.Family.{FamilyType, Unstructured, Libs, raw_from, raw_metrics}
use crdmetrics.Family.Samples.{IsSamples, raw_from-IsSamples}
use crdmetrics.Store.{
  StoreType, Objects, inherit_family, add_families, add_unstructured, add, update, delete, Call,
  add_call, update_call, delete_call, call,
}
use crdmetrics.Store.Shape.{All-insert, All-remove}

abbrev pub names : List FamilyType → List Bytes
names = map (λ (f : FamilyType). f.name)

-- One text for each name, made of lines of that family.
abbrev pub HasSamples : List Bytes → List Bytes → Type 0
HasSamples [] [] = Unit
HasSamples (n ∷ ns) (t ∷ ts) = IsSamples n t × HasSamples ns ts
HasSamples [] (t ∷ ts) = ⊥
HasSamples (n ∷ ns) [] = ⊥

-- The family names hold no line break, and each object has one text for each family, made of lines
-- of that family.
pub record IsServable (s : StoreType) : Type 0 where
  pub named : All IsOneLine (names s.families)
  pub entries : All (λ (e : String × List Bytes). HasSamples (names s.families) e.1) s.metrics

pub name-raw_from :
    (libs : Libs) (f : FamilyType) (u : Unstructured) {r : FamilyType × Bytes}
    → raw_from libs f u ≡ ok r
    → r.0.name ≡ f.name
unfolding raw_from
name-raw_from libs f u e =
    let (r, e1, e2) = >>=-eq-ok (raw_metrics libs f u f.metrics) _ e in
    sym (ap (λ (p : FamilyType × Bytes). p.0.name) (ok-injective e2))

module _ (libs : Libs) where
  add_families-HasSamples :
      (s : StoreType) (u : Unstructured) (fs : List FamilyType) {r : List FamilyType × List Bytes}
      → All IsOneLine (names fs)
      → add_families libs s u fs ≡ ok r
      → HasSamples (names fs) r.1 × (names r.0 ≡ names fs)
  unfolding add_families
  add_families-HasSamples s u [] h e =
      let p = ok-injective e in
      (
        subst (λ (r : List FamilyType × List Bytes). HasSamples [] r.1) p tt,
        sym (ap (λ (r : List FamilyType × List Bytes). names r.0) p),
      )
  add_families-HasSamples s u (f ∷ fs) (h, hs) e =
      let (q, e1, e2) = >>=-eq-ok (raw_from libs (inherit_family s f) u) _ e in
      let (t, e3, e4) = >>=-eq-ok (add_families libs s u fs) _ e2 in
      let (a, b) = add_families-HasSamples s u fs {r = t} hs e3 in
      let p = ok-injective e4 in
      (
        subst (λ (r : List FamilyType × List Bytes). HasSamples (f.name ∷ names fs) r.1) p
            (
              unfold inherit_family in raw_from-IsSamples libs u (inherit_family s f) h q.0 q.1 e1,
              a,
            ),
        sym (ap (λ (r : List FamilyType × List Bytes). names r.0) p)
            ∙ ap₂ (◌∷◌) (unfold inherit_family in name-raw_from libs (inherit_family s f) u e1) b,
      )

  add_unstructured-IsServable :
      (s : StoreType) (u : Unstructured) {s' : StoreType}
      → add_unstructured libs s u ≡ ok s'
      → IsServable s
      → IsServable s'
  unfolding add_unstructured
  add_unstructured-IsServable s u e h =
      let (r, e1, e2) = >>=-eq-ok (add_families libs s u s.families) _ e in
      let (a, b) = add_families-HasSamples s u s.families {r = r} h.named e1 in
      subst IsServable (ok-injective e2) (record {
        named = rw b h.named;
        entries = rw b (All-insert (HasSamples (names s.families)) u.uid r.1 s.metrics a h.entries);
      })

  module _ (objects : Objects) where
    open objects use {Object, to_unstructured, accessor_uid}

    add-IsServable :
        (s s' : StoreType) (o : Object)
        → add libs objects s o ≡ ok s'
        → IsServable s
        → IsServable s'
    unfolding add
    add-IsServable s s' o e h = elim (Option-cases (to_unstructured o)) [
      | inl p ↦ let e' = rw (p, add) at e in cc e'
      | inr (u, p) ↦ add_unstructured-IsServable s u (rw (p, add) at e) h
    ]

    delete-IsServable :
        (s s' : StoreType) (o : Object) → delete objects s o ≡ ok s' → IsServable s → IsServable s'
    unfolding delete
    delete-IsServable s s' o e h = elim (Option-cases (accessor_uid o)) [
      | inl p ↦ let e' = rw (p, delete) at e in cc e'
      | inr (uid, p) ↦ subst IsServable (ok-injective (rw (p, delete) at e)) (record {
        named = h.named;
        entries = All-remove (HasSamples (names s.families)) uid s.metrics h.entries;
      })
    ]

    pub call-IsServable :
        (s s' : StoreType) (c : Call Object)
        → call libs objects s c ≡ ok s'
        → IsServable s
        → IsServable s'
    unfolding call update
    call-IsServable s s' (add_call o) e h = add-IsServable s s' o e h
    call-IsServable s s' (update_call o) e h = add-IsServable s s' o e h
    call-IsServable s s' (delete_call o) e h = delete-IsServable s s' o e h
    call-IsServable s s' _ e h = subst IsServable (ok-injective e) h

    -- If Add returns on an object with this UID, what a reader finds under any UID is the texts that
    -- the store's families make of the object, if the UID is the object's, and what was there before
    -- if it is another. Headers and the store's own labels, resolver, selectors, group, version, kind
    -- and resource are as before.
    pub lookup-add :
        (s s' : StoreType) (o : Object) (u : Unstructured)
        → to_unstructured o ≡ some u
        → add libs objects s o ≡ ok s'
        → (raws : List Bytes) × (add_families libs s u s.families ≡ ok (s'.families, raws))
          × ((k : String)
              → lookup k s'.metrics ≡ (if u.uid == k then some raws else lookup k s.metrics))
          × (s'.headers ≡ s.headers)
          × (s'.label_keys ≡ s.label_keys)
          × (s'.label_values ≡ s.label_values)
          × (s'.resolver ≡ s.resolver)
          × (s'.selectors ≡ s.selectors)
          × (s'.group ≡ s.group)
          × (s'.version ≡ s.version)
          × (s'.kind ≡ s.kind)
          × (s'.resource_name ≡ s.resource_name)
    unfolding add add_unstructured
    lookup-add s s' o u p e =
        let (r, e1, e2) = >>=-eq-ok (add_families libs s u s.families) _ (rw (p, add) at e) in
        let q = ok-injective e2 in
        (
          r.1,
          e1 ∙ ap (λ (t : StoreType). ok (t.families, r.1)) q,
          λ k.
              sym (ap (λ (t : StoreType). lookup k t.metrics) q)
              ∙ lookup-insert u.uid k r.1 s.metrics,
          sym (ap (λ (t : StoreType). t.headers) q),
          sym (ap (λ (t : StoreType). t.label_keys) q),
          sym (ap (λ (t : StoreType). t.label_values) q),
          sym (ap (λ (t : StoreType). t.resolver) q),
          sym (ap (λ (t : StoreType). t.selectors) q),
          sym (ap (λ (t : StoreType). t.group) q),
          sym (ap (λ (t : StoreType). t.version) q),
          sym (ap (λ (t : StoreType). t.kind) q),
          sym (ap (λ (t : StoreType). t.resource_name) q),
        )

    -- Deleting an object that was just added leaves, under every UID, what was there before the Add,
    -- and nothing under the object's own.
    pub delete-add :
        (s s' : StoreType) (o : Object) (u : Unstructured)
        → to_unstructured o ≡ some u
        → add libs objects s o ≡ ok s'
        → (s'' : StoreType) × (delete objects s' o ≡ ok s'')
          × ((k : String)
              → lookup k s''.metrics ≡ (if u.uid == k then none else lookup k s.metrics))
    unfolding delete
    delete-add s s' o u p e =
        let (raws, _, at_key, _, _, _, _, _, _, _, _, _) = lookup-add s s' o u p e in
        (
          record s' { metrics = remove u.uid s'.metrics },
          rw (objects.same_uid o u p, delete) refl,
          λ k. lookup-remove u.uid k s'.metrics ∙ rw (at_key k) (ground arith),
        )
