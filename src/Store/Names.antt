-- ===== src/Store/Names.antt =====
-- internal/store.go: the names of a store's families stay the same.
use mathlib.Core.Path.{ap₂}
use crdmetrics.Prelude.{
  Bytes, ◌≡◌, sym, ap, ◌∙◌, List, [], ◌∷◌, ok, ok-injective, >>=-eq-ok, inl, inr, Option-cases,
}
use crdmetrics.Family.{FamilyType, Unstructured, Libs, raw_from}
use crdmetrics.Store.{
  StoreType, Objects, inherit_family, add_families, add_unstructured, add, update, delete, Call,
  add_call, update_call, delete_call, call,
}
use crdmetrics.Store.Contents.{names, name-raw_from}

module _ (libs : Libs) where
  add_families-names :
      (s : StoreType) (u : Unstructured) (fs : List FamilyType) {r : List FamilyType × List Bytes}
      → add_families libs s u fs ≡ ok r
      → names r.0 ≡ names fs
  unfolding add_families
  add_families-names s u [] e =
      sym (ap (λ (r : List FamilyType × List Bytes). names r.0) (ok-injective e))
  add_families-names s u (f ∷ fs) e =
      let (q, e1, e2) = >>=-eq-ok (raw_from libs (inherit_family s f) u) _ e in
      let (t, e3, e4) = >>=-eq-ok (add_families libs s u fs) _ e2 in
      sym (ap (λ (r : List FamilyType × List Bytes). names r.0) (ok-injective e4))
      ∙ ap₂ (◌∷◌) (unfold inherit_family in name-raw_from libs (inherit_family s f) u e1)
          (add_families-names s u fs {r = t} e3)

  add_unstructured-names :
      (s : StoreType) (u : Unstructured) {s' : StoreType}
      → add_unstructured libs s u ≡ ok s'
      → names s'.families ≡ names s.families
  unfolding add_unstructured
  add_unstructured-names s u e =
      let (r, e1, e2) = >>=-eq-ok (add_families libs s u s.families) _ e in
      sym (ap (λ (t : StoreType). names t.families) (ok-injective e2))
      ∙ add_families-names s u s.families {r = r} e1

  module _ (objects : Objects) where
    open objects use {Object, to_unstructured, accessor_uid}

    add-names :
        (s s' : StoreType) (o : Object)
        → add libs objects s o ≡ ok s'
        → names s'.families ≡ names s.families
    unfolding add
    add-names s s' o e = elim (Option-cases (to_unstructured o)) [
      | inl p ↦ let e' = rw (p, add) at e in cc e'
      | inr (u, p) ↦ add_unstructured-names s u (rw (p, add) at e)
    ]

    delete-names :
        (s s' : StoreType) (o : Object)
        → delete objects s o ≡ ok s'
        → names s'.families ≡ names s.families
    unfolding delete
    delete-names s s' o e = elim (Option-cases (accessor_uid o)) [
      | inl p ↦ let e' = rw (p, delete) at e in cc e'
      | inr (uid, p) ↦
          sym (ap (λ (t : StoreType). names t.families) (ok-injective (rw (p, delete) at e)))
    ]

    pub call-names :
        (s s' : StoreType) (c : Call Object)
        → call libs objects s c ≡ ok s'
        → names s'.families ≡ names s.families
    unfolding call update
    call-names s s' (add_call o) e = add-names s s' o e
    call-names s s' (update_call o) e = add-names s s' o e
    call-names s s' (delete_call o) e = delete-names s s' o e
    call-names s s' _ e = sym (ap (λ (t : StoreType). names t.families) (ok-injective e))
