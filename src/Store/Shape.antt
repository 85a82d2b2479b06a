-- ===== src/Store/Shape.antt =====
-- internal/store.go: every object has one text for each header, which the writer relies on.
use mathlib.Core.Path.{subst}
use crdmetrics.Prelude.{
  suc, String, Bytes, ◌≡◌, sym, ap, ◌∙◌, List, [], ◌∷◌, length, All, ok, ok-injective, >>=-eq-ok,
  arith, ◌==◌, string_eq, Bool-cases, inl, inr, Option-cases,
}
use crdmetrics.Prelude.Map.{Map, insert, remove}
use crdmetrics.Family.{FamilyType, Unstructured, Libs, raw_from}
use crdmetrics.Store.{
  Call, add_call, update_call, delete_call, call, serve, serve_induction, StoreType, Objects,
  inherit_family, add_families, add_unstructured, add, update, delete,
}

-- Each entry of the store has as many texts as there are headers, and so have the families.
pub record IsShaped (s : StoreType) : Type 0 where
  pub families_headers : length s.families ≡ length s.headers
  pub entries : All (λ (e : String × List Bytes). length e.1 ≡ length s.headers) s.metrics

module _ {ℓ κ} {V : Type ℓ} (P : V → Type κ) where
  pub All-insert :
      (k : String) (v : V) (m : Map String V)
      → P v
      → All (λ (e : String × V). P e.1) m
      → All (λ (e : String × V). P e.1) (insert k v m)
  unfolding insert
  All-insert k v [] h _ = (h, tt)
  All-insert k v ((j, w) ∷ m) h (p, ps) = elim (Bool-cases (j == k)) [
    | inl e ↦ rw e (h, ps)
    | inr e ↦ rw e (p, All-insert k v m h ps)
  ]

  pub All-remove :
      (k : String) (m : Map String V)
      → All (λ (e : String × V). P e.1) m
      → All (λ (e : String × V). P e.1) (remove k m)
  unfolding remove
  All-remove k [] _ = tt
  All-remove k ((j, w) ∷ m) (p, ps) = elim (Bool-cases (j == k)) [
    | inl e ↦ rw e (All-remove k m ps)
    | inr e ↦ rw e (p, All-remove k m ps)
  ]

module _ (libs : Libs) where
  length-add_families :
      (s : StoreType) (u : Unstructured) (fs : List FamilyType) {fs' : List FamilyType}
      {raws : List Bytes}
      → add_families libs s u fs ≡ ok (fs', raws)
      → (length fs' ≡ length fs) × (length raws ≡ length fs)
  unfolding add_families
  length-add_families s u [] e = ground arith
  length-add_families s u (f ∷ fs) e =
      let (r, e1, e2) = >>=-eq-ok (raw_from libs (inherit_family s f) u) _ e in
      let (t, e3, e4) = >>=-eq-ok (add_families libs s u fs) _ e2 in
      let (h, k) = length-add_families s u fs {fs' = t.0} {raws = t.1} e3 in
      let p = ok-injective e4 in
      (
        sym (ap (λ (x : List FamilyType × List Bytes). length x.0) p) ∙ ap suc h,
        sym (ap (λ (x : List FamilyType × List Bytes). length x.1) p) ∙ ap suc k,
      )

  add_unstructured-IsShaped :
      (s : StoreType) (u : Unstructured) {s' : StoreType}
      → add_unstructured libs s u ≡ ok s'
      → IsShaped s
      → IsShaped s'
  unfolding add_unstructured
  add_unstructured-IsShaped s u e h =
      let (r, e1, e2) = >>=-eq-ok (add_families libs s u s.families) _ e in
      let (a, b) = length-add_families s u s.families {fs' = r.0} {raws = r.1} e1 in
      subst IsShaped (ok-injective e2) (record {
        families_headers = a ∙ h.families_headers;
        entries =
            All-insert (λ (l : List Bytes). length l ≡ length s.headers) u.uid r.1 s.metrics
              (b ∙ h.families_headers) h.entries;
      })

module _ (libs : Libs) (objects : Objects) where
  open objects use {Object, to_unstructured, accessor_uid}

  add-IsShaped :
      (s s' : StoreType) (o : Object) → add libs objects s o ≡ ok s' → IsShaped s → IsShaped s'
  unfolding add
  add-IsShaped s s' o e h = elim (Option-cases (to_unstructured o)) [
    | inl p ↦ let e' = rw (p, add) at e in cc e'
    | inr (u, p) ↦ add_unstructured-IsShaped libs s u (rw (p, add) at e) h
  ]

  delete-IsShaped :
      (s s' : StoreType) (o : Object) → delete objects s o ≡ ok s' → IsShaped s → IsShaped s'
  unfolding delete
  delete-IsShaped s s' o e h = elim (Option-cases (accessor_uid o)) [
    | inl p ↦ let e' = rw (p, delete) at e in cc e'
    | inr (uid, p) ↦ subst IsShaped (ok-injective (rw (p, delete) at e)) (record {
      families_headers = h.families_headers;
      entries =
          All-remove (λ (l : List Bytes). length l ≡ length s.headers) uid s.metrics h.entries;
    })
  ]

  pub call-IsShaped :
      (s s' : StoreType) (c : Call Object)
      → call libs objects s c ≡ ok s'
      → IsShaped s
      → IsShaped s'
  unfolding call update
  call-IsShaped s s' (add_call o) e h = add-IsShaped s s' o e h
  call-IsShaped s s' (update_call o) e h = add-IsShaped s s' o e h
  call-IsShaped s s' (delete_call o) e h = delete-IsShaped s s' o e h
  call-IsShaped s s' _ e h = subst IsShaped (ok-injective e) h

  -- If in a store there are as many families as headers and each object has one text for each
  -- header, then so it is after any calls of the store's methods, failing ones among them, that do
  -- not panic.
  pub serve-IsShaped :
      (cs : List (Call Object)) (s s' : StoreType)
      → serve libs objects s cs ≡ ok s'
      → IsShaped s
      → IsShaped s'
  serve-IsShaped = serve_induction libs objects IsShaped call-IsShaped
