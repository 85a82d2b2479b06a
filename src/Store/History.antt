-- ===== src/Store/History.antt =====
-- internal/store.go against a specification: which objects a store serves, as a function of the
-- calls that a reflector made.
use mathlib.Core.List.{foldl}
use mathlib.Core.Path.{subst}
use crdmetrics.Prelude.{
  String, Bool, true, false, ◌≡◌, refl, ap, ◌∙◌, Option, none, some, List, [], ◌∷◌, Result, ok, err,
  panic, arith, Option-cases, inl, inr, ◌==◌, string_eq, if◌then◌else◌,
}
use crdmetrics.Prelude.Map.{lookup, lookup-insert, lookup-remove}
use crdmetrics.Family.{Unstructured, Libs}
use crdmetrics.Store.{
  StoreType, Objects, add, update, delete, Call, add_call, update_call, delete_call, call, serve,
  serve-cons, serve-cons_err,
}
use crdmetrics.Store.Balance.{IsBalanced, added-IsBalanced, add-cases}

abbrev pub is_some {ℓ} : {A : Type ℓ} → Option A → Bool
is_some none = false
is_some (some a) = true

-- after a conversion, and after a look at the UID
abbrev pub written : String → Bool → Option Unstructured → Bool
written uid before none = before
written uid before (some u) = if u.uid == uid then true else before

abbrev pub erased : String → Bool → Option String → Bool
erased uid before none = before
erased uid before (some k) = if k == uid then false else before

module _ (objects : Objects) (uid : String) where
  open objects use {Object, to_unstructured, accessor_uid}

  -- Whether the object with this UID is served after a call, if `before` says whether it was. An
  -- object that cannot be read changes nothing. Replace and Resync never do.
  abbrev pub served : Bool → Call Object → Bool
  served before (add_call o) = written uid before (to_unstructured o)
  served before (update_call o) = written uid before (to_unstructured o)
  served before (delete_call o) = erased uid before (accessor_uid o)
  served before _ = before

  abbrev pub is_served : StoreType → Bool
  is_served s = is_some (lookup uid s.metrics)

-- What a call does to a balanced store: it returns a balanced store, or an error and no change.
abbrev Answers :
    (objects : Objects) → String → StoreType → Call objects.Object → Result StoreType → Type 0
Answers objects uid s c (ok t) =
    IsBalanced t × (is_served objects uid t ≡ served objects uid (is_served objects uid s) c)
Answers objects uid s c (err x) =
    is_served objects uid s ≡ served objects uid (is_served objects uid s) c
Answers objects uid s c panic = ⊥

module _ (libs : Libs) (objects : Objects) (uid : String) where
  open objects use {Object, to_unstructured, accessor_uid}

  add-Answers :
      (s : StoreType) (o : Object)
      → IsBalanced s
      → Answers objects uid s (add_call o) (add libs objects s o)
  add-Answers s o h = elim (add-cases libs objects s o h) [
    | inl (p, e) ↦ rw e (rw p refl)
    | inr (u, raws, p, e) ↦ rw e (
      added-IsBalanced s u raws h,
      rw p (rw (lookup-insert u.uid uid raws s.metrics) (ground arith)),
    )
  ]

  delete-Answers :
      (s : StoreType) (o : Object)
      → IsBalanced s
      → Answers objects uid s (delete_call o) (delete objects s o)
  unfolding delete
  delete-Answers s o h = elim (Option-cases (accessor_uid o)) [
    | inl p ↦ rw (p, delete) (rw p refl)
    | inr (k, p) ↦
        rw (p, delete)
          (
            record { own = h.own; families = h.families },
            rw p (rw (lookup-remove k uid s.metrics) (ground arith)),
          )
  ]

  call-Answers :
      (s : StoreType) (c : Call Object)
      → IsBalanced s
      → Answers objects uid s c (call libs objects s c)
  unfolding call update
  call-Answers s (add_call o) h = add-Answers s o h
  call-Answers s (update_call o) h = add-Answers s o h
  call-Answers s (delete_call o) h = delete-Answers s o h
  call-Answers s _ h = (h, refl)

  serve-cases :
      (s : StoreType) (c : Call Object) (cs : List (Call Object))
      → IsBalanced s
      → (t : StoreType) × IsBalanced t
        × (is_served objects uid t ≡ served objects uid (is_served objects uid s) c)
        × (serve libs objects s (c ∷ cs) ≡ serve libs objects t cs)
  serve-cases s c cs h = go (call libs objects s c) refl
    where
      go :
          (r : Result StoreType)
          → call libs objects s c ≡ r
          → (t : StoreType) × IsBalanced t
            × (is_served objects uid t ≡ served objects uid (is_served objects uid s) c)
            × (serve libs objects s (c ∷ cs) ≡ serve libs objects t cs)
      go (ok t) e =
          let (b, a) = subst (Answers objects uid s c) e (call-Answers s c h) in
          (t, b, a, serve-cons libs objects s t c cs e)
      go (err x) e = (
        s,
        h,
        subst (Answers objects uid s c) e (call-Answers s c h),
        serve-cons_err libs objects s c cs e,
      )
      go panic e = absurd (subst (Answers objects uid s c) e (call-Answers s c h))

  -- Refinement. Let a store be balanced: it, each family and each metric has no more label values than
  -- keys, and no pointer to a metric is nil. On a balanced store any sequence of calls, whatever the objects, ends without a
  -- panic in a balanced store that serves exactly the objects that the history says: those whose
  -- last effective Add, Update or Delete was an Add or an Update, and, where there was none, those
  -- that were served at first.
  pub serve-served :
      (cs : List (Call Object)) (s : StoreType)
      → IsBalanced s
      → (s' : StoreType) × IsBalanced s'
        × (serve libs objects s cs ≡ ok s')
        × (is_served objects uid s' ≡ foldl (served objects uid) (is_served objects uid s) cs)
  serve-served [] s h = (s, h, unfold serve in refl, refl)
  serve-served (c ∷ cs) s h =
      let (t, b, a, e) = serve-cases s c cs h in
      let (s', b', e', a') = serve-served cs t b in
      (s', b', e ∙ e', a' ∙ ap (λ (x : Bool). foldl (served objects uid) x cs) a)
