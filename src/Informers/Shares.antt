-- ===== src/Informers/Shares.antt =====
-- pkg/generated/informers/externalversions/factory.go: one informer for each type, and no informer
-- started after a shutdown.
use mathlib.Core.Path.{subst}
use crdmetrics.Prelude.{
  ℕ, String, true, ◌≡◌, ◌≢◌, refl, sym, ap, ◌∙◌, none, some, List, [], ◌++◌, inl, inr, Bool-cases,
  Option-cases, string_eq, ◌==◌, ==_iff,
}
use crdmetrics.Prelude.Map.{lookup, lookup-insert_self, lookup-insert_ne}
use crdmetrics.Informers.{InformerLib, NewInformerFunc, start, shutdown, run_done, informer_for}
use crdmetrics.Informers.Starts.{Factory, start-Launches}
use crdmetrics.Informers.Runs.{Runs, nothing_yet, asks, starts, ends, shuts}

module _ (lib : InformerLib) where
  asked_twice :
      (f : Factory lib) (t : String) (new_func : NewInformerFunc lib) (i : lib.Informer)
      → lookup t f.informers ≡ some i
      → (informer_for lib f t new_func).1 ≡ i
  unfolding informer_for
  asked_twice f t new_func i h = rw h refl

  asked :
      (f : Factory lib) (t : String) (new_func : NewInformerFunc lib)
      → lookup t (informer_for lib f t new_func).0.informers
        ≡ some (informer_for lib f t new_func).1
  unfolding informer_for
  asked f t new_func = elim (Option-cases (lookup t f.informers)) [
    | inl e ↦ rw e (lookup-insert_self t _ f.informers)
    | inr (i, e) ↦ rw e e
  ]

  some_is_not : {i : lib.Informer} → some i ≢ none
  some_is_not h = cc

  asked_other :
      (f : Factory lib) (t u : String) (new_func : NewInformerFunc lib) (i : lib.Informer)
      → lookup u f.informers ≡ some i
      → lookup u (informer_for lib f t new_func).0.informers ≡ some i
  unfolding informer_for
  asked_other f t u new_func i h = elim (Option-cases (lookup t f.informers)) [
    | inl e ↦ elim (Bool-cases (t == u)) [
      | inl d ↦
          let none_of_u =
            subst (λ (v : String). lookup v f.informers ≡ none) ((==_iff t u).0 d) e in
          absurd (some_is_not (sym h ∙ none_of_u))
      | inr d ↦ rw e (lookup-insert_ne t u _ f.informers d ∙ h)
    ]
    | inr (j, e) ↦ rw e h
  ]

  Runs-keeps :
      (f : Factory lib) {g : Factory lib} {l : List (String × lib.Informer)} {n : ℕ} (t : String)
      (i : lib.Informer)
      → lookup t f.informers ≡ some i
      → Runs lib f l n g
      → lookup t g.informers ≡ some i
  unfolding run_done shutdown
  Runs-keeps f t i h nothing_yet = h
  Runs-keeps f t i h (asks {g = g} u new_func r) =
      asked_other g u t new_func i (Runs-keeps f t i h r)
  Runs-keeps f t i h (starts {g = g} r) =
      ap (lookup t) (start-Launches lib g).informers_kept ∙ Runs-keeps f t i h r
  Runs-keeps f t i h (ends lt r) = Runs-keeps f t i h r
  Runs-keeps f t i h (shuts r) = Runs-keeps f t i h r

  -- Once `InformerFor` has given an informer for a type, it gives the same one after any calls of the
  -- factory's functions, whatever function it is then handed to make one: listers and handlers of a
  -- type share one informer.
  pub informer_for-shared :
      (f : Factory lib) {g : Factory lib} {l : List (String × lib.Informer)} {n : ℕ} (t : String)
      (new_func new_func' : NewInformerFunc lib)
      → Runs lib (informer_for lib f t new_func).0 l n g
      → (informer_for lib g t new_func').1 ≡ (informer_for lib f t new_func).1
  informer_for-shared f {g} t new_func new_func' r =
      asked_twice g t new_func' (informer_for lib f t new_func).1 (
        Runs-keeps (informer_for lib f t new_func).0 t (informer_for lib f t new_func).1
          (asked f t new_func) r)

  informer_for-open :
      (f : Factory lib) (t : String) (new_func : NewInformerFunc lib)
      → (informer_for lib f t new_func).0.shutting_down ≡ f.shutting_down
  unfolding informer_for
  informer_for-open f t new_func = elim (Option-cases (lookup t f.informers)) [
    | inl e ↦ rw e refl
    | inr (i, e) ↦ rw e refl
  ]

  start-shut : (f : Factory lib) → f.shutting_down ≡ true → (start lib f).1 ≡ []
  unfolding start
  start-shut f h = rw h refl

  -- After `Shutdown`, whatever is called in whatever order, no goroutine is launched, and the factory
  -- stays shut down.
  pub shutdown-launches_none :
      (f : Factory lib) {g : Factory lib} {l : List (String × lib.Informer)} {n : ℕ}
      → Runs lib (shutdown lib f) l n g
      → (l ≡ []) × (g.shutting_down ≡ true)
  unfolding shutdown run_done
  shutdown-launches_none f nothing_yet = (refl, refl)
  shutdown-launches_none f (asks {g = g} t new_func r) =
      let (e, shut) = shutdown-launches_none f r in (e, informer_for-open g t new_func ∙ shut)
  shutdown-launches_none f (starts {l} {g = g} r) =
      let (e, shut) = shutdown-launches_none f r in
      (
        ap (λ (m : List (String × lib.Informer)). m ++ (start lib g).1) e ∙ start-shut g shut,
        (start-Launches lib g).open_as_before ∙ shut,
      )
  shutdown-launches_none f (ends lt r) = shutdown-launches_none f r
  shutdown-launches_none f (shuts r) = let (e, shut) = shutdown-launches_none f r in (e, refl)
