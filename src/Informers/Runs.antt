-- ===== src/Informers/Runs.antt =====
-- pkg/generated/informers/externalversions/factory.go: what the factory does
-- over any sequence of calls.
use mathlib.Core.Path.{subst}
use crdmetrics.Prelude.{
  ℕ, ◌+◌, ◌<◌, String, Bool, true, false, ◌≡◌, refl, sym, ap, ◌∙◌, List, [], ◌∷◌, ◌++◌, ◌↔◌, All,
  All-append, arith, length, length-append, map-append, inl, inr, Bool-cases, Option-cases,
  string_eq, ◌==◌, ==_iff, eqb_iff,
}
use crdmetrics.Prelude.Map.{Map, lookup}
use crdmetrics.Informers.{
  InformerLib, NewInformerFunc, is_started, is_set, start, shutdown, run_done,
  new_shared_informer_factory, new_shared_informer_factory_with_options, apply_options,
  shutdown_returns, informer_for,
}
use crdmetrics.Informers.Starts.{
  types_of, NoDups, NoDups-append, Factory, Started, Unstarted, Launches, start-Launches,
}

module _ (lib : InformerLib) where
  -- Any sequence of calls of a factory's functions from `f`: the goroutines they launched, in order, how
  -- many of these ended, and the factory they left.
  pub data Runs (f : Factory lib) : List (String × lib.Informer) → ℕ → Factory lib → Type 0 where
    nothing_yet : Runs f [] 0 f
    asks :
        {l : List (String × lib.Informer)} {n : ℕ} {g : Factory lib} (informer_type : String)
        (new_func : NewInformerFunc lib)
        → Runs f l n g
        → Runs f l n (informer_for lib g informer_type new_func).0
    starts :
        {l : List (String × lib.Informer)} {n : ℕ} {g : Factory lib}
        → Runs f l n g
        → Runs f (l ++ (start lib g).1) n (start lib g).0
    ends :
        {l : List (String × lib.Informer)} {n : ℕ} {g : Factory lib}
        → n < length l
        → Runs f l n g
        → Runs f l (n + 1) (run_done lib g)
    shuts :
        {l : List (String × lib.Informer)} {n : ℕ} {g : Factory lib}
        → Runs f l n g
        → Runs f l n (shutdown lib g)

  -- what holds of a factory after calls that launched `l`, of which `n` ended
  record Sound (l : List (String × lib.Informer)) (n : ℕ) (f : Factory lib) : Type 0 where
    counts : f.wg + n ≡ length l
    all_started : Started lib f (types_of l)
    once : NoDups (types_of l)

  informer_for-started :
      (f : Factory lib) (t : String) (new_func : NewInformerFunc lib)
      → ((informer_for lib f t new_func).0.wg ≡ f.wg)
        × ((informer_for lib f t new_func).0.started_informers ≡ f.started_informers)
        × ((informer_for lib f t new_func).0.shutting_down ≡ f.shutting_down)
  unfolding informer_for
  informer_for-started f t new_func = elim (Option-cases (lookup t f.informers)) [
    | inl e ↦ rw e (refl, refl, refl)
    | inr (i, e) ↦ rw e (refl, refl, refl)
  ]

  Started-kept :
      (f g : Factory lib) (ts : List String)
      → ((t : String) → is_started lib t f ≡ true → is_started lib t g ≡ true)
      → Started lib f ts
      → Started lib g ts
  Started-kept f g [] k h = tt
  Started-kept f g (t ∷ ts) k (h, hs) = (k t h, Started-kept f g ts k hs)

  started_apart :
      (f : Factory lib) (t u : String)
      → is_started lib t f ≡ true
      → is_started lib u f ≡ false
      → (t == u) ≡ false
  started_apart f t u h k = elim (Bool-cases (t == u)) [
    | inl e ↦
        let m = subst (λ (v : String). is_started lib v f ≡ true) ((==_iff t u).0 e) h in cc (m, k)
    | inr e ↦ e
  ]

  all_apart :
      (f : Factory lib) (ts us : List String)
      → Started lib f ts
      → Unstarted lib f us
      → All (λ (t : String). All (λ (u : String). (t == u) ≡ false) us) ts
  all_apart f [] us h k = tt
  all_apart f (t ∷ ts) us (h, hs) k = (from_t us k, all_apart f ts us hs k)
    where
      from_t : (vs : List String) → Unstarted lib f vs → All (λ (u : String). (t == u) ≡ false) vs
      from_t [] x = tt
      from_t (v ∷ vs) (x, xs) = (started_apart f t v h x, from_t vs xs)

  Sound-starts :
      (l new : List (String × lib.Informer)) (n : ℕ) (f g : Factory lib)
      → Sound l n f
      → Launches lib f new g
      → Sound (l ++ new) n g
  Sound-starts l new n f g s r =
      let types = map-append (λ (e : String × lib.Informer). e.0) l new in
      let before = s.counts in
      let launched = r.counted in
      let total = length-append l new in
      record {
        counts = omega arith;
        all_started = subst (Started lib g) (sym types) (
            All-append _ (types_of l) (types_of new)
              (Started-kept f g (types_of l) r.still_started s.all_started) r.now_started);
        once = subst NoDups (sym types) (
            NoDups-append (types_of l) (types_of new) s.once r.no_dups
              (all_apart f (types_of l) (types_of new) s.all_started r.fresh));
      }

  Sound-same :
      (l : List (String × lib.Informer)) (n : ℕ) (f g : Factory lib)
      → g.wg ≡ f.wg
      → g.started_informers ≡ f.started_informers
      → Sound l n f
      → Sound l n g
  Sound-same l n f g e d s = record {
    counts = ap (λ (k : ℕ). k + n) e ∙ s.counts;
    all_started =
        subst
          (λ (m : Map String Bool). All (λ (t : String). is_set (lookup t m) ≡ true) (types_of l))
          (sym d) s.all_started;
    once = s.once;
  }

  Sound-ends :
      (l : List (String × lib.Informer)) (n : ℕ) (f : Factory lib)
      → n < length l
      → Sound l n f
      → Sound l (n + 1) (run_done lib f)
  unfolding run_done
  Sound-ends l n f lt s =
      let before = s.counts in
      record { counts = omega arith; all_started = s.all_started; once = s.once }

  Runs-Sound :
      (f : Factory lib) {g : Factory lib} {l : List (String × lib.Informer)} {n : ℕ}
      → Sound [] 0 f
      → Runs f l n g
      → Sound l n g
  unfolding shutdown
  Runs-Sound f h nothing_yet = h
  Runs-Sound f {l = l} {n = n} h (asks {g = g} t new_func r) =
      let (wg, started, rest) = informer_for-started g t new_func in
      Sound-same l n g (informer_for lib g t new_func).0 wg started (Runs-Sound f h r)
  Runs-Sound f {n = n} h (starts {l} {g = g} r) =
      Sound-starts l (start lib g).1 n g (start lib g).0 (Runs-Sound f h r) (start-Launches lib g)
  Runs-Sound f h (ends {l} {n} {g} lt r) = Sound-ends l n g lt (Runs-Sound f h r)
  Runs-Sound f {l = l} {n = n} h (shuts {g = g} r) =
      Sound-same l n g (shutdown lib g) refl refl (Runs-Sound f h r)

  -- Whatever calls of a new factory's functions are made, in whatever order, with the goroutines that
  -- `Start` launched ending at any time: no informer is started twice, and `Shutdown` returns exactly
  -- if all the goroutines that were launched have ended.
  pub Runs-once :
      (client : lib.Clientset) (default_resync : lib.Duration) {g : Factory lib}
      {l : List (String × lib.Informer)} {n : ℕ}
      → Runs (new_shared_informer_factory lib client default_resync) l n g
      → NoDups (types_of l) × ((shutdown_returns lib g ≡ true) ↔ (n ≡ length l))
  unfolding new_shared_informer_factory new_shared_informer_factory_with_options apply_options
      shutdown_returns
  Runs-once client default_resync {g} {l} {n} r =
      let s =
        Runs-Sound (new_shared_informer_factory lib client default_resync)
          (record { counts = refl; all_started = tt; once = tt }) r in
      let counts = s.counts in
      (
        s.once,
        (
          (λ h. let z = (eqb_iff g.wg 0).0 h in omega arith),
          (λ h. (eqb_iff g.wg 0).1 (omega arith)),
        ),
      )
