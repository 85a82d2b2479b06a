-- ===== src/Informers/Starts.antt =====
-- pkg/generated/informers/externalversions/factory.go: what one call of
-- `Start` does.
use crdmetrics.Prelude.{
  ◌+◌, String, Bool, true, false, ◌≡◌, refl, sym, ap, ◌∙◌, List, [], ◌∷◌, ◌++◌, map, All,
  All-append, arith, length, inl, inr, Bool-cases, if◌then◌else◌, string_eq, ◌==◌, ==_refl,
}
use crdmetrics.Prelude.Map.{Map, insert, lookup-insert}
use crdmetrics.Informers.{InformerLib, SharedInformerFactory, is_started, is_set, start_all, start}

-- what a goroutine was launched for
abbrev pub types_of {ℓ} : {A : Type ℓ} → List (String × A) → List String
types_of l = map (λ (e : String × _). e.0) l

-- no entry is there twice
abbrev pub NoDups : List String → Type 0
NoDups [] = Unit
NoDups (x ∷ l) = All (λ (y : String). (x == y) ≡ false) l × NoDups l

pub NoDups-append :
    (l m : List String)
    → NoDups l
    → NoDups m
    → All (λ (x : String). All (λ (y : String). (x == y) ≡ false) m) l
    → NoDups (l ++ m)
NoDups-append [] m h k a = k
NoDups-append (x ∷ l) m (h, hs) k (a, as_) = (All-append _ l m h a, NoDups-append l m hs k as_)

module _ (lib : InformerLib) where
  abbrev pub Factory : Type 0
  Factory = SharedInformerFactory lib

  abbrev pub Started : Factory → List String → Type 0
  Started f = All (λ (t : String). is_started lib t f ≡ true)

  abbrev pub Unstarted : Factory → List String → Type 0
  Unstarted f = All (λ (t : String). is_started lib t f ≡ false)

  -- what one call of `Start` does, from `f` with the goroutines `l` to `g`
  pub record Launches (f : Factory) (l : List (String × lib.Informer)) (g : Factory) : Type 0 where
    pub counted : g.wg ≡ f.wg + length l
    pub fresh : Unstarted f (types_of l)
    pub no_dups : NoDups (types_of l)
    pub now_started : Started g (types_of l)
    pub still_started : (t : String) → is_started lib t f ≡ true → is_started lib t g ≡ true
    pub informers_kept : g.informers ≡ f.informers
    pub open_as_before : g.shutting_down ≡ f.shutting_down

  Launches-refl : (f : Factory) → Launches f [] f
  Launches-refl f = record {
    counted = omega arith;
    fresh = tt;
    no_dups = tt;
    now_started = tt;
    still_started = λ t h. h;
    informers_kept = refl;
    open_as_before = refl;
  }

  abbrev marked : Factory → String → Factory
  marked f t = record f { wg = f.wg + 1; started_informers = insert t true f.started_informers }

  is_started-marked :
      (f : Factory) (t u : String)
      → is_started lib u (marked f t) ≡ (if t == u then true else is_started lib u f)
  is_started-marked f t u = elim (Bool-cases (t == u)) [
    | inl e ↦ ap is_set (lookup-insert t u true f.started_informers) ∙ rw e refl
    | inr e ↦ ap is_set (lookup-insert t u true f.started_informers) ∙ rw e refl
  ]

  unmarked :
      (f : Factory) (t u : String)
      → is_started lib u (marked f t) ≡ false
      → ((t == u) ≡ false) × (is_started lib u f ≡ false)
  unmarked f t u h = elim (Bool-cases (t == u)) [
    | inl e ↦ let m = is_started-marked f t u in let m' = rw e at m in cc (h, m')
    | inr e ↦ let m = is_started-marked f t u in let m' = rw e at m in (e, sym m' ∙ h)
  ]

  still_marked :
      (f : Factory) (t u : String)
      → is_started lib u f ≡ true
      → is_started lib u (marked f t) ≡ true
  still_marked f t u h = elim (Bool-cases (t == u)) [
    | inl e ↦ is_started-marked f t u ∙ rw e refl
    | inr e ↦ is_started-marked f t u ∙ rw e h
  ]

  Unstarted-marked :
      (f : Factory) (t : String) (us : List String)
      → Unstarted (marked f t) us
      → All (λ (u : String). (t == u) ≡ false) us × Unstarted f us
  Unstarted-marked f t [] h = (tt, tt)
  Unstarted-marked f t (u ∷ us) (h, hs) =
      let (apart, fresh) = unmarked f t u h in
      let (aparts, freshs) = Unstarted-marked f t us hs in ((apart, aparts), (fresh, freshs))

  Launches-one :
      (f : Factory) (t : String) (i : lib.Informer) (l : List (String × lib.Informer)) (g : Factory)
      → is_started lib t f ≡ false
      → Launches (marked f t) l g
      → Launches f ((t, i) ∷ l) g
  Launches-one f t i l g e r =
      let counted = r.counted in
      let (aparts, freshs) = Unstarted-marked f t (types_of l) r.fresh in
      record {
        counted = omega arith;
        fresh = (e, freshs);
        no_dups = (aparts, r.no_dups);
        now_started =
            (r.still_started t (is_started-marked f t t ∙ rw (==_refl t) refl), r.now_started);
        still_started = λ u h. r.still_started u (still_marked f t u h);
        informers_kept = r.informers_kept;
        open_as_before = r.open_as_before;
      }

  start_all-Launches :
      (informers : Map String lib.Informer) (f : Factory)
      → Launches f (start_all lib informers f).1 (start_all lib informers f).0
  unfolding start_all
  start_all-Launches [] f = Launches-refl f
  start_all-Launches ((t, i) ∷ informers) f = elim (Bool-cases (is_started lib t f)) [
    | inl e ↦ rw e (start_all-Launches informers f)
    | inr e ↦ rw e (
        Launches-one f t i (start_all lib informers (marked f t)).1
          (start_all lib informers (marked f t)).0 e (start_all-Launches informers (marked f t)))
  ]

  pub start-Launches : (f : Factory) → Launches f (start lib f).1 (start lib f).0
  unfolding start
  start-Launches f = unless_shut f.shutting_down
    where
      unless_shut :
          (b : Bool)
          → Launches f
              (if b then (f, []) else start_all lib f.informers f).1
              (if b then (f, []) else start_all lib f.informers f).0
      unless_shut true = Launches-refl f
      unless_shut false = start_all-Launches f.informers f
