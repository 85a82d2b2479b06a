-- ===== src/Main/Flags/Count.antt =====
-- main.go and internal/options.go: how many flags are set, and what
-- `Read` makes of flags that are not.
use crdmetrics.Prelude.{
  Result, err, panic, ◌>>=◌, >>=-eq-ok, ok-injective, Result-cases, Option-cases, Option, sym, ap,
  ℕ, zero, suc, ◌+◌, Bytes, codes, Bool, true, false, ◌&&◌, ◌≡◌, ◌≢◌, refl, Option, none, some,
  List, [], ◌∷◌, ◌++◌, All, ok, ◌==◌, bytes_eq, bytes_beq, arith, eqb, ==_symm, Bool-cases, inl,
  inr,
}
use mathlib.Core.Path.{subst}
use crdmetrics.Options.{
  Values, Flag, Env, bool_flag, default_flags, overrider_for_option_name, set_flag, set_value,
  override, visit_all,
}
use crdmetrics.Main.Flags.{is_there, is_set_flag, n_flag, text_of}

abbrev pub IsOther : Flag → Type 0
IsOther f = (f.name == codes "version") ≡ false

-- the environment has no override for the flag
abbrev pub IsNotOverridden : Env → Flag → Type 0
IsNotOverridden env f = env (overrider_for_option_name f.name) ≡ none

abbrev pub version_flag : Bytes → Flag
version_flag value = record {
  name = codes "version";
  kind = bool_flag;
  value = value;
  def_value = codes "false";
}

-- `-version`
abbrev pub only_version : List (Bytes × Bytes)
only_version = (codes "version", codes "true") ∷ []

pub flags_but_version :
    (env : Env)
    → (others : List Flag) × (default_flags env ≡ others ++ version_flag (codes "false") ∷ [])
      × All IsOther others
unfolding default_flags bytes_beq
flags_but_version env = (
  _ ∷ _ ∷ _ ∷ _ ∷ _ ∷ _ ∷ _ ∷ _ ∷ _ ∷ _ ∷ [],
  refl,
  (refl, (refl, (refl, (refl, (refl, (refl, (refl, (refl, (refl, (refl, tt)))))))))),
)

pub n_flag-append :
    (env : Env) (args : List (Bytes × Bytes)) (fs gs : List Flag)
    → n_flag env args (fs ++ gs) ≡ n_flag env args fs + n_flag env args gs
unfolding n_flag
n_flag-append env args [] gs = omega arith
n_flag-append env args (f ∷ fs) gs =
    let rest = n_flag-append env args fs gs in
    elim (Bool-cases (is_set_flag env args f)) [ inl e ↦ rw e (omega arith) | inr e ↦ rw e rest ]

pub and_false : (a b : Bool) → b ≡ false → (a && b) ≡ false
and_false true b h = h
and_false false b h = refl

pub not_one : (n : ℕ) → n ≢ 0 → eqb (n + 1) 1 ≡ false
not_one zero h = absurd (h refl)
not_one (suc n) h = ground arith

module _ (values : Values) (env : Env) where
  pub set_flag-at :
      (before after : List Flag) (v v' : Flag) (text : Bytes)
      → All IsOther before
      → (v.name == codes "version") ≡ true
      → set_value values v text ≡ some v'
      → set_flag values (codes "version") text (before ++ v ∷ after) ≡ ok (before ++ v' ∷ after)
  unfolding set_flag
  set_flag-at [] after v v' text h is_version set = rw is_version (rw set refl)
  set_flag-at (f ∷ before) after v v' text (h, hs) is_version set =
      rw h (rw (set_flag-at before after v v' text hs is_version set) refl)

  other-unnamed : (f : Flag) → IsOther f → is_set_flag env only_version f ≡ is_set_flag env [] f
  other-unnamed f h = rw (==_symm f.name (codes "version") h) refl

  pub n_flag-unnamed :
      (fs : List Flag) → All IsOther fs → n_flag env only_version fs ≡ n_flag env [] fs
  unfolding n_flag
  n_flag-unnamed [] h = refl
  n_flag-unnamed (f ∷ fs) (h, hs) = rw (other-unnamed f h, n_flag-unnamed fs hs) refl

  no_text : (o : Option Bytes) → is_there o ≡ false → o ≡ none
  no_text none h = refl
  no_text (some text) h = cc

  -- a flag that is not set is passed over
  override-unset : (f : Flag) → is_set_flag env [] f ≡ false → override values env f ≡ ok f
  unfolding override
  override-unset f h = elim (Bool-cases (f.value == f.def_value)) [
    | inl e ↦ rw e (rw (no_text (env (overrider_for_option_name f.name)) (rw e at h)) refl)
    | inr e ↦ rw e refl
  ]

  pub visit_all-unset :
      (fs gs : List Flag)
      → n_flag env [] fs ≡ 0
      → visit_all values env gs ≡ ok gs
      → visit_all values env (fs ++ gs) ≡ ok (fs ++ gs)
  unfolding visit_all n_flag
  visit_all-unset [] gs h k = k
  visit_all-unset (f ∷ fs) gs h k = elim (Bool-cases (is_set_flag env [] f)) [
    | inl e ↦ let h' = rw e at h in absurd (omega arith)
    | inr e ↦ let h' = rw e at h in rw (override-unset f e) (rw (visit_all-unset fs gs h' k) refl)
  ]

  pub text_of-version :
      (before : List Flag) (v : Flag)
      → All IsOther before
      → (v.name == codes "version") ≡ true
      → text_of (codes "version") (before ++ v ∷ []) ≡ v.value
  text_of-version [] v h e = rw e refl
  text_of-version (f ∷ before) v (h, hs) e = rw h (text_of-version before v hs e)

  bind-ok_same : (r : Result (List Flag)) → r ≡ (r >>= λ fs. ok fs)
  bind-ok_same (ok fs) = refl
  bind-ok_same (err e) = refl
  bind-ok_same panic = refl

  -- what `flag.VisitAll` makes of flags and others behind them
  pub visit_all-append :
      (fs gs : List Flag)
      → visit_all values env (fs ++ gs)
        ≡ (visit_all values env fs >>= λ fs'. visit_all values env gs >>= λ gs'. ok (fs' ++ gs'))
  unfolding visit_all
  visit_all-append [] gs = bind-ok_same (visit_all values env gs)
  visit_all-append (f ∷ fs) gs = elim (Result-cases (override values env f)) [
    | inl (f', e) ↦ rw e (
        rw (visit_all-append fs gs) (elim (Result-cases (visit_all values env fs)) [
          | inl (fs', d) ↦ rw d (elim (Result-cases (visit_all values env gs)) [
            | inl (gs', c) ↦ rw c refl
            | inr (inl (x, c)) ↦ rw c refl
            | inr (inr c) ↦ rw c refl
          ])
          | inr (inl (x, d)) ↦ rw d refl
          | inr (inr d) ↦ rw d refl
        ]))
    | inr (inl (x, e)) ↦ rw e refl
    | inr (inr e) ↦ rw e refl
  ]

  override-name : (f f' : Flag) → override values env f ≡ ok f' → f'.name ≡ f.name
  unfolding override
  override-name f f' h = elim (Bool-cases (f.value == f.def_value)) [
    | inr e ↦ let h' = rw e at h in sym (ap (λ (x : Flag). x.name) (ok-injective h'))
    | inl e ↦ elim (Option-cases (env (overrider_for_option_name f.name))) [
      | inl n ↦ let h' = rw (e, n) at h in sym (ap (λ (x : Flag). x.name) (ok-injective h'))
      | inr (text, n) ↦ elim (Option-cases (values.canonical f.kind text)) [
        | inl c ↦ let h' = rw (e, n, c) at h in cc h'
        | inr (t, c) ↦
            let h' = rw (e, n, c) at h in sym (ap (λ (x : Flag). x.name) (ok-injective h'))
      ]
    ]
  ]

  pub visit_all-IsOther :
      (fs gs : List Flag) → visit_all values env fs ≡ ok gs → All IsOther fs → All IsOther gs
  unfolding visit_all
  visit_all-IsOther [] gs e h = subst (All IsOther) (ok-injective e) tt
  visit_all-IsOther (f ∷ fs) gs e (h, hs) =
      let (f', e1, e2) = >>=-eq-ok (override values env f) _ e in
      let (fs', e3, e4) = >>=-eq-ok (visit_all values env fs) _ e2 in
      subst (All IsOther) (ok-injective e4) (
        subst (λ (n : Bytes). (n == codes "version") ≡ false) (sym (override-name f f' e1)) h,
        visit_all-IsOther fs fs' e3 hs,
      )

-- the last flag does not matter for the text of another one
pub text_of-last :
    (fs : List Flag) (name : Bytes) (v v' : Flag)
    → (v.name == name) ≡ false
    → (v'.name == name) ≡ false
    → text_of name (fs ++ v ∷ []) ≡ text_of name (fs ++ v' ∷ [])
text_of-last [] name v v' h k = rw h (rw k refl)
text_of-last (f ∷ fs) name v v' h k = rw (text_of-last fs name v v' h k) refl
