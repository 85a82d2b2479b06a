-- ===== src/Options/Precedence.antt =====
-- internal/options.go: where the value of a flag comes from.
use mathlib.Core.Path.{subst}
use crdmetrics.Prelude.{
  ℕ, ◌-◌, Bytes, codes, true, false, ◌&&◌, leb, eqb, ◌++◌, All, All-append, some-injective, ◌≡◌,
  refl, sym, ap, ◌∙◌, none, some, List, [], ◌∷◌, map, if◌then◌else◌, ok, ◌>>=◌, >>=-eq-ok,
  ok-injective, ◌==◌, ==_iff, bytes_eq, arith, inl, inr, Bool-cases, Option-cases, Result-cases,
}
use crdmetrics.Options.{
  Values, Flag, Env, default_flags, upper_byte, overrider_for_option_name, set_flag, parse,
  override, visit_all, read,
}
use crdmetrics.Options.Defaults.{
  find_flag, find_flag-All, AtDefault, default_flags-AtDefault, set_flag-same,
}

-- Upper case, and an underscore for a dash.
abbrev pub capital : ℕ → ℕ
capital c = if eqb c b'-' then b'_' else if leb b'a' c && leb c b'z' then c - 32 else c

-- The environment's variable for a flag.
abbrev pub variable_of : Bytes → Bytes
variable_of name = codes "CRDMETRICS_" ++ map capital name

capital_lem : (c : ℕ) → upper_byte c ≡ capital c
unfolding upper_byte
capital_lem c = ground arith

map-capital : (name : Bytes) → map upper_byte name ≡ map capital name
map-capital [] = refl
map-capital (c ∷ name) = rw (capital_lem c, map-capital name) refl

overrider-variable_of : (name : Bytes) → overrider_for_option_name name ≡ variable_of name
unfolding overrider_for_option_name
overrider-variable_of name = ap (λ (s : Bytes). codes "CRDMETRICS_" ++ s) (map-capital name)

-- The argument sets another flag.
abbrev pub IsAboutOther : Bytes → Bytes × Bytes → Type 0
IsAboutOther name (other, text) = (other == name) ≡ false

find_flag-name :
    (name : Bytes) (fs : List Flag) (f : Flag) → find_flag name fs ≡ some f → f.name ≡ name
find_flag-name name [] f h = cc
find_flag-name name (g ∷ fs) f h = elim (Bool-cases (g.name == name)) [
  | inl e ↦ sym (ap (λ (x : Flag). x.name) (some-injective (rw e at h))) ∙ (==_iff g.name name).0 e
  | inr e ↦ find_flag-name name fs f (rw e at h)
]

module _ (values : Values) where
  set_flag-other :
      (name other text : Bytes) (fs fs' : List Flag)
      → (other == name) ≡ false
      → set_flag values other text fs ≡ ok fs'
      → find_flag name fs' ≡ find_flag name fs
  unfolding set_flag
  set_flag-other name other text [] fs' h e = cc
  set_flag-other name other text (g ∷ fs) fs' h e = elim (Bool-cases (g.name == other)) [
    | inl same ↦
        let apart : (g.name == name) ≡ false =
          subst (λ (n : Bytes). (n == name) ≡ false) (sym ((==_iff g.name other).0 same)) h in
        elim (Option-cases (values.canonical g.kind text)) [
          | inl c ↦ let e' = rw (same, c) at e in cc e'
          | inr (t, c) ↦
              sym (ap (find_flag name) (ok-injective (rw (same, c) at e))) ∙ rw apart refl
        ]
    | inr d ↦
        let (gs, e1, e2) = >>=-eq-ok (set_flag values other text fs) _ (rw d at e) in
        sym (ap (find_flag name) (ok-injective e2))
        ∙ rw (set_flag-other name other text fs gs h e1) refl
  ]

  set_flag-sets :
      (name text t : Bytes) (fs fs' : List Flag) (f : Flag)
      → find_flag name fs ≡ some f
      → values.canonical f.kind text ≡ some t
      → set_flag values name text fs ≡ ok fs'
      → find_flag name fs' ≡ some (record f { value = t })
  unfolding set_flag
  set_flag-sets name text t [] fs' f h k e = cc
  set_flag-sets name text t (g ∷ fs) fs' f h k e = elim (Bool-cases (g.name == name)) [
    | inl same ↦
        let is_f = some-injective (rw same at h) in
        let k' = subst (λ (x : Flag). values.canonical x.kind text ≡ some t) (sym is_f) k in
        sym (ap (find_flag name) (ok-injective (rw (same, k') at e)))
        ∙ rw same (ap (λ (x : Flag). some (record x { value = t })) is_f)
    | inr d ↦
        let (gs, e1, e2) = >>=-eq-ok (set_flag values name text fs) _ (rw d at e) in
        sym (ap (find_flag name) (ok-injective e2))
        ∙ rw d (set_flag-sets name text t fs gs f (rw d at h) k e1)
  ]

  parse-other :
      (name : Bytes) (args : List (Bytes × Bytes)) (fs fs' : List Flag)
      → All (IsAboutOther name) args
      → parse values args fs ≡ ok fs'
      → find_flag name fs' ≡ find_flag name fs
  unfolding parse
  parse-other name [] fs fs' h e = sym (ap (find_flag name) (ok-injective e))
  parse-other name ((other, text) ∷ args) fs fs' (h, hs) e =
      let (gs, e1, e2) = >>=-eq-ok (set_flag values other text fs) _ e in
      parse-other name args gs fs' hs e2 ∙ set_flag-other name other text fs gs h e1

  parse-append :
      (args more : List (Bytes × Bytes)) (fs : List Flag)
      → parse values (args ++ more) fs ≡ (parse values args fs >>= λ fs'. parse values more fs')
  unfolding parse
  parse-append [] more fs = refl
  parse-append ((name, text) ∷ args) more fs = elim (Result-cases (set_flag values name text fs)) [
    | inl (gs, e) ↦ rw e (parse-append args more gs)
    | inr (inl (x, e)) ↦ rw e refl
    | inr (inr e) ↦ rw e refl
  ]

  override-name : (env : Env) (f f' : Flag) → override values env f ≡ ok f' → f'.name ≡ f.name
  unfolding override
  override-name env f f' h = elim (Bool-cases (f.value == f.def_value)) [
    | inr e ↦ let h' = rw e at h in sym (ap (λ (x : Flag). x.name) (ok-injective h'))
    | inl e ↦ elim (Option-cases (env (overrider_for_option_name f.name))) [
      | inl n ↦ let h' = rw (e, n) at h in sym (ap (λ (x : Flag). x.name) (ok-injective h'))
      | inr (text, n) ↦ elim (Option-cases (values.canonical f.kind text)) [
        | inl c ↦ let h' = rw (e, n, c) at h in cc h'
        | inr (t, c) ↦
            let h' = rw (e, n, c) at h in sym (ap (λ (x : Flag). x.name) (ok-injective h'))
      ]
    ]
  ]

  visit_all-find :
      (env : Env) (name : Bytes) (fs q : List Flag) (f : Flag)
      → visit_all values env fs ≡ ok q
      → find_flag name fs ≡ some f
      → (g : Flag) × (override values env f ≡ ok g) × (find_flag name q ≡ some g)
  unfolding visit_all
  visit_all-find env name [] q f e h = cc
  visit_all-find env name (x ∷ fs) q f e h =
      let (x', e1, e2) = >>=-eq-ok (override values env x) _ e in
      let (fs', e3, e4) = >>=-eq-ok (visit_all values env fs) _ e2 in
      let is_q = sym (ap (find_flag name) (ok-injective e4)) in
      let same_name = override-name env x x' e1 in
      elim (Bool-cases (x.name == name)) [
        | inl same ↦
            let same' = subst (λ (n : Bytes). (n == name) ≡ true) (sym same_name) same in
            let is_f = some-injective (rw same at h) in
            (x', subst (λ (y : Flag). override values env y ≡ ok x') is_f e1, is_q ∙ rw same' refl)
        | inr other ↦
            let other' = subst (λ (n : Bytes). (n == name) ≡ false) (sym same_name) other in
            let (g, d, k) = visit_all-find env name fs fs' f e3 (rw other at h) in
            (g, d, is_q ∙ rw other' k)
      ]

  -- what the look at the environment leaves of a flag
  module _ (env : Env) (f g : Flag) (e : override values env f ≡ ok g) where
    override-set : (f.value == f.def_value) ≡ false → g ≡ f
    unfolding override
    override-set h = sym (ok-injective (rw h at e))

    override-unset :
        (f.value == f.def_value) ≡ true → env (overrider_for_option_name f.name) ≡ none → g ≡ f
    unfolding override
    override-unset h k = sym (ok-injective (rw (h, k) at e))

    override-variable :
        (v v' : Bytes)
        → (f.value == f.def_value) ≡ true
        → env (overrider_for_option_name f.name) ≡ some v
        → values.canonical f.kind v ≡ some v'
        → g ≡ record f { value = v' }
    unfolding override
    override-variable v v' h k c = sym (ok-injective (rw (h, k, c) at e))

-- What a flag that is set on the command line to a text which means `t` is when `Read` returns.
pub record IsRead (values : Values) (env : Env) (name t : Bytes) (f : Flag) (q : List Flag)
    : Type 0 where
  pub by_command_line :
      (t == f.def_value) ≡ false → find_flag name q ≡ some (record f { value = t })
  pub by_environment :
      (v v' : Bytes)
      → t ≡ f.def_value
      → env (variable_of name) ≡ some v
      → values.canonical f.kind v ≡ some v'
      → find_flag name q ≡ some (record f { value = v' })
  pub by_default :
      t ≡ f.def_value
      → env (variable_of name) ≡ none
      → find_flag name q ≡ some (record f { value = t })

module _ (values : Values) (env : Env) (registered : List Flag)
    (before after : List (Bytes × Bytes)) (name text t : Bytes) (f : Flag)
    (found : find_flag name (registered ++ default_flags env) ≡ some f)
    (unset_before : All (IsAboutOther name) before) (unset_after : All (IsAboutOther name) after)
    (means : values.canonical f.kind text ≡ some t) where
  read-IsRead :
      (q : List Flag)
      → read values env registered (before ++ (name, text) ∷ after) ≡ ok q
      → IsRead values env name t f q
  unfolding read parse
  read-IsRead q e =
      let fs = registered ++ default_flags env in
      let (parsed, e1, e2) = >>=-eq-ok (parse values (before ++ (name, text) ∷ after) fs) _ e in
      let (fs1, e3, e4) =
        >>=-eq-ok (parse values before fs) _
          (sym (parse-append values before ((name, text) ∷ after) fs) ∙ e1) in
      let (fs2, e5, e6) = >>=-eq-ok (set_flag values name text fs1) _ e4 in
      let at1 = parse-other values name before fs fs1 unset_before e3 ∙ found in
      let at2 = set_flag-sets values name text t fs1 fs2 f at1 means e5 in
      let at3 = parse-other values name after fs2 parsed unset_after e6 ∙ at2 in
      let (g, over, at_q) =
        visit_all-find values env name parsed q (record f { value = t }) e2 at3 in
      let named : overrider_for_option_name f.name ≡ variable_of name =
        ap overrider_for_option_name (find_flag-name name fs f found)
        ∙ overrider-variable_of name in
      let is_default : t ≡ f.def_value → (t == f.def_value) ≡ true =
        λ d. (==_iff t f.def_value).1 d in
      record {
        by_command_line =
            λ h. at_q ∙ ap some (override-set values env (record f { value = t }) g over h);
        by_environment = λ v v' d k c.
            at_q
            ∙ ap some (
                override-variable values env (record f { value = t }) g over v v' (is_default d)
                  (ap env named ∙ k) c);
        by_default = λ d k.
            at_q
            ∙ ap some (
                override-unset values env (record f { value = t }) g over (is_default d)
                  (ap env named ∙ k));
      }

  -- A flag that is set once on the command line, among any other flags. If its text means another value
  -- than its default, it has that value when `Read` returns, whatever the environment says. If its text
  -- means its default value, then the variable of the environment wins: the flag has the value that
  -- the variable's text means, or its default if there is no such variable. In that case `Read` does
  -- what it does without the flag (the flags that are registered before having their defaults).
  pub read_precedence :
      All (λ (g : Flag). g.value ≡ g.def_value) registered
      → ((q : List Flag)
          → read values env registered (before ++ (name, text) ∷ after) ≡ ok q
          → IsRead values env name t f q)
        × (t ≡ f.def_value
            → read values env registered (before ++ (name, text) ∷ after)
              ≡ read values env registered (before ++ after))
  unfolding read parse
  read_precedence defaults = (
    read-IsRead,
    λ d.
        let fs = registered ++ default_flags env in
        let at_default = find_flag-All AtDefault name fs f found (
          All-append AtDefault registered (default_flags env) defaults
            (default_flags-AtDefault env)) in
        rw
          (
            parse-append values before ((name, text) ∷ after) fs,
            parse-append values before after fs,
          )
          (elim (Result-cases (parse values before fs)) [
            | inl (fs1, e) ↦ rw e (
                rw
                  (set_flag-same values name text fs1 f
                    (parse-other values name before fs fs1 unset_before e ∙ found)
                    (means ∙ ap some (d ∙ sym at_default)))
                  refl)
            | inr (inl (x, e)) ↦ rw e refl
            | inr (inr e) ↦ rw e refl
          ]),
  )
