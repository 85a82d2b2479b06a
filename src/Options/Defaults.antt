-- ===== src/Options/Defaults.antt =====
-- internal/options.go: what wins over what.
use mathlib.Core.Path.{subst}
use crdmetrics.Prelude.{
  some-injective, ℕ, ◌≤◌, Bytes, ◌≡◌, ◌⊎◌, refl, sym, Option, none, some, List, [], ◌∷◌, map,
  if◌then◌else◌, ok, ◌==◌, bytes_eq, arith, All, inl, inr, Bool-cases,
}
use crdmetrics.Options.{
  Values, Flag, Env, default_flags, upper_byte, overrider_for_option_name, set_flag,
}

-- Lower case letters and dashes, as in the names of the flags.
abbrev pub IsNameByte : ℕ → Type 0
IsNameByte c = ((b'a' ≤ c) × (c ≤ b'z')) ⊎ (c ≡ b'-')

upper_byte-injective : (c d : ℕ) → IsNameByte c → IsNameByte d → upper_byte c ≡ upper_byte d → c ≡ d
unfolding upper_byte
upper_byte-injective c d h k e = ground arith

map-upper_byte-injective :
    (a b : Bytes)
    → All IsNameByte a
    → All IsNameByte b
    → map upper_byte a ≡ map upper_byte b
    → a ≡ b
map-upper_byte-injective [] [] h k e = refl
map-upper_byte-injective [] (d ∷ b) h k e = cc
map-upper_byte-injective (c ∷ a) [] h k e = cc
map-upper_byte-injective (c ∷ a) (d ∷ b) (h, hs) (k, ks) e =
    let (e1, e2) = split e in
    cc (upper_byte-injective c d h k e1, map-upper_byte-injective a b hs ks e2)
  where
    split : {x y : ℕ} {s t : Bytes} → x ∷ s ≡ y ∷ t → (x ≡ y) × (s ≡ t)
    split e = (cc, cc)

-- Different flags have different environment variables: two names of lower case letters and dashes
-- with the same variable are the same.
pub overrider-injective :
    (a b : Bytes)
    → All IsNameByte a
    → All IsNameByte b
    → overrider_for_option_name a ≡ overrider_for_option_name b
    → a ≡ b
unfolding overrider_for_option_name
overrider-injective a b h k e = map-upper_byte-injective a b h k (cc e)

-- The first flag with a name.
abbrev pub find_flag : Bytes → List Flag → Option Flag
find_flag name [] = none
find_flag name (f ∷ fs) = if f.name == name then some f else find_flag name fs

module _ (values : Values) where
  pub set_flag-same :
      (name text : Bytes) (fs : List Flag) (f : Flag)
      → find_flag name fs ≡ some f
      → values.canonical f.kind text ≡ some f.value
      → set_flag values name text fs ≡ ok fs
  unfolding set_flag
  set_flag-same name text [] f e h = cc
  set_flag-same name text (g ∷ fs) f e h = elim (Bool-cases (g.name == name)) [
    | inl same ↦
        let same_flag = some-injective (rw same at e) in
        let h' =
          subst (λ (x : Flag). values.canonical x.kind text ≡ some x.value) (sym same_flag) h in
        rw same (rw h' refl)
    | inr other ↦ rw other (rw (set_flag-same name text fs f (rw other at e) h) refl)
  ]

abbrev pub AtDefault : Flag → Type 0
AtDefault f = f.value ≡ f.def_value

pub find_flag-All :
    (P : Flag → Type 0) (name : Bytes) (fs : List Flag) (f : Flag)
    → find_flag name fs ≡ some f
    → All P fs
    → P f
find_flag-All P name [] f e h = cc
find_flag-All P name (g ∷ fs) f e (h, hs) = elim (Bool-cases (g.name == name)) [
  | inl same ↦ subst P (some-injective (rw same at e)) h
  | inr other ↦ find_flag-All P name fs f (rw other at e) hs
]

pub default_flags-AtDefault : (env : Env) → All AtDefault (default_flags env)
unfolding default_flags
default_flags-AtDefault env =
    (refl, (refl, (refl, (refl, (refl, (refl, (refl, (refl, (refl, (refl, (refl, tt)))))))))))
