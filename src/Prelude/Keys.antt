-- ===== src/Prelude/Keys.antt =====
-- Boolean equality as an interface, for the keys of maps.
use Prim.Native.String.{String}
use mathlib.Core.Path.{◌≡◌, refl}
use mathlib.Core.Logic.{◌↔◌, ◌≢◌}
use mathlib.Core.Bool.{Bool, true, false, ◌&&◌}
use mathlib.Core.List.{[], ◌∷◌}
use native.Mathlib.Omega.{arith}
use text.Mathlib.Text.{◌==◌ as str_eq}
use text.Mathlib.TextEquality.{eq_iff}
use crdmetrics.Prelude.Tests.{eqb}
use crdmetrics.Prelude.Lists.{Bytes}

pub record Eq {ℓ} (A : Type ℓ) : Type ℓ where
  pub equal : A → A → Bool
  pub equal_iff : (x y : A) → (equal x y ≡ true) ↔ (x ≡ y)

infix 50 ◌==◌
abbrev pub ◌==◌ {ℓ} : {A : Type ℓ} ⦃keys : Eq A⦄ → A → A → Bool
◌==◌ ⦃keys⦄ = keys.equal

pub ==_iff {ℓ} : {A : Type ℓ} ⦃e : Eq A⦄ (a b : A) → ((a == b) ≡ true) ↔ (a ≡ b)
==_iff ⦃e⦄ = e.equal_iff

pub ==_refl {ℓ} : {A : Type ℓ} ⦃e : Eq A⦄ (a : A) → (a == a) ≡ true
==_refl a = (==_iff a a).1 refl

pub ==_ne {ℓ} : {A : Type ℓ} ⦃e : Eq A⦄ (a b : A) → a ≢ b → (a == b) ≡ false
==_ne a b h = ground (arith, ==_iff a b)

pub ==_symm {ℓ} : {A : Type ℓ} ⦃e : Eq A⦄ (a b : A) → (a == b) ≡ false → (b == a) ≡ false
==_symm a b h = ground (arith, ==_iff a b, ==_iff b a)

instance abbrev pub string_eq : Eq String
string_eq = record { equal_iff = eq_iff; equal = str_eq }

unfoldable pub bytes_beq : Bytes → Bytes → Bool
bytes_beq [] [] = true
bytes_beq (a ∷ s) (b ∷ t) = eqb a b && bytes_beq s t
bytes_beq _ _ = false

pub bytes_beq_iff : (s t : Bytes) → (bytes_beq s t ≡ true) ↔ (s ≡ t)
unfolding bytes_beq
bytes_beq_iff [] [] = ground arith
bytes_beq_iff [] (b ∷ t) = ground arith
bytes_beq_iff (a ∷ s) [] = ground arith
bytes_beq_iff (a ∷ s) (b ∷ t) = ground (arith, bytes_beq_iff s t)

instance abbrev pub bytes_eq : Eq Bytes
bytes_eq = record { equal_iff = bytes_beq_iff; equal = bytes_beq }
