-- ===== src/Prelude/Decimal.antt =====
-- `strconv.Itoa` on numbers that are not negative. Twenty digits are enough for 64 bits.
use Prim.Native.Nat.{ℕ, zero, suc, ◌+◌, ◌-◌, ◌*◌, ◌/◌, ◌%◌, ◌^◌, ◌<◌, ◌≤◌}
use mathlib.Core.Path.{◌≡◌, sym, ap, ◌∙◌}
use mathlib.Core.Logic.{inl, inr}
use mathlib.Core.List.{[], ◌∷◌, ◌++◌, foldl, foldl-append}
use native.Mathlib.Nat.{pow-suc}
use native.Mathlib.Omega.{arith}
use crdmetrics.Prelude.Tests.{ltb, Bool-cases, if◌then◌else◌}
use crdmetrics.Prelude.Lists.{Bytes, All, All-append}

unfoldable pub digits : ℕ → ℕ → Bytes
digits zero n = []
digits (suc f) n =
    let more = digits f (n / 10) in
    if ltb n 10 then (b'0' + n) ∷ [] else more ++ (b'0' + n % 10) ∷ []

unfoldable pub itoa : ℕ → Bytes
unfolding digits
itoa n = digits 20 n

-- The number that decimal digits spell.
abbrev pub value : Bytes → ℕ
value = foldl (λ n c. n * 10 + (c - b'0')) 0

value-digits : (f n : ℕ) → n < 10 ^ f → value (digits f n) ≡ n
unfolding digits
value-digits zero n h = omega arith
value-digits (suc f) n h = elim (Bool-cases (ltb n 10)) [
  | inl small ↦ rw small (omega arith)
  | inr big ↦
      rw (big, foldl-append, value-digits f (n / 10) (omega (arith, pow-suc 10 f))) (omega arith)
]

pub value-itoa : (n : ℕ) → n < 10 ^ 20 → value (itoa n) ≡ n
unfolding itoa
value-itoa n h = value-digits 20 n h

pub itoa-injective : (a b : ℕ) → a < 10 ^ 20 → b < 10 ^ 20 → itoa a ≡ itoa b → a ≡ b
itoa-injective a b h k e = sym (value-itoa a h) ∙ ap value e ∙ value-itoa b k

digits-All :
    (P : ℕ → Type 0) → ((c : ℕ) → b'0' ≤ c → c ≤ b'9' → P c) → (f n : ℕ) → All P (digits f n)
unfolding digits
digits-All P h zero n = tt
digits-All P h (suc f) n = elim (Bool-cases (ltb n 10)) [
  | inl small ↦ rw small (h (b'0' + n) (omega arith) (ground arith), tt)
  | inr big ↦ rw big (
      All-append P (digits f (n / 10)) ((b'0' + n % 10) ∷ []) (digits-All P h f (n / 10))
        (h (b'0' + n % 10) (omega arith) (omega arith), tt))
]

-- Each byte is a digit.
pub itoa-All : (P : ℕ → Type 0) → ((c : ℕ) → b'0' ≤ c → c ≤ b'9' → P c) → (n : ℕ) → All P (itoa n)
unfolding itoa
itoa-All P h n = digits-All P h 20 n
