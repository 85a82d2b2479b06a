-- ===== src/Prelude/Outcome.antt =====
-- What a Go call may do: return a value, return an error, or panic.
use Prim.Native.String.{String}
use mathlib.Core.Path.{◌≡◌, refl}
use mathlib.Core.List.{List}
use mathlib.Core.Option.{Option, none, some}
use mathlib.Core.Logic.{◌⊎◌, inl, inr}
use crdmetrics.Prelude.Lists.{Bytes}

-- One constructor for each error that the code makes. The texts of errors only reach the log.
pub data Error : Type 0 where
  length_mismatch : List Bytes → List Bytes → Error
  bad_float : Bytes → Error
  unknown_resolver : String → Error
  not_an_object : Error
  bad_key : String → Error
  write_failed : Error
  not_found : Error
  api_failed : Error
  poll_failed : Error
  bad_yaml : String → Error

pub data Result {ℓ} (A : Type ℓ) : Type ℓ where
  panic : Result A
  err : Error → Result A
  ok : A → Result A

infixl 5 ◌>>=◌
abbrev pub ◌>>=◌ {ℓ κ} : {A : Type ℓ} {B : Type κ} → Result A → (A → Result B) → Result B
panic >>= next = panic
err e >>= next = err e
ok a >>= next = next a

-- An index expression: out of range, Go panics.
abbrev pub or_panic {ℓ} : {A : Type ℓ} → Option A → Result A
or_panic none = panic
or_panic (some a) = ok a

pub >>=-eq-ok {ℓ κ} :
    {A : Type ℓ} {B : Type κ} (first : Result A) (next : A → Result B) {c : B}
    → (first >>= next) ≡ ok c
    → (a : A) × (first ≡ ok a) × (next a ≡ ok c)
>>=-eq-ok panic next h = cc
>>=-eq-ok (err e) next h = cc
>>=-eq-ok (ok a) next h = (a, refl, h)

pub ok-injective {ℓ} : {A : Type ℓ} {a b : A} → ok a ≡ ok b → a ≡ b
ok-injective h = cc

pub some-injective {ℓ} : {A : Type ℓ} {a b : A} → some a ≡ some b → a ≡ b
some-injective h = cc

-- A bind returns if its first part returns and the rest does so from there.
pub bind-ok {ℓ κ} :
    {A : Type ℓ} {B : Type κ} (m : Result A) (f : A → Result B) (a : A) {r : Result B}
    → m ≡ ok a
    → f a ≡ r
    → (m >>= f) ≡ r
bind-ok m f a h k = rw h k

pub bind-panic {ℓ κ} :
    {A : Type ℓ} {B : Type κ} (m : Result A) (f : A → Result B) → m ≡ panic → (m >>= f) ≡ panic
bind-panic m f h = rw h refl

pub Result-cases {ℓ} :
    {A : Type ℓ} (r : Result A)
    → ((a : A) × (r ≡ ok a)) ⊎ (((e : Error) × (r ≡ err e)) ⊎ (r ≡ panic))
Result-cases (ok a) = inl (a, refl)
Result-cases (err e) = inr (inl (e, refl))
Result-cases panic = inr (inr refl)
