-- ===== src/Metric/Reader.antt =====
-- A reader of the labels of the text exposition format, written from the format's description
-- (https://prometheus.io/docs/instrumenting/exposition_formats): what `writeMetricTo` of
-- internal/metric.go has to satisfy. It is not a translation of code.
use crdmetrics.Prelude.{
  ℕ, zero, suc, Bytes, Bool, true, false, ◌≡◌, ◌≢◌, refl, Option, none, some, List, [], ◌∷◌, ◌++◌,
  append_assoc, All, arith, eqb, if◌then◌else◌,
}
use crdmetrics.Metric.{Labelset, escape_byte, escape}

infixl 5 ◌>>=◌
abbrev pub ◌>>=◌ {ℓ κ} : {A : Type ℓ} {B : Type κ} → Option A → (A → Option B) → Option B
none >>= f = none
some a >>= f = f a

-- what `\c` stands for in a label value
unescape_byte : ℕ → Option ℕ
unescape_byte c =
    if eqb c b'n'
    then some b'\n'
    else if eqb c b'\\'
    then some b'\\'
    else if eqb c b'"'
    then some b'"'
    else none

-- The value up to its closing quote, and what follows. The flag is set behind a backslash.
pub read_value : Bool → Bytes → Option (Bytes × Bytes)
unfolding unescape_byte
read_value pending [] = none
read_value true (c ∷ s) = do d ← unescape_byte c; (v, rest) ← read_value false s; some (d ∷ v, rest)
read_value false (c ∷ s) =
    let escaped = read_value true s in
    let plain : Option (Bytes × Bytes) = (do (v, rest) ← read_value false s; some (c ∷ v, rest)) in
    if eqb c b'"' then some ([], s) else if eqb c b'\\' then escaped else plain

-- The key up to `=`, and what follows.
pub read_key : Bytes → Option (Bytes × Bytes)
read_key [] = none
read_key (c ∷ s) =
    let more : Option (Bytes × Bytes) = (do (k, rest) ← read_key s; some (c ∷ k, rest)) in
    if eqb c b'=' then some ([], s) else more

pub read_quote : Bytes → Option Bytes
read_quote [] = none
read_quote (c ∷ s) = if eqb c b'"' then some s else none

-- The labels up to the closing brace, and what follows. The fuel bounds the number of labels.
unfoldable pub read_labels : ℕ → Bytes → Option (List Labelset × Bytes)
unfolding read_value read_key read_quote
read_labels zero s = none
read_labels (suc fuel) s = do
  (k, s1) ← read_key s
  s2 ← read_quote s1
  (v, s3) ← read_value false s2
  elim s3 [
    | [] ↦ none
    | c ∷ s4 ↦
        (let more : Option (List Labelset × Bytes) = (do
          (ls, rest) ← read_labels fuel s4
          some ((k, v) ∷ ls, rest)) in
          if eqb c b'}' then some ((k, v) ∷ [], s4) else if eqb c b',' then more else none)
  ]

-- No byte of the text is `=`, which ends a label's key.
abbrev pub IsKey : Bytes → Type 0
IsKey = All (λ c. c ≢ b'=')

read_value-escape_byte :
    (c : ℕ) (s v rest : Bytes)
    → read_value false s ≡ some (v, rest)
    → read_value false (escape_byte c ++ s) ≡ some (c ∷ v, rest)
unfolding read_value escape_byte
read_value-escape_byte c s v rest h = ground arith

pub read_value-escape :
    (s rest : Bytes) → read_value false (escape s ++ b'"' ∷ rest) ≡ some (s, rest)
unfolding escape
read_value-escape [] rest = unfold read_value in refl
read_value-escape (c ∷ s) rest =
    rw append_assoc
      (read_value-escape_byte c (escape s ++ b'"' ∷ rest) s rest (read_value-escape s rest))

pub read_key-append : (k rest : Bytes) → IsKey k → read_key (k ++ b'=' ∷ rest) ≡ some (k, rest)
unfolding read_key
read_key-append [] rest h = refl
read_key-append (c ∷ k) rest (h, hs) = ground (arith, read_key-append k rest hs)
