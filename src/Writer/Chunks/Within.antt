-- ===== src/Writer/Chunks/Within.antt =====
-- internal/writer.go: the text of an object is within what is written.
use mathlib.Core.List.{Permᴰ}
use mathlib.Core.Path.{subst}
use crdmetrics.Prelude.{
  ℕ, zero, suc, ◌+◌, ◌<◌, String, Bytes, ◌≡◌, sym, ap, ◌∙◌, some, List, [], ◌∷◌, ◌++◌, append_assoc,
  length, get_elem?, some-injective, arith,
}
use crdmetrics.Store.{StoreType}
use crdmetrics.Writer.{Entries, RangeOrder}
use crdmetrics.Writer.Chunks.{header_line, get_or, column, header_chunks, store_chunks}
use crdmetrics.Writer.Chunks.Exposition.{concat, concat-append}

-- A text is the other one between a text before it and one behind it.
abbrev pub Within : Bytes → Bytes → Type 0
Within part text = (before : Bytes) × (after : Bytes) × (text ≡ before ++ (part ++ after))

pub Within-left : (part a b : Bytes) → Within part a → Within part (a ++ b)
Within-left part a b (before, after, e) = (
  before,
  after ++ b,
  ap (λ (t : Bytes). t ++ b) e
      ∙ append_assoc before (part ++ after) b
      ∙ ap (λ (t : Bytes). before ++ t) (append_assoc part after b),
)

pub Within-right : (part a b : Bytes) → Within part b → Within part (a ++ b)
Within-right part a b (before, after, e) =
    (a ++ before, after, ap (λ (t : Bytes). a ++ t) e ∙ sym (append_assoc a before (part ++ after)))

get_elem?_of_perm {ℓ} :
    {A : Type ℓ} {l m : List A} (k : ℕ) (x : A)
    → Permᴰ l m
    → get_elem? m k ≡ some x
    → (n : ℕ) × (get_elem? l n ≡ some x)
get_elem?_of_perm k x Permᴰ.nil h = (k, h)
get_elem?_of_perm zero x (Permᴰ.cons e d) h = (zero, ap some e ∙ h)
get_elem?_of_perm (suc k) x (Permᴰ.cons e d) h =
    let (n, at_n) = get_elem?_of_perm k x d h in (suc n, at_n)
get_elem?_of_perm zero x (Permᴰ.swap e f) h = (1, ap some f ∙ h)
get_elem?_of_perm (suc zero) x (Permᴰ.swap e f) h = (0, ap some e ∙ h)
get_elem?_of_perm (suc (suc k)) x (Permᴰ.swap e f) h = (suc (suc k), h)
get_elem?_of_perm k x (Permᴰ.trans c d) h =
    let (n, at_n) = get_elem?_of_perm k x d h in get_elem?_of_perm n x c at_n

get_or_lem : (ts : List Bytes) (i : ℕ) (t : Bytes) → get_elem? ts i ≡ some t → get_or ts i ≡ t
get_or_lem [] i t h = cc
get_or_lem (x ∷ ts) zero t h = some-injective h
get_or_lem (x ∷ ts) (suc i) t h = get_or_lem ts i t h

column-Within :
    (i : ℕ) (m : Entries) (n : ℕ) (e : String × List Bytes) (raw : Bytes)
    → get_elem? m n ≡ some e
    → get_elem? e.1 i ≡ some raw
    → Within raw (concat (column i m))
column-Within i [] n e raw h k = cc
column-Within i (x ∷ m) zero e raw h k =
    let at_x =
      ap (λ (y : String × List Bytes). get_or y.1 i) (some-injective h) ∙ get_or_lem e.1 i raw k in
    ([], concat (column i m), ap (λ (t : Bytes). t ++ concat (column i m)) at_x)
column-Within i (x ∷ m) (suc n) e raw h k =
    Within-right raw (get_or x.1 i) (concat (column i m)) (column-Within i m n e raw h k)

module _ (order : RangeOrder) where
  header_chunks-Within :
      (j i d : ℕ) (headers : List Bytes) (m : Entries) (n : ℕ) (e : String × List Bytes)
      (raw : Bytes)
      → d < length headers
      → get_elem? m n ≡ some e
      → get_elem? e.1 (i + d) ≡ some raw
      → Within raw (concat (header_chunks order j i headers m))
  header_chunks-Within j i d [] m n e raw h at_n at_d = absurd (omega (arith, h))
  header_chunks-Within j i zero (header ∷ headers) m n e raw h at_n at_d =
      let (n', at_n') = get_elem?_of_perm n e (order.visit-perm j i m) at_n in
      let texts = column i (order.visit j i m) in
      let rest = header_chunks order j (i + 1) headers m in
      Within-right raw (header_line header) (concat (texts ++ rest)) (
        subst (Within raw) (sym (concat-append texts rest)) (
          Within-left raw (concat texts) (concat rest) (
            column-Within i (order.visit j i m) n' e raw at_n'
              (subst (λ (k : ℕ). get_elem? e.1 k ≡ some raw) (omega arith) at_d))))
  header_chunks-Within j i (suc d) (header ∷ headers) m n e raw h at_n at_d =
      let texts = column i (order.visit j i m) in
      let rest = header_chunks order j (i + 1) headers m in
      Within-right raw (header_line header) (concat (texts ++ rest)) (
        subst (Within raw) (sym (concat-append texts rest)) (
          Within-right raw (concat texts) (concat rest) (
            header_chunks-Within j (i + 1) d headers m n e raw (omega (arith, h)) at_n
              (subst (λ (k : ℕ). get_elem? e.1 k ≡ some raw) (omega arith) at_d))))

  -- The text of an object for one of a store's headers is within what is written of the stores.
  pub store_chunks-Within :
      (j : ℕ) (stores : List StoreType) (k i n : ℕ) (s : StoreType) (e : String × List Bytes)
      (raw : Bytes)
      → get_elem? stores k ≡ some s
      → i < length s.headers
      → get_elem? s.metrics n ≡ some e
      → get_elem? e.1 i ≡ some raw
      → Within raw (concat (store_chunks order j stores))
  store_chunks-Within j [] k i n s e raw at_k h at_n at_i = cc
  store_chunks-Within j (t ∷ stores) zero i n s e raw at_k h at_n at_i =
      let first = header_chunks order j 0 t.headers t.metrics in
      let rest = store_chunks order (j + 1) stores in
      let same = sym (some-injective at_k) in
      subst (Within raw) (sym (concat-append first rest)) (
        Within-left raw (concat first) (concat rest) (
          subst
            (λ (u : StoreType). Within raw (concat (header_chunks order j 0 u.headers u.metrics)))
            same
            (header_chunks-Within j 0 i s.headers s.metrics n e raw h at_n
              (subst (λ (k : ℕ). get_elem? e.1 k ≡ some raw) (omega arith) at_i))))
  store_chunks-Within j (t ∷ stores) (suc k) i n s e raw at_k h at_n at_i =
      let first = header_chunks order j 0 t.headers t.metrics in
      let rest = store_chunks order (j + 1) stores in
      subst (Within raw) (sym (concat-append first rest)) (
        Within-right raw (concat first) (concat rest)
          (store_chunks-Within (j + 1) stores k i n s e raw at_k h at_n at_i))
