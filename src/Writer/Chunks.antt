-- ===== src/Writer/Chunks.antt =====
-- internal/writer.go: what `writeAllTo` writes, as a list of texts.
pub mod Exposition
pub mod Within
use mathlib.Core.List.{Perm, Permᴰ}
use mathlib.Core.List.Perm
use mathlib.Core.Path.{subst}
use crdmetrics.Prelude.{
  if◌then◌else◌, eqb, ◌==◌, bytes_beq, ℕ, zero, suc, ◌+◌, ◌≤◌, ◌<◌, String, Bytes, true, false, ◌≡◌,
  refl, sym, ap, ◌∙◌, Option, none, some, List, [], ◌∷◌, ◌++◌, map, length, get_elem?, All, Error,
  write_failed, ok, arith, Bool-cases, inl, inr,
}
use crdmetrics.Store.{StoreType}
use crdmetrics.Store.Shape.{IsShaped}
use crdmetrics.Writer.{
  Sink, Entries, RangeOrder, ended, Outcome, check, go_on, write_entries, write_headers,
  write_stores, write_all_to,
}

-- The text at an index that is in range.
abbrev pub get_or : List Bytes → ℕ → Bytes
get_or [] i = []
get_or (x ∷ xs) zero = x
get_or (x ∷ xs) (suc i) = get_or xs i

-- The texts of the family `i`, one for each object.
abbrev pub column : ℕ → Entries → List Bytes
column i = map (λ (e : String × List Bytes). get_or e.1 i)

-- A header as it is written: with a line break behind it. An empty one and a lone line break stay.
abbrev pub header_line : Bytes → Bytes
header_line [] = []
header_line (c ∷ []) = if eqb c b'\n' then c ∷ [] else c ∷ b'\n' ∷ []
header_line (c ∷ d ∷ header) = c ∷ d ∷ header ++ b'\n' ∷ []

ended_lem : (header : Bytes) → ended header ≡ header_line header
unfolding ended bytes_beq
ended_lem [] = refl
ended_lem (c ∷ []) = ground arith
ended_lem (c ∷ d ∷ header) = ground arith

module _ (order : RangeOrder) where
  -- Each header, and behind it the texts of its family.
  abbrev pub header_chunks : ℕ → ℕ → List Bytes → Entries → List Bytes
  header_chunks j i [] m = []
  header_chunks j i (header ∷ headers) m =
      header_line header ∷ (column i (order.visit j i m) ++ header_chunks j (i + 1) headers m)

  abbrev pub store_chunks : ℕ → List StoreType → List Bytes
  store_chunks j [] = []
  store_chunks j (s ∷ stores) = header_chunks j 0 s.headers s.metrics ++ store_chunks (j + 1) stores

  abbrev pub chunks : List StoreType → List Bytes
  chunks stores = store_chunks 0 stores

All-of_perm {ℓ κ} : {A : Type ℓ} (P : A → Type κ) {l m : List A} → Permᴰ l m → All P m → All P l
All-of_perm P Permᴰ.nil h = h
All-of_perm P (Permᴰ.cons e d) (p, ps) = (subst P (sym e) p, All-of_perm P d ps)
All-of_perm P (Permᴰ.swap e f) (p, (q, r)) = (subst P (sym e) q, (subst P (sym f) p, r))
All-of_perm P (Permᴰ.trans c d) h = All-of_perm P c (All-of_perm P d h)

-- each entry has a text at `i`
abbrev HasColumn : ℕ → Entries → Type 0
HasColumn i = All (λ (e : String × List Bytes). i < length e.1)

get_elem?-get_or : (xs : List Bytes) (i : ℕ) → i < length xs → get_elem? xs i ≡ some (get_or xs i)
get_elem?-get_or [] i h = absurd (omega arith)
get_elem?-get_or (x ∷ xs) zero h = refl
get_elem?-get_or (x ∷ xs) (suc i) h = get_elem?-get_or xs i (omega arith)

module _ (sink : Sink) where
  open sink use {State, write}

  -- Writes the texts in order and stops behind the first write that fails.
  pub write_chunks : List Bytes → State → State × Option Error
  write_chunks [] w = (w, none)
  write_chunks (c ∷ cs) w = elim (write w c).1 [
    | true ↦ ((write w c).0, some write_failed)
    | false ↦ write_chunks cs (write w c).0
  ]

  -- the rest of the texts, if the first ones were written
  abbrev then_chunks : State × Option Error → List Bytes → State × Option Error
  then_chunks (w, none) cs = write_chunks cs w
  then_chunks (w, some e) cs = (w, some e)

  write_chunks-append :
      (cs ds : List Bytes) (w : State)
      → write_chunks (cs ++ ds) w ≡ then_chunks (write_chunks cs w) ds
  unfolding write_chunks
  write_chunks-append [] ds w = refl
  write_chunks-append (c ∷ cs) ds w = elim (Bool-cases (write w c).1) [
    | inl h ↦ rw (h, write_chunks) refl
    | inr h ↦ rw (h, write_chunks) (write_chunks-append cs ds (write w c).0)
  ]

  go_on-chunks :
      (r : State × Option Error) (ds : List Bytes) (k : State → Outcome sink)
      → ((w : State) → k w ≡ ok (write_chunks ds w))
      → go_on sink (ok r) k ≡ ok (then_chunks r ds)
  go_on-chunks (w, none) ds k h = h w
  go_on-chunks (w, some e) ds k h = refl

  check-chunks :
      (c : Bytes) (ds : List Bytes) (w : State) (k : State → Outcome sink)
      → ((w' : State) → k w' ≡ ok (write_chunks ds w'))
      → check sink (write w c) k ≡ ok (write_chunks (c ∷ ds) w)
  unfolding write_chunks
  check-chunks c ds w k h = elim (Bool-cases (write w c).1) [
    | inl e ↦ rw (e, write_chunks) refl
    | inr e ↦ rw (e, write_chunks) (h (write w c).0)
  ]

  write_entries-chunks :
      (i : ℕ) (m : Entries) (w : State)
      → HasColumn i m
      → write_entries sink i m w ≡ ok (write_chunks (column i m) w)
  unfolding write_entries
  write_entries-chunks i [] w _ = unfold write_chunks in refl
  write_entries-chunks i ((uid, texts) ∷ m) w (h, hs) = rw (get_elem?-get_or texts i h) (
      check-chunks (get_or texts i) (column i m) w (write_entries sink i m)
        (λ w'. write_entries-chunks i m w' hs))

  HasColumns-weaken :
      (i n : ℕ) (m : Entries)
      → i < n
      → All (λ (e : String × List Bytes). length e.1 ≡ n) m
      → HasColumn i m
  HasColumns-weaken i n [] h _ = tt
  HasColumns-weaken i n (e ∷ m) h (p, ps) = (omega arith, HasColumns-weaken i n m h ps)

  module _ (order : RangeOrder) where
    write_headers-chunks :
        (j i n : ℕ) (headers : List Bytes) (m : Entries) (w : State)
        → i + length headers ≤ n
        → All (λ (e : String × List Bytes). length e.1 ≡ n) m
        → write_headers sink order j i headers m w
          ≡ ok (write_chunks (header_chunks order j i headers m) w)
    unfolding write_headers
    write_headers-chunks j i n [] m w h hm = unfold write_chunks in refl
    write_headers-chunks j i n (header ∷ headers) m w h hm =
        ap
          (λ (t : Bytes). check sink (write w t) (λ w1.
            go_on sink (write_entries sink i (order.visit j i m) w1)
              (write_headers sink order j (i + 1) headers m)))
          (ended_lem header)
        ∙ check-chunks (header_line header)
            (column i (order.visit j i m) ++ header_chunks order j (i + 1) headers m) w _
            (λ w1.
              ap (λ r. go_on sink r (write_headers sink order j (i + 1) headers m))
                (write_entries-chunks i (order.visit j i m) w1 (
                  All-of_perm (λ (e : String × List Bytes). i < length e.1) (order.visit-perm j i m)
                    (HasColumns-weaken i n m (omega arith) hm)))
              ∙ go_on-chunks (write_chunks (column i (order.visit j i m)) w1)
                  (header_chunks order j (i + 1) headers m) _
                  (λ w2. write_headers-chunks j (i + 1) n headers m w2 (omega arith) hm)
              ∙ ap ok (
                  sym (
                    write_chunks-append (column i (order.visit j i m))
                      (header_chunks order j (i + 1) headers m) w1)))

    write_stores-chunks :
        (j : ℕ) (stores : List StoreType) (w : State)
        → All IsShaped stores
        → write_stores sink order j stores w ≡ ok (write_chunks (store_chunks order j stores) w)
    unfolding write_stores
    write_stores-chunks j [] w _ = unfold write_chunks in refl
    write_stores-chunks j (s ∷ stores) w (h, hs) =
        ap (λ r. go_on sink r (write_stores sink order (j + 1) stores))
          (write_headers-chunks j 0 (length s.headers) s.headers s.metrics w (omega arith)
            h.entries)
        ∙ go_on-chunks (write_chunks (header_chunks order j 0 s.headers s.metrics) w)
            (store_chunks order (j + 1) stores) _ (λ w'. write_stores-chunks (j + 1) stores w' hs)
        ∙ ap ok (
            sym (
              write_chunks-append (header_chunks order j 0 s.headers s.metrics)
                (store_chunks order (j + 1) stores) w))

    -- If each store has one text for each header and object, then whatever the order in which Go
    -- visits the maps and whichever writes fail, writing does not panic: the headers are written
    -- store by store in their order, each with a line break added (unless it is empty or a lone one), and followed by its family's text for
    -- each object, and the first write that fails is the last one and its error is returned.
    pub write_all_to-chunks :
        (stores : List StoreType) (w : State)
        → All IsShaped stores
        → write_all_to sink order stores w ≡ ok (write_chunks (chunks order stores) w)
    unfolding write_all_to
    write_all_to-chunks stores w h = write_stores-chunks 0 stores w h

column-perm : (i : ℕ) {l m : Entries} → Permᴰ l m → Perm (column i l) (column i m)
column-perm i d = Perm.map (λ (e : String × List Bytes). get_or e.1 i) ∣ d ∣₁

module _ (o p : RangeOrder) where
  header_chunks-perm :
      (j i : ℕ) (headers : List Bytes) (m : Entries)
      → Perm (header_chunks o j i headers m) (header_chunks p j i headers m)
  header_chunks-perm j i [] m = Perm.refl []
  header_chunks-perm j i (header ∷ headers) m = Perm.cons (header_line header) (
      Perm.append
        (Perm.trans (column-perm i (o.visit-perm j i m))
          (Perm.symm (column-perm i (p.visit-perm j i m))))
        (header_chunks-perm j (i + 1) headers m))

  store_chunks-perm :
      (j : ℕ) (stores : List StoreType) → Perm (store_chunks o j stores) (store_chunks p j stores)
  store_chunks-perm j [] = Perm.refl []
  store_chunks-perm j (s ∷ stores) =
      Perm.append (header_chunks-perm j 0 s.headers s.metrics) (store_chunks-perm (j + 1) stores)

-- If each store has one text for each header and object, the order in which Go visits the maps only
-- permutes what is written: under any two orders the same texts are written, each run in an order
-- of its own, up to its first failing write.
pub write_all_to_perm :
    (sink : Sink) (o p : RangeOrder) (stores : List StoreType) (w : sink.State)
    → All IsShaped stores
    → (xs ys : List Bytes) × Perm xs ys
      × (write_all_to sink o stores w ≡ ok (write_chunks sink xs w))
      × (write_all_to sink p stores w ≡ ok (write_chunks sink ys w))
write_all_to_perm sink o p stores w h = (
  chunks o stores,
  chunks p stores,
  store_chunks-perm o p 0 stores,
  write_all_to-chunks sink o stores w h,
  write_all_to-chunks sink p stores w h,
)
