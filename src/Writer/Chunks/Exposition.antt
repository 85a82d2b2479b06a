-- ===== src/Writer/Chunks/Exposition.antt =====
-- internal/writer.go with internal/store.go: the whole text that is written out, family by family.
use mathlib.Core.Path.{subst}
use crdmetrics.Prelude.{
  ℕ, zero, suc, ◌+◌, String, Bytes, false, ◌≡◌, refl, sym, ap, ◌∙◌, none, some, List, [], ◌∷◌, ◌++◌,
  append_assoc, append-nil, length, length-map, get_elem?, All, ok, some-injective, arith,
}
use crdmetrics.Family.{FamilyType}
use crdmetrics.Family.Samples.{IsSamples, no_sample, IsSamples-append}
use crdmetrics.Store.{StoreType}
use crdmetrics.Store.Shape.{IsShaped}
use crdmetrics.Store.Contents.{names, HasSamples, IsServable}
use crdmetrics.Writer.{Sink, Entries, RangeOrder, write_all_to}
use crdmetrics.Writer.Chunks.{
  header_line, All-of_perm, get_or, column, header_chunks, store_chunks, chunks, write_chunks,
  write_all_to-chunks,
}

-- A writer that keeps everything and never fails.
abbrev pub buffer : Sink
buffer = record { State = Bytes; write = λ w text. (w ++ text, false) }

-- The text is, for each header and family name, the header with its line break and then lines of the
-- family.
pub data IsFamilies : List (Bytes × Bytes) → Bytes → Type 0 where
  no_family : IsFamilies [] []
  family :
      {header name : Bytes} {fs : List (Bytes × Bytes)} {text : Bytes} (samples rest : Bytes)
      → text ≡ header_line header ++ (samples ++ rest)
      → IsSamples name samples
      → IsFamilies fs rest
      → IsFamilies ((header, name) ∷ fs) text

abbrev pub headed : List Bytes → List Bytes → List (Bytes × Bytes)
headed (h ∷ hs) (n ∷ ns) = (h, n) ∷ headed hs ns
headed _ _ = []

-- The headers and family names of stores, in order.
abbrev pub families_of : List StoreType → List (Bytes × Bytes)
families_of [] = []
families_of (s ∷ stores) = headed s.headers (names s.families) ++ families_of stores

abbrev pub concat : List Bytes → Bytes
concat [] = []
concat (x ∷ xs) = x ++ concat xs

pub concat-append : (xs ys : List Bytes) → concat (xs ++ ys) ≡ concat xs ++ concat ys
concat-append [] ys = refl
concat-append (x ∷ xs) ys =
    ap (λ (t : Bytes). x ++ t) (concat-append xs ys) ∙ sym (append_assoc x (concat xs) (concat ys))

pub IsFamilies-append :
    {fs gs : List (Bytes × Bytes)} {s : Bytes} (t : Bytes)
    → IsFamilies fs s
    → IsFamilies gs t
    → IsFamilies (fs ++ gs) (s ++ t)
IsFamilies-append t no_family ht = ht
IsFamilies-append t (family {header} samples rest e hs hf) ht =
    family samples (rest ++ t)
      (ap (λ (x : Bytes). x ++ t) e
        ∙ append_assoc (header_line header) (samples ++ rest) t
        ∙ ap (λ (x : Bytes). header_line header ++ x) (append_assoc samples rest t))
      hs (IsFamilies-append t hf ht)

HasSamples-get_or :
    (ns ts : List Bytes) (i : ℕ) {n : Bytes}
    → HasSamples ns ts
    → get_elem? ns i ≡ some n
    → IsSamples n (get_or ts i)
HasSamples-get_or [] ts i h e = cc
HasSamples-get_or (m ∷ ns) [] i h e = absurd h
HasSamples-get_or (m ∷ ns) (t ∷ ts) zero (h, hs) e =
    subst (λ (n : Bytes). IsSamples n t) (some-injective e) h
HasSamples-get_or (m ∷ ns) (t ∷ ts) (suc i) (h, hs) e = HasSamples-get_or ns ts i hs e

column-IsSamples :
    (ns : List Bytes) (i : ℕ) (m : Entries) {n : Bytes}
    → All (λ (e : String × List Bytes). HasSamples ns e.1) m
    → get_elem? ns i ≡ some n
    → IsSamples n (concat (column i m))
column-IsSamples ns i [] h e = no_sample
column-IsSamples ns i ((uid, ts) ∷ m) (h, hs) e =
    IsSamples-append (concat (column i m)) (HasSamples-get_or ns ts i h e)
      (column-IsSamples ns i m hs e)

-- `ns` are the names from index `i` on
Aligned : List Bytes → ℕ → List Bytes → Type 0
Aligned all i [] = Unit
Aligned all i (n ∷ ns) = (get_elem? all i ≡ some n) × Aligned all (i + 1) ns

get_elem?-suc :
    (x : Bytes) (all : List Bytes) (i : ℕ) → get_elem? (x ∷ all) (i + 1) ≡ get_elem? all i
get_elem?-suc x all i = let e : i + 1 ≡ suc i = omega arith in ap (get_elem? (x ∷ all)) e

Aligned-shift :
    (x : Bytes) (all : List Bytes) (i : ℕ) (ns : List Bytes)
    → Aligned all i ns
    → Aligned (x ∷ all) (i + 1) ns
unfolding Aligned
Aligned-shift x all i [] h = tt
Aligned-shift x all i (n ∷ ns) (h, hs) =
    (get_elem?-suc x all i ∙ h, Aligned-shift x all (i + 1) ns hs)

Aligned-self : (ns : List Bytes) → Aligned ns 0 ns
unfolding Aligned
Aligned-self [] = tt
Aligned-self (n ∷ ns) = (refl, Aligned-shift n ns 0 ns (Aligned-self ns))

module _ (order : RangeOrder) where
  header_chunks-IsFamilies :
      (j i : ℕ) (all hs ns : List Bytes) (m : Entries)
      → length hs ≡ length ns
      → Aligned all i ns
      → All (λ (e : String × List Bytes). HasSamples all e.1) m
      → IsFamilies (headed hs ns) (concat (header_chunks order j i hs m))
  unfolding Aligned
  header_chunks-IsFamilies j i all [] ns m e a h = no_family
  header_chunks-IsFamilies j i all (header ∷ hs) [] m e a h = absurd (omega (arith, e))
  header_chunks-IsFamilies j i all (header ∷ hs) (n ∷ ns) m e (a, rest) h =
      family (concat (column i (order.visit j i m))) (concat (header_chunks order j (i + 1) hs m))
        (ap (λ (t : Bytes). header_line header ++ t)
          (concat-append (column i (order.visit j i m)) (header_chunks order j (i + 1) hs m)))
        (column-IsSamples all i (order.visit j i m)
          (All-of_perm (λ (e : String × List Bytes). HasSamples all e.1) (order.visit-perm j i m) h)
          a)
        (header_chunks-IsFamilies j (i + 1) all hs ns m (omega (arith, e)) rest h)

  store_chunks-IsFamilies :
      (j : ℕ) (stores : List StoreType)
      → All IsShaped stores
      → All IsServable stores
      → IsFamilies (families_of stores) (concat (store_chunks order j stores))
  store_chunks-IsFamilies j [] _ _ = no_family
  store_chunks-IsFamilies j (s ∷ stores) (h, hs) (k, ks) =
      subst (IsFamilies (families_of (s ∷ stores)))
        (sym (
          concat-append (header_chunks order j 0 s.headers s.metrics)
            (store_chunks order (j + 1) stores)))
        (IsFamilies-append (concat (store_chunks order (j + 1) stores))
          (header_chunks-IsFamilies j 0 (names s.families) s.headers (names s.families) s.metrics
            (sym h.families_headers ∙ sym (length-map (λ (f : FamilyType). f.name) s.families))
            (Aligned-self (names s.families)) k.entries)
          (store_chunks-IsFamilies (j + 1) stores hs ks))

pub write_chunks-buffer :
    (xs : List Bytes) (w : Bytes) → write_chunks buffer xs w ≡ (w ++ concat xs, none)
unfolding write_chunks
write_chunks-buffer [] w = ap (λ (t : Bytes). (t, none)) (sym (append-nil w))
write_chunks-buffer (x ∷ xs) w =
    write_chunks-buffer xs (w ++ x) ∙ ap (λ (t : Bytes). (t, none)) (append_assoc w x (concat xs))

-- Into a writer that does not fail, what is written of stores is, store by store and family by family,
-- the header with its line break, and then only lines of that family, each of which begins with the
-- prefix, the family's name and an opening brace. Each store must have one text for each header and
-- object, made of lines of its family.
pub write_all_to-IsFamilies :
    (order : RangeOrder) (stores : List StoreType) (w : Bytes)
    → All IsShaped stores
    → All IsServable stores
    → (text : Bytes) × (write_all_to buffer order stores w ≡ ok (w ++ text, none))
      × IsFamilies (families_of stores) text
write_all_to-IsFamilies order stores w h k = (
  concat (chunks order stores),
  write_all_to-chunks buffer order stores w h ∙ ap ok (write_chunks-buffer (chunks order stores) w),
  store_chunks-IsFamilies order 0 stores h k,
)
