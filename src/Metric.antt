-- ===== src/Metric.antt =====
-- internal/metric.go: a metric's configuration, and how a resolved metric is written.
pub mod Order
pub mod Sort
pub mod Escape
pub mod Reader
pub mod Line
use mathlib.Core.List.{foldl, reverse}
use crdmetrics.Prelude.{
  ℕ, String, Bytes, codes, Bool, true, false, not, ◌≡◌, Option, none, some, List, [], ◌∷◌, ◌++◌,
  map, length, ltb, eqb, if◌then◌else◌, Error, length_mismatch, bad_float,
}
use crdmetrics.Floats.{Floats}

pub record MetricType : Type 0 where
  pub label_keys : List Bytes
  pub label_values : List Bytes
  pub value : Bytes
  pub resolver : String

-- Go's `<` on strings: byte by byte, a proper prefix first
unfoldable pub lt_bytes : Bytes → Bytes → Bool
lt_bytes [] [] = false
lt_bytes [] (b ∷ t) = true
lt_bytes (a ∷ s) [] = false
lt_bytes (a ∷ s) (b ∷ t) = if ltb a b then true else if eqb a b then lt_bytes s t else false

-- the `less` of `sortLabelset`: shorter keys first, then by bytes
unfoldable pub less : Bytes → Bytes → Bool
less a b = if eqb (length a) (length b) then lt_bytes a b else ltb (length a) (length b)

-- the local type `labelset`: a label's key and value
abbrev pub Labelset : Type 0
Labelset = Bytes × Bytes

-- "Populate". The caller has tested that the two slices have one length.
unfoldable pub zip_labels : List Bytes → List Bytes → List Labelset
zip_labels (k ∷ ks) (v ∷ vs) = (k, v) ∷ zip_labels ks vs
zip_labels _ _ = []

-- One round of the insertion sort in `sort.Slice`, which sorts slices of up to twelve items: the
-- item moves left while it is less than its neighbour. The sorted part stands in reverse.
unfoldable pub sift : Labelset → List Labelset → List Labelset
sift x [] = x ∷ []
sift x (y ∷ ys) = if less x.0 y.0 then y ∷ sift x ys else x ∷ y ∷ ys

unfoldable pub sort_slice : List Labelset → List Labelset
sort_slice l = reverse (foldl (λ sorted x. sift x sorted) [] l)

-- both slices come back: the code sorts them in place
unfoldable pub sort_labelset : List Bytes → List Bytes → List Bytes × List Bytes
sort_labelset ks vs =
    let sorted = sort_slice (zip_labels ks vs) in
    (map (λ (l : Labelset). l.0) sorted, map (λ (l : Labelset). l.1) sorted)

-- strings.NewReplacer("\\", `\\`, "\n", `\n`, "\"", `\"`), one byte at a time
unfoldable pub escape_byte : ℕ → Bytes
escape_byte c =
    if eqb c b'\\'
    then b'\\' ∷ b'\\' ∷ []
    else if eqb c b'\n'
    then b'\\' ∷ b'n' ∷ []
    else if eqb c b'"'
    then b'\\' ∷ b'"' ∷ []
    else c ∷ []

unfoldable pub escape : Bytes → Bytes
unfolding escape_byte
escape [] = []
escape (c ∷ s) = escape_byte c ++ escape s

-- the loop over the labels; what it writes is appended to `writer`
unfoldable pub write_labels : Bytes → Bytes → List Bytes → List Bytes → Bytes
write_labels writer separator (k ∷ ks) (v ∷ vs) =
    write_labels (writer ++ separator ++ k ++ codes "=\"" ++ escape v ++ codes "\"") (codes ",") ks
      vs
write_labels writer separator _ _ = writer

unfoldable pub write_labelset : Bytes → List Bytes → List Bytes → Bytes
write_labelset writer [] vs = writer
write_labelset writer (k ∷ ks) vs = write_labels writer (codes "{") (k ∷ ks) vs ++ codes "}"

module _ (floats : Floats) where
  open floats use {parse_float, format_f}

  -- what is written before the value is parsed stays written
  unfoldable pub write_value : Bytes → Bytes → Bytes × Option Error
  write_value writer resolved = elim (parse_float resolved) [
    | none ↦ (writer, some (bad_float resolved))
    | some x ↦ (writer ++ (format_f x ++ codes "\n"), none)
  ]

  -- writeMetricTo: the writer's content and the error
  unfoldable pub write_metric_to :
      Bytes → Bytes → Bytes → Bytes → Bytes → List Bytes → List Bytes → Bytes × Option Error
  write_metric_to writer g v k resolved keys values =
      if not (eqb (length keys) (length values))
      then (writer, some (length_mismatch keys values))
      else (let (ks, vs) = sort_labelset keys values in
          let ks' = ks ++ codes "group" ∷ codes "version" ∷ codes "kind" ∷ [] in
          let vs' = vs ++ g ∷ v ∷ k ∷ [] in
          write_value (write_labelset writer ks' vs' ++ codes " ") resolved)
