-- ===== src/Metric/Line.antt =====
-- `writeMetricTo` of internal/metric.go: what it writes is one line of the exposition format, from
-- which the labels can be read back.
use crdmetrics.Prelude.{
  ℕ, suc, Bytes, ◌≡◌, ◌≢◌, ◌↔◌, refl, sym, ◌∙◌, ap, none, some, List, [], ◌∷◌, ◌++◌, append_assoc,
  map-append, All, All-append, arith, codes, length, map, eqb_iff,
}
use mathlib.Core.Path.{ap₂}
use crdmetrics.Floats.{Floats, newline, IsOneLine}
use crdmetrics.Metric.{
  Labelset, escape, write_labels, write_labelset, write_value, write_metric_to, zip_labels,
  sort_slice, sort_labelset,
}
use crdmetrics.Metric.Escape.{escape-IsOneLine}
use crdmetrics.Metric.Sort.{All-sort_slice}
use crdmetrics.Metric.Reader.{read_labels, read_value-escape, read_key-append, IsKey}

-- what stands behind a label whose successors are `ls`
closed : List Labelset → Bytes → Bytes
closed [] rest = b'}' ∷ rest
closed ((k, v) ∷ ls) rest = b',' ∷ (k ++ b'=' ∷ (b'"' ∷ (escape v ++ b'"' ∷ closed ls rest)))

opened : List Labelset → Bytes → Bytes
opened [] rest = rest
opened ((k, v) ∷ ls) rest = b'{' ∷ (k ++ b'=' ∷ (b'"' ∷ (escape v ++ b'"' ∷ closed ls rest)))

write_labels-closed :
    (w rest : Bytes) (ls : List Labelset)
    → write_labels w (codes ",") (map (λ (x : Labelset). x.0) ls) (map (λ (x : Labelset). x.1) ls)
        ++ b'}' ∷ rest
      ≡ w ++ closed ls rest
unfolding write_labels closed
write_labels-closed w rest [] = refl
write_labels-closed w rest ((k, v) ∷ ls) = simp (
  write_labels-closed (w ++ b',' ∷ (k ++ b'=' ∷ (b'"' ∷ (escape v ++ b'"' ∷ [])))) rest ls,
  append_assoc,
)

write_labelset-opened :
    (w rest : Bytes) (ls : List Labelset)
    → write_labelset w (map (λ (x : Labelset). x.0) ls) (map (λ (x : Labelset). x.1) ls) ++ rest
      ≡ w ++ opened ls rest
unfolding write_labelset write_labels opened
write_labelset-opened w rest [] = refl
write_labelset-opened w rest ((k, v) ∷ ls) = simp (append_assoc, write_labels-closed)

read_labels-closed :
    (k v rest : Bytes) (ls : List Labelset)
    → IsKey k
    → All (λ (l : Labelset). IsKey l.0) ls
    → read_labels (suc (length ls)) (k ++ b'=' ∷ (b'"' ∷ (escape v ++ b'"' ∷ closed ls rest)))
      ≡ some ((k, v) ∷ ls, rest)
unfolding read_labels closed
read_labels-closed k v rest [] h _ = rw (read_key-append k _ h) (rw (read_value-escape v _) refl)
read_labels-closed k v rest ((j, u) ∷ ls) h (hj, hs) =
    rw (read_key-append k _ h)
      (rw (read_value-escape v _) (rw (read_labels-closed j u rest ls hj hs) refl))

closed-IsOneLine :
    (ls : List Labelset) (rest : Bytes)
    → All (λ (l : Labelset). IsOneLine l.0) ls
    → IsOneLine rest
    → IsOneLine (closed ls rest)
unfolding closed
closed-IsOneLine [] rest _ h = (ground arith, h)
closed-IsOneLine ((k, v) ∷ ls) rest (hk, hs) h = (
  ground arith,
  All-append (λ c. c ≢ newline) k _ hk
      (
        ground arith,
        (
          ground arith,
          All-append (λ c. c ≢ newline) (escape v) _ (escape-IsOneLine v)
              (ground arith, closed-IsOneLine ls rest hs h),
        ),
      ),
)

opened-one_line :
    (ls : List Labelset) (rest : Bytes)
    → ls ≢ []
    → All (λ (l : Labelset). IsOneLine l.0) ls
    → IsOneLine rest
    → (body : Bytes) × (opened ls rest ≡ b'{' ∷ body) × IsOneLine body
unfolding opened
opened-one_line [] rest n _ h = absurd (n refl)
opened-one_line ((k, v) ∷ ls) rest n (hk, hs) h = (
  _,
  refl,
  All-append (λ c. c ≢ newline) k _ hk
      (
        ground arith,
        (
          ground arith,
          All-append (λ c. c ≢ newline) (escape v) _ (escape-IsOneLine v)
              (ground arith, closed-IsOneLine ls rest hs h),
        ),
      ),
)

-- The labels that the code adds to each metric: group, version and kind.
abbrev pub gvk_labels : Bytes → Bytes → Bytes → List Labelset
gvk_labels g v k = (codes "group", g) ∷ (codes "version", v) ∷ (codes "kind", k) ∷ []

-- The labels in the order in which they are written.
abbrev pub written : Bytes → Bytes → Bytes → List Bytes → List Bytes → List Labelset
written g v k keys values = sort_slice (zip_labels keys values) ++ gvk_labels g v k

zip-All :
    (P : Bytes → Type 0) (ks vs : List Bytes)
    → All P ks
    → All (λ (l : Labelset). P l.0) (zip_labels ks vs)
unfolding zip_labels
zip-All P [] vs _ = tt
zip-All P (k ∷ ks) [] _ = tt
zip-All P (k ∷ ks) (v ∷ vs) (h, hs) = (h, zip-All P ks vs hs)

written-All :
    (P : Bytes → Type 0) (g v k : Bytes) (keys values : List Bytes)
    → All P keys
    → P (codes "group") × P (codes "version") × P (codes "kind")
    → All (λ (l : Labelset). P l.0) (written g v k keys values)
written-All P g v k keys values h (p, q, r) =
    All-append (λ (l : Labelset). P l.0) (sort_slice (zip_labels keys values)) (gvk_labels g v k)
      (All-sort_slice (λ (l : Labelset). P l.0) (zip_labels keys values) (zip-All P keys values h))
      (p, (q, (r, tt)))

write_labelset-gvk :
    (w g v k rest : Bytes) (ls : List Labelset)
    → (write_labelset w
            (map (λ (x : Labelset). x.0) ls ++ codes "group" ∷ codes "version" ∷ codes "kind" ∷ [])
            (map (λ (x : Labelset). x.1) ls ++ g ∷ v ∷ k ∷ [])
          ++ codes " ")
        ++ rest
      ≡ w ++ opened (ls ++ gvk_labels g v k) (b' ' ∷ rest)
write_labelset-gvk w g v k rest ls =
    append_assoc _ (codes " ") rest
    ∙ ap₂ (λ ks vs. write_labelset w ks vs ++ b' ' ∷ rest)
        (sym (map-append (λ (x : Labelset). x.0) ls (gvk_labels g v k)))
        (sym (map-append (λ (x : Labelset). x.1) ls (gvk_labels g v k)))
    ∙ write_labelset-opened w (b' ' ∷ rest) (ls ++ gvk_labels g v k)

closed-append : (ls : List Labelset) (r t : Bytes) → closed ls (r ++ t) ≡ closed ls r ++ t
unfolding closed
closed-append [] r t = refl
closed-append ((k, v) ∷ ls) r t = simp (closed-append ls r t, append_assoc)

opened-append : (ls : List Labelset) (r t : Bytes) → opened ls (r ++ t) ≡ opened ls r ++ t
unfolding opened
opened-append [] r t = refl
opened-append ((k, v) ∷ ls) r t = simp (closed-append ls r t, append_assoc)

read_labels-opened :
    (ls : List Labelset) (rest : Bytes)
    → ls ≢ []
    → All (λ (l : Labelset). IsKey l.0) ls
    → (body : Bytes) × (opened ls rest ≡ b'{' ∷ body)
      × (read_labels (length ls) body ≡ some (ls, rest))
unfolding opened
read_labels-opened [] rest h _ = absurd (h refl)
read_labels-opened ((k, v) ∷ ls) rest _ (h, hs) = (_, refl, read_labels-closed k v rest ls h hs)

append-ne-nil : (a : List Labelset) (x : Labelset) (r : List Labelset) → a ++ x ∷ r ≢ []
append-ne-nil [] x r e = cc
append-ne-nil (y ∷ a) x r e = cc

write_value-ok :
    (floats : Floats) (w resolved : Bytes) (x : ℕ)
    → floats.parse_float resolved ≡ some x
    → write_value floats w resolved ≡ (w ++ (floats.format_f x ++ newline ∷ []), none)
unfolding write_value
write_value-ok floats w resolved x p = rw (p, write_value)

module _ (floats : Floats) (w g v k resolved : Bytes) (keys values : List Bytes) where
  write_metric_to-opened :
      (x : ℕ)
      → length keys ≡ length values
      → floats.parse_float resolved ≡ some x
      → write_metric_to floats w g v k resolved keys values ≡ (
        w ++ opened (written g v k keys values) (b' ' ∷ (floats.format_f x ++ newline ∷ [])),
        none,
      )
  unfolding write_metric_to sort_labelset
  write_metric_to-opened x h p = rw ((eqb_iff (length keys) (length values)).1 h) (
      write_value-ok floats _ resolved x p
      ∙ ap (λ (t : Bytes). (t, none))
          (write_labelset-gvk w g v k (floats.format_f x ++ newline ∷ [])
            (sort_slice (zip_labels keys values))))

  -- If the slices have one length and the value parses as a float64, the metric is written behind
  -- what the writer holds: an opening brace, and a text from which a reader of the exposition
  -- format reads back the labels, sorted and followed by group, version and kind, each with the
  -- value that it had before escaping, and after them a space, the value and a line break. The keys
  -- must hold no `=`.
  pub read_labels-write_metric_to :
      (x : ℕ)
      → length keys ≡ length values
      → floats.parse_float resolved ≡ some x
      → All IsKey keys
      → (body : Bytes) × (write_metric_to floats w g v k resolved keys values
          ≡ (w ++ b'{' ∷ body, none))
        × (read_labels (length (written g v k keys values)) body
            ≡ some (written g v k keys values, b' ' ∷ (floats.format_f x ++ newline ∷ [])))
  read_labels-write_metric_to x h p hk =
      let (body, e, r) =
        read_labels-opened (written g v k keys values) (b' ' ∷ (floats.format_f x ++ newline ∷ []))
          (append-ne-nil (sort_slice (zip_labels keys values)) _ _)
          (written-All IsKey g v k keys values hk (ground arith, ground arith, ground arith)) in
      (body, write_metric_to-opened x h p ∙ ap (λ (t : Bytes). (w ++ t, none)) e, r)

  -- Under the same conditions on lengths and value, what is written behind the writer's content is
  -- an opening brace and the rest of one line, ended by its only line break, if no label key holds a
  -- line break: no label value, group, version or kind can break the line.
  pub write_metric_to-one_line :
      (x : ℕ)
      → length keys ≡ length values
      → floats.parse_float resolved ≡ some x
      → All IsOneLine keys
      → (body : Bytes) × (write_metric_to floats w g v k resolved keys values
          ≡ (w ++ b'{' ∷ (body ++ newline ∷ []), none))
        × IsOneLine body
  write_metric_to-one_line x h p hk =
      let ls = written g v k keys values in
      let (body, e, one) =
        opened-one_line ls (b' ' ∷ floats.format_f x)
          (append-ne-nil (sort_slice (zip_labels keys values)) _ _)
          (written-All IsOneLine g v k keys values hk (ground arith, ground arith, ground arith))
          (ground arith, floats.format_f_one_line x) in
      (
        body,
        write_metric_to-opened x h p
            ∙ ap (λ (t : Bytes). (w ++ t, none))
                (opened-append ls (b' ' ∷ floats.format_f x) (newline ∷ [])
                  ∙ ap (λ (t : Bytes). t ++ newline ∷ []) e),
        one,
      )

  -- The call succeeds exactly when the two slices have one length and the value parses as a
  -- float64.
  pub write_metric_to-succeeds_iff :
      ((write_metric_to floats w g v k resolved keys values).1 ≡ none)
      ↔ ((length keys ≡ length values) × (floats.parse_float resolved ≢ none))
  unfolding write_metric_to write_value
  write_metric_to-succeeds_iff = ground arith
