-- ===== src/Writer.antt =====
-- internal/writer.go: how the metrics of a group of stores are written out. The writer holds the read
-- lock of every store while it runs, so it sees each of them in one state.
pub mod Chunks
use mathlib.Core.List.{Permᴰ}
use crdmetrics.Prelude.{
  ℕ, suc, ◌+◌, String, Bytes, codes, Bool, true, false, not, ◌&&◌, Option, none, some, List, [],
  ◌∷◌, ◌++◌, get_elem?, if◌then◌else◌, Error, write_failed, Result, ok, err, panic, or_panic, ◌>>=◌,
  ◌==◌, bytes_eq,
}
use crdmetrics.Prelude.Map.{Map}
use crdmetrics.Floats.{newline}
use crdmetrics.Store.{StoreType}

-- An `io.Writer`: what a `Write` makes of its state, and whether it returned an error.
pub record Sink : Type 1 where
  pub State : Type 0
  pub write : State → Bytes → State × Bool

abbrev pub Entries : Type 0
Entries = Map String (List Bytes)

-- The order in which `range` visits a store's map, at each store and header anew.
pub record RangeOrder : Type 0 where
  pub visit : ℕ → ℕ → Entries → Entries
  pub visit-perm : (j i : ℕ) (m : Entries) → Permᴰ (visit j i m) m

-- a header that is neither empty nor a line break gets one
unfoldable pub ended : Bytes → Bytes
ended header =
    if not (header == []) && not (header == newline ∷ []) then header ++ codes "\n" else header

module _ (sink : Sink) where
  open sink use {State, write}

  abbrev pub Outcome : Type 0
  Outcome = Result (State × Option Error)

  -- after a write: return its error, or go on
  abbrev pub check : State × Bool → (State → Outcome) → Outcome
  check (w, failed) k = elim failed [ true ↦ ok (w, some write_failed) | false ↦ k w ]

  -- after an inner loop: leave with its error, or go on
  abbrev pub go_on : Outcome → (State → Outcome) → Outcome
  go_on (ok (w, some e)) k = ok (w, some e)
  go_on (ok (w, none)) k = k w
  go_on (err e) k = err e
  go_on panic k = panic

  unfoldable pub write_entries : ℕ → Entries → State → Outcome
  write_entries i [] w = ok (w, none)
  write_entries i ((uid, metric_families) ∷ m) w = do
    text ← or_panic (get_elem? metric_families i)
    check (write w text) (write_entries i m)

  module _ (order : RangeOrder) where
    open order use {visit}

    -- the loop over the headers of the store `j` from index `i` on
    unfoldable pub write_headers : ℕ → ℕ → List Bytes → Entries → State → Outcome
    write_headers j i [] m w = ok (w, none)
    write_headers j i (header ∷ headers) m w =
        check (write w (ended header))
          (λ w1. go_on (write_entries i (visit j i m) w1) (write_headers j (i + 1) headers m))

    unfoldable pub write_stores : ℕ → List StoreType → State → Outcome
    write_stores j [] w = ok (w, none)
    write_stores j (s ∷ stores) w =
        go_on (write_headers j 0 s.headers s.metrics w) (write_stores (j + 1) stores)

    -- writeAllTo; with no stores it returns at once
    unfoldable pub write_all_to : List StoreType → State → Outcome
    write_all_to stores w = write_stores 0 stores w
