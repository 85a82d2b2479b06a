-- ===== src/Metric/Escape.antt =====
-- The replacer of `writeMetricTo` in internal/metric.go keeps a label value on one line.
use crdmetrics.Prelude.{ℕ, Bytes, ◌≢◌, [], ◌∷◌, All-append, arith}
use crdmetrics.Floats.{newline, IsOneLine}
use crdmetrics.Metric.{escape_byte, escape}

escape_byte-IsOneLine : (c : ℕ) → IsOneLine (escape_byte c)
unfolding escape_byte
escape_byte-IsOneLine c = ground arith

pub escape-IsOneLine : (s : Bytes) → IsOneLine (escape s)
unfolding escape
escape-IsOneLine [] = tt
escape-IsOneLine (c ∷ s) =
    All-append (λ b. b ≢ newline) (escape_byte c) (escape s) (escape_byte-IsOneLine c)
      (escape-IsOneLine s)
