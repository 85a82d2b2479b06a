-- ===== src/Floats.antt =====
-- float64 values. antt has no floats, so a float64 is its 64 bits as a number, and what the code
-- asks of `strconv.ParseFloat` and of the verbs `%f` and `%v` of `fmt` is a record of functions.
use crdmetrics.Prelude.{ℕ, Bytes, Option, ◌≢◌, All}

abbrev pub newline : ℕ
newline = b'\n'

-- Holds no line break.
abbrev pub IsOneLine : Bytes → Type 0
IsOneLine = All (λ c. c ≢ newline)

pub record Floats : Type 0 where
  -- strconv.ParseFloat(s, 64); `none` is its error
  pub parse_float : Bytes → Option ℕ
  -- fmt.Sprintf("%f", x)
  pub format_f : ℕ → Bytes
  -- fmt.Sprintf("%v", x)
  pub format_v : ℕ → Bytes
  -- `%f` writes a sign, digits, a point, or NaN and Inf
  pub format_f_one_line : (x : ℕ) → IsOneLine (format_f x)
