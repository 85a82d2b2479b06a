-- ===== src/Resolver/Values.antt =====
-- The Go values that an unstructured object holds (`map[string]interface{}` and what is inside),
-- and the text that `fmt.Sprintf("%v", v)` makes of them, which both resolvers of pkg/resolver use.
use crdmetrics.Prelude.{
  ℕ, ◌+◌, Bytes, Bool, true, false, List, [], ◌∷◌, ◌++◌, codes, itoa, if◌then◌else◌,
}
use crdmetrics.Floats.{Floats}
use crdmetrics.Metric.{lt_bytes}

-- `negsuc n` is -(n + 1).
pub data ℤ : Type 0 where
  pos : ℕ → ℤ
  negsuc : ℕ → ℤ

-- One constructor for each dynamic type that the code tells apart. A float64 is its bits.
mutual
  pub data Value : Type 0 where
    null : Value
    bool : Bool → Value
    int : ℤ → Value
    uint : ℕ → Value
    int64 : ℤ → Value
    float64 : ℕ → Value
    string : Bytes → Value
    list : Items → Value
    object : Fields → Value

  pub data Items : Type 0 where
    nil : Items
    cons : Value → Items → Items

  -- a map with string keys, in the order in which `range` visits it
  pub data Fields : Type 0 where
    end : Fields
    field : Bytes → Value → Fields → Fields

unfoldable pub format_int : ℤ → Bytes
format_int (pos n) = itoa n
format_int (negsuc n) = b'-' ∷ itoa (n + 1)

unfoldable pub format_bool : Bool → Bytes
format_bool true = codes "true"
format_bool false = codes "false"

-- `fmt` prints the entries of a map by ascending keys
unfoldable pub insert_entry : Bytes → Bytes → List (Bytes × Bytes) → List (Bytes × Bytes)
insert_entry k t [] = (k, t) ∷ []
insert_entry k t ((j, u) ∷ es) =
    if lt_bytes k j then (k, t) ∷ (j, u) ∷ es else (j, u) ∷ insert_entry k t es

unfoldable pub join_words : List Bytes → Bytes
join_words [] = []
join_words (w ∷ []) = w
join_words (w ∷ ws) = w ++ b' ' ∷ join_words ws

unfoldable pub entry_words : List (Bytes × Bytes) → List Bytes
entry_words [] = []
entry_words ((k, t) ∷ es) = (k ++ b':' ∷ t) ∷ entry_words es

module _ (floats : Floats) where
  -- fmt.Sprintf("%v", v)
  unfoldable mutual
    pub sprint : Value → Bytes
    sprint null = codes "<nil>"
    sprint (bool b) = format_bool b
    sprint (int i) = format_int i
    sprint (uint n) = itoa n
    sprint (int64 i) = format_int i
    sprint (float64 x) = floats.format_v x
    sprint (string s) = s
    sprint (list xs) = b'[' ∷ (join_words (sprint_items xs) ++ codes "]")
    sprint (object fs) = codes "map[" ++ (join_words (entry_words (sprint_fields fs)) ++ codes "]")

    pub sprint_items : Items → List Bytes
    sprint_items nil = []
    sprint_items (cons v xs) = sprint v ∷ sprint_items xs

    pub sprint_fields : Fields → List (Bytes × Bytes)
    sprint_fields end = []
    sprint_fields (field k v fs) = insert_entry k (sprint v) (sprint_fields fs)
