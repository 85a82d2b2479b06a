-- ===== src/Family/LabelKey.antt =====
-- internal/family.go: `strings.ToLower(regexp.MustCompile(`\W`).ReplaceAllString(key, "_"))`.
use crdmetrics.Prelude.{
  ℕ, zero, suc, ◌+◌, ◌-◌, ◌≤◌, Bytes, Bool, true, false, ◌&&◌, ◌||◌, ◌≡◌, ◌⊎◌, Option, none, some,
  [], ◌∷◌, ltb, leb, eqb, if◌then◌else◌, get_elem?, All, arith, map, Bool-cases, inl, inr,
}

-- `\w` of Go's regular expressions: [0-9A-Za-z_]
unfoldable pub is_word : ℕ → Bool
is_word c =
    leb b'0' c && leb c b'9' || leb b'A' c && leb c b'Z' || leb b'a' c && leb c b'z' || eqb c b'_'

byte_in : Option ℕ → ℕ → ℕ → Bool
byte_in none lo hi = false
byte_in (some c) lo hi = leb lo c && leb c hi

-- How many bytes the first character of the text has: the second result of
-- `utf8.DecodeRuneInString`, 1 for a byte that starts no valid encoding.
rune_width : ℕ → Bytes → ℕ
unfolding byte_in
rune_width c s =
    let cont = λ (i : ℕ). byte_in (get_elem? s i) 0x80 0xBF in
    if ltb c 0xC2
    then 1
    else if ltb c 0xE0
    then (if cont 0 then 2 else 1)
    else if ltb c 0xF0
    then (if byte_in (get_elem? s 0) (if eqb c 0xE0 then 0xA0 else 0x80)
            (if eqb c 0xED then 0x9F else 0xBF)
          && cont 1
        then 3
        else 1)
    else if ltb c 0xF5
    then (if byte_in (get_elem? s 0) (if eqb c 0xF0 then 0x90 else 0x80)
            (if eqb c 0xF4 then 0x8F else 0xBF)
          && cont 1
          && cont 2
        then 4
        else 1)
    else 1

-- ReplaceAllString with `\W` and "_": each character that is no word character becomes one `_`. The
-- number counts the bytes of a replaced character that are still to be passed over.
replace_non_word : ℕ → Bytes → Bytes
unfolding rune_width is_word
replace_non_word n [] = []
replace_non_word (suc n) (c ∷ s) = replace_non_word n s
replace_non_word zero (c ∷ s) =
    (if is_word c then c else b'_')
    ∷ replace_non_word (if is_word c then 0 else rune_width c s - 1) s

-- strings.ToLower on ASCII text
lower_byte : ℕ → ℕ
lower_byte c = if leb b'A' c && leb c b'Z' then c + 32 else c

unfoldable pub label_key : Bytes → Bytes
unfolding replace_non_word lower_byte
label_key s = map lower_byte (replace_non_word 0 s)

-- A byte that may stand in a label key of the exposition format: a lower case letter, a digit or
-- an underscore.
abbrev pub IsKeyByte : ℕ → Type 0
IsKeyByte c = ((b'a' ≤ c) × (c ≤ b'z')) ⊎ (((b'0' ≤ c) × (c ≤ b'9')) ⊎ (c ≡ b'_'))

lower-word : (c : ℕ) → is_word c ≡ true → IsKeyByte (lower_byte c)
unfolding is_word lower_byte
lower-word c h = ground arith

lower-replace : (n : ℕ) (s : Bytes) → All IsKeyByte (map lower_byte (replace_non_word n s))
unfolding replace_non_word
lower-replace n [] = tt
lower-replace (suc n) (c ∷ s) = lower-replace n s
lower-replace zero (c ∷ s) = elim (Bool-cases (is_word c)) [
  | inl h ↦ rw h (lower-word c h, lower-replace 0 s)
  | inr h ↦ rw h (unfold lower_byte in ground arith, lower-replace (rune_width c s - 1) s)
]

-- Whatever the configured key and whatever the bytes of it, the label key that is made of it holds
-- only lower case letters, digits and underscores.
pub label_key-All : (s : Bytes) → All IsKeyByte (label_key s)
unfolding label_key
label_key-All s = lower-replace 0 s
