-- ===== src/Examples/Text.antt =====
-- The theorems on internal/metric.go, internal/family.go and pkg/resolver, applied.
use mathlib.Core.List.{Pairwise, mem-cons, not-mem-nil, Perm, Nodup, Nodup-cons}
use mathlib.Core.List.Perm
use mathlib.Core.Logic.Or
use mathlib.Core.HLevel.{⊥_prop}
use crdmetrics.Prelude.{
  Bytes, codes, false, ◌≡◌, refl, Option, none, some, List, [], ◌∷◌, ◌++◌, length, string_eq,
  bytes_eq, arith, Error, itoa, bytes_beq,
}
use crdmetrics.Prelude.Map.{lookup, insert}
use crdmetrics.Metric.{write_metric_to, sort_labelset, zip_labels}
use crdmetrics.Metric.Sort.{sort_labelset_of_perm}
use crdmetrics.Metric.Reader.{read_labels}
use crdmetrics.Metric.Line.{written, read_labels-write_metric_to}
use crdmetrics.Resolver.Values.{int64, pos, list, nil, cons}
use crdmetrics.Resolver.Cel.{
  CelLib, list_type, resolve_list, go_value, Val, is_primitive, resolve, of_output, by_type,
  resolve_items,
}
use crdmetrics.Resolver.Cel.Fallback.{resolve-misses, output, is_primitive_type}
use crdmetrics.Resolver.Cel.Composite.{resolve_of_int64}
use crdmetrics.Family.LabelKey.{label_key}
use crdmetrics.Examples.{floats, cel, fields}

abbrev keys : List Bytes
keys = codes "zone" ∷ codes "app" ∷ []

abbrev values : List Bytes
values = codes "a\"b" ∷ codes "c\nd" ∷ []

abbrev swapped_keys : List Bytes
swapped_keys = codes "app" ∷ codes "zone" ∷ []

abbrev swapped_values : List Bytes
swapped_values = codes "c\nd" ∷ codes "a\"b" ∷ []

abbrev written_to : Bytes × Option Error
written_to =
    write_metric_to floats (codes "up") (codes "g") (codes "v1") (codes "K") (codes "3") keys values

read_labels-write_metric_to_example :
    (body : Bytes) × (written_to ≡ (codes "up" ++ b'{' ∷ body, none))
    × (read_labels (length (written (codes "g") (codes "v1") (codes "K") keys values)) body
        ≡ some (written (codes "g") (codes "v1") (codes "K") keys values, codes " 1.000000\n"))
read_labels-write_metric_to_example =
    read_labels-write_metric_to floats (codes "up") (codes "g") (codes "v1") (codes "K") (codes "3")
      keys values 0 refl refl (ground arith)

keys-Nodup : Nodup keys
keys-Nodup = Nodup-cons.1 (
  λ m. Or.elim ⊥_prop (mem-cons.0 m) (λ e. cc e) not-mem-nil,
  Nodup-cons.1 (not-mem-nil, Pairwise.nil),
)

keys-swapped : Perm (zip_labels keys values) (zip_labels swapped_keys swapped_values)
unfolding zip_labels
keys-swapped = Perm.swap _ _ _

sort_labelset_of_perm_example :
    sort_labelset keys values ≡ sort_labelset swapped_keys swapped_values
sort_labelset_of_perm_example =
    sort_labelset_of_perm keys values swapped_keys swapped_values refl keys-Nodup keys-swapped

no_own_entry : lookup (codes "o.xs") (resolve floats cel (codes "o.xs") fields) ≡ none
unfolding lookup resolve of_output by_type resolve_list resolve_items is_primitive insert itoa
    bytes_beq
no_own_entry = refl

resolve-misses_example :
    (out : Val) × (output cel (codes "o.xs") fields ≡ some out)
    × (is_primitive_type out.type_of ≡ false)
resolve-misses_example = resolve-misses floats cel (codes "o.xs") fields no_own_entry

-- a program that yields a list of two int64
abbrev int64_cel : CelLib
int64_cel = record cel {
  eval = λ p o. some (record {
    type_of = list_type;
    value = go_value (list (cons (int64 (pos 7)) (cons (int64 (pos 8)) nil)));
  });
}

resolve_of_int64_example : resolve floats int64_cel (codes "o.xs") fields ≡ []
resolve_of_int64_example =
    resolve_of_int64 floats int64_cel (codes "o.xs") fields [] (codes "o.xs") (codes "o.xs") _
      (pos 7 ∷ pos 8 ∷ []) refl refl refl refl refl refl

label_key_run : label_key (codes "o.Metadata-Name") ≡ codes "o_metadata_name"
unfolding label_key
label_key_run = refl
