-- ===== src/Examples.antt =====
-- Concrete libraries and data, with which the theorems are applied in the modules below, and runs of
-- the code on them.
pub mod Text
pub mod Labels
pub mod Serving
pub mod Status
pub mod Whole
pub mod Queue
pub mod Parallel
pub mod Startup
pub mod Process
pub mod Rounds
pub mod EndToEnd
pub mod Copies
pub mod Body
use mathlib.Core.List.Permᴰ
use crdmetrics.Prelude.{
  ℕ, String, Bytes, codes, Bool, true, false, ◌≡◌, ◌≢◌, refl, Option, none, some, List, [], ◌∷◌,
  ◌++◌, length, if◌then◌else◌, Error, not_an_object, ◌==◌, string_eq, bytes_eq, arith, All,
  get_elem?,
}
use crdmetrics.Prelude.Map.{Map}
use crdmetrics.Floats.{Floats, newline}
use crdmetrics.Metric.{MetricType}
use crdmetrics.Resolver.Values.{Value, null, int, pos, string, list, nil, cons, Fields, end, field}
use crdmetrics.Resolver.Unstructured.{Nested}
use crdmetrics.Resolver.Cel.{CelLib, list_type, go_value}
use crdmetrics.Family.{FamilyType, Unstructured, Libs}
use crdmetrics.Store.{Objects, StoreType}
use crdmetrics.Writer.{Sink, RangeOrder}

-- every non-empty text is a float, namely its length, and every float is written in one way
abbrev parse_length : Bytes → Option ℕ
parse_length [] = none
parse_length (c ∷ s) = some (length s)

pub one_line : ℕ → All (λ c. c ≢ newline) (codes "1.000000")
one_line x = ground arith

abbrev pub floats : Floats
floats = record {
  parse_float = parse_length;
  format_f = λ x. codes "1.000000";
  format_v = λ x. codes "1";
  format_f_one_line = one_line;
}

-- a field of the object itself; a longer path is an error
abbrev nested_field : Fields → List Bytes → Value × Bool × Option Error
nested_field end path = (null, false, none)
nested_field (field k v fs) [] = (null, false, none)
nested_field (field k v fs) (p ∷ []) = if k == p then (v, true, none) else nested_field fs (p ∷ [])
nested_field (field k v fs) (p ∷ q ∷ ps) = (null, false, some not_an_object)

pub nested_field_error :
    (o : Fields) (path : List Bytes)
    → (nested_field o path).2 ≢ none
    → (nested_field o path).1 ≡ false
nested_field_error end path h = refl
nested_field_error (field k v fs) [] h = refl
nested_field_error (field k v fs) (p ∷ []) h = ground (arith, nested_field_error fs (p ∷ []))
nested_field_error (field k v fs) (p ∷ q ∷ ps) h = refl

abbrev pub nested : Nested
nested = record { nested_field_no_copy = nested_field; error_not_found = nested_field_error }

-- the empty expression is no program; every other one yields the list of one number
abbrev parse_query : Bytes → Bytes → Option Bytes
parse_query env [] = none
parse_query env (c ∷ s) = some (c ∷ s)

abbrev pub cel : CelLib
cel = record {
  Env = Bytes;
  Ast = Bytes;
  Program = Bytes;
  new_env = some [];
  parse = parse_query;
  program = λ env ast. some ast;
  eval = λ p o.
      some (record { type_of = list_type; value = go_value (list (cons (int (pos 7)) nil)) });
}

abbrev pub libs : Libs
libs = record { floats = floats; nested = nested; cel = cel }

abbrev pub fields : Fields
fields = field (codes "replicas") (int (pos 3)) (field (codes "name") (string (codes "a\nb")) end)

abbrev pub pod : Unstructured
pod = record {
  object = fields;
  uid = "uid-1";
  group = codes "example.com";
  version = codes "v1";
  kind = codes "Foo";
}

abbrev pub metric : MetricType
metric = record {
  label_keys = codes "Name" ∷ [];
  label_values = codes "name" ∷ [];
  value = codes "replicas";
  resolver = "unstructured";
}

abbrev pub family : FamilyType
family = record {
  name = codes "foo_replicas";
  help = codes "Replicas of a Foo.";
  t = [];
  metrics = some metric ∷ [];
  resolver = "unstructured";
  label_keys = codes "team" ∷ [];
  label_values = codes "core" ∷ [];
}

-- an object is what its conversion gives; `none` cannot be converted
abbrev uid_of : Option Unstructured → Option String
uid_of none = none
uid_of (some u) = some u.uid

abbrev pub objects : Objects
objects = record {
  Object = Option Unstructured;
  to_unstructured = λ o. o;
  accessor_uid = uid_of;
  same_uid = λ o u e. rw e refl;
}

-- a buffer that never fails
abbrev pub buffer : Sink
buffer = record { State = Bytes; write = λ w text. (w ++ text, false) }

abbrev pub in_order : RangeOrder
in_order = record { visit = λ j i m. m; visit-perm = λ j i m. Permᴰ.refl m }

abbrev pub labels_of : Bytes → Bytes → Bytes → List Bytes
labels_of a b c = a ∷ b ∷ c ∷ []
