-- ===== src/Examples/Copies.antt =====
-- The theorem on deep copies, applied.
use crdmetrics.Prelude.{String, ◌≡◌, ◌<◌, ◌≤◌, refl, some, none, List, [], ◌∷◌, arith}
use crdmetrics.Resource.{Condition}
use crdmetrics.Resource.DeepCopy.{
  Ref, Metadata, ResourceAt, ListAt, Memory, list_deep_copy, zero_condition,
}
use crdmetrics.Resource.DeepCopy.Reading.{IsIn, read_list, write_conditions, write_resources}
use crdmetrics.Resource.DeepCopy.Independent.{list_deep_copy-independent}

-- metadata is a name
abbrev metadata : Metadata
metadata = record {
  ObjectMeta = String;
  ListMeta = String;
  copy_object_meta = λ m. m;
  copy_list_meta = λ m. m;
}

-- a list of two resources, the first with one condition and the second with none
abbrev memory : Memory metadata
memory = record {
  conditions = (zero_condition ∷ []) ∷ [];
  resources =
      (record {
        object_meta = "one";
        spec = record { configuration = "" };
        status = record { conditions = some 0 };
      }
        ∷ record {
          object_meta = "two";
          spec = record { configuration = "" };
          status = record { conditions = none };
        }
        ∷ [])
      ∷ [];
}

abbrev two_resources : ListAt metadata
two_resources = record { list_meta = "list"; items = some 0 }

two_resources-IsIn : IsIn metadata memory two_resources
two_resources-IsIn = record { items_within = (omega arith, (omega arith, (tt, tt))) }

list_deep_copy-independent_example :
    (read_list metadata
        (list_deep_copy metadata memory two_resources).0
        (list_deep_copy metadata memory two_resources).1
      ≡ read_list metadata memory two_resources)
    × ((k : Ref) (cs : List Condition)
        → k < 1
        → read_list metadata
            (write_conditions metadata k cs (list_deep_copy metadata memory two_resources).0)
            (list_deep_copy metadata memory two_resources).1
          ≡ read_list metadata memory two_resources)
    × ((k : Ref) (rs : List (ResourceAt metadata))
        → k < 1
        → read_list metadata
            (write_resources metadata k rs (list_deep_copy metadata memory two_resources).0)
            (list_deep_copy metadata memory two_resources).1
          ≡ read_list metadata memory two_resources)
    × ((k : Ref) (cs : List Condition)
        → 1 ≤ k
        → read_list metadata
            (write_conditions metadata k cs (list_deep_copy metadata memory two_resources).0)
            two_resources
          ≡ read_list metadata memory two_resources)
    × ((k : Ref) (rs : List (ResourceAt metadata))
        → 1 ≤ k
        → read_list metadata
            (write_resources metadata k rs (list_deep_copy metadata memory two_resources).0)
            two_resources
          ≡ read_list metadata memory two_resources)
list_deep_copy-independent_example =
    list_deep_copy-independent metadata (λ m. refl) (λ m. refl) memory two_resources
      two_resources-IsIn
