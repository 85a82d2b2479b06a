-- ===== src/Resource/DeepCopy/Reading.antt =====
-- pkg/apis/crdmetrics/v1alpha1/zz_generated.deepcopy.go: how a resource and a
-- list in memory read, and what a write changes of that.
use mathlib.Core.Path.{ap₂}
use crdmetrics.Prelude.{
  ℕ, ◌<◌, ◌≤◌, ◌≡◌, refl, ap, ◌∙◌, Option, none, some, List, [], ◌∷◌, ◌++◌, map, All, length,
}
use crdmetrics.Resource.{Condition, CrdMetricsResourceSpec}
use crdmetrics.Resource.DeepCopy.{Ref, Metadata, ResourceAt, ListAt, Memory, array_at}
use crdmetrics.Resource.DeepCopy.Arrays.{
  write, read_conditions, Within, From, Within-grows, From-less, read_conditions-append,
  read_conditions-write_old, read_conditions-write_new,
}

module _ (metadata : Metadata) where
  open metadata use {ObjectMeta, ListMeta, copy_object_meta, copy_list_meta}

  -- a resource as it reads
  pub record Read : Type 0 where
    pub object_meta : ObjectMeta
    pub spec : CrdMetricsResourceSpec
    pub conditions : Option (List Condition)

  abbrev pub read : List (List Condition) → ResourceAt metadata → Read
  read arrays r = record {
    object_meta = r.object_meta;
    spec = r.spec;
    conditions = read_conditions arrays r.status.conditions;
  }

  abbrev pub read_all : List (List Condition) → List (ResourceAt metadata) → List Read
  read_all arrays rs = map (λ (r : ResourceAt metadata). read arrays r) rs

  abbrev pub AllWithin : ℕ → List (ResourceAt metadata) → Type 0
  AllWithin n = All (λ (r : ResourceAt metadata). Within n r.status.conditions)

  abbrev pub AllFrom : ℕ → List (ResourceAt metadata) → Type 0
  AllFrom n = All (λ (r : ResourceAt metadata). From n r.status.conditions)

  abbrev pub reading : ObjectMeta → CrdMetricsResourceSpec → Option (List Condition) → Read
  reading object_meta spec conditions = record {
    object_meta = object_meta;
    spec = spec;
    conditions = conditions;
  }

  -- the readings of resources whose slices read the same
  pub read_same :
      (arrays arrays' : List (List Condition)) (r : ResourceAt metadata)
      → read_conditions arrays' r.status.conditions ≡ read_conditions arrays r.status.conditions
      → read arrays' r ≡ read arrays r
  read_same arrays arrays' r e = ap (reading r.object_meta r.spec) e

  pub read_all-append :
      (arrays new : List (List Condition)) (rs : List (ResourceAt metadata))
      → AllWithin (length arrays) rs
      → read_all (arrays ++ new) rs ≡ read_all arrays rs
  read_all-append arrays new [] h = refl
  read_all-append arrays new (r ∷ rs) (h, hs) =
      ap₂ (λ (x : Read) (xs : List Read). x ∷ xs)
        (read_same arrays (arrays ++ new) r
          (read_conditions-append arrays new r.status.conditions h))
        (read_all-append arrays new rs hs)

  pub read_all-write_old :
      (arrays : List (List Condition)) (n k : ℕ) (cs : List Condition)
      (rs : List (ResourceAt metadata))
      → AllFrom n rs
      → k < n
      → read_all (write k cs arrays) rs ≡ read_all arrays rs
  read_all-write_old arrays n k cs [] h lt = refl
  read_all-write_old arrays n k cs (r ∷ rs) (h, hs) lt =
      ap₂ (λ (x : Read) (xs : List Read). x ∷ xs)
        (read_same arrays (write k cs arrays) r
          (read_conditions-write_old arrays n k cs r.status.conditions h lt))
        (read_all-write_old arrays n k cs rs hs lt)

  pub read_all-write_new :
      (arrays : List (List Condition)) (n k : ℕ) (cs : List Condition)
      (rs : List (ResourceAt metadata))
      → AllWithin n rs
      → n ≤ k
      → read_all (write k cs arrays) rs ≡ read_all arrays rs
  read_all-write_new arrays n k cs [] h le = refl
  read_all-write_new arrays n k cs (r ∷ rs) (h, hs) le =
      ap₂ (λ (x : Read) (xs : List Read). x ∷ xs)
        (read_same arrays (write k cs arrays) r
          (read_conditions-write_new arrays n k cs r.status.conditions h le))
        (read_all-write_new arrays n k cs rs hs le)

  pub AllWithin-grows :
      (m n : ℕ) (rs : List (ResourceAt metadata)) → m ≤ n → AllWithin m rs → AllWithin n rs
  AllWithin-grows m n [] h k = tt
  AllWithin-grows m n (r ∷ rs) h (k, ks) =
      (Within-grows m n r.status.conditions h k, AllWithin-grows m n rs h ks)

  pub AllFrom-less :
      (m n : ℕ) (rs : List (ResourceAt metadata)) → m ≤ n → AllFrom n rs → AllFrom m rs
  AllFrom-less m n [] h k = tt
  AllFrom-less m n (r ∷ rs) h (k, ks) =
      (From-less m n r.status.conditions h k, AllFrom-less m n rs h ks)

  pub still_read :
      (arrays arrays' new : List (List Condition)) (o : Option Ref)
      → arrays' ≡ arrays ++ new
      → Within (length arrays) o
      → read_conditions arrays' o ≡ read_conditions arrays o
  still_read arrays arrays' new o e h =
      ap (λ (l : List (List Condition)). read_conditions l o) e
      ∙ read_conditions-append arrays new o h

  pub all_read :
      (arrays arrays' new : List (List Condition)) (rs : List (ResourceAt metadata))
      → arrays' ≡ arrays ++ new
      → AllWithin (length arrays) rs
      → read_all arrays' rs ≡ read_all arrays rs
  all_read arrays arrays' new rs e h =
      ap (λ (l : List (List Condition)). read_all l rs) e ∙ read_all-append arrays new rs h

  -- a list as it reads
  pub record ReadList : Type 0 where
    pub list_meta : ListMeta
    pub items : Option (List Read)

  abbrev pub list_reading : ListMeta → Option (List Read) → ReadList
  list_reading list_meta items = record { list_meta = list_meta; items = items }

  abbrev pub read_items : Memory metadata → Option Ref → Option (List Read)
  read_items memory none = none
  read_items memory (some r) = some (read_all memory.conditions (array_at memory.resources r))

  abbrev pub read_list : Memory metadata → ListAt metadata → ReadList
  read_list memory l = record { list_meta = l.list_meta; items = read_items memory l.items }

  abbrev pub ItemsWithin : Memory metadata → Option Ref → Type 0
  ItemsWithin memory none = Unit
  ItemsWithin memory (some r) =
      (r < length memory.resources)
      × AllWithin (length memory.conditions) (array_at memory.resources r)

  -- the slices of a list and of its items have arrays in memory
  pub record IsIn (memory : Memory metadata) (l : ListAt metadata) : Type 0 where
    pub items_within : ItemsWithin memory l.items

  -- the memory after a write to an array of conditions, and to one of resources
  abbrev pub write_conditions : Ref → List Condition → Memory metadata → Memory metadata
  write_conditions k cs memory = record memory { conditions = write k cs memory.conditions }

  abbrev pub write_resources : Ref → List (ResourceAt metadata) → Memory metadata → Memory metadata
  write_resources k rs memory = record memory { resources = write k rs memory.resources }
