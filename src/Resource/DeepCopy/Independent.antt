-- ===== src/Resource/DeepCopy/Independent.antt =====
-- pkg/apis/crdmetrics/v1alpha1/zz_generated.deepcopy.go: a copied list is equal to the list, and writes
-- to the one are not seen in the other.
use mathlib.Core.Path.{ap₂}
use crdmetrics.Prelude.{
  ◌+◌, ◌<◌, ◌≤◌, ◌≡◌, refl, sym, ap, ◌∙◌, Option, none, some, List, [], ◌∷◌, ◌++◌, length,
  length-append, arith, append-nil, append_assoc,
}
use crdmetrics.Resource.{Condition}
use crdmetrics.Resource.DeepCopy.{
  Ref, Metadata, ResourceAt, ListAt, Memory, array_at, status_deep_copy, resource_deep_copy,
  copy_items, copy_slice, list_deep_copy,
}
use crdmetrics.Resource.DeepCopy.Arrays.{
  write, array_at-write, array_at-append, array_at-last, status_deep_copy-IsCopy,
}
use crdmetrics.Resource.DeepCopy.Reading.{
  Read, reading, read_all, AllWithin, AllFrom, read_all-write_old, read_all-write_new,
  AllWithin-grows, AllFrom-less, still_read, all_read, read_items, list_reading, read_list,
  ItemsWithin, IsIn, write_conditions, write_resources,
}

module _ (metadata : Metadata) where
  open metadata use {ObjectMeta, ListMeta, copy_object_meta, copy_list_meta}

  -- what copies `rs'` in `arrays'` are of `rs` in `arrays`
  record AreCopies (arrays : List (List Condition)) (rs : List (ResourceAt metadata))
      (arrays' : List (List Condition)) (rs' : List (ResourceAt metadata)) : Type 0 where
    new : List (List Condition)
    grown : arrays' ≡ arrays ++ new
    same : read_all metadata arrays' rs' ≡ read_all metadata arrays rs
    fresh : AllFrom metadata (length arrays) rs'

  module _ (equal_meta : (m : ObjectMeta) → copy_object_meta m ≡ m) where
    copy_items-AreCopies :
        (arrays : List (List Condition)) (rs : List (ResourceAt metadata))
        → AllWithin metadata (length arrays) rs
        → AreCopies arrays rs (copy_items metadata arrays rs).0 (copy_items metadata arrays rs).1
    unfolding copy_items resource_deep_copy
    copy_items-AreCopies arrays [] h = record {
      new = [];
      grown = sym (append-nil arrays);
      same = refl;
      fresh = tt;
    }
    copy_items-AreCopies arrays (r ∷ rs) (h, hs) =
        let one = status_deep_copy-IsCopy arrays r.status in
        let arrays1 = (status_deep_copy arrays r.status).0 in
        let status1 = (status_deep_copy arrays r.status).1 in
        let longer : length arrays1 ≡ length arrays + length one.new =
          ap (λ (l : List (List Condition)). length l) one.grown ∙ length-append arrays one.new in
        let rest =
          copy_items-AreCopies arrays1 rs
            (AllWithin-grows metadata (length arrays) (length arrays1) rs (omega arith) hs) in
        record {
          new = one.new ++ rest.new;
          grown =
              rest.grown
              ∙ ap (λ (l : List (List Condition)). l ++ rest.new) one.grown
              ∙ append_assoc arrays one.new rest.new;
          same =
              ap₂ (λ (x : Read metadata) (xs : List (Read metadata)). x ∷ xs)
                (ap₂ (λ (m : ObjectMeta) (o : Option (List Condition)). reading metadata m r.spec o)
                  (equal_meta r.object_meta)
                  (still_read metadata arrays1 (copy_items metadata arrays1 rs).0 rest.new
                      status1.conditions rest.grown one.within
                    ∙ one.same))
                (rest.same ∙ all_read metadata arrays arrays1 one.new rs one.grown hs);
          fresh = (
            one.fresh,
            AllFrom-less metadata (length arrays) (length arrays1) _ (omega arith) rest.fresh,
          );
        }

    -- what holds of a copied slice of items
    record CopiedItems (memory : Memory metadata) (o : Option Ref) (memory' : Memory metadata)
        (o' : Option Ref) : Type 0 where
      equal : read_items metadata memory' o' ≡ read_items metadata memory o
      old_conditions :
          (k : Ref) (cs : List Condition)
          → k < length memory.conditions
          → read_items metadata (write_conditions metadata k cs memory') o'
            ≡ read_items metadata memory o
      old_resources :
          (k : Ref) (rs : List (ResourceAt metadata))
          → k < length memory.resources
          → read_items metadata (write_resources metadata k rs memory') o'
            ≡ read_items metadata memory o
      new_conditions :
          (k : Ref) (cs : List Condition)
          → length memory.conditions ≤ k
          → read_items metadata (write_conditions metadata k cs memory') o
            ≡ read_items metadata memory o
      new_resources :
          (k : Ref) (rs : List (ResourceAt metadata))
          → length memory.resources ≤ k
          → read_items metadata (write_resources metadata k rs memory') o
            ≡ read_items metadata memory o

    copy_slice-CopiedItems :
        (memory : Memory metadata) (m : ListMeta) (o : Option Ref)
        → ItemsWithin metadata memory o
        → CopiedItems memory o
            (copy_slice metadata memory m o).0
            (copy_slice metadata memory m o).1.items
    copy_slice-CopiedItems memory m none h = record {
      equal = refl;
      old_conditions = λ k cs lt. refl;
      old_resources = λ k rs lt. refl;
      new_conditions = λ k cs le. refl;
      new_resources = λ k rs le. refl;
    }
    copy_slice-CopiedItems memory m (some r) (lt, hs) =
        let rs = array_at memory.resources r in
        let copies = copy_items-AreCopies memory.conditions rs hs in
        let items = (copy_items metadata memory.conditions rs).1 in
        let arrays = (copy_items metadata memory.conditions rs).0 in
        let n = length memory.conditions in
        let resources = memory.resources ++ items ∷ [] in
        let last = length memory.resources in
        let at_last = array_at-last memory.resources items in
        let at_r = array_at-append memory.resources (items ∷ []) r lt in
        let unchanged = all_read metadata memory.conditions arrays copies.new rs copies.grown hs in
        record {
          equal = ap some (ap (read_all metadata arrays) at_last ∙ copies.same);
          old_conditions = λ k cs old. ap some (
              ap (read_all metadata (write k cs arrays)) at_last
              ∙ read_all-write_old metadata arrays n k cs items copies.fresh old
              ∙ copies.same);
          old_resources = λ k ws old. ap some (
              ap (read_all metadata arrays)
                (array_at-write resources k last ws (λ e. omega arith) ∙ at_last)
              ∙ copies.same);
          new_conditions = λ k cs new. ap some (
              ap (read_all metadata (write k cs arrays)) at_r
              ∙ read_all-write_new metadata arrays n k cs rs hs new
              ∙ unchanged);
          new_resources = λ k ws new. ap some (
              ap (read_all metadata arrays)
                (array_at-write resources k r ws (λ e. omega arith) ∙ at_r)
              ∙ unchanged);
        }

    copy_slice-meta :
        (memory : Memory metadata) (m : ListMeta) (o : Option Ref)
        → (copy_slice metadata memory m o).1.list_meta ≡ copy_list_meta m
    copy_slice-meta memory m none = refl
    copy_slice-meta memory m (some r) = refl

    -- A deep copy of a list, whose slices and whose items' slices have arrays in memory, reads like the
    -- list, if the copies of metadata are equal to it. No write to an array of conditions or of
    -- resources that was there before the copy is seen in the copy, and no write to one that the
    -- copy made is seen in the list.
    pub list_deep_copy-independent :
        ((m : ListMeta) → copy_list_meta m ≡ m)
        → (memory : Memory metadata) (l : ListAt metadata) → IsIn metadata memory l
        → (read_list metadata
              (list_deep_copy metadata memory l).0
              (list_deep_copy metadata memory l).1
            ≡ read_list metadata memory l)
          × ((k : Ref) (cs : List Condition)
              → k < length memory.conditions
              → read_list metadata
                  (write_conditions metadata k cs (list_deep_copy metadata memory l).0)
                  (list_deep_copy metadata memory l).1
                ≡ read_list metadata memory l)
          × ((k : Ref) (rs : List (ResourceAt metadata))
              → k < length memory.resources
              → read_list metadata
                  (write_resources metadata k rs (list_deep_copy metadata memory l).0)
                  (list_deep_copy metadata memory l).1
                ≡ read_list metadata memory l)
          × ((k : Ref) (cs : List Condition)
              → length memory.conditions ≤ k
              → read_list metadata
                  (write_conditions metadata k cs (list_deep_copy metadata memory l).0)
                  l
                ≡ read_list metadata memory l)
          × ((k : Ref) (rs : List (ResourceAt metadata))
              → length memory.resources ≤ k
              → read_list metadata
                  (write_resources metadata k rs (list_deep_copy metadata memory l).0)
                  l
                ≡ read_list metadata memory l)
    unfolding list_deep_copy
    list_deep_copy-independent equal_list_meta memory l h =
        let copied = copy_slice-CopiedItems memory l.list_meta l.items h.items_within in
        let meta = copy_slice-meta memory l.list_meta l.items ∙ equal_list_meta l.list_meta in
        (
          ap₂ (list_reading metadata) meta copied.equal,
          (λ k cs lt. ap₂ (list_reading metadata) meta (copied.old_conditions k cs lt)),
          (λ k rs lt. ap₂ (list_reading metadata) meta (copied.old_resources k rs lt)),
          (λ k cs le. ap (list_reading metadata l.list_meta) (copied.new_conditions k cs le)),
          (λ k rs le. ap (list_reading metadata l.list_meta) (copied.new_resources k rs le)),
        )
