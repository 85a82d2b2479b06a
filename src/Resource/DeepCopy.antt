-- ===== src/Resource/DeepCopy.antt =====
-- pkg/apis/crdmetrics/v1alpha1/zz_generated.deepcopy.go: the deep copies, with the memory in which the
-- slices of a resource and of a list have their elements.
pub mod Arrays
pub mod Reading
pub mod Independent
use crdmetrics.Prelude.{
  ℕ, zero, suc, String, Option, none, some, List, [], ◌∷◌, ◌++◌, length, get_elem?,
}
use crdmetrics.Resource.{Condition, CrdMetricsResourceSpec}

-- A pointer to an array.
abbrev pub Ref : Type 0
Ref = ℕ

-- CRDMetricsResourceStatus as it is in memory; no pointer is a nil slice
pub record StatusAt : Type 0 where
  pub conditions : Option Ref

-- metav1.ObjectMeta and metav1.ListMeta, with the copies that k8s.io/apimachinery makes of them
pub record Metadata : Type 1 where
  pub ObjectMeta : Type 0
  pub ListMeta : Type 0
  pub copy_object_meta : ObjectMeta → ObjectMeta
  pub copy_list_meta : ListMeta → ListMeta

abbrev pub or_empty {ℓ} : {A : Type ℓ} → Option (List A) → List A
or_empty none = []
or_empty (some l) = l

-- the elements that a slice has
abbrev pub array_at {ℓ} : {A : Type ℓ} → List (List A) → Ref → List A
array_at arrays r = or_empty (get_elem? arrays r)

-- the zero value
abbrev pub zero_condition : Condition
zero_condition = record {
  type_of = "";
  status = "";
  observed_generation = 0;
  last_transition_time = 0;
  reason = "";
  message = "";
}

-- make([]v1.Condition, n)
unfoldable pub make_conditions : ℕ → List Condition
make_conditions zero = []
make_conditions (suc n) = zero_condition ∷ make_conditions n

-- The loop over the indices that copies the conditions of `in` into `out`. The second clause is an
-- index out of range, which `out` made with the length of `in` does not have.
unfoldable pub copy_each : List Condition → List Condition → List Condition
copy_each [] out = out
copy_each (c ∷ cs) [] = []
copy_each (c ∷ cs) (o ∷ out) = c ∷ copy_each cs out

-- CRDMetricsResourceStatus.DeepCopyInto, with the arrays of conditions
abbrev pub copy_conditions : List (List Condition) → Option Ref → List (List Condition) × StatusAt
copy_conditions arrays none = (arrays, record { conditions = none })
copy_conditions arrays (some r) =
    let in_conditions = array_at arrays r in
    (
      arrays ++ copy_each in_conditions (make_conditions (length in_conditions)) ∷ [],
      record { conditions = some (length arrays) },
    )

unfoldable pub status_deep_copy :
    List (List Condition) → StatusAt → List (List Condition) × StatusAt
status_deep_copy arrays status = copy_conditions arrays status.conditions

module _ (metadata : Metadata) where
  open metadata use {ObjectMeta, ListMeta, copy_object_meta, copy_list_meta}

  -- CRDMetricsResource as it is in memory
  pub record ResourceAt : Type 0 where
    pub object_meta : ObjectMeta
    pub spec : CrdMetricsResourceSpec
    pub status : StatusAt

  -- CRDMetricsResourceList
  pub record ListAt : Type 0 where
    pub list_meta : ListMeta
    pub items : Option Ref

  -- the arrays of conditions, and those of resources
  pub record Memory : Type 0 where
    pub conditions : List (List Condition)
    pub resources : List (List ResourceAt)

  abbrev with_status :
      ResourceAt → List (List Condition) × StatusAt → List (List Condition) × ResourceAt
  with_status r (arrays, status) = (
    arrays,
    record { object_meta = copy_object_meta r.object_meta; spec = r.spec; status = status },
  )

  -- CRDMetricsResource.DeepCopyInto
  unfoldable pub resource_deep_copy :
      List (List Condition) → ResourceAt → List (List Condition) × ResourceAt
  resource_deep_copy arrays r = with_status r (status_deep_copy arrays r.status)

  abbrev pointed : List (List Condition) × ResourceAt → List (List Condition) × Option ResourceAt
  pointed (arrays, r) = (arrays, some r)

  -- CRDMetricsResource.DeepCopy; a nil pointer is copied to a nil pointer
  unfoldable pub deep_copy :
      List (List Condition) → Option ResourceAt → List (List Condition) × Option ResourceAt
  deep_copy arrays none = (arrays, none)
  deep_copy arrays (some r) = pointed (resource_deep_copy arrays r)

  -- CRDMetricsResource.DeepCopyObject; a nil pointer becomes a nil interface
  unfoldable pub deep_copy_object :
      List (List Condition) → Option ResourceAt → List (List Condition) × Option ResourceAt
  deep_copy_object arrays r = deep_copy arrays r

  -- the loop over the items
  unfoldable pub copy_items :
      List (List Condition) → List ResourceAt → List (List Condition) × List ResourceAt
  copy_items arrays [] = (arrays, [])
  copy_items arrays (r ∷ rs) =
      let (arrays', r') = resource_deep_copy arrays r in
      let (arrays'', rs') = copy_items arrays' rs in (arrays'', r' ∷ rs')

  abbrev pub copy_slice : Memory → ListMeta → Option Ref → Memory × ListAt
  copy_slice memory list_meta none =
      (memory, record { list_meta = copy_list_meta list_meta; items = none })
  copy_slice memory list_meta (some r) =
      let (conditions, items) = copy_items memory.conditions (array_at memory.resources r) in
      (
        record { conditions = conditions; resources = memory.resources ++ items ∷ [] },
        record { list_meta = copy_list_meta list_meta; items = some (length memory.resources) },
      )

  -- CRDMetricsResourceList.DeepCopyInto
  unfoldable pub list_deep_copy : Memory → ListAt → Memory × ListAt
  list_deep_copy memory l = copy_slice memory l.list_meta l.items

  abbrev pointed_list : Memory × ListAt → Memory × Option ListAt
  pointed_list (memory, l) = (memory, some l)

  -- CRDMetricsResourceList.DeepCopy
  unfoldable pub list_copy : Memory → Option ListAt → Memory × Option ListAt
  list_copy memory none = (memory, none)
  list_copy memory (some l) = pointed_list (list_deep_copy memory l)

  -- CRDMetricsResourceList.DeepCopyObject
  unfoldable pub list_copy_object : Memory → Option ListAt → Memory × Option ListAt
  list_copy_object memory l = list_copy memory l

abbrev pointed_status : List (List Condition) × StatusAt → List (List Condition) × Option StatusAt
pointed_status (arrays, status) = (arrays, some status)

-- CRDMetricsResourceStatus.DeepCopy
unfoldable pub status_copy :
    List (List Condition) → Option StatusAt → List (List Condition) × Option StatusAt
status_copy arrays none = (arrays, none)
status_copy arrays (some status) = pointed_status (status_deep_copy arrays status)

-- CRDMetricsResourceSpec.DeepCopy: a spec has no pointers
unfoldable pub spec_copy : Option CrdMetricsResourceSpec → Option CrdMetricsResourceSpec
spec_copy none = none
spec_copy (some spec) = some spec
