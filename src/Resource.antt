-- ===== src/Resource.antt =====
-- pkg/apis/crdmetrics/v1alpha1/types.go: the managed resource and the conditions of its status.
pub mod Conditions
pub mod DeepCopy
use Prim.Native.String.{◌++◌ as str_append}
use crdmetrics.Prelude.{
  ℕ, zero, suc, String, Bool, true, false, Option, none, some, List, [], ◌∷◌, ◌++◌, get_elem?,
  if◌then◌else◌, Result, ok, err, panic, or_panic, ◌>>=◌, ◌==◌, string_eq, ◌≡◌, ◌≢◌,
}
use crdmetrics.Prelude.Map.{Map}

-- metav1.Condition. The time is in seconds.
pub record Condition : Type 0 where
  pub type_of : String
  pub status : String
  pub observed_generation : ℕ
  pub last_transition_time : ℕ
  pub reason : String
  pub message : String

abbrev pub condition_true : String
condition_true = "True"

abbrev pub condition_false : String
condition_false = "False"

abbrev pub condition_type_processed : ℕ
condition_type_processed = 0

abbrev pub condition_type_failed : ℕ
condition_type_failed = 1

abbrev pub processed : String
processed = "Processed"

abbrev pub failed : String
failed = "Failed"

abbrev pub condition_type : List String
condition_type = processed ∷ failed ∷ []

abbrev pub condition_message_true : List String
condition_message_true =
    "Resource configuration has been processed successfully" ∷ "Resource failed to process" ∷ []

abbrev pub condition_message_false : List String
condition_message_false = "Resource configuration is yet to be processed" ∷ "N/A" ∷ []

abbrev pub condition_reason_true : List String
condition_reason_true = "EventHandlerSucceeded" ∷ "EventHandlerFailed" ∷ []

abbrev pub condition_reason_false : List String
condition_reason_false = "EventHandlerRunning" ∷ "N/A" ∷ []

pub record CrdMetricsResourceSpec : Type 0 where
  pub configuration : String

pub record CrdMetricsResourceStatus : Type 0 where
  pub conditions : List Condition

-- The type and object metadata that the code reads or writes; `labels` is `none` where Go has nil.
pub record CrdMetricsResource : Type 0 where
  pub namespace : String
  pub name : String
  pub uid : String
  pub generation : ℕ
  pub resource_version : String
  pub labels : Option (Map String String)
  pub spec : CrdMetricsResourceSpec
  pub status : CrdMetricsResourceStatus

-- `slices.Index` of k8s.io/utils, which is not this repository's code. `none` is -1.
pub record Slices : Type 0 where
  pub index : List String → String → Option ℕ
  pub index_sound :
      (xs : List String) (x : String) (i : ℕ) → index xs x ≡ some i → get_elem? xs i ≡ some x
  pub index_complete :
      (xs : List String) (x : String) (i : ℕ) → get_elem? xs i ≡ some x → index xs x ≢ none

-- the index -1 is out of range
abbrev pub at : List String → Option ℕ → Result String
at xs none = panic
at xs (some i) = or_panic (get_elem? xs i)

-- the loop over the conditions, and the `append` behind it
unfoldable pub put : Condition → List Condition → List Condition
put c [] = c ∷ []
put c (existing ∷ cs) = if existing.type_of == c.type_of then c ∷ cs else existing ∷ put c cs

module _ (slices : Slices) where
  -- Set; `now` is metav1.Now()
  unfoldable pub set :
      ℕ
      → CrdMetricsResource
      → Condition
      → CrdMetricsResourceStatus
      → Result CrdMetricsResourceStatus
  set now resource condition status =
      let i = slices.index condition_type condition.type_of in
      let is_true = condition.status == condition_true in
      (do
        reason ← at (if is_true then condition_reason_true else condition_reason_false) i
        message ← at (if is_true then condition_message_true else condition_message_false) i
        ok (record {
          conditions =
              put
                (record condition {
                  reason = reason;
                  message = str_append message (str_append ": " condition.message);
                  last_transition_time = now;
                  observed_generation = resource.generation;
                })
                status.conditions;
        }))
