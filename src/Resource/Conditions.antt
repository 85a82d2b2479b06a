-- ===== src/Resource/Conditions.antt =====
-- pkg/apis/crdmetrics/v1alpha1/types.go, `Set`: the conditions are a map from their types.
use Prim.Native.String.{◌++◌ as str_append}
use mathlib.Core.Path.{subst}
use crdmetrics.Prelude.{
  ==_symm, ℕ, zero, suc, String, Bool, true, false, ◌≡◌, inl, inr, refl, ap, ◌∙◌, Option, none,
  some, List, [], ◌∷◌, get_elem?, if◌then◌else◌, ok, ◌==◌, ==_iff, string_eq, Bool-cases,
  Option-cases, arith,
}
use crdmetrics.Resource.{
  Condition, CrdMetricsResource, CrdMetricsResourceStatus, Slices, at, put, set, condition_type,
  condition_true, processed, failed, condition_reason_true, condition_reason_false,
  condition_message_true, condition_message_false,
}

-- The first condition of a type.
abbrev pub find : String → List Condition → Option Condition
find t [] = none
find t (c ∷ cs) = if c.type_of == t then some c else find t cs

-- No two conditions have one type, as `+listMapKey=type` demands.
abbrev pub IsKeyed : List Condition → Type 0
IsKeyed [] = Unit
IsKeyed (c ∷ cs) = (find c.type_of cs ≡ none) × IsKeyed cs

find-put :
    (t : String) (c : Condition) (cs : List Condition)
    → find t (put c cs) ≡ (if c.type_of == t then some c else find t cs)
unfolding put
find-put t c [] = refl
find-put t c (e ∷ cs) =
    ground
      (arith, find-put t c cs, ==_iff e.type_of c.type_of, ==_iff e.type_of t, ==_iff c.type_of t)

put-IsKeyed : (c : Condition) (cs : List Condition) → IsKeyed cs → IsKeyed (put c cs)
unfolding put
put-IsKeyed c [] h = (refl, tt)
put-IsKeyed c (e ∷ cs) (h, hs) = elim (Bool-cases (e.type_of == c.type_of)) [
  | inl same ↦
      rw same (subst (λ (t : String). find t cs ≡ none) ((==_iff e.type_of c.type_of).0 same) h, hs)
  | inr differs ↦
      rw differs
        (find-put e.type_of c cs ∙ rw (==_symm e.type_of c.type_of differs) h, put-IsKeyed c cs hs)
]

module _ (slices : Slices) where
  index_of :
      (t : String) (k : ℕ)
      → get_elem? condition_type k ≡ some t
      → ((i : ℕ) → get_elem? condition_type i ≡ some t → i ≡ k)
      → slices.index condition_type t ≡ some k
  index_of t k h unique = elim (Option-cases (slices.index condition_type t)) [
    | inl e ↦ absurd (slices.index_complete condition_type t k h e)
    | inr (i, e) ↦ e ∙ ap some (unique i (slices.index_sound condition_type t i e))
  ]

  index-processed : slices.index condition_type processed ≡ some 0
  index-processed = index_of processed 0 refl go
    where
      go : (i : ℕ) → get_elem? condition_type i ≡ some processed → i ≡ 0
      go zero h = refl
      go (suc zero) h = ground (arith, ==_iff failed processed)
      go (suc (suc i)) h = cc

  index-failed : slices.index condition_type failed ≡ some 1
  index-failed = index_of failed 1 refl go
    where
      go : (i : ℕ) → get_elem? condition_type i ≡ some failed → i ≡ 1
      go zero h = ground (arith, ==_iff processed failed)
      go (suc zero) h = refl
      go (suc (suc i)) h = cc

-- What is set: the given condition under its type and with its status, with the reason that stands
-- for both, the time and the resource's generation.
pub record IsEntry (reason : String) (now : ℕ) (resource : CrdMetricsResource) (given c : Condition)
    : Type 0 where
  pub type_kept : c.type_of ≡ given.type_of
  pub status_kept : c.status ≡ given.status
  pub reason_set : c.reason ≡ reason
  pub time_set : c.last_transition_time ≡ now
  pub generation_set : c.observed_generation ≡ resource.generation

-- The reason for a condition of type Processed or Failed.
abbrev pub reason_for : Bool → Bool → String
reason_for true is_true = if is_true then "EventHandlerSucceeded" else "EventHandlerRunning"
reason_for false is_true = if is_true then "EventHandlerFailed" else "N/A"

abbrev pub type_for : Bool → String
type_for true = processed
type_for false = failed

abbrev index_for : Bool → ℕ
index_for true = 0
index_for false = 1

reason_at :
    (p b : Bool)
    → at (if b then condition_reason_true else condition_reason_false) (some (index_for p))
      ≡ ok (reason_for p b)
reason_at true true = refl
reason_at true false = refl
reason_at false true = refl
reason_at false false = refl

message_at :
    (p b : Bool)
    → (m : String) × (at
          (if b then condition_message_true else condition_message_false)
          (some (index_for p))
        ≡ ok m)
message_at true true = (_, refl)
message_at true false = (_, refl)
message_at false true = (_, refl)
message_at false false = (_, refl)

module _ (slices : Slices) (now : ℕ) (resource : CrdMetricsResource) where
  abbrev stamped : Condition → String → String → Condition
  stamped c reason message = record c {
    reason = reason;
    message = str_append message (str_append ": " c.message);
    last_transition_time = now;
    observed_generation = resource.generation;
  }

  set-put :
      (c : Condition) (status : CrdMetricsResourceStatus) (i : ℕ) (r m : String)
      → slices.index condition_type c.type_of ≡ some i
      → at
          (if c.status == condition_true then condition_reason_true else condition_reason_false)
          (some i)
        ≡ ok r
      → at
          (if c.status == condition_true then condition_message_true else condition_message_false)
          (some i)
        ≡ ok m
      → set slices now resource c status
        ≡ ok (record { conditions = put (stamped c r m) status.conditions })
  unfolding set
  set-put c status i r m e p q = rw e (rw p (rw q refl))

  index-type_for : (p : Bool) → slices.index condition_type (type_for p) ≡ some (index_for p)
  index-type_for true = index-processed slices
  index-type_for false = index-failed slices

  -- what `set` makes of any status, with the test on the types kept apart
  set-IsEntry :
      (is_processed : Bool) (c : Condition) (status : CrdMetricsResourceStatus)
      → c.type_of ≡ type_for is_processed
      → (entry : Condition) × (status' : CrdMetricsResourceStatus) × (set slices now resource c
            status
          ≡ ok status')
        × IsEntry (reason_for is_processed (c.status == condition_true)) now resource c entry
        × ((t : String)
            → find t status'.conditions
              ≡ (if c.type_of == t then some entry else find t status.conditions))
        × (IsKeyed status.conditions → IsKeyed status'.conditions)
  set-IsEntry is_processed c status h =
      let b = c.status == condition_true in
      let r = reason_for is_processed b in
      let (m, q) = message_at is_processed b in
      let entry : Condition = stamped c r m in
      (
        entry,
        record { conditions = put entry status.conditions },
        set-put c status (index_for is_processed) r m
            (ap (slices.index condition_type) h ∙ index-type_for is_processed)
            (reason_at is_processed b) q,
        record {
          type_kept = refl;
          status_kept = refl;
          reason_set = refl;
          time_set = refl;
          generation_set = refl;
        },
        λ t. find-put t entry status.conditions,
        put-IsKeyed entry status.conditions,
      )

  pub set_total :
      (is_processed : Bool) (c : Condition) (status : CrdMetricsResourceStatus)
      → c.type_of ≡ type_for is_processed
      → (status' : CrdMetricsResourceStatus) × (set slices now resource c status ≡ ok status')
  set_total is_processed c status h =
      let (entry, status', e, is_entry, found, kept) = set-IsEntry is_processed c status h in
      (status', e)

  -- Setting a condition of type Processed or Failed never panics. Under its type the status then has
  -- the condition, with the reason for its type and status, the current time and the resource's
  -- generation; under every other type it has what it had; and no two conditions have one type,
  -- if none had before.
  pub set_lem :
      (is_processed : Bool) (c : Condition) (status : CrdMetricsResourceStatus)
      → c.type_of ≡ type_for is_processed
      → IsKeyed status.conditions
      → (entry : Condition) × (status' : CrdMetricsResourceStatus) × (set slices now resource c
            status
          ≡ ok status')
        × IsEntry (reason_for is_processed (c.status == condition_true)) now resource c entry
        × ((t : String)
            → find t status'.conditions
              ≡ (if c.type_of == t then some entry else find t status.conditions))
        × IsKeyed status'.conditions
  set_lem is_processed c status h keyed =
      let (entry, status', e, is_entry, found, kept) = set-IsEntry is_processed c status h in
      (entry, status', e, is_entry, found, kept keyed)
