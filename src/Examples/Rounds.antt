-- ===== src/Examples/Rounds.antt =====
-- The theorems on the rounds of a reflector, applied.
use crdmetrics.Prelude.{
  true, false, ◌≡◌, ◌≢◌, refl, Option, none, some, List, [], ◌∷◌, ok, if◌then◌else◌, ◌==◌,
  string_eq,
}
use crdmetrics.Store.{StoreType, serve}
use crdmetrics.Store.History.{is_served}
use crdmetrics.Family.{Unstructured, resolver_type_none}
use crdmetrics.Builder.{ListOptions}
use crdmetrics.Builder.Sessions.{
  WatchEvent, added, Round, round_calls, run_calls, built, ForbidsMatch,
  try_no_cache-serves_nothing,
}
use crdmetrics.Builder.Sessions.Existing.{existing-served}
use crdmetrics.Examples.{libs, objects, pod, family}
use crdmetrics.Examples.Serving.{target, store, store_balanced}

abbrev Object : Type 0
Object = Option Unstructured

abbrev no_options : ListOptions
no_options = record {
  label_selector = "";
  field_selector = "";
  resource_version_match = "";
  resource_version = "";
}

-- a server with one object, which a watch announces unless its options have a match
abbrev pub watch_pod : ListOptions → Option (List (WatchEvent Object))
watch_pod o = if o.resource_version_match == "" then some (added (some pod) ∷ []) else none

abbrev pub round : Round Object
round = record {
  asked_list = no_options;
  asked_watch = no_options;
  list = λ o. some (some pod ∷ [], "7");
  watch = watch_pod;
}

round_forbids : ForbidsMatch round
round_forbids o h = rw h refl

try_no_cache-serves_nothing_example :
    (serve libs objects
        (built libs objects 0 target (family ∷ []) "app=web" "" resolver_type_none [] [] true).0
        (run_calls
          (built libs objects 0 target (family ∷ []) "app=web" "" resolver_type_none [] [] true).1
          (round ∷ round ∷ []))
      ≡ ok (built libs objects 0 target (family ∷ []) "app=web" "" resolver_type_none [] [] true).0)
    × ((built libs objects 0 target
          (family ∷ [])
          "app=web"
          ""
          resolver_type_none
          []
          []
          true).0.metrics
        ≡ [])
try_no_cache-serves_nothing_example =
    try_no_cache-serves_nothing libs objects 0 target (family ∷ []) "app=web" "" resolver_type_none
      [] [] (round ∷ round ∷ []) (round_forbids, (round_forbids, tt))

pub some_is_there : {A : Type 0} {x : A} → some x ≢ none
some_is_there h = cc

pub watch_pod-added :
    (o : ListOptions) → o.resource_version_match ≡ "" → watch_pod o ≡ some (added (some pod) ∷ [])
watch_pod-added o h = rw h refl

existing-served_example :
    (s' : StoreType) × (serve libs objects store (
        round_calls
          (built libs objects 0 target (family ∷ []) "app=web" "" resolver_type_none [] [] false).1
          round)
      ≡ ok s')
    × (is_served objects "uid-1" s' ≡ true)
existing-served_example =
    existing-served libs objects 0 target (family ∷ []) "app=web" "" resolver_type_none [] [] store
      round (some pod ∷ []) [] [] [] (some pod) pod store_balanced (λ o. some_is_there)
      (λ o version match. watch_pod-added o match) refl refl
