-- ===== src/Builder/Sessions/Existing.antt =====
-- internal/builder.go with internal/store.go: the objects that exist when a watch begins are served.
use mathlib.Core.List.{foldl}
use crdmetrics.Prelude.{
  String, Bytes, Bool, true, false, ◌≡◌, ◌≢◌, refl, ap, ◌∙◌, Option, none, some, List, [], ◌∷◌,
  ◌++◌, map, ok, if◌then◌else◌, ==_refl, string_eq,
}
use crdmetrics.Family.{FamilyType, ResolverType, Unstructured, Libs}
use crdmetrics.Store.{StoreType, Objects, Call, add_call, replace_call, serve}
use crdmetrics.Store.Balance.{IsBalanced}
use crdmetrics.Store.History.{served, is_served, written, serve-served}
use crdmetrics.Builder.{Gvkr, ListOptions, Ref, list_options, build_store}
use crdmetrics.Builder.Sessions.{
  WatchEvent, added, call_for, Round, watched, listed, round_calls, built,
}

module _ (libs : Libs) (objects : Objects) (ref : Ref) (gvk_with_r : Gvkr) (fs : List FamilyType)
    (label_selector field_selector : String) (resolver : ResolverType)
    (label_keys label_values : List Bytes) where
  open objects use {Object, to_unstructured}

  if_either : (b : Bool) → (if b then true else true) ≡ true
  if_either true = refl
  if_either false = refl

  watched-existing :
      (existing : List Object) (changes : List (WatchEvent Object))
      → map call_for (map added existing ++ changes)
        ≡ map (λ (o : Object). add_call o) existing ++ map call_for changes
  watched-existing [] changes = refl
  watched-existing (o ∷ existing) changes =
      ap (λ (cs : List (Call Object)). add_call o ∷ cs) (watched-existing existing changes)

  module _ (uid : String) where
    -- the objects with this UID, once the calls are made
    abbrev after : Bool → List (Call Object) → Bool
    after b cs = foldl (served objects uid) b cs

    after-append :
        (b : Bool) (cs ds : List (Call Object)) → after b (cs ++ ds) ≡ after (after b cs) ds
    after-append b [] ds = refl
    after-append b (c ∷ cs) ds = after-append (served objects uid b c) cs ds

    still_served : (r : Option Unstructured) → written uid true r ≡ true
    still_served none = refl
    still_served (some u) = if_either _

    adds_keep : (os : List Object) → after true (map (λ (o : Object). add_call o) os) ≡ true
    adds_keep [] = refl
    adds_keep (o ∷ os) =
        ap (λ (b : Bool). after b (map (λ (x : Object). add_call x) os))
          (still_served (to_unstructured o))
        ∙ adds_keep os

  adds_serve :
      (o : Object) (u : Unstructured) (before rest : List Object) (b : Bool)
      → to_unstructured o ≡ some u
      → after u.uid b (map (λ (x : Object). add_call x) (before ++ o ∷ rest)) ≡ true
  adds_serve o u [] rest b e =
      ap (λ (x : Bool). after u.uid x (map (λ (y : Object). add_call y) rest))
        (rw e (rw (==_refl u.uid) refl))
      ∙ adds_keep u.uid rest
  adds_serve o u (p ∷ before) rest b e =
      adds_serve o u before rest (served objects u.uid b (add_call p)) e

  -- the calls of a round whose list does not fail and whose watch starts with what exists
  round_calls-existing :
      (listing : Option (List Object × String)) (watching : Option (List (WatchEvent Object)))
      (existing : List Object) (changes : List (WatchEvent Object))
      → listing ≢ none
      → watching ≡ some (map added existing ++ changes)
      → (items : List Object) × (version : String) × (listed listing (watched watching)
          ≡ replace_call items version
            ∷ (map (λ (x : Object). add_call x) existing ++ map call_for changes))
  round_calls-existing none watching existing changes lists starts = absurd (lists refl)
  round_calls-existing (some (items, version)) watching existing changes lists starts = (
    items,
    version,
    rw starts (
        ap (λ (cs : List (Call Object)). replace_call items version ∷ cs)
          (watched-existing existing changes)),
  )

  calls_serve :
      (o : Object) (u : Unstructured) (existing before rest : List Object) (b : Bool)
      (cs : List (Call Object))
      → existing ≡ before ++ o ∷ rest
      → to_unstructured o ≡ some u
      → after u.uid b (map (λ (x : Object). add_call x) existing ++ cs) ≡ after u.uid true cs
  calls_serve o u existing before rest b cs split reads =
      after-append u.uid b (map (λ (x : Object). add_call x) existing) cs
      ∙ ap (λ (x : Bool). after u.uid x cs) (rw split (adds_serve o u before rest b reads))

  -- Without the option `try-no-cache`, the objects that exist are served, though `Replace` does not
  -- store what is listed: the options of a watch then have no resource version, for which the API
  -- server first sends an event for each object that exists, so after a round of the reflector, on
  -- any store that has, as its families and their metrics do, no more label values than keys, and no
  -- nil pointer to a metric, an object that existed is served if the changes that followed leave it.
  pub existing-served :
      (s : StoreType) (round : Round Object) (existing before rest : List Object)
      (changes : List (WatchEvent Object)) (o : Object) (u : Unstructured)
      → IsBalanced s
      → ((options : ListOptions) → round.list options ≢ none)
      → ((options : ListOptions)
          → options.resource_version ≡ ""
          → options.resource_version_match ≡ ""
          → round.watch options ≡ some (map added existing ++ changes))
      → existing ≡ before ++ o ∷ rest
      → to_unstructured o ≡ some u
      → (s' : StoreType) × (serve libs objects s (
            round_calls
              (built libs objects ref gvk_with_r fs label_selector field_selector resolver
                label_keys label_values false).1
              round)
          ≡ ok s')
        × (is_served objects u.uid s' ≡ foldl (served objects u.uid) true (map call_for changes))
  unfolding build_store list_options
  existing-served s round existing before rest changes o u balanced lists starts split reads =
      let r =
        (built libs objects ref gvk_with_r fs label_selector field_selector resolver label_keys
          label_values false).1 in
      let (items, version, calls) =
        round_calls-existing (round.list (r.list_watch round.asked_list))
          (round.watch (r.list_watch round.asked_watch)) existing changes
          (lists (r.list_watch round.asked_list))
          (starts (r.list_watch round.asked_watch) refl refl) in
      let (s', balanced', served_so, is_so) =
        serve-served libs objects u.uid (round_calls r round) s balanced in
      (
        s',
        served_so,
        is_so
            ∙ ap (after u.uid (is_served objects u.uid s)) calls
            ∙ calls_serve o u existing before rest (is_served objects u.uid s)
                (map call_for changes) split reads,
      )
