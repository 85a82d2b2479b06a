-- ===== src/Builder/Sessions.antt =====
-- internal/builder.go with internal/store.go: what the reflector of a store makes it serve, given that
-- `Replace` does nothing and that lists and watches are always sent the same options.
pub mod Existing
use mathlib.Core.List.{foldl}
use crdmetrics.Prelude.{
  String, Bytes, Bool, true, false, ◌≡◌, ◌≢◌, refl, sym, ap, ◌∙◌, Option, none, some, List, [], ◌∷◌,
  ◌++◌, map, Result, ok, if◌then◌else◌, ◌==◌, ==_refl, string_eq, length, ◌≤◌, All,
}
use crdmetrics.Family.{FamilyType, ResolverType, Unstructured, Libs}
use crdmetrics.Store.{
  StoreType, Objects, Call, add_call, update_call, delete_call, replace_call, call, replace, resync,
  serve, new_store,
}
use crdmetrics.Store.Balance.{IsBalanced, IsBalancedFamily}
use crdmetrics.Store.History.{served, is_served, written, erased, is_some, serve-served}
use crdmetrics.Builder.{Gvkr, ListOptions, Ref, Reflector, list_options, build_store}
use crdmetrics.Builder.Headers.{build_store-IsBalanced}

-- An event of a watch. Bookmarks and errors make no call.
pub data WatchEvent (O : Type 0) : Type 0 where
  added modified deleted : O → WatchEvent O

abbrev pub call_for : {O : Type 0} → WatchEvent O → Call O
call_for (added o) = add_call o
call_for (modified o) = update_call o
call_for (deleted o) = delete_call o

-- What a reflector meets in one round: the options that it asks for, and what the API server has for the
-- options that it is sent; `none` is an error.
pub record Round (O : Type 0) : Type 0 where
  pub asked_list : ListOptions
  pub asked_watch : ListOptions
  pub list : ListOptions → Option (List O × String)
  pub watch : ListOptions → Option (List (WatchEvent O))

module _ {O : Type 0} where
  abbrev pub watched : Option (List (WatchEvent O)) → List (Call O)
  watched none = []
  watched (some events) = map call_for events

  abbrev pub listed : Option (List O × String) → List (Call O) → List (Call O)
  listed none calls = []
  listed (some (items, version)) calls = replace_call items version ∷ calls

  -- The calls of a round of `ListAndWatch` of client-go: a list, whose items go to `Replace`, and, if
  -- it did not fail, a watch.
  abbrev pub round_calls : Reflector → Round O → List (Call O)
  round_calls r round =
      listed (round.list (r.list_watch round.asked_list))
        (watched (round.watch (r.list_watch round.asked_watch)))

  -- the rounds that `Run` makes one after the other
  abbrev pub run_calls : Reflector → List (Round O) → List (Call O)
  run_calls r [] = []
  run_calls r (round ∷ rounds) = round_calls r round ++ run_calls r rounds

-- What the validation of list options in k8s.io/apimachinery does: a watch with a match of resource
-- versions is forbidden unless initial events are asked for, which these options cannot do.
abbrev pub ForbidsMatch : {O : Type 0} → Round O → Type 0
ForbidsMatch round =
    (o : ListOptions) → (o.resource_version_match == "") ≡ false → round.watch o ≡ none

module _ (libs : Libs) (objects : Objects) (ref : Ref) (gvk_with_r : Gvkr) (fs : List FamilyType)
    (label_selector field_selector : String) (resolver : ResolverType)
    (label_keys label_values : List Bytes) where
  open objects use {Object, to_unstructured}

  -- what is built
  abbrev pub built : Bool → StoreType × Reflector
  built try_no_cache =
      build_store ref gvk_with_r fs try_no_cache label_selector field_selector resolver label_keys
        label_values

  -- calls that only replace
  data Replaces : List (Call Object) → Type 0 where
    no_more : Replaces []
    one_more :
        {items : List Object} {version : String} {cs : List (Call Object)}
        → Replaces cs
        → Replaces (replace_call items version ∷ cs)

  serve-Replaces :
      (s : StoreType) (cs : List (Call Object)) → Replaces cs → serve libs objects s cs ≡ ok s
  unfolding serve call replace
  serve-Replaces s [] no_more = refl
  serve-Replaces s (c ∷ cs) (one_more r) = serve-Replaces s cs r

  Replaces-append : (cs ds : List (Call Object)) → Replaces cs → Replaces ds → Replaces (cs ++ ds)
  Replaces-append [] ds no_more k = k
  Replaces-append (c ∷ cs) ds (one_more r) k = one_more (Replaces-append cs ds r k)

  listed-Replaces : (o : Option (List Object × String)) → Replaces (listed o [])
  listed-Replaces none = no_more
  listed-Replaces (some (items, version)) = one_more no_more

  round_calls-Replaces :
      (round : Round Object) → ForbidsMatch round → Replaces (round_calls (built true).1 round)
  unfolding build_store list_options
  round_calls-Replaces round forbids =
      let lwo = (built true).1.list_watch round.asked_watch in
      rw (forbids lwo refl)
        (listed-Replaces (round.list ((built true).1.list_watch round.asked_list)))

  run_calls-Replaces :
      (rounds : List (Round Object))
      → All ForbidsMatch rounds
      → Replaces (run_calls (built true).1 rounds)
  run_calls-Replaces [] h = no_more
  run_calls-Replaces (round ∷ rounds) (h, hs) =
      Replaces-append _ _ (round_calls-Replaces round h) (run_calls-Replaces rounds hs)

  -- With the option `try-no-cache`, a store serves nothing, however often its reflector lists and
  -- watches and whatever the lists answer: the options of its watches have a match of resource
  -- versions, which an API server forbids for them, and `Replace` does not store what is listed.
  pub try_no_cache-serves_nothing :
      (rounds : List (Round Object))
      → All ForbidsMatch rounds
      → (serve libs objects (built true).0 (run_calls (built true).1 rounds) ≡ ok (built true).0)
        × ((built true).0.metrics ≡ [])
  unfolding build_store new_store
  try_no_cache-serves_nothing rounds h =
      (serve-Replaces (built true).0 _ (run_calls-Replaces rounds h), refl)
