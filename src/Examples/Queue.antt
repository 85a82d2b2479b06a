-- ===== src/Examples/Queue.antt =====
-- The theorems on the work queue and on an API server that answers, applied.
use crdmetrics.Prelude.{
  ℕ, ◌+◌, String, Bool, true, false, ◌≡◌, ◌≢◌, refl, ap, Option, none, some, List, [], ◌∷◌, ◌++◌,
  All, ◌&&◌, if◌then◌else◌, ◌==◌, ==_iff, ==_refl, string_eq, arith, length, Error, ok, Bool-cases,
  inl, inr, ◌⊎◌, panic, ◌∙◌,
}
use crdmetrics.Prelude.Map.{lookup}
use crdmetrics.Config.{Yaml, Process, Configuration, stores_of}
use crdmetrics.Handler.{Client, managed, handle_event}
use crdmetrics.Handler.Healthy.{IsVersion, IsHealthy, IsWhole}
use crdmetrics.Handler.Outcome.{HasNull}
use crdmetrics.Handler.Replaces.{IsOutcome, handle_event-replaces}
use crdmetrics.Examples.Serving.{entry}
use crdmetrics.Controller.{
  Cache, Workqueue, Item, found, process_next_work_item, run_worker, on_add, on_delete,
}
use crdmetrics.Controller.Drain.{ShutsDown, run_worker-ends}
use crdmetrics.Controller.Burst.{InOrder, recreated-loses_stores}
use crdmetrics.Examples.Status.{
  slices, resource, World, after_call, client, yaml, process, split, first,
}

-- an API server that has the resource
abbrev pub steady : Client
steady = record client { get = λ w namespace name. (w, some resource) }

same_resource : IsVersion resource resource
same_resource = record {
  same_namespace = refl;
  same_name = refl;
  same_uid = refl;
  same_configuration = refl;
}

after_call_fine :
    (r : World × Bool × Option Error) → r.1 ≡ true → r.2 ≡ none → (after_call r).1 ≡ none
after_call_fine (w, true, e) h k = k
after_call_fine (w, false, e) h k = cc

pub healthy : IsHealthy steady resource
healthy = record {
  gets = λ v. (resource, refl, same_resource);
  updates = λ v r h. (r, refl);
  updates_status = λ v r h. (r, refl, h);
  polls = λ w condition h. after_call_fine (condition w) (h w).0 (h w).1;
}

no_stores-IsWhole : IsWhole yaml resource
no_stores-IsWhole c read nothing =
    let same = ap (λ (t : Configuration × Option String). stores_of t.0.stores) read in
    let both = same ∙ nothing in cc both

-- every configuration names one store
abbrev pub one_store : Yaml
one_store = record { unmarshal = λ raw c. (record { stores = some entry ∷ [] }, none) }

pub one_store-IsWhole : IsWhole one_store resource
one_store-IsWhole c read nothing =
    let same = ap (λ (t : Configuration × Option String). stores_of t.0.stores) read in
    let both = same ∙ nothing in cc both

handle_event-replaces_example :
    (w' : World) × (q : Process) × (handle_event steady slices one_store none process "addEvent"
        (managed resource)
        true
      ≡ ok ((w', q), none))
    × IsOutcome one_store "addEvent" true resource process q
handle_event-replaces_example =
    handle_event-replaces steady slices resource healthy one_store "addEvent" true one_store-IsWhole
      none process

-- the lister knows the resource
abbrev cache : Cache
cache = record {
  meta_namespace_key_func = λ o. some "default/foos";
  split_meta_namespace_key = split;
  get = λ namespace name. found resource;
}

-- a queue that was shut down
abbrev shut_queue : Workqueue
shut_queue = record {
  State = List Item;
  add = λ item q. q;
  get = first;
  done = λ item q. q;
  add_rate_limited = λ item q. q;
  forget = λ item q. q;
}

hands_out_left :
    (q : List Item) (n : ℕ)
    → length q ≡ n + 1
    → (q' : List Item) × (item : Item) × (first q ≡ (q', some item))
      × (length q' ≡ n)
      × (true ≡ true)
hands_out_left [] n e = absurd (ground arith)
hands_out_left (item ∷ q) n e = (q, item, refl, omega arith, refl)

nothing_left : (q : List Item) → length q ≡ 0 → (q' : List Item) × (first q ≡ (q', none))
nothing_left [] e = ([], refl)
nothing_left (item ∷ q) e = absurd (ground arith)

shuts_down : ShutsDown shut_queue
shuts_down = record {
  is_shut = λ q. true;
  left = length;
  hands_out = λ q n h e. hands_out_left q n e;
  at_the_end = λ q h e. nothing_left q e;
  takes_none = λ q item h. (refl, refl);
  forgets = λ q item h. (refl, refl);
  is_done = λ q item h. (refl, refl);
}

abbrev delete_item : Item
delete_item = ("default/foos", "deleteEvent")

run_worker-ends_example :
    (HasNull steady yaml
      × (run_worker steady slices yaml true cache shut_queue 2 none process (delete_item ∷ [])
          ≡ panic))
    ⊎ ((r : (World × Process) × List Item) × (run_worker steady slices yaml true cache shut_queue 2
            none process
            (delete_item ∷ [])
          ≡ ok (some r)))
unfolding shuts_down
run_worker-ends_example =
    run_worker-ends steady slices yaml true cache shut_queue shuts_down 1 none process
      (delete_item ∷ []) refl refl

unfoldable contains : Item → List Item → Bool
contains item [] = false
contains item (other ∷ items) =
    let rest = contains item items in if other.0 == item.0 && other.1 == item.1 then true else rest

abbrev add_new : Item → List Item → List Item
add_new item q = if contains item q then q else q ++ item ∷ []

-- a queue without delays
abbrev set_queue : Workqueue
set_queue = record {
  State = List Item;
  add = add_new;
  get = first;
  done = λ item q. q;
  add_rate_limited = add_new;
  forget = λ item q. q;
}

abbrev item_of : String → String → Item
item_of key event = (key, event)

equal_items : {k k' e e' : String} → k' ≡ k → e' ≡ e → item_of k' e' ≡ item_of k e
equal_items p q = cc

if_either : (b : Bool) → (if b then true else true) ≡ true
if_either true = refl
if_either false = refl

contains-apart :
    (item : Item) (items : List Item)
    → All (λ (other : Item). other ≢ item) items
    → contains item items ≡ false
unfolding contains
contains-apart item [] h = refl
contains-apart (k, e) ((k', e') ∷ items) (h, hs) = elim (Bool-cases (k' == k)) [
  | inl same ↦ elim (Bool-cases (e' == e)) [
    | inl same' ↦ absurd (h (equal_items ((==_iff k' k).0 same) ((==_iff e' e).0 same')))
    | inr other ↦ rw same (rw other (contains-apart (k, e) items hs))
  ]
  | inr other ↦ rw other (contains-apart (k, e) items hs)
]

contains-in :
    (item : Item) (before after : List Item) → contains item (before ++ item ∷ after) ≡ true
unfolding contains
contains-in (k, e) [] after = rw (==_refl k) (rw (==_refl e) refl)
contains-in item (x ∷ before) after = rw (contains-in item before after) (if_either _)

add_new-apart :
    (q items : List Item) (item : Item)
    → q ≡ items
    → All (λ (other : Item). other ≢ item) items
    → add_new item q ≡ items ++ item ∷ []
add_new-apart q items item e h = rw e (rw (contains-apart item items h) refl)

add_new-in :
    (q before after : List Item) (item : Item) → q ≡ before ++ item ∷ after → add_new item q ≡ q
add_new-in q before after item e = rw e (rw (contains-in item before after) refl)

first-rest :
    (q : List Item) (item : Item) (rest : List Item)
    → q ≡ item ∷ rest
    → (q' : List Item) × (first q ≡ (q', some item)) × (q' ≡ rest)
first-rest q item rest e = (rest, ap first e, refl)

in_order_queue : InOrder set_queue
in_order_queue = record {
  waiting = λ q. q;
  is_idle = λ q. true;
  adds = λ q items item idle e h. (add_new-apart q items item e h, refl);
  ignores = λ q before after item idle e. (add_new-in q before after item e, refl);
  hands_out = λ q item rest idle. first-rest q item rest;
  finishes = λ q q' item idle e. (refl, refl);
}

recreated-loses_stores_example :
    (w1 : World) × (p1 : Process) × (q1 : List Item) × (w2 : World) × (p2 : Process) × (q2 : List
      Item)
    × (process_next_work_item steady slices yaml true cache set_queue none process (
          on_add cache set_queue
            (on_delete cache set_queue
              (on_add cache set_queue [] (managed resource))
              (managed resource))
            (managed resource))
        ≡ ok (((w1, p1), q1), true))
    × (process_next_work_item steady slices yaml true cache set_queue w1 p1 q1
        ≡ ok (((w2, p2), q2), true))
    × (q2 ≡ [])
    × (lookup resource.uid p2.uid_to_stores ≡ none)
unfolding in_order_queue
recreated-loses_stores_example =
    recreated-loses_stores steady slices yaml true cache set_queue in_order_queue "default/foos"
      "default" "foos" resource refl refl healthy no_stores-IsWhole none process []
      (managed resource) (managed resource) refl refl refl refl refl
