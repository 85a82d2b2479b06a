-- ===== src/Controller/Drain.antt =====
-- internal/controller.go, `Run` and `processNextWorkItem`: a worker stops once the queue is shut down.
use crdmetrics.Prelude.{
  ℕ, zero, suc, ◌+◌, Bool, true, false, ◌≡◌, refl, ◌∙◌, none, some, ok, panic, ◌⊎◌, inl, inr,
  if◌then◌else◌, arith,
}
use crdmetrics.Resource.{Slices}
use crdmetrics.Config.{Yaml, Process}
use crdmetrics.Handler.{Client}
use crdmetrics.Handler.Outcome.{HasNull}
use crdmetrics.Controller.{Cache, Workqueue, Item, run_worker, process_next_work_item, process_item}
use crdmetrics.Controller.Queueing.{lister_fails, process_next_work_item-requeues}

-- What the documentation of the work queue says of one that shuts down, which `Run` makes it do when
-- it returns: it takes no item any more, and hands out those it has (`left` of them) before it says
-- that it is shut down. This is how it answers one worker: with several, `Get` may wait for an item
-- that another one has.
pub record ShutsDown (queue : Workqueue) : Type 0 where
  pub is_shut : queue.State → Bool
  pub left : queue.State → ℕ
  pub hands_out :
      (q : queue.State) (n : ℕ)
      → is_shut q ≡ true
      → left q ≡ n + 1
      → (q' : queue.State) × (item : Item) × (queue.get q ≡ (q', some item))
        × (left q' ≡ n)
        × (is_shut q' ≡ true)
  pub at_the_end :
      (q : queue.State)
      → is_shut q ≡ true
      → left q ≡ 0
      → (q' : queue.State) × (queue.get q ≡ (q', none))
  pub takes_none :
      (q : queue.State) (item : Item)
      → is_shut q ≡ true
      → (left (queue.add_rate_limited item q) ≡ left q)
        × (is_shut (queue.add_rate_limited item q) ≡ true)
  pub forgets :
      (q : queue.State) (item : Item)
      → is_shut q ≡ true
      → (left (queue.forget item q) ≡ left q) × (is_shut (queue.forget item q) ≡ true)
  pub is_done :
      (q : queue.State) (item : Item)
      → is_shut q ≡ true
      → (left (queue.done item q) ≡ left q) × (is_shut (queue.done item q) ≡ true)

module _ (client : Client) (slices : Slices) (yaml : Yaml) (try_no_cache : Bool) (cache : Cache)
    (queue : Workqueue) (laws : ShutsDown queue) where
  open client use {World}

  abbrev after_item : (q : queue.State) (item : Item) (fails : Bool) → queue.State
  after_item q item fails =
      queue.done item (if fails then queue.add_rate_limited item q else queue.forget item q)

  after_item-left :
      (q : queue.State) (item : Item) (fails : Bool)
      → laws.is_shut q ≡ true
      → (laws.left (after_item q item fails) ≡ laws.left q)
        × (laws.is_shut (after_item q item fails) ≡ true)
  after_item-left q item true h =
      let (e, shut) = laws.takes_none q item h in
      let (e', shut') = laws.is_done (queue.add_rate_limited item q) item shut in (e' ∙ e, shut')
  after_item-left q item false h =
      let (e, shut) = laws.forgets q item h in
      let (e', shut') = laws.is_done (queue.forget item q) item shut in (e' ∙ e, shut')

  -- Once the work queue is shut down, a worker's loop ends: it takes one round for each item that is
  -- left and one in which it learns of the shutdown, whatever the lister and the API server answer,
  -- failures included. Or it panics, which takes that the API server hands back, from an update of a
  -- status, a resource whose configuration the YAML decoder takes without an error and that has a null
  -- store, or a store with a null family.
  pub run_worker-ends :
      (n : ℕ) (w : World) (p : Process) (q : queue.State)
      → laws.is_shut q ≡ true
      → laws.left q ≡ n
      → (HasNull client yaml
          × (run_worker client slices yaml try_no_cache cache queue (suc n) w p q ≡ panic))
        ⊎ ((r : (World × Process) × queue.State) × (run_worker client slices yaml try_no_cache cache
                queue
                (suc n)
                w
                p
                q
              ≡ ok (some r)))
  unfolding run_worker
  run_worker-ends zero w p q h e =
      let (q', got) = laws.at_the_end q h e in
      inr (((w, p), q'), unfold process_next_work_item process_item in rw got refl)
  run_worker-ends (suc n) w p q h e =
      let (q1, item, got, less, shut) = laws.hands_out q n h (e ∙ omega arith) in
      elim (process_next_work_item-requeues client slices yaml try_no_cache cache queue w p q q1
        item got) [
          | inl (null, _, stopped) ↦ inl (null, rw stopped refl)
          | inr (uid, w', p', g, round) ↦
              let (kept, shut') = after_item-left q1 item (lister_fails cache item.0) shut in
              elim (run_worker-ends n w' p' (after_item q1 item (lister_fails cache item.0)) shut'
                (kept ∙ less)) [
                  | inl (null, stopped) ↦ inl (null, rw round stopped)
                  | inr (r, ended) ↦ inr (r, rw round ended)
                ]
        ]
