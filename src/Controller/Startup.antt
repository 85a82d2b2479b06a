-- ===== src/Controller/Startup.antt =====
-- internal/controller.go: `NewController` and `Run` with the informer factory.
use mathlib.Core.Path.{subst}
use crdmetrics.Prelude.{
  ℕ, String, Bool, true, false, ◌≡◌, refl, Option, none, some, List, [], ◌∷◌, some-injective,
  string_eq,
}
use crdmetrics.Prelude.Map.{lookup, insert}
use crdmetrics.Informers.{
  InformerLib, SharedInformerFactory, crd_metrics_resource_type, new_shared_informer_factory,
  new_shared_informer_factory_with_options, apply_options, informer, informer_for, start, start_all,
  new_filtered_informer,
}
use crdmetrics.Server.Run.{Options, Running, run}

module _ (lib : InformerLib) where
  -- What of the controller has a part in its start: the factory, and the informer on which
  -- `NewController` has set its callbacks.
  pub record Controller : Type 0 where
    pub informer_factory : SharedInformerFactory lib
    pub handled : lib.Informer

  -- after `AddEventHandler`, which may fail
  abbrev attached : Bool → SharedInformerFactory lib × lib.Informer → Option Controller
  attached true (f, i) = some (record { informer_factory = f; handled = i })
  attached false (f, i) = none

  -- NewController, given what `AddEventHandler` answers and a resync period of 0; `none` is an exit
  -- with code 1
  unfoldable pub new_controller : Bool → lib.Duration → lib.Clientset → Option Controller
  new_controller adds_handler never client =
      attached adds_handler (informer lib (new_shared_informer_factory lib client never))

  -- The part of `Run` that has to do with the factory: the goroutines launched, the informer waited
  -- for, and what runs then.
  pub record Start : Type 0 where
    pub launched : List (String × lib.Informer)
    pub awaited : lib.Informer
    pub running : Option Running

  abbrev awaiting :
      Options → ℕ → List (String × lib.Informer) → SharedInformerFactory lib × lib.Informer → Start
  awaiting options workers launched (f, i) = record {
    launched = launched;
    awaited = i;
    running = run (lib.wait_for_cache_sync i) options workers;
  }

  abbrev begun : Options → ℕ → SharedInformerFactory lib × List (String × lib.Informer) → Start
  begun options workers (f, launched) = awaiting options workers launched (informer lib f)

  unfoldable pub run_controller : Controller → Options → ℕ → Start
  run_controller c options workers = begun options workers (start lib c.informer_factory)

  -- the first informer that was made, for all namespaces and never resynced
  abbrev pub all_namespaces : lib.Duration → lib.Clientset → lib.Informer
  all_namespaces never client =
      lib.set_transform none
        (lib.new_shared_index_informer 0 (lib.list client "") (lib.watch client "") never)

  -- `Run` on a new controller starts one informer, the one on which `NewController` set its callbacks,
  -- and waits for that one, whatever other informers the same functions would make elsewhere in memory:
  -- it lists and watches the resources of all namespaces through the client
  -- that the controller was made with.
  pub run_controller-handled :
      (never : lib.Duration) (client : lib.Clientset) (c : Controller) (options : Options)
      (workers : ℕ)
      → new_controller true never client ≡ some c
      → (c.handled ≡ all_namespaces never client)
        × ((run_controller c options workers).launched
            ≡ (crd_metrics_resource_type, c.handled) ∷ [])
        × ((run_controller c options workers).awaited ≡ c.handled)
        × ((run_controller c options workers).running
            ≡ run (lib.wait_for_cache_sync c.handled) options workers)
  unfolding new_controller run_controller new_shared_informer_factory
      new_shared_informer_factory_with_options apply_options informer informer_for start start_all
      new_filtered_informer lookup insert
  run_controller-handled never client c options workers h =
      subst
        (λ (x : Controller).
          (x.handled ≡ all_namespaces never client)
          × ((run_controller x options workers).launched
              ≡ (crd_metrics_resource_type, x.handled) ∷ [])
          × ((run_controller x options workers).awaited ≡ x.handled)
          × ((run_controller x options workers).running
              ≡ run (lib.wait_for_cache_sync x.handled) options workers))
        (some-injective h) (refl, refl, refl, refl)

  -- whatever it was made for, a controller whose callbacks are set is there
  pub new_controller-some :
      (never : lib.Duration) (client : lib.Clientset)
      → (c : Controller) × (new_controller true never client ≡ some c)
  unfolding new_controller new_shared_informer_factory new_shared_informer_factory_with_options
      apply_options informer informer_for new_filtered_informer lookup
  new_controller-some never client = (_, refl)
