-- ===== src/Examples/Parallel.antt =====
-- The theorems on workers that run at once, applied.
use crdmetrics.Prelude.{true, false, ◌≡◌, refl, List, [], ◌∷◌}
use crdmetrics.Config.{Loaded, build_loaded, drop_stores}
use crdmetrics.Server.Linked.{IsLinked}
use crdmetrics.Server.Reach.{start_process}
use crdmetrics.Server.Workers.{Op, event_ops, run_ops, stores_at, store_for, drops, appends}
use crdmetrics.Server.Workers.Orders.{
  Interleaving, both_done, first, second, run_ops-as_if_in_turn, run_ops-served_twice,
}
use crdmetrics.Examples.Serving.{store}

-- A resource that is configured with one store.
abbrev one : Loaded
one = record { stores = store ∷ []; resource_uid = "resource-1" }

abbrev another : Loaded
another = record { stores = store ∷ []; resource_uid = "resource-2" }

pub start_process-IsLinked : IsLinked start_process
start_process-IsLinked = record { shaped = tt; entries = tt }

abbrev mixed : List Op
mixed =
    drops "resource-1"
    ∷ drops "resource-2"
    ∷ appends "resource-1" true store
    ∷ appends "resource-2" false store
    ∷ []

mixed-Interleaving : Interleaving (event_ops one true) (event_ops another false) mixed
unfolding event_ops
mixed-Interleaving = first (second (first (second both_done)))

run_ops-as_if_in_turn_example :
    stores_at "resource-2" (run_ops mixed start_process)
    ≡ stores_at "resource-2" (
        build_loaded another
          (drop_stores "resource-2"
            (build_loaded one (drop_stores "resource-1" start_process) true))
          false)
run_ops-as_if_in_turn_example =
    run_ops-as_if_in_turn one another true false start_process mixed "resource-2"
      start_process-IsLinked refl mixed-Interleaving

run_ops-served_twice_example :
    (zs : List Op) × Interleaving (event_ops one true) (event_ops one true) zs
    × (stores_at "resource-1" (run_ops zs start_process)
        ≡ store_for true store ∷ store_for true store ∷ [])
run_ops-served_twice_example =
    run_ops-served_twice one one true true start_process start_process-IsLinked refl
