-- ===== src/Examples/EndToEnd.antt =====
-- The theorem on the way from a resource to what is served, applied.
use crdmetrics.Prelude.{
  string_eq, ◌≡◌, refl, some, none, true, false, [], ◌∷◌, arith, ok, get_elem?,
}
use crdmetrics.Prelude.Map.{lookup}
use crdmetrics.Store.{StoreType, serve}
use crdmetrics.Store.History.{is_served}
use crdmetrics.Builder.{Ref, Reflector}
use crdmetrics.Builder.Sessions.{round_calls}
use crdmetrics.Config.{Process, Configuration, refs_of}
use crdmetrics.Handler.{managed, handle_event}
use crdmetrics.Server.Reach.{start_process, set_at, stores_of}
use crdmetrics.Server.EndToEnd.{added-served}
use crdmetrics.Examples.{libs, objects, pod}
use crdmetrics.Examples.Serving.{entry, loaded, target, family_balanced}
use crdmetrics.Examples.Status.{slices, resource, World}
use crdmetrics.Examples.Queue.{steady, healthy, one_store}
use crdmetrics.Examples.Parallel.{start_process-IsLinked}
use crdmetrics.Examples.Rounds.{round, some_is_there, watch_pod-added}

abbrev configuration : Configuration
configuration = record { stores = some entry ∷ [] }

added-served_example :
    (w' : World) × (q : Process) × (ref : Ref) × (reflector : Reflector) × (s s' : StoreType)
    × (handle_event steady slices one_store none start_process "addEvent" (managed resource) false
        ≡ ok ((w', q), none))
    × (get_elem? (refs_of (lookup "resource-1" q.uid_to_stores)) 0 ≡ some ref)
    × (get_elem? q.heap ref ≡ some s)
    × (get_elem? q.reflectors 0 ≡ some reflector)
    × (reflector.store ≡ ref)
    × (reflector.target ≡ target)
    × (serve libs objects s (round_calls reflector round) ≡ ok s')
    × (get_elem?
          (stores_of (set_at ref s' q.heap) (refs_of (lookup "resource-1" q.uid_to_stores)))
          0
        ≡ some s')
    × (is_served objects "uid-1" s' ≡ true)
added-served_example =
    added-served libs objects steady slices one_store resource configuration healthy refl refl
      (loaded ∷ []) refl none start_process 0 loaded round (some pod ∷ []) [] [] [] (some pod) pod
      start_process-IsLinked refl (omega arith) family_balanced (λ o. some_is_there)
      (λ o version match. watch_pod-added o match) refl refl
