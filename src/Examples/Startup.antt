-- ===== src/Examples/Startup.antt =====
-- The theorems on the informer factory, applied.
use crdmetrics.Prelude.{ℕ, String, true, ◌≡◌, ◌↔◌, [], ◌++◌, length}
use crdmetrics.Informers.{
  InformerLib, SharedInformerFactory, new_shared_informer_factory, start, shutdown, informer_for,
  shutdown_returns,
}
use crdmetrics.Informers.Starts.{types_of, NoDups}
use crdmetrics.Informers.Runs.{Runs, nothing_yet, asks, starts, Runs-once}
use crdmetrics.Informers.Shares.{informer_for-shared, shutdown-launches_none}

-- an informer is its place
abbrev pub lib : InformerLib
lib = record {
  Clientset = Unit;
  Duration = ℕ;
  ListOptions = String;
  ListAnswer = String;
  WatchAnswer = String;
  Transform = Unit;
  Informer = ℕ;
  list = λ c namespace options. namespace;
  watch = λ c namespace options. options;
  new_shared_index_informer = λ place list watch period. place;
  set_transform = λ transform informer. informer;
  wait_for_cache_sync = λ informer. true;
}

abbrev factory : SharedInformerFactory lib
factory = new_shared_informer_factory lib tt 30

abbrev with_foo : SharedInformerFactory lib
with_foo = (informer_for lib factory "Foo" (λ c period place. place)).0

-- one informer is asked for, and the factory is started twice
started_twice :
    Runs lib factory
      ((start lib with_foo).1 ++ (start lib (start lib with_foo).0).1)
      0
      (start lib (start lib with_foo).0).0
started_twice = starts (starts (asks "Foo" (λ c period place. place) nothing_yet))

Runs-once_example :
    NoDups (types_of ((start lib with_foo).1 ++ (start lib (start lib with_foo).0).1))
    × ((shutdown_returns lib (start lib (start lib with_foo).0).0 ≡ true)
        ↔ (0 ≡ length ((start lib with_foo).1 ++ (start lib (start lib with_foo).0).1)))
Runs-once_example = Runs-once lib tt 30 started_twice

informer_for-shared_example :
    (informer_for lib (start lib with_foo).0 "Foo" (λ c period place. 7)).1
    ≡ (informer_for lib factory "Foo" (λ c period place. place)).1
informer_for-shared_example =
    informer_for-shared lib factory "Foo" (λ c period place. place) (λ c period place. 7)
      (starts nothing_yet)

shutdown-launches_none_example :
    ([] ++ (start lib (shutdown lib with_foo)).1 ≡ [])
    × ((start lib (shutdown lib with_foo)).0.shutting_down ≡ true)
shutdown-launches_none_example = shutdown-launches_none lib with_foo (starts nothing_yet)
