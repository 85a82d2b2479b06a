-- ===== src/Lib.antt =====
-- crdmetrics watches custom resources and serves metrics that it makes of them. A managed resource
-- (CRDMetricsResource) holds a YAML configuration, which names kinds of custom resources and, for each,
-- metric families with queries for labels and values. The controller turns the configuration into
-- stores, each fed by a reflector, and a server writes the stores out in the Prometheus text format.
--
-- The parts, and where they are modelled:
--   Metric      internal/metric.go: `writeMetricTo` (`write_metric_to`), `sortLabelset`
--   Resolver    pkg/resolver: `Values` has the Go values and `%v`; `Unstructured` and `Cel` each have a
--               `resolve` for the method `Resolve`
--   Family      internal/family.go: `rawFrom` (`raw_from`), `resolver` (`resolver_of`), `buildHeaders`;
--               `LabelKey` has the regular expression and the lower case of the label keys
--   Store       internal/store.go: the methods of `StoreType`; `serve` runs a reflector's calls of them
--   Writer      internal/writer.go: `writeAllTo` (`write_all_to`)
--   Builder     internal/builder.go: `buildStore` (`build_store`); `Sessions` has what the lists and
--               watches of its reflector make the store serve
--   Config      internal/config.go: `parse`, `build`; and `dropStores` of internal/events.go
--   Resource    pkg/apis/crdmetrics/v1alpha1/types.go: the resource, its conditions, and `Set`;
--               `DeepCopy` is zz_generated.deepcopy.go beside it, with the arrays in memory
--   Handler     internal/events.go: `handleEvent` (`handle_event`) and what it calls
--   Informers   pkg/generated/informers/externalversions: `sharedInformerFactory` with its `Start`,
--               `Shutdown`, `InformerFor` (`start`, `shutdown`, `informer_for`) and its options
--   Controller  internal/controller.go: the informer's callbacks, `enqueueCRDMetrics`,
--               `processNextWorkItem`, `syncHandler`, `handleObject`, the loop of a worker
--               (`run_worker`); `Startup` has `NewController` and `Run` with the factory
--   Server      internal/server.go, internal/probe.go: what the servers register, the handler of
--               /metrics (`metrics_handler`), the probes; `Reach` runs the whole program as steps;
--               `Run` is `Run` of internal/controller.go (`run`);
--               `Workers` has two workers whose operations on the shared map interleave;
--               `EndToEnd` goes from a resource's add event to the objects that are served;
--               `Exposition` and `Body` are about the whole body of a response
--   Options     internal/options.go: `Read` (`read`)
--   Clientset   pkg/generated/clientset/versioned: `NewForConfig` of the clientset and of its typed client
--   Main        main.go: `main`, and from the command line on in `Flags`; `Signals` is
--               pkg/signals/signal.go
--   Prelude, Floats   what these share
--   Examples    concrete libraries and data, and each theorem below applied to them
--
-- State. A store is a record (`StoreType`) and each of its methods a function on it: the code holds
-- the store's mutex for the whole of each. What all handlers share, `crdmetricsUIDToStores`, is
-- `Process`: a heap of the stores that were ever built, the map from UIDs to places in it, and the
-- reflectors that run. The API server is an opaque state that each call may change (`Client`). A Go
-- function that may fail or panic returns `Result`; of an error that only reaches the log the text
-- is left out. A float64 is its 64 bits, and what `strconv` and `fmt` make of it is a record of
-- functions (`Floats`). Strings that the program takes apart are lists of bytes, other strings are
-- native. A Go map is an association list; where the order of `range` can be seen, it is a parameter
-- (`RangeOrder`) or the order of the list.
--
-- Code that is not in this repository is a parameter: `Nested` (NestedFieldNoCopy), `CelLib` (cel-go),
-- `Objects` (ToUnstructured, meta.Accessor), `Yaml` (yaml.Unmarshal), `Slices` (slices.Index), `Sink`
-- (a writer), `Http` (responses and the negotiated type), `Workqueue`, `Cache`, `Client`,
-- `InformerLib`, `RestLib`, `MainLib` and `Round` (client-go, apimachinery and the API server).
-- `Values` is what flags make of texts with `strconv`.
--
-- Loops over slices are structural recursion. There is fuel in three places: the decimal text of a
-- number has at most twenty digits, which is enough for 64 bits; `read_labels`, a reader of the
-- exposition format written for the theorems, reads as many labels as it is told; and `run_worker` has
-- a number of rounds, of which a worker of a queue that is shut down needs one more than there are
-- items left in it. `sort.Slice` is the
-- insertion sort that it runs on up to twelve items; for distinct keys the result does not depend on
-- the algorithm.
--
-- What YAML decodes is `Configuration`: its slices of stores and of families hold pointers, and a null
-- entry is a nil one (`StoreConfiguration`). `build` panics on them, and where there are none its loop
-- runs over `Loaded`, so a built store has its families by value; the pointers to metrics stay, and
-- `rawFrom` panics on a nil one. An informer is a pointer too: what makes one is given how many were
-- made before (`allocations`).
--
-- Not modelled: logging, the goroutines of the servers and their shutdown, the requests of the
-- generated typed client, and the listers. In `Reach` a step is a whole event, and in
-- `Workers` it is a `dropStores` or one round of the loop of `build`: two goroutines that race on the
-- memory of the map itself are not described.
pub mod Prelude
pub mod Floats
pub mod Metric
pub mod Resolver
pub mod Family
pub mod Store
pub mod Writer
pub mod Resource
pub mod Builder
pub mod Config
pub mod Handler
pub mod Informers
pub mod Controller
pub mod Server
pub mod Options
pub mod Clientset
pub mod Main
pub mod Examples
