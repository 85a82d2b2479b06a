-- ===== src/Informers.antt =====
-- pkg/generated/informers/externalversions: the factory that makes, shares and starts the informers.
pub mod Starts
pub mod Runs
pub mod Shares
use crdmetrics.Prelude.{
  ℕ, zero, suc, ◌+◌, ◌-◌, String, Bool, true, false, ◌≡◌, Option, none, some, List, [], ◌∷◌,
  if◌then◌else◌, ◌&&◌, ◌==◌, string_eq, eqb,
}
use crdmetrics.Prelude.Map.{Map, lookup, insert}

-- What the factory uses of client-go and of the generated clients: informers, and the typed client
-- behind `ListFunc` and `WatchFunc`.
pub record InformerLib : Type 1 where
  pub Clientset : Type 0
  pub Duration : Type 0
  pub ListOptions : Type 0
  pub ListAnswer : Type 0
  pub WatchAnswer : Type 0
  pub Transform : Type 0
  pub Informer : Type 0
  -- `CrdmetricsV1alpha1().CRDMetricsResources(namespace)`, and its List and Watch
  pub list : Clientset → String → ListOptions → ListAnswer
  pub watch : Clientset → String → ListOptions → WatchAnswer
  -- cache.NewSharedIndexInformer for a `CRDMetricsResource`, by namespace. An informer is a pointer to
  -- a new object, so it also depends on where that is put: two that are made with the same functions
  -- are not one.
  pub new_shared_index_informer :
      ℕ → (ListOptions → ListAnswer) → (ListOptions → WatchAnswer) → Duration → Informer
  -- nil is no transform
  pub set_transform : Option Transform → Informer → Informer
  -- cache.WaitForCacheSync for `HasSynced` of one informer
  pub wait_for_cache_sync : Informer → Bool

-- the type of `&CRDMetricsResource{}`, for `reflect.TypeOf`
abbrev pub crd_metrics_resource_type : String
crd_metrics_resource_type = "*v1alpha1.CRDMetricsResource"

-- a `schema.GroupVersionResource`
pub record GroupVersionResource : Type 0 where
  pub group : String
  pub version : String
  pub resource : String

-- a missing key of a map to bool reads as false
abbrev pub is_set : Option Bool → Bool
is_set none = false
is_set (some b) = b

module _ (lib : InformerLib) where
  open lib use {
    Clientset, Duration, ListOptions, ListAnswer, WatchAnswer, Transform, Informer, list, watch,
    new_shared_index_informer, set_transform, wait_for_cache_sync,
  }

  -- The functions below run under the lock, but for the waits of `Shutdown` and `WaitForCacheSync`.
  pub record SharedInformerFactory : Type 0 where
    pub client : Clientset
    pub namespace : String
    pub tweak_list_options : Option (ListOptions → ListOptions)
    pub default_resync : Duration
    pub custom_resync : Map String Duration
    pub transform : Option Transform
    pub informers : Map String Informer
    pub started_informers : Map String Bool
    pub wg : ℕ
    pub shutting_down : Bool
    -- how many informers were made, which is the place of the next one
    pub allocations : ℕ

  abbrev pub SharedInformerOption : Type 0
  SharedInformerOption = SharedInformerFactory → SharedInformerFactory

  abbrev pub NewInformerFunc : Type 0
  NewInformerFunc = Clientset → Duration → ℕ → Informer

  -- the loop of `WithCustomResyncConfig`; an object is its type here
  unfoldable pub custom_resyncs :
      List (String × Duration) → Map String Duration → Map String Duration
  custom_resyncs [] m = m
  custom_resyncs ((k, v) ∷ config) m = custom_resyncs config (insert k v m)

  unfoldable pub with_custom_resync_config : List (String × Duration) → SharedInformerOption
  with_custom_resync_config config factory = record factory {
    custom_resync = custom_resyncs config factory.custom_resync;
  }

  unfoldable pub with_tweak_list_options : Option (ListOptions → ListOptions) → SharedInformerOption
  with_tweak_list_options tweak factory = record factory { tweak_list_options = tweak }

  unfoldable pub with_namespace : String → SharedInformerOption
  with_namespace namespace factory = record factory { namespace = namespace }

  unfoldable pub with_transform : Option Transform → SharedInformerOption
  with_transform transform factory = record factory { transform = transform }

  -- "Apply all options"
  unfoldable pub apply_options : List SharedInformerOption → SharedInformerOption
  apply_options [] factory = factory
  apply_options (opt ∷ options) factory = apply_options options (opt factory)

  unfoldable pub new_shared_informer_factory_with_options :
      Clientset → Duration → List SharedInformerOption → SharedInformerFactory
  new_shared_informer_factory_with_options client default_resync options =
      apply_options options (record {
        client = client;
        namespace = "";
        tweak_list_options = none;
        default_resync = default_resync;
        custom_resync = [];
        transform = none;
        informers = [];
        started_informers = [];
        wg = 0;
        shutting_down = false;
        allocations = 0;
      })

  unfoldable pub new_shared_informer_factory : Clientset → Duration → SharedInformerFactory
  new_shared_informer_factory client default_resync =
      new_shared_informer_factory_with_options client default_resync []

  unfoldable pub new_filtered_shared_informer_factory :
      Clientset → Duration → String → Option (ListOptions → ListOptions) → SharedInformerFactory
  new_filtered_shared_informer_factory client default_resync namespace tweak =
      new_shared_informer_factory_with_options client default_resync
        (with_namespace namespace ∷ with_tweak_list_options tweak ∷ [])

  -- whether the informer of a type has been started
  abbrev pub is_started : String → SharedInformerFactory → Bool
  is_started informer_type f = is_set (lookup informer_type f.started_informers)

  abbrev launch :
      String × Informer
      → SharedInformerFactory × List (String × Informer)
      → SharedInformerFactory × List (String × Informer)
  launch goroutine (f, launched) = (f, goroutine ∷ launched)

  -- The loop of `Start`: the factory, and the goroutines that it launches, each of which calls `Run` of
  -- an informer.
  unfoldable pub start_all :
      Map String Informer → SharedInformerFactory → SharedInformerFactory × List (String × Informer)
  start_all [] f = (f, [])
  start_all ((informer_type, informer) ∷ informers) f =
      if is_started informer_type f
      then start_all informers f
      else launch (informer_type, informer)
          (start_all informers (record f {
            wg = f.wg + 1;
            started_informers = insert informer_type true f.started_informers;
          }))

  unfoldable pub start : SharedInformerFactory → SharedInformerFactory × List (String × Informer)
  start f = if f.shutting_down then (f, []) else start_all f.informers f

  -- the deferred `wg.Done` of a goroutine that `Start` launched
  unfoldable pub run_done : SharedInformerFactory → SharedInformerFactory
  run_done f = record f { wg = f.wg - 1 }

  -- `Shutdown` up to its wait
  unfoldable pub shutdown : SharedInformerFactory → SharedInformerFactory
  shutdown f = record f { shutting_down = true }

  -- whether `wg.Wait` returns
  unfoldable pub shutdown_returns : SharedInformerFactory → Bool
  shutdown_returns f = eqb f.wg 0

  -- the started informers, copied in `WaitForCacheSync`, with what each wait returns
  unfoldable pub synced_started : Map String Informer → SharedInformerFactory → Map String Bool
  synced_started [] f = []
  synced_started ((informer_type, informer) ∷ informers) f =
      let rest = synced_started informers f in
      if is_started informer_type f
      then (informer_type, wait_for_cache_sync informer) ∷ rest
      else rest

  unfoldable pub wait_for_caches : SharedInformerFactory → Map String Bool
  wait_for_caches f = synced_started f.informers f

  abbrev resync_period : Duration → Option Duration → Duration
  resync_period default_resync none = default_resync
  resync_period default_resync (some period) = period

  -- the informer that `InformerFor` makes if there is none
  abbrev pub made : SharedInformerFactory → String → NewInformerFunc → Informer
  made f informer_type new_func = set_transform f.transform (
      new_func f.client (resync_period f.default_resync (lookup informer_type f.custom_resync))
        f.allocations)

  abbrev informer_or_new :
      SharedInformerFactory
      → String
      → NewInformerFunc
      → Option Informer
      → SharedInformerFactory × Informer
  informer_or_new f informer_type new_func (some informer) = (f, informer)
  informer_or_new f informer_type new_func none =
      let informer = made f informer_type new_func in
      (
        record f {
          informers = insert informer_type informer f.informers;
          allocations = f.allocations + 1;
        },
        informer,
      )

  unfoldable pub informer_for :
      SharedInformerFactory → String → NewInformerFunc → SharedInformerFactory × Informer
  informer_for f informer_type new_func =
      informer_or_new f informer_type new_func (lookup informer_type f.informers)

  abbrev pub tweaked : Option (ListOptions → ListOptions) → ListOptions → ListOptions
  tweaked none options = options
  tweaked (some tweak) options = tweak options

  -- NewFilteredCRDMetricsResourceInformer
  unfoldable pub new_filtered_informer :
      String → Option (ListOptions → ListOptions) → NewInformerFunc
  new_filtered_informer namespace tweak client resync_period place =
      new_shared_index_informer place
        (λ (options : ListOptions). list client namespace (tweaked tweak options))
        (λ (options : ListOptions). watch client namespace (tweaked tweak options)) resync_period

  -- `Crdmetrics().V1alpha1().CRDMetricsResources().Informer()`
  unfoldable pub informer : SharedInformerFactory → SharedInformerFactory × Informer
  informer f =
      informer_for f crd_metrics_resource_type
        (new_filtered_informer f.namespace f.tweak_list_options)

  -- ForResource; `none` is an error
  unfoldable pub for_resource :
      SharedInformerFactory → GroupVersionResource → Option (SharedInformerFactory × Informer)
  for_resource f r =
      if r.group == "crdmetrics.instrumentation.k8s-sigs.io"
        && r.version == "v1alpha1"
        && r.resource == "crdmetricsresources"
      then some (informer f)
      else none
