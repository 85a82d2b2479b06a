-- ===== src/Examples/Process.antt =====
-- The theorems on the start and the end of the process, applied.
use crdmetrics.Prelude.{
  length, ok, ℕ, String, true, false, ◌≡◌, ◌≢◌, ◌↔◌, refl, none, some, [], ◌∷◌, if◌then◌else◌, eqb,
  string_eq,
}
use crdmetrics.Prelude.Map.{lookup, insert}
use crdmetrics.Informers.{
  crd_metrics_resource_type, new_shared_informer_factory, new_shared_informer_factory_with_options,
  apply_options, informer, informer_for, new_filtered_informer,
}
use crdmetrics.Clientset.{
  RestTypes, Config, RestLib, Clientset, is_nil, new_for_config, new_for_config_and_client,
  with_rate_limiter, new_typed_for_config_and_client, set_config_defaults,
}
use crdmetrics.Clientset.Errors.{Shares, new_for_config-Shares}
use crdmetrics.Controller.Startup.{
  Controller, new_controller, run_controller, run_controller-handled, all_namespaces,
}
use crdmetrics.Main.{MainOptions, MainLib, main, runs, exits}
use crdmetrics.Main.Exit.{Served, main-runs_iff}
use crdmetrics.Main.Flags.{main_with_args}
use crdmetrics.Main.Flags.Count.{only_version}
use crdmetrics.Main.Flags.Version.{overridden, main_with_args-version}
use crdmetrics.Options.{Env}
use crdmetrics.Server.Run.{Running, run}
use crdmetrics.Examples.Startup.{lib}
use crdmetrics.Examples.Whole.{options, values}

-- rates and bursts are natural numbers, and everything else is a unit
abbrev types : RestTypes
types = record {
  RateLimiter = ℕ;
  Qps = ℕ;
  Burst = ℕ;
  NegotiatedSerializer = Unit;
  HttpClient = Unit;
  RestClient = String;
  DiscoveryClient = String;
  Rest = Unit;
}

-- a client is the user agent it has
abbrev rest : RestLib types
rest = record {
  default_kubernetes_user_agent = "kubernetes";
  codecs_without_conversion = tt;
  qps_positive = λ n. if eqb n 0 then false else true;
  burst_positive = λ n. if eqb n 0 then false else true;
  new_token_bucket_rate_limiter = λ qps burst. burst;
  http_client_for = λ c. some tt;
  rest_client_for = λ c h. some c.user_agent;
  new_discovery_client_for = λ c h. some c.user_agent;
  new_discovery_client = λ c. c;
}

abbrev config : Config types
config = record {
  group_version = none;
  api_path = "";
  negotiated_serializer = none;
  user_agent = "";
  rate_limiter = none;
  qps = 5;
  burst = 10;
  other_fields = tt;
}

abbrev clientset : Clientset types
clientset = record {
  discovery_client = "kubernetes";
  crdmetrics_v1alpha1 = record { rest_client = "kubernetes" };
}

config_works : new_for_config types rest config ≡ some clientset
unfolding new_for_config new_for_config_and_client with_rate_limiter new_typed_for_config_and_client
    set_config_defaults
config_works = refl

new_for_config-Shares_example :
    (h : Unit) × (c' : Config types) × (some tt ≡ some h)
    × Shares types rest c' h clientset
    × (c'.user_agent ≡ "kubernetes")
    × ((if rest.qps_positive 5 then is_nil types c'.rate_limiter else false) ≡ false)
new_for_config-Shares_example = new_for_config-Shares types rest config clientset config_works

abbrev controller : Controller lib
controller = record {
  informer_factory = record {
    client = tt;
    namespace = "";
    tweak_list_options = none;
    default_resync = 0;
    custom_resync = [];
    transform = none;
    informers = (crd_metrics_resource_type, 0) ∷ [];
    started_informers = [];
    wg = 0;
    shutting_down = false;
    allocations = 1;
  };
  handled = 0;
}

controller_made : new_controller lib true 0 tt ≡ some controller
unfolding new_controller new_shared_informer_factory new_shared_informer_factory_with_options
    apply_options informer informer_for new_filtered_informer lookup insert
controller_made = refl

run_controller-handled_example :
    (0 ≡ all_namespaces lib 0 tt)
    × ((run_controller lib controller options 2).launched ≡ (crd_metrics_resource_type, 0) ∷ [])
    × ((run_controller lib controller options 2).awaited ≡ 0)
    × ((run_controller lib controller options 2).running ≡ run true options 2)
run_controller-handled_example =
    run_controller-handled lib 0 tt controller options 2 controller_made

abbrev main_lib : MainLib types lib
main_lib = record {
  World = Unit;
  set_gomaxprocs = λ w. (w, none);
  set_gomemlimit = λ w. w;
  build_config_from_flags = λ url path. some config;
  kube_new_for_config = λ c. true;
  dynamic_new_for_config = λ c. true;
  as_interface = λ c. tt;
  no_resync = 0;
  adds_handler = true;
}

abbrev main_options : MainOptions
main_options = record {
  auto_gomaxprocs = true;
  version = false;
  n_flag = 0;
  master_url = [];
  kubeconfig = [];
  workers = 2;
  servers = options;
}

main-runs_iff_example :
    ((r : Running)
      → ((main types rest lib main_lib tt main_options).1 ≡ runs r)
        ↔ (false ≡ false) × Served types rest lib main_lib main_options r)
    × ((code : ℕ) → (main types rest lib main_lib tt main_options).1 ≡ exits code → code ≡ 1)
main-runs_iff_example = main-runs_iff types rest lib main_lib main_options tt

abbrev two : ℕ
two = 2

-- an environment without overrides
abbrev no_env : Env
no_env name = none

main_with_args-version_example :
    (overridden types rest lib main_lib values length no_env [] ≡ 0
      → (w' : Unit) × (main_with_args types rest lib main_lib values length no_env [] only_version
            tt
          ≡ ok (w', exits 0)))
    × (overridden types rest lib main_lib values length no_env [] ≢ 0
        → main_with_args types rest lib main_lib values length no_env [] only_version tt
          ≡ main_with_args types rest lib main_lib values length no_env [] [] tt)
main_with_args-version_example =
    main_with_args-version types rest lib main_lib values length no_env [] tt refl refl tt
