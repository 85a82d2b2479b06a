-- ===== src/Clientset.antt =====
-- pkg/generated/clientset/versioned: the clientset of the managed resources, and the typed client in it.
pub mod Errors
use crdmetrics.Prelude.{
  String, Bool, true, false, ◌≡◌, Option, none, some, if◌then◌else◌, ◌&&◌, not, ◌>>=◌, Result, ok,
  err, panic, Error, api_failed, or_panic, ◌==◌, string_eq,
}

-- the types that client-go has for the parts of a `rest.Config`, and for what is made of one
pub record RestTypes : Type 1 where
  pub RateLimiter : Type 0
  pub Qps : Type 0
  pub Burst : Type 0
  pub NegotiatedSerializer : Type 0
  pub HttpClient : Type 0
  pub RestClient : Type 0
  pub DiscoveryClient : Type 0
  -- the other fields of a configuration
  pub Rest : Type 0

module _ (types : RestTypes) where
  open types use {
    RateLimiter, Qps, Burst, NegotiatedSerializer, HttpClient, RestClient, DiscoveryClient, Rest,
  }

  -- rest.Config
  pub record Config : Type 0 where
    pub group_version : Option (String × String)
    pub api_path : String
    pub negotiated_serializer : Option NegotiatedSerializer
    pub user_agent : String
    pub rate_limiter : Option RateLimiter
    pub qps : Qps
    pub burst : Burst
    pub other_fields : Rest

  -- What the clientset calls of client-go. `none` is an error.
  pub record RestLib : Type 0 where
    pub default_kubernetes_user_agent : String
    pub codecs_without_conversion : NegotiatedSerializer
    -- `QPS > 0` and `Burst > 0`
    pub qps_positive : Qps → Bool
    pub burst_positive : Burst → Bool
    pub new_token_bucket_rate_limiter : Qps → Burst → RateLimiter
    pub http_client_for : Config → Option HttpClient
    pub rest_client_for : Config → HttpClient → Option RestClient
    pub new_discovery_client_for : Config → HttpClient → Option DiscoveryClient
    pub new_discovery_client : RestClient → DiscoveryClient

  -- CrdmetricsV1alpha1Client
  pub record CrdmetricsClient : Type 0 where
    pub rest_client : RestClient

  pub record Clientset : Type 0 where
    pub discovery_client : DiscoveryClient
    pub crdmetrics_v1alpha1 : CrdmetricsClient

  abbrev pub is_nil : Option RateLimiter → Bool
  is_nil none = true
  is_nil (some limiter) = false

  module _ (lib : RestLib) where
    open lib use {
      default_kubernetes_user_agent, codecs_without_conversion, qps_positive, burst_positive,
      new_token_bucket_rate_limiter, http_client_for, rest_client_for, new_discovery_client_for,
      new_discovery_client,
    }

    abbrev pub or_default_agent : String → String
    or_default_agent agent = if agent == "" then default_kubernetes_user_agent else agent

    -- setConfigDefaults, whose error is always nil
    unfoldable pub set_config_defaults : Config → Config
    set_config_defaults config = record config {
      group_version = some ("crdmetrics.instrumentation.k8s-sigs.io", "v1alpha1");
      api_path = "/apis";
      negotiated_serializer = some codecs_without_conversion;
      user_agent = or_default_agent config.user_agent;
    }

    abbrev pub of_rest_client : Option RestClient → Option CrdmetricsClient
    of_rest_client none = none
    of_rest_client (some client) = some (record { rest_client = client })

    -- NewForConfigAndClient of the typed client
    unfoldable pub new_typed_for_config_and_client : Config → HttpClient → Option CrdmetricsClient
    new_typed_for_config_and_client c h = of_rest_client (rest_client_for (set_config_defaults c) h)

    abbrev with_http_client : Config → Option HttpClient → Option CrdmetricsClient
    with_http_client config none = none
    with_http_client config (some h) = new_typed_for_config_and_client config h

    -- NewForConfig of the typed client
    unfoldable pub new_typed_for_config : Config → Option CrdmetricsClient
    new_typed_for_config c =
        with_http_client (set_config_defaults c) (http_client_for (set_config_defaults c))

    abbrev or_die {ℓ} : {A : Type ℓ} → Option A → Result A
    or_die none = panic
    or_die (some x) = ok x

    -- NewForConfigOrDie of the typed client
    unfoldable pub new_typed_for_config_or_die : Config → Result CrdmetricsClient
    new_typed_for_config_or_die c = or_die (new_typed_for_config c)

    -- New of the typed client
    unfoldable pub new_typed : RestClient → CrdmetricsClient
    new_typed c = record { rest_client = c }

    -- the shallow copy, with the rate limiter that both clients share; `none` is the error on the burst
    unfoldable pub with_rate_limiter : Config → Option Config
    with_rate_limiter c =
        if is_nil c.rate_limiter && qps_positive c.qps
        then if not (burst_positive c.burst)
          then none
          else some (record c { rate_limiter = some (new_token_bucket_rate_limiter c.qps c.burst) })
        else some c

    abbrev pub both : Option CrdmetricsClient → Option DiscoveryClient → Option Clientset
    both none d = none
    both (some t) none = none
    both (some t) (some d) = some (record { discovery_client = d; crdmetrics_v1alpha1 = t })

    abbrev pub clients_of : HttpClient → Option Config → Option Clientset
    clients_of h none = none
    clients_of h (some c) =
        both (new_typed_for_config_and_client c h) (new_discovery_client_for c h)

    -- NewForConfigAndClient
    unfoldable pub new_for_config_and_client : Config → HttpClient → Option Clientset
    new_for_config_and_client c h = clients_of h (with_rate_limiter c)

    -- the shallow copy in `NewForConfig`
    abbrev pub with_agent : Config → Config
    with_agent c = record c { user_agent = or_default_agent c.user_agent }

    abbrev pub over_http : Config → Option HttpClient → Option Clientset
    over_http c none = none
    over_http c (some h) = new_for_config_and_client c h

    -- NewForConfig
    unfoldable pub new_for_config : Config → Option Clientset
    new_for_config c = over_http (with_agent c) (http_client_for (with_agent c))

    -- NewForConfigOrDie
    unfoldable pub new_for_config_or_die : Config → Result Clientset
    new_for_config_or_die c = or_die (new_for_config c)

    -- New
    unfoldable pub new_clientset : RestClient → Clientset
    new_clientset c = record {
      discovery_client = new_discovery_client c;
      crdmetrics_v1alpha1 = new_typed c;
    }
