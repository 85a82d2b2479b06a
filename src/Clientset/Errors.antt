-- ===== src/Clientset/Errors.antt =====
-- pkg/generated/clientset/versioned/clientset.go: what a clientset that is made without an error shares.
use mathlib.Core.Path.{subst}
use crdmetrics.Prelude.{
  Bool, true, false, ◌≡◌, ◌≢◌, string_eq, ◌==◌, refl, ap, Option, none, some, some-injective,
  if◌then◌else◌, ◌&&◌, inl, inr, Bool-cases,
}
use crdmetrics.Clientset.{
  RestTypes, RestLib, Config, Clientset, CrdmetricsClient, is_nil, set_config_defaults,
  of_rest_client, new_typed_for_config_and_client, with_rate_limiter, both, clients_of,
  new_for_config_and_client, with_agent, over_http, new_for_config,
}

none_is_not {ℓ} : {A : Type ℓ} {x : A} → none ≢ some x
none_is_not h = cc

if_nothing : (b : Bool) → (if b then false else false) ≡ false
if_nothing true = refl
if_nothing false = refl

if_and : (a b : Bool) → (a && b) ≡ false → (if b then a else false) ≡ false
if_and true true h = h
if_and false true h = h
if_and a false h = refl

module _ (types : RestTypes) (lib : RestLib types) where
  -- the clients of a clientset are made of the configuration `c` and the HTTP client `h`
  pub record Shares (c : Config types) (h : types.HttpClient) (cs : Clientset types) : Type 0 where
    pub typed :
        lib.rest_client_for (set_config_defaults types lib c) h
        ≡ some cs.crdmetrics_v1alpha1.rest_client
    pub discovery : lib.new_discovery_client_for c h ≡ some cs.discovery_client

  typed_client :
      (r : Option types.RestClient) (t : CrdmetricsClient types)
      → of_rest_client types lib r ≡ some t
      → r ≡ some t.rest_client
  typed_client none t e = cc
  typed_client (some x) t e =
      ap some (ap (λ (u : CrdmetricsClient types). u.rest_client) (some-injective e))

  both_there :
      (t : Option (CrdmetricsClient types)) (d : Option types.DiscoveryClient)
      (cs : Clientset types)
      → both types lib t d ≡ some cs
      → (t ≡ some cs.crdmetrics_v1alpha1) × (d ≡ some cs.discovery_client)
  both_there none d cs e = (cc, cc)
  both_there (some t) none cs e = (cc, cc)
  both_there (some t) (some d) cs e =
      let e' = some-injective e in
      (
        ap some (ap (λ (x : Clientset types). x.crdmetrics_v1alpha1) e'),
        ap some (ap (λ (x : Clientset types). x.discovery_client) e'),
      )

  clients_of-Shares :
      (h : types.HttpClient) (o : Option (Config types)) (cs : Clientset types)
      → clients_of types lib h o ≡ some cs
      → (c : Config types) × (o ≡ some c) × Shares c h cs
  unfolding new_typed_for_config_and_client
  clients_of-Shares h none cs e = absurd (none_is_not e)
  clients_of-Shares h (some c) cs e =
      let (t, d) = both_there _ _ cs e in
      (c, refl, record { typed = typed_client _ _ t; discovery = d })

  over_http-Shares :
      (c : Config types) (o : Option types.HttpClient) (cs : Clientset types)
      → over_http types lib c o ≡ some cs
      → (h : types.HttpClient) × (c' : Config types) × (o ≡ some h)
        × (with_rate_limiter types lib c ≡ some c')
        × Shares c' h cs
  unfolding new_for_config_and_client
  over_http-Shares c none cs e = absurd (none_is_not e)
  over_http-Shares c (some h) cs e =
      let (c', w, s) = clients_of-Shares h (with_rate_limiter types lib c) cs e in
      (h, c', refl, w, s)

  -- the rate is limited, if it is positive
  abbrev Limited : Config types → Config types → Type 0
  Limited c c' =
      (c'.user_agent ≡ c.user_agent)
      × ((if lib.qps_positive c.qps then is_nil types c'.rate_limiter else false) ≡ false)

  rate_limiter-Limited :
      (c c' : Config types) → with_rate_limiter types lib c ≡ some c' → Limited c c'
  unfolding with_rate_limiter
  rate_limiter-Limited c c' e =
      elim (Bool-cases (is_nil types c.rate_limiter && lib.qps_positive c.qps)) [
        | inl makes ↦ elim (Bool-cases (lib.burst_positive c.burst)) [
          | inl positive ↦
              subst (Limited c) (some-injective (rw (makes, positive) at e))
                (refl, if_nothing (lib.qps_positive c.qps))
          | inr none_left ↦ absurd (none_is_not (rw (makes, none_left) at e))
        ]
        | inr keeps ↦
            subst (Limited c) (some-injective (rw keeps at e))
              (refl, if_and (is_nil types c.rate_limiter) (lib.qps_positive c.qps) keeps)
      ]

  -- If `NewForConfig` gives a clientset, then both of its clients, the typed one and the discovery client,
  -- are made with one HTTP client and of one configuration: it has the user agent of the given one, or
  -- the default if that is empty; and if the rate in it is positive, it has a rate limiter, which
  -- the two share.
  pub new_for_config-Shares :
      (c : Config types) (cs : Clientset types)
      → new_for_config types lib c ≡ some cs
      → (h : types.HttpClient) × (c' : Config types) × (lib.http_client_for (with_agent types lib c)
          ≡ some h)
        × Shares c' h cs
        × (c'.user_agent
            ≡ (if c.user_agent == "" then lib.default_kubernetes_user_agent else c.user_agent))
        × ((if lib.qps_positive c.qps then is_nil types c'.rate_limiter else false) ≡ false)
  unfolding new_for_config
  new_for_config-Shares c cs e =
      let (h, c', o, w, s) =
        over_http-Shares (with_agent types lib c) (lib.http_client_for (with_agent types lib c)) cs
          e in
      let (agent, limited) = rate_limiter-Limited (with_agent types lib c) c' w in
      (h, c', o, s, agent, limited)
