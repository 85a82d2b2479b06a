-- ===== src/Main/Exit.antt =====
-- main.go: how `main` ends.
use mathlib.Core.Path.{subst}
use crdmetrics.Prelude.{
  ℕ, Bool, true, false, ◌≡◌, ◌≢◌, ◌⊎◌, ◌↔◌, refl, ap, ◌∙◌, sym, Option, none, some, if◌then◌else◌,
  ◌&&◌, eqb, inl, inr, Bool-cases, Option-cases,
}
use crdmetrics.Clientset.{RestTypes, Config, RestLib, Clientset, new_for_config}
use crdmetrics.Informers.{InformerLib}
use crdmetrics.Server.Run.{Running, run}
use crdmetrics.Controller.Startup.{
  new_controller, run_controller-handled, new_controller-some, all_namespaces,
}
use crdmetrics.Main.{
  MainOptions, MainLib, Outcome, exits, runs, main, with_clientset, with_controller, of_run,
}

runs-injective : {r r' : Running} → runs r ≡ runs r' → r ≡ r'
runs-injective e = cc

exits-injective : {m n : ℕ} → exits m ≡ exits n → m ≡ n
exits-injective e = cc

runs_exits : {r : Running} {n : ℕ} → runs r ≢ exits n
runs_exits e = cc

true_is_not : true ≢ false
true_is_not e = cc

module _ (types : RestTypes) (rest : RestLib types) (informers : InformerLib)
    (lib : MainLib types informers) (options : MainOptions) where
  -- what `main` had when it came to serve
  pub record Served (r : Running) : Type 0 where
    pub config : Config types
    pub clientset : Clientset types
    pub configured : lib.build_config_from_flags options.master_url options.kubeconfig ≡ some config
    pub kube : lib.kube_new_for_config config ≡ true
    pub crdmetrics_client : new_for_config types rest config ≡ some clientset
    pub dynamic : lib.dynamic_new_for_config config ≡ true
    pub handled : lib.adds_handler ≡ true
    pub served :
        run
          (informers.wait_for_cache_sync
            (all_namespaces informers lib.no_resync (lib.as_interface clientset)))
          options.servers
          options.workers
        ≡ some r

  abbrev waited : Clientset types → Option Running
  waited clientset =
      run
        (informers.wait_for_cache_sync
          (all_namespaces informers lib.no_resync (lib.as_interface clientset)))
        options.servers options.workers

  with_handled :
      (clientset : Clientset types)
      → with_controller types rest informers lib options
          (new_controller informers true lib.no_resync (lib.as_interface clientset))
        ≡ of_run (waited clientset)
  with_handled clientset =
      let never = lib.no_resync in
      let client = lib.as_interface clientset in
      let (c, e) = new_controller-some informers never client in
      let (is_all, launched, awaited, running) =
        run_controller-handled informers never client c options.servers options.workers e in
      ap (with_controller types rest informers lib options) e
      ∙ ap (of_run) (
          running
          ∙ ap
              (λ (i : informers.Informer).
                run (informers.wait_for_cache_sync i) options.servers options.workers)
              is_all)

  with_added :
      (clientset : Clientset types)
      → lib.adds_handler ≡ true
      → with_controller types rest informers lib options
          (new_controller informers lib.adds_handler lib.no_resync (lib.as_interface clientset))
        ≡ of_run (waited clientset)
  with_added clientset h =
      subst
        (λ (b : Bool).
          with_controller types rest informers lib options
            (new_controller informers b lib.no_resync (lib.as_interface clientset))
          ≡ of_run (waited clientset))
        (sym h) (with_handled clientset)

  without_added :
      (clientset : Clientset types)
      → lib.adds_handler ≡ false
      → with_controller types rest informers lib options
          (new_controller informers lib.adds_handler lib.no_resync (lib.as_interface clientset))
        ≡ exits 1
  unfolding new_controller
  without_added clientset h =
      ap
        (λ (b : Bool).
          with_controller types rest informers lib options
            (new_controller informers b lib.no_resync (lib.as_interface clientset)))
        h

  -- an end with the exit code 1, or a start of the servers
  abbrev Ends : Outcome → Type 0
  Ends o = (o ≡ exits 1) ⊎ (r : Running) × (o ≡ runs r) × Served r

  of_run-Ends : (o : Option Running) → ((r : Running) → o ≡ some r → Served r) → Ends (of_run o)
  of_run-Ends none k = inl refl
  of_run-Ends (some r) k = inr (r, refl, k r refl)

  controller-Ends :
      (config : Config types) (clientset : Clientset types)
      → ((r : Running) → lib.adds_handler ≡ true → waited clientset ≡ some r → Served r)
      → Ends (
          with_controller types rest informers lib options
            (new_controller informers lib.adds_handler lib.no_resync (lib.as_interface clientset)))
  controller-Ends config clientset k = elim (Bool-cases lib.adds_handler) [
    | inl h ↦
        subst Ends (sym (with_added clientset h)) (of_run-Ends (waited clientset) (λ r e. k r h e))
    | inr h ↦ inl (without_added clientset h)
  ]

  clientset-Ends :
      (config : Config types)
      → lib.build_config_from_flags options.master_url options.kubeconfig ≡ some config
      → lib.kube_new_for_config config ≡ true
      → Ends (
          with_clientset types rest informers lib options config (new_for_config types rest config))
  clientset-Ends config c k = elim (Option-cases (new_for_config types rest config)) [
    | inl e ↦ rw e (inl refl)
    | inr (clientset, e) ↦ rw e (elim (Bool-cases (lib.dynamic_new_for_config config)) [
      | inl d ↦ rw d (
          controller-Ends config clientset (λ r h served. record {
            config = config;
            clientset = clientset;
            configured = c;
            kube = k;
            crdmetrics_client = e;
            dynamic = d;
            handled = h;
            served = served;
          }))
      | inr d ↦ rw d (inl refl)
    ])
  ]

  main-Ends :
      (w : lib.World)
      → (options.version && eqb options.n_flag 1) ≡ false
      → Ends (main types rest informers lib w options).1
  unfolding main
  main-Ends w v =
      elim (Option-cases (lib.build_config_from_flags options.master_url options.kubeconfig)) [
        | inl e ↦ rw (v, e) (inl refl)
        | inr (config, e) ↦
            rw (v, e)
              (elim (Bool-cases (lib.kube_new_for_config config)) [
                | inl k ↦ rw k (clientset-Ends config e k)
                | inr k ↦ rw k (inl refl)
              ])
      ]

  Served-runs :
      (w : lib.World) (r : Running)
      → (options.version && eqb options.n_flag 1) ≡ false
      → Served r
      → (main types rest informers lib w options).1 ≡ runs r
  unfolding main
  Served-runs w r v s =
      rw (v, s.configured, s.kube, s.crdmetrics_client, s.dynamic)
        (with_added s.clientset s.handled ∙ ap (of_run) s.served)

  pub main-version :
      (w : lib.World)
      → (options.version && eqb options.n_flag 1) ≡ true
      → (main types rest informers lib w options).1 ≡ exits 0
  unfolding main
  main-version w v = rw v refl

  -- `main` comes to run the workers and servers exactly if it was not asked for its version alone, the
  -- kubeconfig and the three clients could be built, the callbacks could be set, and the cache of the
  -- informer for the managed resources of all namespaces synced. If it exits instead, then with
  -- code 0 if it was asked for its version alone, and with code 1 if not.
  pub main-runs_iff :
      (w : lib.World)
      → ((r : Running)
          → ((main types rest informers lib w options).1 ≡ runs r)
            ↔ ((options.version && eqb options.n_flag 1) ≡ false) × Served r)
        × ((code : ℕ)
            → (main types rest informers lib w options).1 ≡ exits code
            → code ≡ (if options.version && eqb options.n_flag 1 then 0 else 1))
  main-runs_iff w = elim (Bool-cases (options.version && eqb options.n_flag 1)) [
    | inl v ↦ (
      (λ r. (
        (λ h. absurd (runs_exits (sym h ∙ main-version w v))),
        (λ h. absurd (true_is_not (sym v ∙ h.0))),
      )),
      (λ code h. exits-injective (sym h ∙ main-version w v) ∙ rw v refl),
    )
    | inr v ↦ (
      (λ r. ((λ h. (v, ran r h (main-Ends w v))), (λ h. Served-runs w r v h.1))),
      (λ code h. left code h (main-Ends w v) ∙ rw v refl),
    )
  ]
    where
      ran :
          (r : Running)
          → (main types rest informers lib w options).1 ≡ runs r
          → Ends (main types rest informers lib w options).1
          → Served r
      ran r h (inl e) = absurd (runs_exits (sym h ∙ e))
      ran r h (inr (r', e, s)) = subst Served (runs-injective (sym e ∙ h)) s

      left :
          (code : ℕ)
          → (main types rest informers lib w options).1 ≡ exits code
          → Ends (main types rest informers lib w options).1
          → code ≡ 1
      left code h (inl e) = exits-injective (sym h ∙ e)
      left code h (inr (r', e, s)) = absurd (runs_exits (sym e ∙ h))
