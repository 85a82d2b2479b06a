-- ===== src/Main.antt =====
-- main.go: the start of the process.
pub mod Exit
pub mod Signals
pub mod Flags
use crdmetrics.Prelude.{
  ℕ, Bytes, Bool, true, false, ◌≡◌, Option, none, some, if◌then◌else◌, ◌&&◌, eqb, Result, ok, panic,
}
use crdmetrics.Clientset.{RestTypes, Config, RestLib, Clientset, new_for_config}
use crdmetrics.Informers.{InformerLib}
use crdmetrics.Server.Run.{Options, Running}
use crdmetrics.Controller.Startup.{Controller, Start, new_controller, run_controller}

-- What `main` reads of the options, and `flag.NFlag()`.
pub record MainOptions : Type 0 where
  pub auto_gomaxprocs : Bool
  pub version : Bool
  pub n_flag : ℕ
  pub master_url : Bytes
  pub kubeconfig : Bytes
  pub workers : ℕ
  pub servers : Options

-- What `main` calls that is not in this repository. `none` is an error.
pub record MainLib (types : RestTypes) (informers : InformerLib) : Type 1 where
  pub World : Type 0
  -- maxprocs.Set; with an error, the function that undoes it
  pub set_gomaxprocs : World → World × Option (World → World)
  -- memlimit.SetGoMemLimitWithOpts, whose error is only logged
  pub set_gomemlimit : World → World
  pub build_config_from_flags : Bytes → Bytes → Option (Config types)
  -- whether kubernetes.NewForConfig and dynamic.NewForConfig give a client
  pub kube_new_for_config : Config types → Bool
  pub dynamic_new_for_config : Config types → Bool
  -- the clientset as the informers use it
  pub as_interface : Clientset types → informers.Clientset
  pub no_resync : informers.Duration
  -- whether `AddEventHandler` succeeds
  pub adds_handler : Bool

-- How `main` ends: in an exit, or in what runs until the context is done; after that it returns.
pub data Outcome : Type 0 where
  exits : ℕ → Outcome
  runs : Running → Outcome

abbrev pub of_run : Option Running → Outcome
of_run none = exits 1
of_run (some running) = runs running

module _ (types : RestTypes) (rest : RestLib types) (informers : InformerLib)
    (lib : MainLib types informers) where
  abbrev undone : lib.World × Option (lib.World → lib.World) → lib.World
  undone (w, none) = w
  undone (w, some unset) = unset w

  -- "Set GOMAXPROCS based on CPU quota.", then GOMEMLIMIT
  unfoldable pub set_limits : lib.World → MainOptions → lib.World
  set_limits w options =
      lib.set_gomemlimit (if options.auto_gomaxprocs then undone (lib.set_gomaxprocs w) else w)

  abbrev pub with_controller : MainOptions → Option (Controller informers) → Outcome
  with_controller options none = exits 1
  with_controller options (some c) =
      of_run (run_controller informers c options.servers options.workers).running

  -- "Start the controller."
  abbrev pub with_clientset : MainOptions → Config types → Option (Clientset types) → Outcome
  with_clientset options cfg none = exits 1
  with_clientset options cfg (some clientset) =
      if lib.dynamic_new_for_config cfg
      then with_controller options
          (new_controller informers lib.adds_handler lib.no_resync (lib.as_interface clientset))
      else exits 1

  -- "Build client-sets.", after the kubeconfig
  abbrev with_config : MainOptions → Option (Config types) → Outcome
  with_config options none = exits 1
  with_config options (some cfg) =
      if lib.kube_new_for_config cfg
      then with_clientset options cfg (new_for_config types rest cfg)
      else exits 1

  -- main, once the options are read
  unfoldable pub main : lib.World → MainOptions → lib.World × Outcome
  main w options = (
    set_limits w options,
    if options.version && eqb options.n_flag 1
        then exits 0
        else with_config options
            (lib.build_config_from_flags options.master_url options.kubeconfig),
  )
