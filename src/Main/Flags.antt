-- ===== src/Main/Flags.antt =====
-- main.go and internal/options.go: `main` from the command line and the environment on, with what
-- `flag.NFlag()` counts.
pub mod Count
pub mod Version
use crdmetrics.Prelude.{
  ℕ, zero, suc, ◌+◌, ◌≤◌, Bytes, codes, Bool, true, false, ◌&&◌, ◌||◌, ◌≡◌, ◌≢◌, refl, sym, ap, ◌∙◌,
  Option, none, some, List, [], ◌∷◌, ◌++◌, All, All-append, if◌then◌else◌, Result, ok, panic, ◌>>=◌,
  ◌==◌, ==_refl, bytes_eq, bytes_beq, arith, length, append_assoc, eqb,
}
use crdmetrics.Options.{
  Values, Flag, Env, Kind, bool_flag, default_flags, getenv, or_nothing, overrider_for_option_name,
  set_flag, set_value, parse, override, visit_all,
}
use crdmetrics.Clientset.{RestTypes, RestLib}
use crdmetrics.Informers.{InformerLib}
use crdmetrics.Main.{MainOptions, MainLib, Outcome, exits, runs, main}

-- whether the command line sets a flag
abbrev pub is_named : Bytes → List (Bytes × Bytes) → Bool
is_named name [] = false
is_named name ((n, text) ∷ args) = if n == name then true else is_named name args

abbrev pub is_there : Option Bytes → Bool
is_there none = false
is_there (some text) = true

-- Whether `flag.Set` was called on a flag, by `flag.Parse` or for an override, given what `flag.Parse`
-- left of it.
abbrev pub is_set_flag : Env → List (Bytes × Bytes) → Flag → Bool
is_set_flag env args f =
    is_named f.name args
    || (f.value == f.def_value && is_there (env (overrider_for_option_name f.name)))

-- flag.NFlag(), after `Read`
unfoldable pub n_flag : Env → List (Bytes × Bytes) → List Flag → ℕ
n_flag env args [] = 0
n_flag env args (f ∷ fs) =
    let rest = n_flag env args fs in if is_set_flag env args f then rest + 1 else rest

-- the text of a flag's value
abbrev pub text_of : Bytes → List Flag → Bytes
text_of name [] = []
text_of name (f ∷ fs) = if f.name == name then f.value else text_of name fs

-- The options as `main` reads them. `int_of` is the value that `strconv` has made of a text.
unfoldable pub options_of : (Bytes → ℕ) → ℕ → List Flag → MainOptions
options_of int_of n fs = record {
  auto_gomaxprocs = text_of (codes "auto-gomaxprocs") fs == codes "true";
  version = text_of (codes "version") fs == codes "true";
  n_flag = n;
  master_url = text_of (codes "master") fs;
  kubeconfig = text_of (codes "kubeconfig") fs;
  workers = int_of (text_of (codes "workers") fs);
  servers = record {
    self_host = text_of (codes "self-host") fs;
    self_port = int_of (text_of (codes "self-port") fs);
    main_host = text_of (codes "main-host") fs;
    main_port = int_of (text_of (codes "main-port") fs);
  };
}

module _ (types : RestTypes) (rest : RestLib types) (informers : InformerLib)
    (lib : MainLib types informers) (values : Values) (int_of : Bytes → ℕ) where
  -- main, with the flags that `klog.InitFlags` registers
  unfoldable pub main_with_args :
      Env → List Flag → List (Bytes × Bytes) → lib.World → Result (lib.World × Outcome)
  main_with_args env registered args w = do
    parsed ← parse values args (registered ++ default_flags env)
    flags ← visit_all values env parsed
    ok (main types rest informers lib w (options_of int_of (n_flag env args parsed) flags))
