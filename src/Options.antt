-- ===== src/Options.antt =====
-- internal/options.go: the flags, the command line, and the environment's overrides.
pub mod Defaults
pub mod Precedence
use crdmetrics.Prelude.{
  ℕ, ◌-◌, Bytes, codes, Bool, true, false, not, ◌&&◌, leb, eqb, ◌≡◌, Option, none, some, List, [],
  ◌∷◌, ◌++◌, map, if◌then◌else◌, Result, ok, err, panic, ◌>>=◌, Error, bad_key, ◌==◌, bytes_eq,
}

-- the types of flags that `Read` defines
pub data Kind : Type 0 where
  bool_flag float64_flag string_flag int_flag : Kind

-- The text of the value that `Value.Set` of the package `flag` makes of a text: `strconv` parses it
-- and prints it again. `none` is an error.
pub record Values : Type 0 where
  pub canonical : Kind → Bytes → Option Bytes

-- flag.Flag
pub record Flag : Type 0 where
  pub name : Bytes
  pub kind : Kind
  pub value : Bytes
  pub def_value : Bytes

-- os.LookupEnv
abbrev pub Env : Type 0
Env = Bytes → Option Bytes

abbrev pub or_nothing : Option Bytes → Bytes
or_nothing none = []
or_nothing (some text) = text

-- os.Getenv
abbrev pub getenv : Env → Bytes → Bytes
getenv env name = or_nothing (env name)

abbrev flag : Bytes → Kind → Bytes → Flag
flag name kind def_value = record {
  name = name;
  kind = kind;
  value = def_value;
  def_value = def_value;
}

-- the definitions of the flags in `Read`
unfoldable pub default_flags : Env → List Flag
default_flags env =
    flag (codes "auto-gomaxprocs") bool_flag (codes "true")
    ∷ flag (codes "ratio-gomemlimit") float64_flag (codes "0.9")
    ∷ flag (codes "kubeconfig") string_flag (getenv env (codes "KUBECONFIG"))
    ∷ flag (codes "master") string_flag (getenv env (codes "KUBERNETES_MASTER"))
    ∷ flag (codes "self-host") string_flag (codes "::")
    ∷ flag (codes "self-port") int_flag (codes "9998")
    ∷ flag (codes "main-host") string_flag (codes "::")
    ∷ flag (codes "main-port") int_flag (codes "9999")
    ∷ flag (codes "try-no-cache") bool_flag (codes "false")
    ∷ flag (codes "workers") int_flag (codes "2")
    ∷ flag (codes "version") bool_flag (codes "false")
    ∷ []

-- strings.ReplaceAll(strings.ToUpper(name), "-", "_"), for an ASCII name
unfoldable pub upper_byte : ℕ → ℕ
upper_byte c = if leb b'a' c && leb c b'z' then c - 32 else if eqb c b'-' then b'_' else c

unfoldable pub overrider_for_option_name : Bytes → Bytes
overrider_for_option_name name = codes "CRDMETRICS_" ++ map upper_byte name

module _ (values : Values) where
  open values use {canonical}

  abbrev with_value : Flag → Option Bytes → Option Flag
  with_value f none = none
  with_value f (some text) = some (record f { value = text })

  -- the flag, set to a text
  abbrev pub set_value : Flag → Bytes → Option Flag
  set_value f text = with_value f (canonical f.kind text)

  abbrev or_exit : List Flag → Option Flag → Result (List Flag)
  or_exit fs none = panic
  or_exit fs (some f) = ok (f ∷ fs)

  -- A flag on the command line. The process exits if there is no such flag or its text is malformed.
  unfoldable pub set_flag : Bytes → Bytes → List Flag → Result (List Flag)
  set_flag name text [] = panic
  set_flag name text (f ∷ fs) =
      if f.name == name
      then or_exit fs (set_value f text)
      else (set_flag name text fs >>= λ fs'. ok (f ∷ fs'))

  -- flag.Parse, with the arguments split into names and texts
  unfoldable pub parse : List (Bytes × Bytes) → List Flag → Result (List Flag)
  parse [] fs = ok fs
  parse ((name, text) ∷ args) fs = do fs' ← set_flag name text fs; parse args fs'

  abbrev or_panics : Option Flag → Result Flag
  or_panics none = panic
  or_panics (some f) = ok f

  -- a flag, after the look at the environment
  abbrev looked_up : Flag → Option Bytes → Result Flag
  looked_up f none = ok f
  looked_up f (some text) = or_panics (set_value f text)

  -- the function literal that `flag.VisitAll` calls
  unfoldable pub override : Env → Flag → Result Flag
  override env f =
      if not (f.value == f.def_value)
      then ok f
      else looked_up f (env (overrider_for_option_name f.name))

  unfoldable pub visit_all : Env → List Flag → Result (List Flag)
  visit_all env [] = ok []
  visit_all env (f ∷ fs) = do f' ← override env f; fs' ← visit_all env fs; ok (f' ∷ fs')

  -- Read. `main` has klog register its flags before; they are parsed and overridden with the others.
  -- The order in which `flag.VisitAll` visits the flags, by names, does not matter: it decides only
  -- which of several malformed overrides is named in the panic.
  unfoldable pub read : Env → List Flag → List (Bytes × Bytes) → Result (List Flag)
  read env registered args = do fs ← parse args (registered ++ default_flags env); visit_all env fs
