-- ===== src/Examples/Whole.antt =====
-- The theorems on internal/server.go, internal/probe.go and internal/options.go, applied.
use mathlib.Core.List.{foldl}
use crdmetrics.Prelude.{
  List, Bytes, codes, Bool, true, false, ◌≡◌, refl, none, some, [], ◌∷◌, ◌++◌, ok, bytes_beq,
  string_eq,
}
use crdmetrics.Prelude.Map.{lookup}
use crdmetrics.Config.{Process}
use crdmetrics.Handler.Replaces.{handle_event-replaces}
use crdmetrics.Server.{
  Http, Probe, health, build_main, new_livez, new_healthz, generic_probe, metrics_handler,
}
use crdmetrics.Server.Run.{Options}
use crdmetrics.Server.Probes.{generic_probe-build_main}
use crdmetrics.Server.Reach.{
  Reachable, start, next, handles, start_process, after_group, metrics_handler_reachable,
}
use crdmetrics.Options.{int_flag, Values, Flag, Env, default_flags, read}
use crdmetrics.Options.Defaults.{find_flag}
use crdmetrics.Options.Precedence.{IsRead, read_precedence}
use crdmetrics.Examples.{libs, objects, buffer, in_order}
use crdmetrics.Examples.Queue.{steady, healthy, one_store, one_store-IsWhole}
use crdmetrics.Examples.Status.{slices, resource}

-- a buffer that also takes headers; the API server is unwell
abbrev pub http : Http
http = record {
  sink = buffer;
  write_header = λ status w. w ++ status ∷ [];
  set_content_type_text = λ w. w ++ codes "text";
  Request = Bool;
  negotiates_text = λ r. r;
  get_fails = λ path. true;
}

-- the process after an add event
added_one : (p : Process) × Reachable libs objects steady slices one_store p
added_one =
    let (w, p, e, _) =
      handle_event-replaces steady slices resource healthy one_store "addEvent" true
        one_store-IsWhole none start_process in
    (p, next start (handles none w p "addEvent" resource true e))

metrics_handler_reachable_example :
    metrics_handler http in_order added_one.0 false []
    ≡ ok (
        foldl (after_group http in_order added_one.0.heap) (codes "text") added_one.0.uid_to_stores)
metrics_handler_reachable_example =
    metrics_handler_reachable http in_order libs objects steady slices one_store added_one.0 false
      [] added_one.1

abbrev livez : Probe
livez = record { source = "main"; as_string = "/livez" }

livez_registered : lookup "/livez" (build_main (codes ":9999")).mux ≡ some (health livez)
unfolding lookup build_main new_livez new_healthz
livez_registered = refl

generic_probe-build_main_example :
    generic_probe http livez []
    ≡ (http.sink.write (http.write_header 503 []) (codes "Service Unavailable")).0
generic_probe-build_main_example =
    generic_probe-build_main http (codes ":9999") "/livez" livez [] livez_registered

-- every text is its own value
abbrev pub values : Values
values = record { canonical = λ kind text. some text }

abbrev env : Env
env name = some (codes "5")

abbrev workers : Flag
workers = record {
  name = codes "workers";
  kind = int_flag;
  value = codes "2";
  def_value = codes "2";
}

-- one of klog's flags
abbrev verbosity : Flag
verbosity = record { name = codes "v"; kind = int_flag; value = codes "0"; def_value = codes "0" }

workers_found : find_flag (codes "workers") (verbosity ∷ default_flags env) ≡ some workers
unfolding default_flags bytes_beq
workers_found = refl

abbrev wide_open : List (Bytes × Bytes)
wide_open = (codes "main-host", codes "::") ∷ []

read_precedence_example :
    ((q : List Flag)
      → read values env (verbosity ∷ []) (wide_open ++ (codes "workers", codes "2") ∷ wide_open)
        ≡ ok q
      → IsRead values env (codes "workers") (codes "2") workers q)
    × (codes "2" ≡ codes "2"
        → read values env (verbosity ∷ []) (wide_open ++ (codes "workers", codes "2") ∷ wide_open)
          ≡ read values env (verbosity ∷ []) (wide_open ++ wide_open))
unfolding bytes_beq
read_precedence_example =
    read_precedence values env (verbosity ∷ []) wide_open wide_open (codes "workers") (codes "2")
      (codes "2") workers workers_found (refl, tt) (refl, tt) refl (refl, tt)

abbrev pub options : Options
options = record {
  self_host = codes "::";
  self_port = 9998;
  main_host = codes "::";
  main_port = 9999;
}
