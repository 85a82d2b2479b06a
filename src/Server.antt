-- ===== src/Server.antt =====
-- internal/server.go and internal/probe.go: the two servers, the metrics handler and the probes.
pub mod Probes
pub mod Linked
pub mod Reach
pub mod Exposition
pub mod Run
pub mod Workers
pub mod EndToEnd
pub mod Body
use crdmetrics.Prelude.{
  ℕ, String, Bytes, codes, Bool, true, false, ◌≡◌, Option, none, some, List, [], ◌∷◌, get_elem?,
  if◌then◌else◌, Result, ok, err, panic, or_panic, ◌>>=◌, Error,
}
use crdmetrics.Prelude.Map.{Map}
use crdmetrics.Store.{StoreType}
use crdmetrics.Writer.{Sink, RangeOrder, write_all_to}
use crdmetrics.Builder.{Ref}
use crdmetrics.Config.{Process}

-- What implements the interface `probe`: `healthz`, `livez` and `readyz` have the same fields and
-- methods.
pub record Probe : Type 0 where
  pub source : String
  pub as_string : String

unfoldable pub new_healthz : String → Probe
new_healthz source = record { source = source; as_string = "/healthz" }

unfoldable pub new_livez : String → Probe
new_livez source = record { source = source; as_string = "/livez" }

unfoldable pub new_readyz : String → Probe
new_readyz source = record { source = source; as_string = "/readyz" }

-- The response of an HTTP request and what the handlers ask of the outside: the response writer, the
-- negotiation of the content type in github.com/prometheus/common, and the API server.
pub record Http : Type 1 where
  pub sink : Sink
  pub write_header : ℕ → sink.State → sink.State
  pub set_content_type_text : sink.State → sink.State
  pub Request : Type 0
  -- `expfmt.Negotiate(r.Header)` gives plain text
  pub negotiates_text : Request → Bool
  -- the error of a GET of this path from the API server
  pub get_fails : String → Bool

-- The parts of `http.Handler` that are registered.
pub data Handler : Type 0 where
  pprof_index pprof_cmdline pprof_profile pprof_symbol pprof_trace : Handler
  telemetry : Handler
  metrics : Handler
  health : Probe → Handler

-- `http.Server`; the mux is the list of its registrations
pub record HttpServer : Type 0 where
  pub addr : Bytes
  pub source : String
  pub mux : List (String × Handler)

-- newSelfServer and newMainServer with `build`. Only a gatherer that is a registry is served.
unfoldable pub build_self : Bytes → Bool → Option HttpServer
build_self addr is_registry =
    if is_registry
    then some (record {
      addr = addr;
      source = "self";
      mux =
          ("/debug/pprof/", pprof_index)
          ∷ ("/debug/pprof/cmdline", pprof_cmdline)
          ∷ ("/debug/pprof/profile", pprof_profile)
          ∷ ("/debug/pprof/symbol", pprof_symbol)
          ∷ ("/debug/pprof/trace", pprof_trace)
          ∷ ("/metrics", telemetry)
          ∷ ((new_readyz "self").as_string, health (new_readyz "self"))
          ∷ [];
    })
    else none

unfoldable pub build_main : Bytes → HttpServer
build_main addr = record {
  addr = addr;
  source = "main";
  mux =
      ("/metrics", metrics)
      ∷ ((new_healthz "main").as_string, health (new_healthz "main"))
      ∷ ((new_livez "main").as_string, health (new_livez "main"))
      ∷ [];
}

-- the stores that the pointers point to
unfoldable pub deref : List StoreType → List Ref → Result (List StoreType)
deref heap [] = ok []
deref heap (ref ∷ refs) = do
  s ← or_panic (get_elem? heap ref)
  stores ← deref heap refs
  ok (s ∷ stores)

module _ (http : Http) where
  open http use {sink, write_header, set_content_type_text, Request, negotiates_text, get_fails}

  -- the statements that write a status and its text; a failed write is only logged
  abbrev pub respond : ℕ → Bytes → sink.State → sink.State
  respond status text w = (sink.write (write_header status w) text).0

  -- genericProbe
  unfoldable pub generic_probe : Probe → sink.State → sink.State
  generic_probe p w =
      if get_fails p.as_string
      then respond 503 (codes "Service Unavailable") w
      else respond 200 (codes "OK") w

  module _ (order : RangeOrder) where
    -- The loop over the map of all stores. An error of the writer is only logged.
    unfoldable pub write_groups :
        List StoreType → Map String (List Ref) → sink.State → Result sink.State
    write_groups heap [] w = ok w
    write_groups heap ((uid, refs) ∷ m) w = do
      stores ← deref heap refs
      (w', e) ← write_all_to sink order stores w
      write_groups heap m w'

    -- the handler of the main server's /metrics
    unfoldable pub metrics_handler : Process → Request → sink.State → Result sink.State
    metrics_handler p r w =
        write_groups p.heap p.uid_to_stores
          (if negotiates_text r then w else set_content_type_text w)
