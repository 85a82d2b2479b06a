-- ===== src/Server/Probes.antt =====
-- internal/server.go and internal/probe.go: what the probes of the two servers ask for.
use mathlib.Core.Path.{subst}
use crdmetrics.Prelude.{
  some-injective, String, Bytes, true, ◌≡◌, refl, some, [], ◌∷◌, All, codes, inl, inr, Bool-cases,
  if◌then◌else◌, ◌==◌, ==_iff, string_eq,
}
use crdmetrics.Prelude.Map.{Map, lookup}
use crdmetrics.Server.{
  Http, Probe, Handler, health, HttpServer, build_self, build_main, new_healthz, new_livez,
  new_readyz, generic_probe,
}

-- A probe asks the API server for the path under which it is registered.
abbrev Asks : String × Handler → Type 0
Asks (path, health p) = p.as_string ≡ path
Asks (path, h) = Unit

lookup-Asks :
    (path : String) (mux : Map String Handler) (h : Handler)
    → lookup path mux ≡ some h
    → All Asks mux
    → Asks (path, h)
unfolding lookup
lookup-Asks path [] h e _ = cc
lookup-Asks path ((k, g) ∷ mux) h e (a, rest) = elim (Bool-cases (k == path)) [
  | inl same ↦
      subst (λ (p : String). Asks (p, h)) ((==_iff k path).0 same)
        (subst (λ (x : Handler). Asks (k, x)) (some-injective (rw same at e)) a)
  | inr other ↦ lookup-Asks path mux h (rw other at e) rest
]

module _ (http : Http) (addr : Bytes) (path : String) (probe : Probe) (w : http.sink.State) where
  -- The answer to a probe under a path: the API server's health under the same path.
  abbrev answer : http.sink.State
  answer =
      if http.get_fails path
      then (http.sink.write (http.write_header 503 w) (codes "Service Unavailable")).0
      else (http.sink.write (http.write_header 200 w) (codes "OK")).0

  -- Whatever path the main server registers a probe under, the probe answers with 503 and its text if
  -- the API server fails a request for the same path, and with 200 and its text if not.
  pub generic_probe-build_main :
      lookup path (build_main addr).mux ≡ some (health probe) → generic_probe http probe w ≡ answer
  unfolding generic_probe
  generic_probe-build_main h =
      rw
        (lookup-Asks path (build_main addr).mux (health probe) h
          (unfold build_main new_healthz new_livez in (tt, (refl, (refl, tt)))))
        refl

  -- the server of the telemetry
  generic_probe-build_self :
      (server : HttpServer)
      → build_self addr true ≡ some server
      → lookup path server.mux ≡ some (health probe)
      → generic_probe http probe w ≡ answer
  unfolding generic_probe build_self
  generic_probe-build_self server e h =
      let same = some-injective e in
      rw
        (lookup-Asks path server.mux (health probe) h (
          subst (λ (s : HttpServer). All Asks s.mux) same
            (unfold new_readyz in (tt, (tt, (tt, (tt, (tt, (tt, (refl, tt))))))))))
        refl
