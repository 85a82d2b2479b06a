-- ===== src/Server/Run.antt =====
-- internal/controller.go, `Run`: what the controller starts once its caches are synced.
use mathlib.Core.Path.{subst}
use crdmetrics.Prelude.{
  Bool-cases, inl, inr, sym, ap, ◌∙◌, append_assoc, itoa-injective, ◌<◌, ◌^◌, ℕ, Bytes, codes, Bool,
  true, false, ◌≡◌, ◌≢◌, refl, Option, none, some, [], ◌∷◌, ◌++◌, if◌then◌else◌, eqb, itoa,
  itoa-All, All, arith,
}
use crdmetrics.Config.{Process}
use crdmetrics.Server.{HttpServer, build_self, build_main}
use crdmetrics.Server.Reach.{start_process}

-- The options that `Run` reads. A port is not negative.
pub record Options : Type 0 where
  pub self_host : Bytes
  pub self_port : ℕ
  pub main_host : Bytes
  pub main_port : ℕ

-- What runs until the context is done: the workers and both servers, over one shared state. The
-- errors of the servers and of their shutdown are only logged, and `Run` returns nil after it.
pub record Running : Type 0 where
  pub workers : ℕ
  pub process : Process
  pub self : Option HttpServer
  pub main : HttpServer

unfoldable pub has_colon : Bytes → Bool
has_colon [] = false
has_colon (c ∷ s) = let rest = has_colon s in if eqb c b':' then true else rest

-- net.JoinHostPort
unfoldable pub join_host_port : Bytes → Bytes → Bytes
join_host_port host port =
    if has_colon host
    then codes "[" ++ (host ++ (codes "]:" ++ port))
    else host ++ (codes ":" ++ port)

-- Run; `none` is the error of caches that do not sync. The gatherer that `Run` makes is a registry.
unfoldable pub run : Bool → Options → ℕ → Option Running
run synced options workers =
    if synced
    then some (record {
      workers = workers;
      process = start_process;
      self = build_self (join_host_port options.self_host (itoa options.self_port)) true;
      main = build_main (join_host_port options.main_host (itoa options.main_port));
    })
    else none

NoColon : Bytes → Type 0
NoColon = All (λ c. c ≢ b':')

colon_not_in : (b e : Bytes) → NoColon (b ++ b':' ∷ e) → ⊥
unfolding NoColon
colon_not_in [] e (h, hs) = h refl
colon_not_in (x ∷ b) e (h, hs) = colon_not_in b e hs

tails : {x y : ℕ} {s t : Bytes} → x ∷ s ≡ y ∷ t → s ≡ t
tails p = cc

-- what follows the last colon of an address
last_part : (a b d e : Bytes) → NoColon d → NoColon e → a ++ b':' ∷ d ≡ b ++ b':' ∷ e → d ≡ e
last_part [] [] d e h k p = cc
last_part [] (x ∷ b) d e h k p = absurd (colon_not_in b e (subst NoColon (tails p) h))
last_part (x ∷ a) [] d e h k p = absurd (colon_not_in a d (subst NoColon (sym (tails p)) k))
last_part (x ∷ a) (y ∷ b) d e h k p = last_part a b d e h k (tails p)

itoa-NoColon : (n : ℕ) → NoColon (itoa n)
unfolding NoColon
itoa-NoColon n = itoa-All (λ c. c ≢ b':') (λ c h k. ground arith) n

join_host_port-colon :
    (host port : Bytes) → (a : Bytes) × (join_host_port host port ≡ a ++ b':' ∷ port)
unfolding join_host_port
join_host_port-colon host port = elim (Bool-cases (has_colon host)) [
  | inl h ↦ (
    b'[' ∷ (host ++ b']' ∷ []),
    rw h (ap (λ (s : Bytes). b'[' ∷ s) (sym (append_assoc host (b']' ∷ []) (b':' ∷ port)))),
  )
  | inr h ↦ (host, rw h refl)
]

-- An address ends in its port, so two addresses that are the same have the same port.
port_of_address :
    (host host' : Bytes) (m n : ℕ)
    → m < 10 ^ 20
    → n < 10 ^ 20
    → join_host_port host (itoa m) ≡ join_host_port host' (itoa n)
    → m ≡ n
port_of_address host host' m n h k e =
    let (a, p) = join_host_port-colon host (itoa m) in
    let (b, q) = join_host_port-colon host' (itoa n) in
    itoa-injective m n h k
      (last_part a b (itoa m) (itoa n) (itoa-NoColon m) (itoa-NoColon n) (sym p ∙ e ∙ q))

-- If the two ports differ, then whatever the hosts, IPv6 addresses included, the controller sets up
-- both of its servers, and their addresses differ. The workers start with no stores.
pub run_addresses :
    (options : Options) (workers : ℕ)
    → options.self_port < 10 ^ 20
    → options.main_port < 10 ^ 20
    → options.self_port ≢ options.main_port
    → (r : Running) × (s : HttpServer) × (run true options workers ≡ some r)
      × (r.self ≡ some s)
      × (s.addr ≢ r.main.addr)
      × (r.process ≡ start_process)
unfolding run build_self build_main
run_addresses options workers h k ne = (
  _,
  _,
  refl,
  refl,
  (λ e. ne (
      port_of_address options.self_host options.main_host options.self_port options.main_port h k
        e)),
  refl,
)
