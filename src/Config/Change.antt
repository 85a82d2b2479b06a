-- ===== src/Config/Change.antt =====
-- internal/config.go and internal/events.go: what an event may do to the shared state.
use crdmetrics.Prelude.{String, Bool}
use crdmetrics.Config.{Process, Loaded, build_loaded, drop_stores}
use crdmetrics.Config.Stores.{Grows, Grows-refl, Grows-trans, drop_stores-Grows, build_stores-Grows}

-- The ways in which an event turns the shared state `p` into another one: not at all, by dropping
-- the stores of one resource, or by dropping them and building those of its configuration.
pub data Change (p : Process) : Process → Type 0 where
  unchanged : Change p p
  dropped : (uid : String) → Change p (drop_stores uid p)
  rebuilt :
      (c : Loaded) (try_no_cache : Bool)
      → Change p (build_loaded c (drop_stores c.resource_uid p) try_no_cache)

pub build_loaded-Grows :
    (c : Loaded) (try_no_cache : Bool) (p : Process)
    → Grows c.resource_uid p (build_loaded c p try_no_cache)
unfolding build_loaded
build_loaded-Grows c try_no_cache p = build_stores-Grows c.resource_uid try_no_cache p c.stores

pub Change-Grows : {p q : Process} → Change p q → (uid : String) × Grows uid p q
Change-Grows {p} unchanged = ("", Grows-refl "" p)
Change-Grows {p} (dropped uid) = (uid, drop_stores-Grows uid p)
Change-Grows {p} (rebuilt c try_no_cache) = (
  c.resource_uid,
  Grows-trans (drop_stores-Grows c.resource_uid p)
      (build_loaded-Grows c try_no_cache (drop_stores c.resource_uid p)),
)
