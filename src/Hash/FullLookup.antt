-- ===== src/Hash/FullLookup.antt =====
-- hash_engine.py: `FullLookupTable`.
use spac.Base.{
  ℕ, zero, suc, ◌+◌, ◌-◌, Bool, true, false, List, [], ◌∷◌, Option, none, some, ℤ, pos, negsuc,
  if◌then◌else◌,
}
use spac.Config.{full_lookup_table}
use spac.Config.Latency.{estimate_hash_ii}
use spac.Packet.{Metadata}
use spac.Hash.{
  RoutingTable, lookup, insert, route, any_metadata, no_results, default_port, goes_everywhere,
  address,
}

pub record FullLookupTable : Type 0 where
  pub num_ports : ℕ
  pub routing_table : RoutingTable
  pub fwd_table : List (ℕ × (Bool × ℕ))
  pub processing_cycles : ℕ

-- `__init__`
unfoldable pub init : ℕ → RoutingTable → FullLookupTable
init n routes = record {
  num_ports = n;
  routing_table = routes;
  fwd_table = [];
  processing_cycles = 0;
}

-- `reset`
unfoldable pub reset : FullLookupTable → FullLookupTable
reset t = record t { fwd_table = []; processing_cycles = 0 }

-- The port that the table has learned for an address, if its entry is valid.
unfoldable pub learned : Option (Bool × ℕ) → Option ℕ
learned none = none
learned (some (true, port)) = some port
learned (some (false, port)) = none

-- The output port of an address: the route, or else what was learned, or else the default.
unfoldable pub choose_port : ℕ → Option ℤ → Option ℕ → ℤ → ℕ → ℤ
unfolding default_port
choose_port n (some port) entry current dst = port
choose_port n none (some port) current dst = pos port
choose_port n none none current dst = default_port n current dst

-- The loop's body for metadata that came in by a port.
unfoldable pub learn : FullLookupTable → ℕ → Metadata → FullLookupTable
unfolding insert
learn t port m = record t { fwd_table = insert m.src_addr (true, port) t.fwd_table }

unfoldable pub resolve : FullLookupTable → Metadata → Metadata
unfolding goes_everywhere choose_port route lookup learned address
resolve t m =
    let dst = address m.dst_addr in
    if goes_everywhere m then record m { broadcast = true; dst_port = negsuc 0 } else record m {
      dst_port =
          choose_port t.num_ports (route t.routing_table dst) (learned (lookup dst t.fwd_table))
            m.dst_port dst;
      broadcast = false;
    }

-- The loop, from a port on.
unfoldable pub process_from :
    FullLookupTable → ℕ → List (Option Metadata) → List (Option Metadata) × FullLookupTable
unfolding learn resolve
process_from t port [] = ([], t)
process_from t port (none ∷ ms) = let r = process_from t (port + 1) ms in (none ∷ r.0, r.1)
process_from t port (some m ∷ ms) =
    let t' = learn t port m in
    let r = process_from t' (port + 1) ms in (some (resolve t' m) ∷ r.0, r.1)

-- `process_metadata`, by the cycles that are left
unfoldable pub process_now :
    FullLookupTable → ℕ → List (Option Metadata) → List (Option Metadata) × FullLookupTable
unfolding process_from no_results estimate_hash_ii
process_now t (suc k) ms = (no_results ms, record t { processing_cycles = k })
process_now t zero ms =
    let r = process_from t 0 ms in
    (r.0, record r.1 { processing_cycles = estimate_hash_ii full_lookup_table - 1 })

-- `process_metadata`
unfoldable pub process_metadata :
    FullLookupTable → List (Option Metadata) → List (Option Metadata) × FullLookupTable
unfolding process_now any_metadata no_results
process_metadata t ms =
    if any_metadata ms then process_now t t.processing_cycles ms else (no_results ms, t)
