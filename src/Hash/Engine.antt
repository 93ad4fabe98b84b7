-- ===== src/Hash/Engine.antt =====
-- hash_engine.py: `HashEngine`, which is one of the two tables.
use spac.Base.{ℕ, List, Option}
use spac.Config.{SwitchConfig, HashModuleType, full_lookup_table, multi_bank_hash}
use spac.Packet.{Metadata}
use spac.Hash.{RoutingTable}
use spac.Hash.FullLookup.{FullLookupTable}
use spac.Hash.MultiBank.{MultiBankHash}
use spac.Hash.FullLookup as Full_lookup
use spac.Hash.MultiBank as Multi_bank

-- `self.impl`
pub data HashEngine : Type 0 where
  full : FullLookupTable → HashEngine
  banks : MultiBankHash → HashEngine

unfoldable pub impl_of : HashModuleType → ℕ → ℕ → RoutingTable → HashEngine
impl_of full_lookup_table n bits routes = full (Full_lookup.init n routes)
impl_of multi_bank_hash n bits routes = banks (Multi_bank.init n bits)

-- `__init__`
unfoldable pub init : SwitchConfig → RoutingTable → HashEngine
unfolding impl_of
init c routes = impl_of c.hash_module_type c.num_ports c.hash_bits routes

-- `reset`
unfoldable pub reset : HashEngine → HashEngine
reset (full t) = full (Full_lookup.reset t)
reset (banks h) = banks (Multi_bank.init h.num_ports h.hash_bits)

-- `process_metadata`
unfoldable pub process_metadata :
    HashEngine → List (Option Metadata) → List (Option Metadata) × HashEngine
process_metadata (full t) ms = let r = Full_lookup.process_metadata t ms in (r.0, full r.1)
process_metadata (banks h) ms = let r = Multi_bank.process_metadata h ms in (r.0, banks r.1)
