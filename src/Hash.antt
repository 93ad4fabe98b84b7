-- ===== src/Hash.antt =====
-- simulator/src/hash_engine.py: address lookup. Dictionaries are association lists; of a next hop of
-- the routing table only the port is kept, the one part that the lookup reads.
pub mod FullLookup
pub mod Alone
pub mod Learning
pub mod Ports
pub mod MultiBank
pub mod Engine
use spac.Base.{
  ℕ, zero, suc, ◌%◌, Bool, true, false, List, [], ◌∷◌, Option, none, some, ℤ, pos, negsuc, ltb,
  ◌==◌, if◌then◌else◌, ◌≡◌, arith, refl,
}
use spac.Packet.{Metadata}

-- d.get(key), and d[key] = value.
module _ {ℓ} {V : Type ℓ} where
  unfoldable pub lookup : ℕ → List (ℕ × V) → Option V
  lookup k [] = none
  lookup k ((j, x) ∷ d) = if j == k then some x else lookup k d

  unfoldable pub insert : ℕ → V → List (ℕ × V) → List (ℕ × V)
  insert k x [] = (k, x) ∷ []
  insert k x ((j, y) ∷ d) = if j == k then (k, x) ∷ d else (j, y) ∷ insert k x d

  pub lookup-insert :
      (k j : ℕ) (x : V) (d : List (ℕ × V))
      → lookup j (insert k x d) ≡ (if k == j then some x else lookup j d)
  unfolding lookup insert
  lookup-insert k j x [] = refl
  lookup-insert k j x ((i, y) ∷ d) = ground (arith, lookup-insert k j x d)

-- The routes: for a destination address the ports of its next hops.
abbrev pub RoutingTable : Type 0
RoutingTable = List (ℕ × List ℤ)

-- routing_table[dst][0][1], where the address is there and has a hop
unfoldable pub first_hop : Option (List ℤ) → Option ℤ
first_hop none = none
first_hop (some []) = none
first_hop (some (port ∷ hops)) = some port

unfoldable pub route : RoutingTable → ℕ → Option ℤ
unfolding first_hop lookup
route table dst = first_hop (lookup dst table)

-- any(metadata_list)
unfoldable pub any_metadata : List (Option Metadata) → Bool
any_metadata [] = false
any_metadata (none ∷ ms) = any_metadata ms
any_metadata (some m ∷ ms) = true

-- [None] * len(metadata_list)
unfoldable pub no_results : List (Option Metadata) → List (Option Metadata)
no_results [] = []
no_results (m ∷ ms) = none ∷ no_results ms

-- The port of an address that is not known: the one that the metadata has, if it is a port.
unfoldable pub default_port : ℕ → ℤ → ℕ → ℤ
default_port n (pos p) dst = if ltb p n then pos p else pos (dst % n)
default_port n (negsuc p) dst = pos (dst % n)

-- `meta.broadcast or meta.dst_addr == -1`
unfoldable pub goes_everywhere : Metadata → Bool
goes_everywhere m =
    if m.broadcast
    then true
    else elim m.dst_addr [ pos d ↦ false | negsuc zero ↦ true | negsuc (suc d) ↦ false ]

-- The address as a number; `Metadata` admits none below -1, and -1 goes everywhere.
unfoldable pub address : ℤ → ℕ
address (pos d) = d
address (negsuc d) = 0
