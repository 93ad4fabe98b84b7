-- ===== src/Hash/Learning.antt =====
-- hash_engine.py: `FullLookupTable` learns where addresses are.
use spac.Base.{
  ℕ, ◌<◌, ◌≡◌, ◌≢◌, refl, ap, ◌∙◌, true, false, none, some, pos, ◌==◌, get_elem?, arith,
}
use spac.Packet.{Metadata}
use spac.Hash.{lookup, insert, lookup-insert, route, goes_everywhere, address}
use spac.Hash.FullLookup.{FullLookupTable, learned, choose_port, learn, resolve, process_metadata}
use spac.Hash.Alone.{process_metadata-alone}
use spac.Switch.HashStage.{only_port}

entry_after :
    (t : FullLookupTable) (port port' : ℕ) (m m' : Metadata)
    → m'.src_addr ≢ m.src_addr
    → lookup m.src_addr
        (learn (record (learn t port m) { processing_cycles = 0 }) port' m').fwd_table
      ≡ some (true, port)
unfolding learn
entry_after t port port' m m' ne =
    let other : (m'.src_addr == m.src_addr) ≡ false = ground arith in
    let same : (m.src_addr == m.src_addr) ≡ true = ground arith in
    rw
      (
        lookup-insert m'.src_addr m.src_addr (true, port')
            (insert m.src_addr (true, port) t.fwd_table),
        other,
        lookup-insert m.src_addr m.src_addr (true, port) t.fwd_table,
        same,
      )
      refl

resolve-learned :
    (t : FullLookupTable) (a port : ℕ) (m : Metadata)
    → m.broadcast ≡ false
    → m.dst_addr ≡ pos a
    → route t.routing_table a ≡ none
    → lookup a t.fwd_table ≡ some (true, port)
    → resolve t m ≡ record m { dst_port = pos port; broadcast = false }
unfolding resolve goes_everywhere address learned choose_port
resolve-learned t a port m u d r e = rw (u, d, r, e) refl

-- After a packet has come in by a port, the next packet, if it is from another source, is for that
-- packet's source, and the routing table has no hop for it, is sent to the port: the bridge learns.
-- Each comes alone, in the list of as many entries as there are ports that the switch passes, and the
-- table waits for no cycle.
pub process_metadata_learns :
    (t : FullLookupTable) (n port port' : ℕ) (m m' : Metadata)
    → port < n
    → port' < n
    → t.processing_cycles ≡ 0
    → m'.broadcast ≡ false
    → m'.dst_addr ≡ pos m.src_addr
    → route t.routing_table m.src_addr ≡ none
    → m'.src_addr ≢ m.src_addr
    → get_elem?
        (process_metadata (process_metadata t (only_port n port m)).1 (only_port n port' m')).0
        port'
      ≡ some (some (record m' { dst_port = pos port; broadcast = false }))
process_metadata_learns t n port port' m m' h h' z u d r ne =
    let t' = record (learn t port m) { processing_cycles = 0 } in
    let routed : route (learn t' port' m').routing_table m.src_addr ≡ none = unfold learn in r in
    rw ((process_metadata-alone n port t m z h).1) (
      (process_metadata-alone n port' t' m' refl h').0
      ∙ ap (λ x. some (some x))
          (resolve-learned (learn t' port' m') m.src_addr port m' u d routed
            (entry_after t port port' m m' ne)))
