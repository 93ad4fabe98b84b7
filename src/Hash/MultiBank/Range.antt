-- ===== src/Hash/MultiBank/Range.antt =====
-- hash_engine.py: where `MultiBankHash` sends packets.
use spac.Base.{
  ℕ, zero, suc, ◌≡◌, inl, inr, List, [], ◌∷◌, Option, length, All, Bool-cases, map, range,
}
use spac.Packet.{Metadata}
use spac.Hash.{any_metadata}
use spac.Hash.Ports.{IsResolved, no_results-IsResolved}
use spac.Hash.MultiBank.{
  MultiBankHash, start, request_from, move_pointers, finish, process_now, process_metadata,
}
use spac.Hash.MultiBank.Loops.{
  IsInRange, Resolves, request_from-Resolves, serve_banks-Resolves, move_pointers-Resolves,
}

start-Resolves : (n : ℕ) (h : MultiBankHash) → IsInRange n h → Resolves n (start h)
unfolding start
start-Resolves n h w = record { hash = w; results = λ sp. tt }

results-All :
    (n : ℕ) (results : ℕ → Option Metadata) (ports : List ℕ)
    → ((sp : ℕ) → IsResolved n (results sp))
    → All (IsResolved n) (map results ports)
results-All n results [] w = tt
results-All n results (p ∷ ports) w = (w p, results-All n results ports w)

process_now-Resolves :
    (k n : ℕ) (h : MultiBankHash) (ms : List (Option Metadata))
    → IsInRange n h
    → All (IsResolved n) (process_now h k ms).0 × IsInRange n (process_now h k ms).1
unfolding process_now finish
process_now-Resolves (suc k) n h ms w = (
  no_results-IsResolved ms n,
  record {
    ports = w.ports;
    some_port = w.some_port;
    entries = w.entries;
    save_at = w.save_at;
    read_at = w.read_at;
  },
)
process_now-Resolves zero n h ms w =
    let v = request_from-Resolves ms n (start h) 0 (start-Resolves n h w) in
    let r = request_from (start h) 0 ms in
    let u =
      serve_banks-Resolves (range h.num_ports) n r (move_pointers r) v
        (move_pointers-Resolves n r v) in
    (
      results-All n _ (range (length ms)) u.results,
      record {
        ports = u.hash.ports;
        some_port = u.hash.some_port;
        entries = u.hash.entries;
        save_at = u.hash.save_at;
        read_at = u.hash.read_at;
      },
    )

-- With entries to ports of the switch, pointers at ports, and metadata for each port, each result of `process_metadata` is
-- nothing, a broadcast, or a packet for a port of the switch, whatever the ports' requests, and the
-- entries and pointers are such afterwards.
pub process_metadata-IsInRange :
    (n : ℕ) (h : MultiBankHash) (ms : List (Option Metadata))
    → length ms ≡ n
    → IsInRange n h
    → All (IsResolved n) (process_metadata h ms).0 × IsInRange n (process_metadata h ms).1
unfolding process_metadata
process_metadata-IsInRange n h ms l w = elim (Bool-cases (any_metadata ms)) [
  | inl e ↦ rw e (process_now-Resolves h.processing_cycles n h ms w)
  | inr e ↦ rw e (no_results-IsResolved ms n, w)
]
