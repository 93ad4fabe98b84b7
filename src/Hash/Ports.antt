-- ===== src/Hash/Ports.antt =====
-- hash_engine.py: where `FullLookupTable` sends packets.
use native.Mathlib.Nat.{mod-lt}
use spac.Base.{
  ℕ, zero, suc, ◌+◌, ◌≤◌, ◌<◌, ◌≡◌, ◌⊎◌, refl, subst, inl, inr, true, false, List, [], ◌∷◌, Option,
  none, some, ℤ, pos, negsuc, ltb, ◌==◌, length, All, arith, Bool-cases,
}
use spac.Packet.{Metadata}
use spac.Hash.{
  lookup, lookup-insert, route, any_metadata, no_results, default_port, goes_everywhere, address,
}
use spac.Hash.FullLookup.{
  FullLookupTable, learned, choose_port, learn, resolve, process_from, process_now,
  process_metadata,
}

-- A port of the switch.
abbrev pub IsPort : ℕ → ℤ → Type 0
IsPort n (pos p) = p < n
IsPort n (negsuc p) = ⊥

-- The ports of the first hops and of the entries of the table are ports of the switch.
abbrev pub RouteInRange : ℕ → Option ℤ → Type 0
RouteInRange n none = Unit {0}
RouteInRange n (some port) = IsPort n port

abbrev pub EntryInRange : ℕ → Option ℕ → Type 0
EntryInRange n none = Unit {0}
EntryInRange n (some port) = port < n

pub record IsInRange (t : FullLookupTable) : Type 0 where
  pub some_port : 0 < t.num_ports
  pub routes : (a : ℕ) → RouteInRange t.num_ports (route t.routing_table a)
  pub entries : (a : ℕ) → EntryInRange t.num_ports (learned (lookup a t.fwd_table))

-- A result: nothing, a broadcast with port -1, or a packet for a port of the switch.
abbrev pub IsResolved : ℕ → Option Metadata → Type 0
IsResolved n none = Unit {0}
IsResolved n (some m) =
    ((m.broadcast ≡ true) × (m.dst_port ≡ negsuc 0)) ⊎ ((m.broadcast ≡ false) × IsPort n m.dst_port)

pub default_port-IsPort : (n : ℕ) (z : ℤ) (dst : ℕ) → 0 < n → IsPort n (default_port n z dst)
unfolding default_port
default_port-IsPort n (pos p) dst h = elim (Bool-cases (ltb p n)) [
  | inl e ↦ rw e (ground arith)
  | inr e ↦ rw e (mod-lt dst h)
]
default_port-IsPort n (negsuc p) dst h = mod-lt dst h

choose_port-IsPort :
    (n : ℕ) (r : Option ℤ) (e : Option ℕ) (z : ℤ) (dst : ℕ)
    → 0 < n
    → RouteInRange n r
    → EntryInRange n e
    → IsPort n (choose_port n r e z dst)
unfolding choose_port
choose_port-IsPort n (some port) e z dst h r q = r
choose_port-IsPort n none (some port) z dst h r q = q
choose_port-IsPort n none none z dst h r q = default_port-IsPort n z dst h

resolve-IsResolved :
    (t : FullLookupTable) (m : Metadata) → IsInRange t → IsResolved t.num_ports (some (resolve t m))
unfolding resolve
resolve-IsResolved t m w = elim (Bool-cases (goes_everywhere m)) [
  | inl e ↦ rw e (inl (refl, refl))
  | inr e ↦ rw e (
      inr (
        refl,
        choose_port-IsPort t.num_ports (route t.routing_table (address m.dst_addr))
            (learned (lookup (address m.dst_addr) t.fwd_table)) m.dst_port (address m.dst_addr)
            w.some_port (w.routes (address m.dst_addr)) (w.entries (address m.dst_addr)),
      ))
]

learned-valid : (p : ℕ) → learned (some (true, p)) ≡ some p
unfolding learned
learned-valid p = refl

learn-IsInRange :
    (t : FullLookupTable) (port : ℕ) (m : Metadata)
    → port < t.num_ports
    → IsInRange t
    → IsInRange (learn t port m)
unfolding learn
learn-IsInRange t port m h w = record {
  some_port = w.some_port;
  routes = w.routes;
  entries = λ a. elim (Bool-cases (m.src_addr == a)) [
    | inl e ↦ rw (lookup-insert m.src_addr a (true, port) t.fwd_table, e, learned-valid) h
    | inr e ↦ rw (lookup-insert m.src_addr a (true, port) t.fwd_table, e) (w.entries a)
  ];
}

-- The results of the loop from a port on, and its table, are in range.
process_from-IsResolved :
    (ms : List (Option Metadata)) (t : FullLookupTable) (port n : ℕ)
    → t.num_ports ≡ n
    → port + length ms ≤ n
    → IsInRange t
    → All (IsResolved n) (process_from t port ms).0 × IsInRange (process_from t port ms).1
unfolding process_from
process_from-IsResolved [] t port n e l w = (tt, w)
process_from-IsResolved (none ∷ ms) t port n e l w =
    let r = process_from-IsResolved ms t (port + 1) n e (omega arith) w in ((tt, r.0), r.1)
process_from-IsResolved (some m ∷ ms) t port n e l w =
    let t' = learn t port m in
    let same : t'.num_ports ≡ n = unfold learn in e in
    let w' = learn-IsInRange t port m (omega arith) w in
    let r = process_from-IsResolved ms t' (port + 1) n same (omega arith) w' in
    ((subst (λ k. IsResolved k (some (resolve t' m))) same (resolve-IsResolved t' m w'), r.0), r.1)

pub no_results-IsResolved :
    (ms : List (Option Metadata)) (n : ℕ) → All (IsResolved n) (no_results ms)
unfolding no_results
no_results-IsResolved [] n = tt
no_results-IsResolved (none ∷ ms) n = (tt, no_results-IsResolved ms n)
no_results-IsResolved (some m ∷ ms) n = (tt, no_results-IsResolved ms n)

process_now-IsResolved :
    (k : ℕ) (t : FullLookupTable) (ms : List (Option Metadata))
    → length ms ≤ t.num_ports
    → IsInRange t
    → All (IsResolved t.num_ports) (process_now t k ms).0 × IsInRange (process_now t k ms).1
unfolding process_now
process_now-IsResolved (suc k) t ms l w = (
  no_results-IsResolved ms t.num_ports,
  record { some_port = w.some_port; routes = w.routes; entries = w.entries },
)
process_now-IsResolved zero t ms l w =
    let r = process_from-IsResolved ms t 0 t.num_ports refl (omega arith) w in
    (r.0, record { some_port = r.1.some_port; routes = r.1.routes; entries = r.1.entries })

-- With routes and entries to ports of the switch, and metadata for no more ports than there are,
-- each result of `process_metadata` is nothing, a broadcast, or a packet for a port of the switch,
-- and the entries lead to ports of the switch afterwards.
pub process_metadata-IsResolved :
    (t : FullLookupTable) (ms : List (Option Metadata))
    → length ms ≤ t.num_ports
    → IsInRange t
    → All (IsResolved t.num_ports) (process_metadata t ms).0 × IsInRange (process_metadata t ms).1
unfolding process_metadata
process_metadata-IsResolved t ms l w = elim (Bool-cases (any_metadata ms)) [
  | inl e ↦ rw e (process_now-IsResolved t.processing_cycles t ms l w)
  | inr e ↦ rw e (no_results-IsResolved ms t.num_ports, w)
]
