-- ===== src/Hash/MultiBank/Loops.antt =====
-- hash_engine.py: the loops of a call of `MultiBankHash`.
use native.Mathlib.Nat.{mod-lt}
use spac.Base.{
  ℕ, zero, suc, ◌+◌, ◌%◌, ◌<◌, ◌≡◌, refl, subst, inl, inr, Bool, true, false, List, [], ◌∷◌, Option,
  none, some, ℤ, negsuc, ◌==◌, ◌&&◌, arith, Bool-cases, update,
}
use spac.Packet.{Metadata}
use spac.Hash.{lookup, insert, lookup-insert, goes_everywhere, address}
use spac.Hash.Ports.{IsPort, IsResolved, default_port-IsPort}
use spac.Hash.MultiBank.{
  MultiBankHash, Call, admit, ask_again, request_from, arbitrate, save, hit, port_of_hit, read,
  granted, or_zero, serve_bank, serve_banks, move_pointers, get_hash_key,
}

-- An entry of a bank leads to a port of the switch.
abbrev pub BankEntryInRange : ℕ → Option (Bool × ℕ × ℕ) → Type 0
BankEntryInRange n none = Unit {0}
BankEntryInRange n (some (valid, addr, port)) = port < n

-- The entries of all banks lead to ports of the switch, and the pointers are at ports.
pub record IsInRange (n : ℕ) (h : MultiBankHash) : Type 0 where
  pub ports : h.num_ports ≡ n
  pub some_port : 0 < n
  pub entries : (bank key : ℕ) → BankEntryInRange n (lookup key (h.fwd_table bank))
  pub save_at : (bank : ℕ) → h.save_ptr bank < n
  pub read_at : (bank : ℕ) → h.read_ptr bank < n

-- A call whose results so far are resolved.
pub record Resolves (n : ℕ) (c : Call) : Type 0 where
  pub hash : IsInRange n c.hash
  pub results : (sp : ℕ) → IsResolved n (c.results sp)

arbitrate-InRange :
    (wants : ℕ → Bool) (n ptr rounds : ℕ)
    → ptr < n
    → ((arbitrate wants n ptr rounds).1 < n) × (or_zero (arbitrate wants n ptr rounds).0 < n)
unfolding arbitrate or_zero
arbitrate-InRange wants n ptr zero h = (h, omega arith)
arbitrate-InRange wants n ptr (suc rounds) h =
    let next = arbitrate-InRange wants n ((ptr + 1) % n) rounds (mod-lt (ptr + 1) (omega arith)) in
    ground (arith, next)

updated-IsResolved :
    (n sp : ℕ) (m : Metadata) (results : ℕ → Option Metadata)
    → ((k : ℕ) → IsResolved n (results k))
    → IsResolved n (some m)
    → (k : ℕ) → IsResolved n (update results sp (some m) k)
updated-IsResolved n sp m results old new k = elim (Bool-cases (sp == k)) [
  | inl e ↦ rw e new
  | inr e ↦ rw e (old k)
]

admit-Resolves :
    (n : ℕ) (c : Call) (sp : ℕ) (m : Option Metadata) → Resolves n c → Resolves n (admit c sp m)
unfolding admit
admit-Resolves n c sp none w = w
admit-Resolves n c sp (some m) w = elim (Bool-cases (goes_everywhere m)) [
  | inl e ↦ rw e (record {
    hash = w.hash;
    results =
        updated-IsResolved n sp (record m { broadcast = true; dst_port = negsuc 0 }) c.results
          w.results (inl (refl, refl));
  })
  | inr e ↦ rw e (record {
    hash = record {
      ports = w.hash.ports;
      some_port = w.hash.some_port;
      entries = w.hash.entries;
      save_at = w.hash.save_at;
      read_at = w.hash.read_at;
    };
    results = w.results;
  })
]

ask_again-Resolves :
    (n : ℕ) (c : Call) (sp : ℕ) (m : Option Metadata) → Resolves n c → Resolves n (ask_again c sp m)
unfolding ask_again
ask_again-Resolves n c sp none w = w
ask_again-Resolves n c sp (some m) w = record { hash = w.hash; results = w.results }

pub request_from-Resolves :
    (ms : List (Option Metadata)) (n : ℕ) (c : Call) (sp : ℕ)
    → Resolves n c
    → Resolves n (request_from c sp ms)
unfolding request_from
request_from-Resolves [] n c sp w = w
request_from-Resolves (m ∷ ms) n c sp w =
    elim (Bool-cases (c.hash.saved sp && c.hash.read_flags sp)) [
      | inl e ↦
          rw e (request_from-Resolves ms n (admit c sp m) (sp + 1) (admit-Resolves n c sp m w))
      | inr e ↦ rw e (
          request_from-Resolves ms n (ask_again c sp (c.hash.buffers sp)) (sp + 1)
            (ask_again-Resolves n c sp (c.hash.buffers sp) w))
    ]

inserted-InRange :
    (n key k sp addr : ℕ) (d : List (ℕ × (Bool × ℕ × ℕ)))
    → sp < n
    → BankEntryInRange n (lookup k d)
    → BankEntryInRange n (lookup k (insert key (true, addr, sp) d))
inserted-InRange n key k sp addr d h old = elim (Bool-cases (key == k)) [
  | inl e ↦ rw (lookup-insert key k (true, addr, sp) d, e) h
  | inr e ↦ rw (lookup-insert key k (true, addr, sp) d, e) old
]

save-Resolves :
    (n : ℕ) (c : Call) (bank sp : ℕ) (m : Option Metadata)
    → sp < n
    → Resolves n c
    → Resolves n (save c bank sp m)
unfolding save
save-Resolves n c bank sp none h w = w
save-Resolves n c bank sp (some m) h w = record {
  hash = record {
    ports = w.hash.ports;
    some_port = w.hash.some_port;
    entries = λ b k. elim (Bool-cases (bank == b)) [
      | inl e ↦ rw e (
          inserted-InRange n (get_hash_key c.hash m.src_addr) k sp m.src_addr
            (c.hash.fwd_table bank) h (w.hash.entries bank k))
      | inr e ↦ rw e (w.hash.entries b k)
    ];
    save_at = w.hash.save_at;
    read_at = w.hash.read_at;
  };
  results = w.results;
}

port_of_hit-IsPort :
    (n : ℕ) (e : Option (Bool × ℕ × ℕ)) (current : ℤ) (dst : ℕ)
    → 0 < n
    → BankEntryInRange n e
    → IsPort n (port_of_hit n (hit e dst) current dst)
unfolding port_of_hit hit
port_of_hit-IsPort n none current dst h r = default_port-IsPort n current dst h
port_of_hit-IsPort n (some (valid, addr, port)) current dst h r =
    elim (Bool-cases (valid && (addr == dst))) [
      | inl e ↦ rw e r
      | inr e ↦ rw e (default_port-IsPort n current dst h)
    ]

read-Resolves :
    (n : ℕ) (c : Call) (bank sp : ℕ) (m : Option Metadata)
    → Resolves n c
    → Resolves n (read c bank sp m)
unfolding read
read-Resolves n c bank sp none w = w
read-Resolves n c bank sp (some m) w =
    let dst = address m.dst_addr in
    let entry = lookup (get_hash_key c.hash dst) (c.hash.fwd_table bank) in
    let some_port : 0 < c.hash.num_ports = omega (arith, w.hash.ports, w.hash.some_port) in
    let inside : BankEntryInRange c.hash.num_ports entry =
      rw w.hash.ports (w.hash.entries bank (get_hash_key c.hash dst)) in
    let port = port_of_hit-IsPort c.hash.num_ports entry m.dst_port dst some_port inside in
    record {
      hash = record {
        ports = w.hash.ports;
        some_port = w.hash.some_port;
        entries = w.hash.entries;
        save_at = w.hash.save_at;
        read_at = w.hash.read_at;
      };
      results =
          updated-IsResolved n sp
            (record m {
              dst_port = port_of_hit c.hash.num_ports (hit entry dst) m.dst_port dst;
              broadcast = false;
            })
            c.results w.results
            (inr (
              refl,
              subst (λ k. IsPort k (port_of_hit c.hash.num_ports (hit entry dst) m.dst_port dst))
                  w.hash.ports port,
            ));
    }

-- The two requests of a bank, from the pointers of the state `r` that arbitrates.
serve_bank-Resolves :
    (n : ℕ) (r c : Call) (bank : ℕ) → Resolves n r → Resolves n c → Resolves n (serve_bank r c bank)
unfolding serve_bank
serve_bank-Resolves n r c bank v w =
    let k = r.hash.num_ports in
    let g = arbitrate (λ sp. r.req_save sp bank) k (r.hash.save_ptr bank) k in
    let at : r.hash.save_ptr bank < k = omega (arith, v.hash.ports, v.hash.save_at bank) in
    let sp : or_zero g.0 < n = omega (
      arith,
      v.hash.ports,
      (arbitrate-InRange (λ sp. r.req_save sp bank) k (r.hash.save_ptr bank) k at).1,
    ) in
    read-Resolves n (save c bank (or_zero g.0) (granted c.hash g.0 0)) bank _ _
      (save-Resolves n c bank (or_zero g.0) (granted c.hash g.0 0) sp w)

pub serve_banks-Resolves :
    (banks : List ℕ) (n : ℕ) (r c : Call)
    → Resolves n r
    → Resolves n c
    → Resolves n (serve_banks r c banks)
unfolding serve_banks
serve_banks-Resolves [] n r c v w = w
serve_banks-Resolves (bank ∷ banks) n r c v w =
    serve_banks-Resolves banks n r (serve_bank r c bank) v (serve_bank-Resolves n r c bank v w)

pub move_pointers-Resolves : (n : ℕ) (c : Call) → Resolves n c → Resolves n (move_pointers c)
unfolding move_pointers
move_pointers-Resolves n c w =
    let k = c.hash.num_ports in
    record {
      hash = record {
        ports = w.hash.ports;
        some_port = w.hash.some_port;
        entries = w.hash.entries;
        save_at = λ bank.
            let at : c.hash.save_ptr bank < k = omega (arith, w.hash.ports, w.hash.save_at bank) in
            omega (
              arith,
              w.hash.ports,
              (arbitrate-InRange (λ sp. c.req_save sp bank) k (c.hash.save_ptr bank) k at).0,
            );
        read_at = λ bank.
            let at : c.hash.read_ptr bank < k = omega (arith, w.hash.ports, w.hash.read_at bank) in
            omega (
              arith,
              w.hash.ports,
              (arbitrate-InRange (λ sp. c.req_read sp bank) k (c.hash.read_ptr bank) k at).0,
            );
      };
      results = w.results;
    }
