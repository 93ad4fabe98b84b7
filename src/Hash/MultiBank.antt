-- ===== src/Hash/MultiBank.antt =====
-- hash_engine.py: `MultiBankHash`. Its lists are functions of a port or of a bank; there are as many
-- banks as ports.
pub mod Loops
pub mod Range
use spac.Base.{
  ℕ, zero, suc, ◌+◌, ◌-◌, ◌%◌, ◌^◌, Bool, true, false, List, [], ◌∷◌, Option, none, some, ℤ, pos,
  negsuc, ◌==◌, ◌&&◌, if◌then◌else◌, update, update2, range, map, length, sum_range,
}
use spac.Config.{multi_bank_hash}
use spac.Config.Latency.{estimate_hash_ii}
use spac.Packet.{Metadata}
use spac.Hash.{lookup, insert, any_metadata, no_results, default_port, goes_everywhere, address}

pub record MultiBankHash : Type 0 where
  pub num_ports : ℕ
  pub hash_bits : ℕ
  pub fwd_table : ℕ → List (ℕ × (Bool × ℕ × ℕ))
  pub save_ptr : ℕ → ℕ
  pub read_ptr : ℕ → ℕ
  pub saved : ℕ → Bool
  pub read_flags : ℕ → Bool
  pub buffers : ℕ → Option Metadata
  pub processing_cycles : ℕ

-- `__init__`, and `reset` for a hash with so many ports and bits
unfoldable pub init : ℕ → ℕ → MultiBankHash
init n bits = record {
  num_ports = n;
  hash_bits = bits;
  fwd_table = λ bank. [];
  save_ptr = λ bank. 0;
  read_ptr = λ bank. 0;
  saved = λ sp. true;
  read_flags = λ sp. true;
  buffers = λ sp. none;
  processing_cycles = 0;
}

-- `_get_bank` and `_get_hash_key`
unfoldable pub get_bank : MultiBankHash → ℕ → ℕ
get_bank h addr = addr % h.num_ports

unfoldable pub get_hash_key : MultiBankHash → ℕ → ℕ
get_hash_key h addr = addr % 2 ^ h.hash_bits

-- What a call of `process_metadata` works on.
pub record Call : Type 0 where
  pub hash : MultiBankHash
  pub results : ℕ → Option Metadata
  pub req_save : ℕ → ℕ → Bool
  pub req_read : ℕ → ℕ → Bool
  pub save_done : ℕ → Bool
  pub read_done : ℕ → Bool

unfoldable pub start : MultiBankHash → Call
start h = record {
  hash = h;
  results = λ sp. none;
  req_save = λ sp bank. false;
  req_read = λ sp bank. false;
  save_done = λ sp. false;
  read_done = λ sp. false;
}

-- The first loop at a port that is idle: a broadcast is answered, other metadata is put in the
-- port's buffer and asks for the banks of its addresses.
unfoldable pub admit : Call → ℕ → Option Metadata → Call
unfolding goes_everywhere get_bank address
admit c sp none = c
admit c sp (some m) =
    let h = c.hash in
    if goes_everywhere m
    then record c {
      results = update c.results sp (some (record m { broadcast = true; dst_port = negsuc 0 }));
    }
    else record c {
      hash = record h {
        buffers = update h.buffers sp (some m);
        saved = update h.saved sp false;
        read_flags = update h.read_flags sp false;
      };
      req_save = update2 c.req_save sp (get_bank h m.src_addr) true;
      req_read = update2 c.req_read sp (get_bank h (address m.dst_addr)) true;
    }

-- The first loop at a port whose buffered metadata still waits.
unfoldable pub ask_again : Call → ℕ → Option Metadata → Call
unfolding get_bank address
ask_again c sp none = c
ask_again c sp (some m) =
    let h = c.hash in
    record c {
      req_save =
          if h.saved sp then c.req_save else update2 c.req_save sp (get_bank h m.src_addr) true;
      req_read =
          if h.read_flags sp
          then c.req_read
          else update2 c.req_read sp (get_bank h (address m.dst_addr)) true;
    }

-- The first loop, from a port on.
unfoldable pub request_from : Call → ℕ → List (Option Metadata) → Call
unfolding admit ask_again
request_from c sp [] = c
request_from c sp (m ∷ ms) =
    let h = c.hash in
    request_from
      (if h.saved sp && h.read_flags sp then admit c sp m else ask_again c sp (h.buffers sp))
      (sp + 1) ms

-- The scan of a bank's requests from its pointer: the port that is granted, if any, and the pointer
-- afterwards.
unfoldable pub arbitrate : (ℕ → Bool) → ℕ → ℕ → ℕ → Option ℕ × ℕ
arbitrate wants n ptr zero = (none, ptr)
arbitrate wants n ptr (suc rounds) =
    let next = arbitrate wants n ((ptr + 1) % n) rounds in
    if wants ptr then (some ptr, ptr) else next

-- The third loop's write to a bank.
unfoldable pub save : Call → ℕ → ℕ → Option Metadata → Call
unfolding get_hash_key insert
save c bank sp none = c
save c bank sp (some m) =
    let h = c.hash in
    record c {
      hash = record h {
        fwd_table =
            update h.fwd_table bank
              (insert (get_hash_key h m.src_addr) (true, m.src_addr, sp) (h.fwd_table bank));
      };
      save_done = update c.save_done sp true;
    }

-- The port of an entry, if it is valid and of this very address.
unfoldable pub hit : Option (Bool × ℕ × ℕ) → ℕ → Option ℕ
hit none dst = none
hit (some (valid, addr, port)) dst = if valid && (addr == dst) then some port else none

unfoldable pub port_of_hit : ℕ → Option ℕ → ℤ → ℕ → ℤ
unfolding default_port
port_of_hit n (some port) current dst = pos port
port_of_hit n none current dst = default_port n current dst

-- The third loop's read of a bank. The metadata in the buffer and in the results is one object.
unfoldable pub read : Call → ℕ → ℕ → Option Metadata → Call
unfolding get_hash_key lookup hit port_of_hit address
read c bank sp none = c
read c bank sp (some m) =
    let h = c.hash in
    let dst = address m.dst_addr in
    let found = hit (lookup (get_hash_key h dst) (h.fwd_table bank)) dst in
    let m' : Metadata = record m {
      dst_port = port_of_hit h.num_ports found m.dst_port dst;
      broadcast = false;
    } in
    record c {
      hash = record h { buffers = update h.buffers sp (some m') };
      results = update c.results sp (some m');
      read_done = update c.read_done sp true;
    }

-- The buffered metadata of the port that a bank is granted to.
unfoldable pub granted : MultiBankHash → Option ℕ → ℕ → Option Metadata
granted h none sp = none
granted h (some p) sp = h.buffers p

unfoldable pub or_zero : Option ℕ → ℕ
or_zero none = 0
or_zero (some p) = p

-- A bank's save and read. All banks arbitrate before the first is served, on the requests `r`.
unfoldable pub serve_bank : Call → Call → ℕ → Call
unfolding arbitrate save read granted or_zero
serve_bank r c bank =
    let n = r.hash.num_ports in
    let gs = (arbitrate (λ sp. r.req_save sp bank) n (r.hash.save_ptr bank) n).0 in
    let gr = (arbitrate (λ sp. r.req_read sp bank) n (r.hash.read_ptr bank) n).0 in
    let c' = save c bank (or_zero gs) (granted c.hash gs 0) in
    read c' bank (or_zero gr) (granted c'.hash gr 0)

unfoldable pub serve_banks : Call → Call → List ℕ → Call
unfolding serve_bank
serve_banks r c [] = c
serve_banks r c (bank ∷ banks) = serve_banks r (serve_bank r c bank) banks

-- The pointers after the arbitration, which at a bank that is no bank stay.
unfoldable pub move_pointers : Call → Call
unfolding arbitrate
move_pointers c =
    let h = c.hash in
    let n = h.num_ports in
    record c {
      hash = record h {
        save_ptr = λ bank. (arbitrate (λ sp. c.req_save sp bank) n (h.save_ptr bank) n).1;
        read_ptr = λ bank. (arbitrate (λ sp. c.req_read sp bank) n (h.read_ptr bank) n).1;
      };
    }

-- The last loop, and the initiation interval.
unfoldable pub finish : Call → MultiBankHash
unfolding estimate_hash_ii
finish c = record c.hash {
  saved = λ sp. if c.save_done sp then true else c.hash.saved sp;
  read_flags = λ sp. if c.read_done sp then true else c.hash.read_flags sp;
  processing_cycles = estimate_hash_ii multi_bank_hash - 1;
}

-- `process_metadata`, by the cycles that are left, for a list with an entry for each port
unfoldable pub process_now :
    MultiBankHash → ℕ → List (Option Metadata) → List (Option Metadata) × MultiBankHash
unfolding start request_from move_pointers serve_banks finish no_results
process_now h (suc k) ms = (no_results ms, record h { processing_cycles = k })
process_now h zero ms =
    let r = request_from (start h) 0 ms in
    let c = serve_banks r (move_pointers r) (range h.num_ports) in
    (map c.results (range (length ms)), finish c)

-- `process_metadata`
unfoldable pub process_metadata :
    MultiBankHash → List (Option Metadata) → List (Option Metadata) × MultiBankHash
unfolding process_now any_metadata no_results
process_metadata h ms =
    if any_metadata ms then process_now h h.processing_cycles ms else (no_results ms, h)

-- `get_table_size`
unfoldable pub get_table_size : MultiBankHash → ℕ
get_table_size h = sum_range h.num_ports (λ bank. length (h.fwd_table bank))
