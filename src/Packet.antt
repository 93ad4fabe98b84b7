-- ===== src/Packet.antt =====
-- simulator/src/packet.py: packets, their metadata and their AXI-Stream words. Times are whole
-- numbers of some unit that divides the nanosecond figures of the simulation.
pub mod Header
use spac.Base.{
  ℕ, zero, suc, ◌+◌, ◌*◌, ◌/◌, ◌-◌, ◌%◌, ◌^◌, max, Bool, true, false, List, [], ◌∷◌, Option, none,
  some, ℤ, pos, negsuc, ◌==◌, if◌then◌else◌, length, ◌>>=◌,
}
use spac.Config.Latency.{ceil_div}
use Prim.Native.Nat.{bit_or}

-- `Metadata`, once `__post_init__` has passed. The address -1 is `negsuc 0`.
pub record Metadata : Type 0 where
  pub src_addr : ℕ
  pub dst_addr : ℤ
  pub dst_port : ℤ
  pub pkt_len : ℕ
  pub broadcast : Bool
  pub valid : Bool

-- A number that must not be negative; `none` is ValueError.
non_negative : ℤ → Option ℕ
non_negative (pos n) = some n
non_negative (negsuc n) = none

-- The second check of `__post_init__`, and the broadcast flag that it sets.
check_destination : ℤ → Bool → Option Bool
check_destination (pos n) broadcast = some broadcast
check_destination (negsuc zero) broadcast = some true
check_destination (negsuc (suc n)) broadcast = none

-- `Metadata(…)` with `__post_init__`
unfoldable pub make_metadata : ℤ → ℤ → ℤ → ℤ → Bool → Bool → Option Metadata
unfolding non_negative check_destination
make_metadata src_addr dst_addr dst_port pkt_len broadcast valid = do
  src ← non_negative src_addr
  flag ← check_destination dst_addr broadcast
  len ← non_negative pkt_len
  some (record {
    src_addr = src;
    dst_addr = dst_addr;
    dst_port = dst_port;
    pkt_len = len;
    broadcast = flag;
    valid = valid;
  })

-- `AxisWord`; its `trace_id` is set nowhere and is left out.
pub record AxisWord : Type 0 where
  pub payload : ℕ
  pub last : Bool

pub record Packet : Type 0 where
  pub metadata : Metadata
  pub payload : List AxisWord
  pub trace_id : Option ℕ
  pub arrival_time : ℕ
  pub creation_time : ℕ
  pub axis_data_width : ℕ

-- `total_bytes`
unfoldable pub total_bytes : Packet → ℕ
total_bytes p = length p.payload * (p.axis_data_width / 8)

-- `header_size`
unfoldable pub header_size : Packet → ℕ
header_size p = if length p.payload == 0 then 0 else 64

-- `body_size`; the subtraction stops at 0, as `max(0, …)` makes it.
unfoldable pub body_size : Packet → ℕ
body_size p = total_bytes p - header_size p

-- is_broadcast = (dst_addr == -1)
unfoldable pub is_broadcast : ℤ → Bool
is_broadcast (negsuc zero) = true
is_broadcast (negsuc (suc n)) = false
is_broadcast (pos n) = false

-- max(0, dst_addr)
unfoldable pub clamp_zero : ℤ → ℕ
clamp_zero (pos n) = n
clamp_zero (negsuc n) = 0

-- The word `i` of `from_trace_entry`: broadcast bit at 31, trace id at 16, source at 12,
-- destination at 8 and the word's number at 0. A mask of k ones is `% 2 ^ k`.
unfoldable pub word_data : ℤ → ℕ → ℕ → ℕ → ℕ
unfolding is_broadcast clamp_zero
word_data dst_addr trace_id src_addr i =
    bit_or
      (bit_or
        (bit_or
          (bit_or ((if is_broadcast dst_addr then 1 else 0) * 2 ^ 31) (trace_id % 2 ^ 15 * 2 ^ 16))
          (src_addr % 2 ^ 4 * 2 ^ 12))
        (clamp_zero dst_addr % 2 ^ 4 * 2 ^ 8))
      (i % 2 ^ 8)

-- The loop of `from_trace_entry`, from word `i` on with `rounds` words left. The last is marked.
unfoldable pub payload_from : (ℕ → ℕ) → ℕ → ℕ → List AxisWord
payload_from word i zero = []
payload_from word i (suc rounds) =
    record { payload = word i; last = rounds == 0 } ∷ payload_from word (i + 1) rounds

-- num_words = max(1, ceil(total_bytes / word_size_bytes)); a bus below 8 bits is a ZeroDivisionError.
unfoldable pub num_words : ℕ → ℕ → Option ℕ
num_words total axis_data_width =
    let word_size_bytes = axis_data_width / 8 in
    if word_size_bytes == 0 then none else some (max 1 (ceil_div total word_size_bytes))

-- `from_trace_entry`. The trace's source address and sizes are given as numbers that are not
-- negative; the destination's check is made by `Metadata`.
unfoldable pub from_trace_entry : ℕ → ℕ → ℤ → ℕ → ℕ → ℕ → ℕ → Option Packet
unfolding word_data payload_from num_words make_metadata
from_trace_entry time src_addr dst_addr header body trace_id axis_data_width = do
  let total = header + body
  words ← num_words total axis_data_width
  let broadcast = is_broadcast dst_addr
  metadata ←
      make_metadata (pos src_addr) dst_addr (if broadcast then negsuc 0 else dst_addr) (pos total)
        broadcast true
  some (record {
    metadata = metadata;
    payload = payload_from (word_data dst_addr trace_id src_addr) 0 words;
    trace_id = some trace_id;
    arrival_time = time;
    creation_time = time;
    axis_data_width = axis_data_width;
  })

-- `TraceEntry`
pub record TraceEntry : Type 0 where
  pub time : ℕ
  pub src_addr : ℕ
  pub dst_addr : ℤ
  pub header_size : ℕ
  pub body_size : ℕ
  pub trace_id : ℕ
