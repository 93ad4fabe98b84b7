-- ===== src/Packet/Header.antt =====
-- packet.py: what stands in the words of a packet that `from_trace_entry` makes.
use Prim.Native.Nat.{bit_or}
use spac.Base.{ℕ, ◌+◌, ◌*◌, ◌%◌, ◌^◌, ◌<◌, ◌≡◌, refl, ℤ, if◌then◌else◌, arith}
use spac.Base.Bits.{bit_or-above}
use spac.Packet.{is_broadcast, clamp_zero, word_data}

abbrev broadcast_bit : ℤ → ℕ
broadcast_bit d = if is_broadcast d then 1 else 0

broadcast_bit-lt : (d : ℤ) → broadcast_bit d < 2
broadcast_bit-lt d = ground arith

pack :
    (b t s d i : ℕ)
    → t < 2 ^ 15
    → s < 2 ^ 4
    → d < 2 ^ 4
    → i < 2 ^ 8
    → bit_or (bit_or (bit_or (bit_or (b * 2 ^ 31) (t * 2 ^ 16)) (s * 2 ^ 12)) (d * 2 ^ 8)) i
      ≡ (((b * 2 ^ 15 + t) * 2 ^ 4 + s) * 2 ^ 4 + d) * 2 ^ 8 + i
pack b t s d i ht hs hd hi =
    let x0 = b * 2 ^ 31 in
    let x1 = bit_or x0 (t * 2 ^ 16) in
    let x2 = bit_or x1 (s * 2 ^ 12) in
    let x3 = bit_or x2 (d * 2 ^ 8) in
    let e1 : x1 ≡ x0 + t * 2 ^ 16 = bit_or-above 31 x0 b (t * 2 ^ 16) refl (omega arith) in
    let e2 : x2 ≡ x1 + s * 2 ^ 12 =
      bit_or-above 16 x1 (b * 2 ^ 15 + t) (s * 2 ^ 12) (omega arith) (omega arith) in
    let e3 : x3 ≡ x2 + d * 2 ^ 8 =
      bit_or-above 12 x2 ((b * 2 ^ 15 + t) * 2 ^ 4 + s) (d * 2 ^ 8) (omega arith) (omega arith) in
    let e4 : bit_or x3 i ≡ x3 + i =
      bit_or-above 8 x3 (((b * 2 ^ 15 + t) * 2 ^ 4 + s) * 2 ^ 4 + d) i (omega arith)
        (omega arith) in
    omega arith

-- Each word of a packet holds, one above the other, the broadcast bit, 15 bits of the trace id, 4
-- bits of each address and 8 bits of the word's number.
pub word_data-fields :
    (dst : ℤ) (trace_id src i : ℕ)
    → word_data dst trace_id src i
      ≡ ((((if is_broadcast dst then 1 else 0) * 2 ^ 15 + trace_id % 2 ^ 15) * 2 ^ 4 + src % 2 ^ 4)
              * 2 ^ 4
            + clamp_zero dst % 2 ^ 4)
          * 2 ^ 8
        + i % 2 ^ 8
unfolding word_data
word_data-fields dst trace_id src i =
    pack (broadcast_bit dst) (trace_id % 2 ^ 15) (src % 2 ^ 4) (clamp_zero dst % 2 ^ 4) (i % 2 ^ 8)
      (omega arith) (omega arith) (omega arith) (omega arith)
