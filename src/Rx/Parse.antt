-- ===== src/Rx/Parse.antt =====
-- rx_engine.py and packet.py: the header that the engine reads is the one that the packet was made
-- with.
use spac.Base.{
  ℕ, zero, suc, ◌+◌, ◌*◌, ◌/◌, ◌%◌, ◌^◌, ◌<◌, ◌≡◌, refl, ◌∙◌, true, List, ◌∷◌, some, ℤ, pos, negsuc,
  if◌then◌else◌, ◌==◌, arith, inl, inr, Option-cases,
}
use spac.Packet.{
  Metadata, AxisWord, Packet, is_broadcast, clamp_zero, word_data, payload_from, num_words,
  from_trace_entry,
}
use spac.Packet.Header.{word_data-fields}
use spac.Rx.{broadcast_of, dst_of, src_of, trace_id_of, header_metadata}

-- What the engine can know of a trace entry: 4 bits of each address, and whether it is a broadcast.
abbrev pub entry_metadata : ℕ → ℤ → Metadata
entry_metadata src dst = record {
  src_addr = src % 2 ^ 4;
  dst_addr = if is_broadcast dst then negsuc 0 else pos (clamp_zero dst % 2 ^ 4);
  dst_port = negsuc 0;
  pkt_len = 64;
  broadcast = is_broadcast dst;
  valid = true;
}

field_bits :
    (b t s d i x : ℕ)
    → b < 2
    → t < 2 ^ 15
    → s < 2 ^ 4
    → d < 2 ^ 4
    → i < 2 ^ 8
    → x ≡ (((b * 2 ^ 15 + t) * 2 ^ 4 + s) * 2 ^ 4 + d) * 2 ^ 8 + i
    → (x / 2 ^ 31 % 2 ≡ b)
      × (x / 2 ^ 16 % 2 ^ 15 ≡ t)
      × (x / 2 ^ 12 % 2 ^ 4 ≡ s)
      × (x / 2 ^ 8 % 2 ^ 4 ≡ d)
field_bits b t s d i x hb ht hs hd hi e = omega arith

-- The engine reads from each word the fields of the trace entry.
pub header-word_data :
    (dst : ℤ) (trace_id src i : ℕ)
    → (header_metadata (word_data dst trace_id src i) ≡ entry_metadata src dst)
      × (trace_id_of (word_data dst trace_id src i) ≡ trace_id % 2 ^ 15)
unfolding header_metadata trace_id_of
header-word_data dst trace_id src i =
    let x = word_data dst trace_id src i in
    let bits =
      field_bits (if is_broadcast dst then 1 else 0) (trace_id % 2 ^ 15) (src % 2 ^ 4)
        (clamp_zero dst % 2 ^ 4) (i % 2 ^ 8) x (ground arith) (omega arith) (omega arith)
        (omega arith) (omega arith) (word_data-fields dst trace_id src i) in
    let flag : broadcast_of x ≡ is_broadcast dst = unfold broadcast_of in ground arith in
    (unfold src_of dst_of in rw (flag, bits.2, bits.3), bits.1)

num_words-pos : (total width : ℕ) {n : ℕ} → num_words total width ≡ some n → (k : ℕ) × (n ≡ suc k)
unfolding num_words
num_words-pos total width {n} h = suc_of n (ground arith)
  where
    suc_of : (n : ℕ) → 0 < n → (k : ℕ) × (n ≡ suc k)
    suc_of zero h = absurd (omega arith)
    suc_of (suc k) h = (k, refl)

payload_from-suc :
    (word : ℕ → ℕ) (k : ℕ)
    → payload_from word 0 (suc k)
      ≡ record { payload = word 0; last = k == 0 } ∷ payload_from word (0 + 1) k
unfolding payload_from
payload_from-suc word k = refl

payload-from_trace_entry :
    (time src : ℕ) (dst : ℤ) (header body trace_id width : ℕ) {p : Packet}
    → from_trace_entry time src dst header body trace_id width ≡ some p
    → (k : ℕ) × (p.payload ≡ payload_from (word_data dst trace_id src) 0 (suc k))
payload-from_trace_entry time src dst header body trace_id width {p} h =
    elim (Option-cases (num_words (header + body) width)) [
      | inl e ↦ absurd (unfold from_trace_entry in ground arith)
      | inr (n, e) ↦
          let (k, same) = num_words-pos (header + body) width {n = n} e in
          (k, unfold from_trace_entry in ground arith)
    ]

-- The first word of a packet that `from_trace_entry` makes is read back as the entry's header: the
-- low 4 bits of the addresses, the broadcast flag, and the low 15 bits of the trace id.
pub header-from_trace_entry :
    (time src : ℕ) (dst : ℤ) (header body trace_id width : ℕ) {p : Packet}
    → from_trace_entry time src dst header body trace_id width ≡ some p
    → (w : AxisWord) × (ws : List AxisWord) × (p.payload ≡ w ∷ ws)
      × (header_metadata w.payload ≡ entry_metadata src dst)
      × (trace_id_of w.payload ≡ trace_id % 2 ^ 15)
header-from_trace_entry time src dst header body trace_id width {p} h =
    let word = word_data dst trace_id src in
    let (k, made) = payload-from_trace_entry time src dst header body trace_id width h in
    (
      record { payload = word 0; last = k == 0 },
      payload_from word (0 + 1) k,
      made ∙ payload_from-suc word k,
      (header-word_data dst trace_id src 0).0,
      (header-word_data dst trace_id src 0).1,
    )
