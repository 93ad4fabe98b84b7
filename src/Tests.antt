-- ===== src/Tests.antt =====
-- Data for the tests: a switch with two ports and 64-byte words, and packets for it.
mod Voq
mod Scheduler
mod Words
mod Hash
mod Pipeline
mod Switch
mod Network
mod Dse
use spac.Base.{ℕ, zero, suc, Bool, true, false, List, [], ◌∷◌, Option, none, some, ℤ, pos}
use spac.Config.{SwitchConfig, BufferType, full_lookup_table, one_buffer_per_port, islip}
use spac.Packet.{Metadata, AxisWord}
use spac.Voq.Entry.{VoqEntry, Arrival, new_entry}
use spac.Voq.Shared.{SharedBuffer}

-- Queues of at most 128 bytes, two words.
abbrev pub config_for : BufferType → SwitchConfig
config_for t = record {
  num_ports = 2;
  addr_length = 4;
  hash_bits = 8;
  axis_data_width = 512;
  hash_module_type = full_lookup_table;
  buffer_type = t;
  scheduler_type = islip;
  max_queue_depth_log = 4;
  global_voq_size = pos 128;
  voq_sizes = none;
}

abbrev pub to_port : ℕ → Metadata
to_port p = record {
  src_addr = 3;
  dst_addr = pos 5;
  dst_port = pos p;
  pkt_len = 64;
  broadcast = false;
  valid = true;
}

abbrev pub one_word : List AxisWord
one_word = record { payload = 7; last = true } ∷ []

-- A packet of one word that comes in by a port, for a port.
abbrev pub arrival : ℕ → ℕ → Arrival
arrival input output = record {
  input_port = input;
  metadata = to_port output;
  data_words = one_word;
  current_time = 10;
  trace_id = some 1;
  switch_arrival_time = none;
  accumulated_latency_cycles = 0;
  current_cycle = 4;
}

abbrev pub waiting : ℕ → ℕ → VoqEntry
waiting input output = new_entry 64 (arrival input output)

-- For output port 1 a packet waits at input port 0, and two at input port 1.
abbrev pub queues : ℕ → ℕ → List VoqEntry
queues zero (suc zero) = waiting 0 1 ∷ []
queues (suc zero) (suc zero) = waiting 1 1 ∷ waiting 1 1 ∷ []
queues s d = []

abbrev pub loaded : SharedBuffer
loaded = record {
  num_ports = 2;
  word_size_bytes = 64;
  port_limits_bytes = λ p. pos 256;
  port_used_bytes = λ p. 0;
  port_peak_bytes = λ p. 0;
  voq = queues;
  total_enqueued = 3;
  total_dequeued = 0;
  total_dropped = 0;
  total_dropped_overflow = 0;
  current_occupancy = 3;
  peak_occupancy = 3;
  peak_memory_used = 192;
}
