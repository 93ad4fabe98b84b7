-- ===== src/Switch/OutputStage.antt =====
-- switch_core.py: `_process_output_stage`.
pub mod Delivered
use spac.Base.{
  ℕ, zero, suc, ◌+◌, ◌-◌, ◌*◌, Bool, true, false, ◌||◌, List, [], ◌∷◌, ◌++◌, Option, none, some,
  ◌==◌, if◌then◌else◌, update, ℤ, sub_ℕ, ◌+ℤ◌,
}
use spac.Packet.{Packet}
use spac.Voq.Entry.{VoqEntry, packet_size}
use spac.Config.Latency.{calculate_transfer_cycles, can_achieve_line_rate}
use spac.Pipeline.Stage.{ModulePipelineState}
use spac.Switch.{OutputState, Activity, idle, transmitting, note, begin}

-- A packet that has left by a port, with its latency.
pub record Transmitted : Type 0 where
  pub port_id : ℕ
  pub packet : Packet
  pub latency : ℤ

-- The attributes that count what has left.
pub record Sent : Type 0 where
  pub total_latency : ℤ
  pub latency_per_port : ℕ → ℤ
  pub packets_transmitted : ℕ
  pub tx_per_port : ℕ → ℕ
  pub total_bits_transferred : ℕ
  pub last_packet_transmit_time : Option ℕ
  pub line_rate_achieved_cycles : ℕ
  pub line_rate_missed_cycles : ℕ

-- What the stage changes.
pub record OutputSide : Type 0 where
  pub output_states : ℕ → OutputState
  pub sent : Sent
  pub transmitted : List Transmitted
  pub active : Bool

-- `Packet(…)`; its bus width is the default of the class.
unfoldable pub packet_of : VoqEntry → ℕ → Packet
packet_of e time = record {
  metadata = e.metadata;
  payload = e.data_words;
  trace_id = e.trace_id;
  arrival_time = e.switch_arrival_time;
  creation_time = time;
  axis_data_width = 512;
}

-- The counters after an entry has left by a port; `ii` is the scheduler's.
unfoldable pub count_sent : ℕ → ℕ → ℕ → ℕ → VoqEntry → Sent → Sent
unfolding calculate_transfer_cycles can_achieve_line_rate
count_sent bus ii time port e s =
    let cycles = calculate_transfer_cycles (packet_size e) bus in
    let latency = sub_ℕ time e.switch_arrival_time in
    let on_time = can_achieve_line_rate cycles ii in
    record s {
      total_latency = s.total_latency +ℤ latency;
      latency_per_port = update s.latency_per_port port (s.latency_per_port port +ℤ latency);
      packets_transmitted = s.packets_transmitted + 1;
      tx_per_port = update s.tx_per_port port (s.tx_per_port port + 1);
      total_bits_transferred = s.total_bits_transferred + packet_size e * 8;
      last_packet_transmit_time = some time;
      line_rate_achieved_cycles =
          if on_time then s.line_rate_achieved_cycles + cycles else s.line_rate_achieved_cycles;
      line_rate_missed_cycles =
          if on_time then s.line_rate_missed_cycles else s.line_rate_missed_cycles + cycles;
    }

-- The end of a transfer.
unfoldable pub send_entry : ℕ → ℕ → ℕ → ℕ → OutputSide → Option VoqEntry → OutputSide
unfolding packet_of count_sent
send_entry bus ii time port s none = s
send_entry bus ii time port s (some e) = record s {
  sent = count_sent bus ii time port e s.sent;
  transmitted =
      s.transmitted
      ++ record {
        port_id = port;
        packet = packet_of e time;
        latency = sub_ℕ time e.switch_arrival_time;
      }
        ∷ [];
}

-- The loop's body. A port with a transfer has cycles left, so `-` does not stop at 0.
unfoldable pub output_port : ℕ → ℕ → ℕ → ℕ → OutputSide → OutputSide
unfolding send_entry note begin
output_port bus ii time port s =
    let m = begin (s.output_states port) in
    if m.input_busy
    then (let left = m.input_transfer_remaining - 1 in
        let m' = note transmitting (record m { input_transfer_remaining = left }) in
        if left == 0
        then send_entry bus ii time port
            (record s {
              output_states =
                  update s.output_states port (record m' { input_busy = false; input_data = none });
              active = true;
            })
            m.input_data
        else record s { output_states = update s.output_states port m'; active = true })
    else record s { output_states = update s.output_states port (note idle m) }

-- `_process_output_stage`, over the ports that are left
unfoldable pub output_ports : ℕ → ℕ → ℕ → List ℕ → OutputSide → OutputSide
unfolding output_port
output_ports bus ii time [] s = s
output_ports bus ii time (p ∷ ports) s =
    output_ports bus ii time ports (output_port bus ii time p s)
