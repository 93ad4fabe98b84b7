-- ===== src/Switch/RxStage.antt =====
-- switch_core.py: `_process_rx_stage`.
pub mod Steps
pub mod Whole
pub mod Merge
use spac.Base.{
  ℕ, ◌+◌, ◌-◌, Bool, true, false, ◌&&◌, ◌||◌, List, [], ◌∷◌, ◌++◌, Option, none, some, ltb, ◌==◌,
  if◌then◌else◌, update,
}
use spac.Packet.{Metadata, AxisWord}
use spac.Pipeline.Stage.{ModulePipelineState}
use spac.Rx.{RxEngine, process_cycle, get_output_data, get_output_metadata, has_pending_work}
use spac.Switch.{
  Item, Parsing, RxState, Activity, idle, receiving, processing, transmitting, waiting_output, note,
  begin, transfer_of,
}

-- What the loop's body does at a port: the stage and the engine afterwards, what it hands to the
-- lookup, and whether the port was active.
pub record PortStep : Type 0 where
  pub state : RxState
  pub engine : RxEngine
  pub sent : Option Item
  pub active : Bool

-- data_out[-1].last
unfoldable pub last_of : List AxisWord → Bool
last_of [] = false
last_of (w ∷ []) = w.last
last_of (w ∷ x ∷ ws) = last_of (x ∷ ws)

-- proc_data[2].extend(data_out), and proc_data[5] = True after a last word. A port that processes
-- has such data.
unfoldable pub extend : Option Parsing → List AxisWord → Option Parsing
unfolding last_of
extend none words = none
extend (some p) words = some (record p {
  data_words = p.data_words ++ words;
  packet_complete = p.packet_complete || last_of words;
})

-- The tuple that goes to the output.
unfoldable pub item_of : Parsing → Item
item_of p = record {
  port_id = p.port_id;
  metadata = p.metadata;
  data_words = p.data_words;
  trace_id = p.trace_id;
  switch_arrival_time = p.switch_arrival_time;
  ii_wait_cycles = 0;
}

-- The end of both branches that process: the packet is done once its latency is over and it is
-- complete.
unfoldable pub finish : RxState → Option Parsing → RxState
unfolding item_of
finish m none = m
finish m (some p) =
    if m.processing_remaining == 0 && p.packet_complete
    then record m {
      processing = false;
      output_ready = true;
      output_pending = some (item_of p);
      processing_data = none;
    }
    else m

-- The branch of a port that processes.
unfoldable pub go_on : RxState → RxEngine → PortStep
unfolding extend finish has_pending_work get_output_data note
go_on m e =
    let has_input = has_pending_work e in
    let (words, e') = get_output_data (process_cycle e).0 in
    let parsed = if has_input then extend m.processing_data words else m.processing_data in
    let m' = record (note processing m) {
      processing_data = parsed;
      processing_remaining = m.processing_remaining - 1;
    } in
    record {
      state = finish m' parsed;
      engine = if has_input then e' else e;
      sent = none;
      active = true;
    }

-- The branch of a port that takes the first word of a packet, with what the engine gave out.
unfoldable pub take_header : ℕ → RxState → RxEngine → List AxisWord → List Metadata → RxState
unfolding last_of finish note
take_header port m e [] metas = note receiving m
take_header port m e (w ∷ words) [] = note receiving m
take_header port m e (w ∷ words) (meta ∷ metas) =
    let p : Parsing = record {
      port_id = port;
      metadata = meta;
      data_words = w ∷ words;
      trace_id = e.current_trace_id;
      switch_arrival_time = e.current_arrival_time;
      packet_complete = last_of (w ∷ words);
    } in
    finish
      (record (note processing m) {
        processing = true;
        processing_remaining = m.latency - 1;
        processing_data = some p;
      })
      (some p)

-- The branches below those of the output.
unfoldable pub work : ℕ → RxState → RxEngine → PortStep
unfolding go_on take_header has_pending_work get_output_data get_output_metadata note
work port m e =
    if m.output_busy
    then record { state = note transmitting m; engine = e; sent = none; active = true }
    else if m.processing
    then go_on m e
    else if has_pending_work e
    then (let (words, e') = get_output_data (process_cycle e).0 in
        let (metas, e'') = get_output_metadata e' in
        record {
          state = take_header port m e'' words metas;
          engine = e'';
          sent = none;
          active = true;
        })
    else record { state = note idle m; engine = e; sent = none; active = false }

-- The branch of a port with an output for a lookup that accepts it.
unfoldable pub hand_over : ℕ → ℕ → RxState → RxEngine → Option Item → PortStep
unfolding work note transfer_of
hand_over bus port m e none = work port m e
hand_over bus port m e (some item) = record {
  state = note transmitting (record m {
    output_ready = false;
    output_pending = none;
    output_busy = true;
    output_transfer_remaining = transfer_of bus item;
  });
  engine = e;
  sent = some item;
  active = true;
}

-- The loop's body, for a port and whether the lookup accepts an input.
unfoldable pub rx_port : ℕ → Bool → ℕ → RxState → RxEngine → PortStep
unfolding hand_over work note begin
rx_port bus accepts port state e =
    let m = begin state in
    if m.output_ready
    then (if accepts
        then hand_over bus port m e m.output_pending
        else record { state = note waiting_output m; engine = e; sent = none; active = true })
    else work port m e

-- What the loop changes.
pub record RxSide : Type 0 where
  pub rx_states : ℕ → RxState
  pub rx_engines : ℕ → RxEngine
  pub rx_to_hash_queue : List Item
  pub active : Bool

unfoldable pub push : List Item → Option Item → List Item
push items none = items
push items (some item) = items ++ item ∷ []

-- The loop, over the ports that are left. The lookup's state does not change in it.
unfoldable pub rx_ports : ℕ → Bool → List ℕ → RxSide → RxSide
unfolding rx_port push
rx_ports bus accepts [] s = s
rx_ports bus accepts (p ∷ ports) s =
    let r = rx_port bus accepts p (s.rx_states p) (s.rx_engines p) in
    rx_ports bus accepts ports (record {
      rx_states = update s.rx_states p r.state;
      rx_engines = update s.rx_engines p r.engine;
      rx_to_hash_queue = push s.rx_to_hash_queue r.sent;
      active = s.active || r.active;
    })
