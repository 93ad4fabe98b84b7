-- ===== src/Rx/Ports.antt =====
-- rx_engine.py: `RxEngineWrapper`, an engine for each port.
use spac.Base.{ℕ, List, [], ◌∷◌, Option, ltb, if◌then◌else◌, update, range}
use spac.Config.{SwitchConfig}
use spac.Packet.{Metadata, AxisWord, Packet}
use spac.Rx.{RxEngine, get_output_data, get_output_metadata}
use spac.Rx as Rx

-- `self.rx_engines`
abbrev pub RxEngines : Type 0
RxEngines = ℕ → RxEngine

-- `__init__` and `reset`
unfoldable pub init : SwitchConfig → RxEngines
init c = λ p. Rx.init c.num_ports

unfoldable pub reset : RxEngines → RxEngines
reset engines = λ p. Rx.reset (engines p)

-- `enqueue_packet`; a port that there is not is only logged.
unfoldable pub enqueue_packet : ℕ → RxEngines → ℕ → Packet → RxEngines
enqueue_packet n engines port p =
    if ltb port n then update engines port (Rx.enqueue_packet (engines port) p) else engines

-- What `process_cycle` collects of a port.
pub record PortOutput : Type 0 where
  pub words : List AxisWord
  pub metas : List Metadata
  pub trace_id : Option ℕ

-- `process_cycle`, over the ports that are left
unfoldable pub process_ports : List ℕ → RxEngines → List PortOutput × RxEngines
unfolding get_output_data get_output_metadata
process_ports [] engines = ([], engines)
process_ports (p ∷ ports) engines =
    let e = (Rx.process_cycle (engines p)).0 in
    let (words, e') = get_output_data e in
    let (metas, e'') = get_output_metadata e' in
    let (outputs, engines') = process_ports ports (update engines p e'') in
    (record { words = words; metas = metas; trace_id = e.current_trace_id } ∷ outputs, engines')

unfoldable pub process_cycle : ℕ → RxEngines → List PortOutput × RxEngines
unfolding process_ports
process_cycle n engines = process_ports (range n) engines
