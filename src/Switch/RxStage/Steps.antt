-- ===== src/Switch/RxStage/Steps.antt =====
-- switch_core.py: what a receive stage and its engine do in one cycle.
use spac.Base.{
  ℕ, zero, suc, ◌-◌, ◌≡◌, refl, ◌∙◌, ap, Bool, true, false, ◌&&◌, ◌||◌, List, [], ◌∷◌, ◌++◌, Option,
  some, ◌==◌, if◌then◌else◌, arith,
}
use spac.Packet.{AxisWord}
use spac.Rx.{
  RxEngine, State, header, consume, process_cycle, header_metadata, trace_id_of, has_pending_work,
  get_output_data, get_output_metadata,
}
use spac.Pipeline.Stage.{count_down}
use spac.Switch.{Item, Parsing, RxState, tick_output, begin, note, processing}
use spac.Switch.RxStage.{last_of, extend, item_of, finish, go_on, work, rx_port}

-- An engine in a state, with words to come, that has given out all it has.
pub record EngineAt (e : RxEngine) (state : State) (queue : List AxisWord) : Type 0 where
  pub at_state : e.current_state ≡ state
  pub ready : e.processing_cycles ≡ 0
  pub input : e.input_queue ≡ queue
  pub words : e.output_data_queue ≡ []
  pub metas : e.output_meta_queue ≡ []

-- The engine after a cycle whose words, or words and metadata, have been fetched.
abbrev pub fetched : RxEngine → RxEngine
fetched e = (get_output_data (process_cycle e).0).1

abbrev pub fetched_both : RxEngine → RxEngine
fetched_both e = (get_output_metadata (fetched e)).1

pub consume_cycle :
    (e : RxEngine) (w : AxisWord) (rest : List AxisWord)
    → EngineAt e consume (w ∷ rest)
    → EngineAt (fetched e) (if w.last then header else consume) rest
      × ((process_cycle e).0.output_data_queue ≡ w ∷ [])
      × (has_pending_work e ≡ true)
unfolding process_cycle get_output_data has_pending_work
consume_cycle e w rest a = ground arith

pub header_cycle :
    (e : RxEngine) (w : AxisWord) (rest : List AxisWord) (t : ℕ) (ts : List ℕ)
    → EngineAt e header (w ∷ rest)
    → e.arrival_time_queue ≡ t ∷ ts
    → EngineAt (fetched_both e) (if w.last then header else consume) rest
      × ((process_cycle e).0.output_data_queue ≡ w ∷ [])
      × ((process_cycle e).0.output_meta_queue ≡ header_metadata w.payload ∷ [])
      × ((process_cycle e).0.current_trace_id ≡ some (trace_id_of w.payload))
      × ((process_cycle e).0.current_arrival_time ≡ t)
      × (has_pending_work e ≡ true)
      × ((process_cycle e).0.arrival_time_queue ≡ ts)
unfolding process_cycle get_output_data get_output_metadata has_pending_work
header_cycle e w rest t ts a q = ground arith

-- So many cycles of a port: the tick, and the body of the stage's loop.
unfoldable pub port_cycles : ℕ → Bool → ℕ → ℕ → RxState → RxEngine → RxState × RxEngine
port_cycles bus accepts port zero m e = (m, e)
port_cycles bus accepts port (suc k) m e =
    let r = rx_port bus accepts port (tick_output m) e in
    port_cycles bus accepts port k r.state r.engine

-- A port that puts a packet together, with cycles left of its latency.
pub record Parses (m : RxState) (p : Parsing) (left : ℕ) : Type 0 where
  pub busy : m.output_busy ≡ false
  pub empty : m.output_ready ≡ false
  pub works : m.processing ≡ true
  pub parsed : m.processing_data ≡ some p
  pub remaining : m.processing_remaining ≡ left

-- A port that is idle.
pub record IsIdle (m : RxState) : Type 0 where
  pub busy : m.output_busy ≡ false
  pub empty : m.output_ready ≡ false
  pub rests : m.processing ≡ false

-- A port that has put a packet together.
pub record HasItem (m : RxState) (i : Item) : Type 0 where
  pub ready : m.output_ready ≡ true
  pub pending : m.output_pending ≡ some i
  pub rests : m.processing ≡ false

pub finish_done :
    (m : RxState) (p : Parsing)
    → m.processing_remaining ≡ 0
    → p.packet_complete ≡ true
    → HasItem (finish m (some p)) (item_of p)
unfolding finish
finish_done m p r c = rw (r, c) (record { ready = refl; pending = refl; rests = refl })

pub finish_waits :
    (m : RxState) (p : Parsing)
    → (m.processing_remaining == 0 && p.packet_complete) ≡ false
    → finish m (some p) ≡ m
unfolding finish
finish_waits m p c = ground arith

-- The branch of a body, by the tests it makes.
working :
    (port : ℕ) (m : RxState) (e : RxEngine)
    → m.output_busy ≡ false
    → m.processing ≡ true
    → work port m e ≡ go_on m e
unfolding work
working port m e b p = ground arith

-- The body of the loop at a port that puts a packet together is the branch `go_on`.
pub parsing_step :
    (bus port left : ℕ) (accepts : Bool) (m : RxState) (e : RxEngine) (p : Parsing)
    → Parses m p left
    → rx_port bus accepts port (tick_output m) e ≡ go_on (begin (tick_output m)) e
unfolding rx_port tick_output begin count_down
parsing_step bus port left accepts m e p s = ground (arith, working port (begin (tick_output m)) e)

-- The words of a packet that is put together.
abbrev pub with_words : Parsing → List AxisWord → Bool → Parsing
with_words p words complete = record p { data_words = words; packet_complete = complete }

extend_one :
    (o : Option Parsing) (p : Parsing) (w : AxisWord) (words : List AxisWord) (complete : Bool)
    → o ≡ some p
    → words ≡ w ∷ []
    → p.packet_complete ≡ complete
    → extend o words ≡ some (with_words p (p.data_words ++ w ∷ []) (complete || w.last))
unfolding extend last_of
extend_one o p w words complete q r c =
    rw (q, r) (ap (λ b. some (with_words p (p.data_words ++ w ∷ []) (b || w.last))) c)

-- The stage with one cycle less to go, and other data.
abbrev pub moved : RxState → Option Parsing → RxState
moved m d = record m { processing_data = d; processing_remaining = m.processing_remaining - 1 }

-- What `go_on` does when the engine has a word.
pub go_on_word :
    (m : RxState) (e : RxEngine) (p : Parsing) (w : AxisWord) (complete : Bool)
    → m.processing_data ≡ some p
    → p.packet_complete ≡ complete
    → has_pending_work e ≡ true
    → (process_cycle e).0.output_data_queue ≡ w ∷ []
    → let d = some (with_words p (p.data_words ++ w ∷ []) (complete || w.last)) in
      ((go_on m e).state ≡ finish (moved (note processing m) d) d)
      × ((go_on m e).engine ≡ fetched e)
unfolding go_on get_output_data
go_on_word m e p w complete q c h o =
    let words = (get_output_data (process_cycle e).0).0 in
    let x =
      ap (λ (b : Bool). if b then extend m.processing_data words else m.processing_data) h
      ∙ extend_one m.processing_data p w words complete q o c in
    (
      ap (λ (d : Option Parsing). finish (moved (note processing m) d) d) x,
      ap (λ (b : Bool). if b then fetched e else e) h,
    )
