-- ===== src/Switch/RxStage/Whole.antt =====
-- switch_core.py: a receive stage puts a packet of several words together again.
use spac.Base.{
  ℕ, ◌-◌, ◌≤◌, ◌≡◌, refl, ◌∙◌, ap, sym, subst, Bool, true, false, ◌&&◌, List, [], ◌∷◌, ◌++◌, some,
  ◌==◌, if◌then◌else◌, arith, length, append_assoc,
}
use spac.Packet.{AxisWord, Metadata}
use spac.Rx.{
  RxEngine, header, consume, process_cycle, header_metadata, trace_id_of, has_pending_work,
  get_output_data, get_output_metadata,
}
use spac.Rx.Frames.{IsFrame}
use spac.Pipeline.Stage.{count_down}
use spac.Switch.{Item, Parsing, RxState, tick_output, begin, note, processing}
use spac.Switch.RxStage.{PortStep, last_of, item_of, finish, go_on, take_header, work, rx_port}
use spac.Switch.RxStage.Steps.{
  EngineAt, fetched, fetched_both, consume_cycle, header_cycle, port_cycles, Parses, IsIdle,
  HasItem, finish_done, finish_waits, parsing_step, with_words, moved, go_on_word,
}

-- A state of the stage in the middle of a packet, or at its end.
abbrev Progress : RxState → RxEngine → Parsing → ℕ → Bool → List AxisWord → Type 0
Progress m e p left true rest = HasItem m (item_of p) × EngineAt e header rest
Progress m e p left false rest = Parses m p left × EngineAt e consume rest

-- What `finish` gives, by whether the packet is complete.
finish-Progress :
    (m : RxState) (e : RxEngine) (p : Parsing) (left : ℕ) (last : Bool) (rest : List AxisWord)
    → Parses m p left
    → EngineAt e (if last then header else consume) rest
    → p.packet_complete ≡ last
    → (last ≡ true → left ≡ 0)
    → Progress (finish m (some p)) e p left last rest
finish-Progress m e p left true rest s a c z = (finish_done m p (s.remaining ∙ z refl) c, a)
finish-Progress m e p left false rest s a c z =
    (subst (λ t. Parses t p left) (sym (finish_waits m p (ground (arith, c)))) s, a)

-- One cycle of a port in the middle of a packet.
parsing_cycle :
    (bus port left : ℕ) (accepts : Bool) (m : RxState) (e : RxEngine) (p : Parsing) (w : AxisWord)
    (rest : List AxisWord)
    → Parses m p left
    → EngineAt e consume (w ∷ rest)
    → p.packet_complete ≡ false
    → (w.last ≡ true → left - 1 ≡ 0)
    → let r = rx_port bus accepts port (tick_output m) e in
      Progress r.state r.engine
        (with_words p (p.data_words ++ w ∷ []) w.last)
        (left - 1)
        w.last
        rest
unfolding tick_output begin count_down note
parsing_cycle bus port left accepts m e p w rest s a c z =
    let k = consume_cycle e w rest a in
    let t = begin (tick_output m) in
    let g = go_on_word t e p w false s.parsed c k.2 k.1 in
    let p' = with_words p (p.data_words ++ w ∷ []) w.last in
    let parses : Parses (moved (note processing t) (some p')) p' (left - 1) = record {
      busy = ap (λ b. (count_down b m.output_transfer_remaining).0) s.busy;
      empty = s.empty;
      works = s.works;
      parsed = refl;
      remaining = ap (λ n. n - 1) s.remaining;
    } in
    let f =
      finish-Progress (moved (note processing t) (some p')) (fetched e) p' (left - 1) w.last rest
        parses k.0 refl z in
    subst (λ (r : PortStep). Progress r.state r.engine p' (left - 1) w.last rest)
      (sym (parsing_step bus port left accepts m e p s))
      (subst (λ x. Progress x (go_on t e).engine p' (left - 1) w.last rest) (sym (g.0))
        (subst
          (λ d.
            Progress (finish (moved (note processing t) (some p')) (some p')) d p' (left - 1) w.last
              rest)
          (sym (g.1)) f))

-- A packet is all in, and the engine is at the next one.
abbrev pub Taken : RxState × RxEngine → Item → List AxisWord → Type 0
Taken (m, e) i rest = HasItem m i × EngineAt e header rest

-- The words of a packet that are left come in one a cycle.
parsing_cycles :
    (bus port left : ℕ) (accepts : Bool) (m : RxState) (e : RxEngine) (p : Parsing)
    (ws rest : List AxisWord)
    → Parses m p left
    → EngineAt e consume (ws ++ rest)
    → p.packet_complete ≡ false
    → IsFrame ws
    → left ≤ length ws
    → Taken
        (port_cycles bus accepts port (length ws) m e)
        (item_of (with_words p (p.data_words ++ ws) true))
        rest
unfolding port_cycles
parsing_cycles bus port left accepts m e p [] rest s a c f l = absurd f
parsing_cycles bus port left accepts m e p (w ∷ []) rest s a c f l =
    let r = rx_port bus accepts port (tick_output m) e in
    subst
      (λ b. Progress r.state r.engine (with_words p (p.data_words ++ w ∷ []) b) (left - 1) b rest) f
      (parsing_cycle bus port left accepts m e p w rest s a c (λ h. omega (arith, l)))
parsing_cycles bus port left accepts m e p (w ∷ x ∷ ws) rest s a c f l =
    let r = rx_port bus accepts port (tick_output m) e in
    let q = with_words p (p.data_words ++ w ∷ []) false in
    let d =
      subst
        (λ b.
          Progress r.state r.engine (with_words p (p.data_words ++ w ∷ []) b) (left - 1) b
            ((x ∷ ws) ++ rest))
        f.0
        (parsing_cycle bus port left accepts m e p w ((x ∷ ws) ++ rest) s a c (λ h. cc (h, f.0))) in
    subst
      (λ words.
        Taken (port_cycles bus accepts port (length (x ∷ ws)) r.state r.engine)
          (item_of (with_words p words true)) rest)
      (append_assoc p.data_words (w ∷ []) (x ∷ ws))
      (parsing_cycles bus port (left - 1) accepts r.state r.engine q (x ∷ ws) rest d.0 d.1 refl f.1
        (omega (arith, l)))

-- What a port puts together from a first word.
abbrev pub started : ℕ → AxisWord → ℕ → Parsing
started port w t = record {
  port_id = port;
  metadata = header_metadata w.payload;
  data_words = w ∷ [];
  trace_id = some (trace_id_of w.payload);
  switch_arrival_time = t;
  packet_complete = w.last;
}

-- The branches that an idle port takes.
idle_step :
    (bus port : ℕ) (accepts : Bool) (m : RxState) (e : RxEngine)
    → IsIdle m
    → has_pending_work e ≡ true
    → let t = begin (tick_output m) in
      let words = (process_cycle e).0.output_data_queue in
      let metas = (process_cycle e).0.output_meta_queue in
      (rx_port bus accepts port (tick_output m) e).state
        ≡ take_header port t (fetched_both e) words metas
      × ((rx_port bus accepts port (tick_output m) e).engine ≡ fetched_both e)
unfolding rx_port work tick_output begin count_down get_output_data get_output_metadata
idle_step bus port accepts m e s h = ground arith

take_header_one :
    (port t : ℕ) (m : RxState) (e : RxEngine) (w : AxisWord) (words : List AxisWord)
    (metas : List Metadata)
    → m.output_busy ≡ false
    → m.output_ready ≡ false
    → words ≡ w ∷ []
    → metas ≡ header_metadata w.payload ∷ []
    → e.current_trace_id ≡ some (trace_id_of w.payload)
    → e.current_arrival_time ≡ t
    → (m.latency - 1 == 0 && w.last) ≡ false
    → Parses (take_header port m e words metas) (started port w t) (m.latency - 1)
unfolding take_header last_of note
take_header_one port t m e w words metas b r x y i a l =
    let p : Parsing = record (started port w t) {
      trace_id = e.current_trace_id;
      switch_arrival_time = e.current_arrival_time;
    } in
    let n : RxState = record (note processing m) {
      processing = true;
      processing_remaining = m.latency - 1;
      processing_data = some p;
    } in
    let parses : Parses n (started port w t) (m.latency - 1) = record {
      busy = b;
      empty = r;
      works = refl;
      parsed =
          ap
            (λ d. some (record (started port w t) {
              trace_id = d;
              switch_arrival_time = e.current_arrival_time;
            }))
            i
          ∙ ap (λ d. some (record (started port w t) { switch_arrival_time = d })) a;
      remaining = refl;
    } in
    rw (x, y)
      (subst (λ z. Parses z (started port w t) (m.latency - 1)) (sym (finish_waits n p l)) parses)

-- The first cycle of a packet that is not done at once.
pub header_step :
    (bus port t : ℕ) (ts : List ℕ) (accepts : Bool) (m : RxState) (e : RxEngine) (w : AxisWord)
    (rest : List AxisWord)
    → IsIdle m
    → EngineAt e header (w ∷ rest)
    → e.arrival_time_queue ≡ t ∷ ts
    → (m.latency - 1 == 0 && w.last) ≡ false
    → let r = rx_port bus accepts port (tick_output m) e in
      Parses r.state (started port w t) (m.latency - 1)
      × EngineAt r.engine (if w.last then header else consume) rest
      × (r.engine.arrival_time_queue ≡ ts)
unfolding tick_output begin count_down get_output_metadata get_output_data
header_step bus port t ts accepts m e w rest s a q l =
    let k = header_cycle e w rest t ts a q in
    let d = idle_step bus port accepts m e s k.5 in
    let h =
      take_header_one port t (begin (tick_output m)) (fetched_both e) w
        (process_cycle e).0.output_data_queue (process_cycle e).0.output_meta_queue
        (ap (λ b. (count_down b m.output_transfer_remaining).0) s.busy) s.empty k.1 k.2 k.3 k.4 l in
    (
      subst (λ z. Parses z (started port w t) (m.latency - 1)) (sym (d.0)) h,
      subst (λ z. EngineAt z (if w.last then header else consume) rest) (sym (d.1)) k.0,
      ap (λ z. z.arrival_time_queue) d.1 ∙ k.6,
    )

-- At an idle port whose engine stands before the header of a packet of at least two words, and no
-- fewer than the cycles of the stage's latency, as many cycles as there are words put the packet
-- together: the stage holds it with all its words, the metadata and trace id of its header and its
-- arrival time, and the engine stands before the words behind it. Whether the lookup accepts an input
-- does not matter.
pub port_cycles-frame :
    (bus port t : ℕ) (ts : List ℕ) (accepts : Bool) (m : RxState) (e : RxEngine) (w x : AxisWord)
    (ws rest : List AxisWord)
    → IsIdle m
    → EngineAt e header ((w ∷ x ∷ ws) ++ rest)
    → e.arrival_time_queue ≡ t ∷ ts
    → IsFrame (w ∷ x ∷ ws)
    → m.latency ≤ length (w ∷ x ∷ ws)
    → Taken
        (port_cycles bus accepts port (length (w ∷ x ∷ ws)) m e)
        (record {
          port_id = port;
          metadata = header_metadata w.payload;
          data_words = w ∷ x ∷ ws;
          trace_id = some (trace_id_of w.payload);
          switch_arrival_time = t;
          ii_wait_cycles = 0;
        })
        rest
unfolding port_cycles item_of
port_cycles-frame bus port t ts accepts m e w x ws rest s a q f l =
    let r = rx_port bus accepts port (tick_output m) e in
    let d =
      header_step bus port t ts accepts m e w ((x ∷ ws) ++ rest) s a q (ground (arith, f.0)) in
    let engine =
      subst (λ b. EngineAt r.engine (if b then header else consume) ((x ∷ ws) ++ rest)) f.0 d.1 in
    parsing_cycles bus port (m.latency - 1) accepts r.state r.engine (started port w t) (x ∷ ws)
      rest d.0 engine f.0 f.1 (omega (arith, l))
