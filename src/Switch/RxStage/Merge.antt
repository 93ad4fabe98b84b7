-- ===== src/Switch/RxStage/Merge.antt =====
-- switch_core.py: packets of one word that wait in a receive engine.
use spac.Base.{
  ℕ, ◌-◌, ◌≡◌, refl, ◌∙◌, ap, sym, subst, Bool, true, List, [], ◌∷◌, some, if◌then◌else◌, arith,
}
use spac.Packet.{AxisWord}
use spac.Rx.{
  RxEngine, header, consume, header_metadata, trace_id_of, get_output_data, get_output_metadata,
}
use spac.Switch.{RxState, tick_output, begin, note, processing}
use spac.Switch.RxStage.{PortStep, item_of, rx_port}
use spac.Switch.RxStage.Steps.{
  EngineAt, moved, with_words, go_on_word, finish_done, parsing_step, IsIdle, HasItem, port_cycles,
  header_cycle,
}
use spac.Switch.RxStage.Whole.{started, header_step}

-- A stage with the latency of two cycles, in a port where two packets of one word wait, takes them
-- for one packet: after two cycles the first one's header, trace id and arrival time stand with the
-- words of both, and the second one's header is left in the engine, for the packet after it.
pub port_cycles_merge :
    (bus port t u : ℕ) (ts : List ℕ) (accepts : Bool) (m : RxState) (e : RxEngine) (w x : AxisWord)
    (rest : List AxisWord)
    → IsIdle m
    → m.latency ≡ 2
    → EngineAt e header (w ∷ x ∷ rest)
    → e.arrival_time_queue ≡ t ∷ u ∷ ts
    → w.last ≡ true
    → x.last ≡ true
    → let r = port_cycles bus accepts port 2 m e in
      HasItem r.0 (record {
        port_id = port;
        metadata = header_metadata w.payload;
        data_words = w ∷ x ∷ [];
        trace_id = some (trace_id_of w.payload);
        switch_arrival_time = t;
        ii_wait_cycles = 0;
      })
      × (r.1.input_queue ≡ rest)
      × (r.1.output_meta_queue ≡ header_metadata x.payload ∷ [])
unfolding port_cycles item_of tick_output begin note get_output_data get_output_metadata
port_cycles_merge bus port t u ts accepts m e w x rest s l a q c d =
    let r = rx_port bus accepts port (tick_output m) e in
    let one = header_step bus port t (u ∷ ts) accepts m e w (x ∷ rest) s a q (ground arith) in
    let at = subst (λ b. EngineAt r.engine (if b then header else consume) (x ∷ rest)) c one.1 in
    let k = header_cycle r.engine x rest u ts at one.2 in
    let n = begin (tick_output r.state) in
    let g = go_on_word n r.engine (started port w t) x true one.0.parsed c k.5 k.1 in
    let p = with_words (started port w t) (w ∷ x ∷ []) true in
    let done =
      finish_done (moved (note processing n) (some p)) p (ground (arith, one.0.remaining, l))
        refl in
    let step =
      parsing_step bus port (m.latency - 1) accepts r.state r.engine (started port w t) one.0 in
    (
      subst (λ z. HasItem z (item_of p)) (sym (ap PortStep.state step ∙ g.0)) done,
      ap (λ z. z.engine.input_queue) step ∙ ap RxEngine.input_queue g.1 ∙ k.0.input,
      ap (λ z. z.engine.output_meta_queue) step ∙ ap RxEngine.output_meta_queue g.1 ∙ k.2,
    )
