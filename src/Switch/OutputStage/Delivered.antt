-- ===== src/Switch/OutputStage/Delivered.antt =====
-- switch_core.py: what `_process_output_stage` sends by each port.
use spac.Base.{
  ℕ, ◌+◌, ◌-◌, ◌≡◌, refl, ap, ◌∙◌, inl, inr, Bool, true, false, not, ◌&&◌, List, [], ◌∷◌, ◌++◌,
  Option, none, some, ◌==◌, if◌then◌else◌, arith, member, Distinct, length, Bool-cases, append-nil,
  ◌<◌, subst, range, range-Distinct, member-range, update, sub_ℕ,
}
use spac.Packet.{Packet}
use spac.Voq.Entry.{VoqEntry}
use spac.Switch.{OutputState, transmitting, note, begin}
use spac.Switch.OutputStage.{
  Transmitted, OutputSide, packet_of, count_sent, send_entry, output_port, output_ports,
}

-- The packets that have left by a port, of those in a list.
abbrev pub sent_by : ℕ → List Transmitted → List Packet
sent_by port [] = []
sent_by port (t ∷ ts) = if t.port_id == port then t.packet ∷ sent_by port ts else sent_by port ts

-- The packet of an entry that an output stage holds.
abbrev pub packets_of : ℕ → Option VoqEntry → List Packet
packets_of time none = []
packets_of time (some e) = packet_of e time ∷ []

-- The transfer ends in this cycle.
abbrev pub ends : OutputState → Bool
ends m = m.input_busy && (m.input_transfer_remaining - 1 == 0)

abbrev pub finished : ℕ → OutputState → List Packet
finished time m = if ends m then packets_of time m.input_data else []

-- A port that has been served once, with what it has sent.
pub record IsServed (time port : ℕ) (s t : OutputSide) : Type 0 where
  pub busy :
      (t.output_states port).input_busy
      ≡ ((s.output_states port).input_busy && not (ends (s.output_states port)))
  pub left :
      (s.output_states port).input_busy ≡ true
      → (t.output_states port).input_transfer_remaining
        ≡ (s.output_states port).input_transfer_remaining - 1
  pub sent :
      sent_by port t.transmitted
      ≡ sent_by port s.transmitted ++ finished time (s.output_states port)
  pub counted :
      t.sent.tx_per_port port
      ≡ s.sent.tx_per_port port + length (finished time (s.output_states port))

-- A port that is as it was.
pub record IsKept (port : ℕ) (s t : OutputSide) : Type 0 where
  pub state : t.output_states port ≡ s.output_states port
  pub sent : sent_by port t.transmitted ≡ sent_by port s.transmitted
  pub counted : t.sent.tx_per_port port ≡ s.sent.tx_per_port port

sent_by-append :
    (port : ℕ) (ts us : List Transmitted)
    → sent_by port (ts ++ us) ≡ sent_by port ts ++ sent_by port us
sent_by-append port [] us = refl
sent_by-append port (t ∷ ts) us = ground (arith, sent_by-append port ts us)

-- What `send_entry` adds to a port, by whether it is the one that sends.
send_entry-sent :
    (bus ii time port q : ℕ) (s : OutputSide) (o : Option VoqEntry)
    → let t = send_entry bus ii time port s o in
      let new = if port == q then packets_of time o else [] in
      (t.output_states ≡ s.output_states)
      × (sent_by q t.transmitted ≡ sent_by q s.transmitted ++ new)
      × (t.sent.tx_per_port q ≡ s.sent.tx_per_port q + length new)
unfolding send_entry count_sent
send_entry-sent bus ii time port q s none = ground (arith, append-nil (sent_by q s.transmitted))
send_entry-sent bus ii time port q s (some e) =
    let t : Transmitted = record {
      port_id = port;
      packet = packet_of e time;
      latency = sub_ℕ time e.switch_arrival_time;
    } in
    (
      refl,
      ground (arith, sent_by-append q s.transmitted (t ∷ []), append-nil (sent_by q s.transmitted)),
      ground arith,
    )

-- The loop's body where a transfer ends.
abbrev ending : ℕ → OutputSide → OutputSide
ending port s = record s {
  output_states =
      update s.output_states port (record (note transmitting (begin (s.output_states port))) {
        input_transfer_remaining = (s.output_states port).input_transfer_remaining - 1;
        input_busy = false;
        input_data = none;
      });
  active = true;
}

-- The loop's body at its port.
output_port-IsServed :
    (bus ii time port : ℕ) (s : OutputSide) → IsServed time port s (output_port bus ii time port s)
unfolding output_port note begin
output_port-IsServed bus ii time port s =
    let k =
      send_entry-sent bus ii time port port (ending port s) (s.output_states port).input_data in
    record {
      busy = ground (arith, k);
      left = ground (arith, k);
      sent = ground (arith, k, append-nil (sent_by port s.transmitted));
      counted = ground (arith, k);
    }

-- And at another one.
output_port-IsKept :
    (bus ii time port q : ℕ) (s : OutputSide)
    → (port == q) ≡ false
    → IsKept q s (output_port bus ii time port s)
unfolding output_port note begin
output_port-IsKept bus ii time port q s h =
    let k = send_entry-sent bus ii time port q (ending port s) (s.output_states port).input_data in
    record {
      state = ground (arith, k);
      sent = ground (arith, k, append-nil (sent_by q s.transmitted));
      counted = ground (arith, k);
    }

-- Two steps, of which one leaves the port alone.
IsKept-IsServed :
    (time port : ℕ) (r s t : OutputSide)
    → IsKept port r s
    → IsServed time port s t
    → IsServed time port r t
IsKept-IsServed time port r s t k h =
    let m = t.output_states port in
    record {
      busy = subst (λ o. m.input_busy ≡ (o.input_busy && not (ends o))) k.state h.busy;
      left =
          subst
            (λ o. o.input_busy ≡ true → m.input_transfer_remaining ≡ o.input_transfer_remaining - 1)
            k.state h.left;
      sent =
          h.sent
          ∙ ap (λ o. sent_by port s.transmitted ++ finished time o) k.state
          ∙ ap (λ l. l ++ finished time (r.output_states port)) k.sent;
      counted =
          h.counted
          ∙ ap (λ o. s.sent.tx_per_port port + length (finished time o)) k.state
          ∙ ap (λ l. l + length (finished time (r.output_states port))) k.counted;
    }

IsServed-IsKept :
    (time port : ℕ) (r s t : OutputSide)
    → IsServed time port r s
    → IsKept port s t
    → IsServed time port r t
IsServed-IsKept time port r s t h k = record {
  busy = ap (λ m. m.input_busy) k.state ∙ h.busy;
  left = λ b. ap (λ m. m.input_transfer_remaining) k.state ∙ h.left b;
  sent = k.sent ∙ h.sent;
  counted = k.counted ∙ h.counted;
}

output_ports-IsKept :
    (bus ii time q : ℕ) (ports : List ℕ) (s : OutputSide)
    → member q ports ≡ false
    → IsKept q s (output_ports bus ii time ports s)
unfolding output_ports
output_ports-IsKept bus ii time q [] s h = record { state = refl; sent = refl; counted = refl }
output_ports-IsKept bus ii time q (p ∷ ports) s h =
    let t = output_port bus ii time p s in
    let one = output_port-IsKept bus ii time p q s (ground arith) in
    let more = output_ports-IsKept bus ii time q ports t (ground arith) in
    record {
      state = more.state ∙ one.state;
      sent = more.sent ∙ one.sent;
      counted = more.counted ∙ one.counted;
    }

-- A loop over distinct ports serves each of them once.
output_ports-IsServed_of_Distinct :
    (bus ii time q : ℕ) (ports : List ℕ) (s : OutputSide)
    → Distinct ports
    → member q ports ≡ true
    → IsServed time q s (output_ports bus ii time ports s)
unfolding output_ports
output_ports-IsServed_of_Distinct bus ii time q [] s d h = absurd (cc)
output_ports-IsServed_of_Distinct bus ii time q (p ∷ ports) s d h =
    let t = output_port bus ii time p s in
    elim (Bool-cases (p == q)) [
      | inl e ↦
          let same : p ≡ q = ground arith in
          subst (λ x. IsServed time x s (output_ports bus ii time ports t)) same
            (IsServed-IsKept time p s t (output_ports bus ii time ports t)
              (output_port-IsServed bus ii time p s)
              (output_ports-IsKept bus ii time p ports t d.0))
      | inr e ↦
          IsKept-IsServed time q s t (output_ports bus ii time ports t)
            (output_port-IsKept bus ii time p q s e)
            (output_ports-IsServed_of_Distinct bus ii time q ports t d.1 (ground arith))
    ]

-- The output stage, over the ports of the switch: each port with a transfer has one cycle less to go,
-- and one whose transfer ends is free; just then its entry's packet is sent by the port, behind those
-- that it sent before, and counted for it.
pub output_ports-IsServed :
    (bus ii time n q : ℕ) (s : OutputSide)
    → q < n
    → IsServed time q s (output_ports bus ii time (range n) s)
output_ports-IsServed bus ii time n q s h =
    output_ports-IsServed_of_Distinct bus ii time q (range n) s (range-Distinct n)
      (member-range q n h)
