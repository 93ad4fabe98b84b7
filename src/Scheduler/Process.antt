-- ===== src/Scheduler/Process.antt =====
-- scheduler_base.py: what `process_matches` transmits, and what it leaves in the buffer.
use spac.Base.{
  ℕ, ◌+◌, ◌≡◌, refl, ap, sym, subst, ◌⊎◌, inl, inr, Bool, true, false, List, [], ◌∷◌, ◌++◌, map,
  Option, none, some, arith, if◌then◌else◌, ltb, ◌==◌, length, member, Distinct,
  Distinct-append_one, Bool-cases, Option-cases, >>=-eq-some, some_inj, append-nil, length-append,
}
use spac.Voq.Entry.{VoqEntry}
use spac.Voq.Interface.{VoqBuffer, first, rest}
use spac.Scheduler.{
  SchedulerMatch, SchedulerState, Work, is_waiting, backoff, lower_backoff, transmit, serve_match,
  process_match, process_all, process_matches, count_cycle,
}

-- Counting a cycle leaves the ports alone.
pub count_cycle-num_ports :
    (s : SchedulerState) (ms : List SchedulerMatch) → (count_cycle s ms).num_ports ≡ s.num_ports
unfolding count_cycle
count_cycle-num_ports s [] = refl
count_cycle-num_ports s (m ∷ ms) = refl

-- Nor does it touch the outputs and the backoffs.
pub count_cycle_kept :
    (s : SchedulerState) (ms : List SchedulerMatch)
    → ((count_cycle s ms).output_busy ≡ s.output_busy)
      × ((count_cycle s ms).backoff_counters ≡ s.backoff_counters)
unfolding count_cycle
count_cycle_kept s [] = (refl, refl)
count_cycle_kept s (m ∷ ms) = (refl, refl)

abbrev pub ports_of : List (ℕ × VoqEntry) → List ℕ
ports_of = map (λ t. t.0)

-- The entries that were sent to an output port.
abbrev pub sent_to : ℕ → List (ℕ × VoqEntry) → List VoqEntry
sent_to o [] = []
sent_to o ((p, e) ∷ ts) = if p == o then e ∷ sent_to o ts else sent_to o ts

-- Whether an output port is granted to an input port.
abbrev pub is_grant : Option ℕ → ℕ → Bool
is_grant none i = false
is_grant (some j) i = j == i

-- What an input port sent to an output port, by the grants.
abbrev pub sent_from : SchedulerState → List (ℕ × VoqEntry) → ℕ → ℕ → List VoqEntry
sent_from s ts i o = if is_grant (s.output_grants o) i then sent_to o ts else []

sent_to-append :
    (o p : ℕ) (e : VoqEntry) (ts : List (ℕ × VoqEntry))
    → sent_to o (ts ++ (p, e) ∷ []) ≡ sent_to o ts ++ (if p == o then e ∷ [] else [])
sent_to-append o p e [] = ground arith
sent_to-append o p e ((q, f) ∷ ts) = ground (arith, sent_to-append o p e ts)

pub ports_of-append :
    (p : ℕ) (e : VoqEntry) (ts : List (ℕ × VoqEntry))
    → ports_of (ts ++ (p, e) ∷ []) ≡ ports_of ts ++ p ∷ []
ports_of-append p e [] = refl
ports_of-append p e (t ∷ ts) = ap (◌∷◌ t.0) (ports_of-append p e ts)

pub first-some : (q : List VoqEntry) (e : VoqEntry) → first q ≡ some e → q ≡ e ∷ rest q
first-some [] e h = cc
first-some (x ∷ q) e h = ground arith

sent_to-none :
    (o : ℕ) (ts : List (ℕ × VoqEntry)) → member o (ports_of ts) ≡ false → sent_to o ts ≡ []
sent_to-none o [] h = refl
sent_to-none o ((p, e) ∷ ts) h = ground (arith, sent_to-none o ts)

member-append_one :
    (a p : ℕ) (xs : List ℕ) → member a (xs ++ p ∷ []) ≡ (if member a xs then true else p == a)
member-append_one a p [] = ground arith
member-append_one a p (x ∷ xs) = ground (arith, member-append_one a p xs)

module _ {B : Type 0} (v : VoqBuffer B) where
  -- The loop's invariant, for the buffer `b` that it began with and the count of transmissions then.
  pub record IsSound (b : B) (before : ℕ) (w : Work B) : Type 0 where
    pub distinct : Distinct (ports_of w.transmissions)
    pub busy :
        (o : ℕ) → (member o (ports_of w.transmissions) ≡ false) ⊎ (w.state.output_busy o ≡ true)
    pub kept :
        (i o : ℕ) → v.queue b i o ≡ sent_from w.state w.transmissions i o ++ v.queue w.buffer i o
    pub counted : w.state.total_scheduled ≡ before + length w.transmissions

  transmit-IsSound :
      (b : B) (before : ℕ) (w : Work B) (m : SchedulerMatch) (r : Option VoqEntry) (b' : B)
      → w.state.output_busy m.output_port ≡ false
      → v.dequeue_packet w.buffer m.input_port m.output_port ≡ some (r, b')
      → IsSound b before w
      → IsSound b before (transmit w m r b')
  unfolding transmit
  transmit-IsSound b before w m none b' f d s = record {
    distinct = s.distinct;
    busy = s.busy;
    kept = λ i o. ground (
      arith,
      s.kept i o,
      v.dequeue-first w.buffer b' m.input_port m.output_port none d,
      v.dequeue-popped w.buffer b' m.input_port m.output_port i o none d,
    );
    counted = s.counted;
  }
  transmit-IsSound b before w m (some e) b' f d s =
      let p = m.output_port in
      let fresh : member p (ports_of w.transmissions) ≡ false = ground (arith, s.busy p) in
      record {
        distinct =
            rw (ports_of-append p e w.transmissions)
              (Distinct-append_one p (ports_of w.transmissions) s.distinct fresh);
        busy = λ o. ground (
          arith,
          s.busy o,
          ports_of-append p e w.transmissions,
          member-append_one o p (ports_of w.transmissions),
        );
        kept = λ i o. ground (
          arith,
          s.kept i o,
          sent_to-none p w.transmissions fresh,
          sent_to-append o p e w.transmissions,
          append-nil (sent_to o w.transmissions),
          v.dequeue-popped w.buffer b' m.input_port p i o (some e) d,
          first-some (v.queue w.buffer m.input_port p) e
              (sym (v.dequeue-first w.buffer b' m.input_port p (some e) d)),
        );
        counted = omega (arith, s.counted, length-append w.transmissions ((p, e) ∷ []));
      }

  -- The state of the loop after a match that it passes over.
  abbrev skip : Work B → ℕ → List ((ℕ × ℕ) × ℕ) → Work B
  skip w conflicts counters = record w {
    state = record w.state { total_conflicts = conflicts; backoff_counters = counters };
  }

  skip-IsSound :
      (b : B) (before : ℕ) (w : Work B) (conflicts : ℕ) (counters : List ((ℕ × ℕ) × ℕ))
      → IsSound b before w
      → IsSound b before (skip w conflicts counters)
  skip-IsSound b before w c k s = record {
    distinct = s.distinct;
    busy = s.busy;
    kept = s.kept;
    counted = s.counted;
  }

  serve_match-IsSound :
      (b : B) (before : ℕ) (w : Work B) (m : SchedulerMatch) {w' : Work B}
      → serve_match v w m ≡ some w'
      → IsSound b before w
      → IsSound b before w'
  unfolding serve_match
  serve_match-IsSound b before w m {w'} h s =
      let c = w.state.total_conflicts in
      let k = w.state.backoff_counters in
      elim (Bool-cases (w.state.output_busy m.output_port)) [
        | inl e ↦
            let same : skip w (c + 1) k ≡ w' = ground arith in
            subst (IsSound b before) same (skip-IsSound b before w (c + 1) k s)
        | inr f ↦ elim (Bool-cases (is_waiting (backoff k m.input_port m.output_port))) [
          | inl e ↦
              let k' = lower_backoff k m.input_port m.output_port in
              let same : skip w c k' ≡ w' = ground arith in
              subst (IsSound b before) same (skip-IsSound b before w c k' s)
          | inr g ↦ elim (Option-cases (v.dequeue_packet w.buffer m.input_port m.output_port)) [
            | inl bad ↦ ground arith
            | inr (r, d) ↦
                let same : transmit w m r.0 r.1 ≡ w' = ground arith in
                subst (IsSound b before) same (transmit-IsSound b before w m r.0 r.1 f d s)
          ]
        ]
      ]

  process_match-IsSound :
      (b : B) (before : ℕ) (w : Work B) (m : SchedulerMatch) {w' : Work B}
      → process_match v w m ≡ some w'
      → IsSound b before w
      → IsSound b before w'
  unfolding process_match
  process_match-IsSound b before w m {w'} h s =
      serve_match-IsSound b before w m
        (elim (Bool-cases (ltb m.output_port w.state.num_ports)) [
          | inl e ↦ rw e at h
          | inr e ↦ absurd (cc (e, h))
        ])
        s

  process_all-IsSound :
      (ms : List SchedulerMatch) (b : B) (before : ℕ) (w : Work B) {w' : Work B}
      → process_all v w ms ≡ some w'
      → IsSound b before w
      → IsSound b before w'
  unfolding process_all
  process_all-IsSound [] b before w h s = subst (IsSound b before) (some_inj h) s
  process_all-IsSound (m ∷ ms) b before w {w'} h s =
      let (u, e, l) = >>=-eq-some (process_match v w m) _ {b = w'} h in
      process_all-IsSound ms b before u l (process_match-IsSound b before w m e s)

  -- What `process_matches` returns, whatever the matches: no output port is sent two packets, every
  -- port that is sent one is busy, each queue of the buffer is what its input port sent to its output
  -- port (by the grants), and then what is left of it, and the counter has grown by the packets sent.
  pub process_matches-IsSound :
      (s : SchedulerState) (b : B) (ms : List SchedulerMatch) {w : Work B}
      → process_matches v s b ms ≡ some w
      → IsSound b s.total_scheduled w
  unfolding process_matches
  process_matches-IsSound s b ms {w} h =
      let start : Work B = record {
        state = record s { output_grants = λ p. none };
        buffer = b;
        transmissions = [];
      } in
      let (u, e, l) = >>=-eq-some (process_all v start ms) _ {b = w} h in
      let begun : IsSound b s.total_scheduled start = record {
        distinct = tt;
        busy = λ o. inl refl;
        kept = λ i o. refl;
        counted = omega arith;
      } in
      let done = process_all-IsSound ms b s.total_scheduled start e begun in
      subst (IsSound b s.total_scheduled) (some_inj l) (record {
        distinct = done.distinct;
        busy = done.busy;
        kept = done.kept;
        counted = done.counted;
      })
