-- ===== src/Voq/History.antt =====
-- buffer_voq.py: a buffer in use, with a log of what each pair of ports has taken in and given out.
-- The log is the specification: nothing of it is in the program.
use spac.Base.{
  ℕ, ◌≡◌, refl, subst, Bool, true, false, List, [], ◌∷◌, ◌++◌, Option, none, some, arith, update2,
  ◌>>=◌, append_assoc, >>=-eq-some, some_inj,
}
use spac.Voq.Entry.{VoqEntry, Arrival, new_entry, get_output_ports}
use spac.Voq.Interface.{VoqBuffer, append_to, first, rest}

-- A call of the buffer.
pub data Call : Type 0 where
  arrive : Arrival → Call
  serve : ℕ → ℕ → Call

-- A queue of the list of one entry, or of none.
abbrev pub served_entry : Option VoqEntry → List VoqEntry
served_entry none = []
served_entry (some e) = e ∷ []

module _ {B : Type 0} (v : VoqBuffer B) where
  pub record History : Type 0 where
    pub buffer : B
    pub accepted : ℕ → ℕ → List VoqEntry
    pub served : ℕ → ℕ → List VoqEntry

  -- What a call of `enqueue_packet` that returned `done` adds to the log.
  abbrev pub accept : B → Arrival → List ℕ → Bool → (ℕ → ℕ → List VoqEntry) → ℕ → ℕ → List VoqEntry
  accept b a ports true log = append_to log a.input_port ports (new_entry (v.word_size_bytes b) a)
  accept b a ports false log = log

  unfoldable pub step : History → Call → Option History
  step h (arrive a) = do
    ports ← get_output_ports (v.num_ports h.buffer) a.input_port a.metadata
    (done, b) ← v.enqueue_packet h.buffer a
    some (record h { buffer = b; accepted = accept h.buffer a ports done h.accepted })
  step h (serve src dst) = do
    (r, b) ← v.dequeue_packet h.buffer src dst
    some (record h {
      buffer = b;
      served = update2 h.served src dst (h.served src dst ++ served_entry r);
    })

  unfoldable pub run : History → List Call → Option History
  unfolding step
  run h [] = some h
  run h (c ∷ cs) = step h c >>= λ h'. run h' cs

  -- What a pair has accepted is what it has served and then what waits, in that order.
  abbrev pub InOrder : History → Type 0
  InOrder h = (s d : ℕ) → h.accepted s d ≡ h.served s d ++ v.queue h.buffer s d

  first-rest : (q : List VoqEntry) → served_entry (first q) ++ rest q ≡ q
  first-rest [] = refl
  first-rest (e ∷ q) = refl

  arrive-InOrder :
      (h : History) (a : Arrival) (ports : List ℕ) (done : Bool) (b : B)
      → get_output_ports (v.num_ports h.buffer) a.input_port a.metadata ≡ some ports
      → v.enqueue_packet h.buffer a ≡ some (done, b)
      → InOrder h
      → InOrder (record h { buffer = b; accepted = accept h.buffer a ports done h.accepted })
  arrive-InOrder h a ports true b g e o s d = ground (
    arith,
    o s d,
    v.enqueue-stored h.buffer b a ports s d g e,
    append_assoc (h.served s d) (v.queue h.buffer s d)
        (new_entry (v.word_size_bytes h.buffer) a ∷ []),
  )
  arrive-InOrder h a ports false b g e o s d =
      ground (arith, o s d, v.enqueue-dropped h.buffer b a s d e)

  serve-InOrder :
      (h : History) (src dst : ℕ) (r : Option VoqEntry) (b : B)
      → v.dequeue_packet h.buffer src dst ≡ some (r, b)
      → InOrder h
      → InOrder (record h {
        buffer = b;
        served = update2 h.served src dst (h.served src dst ++ served_entry r);
      })
  serve-InOrder h src dst r b e o s d = ground (
    arith,
    o s d,
    v.dequeue-first h.buffer b src dst r e,
    v.dequeue-popped h.buffer b src dst s d r e,
    append_assoc (h.served s d) (served_entry (first (v.queue h.buffer s d)))
        (rest (v.queue h.buffer s d)),
    first-rest (v.queue h.buffer s d),
  )

  pub step-InOrder :
      (h : History) (c : Call) {h' : History} → step h c ≡ some h' → InOrder h → InOrder h'
  unfolding step
  step-InOrder h (arrive a) {h'} e o =
      let (ports, g, k) = >>=-eq-some (get_output_ports _ _ _) _ {b = h'} e in
      let (r, q, l) = >>=-eq-some (v.enqueue_packet h.buffer a) _ {b = h'} k in
      subst InOrder (some_inj l) (arrive-InOrder h a ports r.0 r.1 g q o)
  step-InOrder h (serve src dst) {h'} e o =
      let (r, q, l) = >>=-eq-some (v.dequeue_packet h.buffer src dst) _ {b = h'} e in
      subst InOrder (some_inj l) (serve-InOrder h src dst r.0 r.1 q o)

  -- However the calls of a buffer are mixed, each pair of ports gives out its packets in the order
  -- in which it accepted them: from a history in which what a pair accepted is what it served and
  -- then what waits, every run of calls that raises nothing leads to such a history.
  pub run-InOrder :
      (cs : List Call) (h : History) {h' : History} → run h cs ≡ some h' → InOrder h → InOrder h'
  unfolding run
  run-InOrder [] h {h'} e o = subst InOrder (some_inj e) o
  run-InOrder (c ∷ cs) h {h'} e o =
      let (m, q, l) = >>=-eq-some (step h c) _ {b = h'} e in
      run-InOrder cs m l (step-InOrder h c q o)
