-- ===== src/Voq/Interface.antt =====
-- buffer_voq.py: what the schedulers and the switch rely on in a buffer, whichever of the two it is:
-- its queues, and how the two operations that move packets change them.
use spac.Base.{
  ℕ, ◌≡◌, ◌<◌, Bool, true, false, List, [], ◌∷◌, ◌++◌, Option, none, some, ◌==◌, if◌then◌else◌,
  member, update2,
}
use spac.Voq.Entry.{VoqEntry, Arrival, new_entry, get_output_ports}

-- The queues after an entry has been put at the end of those of its input port to `ports`.
abbrev pub append_to : (ℕ → ℕ → List VoqEntry) → ℕ → List ℕ → VoqEntry → ℕ → ℕ → List VoqEntry
append_to queue input ports e src dst =
    if input == src
    then (if member dst ports then queue src dst ++ e ∷ [] else queue src dst)
    else queue src dst

-- `queue[0] if queue else None`, which is `peek_packet` too, and what is left of a queue.
abbrev pub first : List VoqEntry → Option VoqEntry
first [] = none
first (e ∷ q) = some e

abbrev pub rest : List VoqEntry → List VoqEntry
rest [] = []
rest (e ∷ q) = q

pub record VoqBuffer (B : Type 0) : Type 0 where
  pub num_ports : B → ℕ
  pub word_size_bytes : B → ℕ
  pub queue : B → ℕ → ℕ → List VoqEntry
  pub enqueue_packet : B → Arrival → Option (Bool × B)
  pub dequeue_packet : B → ℕ → ℕ → Option (Option VoqEntry × B)
  pub enqueue-stored :
      (b b' : B) (a : Arrival) (ports : List ℕ) (src dst : ℕ)
      → get_output_ports (num_ports b) a.input_port a.metadata ≡ some ports
      → enqueue_packet b a ≡ some (true, b')
      → queue b' src dst
        ≡ append_to (queue b) a.input_port ports (new_entry (word_size_bytes b) a) src dst
  pub enqueue-dropped :
      (b b' : B) (a : Arrival) (src dst : ℕ)
      → enqueue_packet b a ≡ some (false, b')
      → queue b' src dst ≡ queue b src dst
  pub enqueue-kept :
      (b b' : B) (a : Arrival) (done : Bool)
      → enqueue_packet b a ≡ some (done, b')
      → (num_ports b' ≡ num_ports b) × (word_size_bytes b' ≡ word_size_bytes b)
  pub dequeue-total :
      (b : B) (src dst : ℕ)
      → src < num_ports b
      → dst < num_ports b
      → (b' : B) × (dequeue_packet b src dst ≡ some (first (queue b src dst), b'))
  pub dequeue-popped :
      (b b' : B) (src dst s d : ℕ) (r : Option VoqEntry)
      → dequeue_packet b src dst ≡ some (r, b')
      → queue b' s d ≡ update2 (queue b) src dst (rest (queue b src dst)) s d
  pub dequeue-first :
      (b b' : B) (src dst : ℕ) (r : Option VoqEntry)
      → dequeue_packet b src dst ≡ some (r, b')
      → r ≡ first (queue b src dst)
  pub dequeue-kept :
      (b b' : B) (src dst : ℕ) (r : Option VoqEntry)
      → dequeue_packet b src dst ≡ some (r, b')
      → (num_ports b' ≡ num_ports b) × (word_size_bytes b' ≡ word_size_bytes b)
