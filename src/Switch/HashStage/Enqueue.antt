-- ===== src/Switch/HashStage/Enqueue.antt =====
-- switch_core.py: `_process_buffer_enqueue` stores the next packet, or counts it as dropped.
use spac.Base.{ℕ, ◌+◌, ◌≡◌, false, List, ◌==◌, if◌then◌else◌}
use spac.Voq.Entry.{new_entry}
use spac.Voq.Interface.{VoqBuffer, append_to}
use spac.Switch.{Item, begin}
use spac.Switch.HashStage.{BufferSide, arrival_of}

module _ {B : Type 0} (v : VoqBuffer B) where
  -- The packet stands at the end of the queues to its ports, and no other queue has changed.
  pub record IsStored (s t : BufferSide B) (item : Item) (time cycle : ℕ) (ports : List ℕ)
      : Type 0 where
    pub queues :
        (src dst : ℕ)
        → v.queue t.voq_buffer src dst
          ≡ append_to
              (v.queue s.voq_buffer)
              item.port_id
              ports
              (new_entry (v.word_size_bytes s.voq_buffer) (arrival_of item time cycle))
              src
              dst
    pub processed : t.packets_processed ≡ 1
    pub dropped : t.packets_dropped ≡ s.packets_dropped

  -- No queue has changed, and the packet is counted as dropped, for its port too.
  pub record IsDropped (s t : BufferSide B) (item : Item) : Type 0 where
    pub queues : (src dst : ℕ) → v.queue t.voq_buffer src dst ≡ v.queue s.voq_buffer src dst
    pub processed : t.packets_processed ≡ 0
    pub dropped : t.packets_dropped ≡ s.packets_dropped + 1
    pub per_port :
        (p : ℕ)
        → t.dropped_per_port p
          ≡ (if p == item.port_id then s.dropped_per_port p + 1 else s.dropped_per_port p)

  -- The start of the stage.
  abbrev begun : BufferSide B → BufferSide B
  begun s = record s { buffer_state = begin s.buffer_state; packets_processed = 0; active = false }
