-- ===== src/Tests/Words.antt =====
-- Tests of the configuration, of packets, and of the engine that parses their words.
use spac.Base.{
  ℕ, ◌*◌, ◌%◌, ◌^◌, ◌<◌, ◌≤◌, ◌≡◌, refl, true, false, List, [], ◌∷◌, ◌++◌, Option, none, some, ℤ,
  pos, arith, get_elem?,
}
use spac.Config.{
  SwitchConfig, n_buffers_per_port, get_voq_size, validate_voq_sizes, all_nonneg, expand_voq_sizes,
}
use spac.Config.Sizes.{get_voq_size-valid, get_voq_size-expand_voq_sizes}
use spac.Config.Latency.{calculate_transfer_cycles, calculate_transfer_cycles-least}
use spac.Packet.{AxisWord, Packet, from_trace_entry}
use spac.Rx.{RxEngine, State, header, header_metadata, trace_id_of}
use spac.Rx as Rx
use spac.Rx.Parse.{entry_metadata, header-from_trace_entry}
use spac.Rx.Frames.{HasTaken, run, run-frames, all_words, all_headers}
use spac.Tests.{config_for, one_word}

abbrev sized : SwitchConfig
sized = record (config_for n_buffers_per_port) {
  voq_sizes = some (pos 0 ∷ pos 64 ∷ pos 128 ∷ pos 0 ∷ []);
}

get_voq_size-valid_example :
    (m : ℕ) × (get_voq_size sized 1 0 ≡ pos m)
    × (get_elem? (pos 0 ∷ pos 64 ∷ pos 128 ∷ pos 0 ∷ []) 2 ≡ some (pos m))
unfolding validate_voq_sizes
get_voq_size-valid_example =
    get_voq_size-valid sized (pos 0 ∷ pos 64 ∷ pos 128 ∷ pos 0 ∷ []) 1 0 refl refl (omega arith)
      (omega arith)

-- The sizes of four queues, from a dictionary that gives two of them.
abbrev from_dictionary : List (ℤ × ℤ)
from_dictionary = (pos 1, pos 64) ∷ (pos 2, pos 128) ∷ (pos 9, pos 1) ∷ []

abbrev expanded : SwitchConfig
expanded = record (config_for n_buffers_per_port) {
  voq_sizes = some (expand_voq_sizes n_buffers_per_port 2 (pos 256) from_dictionary);
}

get_voq_size-expand_voq_sizes_example :
    (get_voq_size expanded 1 0 ≡ pos 128)
    × (validate_voq_sizes expanded
        ≡ all_nonneg (expand_voq_sizes n_buffers_per_port 2 (pos 256) from_dictionary))
get_voq_size-expand_voq_sizes_example =
    get_voq_size-expand_voq_sizes expanded (pos 256) from_dictionary 1 0 refl (omega arith)
      (omega arith)

calculate_transfer_cycles-least_example :
    (65 * 8 ≤ calculate_transfer_cycles 65 512 * 512)
    × (0 < calculate_transfer_cycles 65 512)
    × (calculate_transfer_cycles 65 512 ≤ 2)
calculate_transfer_cycles-least_example =
    calculate_transfer_cycles-least 65 512 2 (omega arith) (omega arith) (omega arith)

abbrev entry_packet : Option Packet → List AxisWord
entry_packet none = []
entry_packet (some p) = p.payload

header-from_trace_entry_example :
    (w : AxisWord) × (ws : List AxisWord) × (entry_packet
        (from_trace_entry 10 3 (pos 5) 64 36 9 512)
      ≡ w ∷ ws)
    × (header_metadata w.payload ≡ entry_metadata 3 (pos 5))
    × (trace_id_of w.payload ≡ 9 % 2 ^ 15)
unfolding from_trace_entry
header-from_trace_entry_example = header-from_trace_entry 10 3 (pos 5) 64 36 9 512 refl

abbrev two_words : List AxisWord
two_words = record { payload = 13056; last = false } ∷ record { payload = 13057; last = true } ∷ []

abbrev frames : List (List AxisWord)
frames = two_words ∷ one_word ∷ []

abbrev engine : RxEngine
engine = record (Rx.init 2) { input_queue = all_words frames }

run-frames_example :
    HasTaken engine (run 3 engine) (two_words ++ one_word) (all_headers frames) 192 []
unfolding Rx.init
run-frames_example = run-frames frames [] engine ((refl, refl), (refl, tt)) refl refl refl
