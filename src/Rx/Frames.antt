-- ===== src/Rx/Frames.antt =====
-- rx_engine.py: the engine takes the words of packets one a cycle and gives out one header for each.
use spac.Base.{
  ℕ, zero, suc, ◌+◌, ◌*◌, ◌≡◌, refl, ap, ◌∙◌, true, false, List, [], ◌∷◌, ◌++◌, if◌then◌else◌,
  arith, length, All, append_assoc, append-nil, length-append,
}
use spac.Packet.{Metadata, AxisWord, payload_from}
use spac.Rx.{RxEngine, header, consume, process_cycle, header_metadata}

-- The words of one packet: the last one, and no other, is marked.
abbrev pub IsFrame : List AxisWord → Type 0
IsFrame [] = ⊥
IsFrame (w ∷ []) = w.last ≡ true
IsFrame (w ∷ x ∷ ws) = (w.last ≡ false) × IsFrame (x ∷ ws)

-- The payload of a packet with at least one word is such a list.
pub payload_from-IsFrame :
    (rounds : ℕ) (word : ℕ → ℕ) (i : ℕ) → IsFrame (payload_from word i (suc rounds))
unfolding payload_from
payload_from-IsFrame zero word i = refl
payload_from-IsFrame (suc rounds) word i = (ground arith, payload_from-IsFrame rounds word (i + 1))

-- So many calls of `process_cycle`.
unfoldable pub run : ℕ → RxEngine → RxEngine
run zero e = e
run (suc k) e = run k (process_cycle e).0

pub run-add : (k l : ℕ) (e : RxEngine) → run (k + l) e ≡ run l (run k e)
unfolding run
run-add zero l e = let z : 0 + l ≡ l = omega arith in ap (λ n. run n e) z
run-add (suc k) l e =
    let z : suc k + l ≡ suc (k + l) = omega arith in
    ap (λ n. run n e) z ∙ run-add k l (process_cycle e).0

-- What the engine `d` has done since it was `e`: it has put out words and headers, counted packets
-- and bytes, and stands before the next header.
pub record HasTaken (e d : RxEngine) (ws : List AxisWord) (metas : List Metadata) (size : ℕ)
    (rest : List AxisWord) : Type 0 where
  pub state : d.current_state ≡ header
  pub ready : d.processing_cycles ≡ 0
  pub input : d.input_queue ≡ rest
  pub words : d.output_data_queue ≡ e.output_data_queue ++ ws
  pub headers : d.output_meta_queue ≡ e.output_meta_queue ++ metas
  pub packets : d.packets_processed ≡ e.packets_processed + length metas
  pub bytes : d.bytes_processed ≡ e.bytes_processed + size

-- One cycle in the middle of a packet.
consume_step :
    (e : RxEngine) (w : AxisWord) (rest : List AxisWord)
    → e.current_state ≡ consume
    → e.processing_cycles ≡ 0
    → e.input_queue ≡ w ∷ rest
    → let d = (process_cycle e).0 in
      (d.current_state ≡ (if w.last then header else consume))
      × (d.processing_cycles ≡ 0)
      × (d.input_queue ≡ rest)
      × (d.output_data_queue ≡ e.output_data_queue ++ w ∷ [])
      × (d.output_meta_queue ≡ e.output_meta_queue)
      × (d.packets_processed ≡ e.packets_processed + (if w.last then 1 else 0))
      × (d.bytes_processed
          ≡ e.bytes_processed + (if w.last then (e.current_packet_word_count + 1) * 64 else 0))
      × (d.current_packet_word_count ≡ e.current_packet_word_count + 1)
unfolding process_cycle
consume_step e w rest s p i = ground arith

-- The cycle that takes the first word of a packet.
header_step :
    (e : RxEngine) (w : AxisWord) (rest : List AxisWord)
    → e.current_state ≡ header
    → e.processing_cycles ≡ 0
    → e.input_queue ≡ w ∷ rest
    → let d = (process_cycle e).0 in
      (d.current_state ≡ (if w.last then header else consume))
      × (d.processing_cycles ≡ 0)
      × (d.input_queue ≡ rest)
      × (d.output_data_queue ≡ e.output_data_queue ++ w ∷ [])
      × (d.output_meta_queue ≡ e.output_meta_queue ++ header_metadata w.payload ∷ [])
      × (d.packets_processed ≡ e.packets_processed + (if w.last then 1 else 0))
      × (d.bytes_processed ≡ e.bytes_processed + (if w.last then 64 else 0))
      × (d.current_packet_word_count ≡ 1)
unfolding process_cycle
header_step e w rest s p i = ground arith

consume-run :
    (ws rest : List AxisWord) (e : RxEngine)
    → IsFrame ws
    → e.current_state ≡ consume
    → e.processing_cycles ≡ 0
    → e.input_queue ≡ ws ++ rest
    → let d = run (length ws) e in
      (d.current_state ≡ header)
      × (d.processing_cycles ≡ 0)
      × (d.input_queue ≡ rest)
      × (d.output_data_queue ≡ e.output_data_queue ++ ws)
      × (d.output_meta_queue ≡ e.output_meta_queue)
      × (d.packets_processed ≡ e.packets_processed + 1)
      × (d.bytes_processed ≡ e.bytes_processed + (e.current_packet_word_count + length ws) * 64)
unfolding run
consume-run [] rest e f s p i = absurd f
consume-run (w ∷ []) rest e f s p i = ground (arith, consume_step e w rest s p i)
consume-run (w ∷ x ∷ ws) rest e f s p i =
    let step = consume_step e w (x ∷ ws ++ rest) s p i in
    ground (
      arith,
      step,
      consume-run (x ∷ ws) rest (process_cycle e).0 f.1,
      append_assoc e.output_data_queue (w ∷ []) (x ∷ ws),
    )

-- The header of a packet's words.
abbrev pub frame_header : List AxisWord → List Metadata
frame_header [] = []
frame_header (w ∷ ws) = header_metadata w.payload ∷ []

run-frame :
    (ws rest : List AxisWord) (e : RxEngine)
    → IsFrame ws
    → e.current_state ≡ header
    → e.processing_cycles ≡ 0
    → e.input_queue ≡ ws ++ rest
    → HasTaken e (run (length ws) e) ws (frame_header ws) (length ws * 64) rest
unfolding run
run-frame [] rest e f s p i = absurd f
run-frame (w ∷ []) rest e f s p i = ground (arith, header_step e w rest s p i)
run-frame (w ∷ x ∷ ws) rest e f s p i =
    let step = header_step e w (x ∷ ws ++ rest) s p i in
    ground (
      arith,
      step,
      consume-run (x ∷ ws) rest (process_cycle e).0 f.1,
      append_assoc e.output_data_queue (w ∷ []) (x ∷ ws),
    )

-- The words of several packets, one packet after the other, and their headers.
abbrev pub all_words : List (List AxisWord) → List AxisWord
all_words [] = []
all_words (ws ∷ frames) = ws ++ all_words frames

abbrev pub all_headers : List (List AxisWord) → List Metadata
all_headers [] = []
all_headers (ws ∷ frames) = frame_header ws ++ all_headers frames

length-frame_header : (ws : List AxisWord) → IsFrame ws → length (frame_header ws) ≡ 1
length-frame_header [] f = absurd f
length-frame_header (w ∷ ws) f = refl

-- An engine that waits for a header takes the words of any number of packets, one word a cycle: it
-- puts out all the words in order and one header for each packet, read from the packet's first word,
-- counts the packets and 64 bytes for each word, and waits for the next header, the words behind
-- still in its queue.
pub run-frames :
    (frames : List (List AxisWord)) (rest : List AxisWord) (e : RxEngine)
    → All IsFrame frames
    → e.current_state ≡ header
    → e.processing_cycles ≡ 0
    → e.input_queue ≡ all_words frames ++ rest
    → HasTaken e
        (run (length (all_words frames)) e)
        (all_words frames)
        (all_headers frames)
        (length (all_words frames) * 64)
        rest
run-frames [] rest e f s p i =
    unfold run in ground (arith, append-nil e.output_data_queue, append-nil e.output_meta_queue)
run-frames (ws ∷ frames) rest e f s p i =
    let mid = run (length ws) e in
    let first =
      run-frame ws (all_words frames ++ rest) e f.0 s p
        (i ∙ append_assoc ws (all_words frames) rest) in
    let later = run-frames frames rest mid f.1 first.state first.ready first.input in
    let split : run (length (ws ++ all_words frames)) e ≡ run (length (all_words frames)) mid =
      ap (λ n. run n e) (length-append ws (all_words frames))
      ∙ run-add (length ws) (length (all_words frames)) e in
    rw split (
      ground (
        arith,
        first,
        later,
        append_assoc e.output_data_queue ws (all_words frames),
        append_assoc e.output_meta_queue (frame_header ws) (all_headers frames),
        length-append ws (all_words frames),
        length-append (frame_header ws) (all_headers frames),
      ))
