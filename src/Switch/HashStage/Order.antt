-- ===== src/Switch/HashStage/Order.antt =====
-- switch_core.py: the lookup's stage passes packets on in order, one at a time.
use spac.Base.{
  ℕ, ◌-◌, ◌≡◌, refl, sym, ap, ◌∙◌, inl, inr, Bool, true, false, not, ◌&&◌, List, [], ◌∷◌, ◌++◌, map,
  Option, none, some, ltb, leb, ◌==◌, if◌then◌else◌, arith, Bool-cases, append_assoc, get_elem?,
}
use spac.Packet.{Metadata, AxisWord}
use spac.Hash.Engine.{process_metadata}
use spac.Switch.{
  Item, HashState, Activity, idle, waiting_ii, waiting_output, transmitting, note, begin,
}
use spac.Switch.HashStage.{
  HashSide, send_pending, output_part, result_of, only_port, resolved, look_up, next_item,
  process_on, work_part, hash_stage,
}

abbrev pub is_some {ℓ} : {A : Type ℓ} → Option A → Bool
is_some none = false
is_some (some x) = true

abbrev pub list_of {ℓ} : {A : Type ℓ} → Option A → List A
list_of none = []
list_of (some x) = x ∷ []

-- What the lookup leaves alone of an item: its port, words, trace id and arrival time.
abbrev pub load_of : Item → ℕ × List AxisWord × Option ℕ × ℕ
load_of i = (i.port_id, i.data_words, i.trace_id, i.switch_arrival_time)

abbrev pub loads_of : List Item → List (ℕ × List AxisWord × Option ℕ × ℕ)
loads_of items = map load_of items

-- The items in the stage and its two queues, the one that came in first at the front.
abbrev pub loads : HashSide → List (ℕ × List AxisWord × Option ℕ × ℕ)
loads s =
    loads_of s.hash_to_buffer_queue
    ++ (loads_of (list_of s.hash_state.output_pending)
        ++ (loads_of (list_of s.hash_state.processing_data) ++ loads_of s.rx_to_hash_queue))

-- The stage holds at most one item, and its flags say where.
pub record IsValid (m : HashState) : Type 0 where
  pub ready : m.output_ready ≡ is_some m.output_pending
  pub works : m.processing ≡ is_some m.processing_data
  pub one : (m.processing && m.output_ready) ≡ false

-- A part of the stage keeps the invariant and the items.
pub record Keeps (s t : HashSide) : Type 0 where
  pub valid : IsValid t.hash_state
  pub same : loads t ≡ loads s

none-is_some {ℓ} : {A : Type ℓ} (o : Option A) → is_some o ≡ false → o ≡ none
none-is_some none h = refl
none-is_some (some x) h = cc

loads_of-append_one :
    (items : List Item) (i : Item) → loads_of (items ++ i ∷ []) ≡ loads_of items ++ load_of i ∷ []
loads_of-append_one [] i = refl
loads_of-append_one (j ∷ items) i = ap (◌∷◌ (load_of j)) (loads_of-append_one items i)

send_pending-Keeps :
    (bus : ℕ) (s : HashSide) (o : Option Item)
    → IsValid s.hash_state
    → s.hash_state.output_pending ≡ o
    → s.hash_state.output_ready ≡ true
    → Keeps s (send_pending bus s o)
unfolding send_pending
send_pending-Keeps bus s none w e r = record { valid = w; same = refl }
send_pending-Keeps bus s (some i) w e r = record {
  valid = record { ready = refl; works = w.works; one = ground (arith, w.one) };
  same =
      rw (loads_of-append_one s.hash_to_buffer_queue i, e)
        (append_assoc (loads_of s.hash_to_buffer_queue) (load_of i ∷ [])
          (loads_of (list_of s.hash_state.processing_data) ++ loads_of s.rx_to_hash_queue));
}

-- Noting an activity changes only the statistics.
noted : (s : HashSide) (a : Activity) → IsValid s.hash_state → IsValid (note a s.hash_state)
unfolding note
noted s a w = record { ready = w.ready; works = w.works; one = w.one }

-- The branches of the output's part.
branch-Keeps :
    (bus : ℕ) (s : HashSide) (ready accepts busy : Bool)
    → IsValid s.hash_state
    → s.hash_state.output_ready ≡ ready
    → Keeps s (
        if ready
        then (if accepts
            then send_pending bus s s.hash_state.output_pending
            else record s { hash_state = note waiting_output s.hash_state; active = true })
        else if busy
        then record s { hash_state = note transmitting s.hash_state; active = true }
        else s)
unfolding note
branch-Keeps bus s true true busy w r =
    send_pending-Keeps bus s s.hash_state.output_pending w refl r
branch-Keeps bus s true false busy w r = record { valid = noted s waiting_output w; same = refl }
branch-Keeps bus s false accepts true w r = record { valid = noted s transmitting w; same = refl }
branch-Keeps bus s false accepts false w r = record { valid = w; same = refl }

output_part-Keeps :
    (bus : ℕ) (accepts : Bool) (s : HashSide)
    → IsValid s.hash_state
    → Keeps s (output_part bus accepts s)
unfolding output_part
output_part-Keeps bus accepts s w =
    branch-Keeps bus s s.hash_state.output_ready accepts s.hash_state.output_busy w refl

process_on-Keeps :
    (s : HashSide) → IsValid s.hash_state → s.hash_state.processing ≡ true → Keeps s (process_on s)
unfolding process_on
process_on-Keeps s w p =
    let idle_output : s.hash_state.output_ready ≡ false = ground (arith, w.one) in
    let no_output = none-is_some s.hash_state.output_pending (sym w.ready ∙ idle_output) in
    elim (Bool-cases (s.hash_state.processing_remaining - 1 == 0)) [
      | inl e ↦ simp e (record {
        valid = record { ready = sym p ∙ w.works; works = refl; one = refl };
        same = rw no_output refl;
      })
      | inr e ↦
          simp e (record {
            valid = record { ready = w.ready; works = w.works; one = w.one };
            same = refl;
          })
    ]

module _ (s : HashSide) (w : IsValid s.hash_state) (p : s.hash_state.processing ≡ false)
    (o : s.hash_state.output_ready ≡ false) where
  no_work : s.hash_state.processing_data ≡ none
  no_work = none-is_some s.hash_state.processing_data (sym w.works ∙ p)

  no_output : s.hash_state.output_pending ≡ none
  no_output = none-is_some s.hash_state.output_pending (sym w.ready ∙ o)

  -- An item that waits, or that begins to be processed, is where it was.
  resolved-Keeps :
      (item : Item) (items : List Item) (r : Option Metadata)
      → s.rx_to_hash_queue ≡ item ∷ items
      → Keeps s (resolved s item items r)
  unfolding resolved
  resolved-Keeps item items none q = record {
    valid = record { ready = w.ready; works = w.works; one = w.one };
    same = rw q refl;
  }
  resolved-Keeps item items (some m) q = elim (Bool-cases (leb s.hash_state.latency 1)) [
    | inl l ↦ simp l (record {
      valid = record { ready = refl; works = w.works; one = rw p refl };
      same = rw (q, no_work, no_output) refl;
    })
    | inr l ↦ simp l (record {
      valid = record { ready = w.ready; works = refl; one = o };
      same = rw (q, no_work, no_output) refl;
    })
  ]

looked_up-Keeps :
    (n : ℕ) (s : HashSide) (item : Item) (items : List Item)
    → IsValid s.hash_state
    → s.hash_state.processing ≡ false
    → s.hash_state.output_ready ≡ false
    → s.rx_to_hash_queue ≡ item ∷ items
    → Keeps s (look_up n s item items)
unfolding look_up
looked_up-Keeps n s item items w p o q =
    let r = process_metadata s.hash_engine (only_port n item.port_id item.metadata) in
    let k =
      resolved-Keeps (record s { hash_engine = r.1 }) w p o item items
        (result_of (get_elem? r.0 item.port_id)) q in
    record { valid = k.valid; same = k.same }

next_item-Keeps :
    (n : ℕ) (s : HashSide) (items : List Item)
    → IsValid s.hash_state
    → s.hash_state.processing ≡ false
    → s.hash_state.output_ready ≡ false
    → s.rx_to_hash_queue ≡ items
    → Keeps s (next_item n s items)
unfolding next_item
next_item-Keeps n s [] w p o q = record { valid = noted s idle w; same = refl }
next_item-Keeps n s (item ∷ items) w p o q = elim (Bool-cases (ltb 0 s.hash_state.ii_counter)) [
  | inl l ↦ simp l (record { valid = noted s waiting_ii w; same = rw q refl })
  | inr l ↦ simp l (looked_up-Keeps n s item items w p o q)
]

work_branch-Keeps :
    (n : ℕ) (s : HashSide) (works ready busy : Bool)
    → IsValid s.hash_state
    → s.hash_state.processing ≡ works
    → s.hash_state.output_ready ≡ ready
    → Keeps s (
        if works
        then process_on s
        else if not ready && not busy
        then next_item n s s.rx_to_hash_queue
        else s)
work_branch-Keeps n s true ready busy w p o = process_on-Keeps s w p
work_branch-Keeps n s false false false w p o = next_item-Keeps n s s.rx_to_hash_queue w p o refl
work_branch-Keeps n s false false true w p o = record { valid = w; same = refl }
work_branch-Keeps n s false true busy w p o = record { valid = w; same = refl }

-- The lookup's stage neither loses nor doubles nor reorders a packet, whatever the table answers: at
-- each cycle its queues and it hold the same ports, words, trace ids and arrival times in the same
-- order, from the queue of the buffer back to that of the receive engines; and it stays so that it
-- holds at most one packet.
pub hash_stage-Keeps :
    (n bus : ℕ) (accepts : Bool) (s : HashSide)
    → IsValid s.hash_state
    → IsValid (hash_stage n bus accepts s).hash_state
      × (loads (hash_stage n bus accepts s) ≡ loads s)
unfolding hash_stage begin
hash_stage-Keeps n bus accepts s w =
    let s0 : HashSide = record s { hash_state = begin s.hash_state; active = false } in
    let w0 : IsValid s0.hash_state = record { ready = w.ready; works = w.works; one = w.one } in
    let s1 = output_part bus accepts s0 in
    let k1 = output_part-Keeps bus accepts s0 w0 in
    let k2 =
      work_branch-Keeps n s1 s1.hash_state.processing s1.hash_state.output_ready
        s1.hash_state.output_busy k1.valid refl refl in
    let k2' : Keeps s1 (work_part n s1) = unfold work_part in k2 in (k2'.valid, k2'.same ∙ k1.same)
