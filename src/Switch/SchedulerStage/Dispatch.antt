-- ===== src/Switch/SchedulerStage/Dispatch.antt =====
-- switch_core.py: what `_process_scheduler_stage` does with the packets for the outputs.
use spac.Base.{
  ℕ, ◌*◌, ◌≡◌, refl, ap, ◌∙◌, Bool, true, false, List, [], ◌∷◌, Option, none, some, ◌==◌,
  if◌then◌else◌, arith, length, member, Distinct, update,
}
use spac.Voq.Entry.{VoqEntry}
use spac.Config.Latency.{calculate_transfer_cycles}
use spac.Voq.Interface.{VoqBuffer}
use spac.Scheduler.Process.{ports_of}
use spac.Switch.{OutputState, note, begin}
use spac.Switch.SchedulerStage.{
  SchedulerSide, take_entry, dispatch, process_on, dispatch_pending, dispatch_or_schedule,
  scheduler_stage,
}

-- The entry for an output port.
abbrev pub entry_for : ℕ → List (ℕ × VoqEntry) → Option VoqEntry
entry_for o [] = none
entry_for o ((p, e) ∷ ts) = if p == o then some e else entry_for o ts

-- What becomes of an output stage that there is an entry for or not: a free one is busy with the
-- entry for the cycles that its bytes take on the bus, and nothing else of it changes.
abbrev pub handed : ℕ → OutputState → Option VoqEntry → OutputState
handed bus m none = m
handed bus m (some e) = if m.input_busy then m else record m {
  input_busy = true;
  input_data = some e;
  input_transfer_remaining =
      calculate_transfer_cycles (length e.data_words * e.word_size_bytes) bus;
}

abbrev pub all_free : (ℕ → OutputState) → List (ℕ × VoqEntry) → Bool
all_free outputs [] = true
all_free outputs ((p, e) ∷ ts) = if (outputs p).input_busy then false else all_free outputs ts

entry_for_absent :
    (o : ℕ) (ts : List (ℕ × VoqEntry)) → member o (ports_of ts) ≡ false → entry_for o ts ≡ none
entry_for_absent o [] h = refl
entry_for_absent o ((p, e) ∷ ts) h = ground (arith, entry_for_absent o ts)

-- A change at a port that no entry is for.
all_free-update :
    (outputs : ℕ → OutputState) (p : ℕ) (m : OutputState) (ts : List (ℕ × VoqEntry))
    → member p (ports_of ts) ≡ false
    → all_free (update outputs p m) ts ≡ all_free outputs ts
all_free-update outputs p m [] h = refl
all_free-update outputs p m ((q, e) ∷ ts) h = ground (arith, all_free-update outputs p m ts)

dispatch-all_free :
    (bus : ℕ) (ts : List (ℕ × VoqEntry)) (outputs : ℕ → OutputState)
    → Distinct (ports_of ts)
    → (dispatch bus ts outputs).1 ≡ all_free outputs ts
unfolding dispatch
dispatch-all_free bus [] outputs d = refl
dispatch-all_free bus ((p, e) ∷ ts) outputs d = ground (
  arith,
  dispatch-all_free bus ts outputs d.1,
  dispatch-all_free bus ts (update outputs p (take_entry bus (outputs p) e)) d.1,
  all_free-update outputs p (take_entry bus (outputs p) e) ts d.0,
)

dispatch-states :
    (bus o : ℕ) (ts : List (ℕ × VoqEntry)) (outputs : ℕ → OutputState)
    → Distinct (ports_of ts)
    → (dispatch bus ts outputs).0 o ≡ handed bus (outputs o) (entry_for o ts)
unfolding dispatch take_entry
dispatch-states bus o [] outputs d = refl
dispatch-states bus o ((p, e) ∷ ts) outputs d = ground (
  arith,
  dispatch-states bus o ts outputs d.1,
  dispatch-states bus o ts (update outputs p (take_entry bus (outputs p) e)) d.1,
  entry_for_absent p ts d.0,
)

-- A side of the stage with packets for the outputs.
pub record HasPending {B : Type 0} (s : SchedulerSide B) (ts : List (ℕ × VoqEntry)) : Type 0 where
  pub rests : s.state.processing ≡ false
  pub ready : s.state.output_ready ≡ true
  pub pending : s.state.output_pending ≡ some ts

-- The side afterwards.
pub record IsDispatched {B : Type 0} (bus : ℕ) (ts : List (ℕ × VoqEntry)) (s t : SchedulerSide B)
    : Type 0 where
  pub outputs : (o : ℕ) → t.output_states o ≡ handed bus (s.output_states o) (entry_for o ts)
  pub kept : all_free s.output_states ts ≡ false → HasPending t ts
  pub cleared :
      all_free s.output_states ts ≡ true
      → (t.state.output_ready ≡ false) × (t.state.output_pending ≡ none)
  pub works : t.state.processing ≡ false
  pub buffer : t.voq_buffer ≡ s.voq_buffer
  pub scheduler : t.scheduler ≡ s.scheduler

module _ {B : Type 0} where
  dispatch_pending-IsDispatched :
      (bus : ℕ) (s : SchedulerSide B) (ts : List (ℕ × VoqEntry))
      → HasPending s ts
      → Distinct (ports_of ts)
      → IsDispatched bus ts s (dispatch_pending bus s ts)
  unfolding dispatch_pending note
  dispatch_pending-IsDispatched bus s ts h d =
      let e = dispatch-all_free bus ts s.output_states d in
      record {
        outputs = λ o. dispatch-states bus o ts s.output_states d;
        kept = λ f. rw (e ∙ f) (record { rests = h.rests; ready = h.ready; pending = h.pending });
        cleared = λ f. rw (e ∙ f) (refl, refl);
        works = ground (arith, h.rests);
        buffer = refl;
        scheduler = refl;
      }

  at_pending :
      (v : VoqBuffer B) (bus : ℕ) (s : SchedulerSide B) (p : ℕ × VoqEntry)
      (ts : List (ℕ × VoqEntry))
      → HasPending s (p ∷ ts)
      → dispatch_or_schedule v bus s s.state.output_ready s.state.output_pending
        ≡ some (dispatch_pending bus s (p ∷ ts))
  unfolding dispatch_or_schedule
  at_pending v bus s p ts h =
      ap (λ r. dispatch_or_schedule v bus s r s.state.output_pending) h.ready
      ∙ ap (λ o. dispatch_or_schedule v bus s true o) h.pending

  -- A call of a stage that has packets for the outputs, of distinct ports, returns. Each of these
  -- outputs that is free is busy afterwards with the packet for it, for the cycles of its transfer;
  -- each other output is as it was. When all outputs that there are packets for were free the stage has none left; else
  -- it keeps them all, also those that it has just handed over. The buffer and the scheduler do not
  -- change.
  pub scheduler_stage-IsDispatched :
      (v : VoqBuffer B) (bus : ℕ) (s : SchedulerSide B) (p : ℕ × VoqEntry)
      (ts : List (ℕ × VoqEntry))
      → HasPending s (p ∷ ts)
      → Distinct (ports_of (p ∷ ts))
      → (t : SchedulerSide B) × (scheduler_stage v bus s ≡ some t) × IsDispatched bus (p ∷ ts) s t
  unfolding scheduler_stage begin
  scheduler_stage-IsDispatched v bus s p ts h d =
      let b : SchedulerSide B = record s {
        state = begin s.state;
        packets_scheduled = 0;
        active = false;
      } in
      let k : HasPending b (p ∷ ts) = record {
        rests = h.rests;
        ready = h.ready;
        pending = h.pending;
      } in
      let r = dispatch_pending-IsDispatched bus b (p ∷ ts) k d in
      (
        dispatch_pending bus b (p ∷ ts),
        ap
              (λ x.
                if x
                then some (process_on b)
                else dispatch_or_schedule v bus b b.state.output_ready b.state.output_pending)
              h.rests
            ∙ at_pending v bus b p ts k,
        record {
          outputs = r.outputs;
          kept = r.kept;
          cleared = r.cleared;
          works = r.works;
          buffer = r.buffer;
          scheduler = r.scheduler;
        },
      )
