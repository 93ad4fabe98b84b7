-- ===== src/Voq/Fifo.antt =====
-- buffer_voq.py: both buffers serve each pair of ports in the order of arrival.
use spac.Base.{◌≡◌, refl, List, [], some}
use spac.Config.{SwitchConfig}
use spac.Voq.Interface.{VoqBuffer}
use spac.Voq.History.{History, Call, InOrder, run, run-InOrder}
use spac.Voq.Shared as Shared
use spac.Voq.Pairs as Pairs
use spac.Voq.Shared.Contents.{shared_voq}
use spac.Voq.Pairs.Contents.{pair_voq}

-- A buffer with nothing in its log.
abbrev pub unused : {B : Type 0} (v : VoqBuffer B) → B → History v
unused v b = record { buffer = b; accepted = λ s d. []; served = λ s d. [] }

-- However the calls of a new `OneBufferPerPortBuffer` are mixed, if none raises an exception, each
-- pair of ports has accepted what it has given out and then what waits in its queue, in that order:
-- nothing is lost, made up or overtaken.
pub run-InOrder_of_shared :
    (c : SwitchConfig) (cs : List Call) {h : History shared_voq}
    → run shared_voq (unused shared_voq (Shared.init c)) cs ≡ some h
    → InOrder shared_voq h
unfolding Shared.init
run-InOrder_of_shared c cs e =
    run-InOrder shared_voq cs (unused shared_voq (Shared.init c)) e (λ s d. refl)

-- However the calls of a new `NBuffersPerPortBuffer` are mixed, if none raises an exception, each
-- pair of ports has accepted what it has given out and then what waits in its queue, in that order.
pub run-InOrder_of_pairs :
    (c : SwitchConfig) (cs : List Call) {h : History pair_voq}
    → run pair_voq (unused pair_voq (Pairs.init c)) cs ≡ some h
    → InOrder pair_voq h
unfolding Pairs.init
run-InOrder_of_pairs c cs e =
    run-InOrder pair_voq cs (unused pair_voq (Pairs.init c)) e (λ s d. refl)
