-- ===== src/Tests/Hash.antt =====
-- Tests of the address lookup.
use spac.Base.{◌≡◌, refl, false, [], ◌∷◌, none, some, pos, All, get_elem?, arith}
use spac.Packet.{Metadata}
use spac.Hash.{lookup, route}
use spac.Hash.FullLookup.{FullLookupTable, init, process_metadata, learned}
use spac.Hash.Learning.{process_metadata_learns}
use spac.Switch.HashStage.{only_port}
use spac.Hash.Ports.{IsInRange, IsResolved, process_metadata-IsResolved}
use spac.Hash.MultiBank as Multi_bank
use spac.Hash.MultiBank.Loops as Loops
use spac.Hash.MultiBank.Range as Range
use spac.Tests.{to_port}

-- Two ports, no route and nothing learned.
abbrev table : FullLookupTable
table = init 2 []

table-IsInRange : IsInRange table
unfolding init route lookup learned
table-IsInRange = record { some_port = omega arith; routes = λ a. tt; entries = λ a. tt }

process_metadata-IsResolved_example :
    All (IsResolved 2) (process_metadata table (none ∷ some (to_port 0) ∷ [])).0
    × IsInRange (process_metadata table (none ∷ some (to_port 0) ∷ [])).1
unfolding init
process_metadata-IsResolved_example =
    process_metadata-IsResolved table (none ∷ some (to_port 0) ∷ []) (omega arith) table-IsInRange

-- The answer to a packet from address 3.
abbrev answer : Metadata
answer = record (to_port 0) { src_addr = 5; dst_addr = pos 3 }

process_metadata_learns_example :
    get_elem?
      (process_metadata
        (process_metadata table (only_port 2 1 (to_port 0))).1
        (only_port 2 0 answer)).0
      0
    ≡ some (some (record answer { dst_port = pos 1; broadcast = false }))
unfolding init route lookup
process_metadata_learns_example =
    process_metadata_learns table 2 1 0 (to_port 0) answer (omega arith) (omega arith) refl refl
      refl refl (λ e. absurd (omega (arith, e)))

abbrev banks : Multi_bank.MultiBankHash
banks = Multi_bank.init 2 7

banks-IsInRange : Loops.IsInRange 2 banks
unfolding Multi_bank.init lookup
banks-IsInRange = record {
  ports = refl;
  some_port = omega arith;
  entries = λ bank key. tt;
  save_at = λ bank. omega arith;
  read_at = λ bank. omega arith;
}

process_metadata-IsInRange_example :
    All (IsResolved 2) (Multi_bank.process_metadata banks (none ∷ some (to_port 0) ∷ [])).0
    × Loops.IsInRange 2 (Multi_bank.process_metadata banks (none ∷ some (to_port 0) ∷ [])).1
process_metadata-IsInRange_example =
    Range.process_metadata-IsInRange 2 banks (none ∷ some (to_port 0) ∷ []) refl banks-IsInRange
