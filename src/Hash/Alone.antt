-- ===== src/Hash/Alone.antt =====
-- hash_engine.py: what `FullLookupTable` does with the list that the switch passes for one packet.
use spac.Base.{
  ℕ, zero, suc, ◌+◌, ◌<◌, ◌≤◌, ◌≡◌, refl, ap, sym, subst, ◌∙◌, inl, inr, true, false, List, [], ◌∷◌,
  ◌++◌, Option, none, some, ◌==◌, if◌then◌else◌, length, length-append, get_elem?, range,
  Bool-cases, arith,
}
use mathlib.Core.List.{map-append}
use spac.Config.Latency.{estimate_hash_ii}
use spac.Packet.{Metadata}
use spac.Hash.{any_metadata}
use spac.Hash.FullLookup.{
  FullLookupTable, learn, resolve, process_from, process_now, process_metadata,
}
use spac.Switch.HashStage.{only_port}

-- The loop over a list with one entry more.
length-process_from :
    (ms : List (Option Metadata)) (t : FullLookupTable) (start : ℕ)
    → length (process_from t start ms).0 ≡ length ms
unfolding process_from
length-process_from [] t start = refl
length-process_from (none ∷ ms) t start = ap suc (length-process_from ms t (start + 1))
length-process_from (some m ∷ ms) t start =
    ap suc (length-process_from ms (learn t start m) (start + 1))

process_from-append :
    (ms : List (Option Metadata)) (t : FullLookupTable) (start : ℕ) (x : Option Metadata)
    → let r = process_from t start ms in
      process_from t start (ms ++ x ∷ []) ≡ (
        r.0 ++ (process_from r.1 (start + length ms) (x ∷ [])).0,
        (process_from r.1 (start + length ms) (x ∷ [])).1,
      )
unfolding process_from
process_from-append [] t start x =
    let z : start ≡ start + 0 = omega arith in ap (λ k. process_from t k (x ∷ [])) z
process_from-append (none ∷ ms) t start x =
    let z : start + 1 + length ms ≡ start + suc (length ms) = omega arith in
    rw (process_from-append ms t (start + 1) x, z) refl
process_from-append (some m ∷ ms) t start x =
    let z : start + 1 + length ms ≡ start + suc (length ms) = omega arith in
    rw (process_from-append ms (learn t start m) (start + 1) x, z) refl

-- The switch passes a list with an entry for each port, the metadata at its port and None elsewhere.
abbrev cell : ℕ → Metadata → ℕ → Option Metadata
cell port m p = if p == port then some m else none

only_port-suc :
    (n port : ℕ) (m : Metadata)
    → only_port (suc n) port m ≡ only_port n port m ++ cell port m n ∷ []
unfolding only_port
only_port-suc n port m = map-append (cell port m) (range n) (n ∷ [])

length-only_port : (n port : ℕ) (m : Metadata) → length (only_port n port m) ≡ n
unfolding only_port
length-only_port zero port m = refl
length-only_port (suc n) port m = omega (
  arith,
  ap length (only_port-suc n port m),
  length-append (only_port n port m) (cell port m n ∷ []),
  length-only_port n port m,
)

any-append_left :
    (xs ys : List (Option Metadata)) → any_metadata xs ≡ true → any_metadata (xs ++ ys) ≡ true
unfolding any_metadata
any-append_left [] ys h = absurd (cc)
any-append_left (none ∷ xs) ys h = any-append_left xs ys h
any-append_left (some m ∷ xs) ys h = refl

any-append_some :
    (xs : List (Option Metadata)) (m : Metadata) → any_metadata (xs ++ some m ∷ []) ≡ true
unfolding any_metadata
any-append_some [] m = refl
any-append_some (none ∷ xs) m = any-append_some xs m
any-append_some (some x ∷ xs) m = refl

any-only_port : (n port : ℕ) (m : Metadata) → port < n → any_metadata (only_port n port m) ≡ true
any-only_port zero port m h = absurd (omega arith)
any-only_port (suc n) port m h = elim (Bool-cases (n == port)) [
  | inl e ↦ rw (only_port-suc n port m, e) (any-append_some (only_port n port m) m)
  | inr e ↦ rw (only_port-suc n port m) (
      any-append_left (only_port n port m) (cell port m n ∷ [])
        (any-only_port n port m (ground arith)))
]

get_elem?-append_left {ℓ} :
    {A : Type ℓ} (xs ys : List A) (i : ℕ) → i < length xs → get_elem? (xs ++ ys) i ≡ get_elem? xs i
get_elem?-append_left [] ys i h = absurd (omega arith)
get_elem?-append_left (x ∷ xs) ys zero h = refl
get_elem?-append_left (x ∷ xs) ys (suc i) h = get_elem?-append_left xs ys i (omega arith)

get_elem?-append_last {ℓ} :
    {A : Type ℓ} (xs : List A) (x : A) (i : ℕ) → length xs ≡ i → get_elem? (xs ++ x ∷ []) i ≡ some x
get_elem?-append_last [] x i h = subst (λ k. get_elem? (x ∷ []) k ≡ some x) h refl
get_elem?-append_last (y ∷ xs) x zero h = absurd (omega arith)
get_elem?-append_last (y ∷ xs) x (suc i) h = get_elem?-append_last xs x i (omega arith)

-- The loop leaves the table alone up to the port, and takes the packet there.
process_from-before :
    (n port : ℕ) (t : FullLookupTable) (m : Metadata)
    → n ≤ port
    → (process_from t 0 (only_port n port m)).1 ≡ t
unfolding process_from only_port
process_from-before zero port t m h = refl
process_from-before (suc n) port t m h =
    let other : (n == port) ≡ false = ground arith in
    rw (only_port-suc n port m, other, process_from-append (only_port n port m) t 0 none)
      (process_from-before n port t m (omega arith))

process_from-alone :
    (n port : ℕ) (t : FullLookupTable) (m : Metadata)
    → port < n
    → (get_elem? (process_from t 0 (only_port n port m)).0 port
        ≡ some (some (resolve (learn t port m) m)))
      × ((process_from t 0 (only_port n port m)).1 ≡ learn t port m)
unfolding process_from
process_from-alone zero port t m h = absurd (omega arith)
process_from-alone (suc n) port t m h =
    let xs = only_port n port m in
    let r = process_from t 0 xs in
    let size : length r.0 ≡ n = length-process_from xs t 0 ∙ length-only_port n port m in
    elim (Bool-cases (n == port)) [
      | inl e ↦
          let same : n ≡ port = ground arith in
          let at : 0 + length xs ≡ port = omega (arith, length-only_port n port m) in
          rw
            (
              only_port-suc n port m,
              e,
              process_from-append xs t 0 (some m),
              process_from-before n port t m (omega (arith, same)),
              at,
            )
            (get_elem?-append_last r.0 (some (resolve (learn t port m) m)) port (size ∙ same), refl)
      | inr e ↦
          let before = process_from-alone n port t m (ground arith) in
          rw (only_port-suc n port m, e, process_from-append xs t 0 none)
            (get_elem?-append_left r.0 (none ∷ []) port (ground (arith, size)) ∙ before.0, before.1)
    ]

-- What a packet that comes in alone meets, when the table waits for no cycle.
pub process_metadata-alone :
    (n port : ℕ) (t : FullLookupTable) (m : Metadata)
    → t.processing_cycles ≡ 0
    → port < n
    → (get_elem? (process_metadata t (only_port n port m)).0 port
        ≡ some (some (resolve (learn t port m) m)))
      × ((process_metadata t (only_port n port m)).1
          ≡ record (learn t port m) { processing_cycles = 0 })
unfolding process_metadata process_now estimate_hash_ii
process_metadata-alone n port t m z h =
    let r = process_from-alone n port t m h in
    rw (any-only_port n port m h) (
      subst
        (λ k.
          (get_elem? (process_now t k (only_port n port m)).0 port
            ≡ some (some (resolve (learn t port m) m)))
          × ((process_now t k (only_port n port m)).1
              ≡ record (learn t port m) { processing_cycles = 0 }))
        (sym z) (r.0, ap {A = FullLookupTable} (λ s. record s { processing_cycles = 0 }) r.1))
