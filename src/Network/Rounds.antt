-- ===== src/Network/Rounds.antt =====
-- simulation.py: the search of `_build_routing_for_switch` ends.
use spac.Base.{
  ℕ, zero, suc, ◌+◌, ◌*◌, ◌≤◌, ◌≡◌, refl, sym, ap, ◌∙◌, ◌⊎◌, inl, inr, true, false, List, [], ◌∷◌,
  Option, none, some, if◌then◌else◌, length, length-append, arith, All, All-map, Bool-cases, subst,
}
use spac.Network.{
  Node, switch, host, Link, Hop, node_eq, visits, Search, neighbor_of, visit, explore, take_node,
  search, build_routing_for_switch,
}

-- A link is one of a list.
abbrev pub In : Link → List Link → Type 0
In l [] = ⊥
In l (k ∷ ks) = (k ≡ l) ⊎ In l ks

-- One for an end that has not been visited.
abbrev open_end : Node → List Node → ℕ
open_end n visited = if visits n visited then 0 else 1

-- The ends of links that have not been visited.
abbrev open_ends : List Link → List Node → ℕ
open_ends [] visited = 0
open_ends (l ∷ ls) visited =
    open_end l.node_a visited + open_end l.node_b visited + open_ends ls visited

pub node_eq_refl : (n : Node) → node_eq n n ≡ true
node_eq_refl (switch i) = ground arith
node_eq_refl (host i) = ground arith

pub node_eq-same : (a b : Node) → node_eq a b ≡ true → a ≡ b
node_eq-same (switch i) (switch j) h = let e : i ≡ j = ground arith in ap switch e
node_eq-same (host i) (host j) h = let e : i ≡ j = ground arith in ap host e
node_eq-same (switch i) (host j) h = absurd (cc)
node_eq-same (host i) (switch j) h = absurd (cc)

-- One more node visited: no end opens, and its own ends close.
open_end-visited :
    (n m : Node) (visited : List Node) → open_end n (m ∷ visited) ≤ open_end n visited
open_end-visited n m visited = ground arith

open_ends-visited :
    (m : Node) (ls : List Link) (visited : List Node)
    → open_ends ls (m ∷ visited) ≤ open_ends ls visited
open_ends-visited m [] visited = omega arith
open_ends-visited m (l ∷ ls) visited = omega (
  arith,
  open_ends-visited m ls visited,
  open_end-visited l.node_a m visited,
  open_end-visited l.node_b m visited,
)

-- A node is an end of a link.
abbrev IsEnd : Node → Link → Type 0
IsEnd m l = (l.node_a ≡ m) ⊎ (l.node_b ≡ m)

open_end-closed :
    (n m : Node) (visited : List Node)
    → n ≡ m
    → visits m visited ≡ false
    → suc (open_end n (m ∷ visited)) ≤ open_end n visited
open_end-closed n m visited e h =
    subst (λ x. suc (open_end x (m ∷ visited)) ≤ open_end x visited) (sym e)
      (ground (arith, node_eq_refl m, h))

open_ends-closed :
    (m : Node) (l : Link) (ls : List Link) (visited : List Node)
    → In l ls
    → IsEnd m l
    → visits m visited ≡ false
    → suc (open_ends ls (m ∷ visited)) ≤ open_ends ls visited
open_ends-closed m l [] visited i e h = absurd i
open_ends-closed m l (k ∷ ks) visited (inl i) e h = elim e [
  | inl a ↦ omega (
    arith,
    open_ends-visited m ks visited,
    open_end-visited k.node_b m visited,
    open_end-closed k.node_a m visited (ap Link.node_a i ∙ a) h,
  )
  | inr b ↦ omega (
    arith,
    open_ends-visited m ks visited,
    open_end-visited k.node_a m visited,
    open_end-closed k.node_b m visited (ap Link.node_b i ∙ b) h,
  )
]
open_ends-closed m l (k ∷ ks) visited (inr i) e h = omega (
  arith,
  open_ends-closed m l ks visited i e h,
  open_end-visited k.node_a m visited,
  open_end-visited k.node_b m visited,
)

-- What is left to do: the nodes in the queue, and the ends that are open.
abbrev left : List Link → Search → ℕ
left links s = length s.queue + open_ends links s.visited

-- A link leads from a node, by a port, to another one.
abbrev pub Leads : Link → Node → ℕ → Node → ℕ → Type 0
Leads l n p m q =
    ((l.node_a ≡ n) × (l.port_a ≡ p) × (l.node_b ≡ m) × (l.port_b ≡ q))
    ⊎ ((l.node_b ≡ n) × (l.port_b ≡ p) × (l.node_a ≡ m) × (l.port_a ≡ q))

pub neighbor_of-Leads :
    (n m : Node) (p q : ℕ) (l : Link) → neighbor_of n l ≡ some (m, p, q) → Leads l n p m q
unfolding neighbor_of
neighbor_of-Leads n m p q l h = elim (Bool-cases (node_eq l.node_a n)) [
  | inl e ↦
      inl (
        node_eq-same l.node_a n e,
        ground (arith, e, h),
        ground (arith, e, h),
        ground (arith, e, h),
      )
  | inr e ↦ elim (Bool-cases (node_eq l.node_b n)) [
    | inl f ↦ inr (
      node_eq-same l.node_b n f,
      ground (arith, e, f, h),
      ground (arith, e, f, h),
      ground (arith, e, f, h),
    )
    | inr f ↦ absurd (ground (arith, e, f, h))
  ]
]

Leads-IsEnd : (l : Link) (n m : Node) (p q : ℕ) → Leads l n p m q → IsEnd m l
Leads-IsEnd l n m p q (inl a) = inr a.2
Leads-IsEnd l n m p q (inr b) = inl b.2

visit-left :
    (links : List Link) (n : Node) (l : Link) (o : Option (Node × ℕ × ℕ)) (s : Search)
    → In l links
    → neighbor_of n l ≡ o
    → left links (visit n o s) ≤ left links s
unfolding visit
visit-left links n l none s i h = omega arith
visit-left links n l (some (m, p, q)) s i h = elim (Bool-cases (visits m s.visited)) [
  | inl e ↦ ground (arith, e)
  | inr e ↦
      let c =
        open_ends-closed m l links s.visited i
          (Leads-IsEnd l n m p q (neighbor_of-Leads n m p q l h)) e in
      ground (arith, e, c, length-append s.queue (m ∷ []))
]

explore-left :
    (links : List Link) (n : Node) (ls : List Link) (s : Search)
    → All (λ l. In l links) ls
    → left links (explore n ls s) ≤ left links s
unfolding explore
explore-left links n [] s i = omega arith
explore-left links n (l ∷ ls) s i = omega (
  arith,
  visit-left links n l (neighbor_of n l) s i.0 refl,
  explore-left links n ls (visit n (neighbor_of n l) s) i.1,
)

pub All-In : (links : List Link) → All (λ l. In l links) links
All-In [] = tt
All-In (l ∷ ls) =
    (inl refl, All-map (λ k. In k ls) (λ k. In k (l ∷ ls)) (λ k i. inr i) ls (All-In ls))

take_node-left :
    (links : List Link) (src n : Node) (s : Search)
    → left links (take_node links src n s) ≤ left links s
unfolding take_node
take_node-left links src (host d) s = omega arith
take_node-left links src (switch i) s = explore-left links (switch i) links s (All-In links)

search-total :
    (rounds : ℕ) (links : List Link) (src : Node) (s : Search) (queue : List Node)
    → s.queue ≡ queue
    → left links s ≤ rounds
    → (table : List (ℕ × List Hop)) × (search rounds links src s queue ≡ some table)
unfolding search
search-total rounds links src s [] e h = (s.routes, refl)
search-total zero links src s (n ∷ queue) e h = absurd (omega (arith, h, ap length e))
search-total (suc k) links src s (n ∷ queue) e h =
    let r = record s { queue = queue } in
    let t = take_node links src n r in
    search-total k links src t t.queue refl
      (omega (arith, take_node-left links src n r, h, ap length e))

open_ends-bound : (ls : List Link) (visited : List Node) → open_ends ls visited ≤ 2 * length ls
open_ends-bound [] visited = omega arith
open_ends-bound (l ∷ ls) visited = ground (arith, open_ends-bound ls visited)

-- The search for the routes of a switch ends, whatever the links: the rounds suffice.
pub build_routing_for_switch-total :
    (links : List Link) (i : ℕ)
    → (table : List (ℕ × List Hop)) × (build_routing_for_switch links i ≡ some table)
unfolding build_routing_for_switch
build_routing_for_switch-total links i =
    search-total (2 * length links + 1) links (switch i) _ (switch i ∷ []) refl
      (omega (arith, open_ends-bound links (switch i ∷ [])))
