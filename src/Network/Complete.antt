-- ===== src/Network/Complete.antt =====
-- simulation.py: `_build_routing_for_switch` finds every host that can be reached.
use spac.Base.{
  some-injective, ℕ, zero, suc, ◌+◌, ◌*◌, ◌≡◌, refl, sym, ap, ◌∙◌, ◌⊎◌, inl, inr, true, List, [],
  ◌∷◌, none, some, length, arith, All, Bool-cases, subst,
}
use spac.Network.{
  Node, switch, host, Link, Hop, node_eq, visits, Search, explore, take_node, reconstruct_path,
  search, build_routing_for_switch,
}
use spac.Network.Rounds.{In, Leads, node_eq_refl, node_eq-same}
use spac.Network.Routes.{IsRoute}
use spac.Network.Growth.{has_route, Grows, explore-Grows, explore_covers, explore_waits}

-- A node that has been taken from the queue: a host has a route, and the links of a switch lead to
-- nodes that have been visited.
abbrev IsTaken : List Link → Search → Node → Type 0
IsTaken links s (host d) = has_route d s.routes ≡ true
IsTaken links s (switch i) =
    (l : Link) (p : ℕ) (m : Node) (q : ℕ)
    → In l links
    → Leads l (switch i) p m q
    → visits m s.visited ≡ true

-- Every node that has been visited waits in the queue, or has been taken from it.
abbrev IsCovered : List Link → Search → Type 0
IsCovered links s =
    (n : Node) → visits n s.visited ≡ true → (visits n s.queue ≡ true) ⊎ IsTaken links s n

Grows-IsTaken :
    (links : List Link) (s t : Search) (n : Node)
    → Grows s t
    → IsTaken links s n
    → IsTaken links t n
Grows-IsTaken links s t (host d) g h = ap (has_route d) g.routes ∙ h
Grows-IsTaken links s t (switch i) g h = λ l p m q k a. g.kept m (h l p m q k a)

new_route-IsTaken :
    (links : List Link) (d : ℕ) (path : List Hop) (s : Search) (n : Node)
    → IsTaken links s n
    → IsTaken links (record s { routes = (d, path) ∷ s.routes }) n
new_route-IsTaken links d path s (host a) h = ground (arith, h)
new_route-IsTaken links d path s (switch i) h = h

-- The first node of the queue, one behind it, or one that was taken before.
IsTaken-or :
    (links : List Link) (s : Search) (n : Node) (queue : List Node) (x : Node)
    → s.queue ≡ n ∷ queue
    → (visits x s.queue ≡ true) ⊎ IsTaken links s x
    → (x ≡ n) ⊎ ((visits x queue ≡ true) ⊎ IsTaken links s x)
IsTaken-or links s n queue x e (inr w) = inr (inr w)
IsTaken-or links s n queue x e (inl q) = elim (Bool-cases (node_eq n x)) [
  | inl f ↦ inl (sym (node_eq-same n x f))
  | inr f ↦
      let k : visits x (n ∷ queue) ≡ true = subst (λ z. visits x z ≡ true) e q in
      inr (inl (ground (arith, k, f)))
]

-- A round visits what it puts into the queue, and forgets no node.
take_node_kept :
    (links : List Link) (src n : Node) (s : Search)
    → ((x : Node) → visits x s.queue ≡ true → visits x s.visited ≡ true)
    → let t = take_node links src n s in
      ((x : Node) → visits x t.queue ≡ true → visits x t.visited ≡ true)
      × ((x : Node) → visits x s.visited ≡ true → visits x t.visited ≡ true)
unfolding take_node
take_node_kept links src (host d) s w = (w, λ x k. k)
take_node_kept links src (switch i) s w =
    (explore_waits (switch i) links s w, (explore-Grows (switch i) links s).kept)

-- What a round does to the node that it takes, to those taken before, and to the nodes visited.
take_node-IsCovered :
    (links : List Link) (src n : Node) (s : Search)
    → visits n s.visited ≡ true
    → ((x : Node)
        → visits x s.visited ≡ true
        → (x ≡ n) ⊎ ((visits x s.queue ≡ true) ⊎ IsTaken links s x))
    → IsCovered links (take_node links src n s)
unfolding take_node
take_node-IsCovered links src (host d) s v h x k =
    let path = reconstruct_path (host d) src s.parent_map in
    let new : has_route d ((d, path) ∷ s.routes) ≡ true = ground arith in
    elim (h x k) [
      | inl e ↦ inr (subst (IsTaken links (record s { routes = (d, path) ∷ s.routes })) (sym e) new)
      | inr (inl q) ↦ inl q
      | inr (inr w) ↦ inr (new_route-IsTaken links d path s x w)
    ]
take_node-IsCovered links src (switch i) s v h x k =
    let t = explore (switch i) links s in
    let g = explore-Grows (switch i) links s in
    elim (g.added x k) [
      | inr q ↦ inl q
      | inl u ↦ elim (h x u) [
        | inl e ↦ inr (
            subst (IsTaken links t) (sym e)
              (λ l p m q j a. explore_covers (switch i) m p q l links s j a v))
        | inr (inl q) ↦ inl (g.queued x q)
        | inr (inr w) ↦ inr (Grows-IsTaken links s t x g w)
      ]
    ]

search-IsCovered :
    (rounds : ℕ) (links : List Link) (src : Node) (s : Search) (queue : List Node)
    (table : List (ℕ × List Hop))
    → s.queue ≡ queue
    → ((n : Node) → visits n s.queue ≡ true → visits n s.visited ≡ true)
    → IsCovered links s
    → visits src s.visited ≡ true
    → search rounds links src s queue ≡ some table
    → (t : Search) × (t.routes ≡ table)
      × (t.queue ≡ [])
      × (visits src t.visited ≡ true)
      × IsCovered links t
unfolding search
search-IsCovered rounds links src s [] table e w c v h =
    (s, some-injective s.routes table h, e, v, c)
search-IsCovered zero links src s (n ∷ queue) table e w c v h = absurd (cc)
search-IsCovered (suc k) links src s (n ∷ queue) table e w c v h =
    let r = record s { queue = queue } in
    let t = take_node links src n r in
    let at : visits n s.visited ≡ true =
      w n (subst (λ q. visits n q ≡ true) (sym e) (ground (arith, node_eq_refl n))) in
    let waits = λ (x : Node) (q : visits x queue ≡ true).
      w x (subst (λ z. visits x z ≡ true) (sym e) (ground (arith, q))) in
    let covered =
      take_node-IsCovered links src n r at (λ x u. IsTaken-or links s n queue x e (c x u)) in
    let kept = take_node_kept links src n r waits in
    search-IsCovered k links src t t.queue table refl kept.0 covered (kept.1 src v) h

abbrev pub IsSwitch : Node → Type 0
IsSwitch (switch i) = Unit {0}
IsSwitch (host d) = ⊥

IsTaken-visited :
    (links : List Link) (s : Search) (n m : Node) (p q : ℕ) (l : Link)
    → IsSwitch n
    → IsTaken links s n
    → In l links
    → Leads l n p m q
    → visits m s.visited ≡ true
IsTaken-visited links s (switch i) m p q l u h k a = h l p m q k a
IsTaken-visited links s (host d) m p q l u h k a = absurd u

IsTaken-only :
    (links : List Link) (s : Search) (n : Node)
    → s.queue ≡ []
    → IsCovered links s
    → visits n s.visited ≡ true
    → IsTaken links s n
IsTaken-only links s n e c v = elim (c n v) [ inl q ↦ absurd (cc (ap (visits n) e, q)) | inr w ↦ w ]

route-has_route :
    (links : List Link) (s : Search) (d : ℕ) (a : Node) (path : List Hop)
    → s.queue ≡ []
    → IsCovered links s
    → visits a s.visited ≡ true
    → IsRoute links a path (host d)
    → All (λ h. IsSwitch h.from_node) path
    → has_route d s.routes ≡ true
route-has_route links s d a [] e c v r u = subst (IsTaken links s) r (IsTaken-only links s a e c v)
route-has_route links s d a (h ∷ hs) e c v r u =
    let taken =
      IsTaken-only links s h.from_node e c (subst (λ x. visits x s.visited ≡ true) (sym r.0) v) in
    let hop = r.1 in
    route-has_route links s d h.to_node hs e c
      (IsTaken-visited links s h.from_node h.to_node h.p_port h.c_port hop.0 u.0 taken hop.1 hop.2)
      r.2 u.1

-- Every host that some chain of links reaches from the switch, by switches only, has a route in the
-- switch's table.
pub build_routing_for_switch-has_route :
    (links : List Link) (i d : ℕ) (table : List (ℕ × List Hop)) (path : List Hop)
    → build_routing_for_switch links i ≡ some table
    → IsRoute links (switch i) path (host d)
    → All (λ h. IsSwitch h.from_node) path
    → has_route d table ≡ true
unfolding build_routing_for_switch
build_routing_for_switch-has_route links i d table path h r u =
    let s : Search = record {
      visited = switch i ∷ [];
      queue = switch i ∷ [];
      parent_map = (switch i, none) ∷ [];
      routes = [];
    } in
    let at : visits (switch i) s.visited ≡ true = ground (arith, node_eq_refl (switch i)) in
    let t =
      search-IsCovered (2 * length links + 1) links (switch i) s (switch i ∷ []) table refl
        (λ n k. k) (λ n k. inl k) at h in
    ap (has_route d) (sym t.1) ∙ route-has_route links t.0 d (switch i) path t.2 t.4 t.3 r u
