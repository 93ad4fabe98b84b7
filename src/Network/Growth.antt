-- ===== src/Network/Growth.antt =====
-- simulation.py: what exploring a node adds to the search.
use spac.Base.{
  ℕ, ◌≡◌, refl, sym, ap, ◌∙◌, ◌⊎◌, inl, inr, Bool, true, false, List, [], ◌∷◌, ◌++◌, Option, none,
  some, ◌==◌, if◌then◌else◌, arith, Bool-cases, subst,
}
use spac.Network.{Node, Link, Hop, node_eq, visits, Search, neighbor_of, visit, explore}
use spac.Network.Rounds.{In, Leads, node_eq_refl, node_eq-same}

-- A table has a route to a host.
abbrev pub has_route : ℕ → List (ℕ × List Hop) → Bool
has_route d [] = false
has_route d ((a, path) ∷ table) = if a == d then true else has_route d table

visits_append_left :
    (n : Node) (ns ms : List Node) → visits n ns ≡ true → visits n (ns ++ ms) ≡ true
visits_append_left n [] ms h = absurd (cc)
visits_append_left n (m ∷ ns) ms h = ground (arith, visits_append_left n ns ms)

visits_append_one : (n : Node) (ns : List Node) → visits n (ns ++ n ∷ []) ≡ true
visits_append_one n [] = ground (arith, node_eq_refl n)
visits_append_one n (m ∷ ns) = ground (arith, visits_append_one n ns)

-- What exploring adds: nodes are visited that wait in the queue, and none is taken away.
pub record Grows (s t : Search) : Type 0 where
  pub kept : (n : Node) → visits n s.visited ≡ true → visits n t.visited ≡ true
  pub queued : (n : Node) → visits n s.queue ≡ true → visits n t.queue ≡ true
  pub added :
      (n : Node)
      → visits n t.visited ≡ true
      → (visits n s.visited ≡ true) ⊎ (visits n t.queue ≡ true)
  pub routes : t.routes ≡ s.routes

Grows-refl : (s : Search) → Grows s s
Grows-refl s = record { kept = λ n h. h; queued = λ n h. h; added = λ n h. inl h; routes = refl }

Grows-trans : (r s t : Search) → Grows r s → Grows s t → Grows r t
Grows-trans r s t g h = record {
  kept = λ n k. h.kept n (g.kept n k);
  queued = λ n k. h.queued n (g.queued n k);
  added = λ n k. elim (h.added n k) [
    | inr q ↦ inr q
    | inl v ↦ elim (g.added n v) [ inl u ↦ inl u | inr q ↦ inr (h.queued n q) ]
  ];
  routes = h.routes ∙ g.routes;
}

visit-Grows : (n : Node) (o : Option (Node × ℕ × ℕ)) (s : Search) → Grows s (visit n o s)
unfolding visit
visit-Grows n none s = Grows-refl s
visit-Grows n (some (m, p, q)) s =
    let t : Search = record s {
      visited = m ∷ s.visited;
      parent_map = (m, some (record { node = n; p_port = p; c_port = q })) ∷ s.parent_map;
      queue = s.queue ++ m ∷ [];
    } in
    let new : Grows s t = record {
      kept = λ x h. ground (arith, h);
      queued = λ x h. visits_append_left x s.queue (m ∷ []) h;
      added = λ x h. elim (Bool-cases (node_eq m x)) [
        | inl e ↦ inr (
            subst (λ y. visits y (s.queue ++ m ∷ []) ≡ true) (node_eq-same m x e)
              (visits_append_one m s.queue))
        | inr e ↦ inl (ground (arith, e, h))
      ];
      routes = refl;
    } in
    elim (visits m s.visited) as (λ b. Grows s (if b then s else t)) [
      | true ↦ Grows-refl s
      | false ↦ new
    ]

visit_covers :
    (n m : Node) (p q : ℕ) (s : Search) → visits m (visit n (some (m, p, q)) s).visited ≡ true
unfolding visit
visit_covers n m p q s = ground (arith, node_eq_refl m)

pub explore-Grows : (n : Node) (ls : List Link) (s : Search) → Grows s (explore n ls s)
unfolding explore
explore-Grows n [] s = Grows-refl s
explore-Grows n (l ∷ ls) s =
    let t = visit n (neighbor_of n l) s in
    Grows-trans s t (explore n ls t) (visit-Grows n (neighbor_of n l) s) (explore-Grows n ls t)

neighbor_of_first :
    (n : Node) (l : Link)
    → node_eq l.node_a n ≡ true
    → neighbor_of n l ≡ some (l.node_b, l.port_a, l.port_b)
unfolding neighbor_of
neighbor_of_first n l h = rw h refl

neighbor_of_second :
    (n : Node) (l : Link)
    → node_eq l.node_a n ≡ false
    → node_eq l.node_b n ≡ true
    → neighbor_of n l ≡ some (l.node_a, l.port_b, l.port_a)
unfolding neighbor_of
neighbor_of_second n l h k = rw (h, k) refl

-- A link from a node that has been visited leads to one that the body of the loop has seen.
link_covers :
    (n m : Node) (p q : ℕ) (l : Link) (s : Search)
    → Leads l n p m q
    → visits n s.visited ≡ true
    → visits m (visit n (neighbor_of n l) s).visited ≡ true
link_covers n m p q l s (inl a) v =
    let e : node_eq l.node_a n ≡ true = ap (λ x. node_eq x n) a.0 ∙ node_eq_refl n in
    subst (λ o. visits m (visit n o s).visited ≡ true) (sym (neighbor_of_first n l e))
      (subst (λ x. visits x (visit n (some (l.node_b, l.port_a, l.port_b)) s).visited ≡ true) a.2
        (visit_covers n l.node_b l.port_a l.port_b s))
link_covers n m p q l s (inr b) v = elim (Bool-cases (node_eq l.node_a n)) [
  | inl e ↦
      let same : n ≡ m = sym (node_eq-same l.node_a n e) ∙ b.2 in
      (visit-Grows n (neighbor_of n l) s).kept m (subst (λ x. visits x s.visited ≡ true) same v)
  | inr e ↦
      let f : node_eq l.node_b n ≡ true = ap (λ x. node_eq x n) b.0 ∙ node_eq_refl n in
      subst (λ o. visits m (visit n o s).visited ≡ true) (sym (neighbor_of_second n l e f))
        (subst (λ x. visits x (visit n (some (l.node_a, l.port_b, l.port_a)) s).visited ≡ true) b.2
          (visit_covers n l.node_a l.port_b l.port_a s))
]

pub explore_covers :
    (n m : Node) (p q : ℕ) (l : Link) (ls : List Link) (s : Search)
    → In l ls
    → Leads l n p m q
    → visits n s.visited ≡ true
    → visits m (explore n ls s).visited ≡ true
unfolding explore
explore_covers n m p q l [] s i h v = absurd i
explore_covers n m p q l (k ∷ ks) s (inl e) h v =
    let t = visit n (neighbor_of n k) s in
    (explore-Grows n ks t).kept m
      (link_covers n m p q k s (subst (λ x. Leads x n p m q) (sym e) h) v)
explore_covers n m p q l (k ∷ ks) s (inr i) h v =
    let t = visit n (neighbor_of n k) s in
    explore_covers n m p q l ks t i h ((visit-Grows n (neighbor_of n k) s).kept n v)

visits-append :
    (n : Node) (ns ms : List Node)
    → visits n (ns ++ ms) ≡ true
    → (visits n ns ≡ true) ⊎ (visits n ms ≡ true)
visits-append n [] ms h = inr h
visits-append n (m ∷ ns) ms h = elim (Bool-cases (node_eq m n)) [
  | inl e ↦ inl (ground (arith, e))
  | inr e ↦ elim (visits-append n ns ms (ground (arith, h, e))) [
    | inl k ↦ inl (ground (arith, k))
    | inr k ↦ inr k
  ]
]

-- The nodes that wait have been visited.
abbrev pub AreVisited : Search → Type 0
AreVisited s = (x : Node) → visits x s.queue ≡ true → visits x s.visited ≡ true

visit_waits :
    (n : Node) (o : Option (Node × ℕ × ℕ)) (s : Search) → AreVisited s → AreVisited (visit n o s)
unfolding visit
visit_waits n none s w = w
visit_waits n (some (m, p, q)) s w =
    let t : Search = record s {
      visited = m ∷ s.visited;
      parent_map = (m, some (record { node = n; p_port = p; c_port = q })) ∷ s.parent_map;
      queue = s.queue ++ m ∷ [];
    } in
    let new : AreVisited t = λ x k. elim (visits-append x s.queue (m ∷ []) k) [
      | inl a ↦ let u = w x a in ground (arith, u)
      | inr a ↦ ground (arith, a)
    ] in
    elim (visits m s.visited) as (λ b. AreVisited (if b then s else t)) [ true ↦ w | false ↦ new ]

pub explore_waits :
    (n : Node) (ls : List Link) (s : Search) → AreVisited s → AreVisited (explore n ls s)
unfolding explore
explore_waits n [] s w = w
explore_waits n (l ∷ ls) s w =
    explore_waits n ls (visit n (neighbor_of n l) s) (visit_waits n (neighbor_of n l) s w)
