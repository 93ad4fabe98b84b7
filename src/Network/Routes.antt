-- ===== src/Network/Routes.antt =====
-- simulation.py: the routes that `_build_routing_for_switch` records are chains of links.
use spac.Base.{
  some-injective, ℕ, zero, suc, ◌+◌, ◌*◌, ◌≤◌, ◌≡◌, refl, sym, ap, ◌∙◌, inl, inr, true, false, List,
  [], ◌∷◌, ◌++◌, map, Option, none, some, if◌then◌else◌, length, arith, All, All-map, All-append,
  Bool-cases, subst,
}
use spac.Network.{
  Node, switch, host, Link, Hop, Parent, node_eq, visits, parent_of, walk_back, reconstruct_path,
  Search, neighbor_of, visit, explore, take_node, search, build_routing_for_switch,
}
use spac.Network.Rounds.{
  build_routing_for_switch-total, In, All-In, Leads, neighbor_of-Leads, node_eq_refl, node_eq-same,
}

-- A hop goes along a link.
abbrev pub IsHop : List Link → Hop → Type 0
IsHop links h = (l : Link) × In l links × Leads l h.from_node h.p_port h.to_node h.c_port

-- Hops that lead from one node to another, each along a link.
abbrev pub IsRoute : List Link → Node → List Hop → Node → Type 0
IsRoute links a [] b = a ≡ b
IsRoute links a (h ∷ hs) b = (h.from_node ≡ a) × IsHop links h × IsRoute links h.to_node hs b

abbrev pub keys : List (Node × Option Parent) → List Node
keys = map (λ e. e.0)

-- A map of parents in which each node's parent came before it, by a link.
abbrev IsTree : List Link → Node → List (Node × Option Parent) → Type 0
IsTree links src [] = ⊥
IsTree links src ((n, none) ∷ m) = (n ≡ src) × (m ≡ [])
IsTree links src ((n, some p) ∷ m) =
    (visits n (keys m) ≡ false)
    × (visits p.node (keys m) ≡ true)
    × IsHop links (record { from_node = p.node; p_port = p.p_port; to_node = n; c_port = p.c_port })
    × IsTree links src m

-- In one map the nodes of another have the same parents.
abbrev Extends : List (Node × Option Parent) → List (Node × Option Parent) → Type 0
Extends all m = (n : Node) → visits n (keys m) ≡ true → parent_of all n ≡ parent_of m n

Extends-rest :
    (all m : List (Node × Option Parent)) (n : Node) (p : Option Parent)
    → Extends all ((n, p) ∷ m)
    → visits n (keys m) ≡ false
    → Extends all m
unfolding parent_of
Extends-rest all m n p e h x v = elim (Bool-cases (node_eq n x)) [
  | inl f ↦ let same = node_eq-same n x f in absurd (cc (same, h, v))
  | inr f ↦ e x (ground (arith, f, v)) ∙ ap (λ b. if b then some p else parent_of m x) f
]

first_parent :
    (q n : Node) (p : Option Parent) (m : List (Node × Option Parent))
    → node_eq q n ≡ true
    → parent_of ((q, p) ∷ m) n ≡ some p
unfolding parent_of
first_parent q n p m g = rw g refl

abbrev hop_of : Parent → Node → Hop
hop_of p n = record { from_node = p.node; p_port = p.p_port; to_node = n; c_port = p.c_port }

walk_back_stops :
    (rounds : ℕ) (m : List (Node × Option Parent)) (src n : Node) (path : List Hop)
    → node_eq n src ≡ true
    → walk_back rounds m src n path ≡ (path, n)
unfolding walk_back
walk_back_stops zero m src n path h = refl
walk_back_stops (suc k) m src n path h = rw h refl

walk_back_goes_on :
    (k : ℕ) (m : List (Node × Option Parent)) (src n : Node) (path : List Hop) (p : Parent)
    → node_eq n src ≡ false
    → parent_of m n ≡ some (some p)
    → walk_back (suc k) m src n path ≡ walk_back k m src p.node (hop_of p n ∷ path)
unfolding walk_back
walk_back_goes_on k m src n path p h e = rw (h, e) refl

-- A walk that has come to the start, along a route.
abbrev IsBack : List Link → Node → Node → List Hop × Node → Type 0
IsBack links src dst r = (r.1 ≡ src) × IsRoute links src r.0 dst

stop-IsBack :
    (rounds : ℕ) (links : List Link) (m : List (Node × Option Parent)) (src n dst : Node)
    (path : List Hop)
    → n ≡ src
    → IsRoute links n path dst
    → IsBack links src dst (walk_back rounds m src n path)
stop-IsBack rounds links m src n dst path e r =
    let h : node_eq n src ≡ true = ap (node_eq n) (sym e) ∙ node_eq_refl n in
    subst (IsBack links src dst) (sym (walk_back_stops rounds m src n path h))
      (e, subst (λ x. IsRoute links x path dst) e r)

-- The walk from a node of the tree ends at its root, and puts a route in front of the path.
walk_back-IsBack :
    (rounds : ℕ) (links : List Link) (all m : List (Node × Option Parent)) (src n dst : Node)
    (path : List Hop)
    → IsTree links src m
    → Extends all m
    → visits n (keys m) ≡ true
    → length m ≤ rounds
    → IsRoute links n path dst
    → IsBack links src dst (walk_back rounds all src n path)
walk_back-IsBack rounds links all [] src n dst path t e v l r = absurd t
walk_back-IsBack zero links all (x ∷ m) src n dst path t e v l r = absurd (omega (arith, l))
walk_back-IsBack (suc k) links all ((q, none) ∷ m) src n dst path t e v l r =
    let nothing : visits n (keys m) ≡ false = ap (λ x. visits n (keys x)) t.1 in
    let same : n ≡ src = sym (node_eq-same q n (ground (arith, v, nothing))) ∙ t.0 in
    stop-IsBack (suc k) links all src n dst path same r
walk_back-IsBack (suc k) links all ((q, some p) ∷ m) src n dst path t e v l r =
    let e' = Extends-rest all m q (some p) e t.0 in
    elim (Bool-cases (node_eq n src)) [
      | inl f ↦ stop-IsBack (suc k) links all src n dst path (node_eq-same n src f) r
      | inr f ↦ elim (Bool-cases (node_eq q n)) [
        | inl g ↦
            let first : parent_of ((q, some p) ∷ m) n ≡ some (some p) =
              first_parent q n (some p) m g in
            subst (IsBack links src dst)
              (sym (walk_back_goes_on k all src n path p f (e n v ∙ first)))
              (walk_back-IsBack k links all m src p.node dst (hop_of p n ∷ path) t.3 e' t.1
                (omega (arith, l))
                (refl, subst (λ x. IsHop links (hop_of p x)) (node_eq-same q n g) t.2, r))
        | inr g ↦
            walk_back-IsBack (suc k) links all m src n dst path t.3 e' (ground (arith, g, v))
              (omega (arith, l)) r
      ]
    ]

reconstruct_path-IsRoute :
    (links : List Link) (m : List (Node × Option Parent)) (src dst : Node)
    → IsTree links src m
    → visits dst (keys m) ≡ true
    → IsRoute links src (reconstruct_path dst src m) dst
unfolding reconstruct_path
reconstruct_path-IsRoute links m src dst t v =
    let k =
      walk_back-IsBack (length m) links m m src dst dst [] t (λ n h. refl) v (omega arith) refl in
    let r = walk_back (length m) m src dst [] in
    let h : node_eq r.1 src ≡ true = ap (node_eq r.1) (sym k.0) ∙ node_eq_refl r.1 in
    subst (λ b. IsRoute links src (if b then r.0 else []) dst) (sym h) k.1

-- The nodes of a list are in a map.
abbrev AreKeys : List (Node × Option Parent) → List Node → Type 0
AreKeys m ns = All (λ n. visits n (keys m) ≡ true) ns

-- The search has a tree of the nodes it has visited, and routes for the hosts it has taken.
record IsSearch (links : List Link) (src : Node) (s : Search) : Type 0 where
  tree : IsTree links src s.parent_map
  same : s.visited ≡ keys s.parent_map
  waits : AreKeys s.parent_map s.queue
  found : All (λ (r : ℕ × List Hop). IsRoute links src r.1 (host r.0)) s.routes

visits_more : (n m : Node) (ns : List Node) → visits n ns ≡ true → visits n (m ∷ ns) ≡ true
visits_more n m ns h = ground (arith, h)

visit-IsSearch :
    (links : List Link) (src n : Node) (l : Link) (o : Option (Node × ℕ × ℕ)) (s : Search)
    → In l links
    → neighbor_of n l ≡ o
    → IsSearch links src s
    → visits n (keys s.parent_map) ≡ true
    → IsSearch links src (visit n o s) × (visits n (keys (visit n o s).parent_map) ≡ true)
unfolding visit
visit-IsSearch links src n l none s i h w v = (w, v)
visit-IsSearch links src n l (some (m, p, q)) s i h w v =
    let t : Search = record s {
      visited = m ∷ s.visited;
      parent_map = (m, some (record { node = n; p_port = p; c_port = q })) ∷ s.parent_map;
      queue = s.queue ++ m ∷ [];
    } in
    let new : visits m s.visited ≡ false
        → IsSearch links src t × (visits n (keys t.parent_map) ≡ true) =
      λ e. (
        record {
          tree = (ap (visits m) (sym w.same) ∙ e, v, (l, i, neighbor_of-Leads n m p q l h), w.tree);
          same = ap (λ ns. m ∷ ns) w.same;
          waits =
              All-append (λ x. visits x (keys t.parent_map) ≡ true) s.queue (m ∷ [])
                (All-map (λ x. visits x (keys s.parent_map) ≡ true)
                  (λ x. visits x (keys t.parent_map) ≡ true)
                  (λ x k. visits_more x m (keys s.parent_map) k) s.queue w.waits)
                (ground (arith, node_eq_refl m), tt);
          found = w.found;
        },
        ground (arith, v),
      ) in
    elim (Bool-cases (visits m s.visited)) [
      | inl e ↦
          subst
            (λ b.
              IsSearch links src (if b then s else t)
              × (visits n (keys (if b then s else t).parent_map) ≡ true))
            (sym e) (w, v)
      | inr e ↦
          subst
            (λ b.
              IsSearch links src (if b then s else t)
              × (visits n (keys (if b then s else t).parent_map) ≡ true))
            (sym e) (new e)
    ]

explore-IsSearch :
    (links : List Link) (src n : Node) (ls : List Link) (s : Search)
    → All (λ l. In l links) ls
    → IsSearch links src s
    → visits n (keys s.parent_map) ≡ true
    → IsSearch links src (explore n ls s)
unfolding explore
explore-IsSearch links src n [] s i w v = w
explore-IsSearch links src n (l ∷ ls) s i w v =
    let k = visit-IsSearch links src n l (neighbor_of n l) s i.0 refl w v in
    explore-IsSearch links src n ls (visit n (neighbor_of n l) s) i.1 k.0 k.1

take_node-IsSearch :
    (links : List Link) (src n : Node) (s : Search)
    → IsSearch links src s
    → visits n (keys s.parent_map) ≡ true
    → IsSearch links src (take_node links src n s)
unfolding take_node
take_node-IsSearch links src (host d) s w v = record {
  tree = w.tree;
  same = w.same;
  waits = w.waits;
  found = (reconstruct_path-IsRoute links s.parent_map src (host d) w.tree v, w.found);
}
take_node-IsSearch links src (switch i) s w v =
    explore-IsSearch links src (switch i) links s (All-In links) w v

search-AreRoutes :
    (rounds : ℕ) (links : List Link) (src : Node) (s : Search) (queue : List Node)
    (table : List (ℕ × List Hop))
    → s.queue ≡ queue
    → IsSearch links src s
    → search rounds links src s queue ≡ some table
    → All (λ (r : ℕ × List Hop). IsRoute links src r.1 (host r.0)) table
unfolding search
search-AreRoutes rounds links src s [] table e w h =
    subst (All (λ (r : ℕ × List Hop). IsRoute links src r.1 (host r.0)))
      (some-injective s.routes table h) w.found
search-AreRoutes zero links src s (n ∷ queue) table e w h = absurd (cc)
search-AreRoutes (suc k) links src s (n ∷ queue) table e w h =
    let q = subst (AreKeys s.parent_map) e w.waits in
    let r = record s { queue = queue } in
    let t = take_node links src n r in
    let wr : IsSearch links src r = record {
      tree = w.tree;
      same = w.same;
      waits = q.1;
      found = w.found;
    } in
    search-AreRoutes k links src t t.queue table refl (take_node-IsSearch links src n r wr q.0) h

-- The search for the routes of a switch gives a table, whatever the links: its rounds suffice. Each
-- route in it is a chain of links, in either of their directions, that leads from the switch to the
-- host of that address.
pub build_routing_for_switch-IsRoute :
    (links : List Link) (i : ℕ)
    → (table : List (ℕ × List Hop)) × (build_routing_for_switch links i ≡ some table)
      × All (λ (r : ℕ × List Hop). IsRoute links (switch i) r.1 (host r.0)) table
unfolding build_routing_for_switch
build_routing_for_switch-IsRoute links i =
    let s : Search = record {
      visited = switch i ∷ [];
      queue = switch i ∷ [];
      parent_map = (switch i, none) ∷ [];
      routes = [];
    } in
    let w : IsSearch links (switch i) s = record {
      tree = (refl, refl);
      same = refl;
      waits = (ground (arith, node_eq_refl (switch i)), tt);
      found = tt;
    } in
    let t = build_routing_for_switch-total links i in
    (
      t.0,
      t.1,
      search-AreRoutes (2 * length links + 1) links (switch i) s (switch i ∷ []) t.0 refl w t.1,
    )
