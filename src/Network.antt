-- ===== src/Network.antt =====
-- simulator/src/simulation.py: the routing tables that `NetworkSimulator` builds from its links.
pub mod Routes
pub mod Rounds
pub mod Growth
pub mod Complete
use spac.Base.{
  ℕ, zero, suc, ◌+◌, ◌*◌, Bool, true, false, List, [], ◌∷◌, ◌++◌, Option, none, some, ◌==◌,
  if◌then◌else◌, length,
}

-- A node's name: "s3" is a switch, "3" a host.
pub data Node : Type 0 where
  switch : ℕ → Node
  host : ℕ → Node

-- `NetworkTopology`
pub record Link : Type 0 where
  pub node_a : Node
  pub port_a : ℕ
  pub node_b : Node
  pub port_b : ℕ

-- A step of a path: the ports are those at its two ends.
pub record Hop : Type 0 where
  pub from_node : Node
  pub p_port : ℕ
  pub to_node : Node
  pub c_port : ℕ

-- A value of `parent_map`: the node before, the port there and the port here.
pub record Parent : Type 0 where
  pub node : Node
  pub p_port : ℕ
  pub c_port : ℕ

abbrev pub node_eq : Node → Node → Bool
node_eq (switch a) (switch b) = a == b
node_eq (host a) (host b) = a == b
node_eq (switch a) (host b) = false
node_eq (host a) (switch b) = false

-- `node in visited`
abbrev pub visits : Node → List Node → Bool
visits n [] = false
visits n (v ∷ vs) = if node_eq v n then true else visits n vs

-- parent_map[node]; the node that the search starts from has no parent.
unfoldable pub parent_of : List (Node × Option Parent) → Node → Option (Option Parent)
parent_of [] n = none
parent_of ((k, p) ∷ m) n = if node_eq k n then some p else parent_of m n

-- The loop of `_reconstruct_path`, with the rounds that are left: the path and the node it ends at.
unfoldable pub walk_back :
    ℕ → List (Node × Option Parent) → Node → Node → List Hop → List Hop × Node
unfolding parent_of
walk_back zero m src node path = (path, node)
walk_back (suc k) m src node path =
    if node_eq node src then (path, node) else elim (parent_of m node) [
      | none ↦ (path, node)
      | some none ↦ (path, node)
      | some (some p) ↦ walk_back k m src p.node (
          record { from_node = p.node; p_port = p.p_port; to_node = node; c_port = p.c_port }
          ∷ path)
    ]

-- `_reconstruct_path`; a path visits each node of the map at most once.
unfoldable pub reconstruct_path : Node → Node → List (Node × Option Parent) → List Hop
unfolding walk_back
reconstruct_path dst src m =
    let r = walk_back (length m) m src dst [] in if node_eq r.1 src then r.0 else []

-- What the search of `_build_routing_for_switch` changes.
pub record Search : Type 0 where
  pub visited : List Node
  pub queue : List Node
  pub parent_map : List (Node × Option Parent)
  pub routes : List (ℕ × List Hop)

-- The node at the other end of a link, with the port here and the port there.
unfoldable pub neighbor_of : Node → Link → Option (Node × ℕ × ℕ)
neighbor_of n l =
    if node_eq l.node_a n
    then some (l.node_b, l.port_a, l.port_b)
    else if node_eq l.node_b n
    then some (l.node_a, l.port_b, l.port_a)
    else none

-- The body of the loop over the links, with the neighbor that it found.
unfoldable pub visit : Node → Option (Node × ℕ × ℕ) → Search → Search
visit n none s = s
visit n (some (neighbor, p_port, c_port)) s = if visits neighbor s.visited then s else record s {
  visited = neighbor ∷ s.visited;
  parent_map =
      (neighbor, some (record { node = n; p_port = p_port; c_port = c_port })) ∷ s.parent_map;
  queue = s.queue ++ neighbor ∷ [];
}

unfoldable pub explore : Node → List Link → Search → Search
unfolding visit neighbor_of
explore n [] s = s
explore n (l ∷ ls) s = explore n ls (visit n (neighbor_of n l) s)

-- The loop's body for a node from the queue: a host gets a route, a switch is explored.
unfoldable pub take_node : List Link → Node → Node → Search → Search
unfolding explore reconstruct_path
take_node links src (host d) s = record s {
  routes = (d, reconstruct_path (host d) src s.parent_map) ∷ s.routes;
}
take_node links src (switch i) s = explore (switch i) links s

-- The loop, with the rounds that are left; `none` when they do not suffice.
unfoldable pub search : ℕ → List Link → Node → Search → List Node → Option (List (ℕ × List Hop))
unfolding take_node
search rounds links src s [] = some s.routes
search zero links src s (n ∷ queue) = none
search (suc k) links src s (n ∷ queue) =
    let t = take_node links src n (record s { queue = queue }) in search k links src t t.queue

-- `_build_routing_for_switch`: the table of a switch, the newest route first. Each link has two ends,
-- and a node comes into the queue at most once.
unfoldable pub build_routing_for_switch : List Link → ℕ → Option (List (ℕ × List Hop))
unfolding search
build_routing_for_switch links i =
    search (2 * length links + 1) links (switch i)
      (record {
        visited = switch i ∷ [];
        queue = switch i ∷ [];
        parent_map = (switch i, none) ∷ [];
        routes = [];
      })
      (switch i ∷ [])
