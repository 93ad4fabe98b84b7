-- ===== src/Tests/Network.antt =====
-- Tests of the routing tables, on two switches in a row with a host at each.
use spac.Base.{ℕ, ◌≡◌, refl, true, List, [], ◌∷◌, some, inl, inr, All}
use spac.Network.{Node, switch, host, Link, Hop, build_routing_for_switch}
use spac.Network.Routes.{IsRoute, build_routing_for_switch-IsRoute}
use spac.Network.Complete.{build_routing_for_switch-has_route}
use spac.Network.Growth.{has_route}

abbrev link_of : Node → ℕ → Node → ℕ → Link
link_of a p b q = record { node_a = a; port_a = p; node_b = b; port_b = q }

-- Host 5 at switch 0, switch 0 at switch 1, host 6 at switch 1.
abbrev links : List Link
links =
    link_of (host 5) 0 (switch 0) 1
    ∷ link_of (switch 0) 2 (switch 1) 3
    ∷ link_of (switch 1) 0 (host 6) 0
    ∷ []

abbrev hop_of : Node → ℕ → Node → ℕ → Hop
hop_of a p b q = record { from_node = a; p_port = p; to_node = b; c_port = q }

abbrev to_five : List Hop
to_five = hop_of (switch 0) 1 (host 5) 0 ∷ []

abbrev to_six : List Hop
to_six = hop_of (switch 0) 2 (switch 1) 3 ∷ hop_of (switch 1) 0 (host 6) 0 ∷ []

abbrev table : List (ℕ × List Hop)
table = (6, to_six) ∷ (5, to_five) ∷ []

routes_of_zero : build_routing_for_switch links 0 ≡ some table
unfolding build_routing_for_switch
routes_of_zero = refl

build_routing_for_switch-IsRoute_example :
    (table : List (ℕ × List Hop)) × (build_routing_for_switch links 0 ≡ some table)
    × All (λ (r : ℕ × List Hop). IsRoute links (switch 0) r.1 (host r.0)) table
build_routing_for_switch-IsRoute_example = build_routing_for_switch-IsRoute links 0

build_routing_for_switch-has_route_example : has_route 6 table ≡ true
build_routing_for_switch-has_route_example =
    build_routing_for_switch-has_route links 0 6 table to_six routes_of_zero
      (
        refl,
        (link_of (switch 0) 2 (switch 1) 3, inr (inl refl), inl (refl, refl, refl, refl)),
        (
          refl,
          (link_of (switch 1) 0 (host 6) 0, inr (inr (inl refl)), inl (refl, refl, refl, refl)),
          refl,
        ),
      )
      (tt, (tt, tt))
