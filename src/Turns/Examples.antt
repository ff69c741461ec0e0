-- ===== src/Turns/Examples.antt =====
-- A street with two dead ends: edge 0 one way, edge 1 back.
use safety_aware_route_plann.Base.{
  ℕ, ◌<◌, true, false, some, [], ◌∷◌, In, if◌then◌else◌, ◌==◌, ◌≡◌, ◌↔◌, refl,
}
use safety_aware_route_plann.Float.Whole.{whole}
use safety_aware_route_plann.Graph.{uturn}
use safety_aware_route_plann.Turns.{
  Angles, Edges, Turn, wrap_delta_deg, classify_maneuver, turn_row, rows, out_degree, rows_of,
  turns_below, build_turn_table,
}
use safety_aware_route_plann.Turns.Table.{Leaves, build_turn_table_complete}

program : Unit {0}
unfolding wrap_delta_deg classify_maneuver turn_row rows rows_of turns_below build_turn_table
program = tt

-- Degrees with a bias of 100.
abbrev degrees : Angles whole
degrees = record {
  abs = λ a. a;
  modulo = λ a b. a;
  straight_max_deg = 130;
  uturn_min_deg = 250;
  half_turn = 280;
  minus_half_turn = 0;
  full_turn = 460;
}

abbrev street : Edges whole degrees
street = record {
  num_edges = 2;
  edge_head = λ e. if e == 0 then 1 else 0;
  edge_reverse = λ e. some (if e == 0 then 1 else 0);
  node_out_ptr = λ n. n;
  bearing_in = λ e. 100;
  bearing_out = λ e. 100;
}

-- Both turns are U-turns, allowed since there is no other way out.
two_uturns :
    build_turn_table whole degrees street
    ≡ record { in_edge = 0; out_edge = 1; maneuver = uturn; angle_deg = 100; allowed = true }
      ∷ record { in_edge = 1; out_edge = 0; maneuver = uturn; angle_deg = 100; allowed = true }
      ∷ []
unfolding program
two_uturns = refl

build_turn_table_complete_example :
    ((e e2 : ℕ)
      → e < 2
      → Leaves whole degrees street e e2
      → (t : Turn whole degrees) × In t (build_turn_table whole degrees street)
        × (t.in_edge ≡ e)
        × (t.out_edge ≡ e2))
    × ((t : Turn whole degrees)
        → In t (build_turn_table whole degrees street)
        → (t.in_edge < 2)
          × Leaves whole degrees street t.in_edge t.out_edge
          × ((t.allowed ≡ false)
              ↔ ((t.maneuver ≡ uturn) × (1 < out_degree whole degrees street t.in_edge))))
build_turn_table_complete_example = build_turn_table_complete whole degrees street
