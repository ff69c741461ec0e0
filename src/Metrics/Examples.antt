-- ===== src/Metrics/Examples.antt =====
-- A route over one flagged left.
use safety_aware_route_plann.Base.{
  ℕ, ◌+◌, ◌==◌, ◌≡◌, refl, false, none, List, [], ◌∷◌, length, if◌then◌else◌,
}
use safety_aware_route_plann.Float.Whole.{naturals}
use safety_aware_route_plann.Graph.{no_control, observed, left, primary, GraphPack}
use safety_aware_route_plann.Search.{PathResult, edges, route_edges}
use safety_aware_route_plann.Costs.{unsafe_none, unsafe_left, tier_safe}
use safety_aware_route_plann.Geometry.{unsafe_code, unsafe_points}
use safety_aware_route_plann.Alternatives.{count_nonzero}
use safety_aware_route_plann.Metrics.{
  QueryCosts, count_kind, less_last, share, scaled, compute_metrics, unsafe_total,
}
use safety_aware_route_plann.Metrics.Markers.{counts-agree}

program : Unit {0}
unfolding edges route_edges unsafe_points count_nonzero count_kind less_last share scaled
    compute_metrics
program = tt

abbrev pack : GraphPack ℕ
pack = record {
  num_nodes = 9;
  num_edges = 4;
  num_turns = 2;
  edge_tail = λ e. e;
  edge_head = λ e. e;
  edge_length_m = λ e. 100;
  edge_speed_mps = λ e. 20;
  edge_lanes = λ e. 1;
  edge_median = λ e. false;
  edge_road_class = λ e. primary;
  edge_reverse = λ e. none;
  edge_approach_control = λ e. no_control;
  edge_must_stop = λ e. false;
  edge_control_confidence = λ e. observed;
  turn_in_edge = λ t. t;
  turn_out_edge = λ t. t + 1;
  turn_maneuver = λ t. left;
  turn_angle_deg = λ t. 0;
  node_lat = λ n. 0;
  node_lon = λ n. n;
}

abbrev qc : QueryCosts naturals
qc = record {
  edge_time_s = λ e. 5;
  turn_time_s = λ t. 5;
  turn_delay_s = λ t. 2;
  turn_penalty_s = λ t. 0;
  turn_unsafe_type = λ t. if t == 1 then unsafe_left else unsafe_none;
  turn_tier = λ t. tier_safe;
}

abbrev path : PathResult ℕ
path = record { turn_ids = 0 ∷ 1 ∷ []; first_edge = 0; dest_edge = 2; total_cost = 10 }

sum : List ℕ → ℕ
sum [] = 0
sum (x ∷ xs) = x + sum xs

-- Three edges of five seconds, and two waits of two.
eta : (compute_metrics naturals sum pack qc path 0 1).eta_s ≡ 19
unfolding program sum
eta = refl

counts-agree_example :
    let total = unsafe_total naturals (compute_metrics naturals sum pack qc path 0 1) in
    (total ≡ length (unsafe_points naturals pack qc.turn_unsafe_type qc.turn_delay_s path.turn_ids))
    × (total ≡ count_nonzero (λ t. unsafe_code (qc.turn_unsafe_type t)) path.turn_ids)
counts-agree_example = counts-agree naturals pack sum qc path 0 1
