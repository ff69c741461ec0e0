-- ===== src/Costs/Examples.antt =====
-- A straight across a busy street: edge 0 arrives, edge 1 crosses, the turn leaves along edge 2.
use safety_aware_route_plann.Base.{
  ℕ, ◌<◌, ◌&&◌, ◌≡◌, ◌≢◌, ◌↔◌, refl, true, false, none, some, Bool, if◌then◌else◌, ◌==◌, arith,
}
use safety_aware_route_plann.Float.{Le}
use safety_aware_route_plann.Float.Whole.{naturals, naturals-IsScaled, naturals-IsMonotone}
use safety_aware_route_plann.Graph.{
  no_control, signal_permissive, observed, straight, left, secondary, primary, is_observed,
  GraphPack,
}
use safety_aware_route_plann.Costs.{
  CostConfig, crossings, is_straight, unsafe_none, unsafe_crossing, tier_unsafe, control_mult,
  incoming, crossed, repeat, padded, raw_base, turn_raw, turn_penalty_s, turn_time_s, arc_cost,
  legs, depth, scatter, uncontrolled_crossing, unprotected_left, turn_unsafe_type, turn_tier,
  over_tau, confidence,
}
use safety_aware_route_plann.Costs.Overrides.{ladder, control_mult-ladder, arc_cost-above}
use safety_aware_route_plann.Costs.Flags.{flags-agree}
use safety_aware_route_plann.Costs.Crossings.{IsCounted, crossings_iff}

program : Unit {0}
unfolding incoming crossed repeat padded control_mult raw_base turn_raw turn_penalty_s arc_cost legs
    depth scatter uncontrolled_crossing unprotected_left turn_unsafe_type turn_tier
program = tt

abbrev config : CostConfig naturals
config = record {
  w_man = 2;
  w_speed = 1;
  w_lanes = 1;
  w_vol = 1;
  w_med = 1;
  speed_norm_max_mps = 20;
  lanes_norm_max = 4;
  vol_norm_max_vph = 600;
  severity = λ m. 3;
  stop4way_factor = 1;
  yield_row_factor = 1;
  yield_factor = 2;
  right_of_way_factor = 1;
  signal_left_factor = 2;
  inferred_confidence_factor = 1;
  k_penalty_scale_s = 4;
  uturn_fixed_penalty_s = 60;
  a_speed = 1;
  a_lanes = 1;
  a_vol = 1;
  busy_floor_by_class = λ c. 0;
  busy_threshold = 0;
  major_lanes_min = 3;
  major_class_max = primary;
  tau_unsafe = 5;
  tau_caution = 3;
}

abbrev node : GraphPack ℕ
node = record {
  num_nodes = 9;
  num_edges = 3;
  num_turns = 1;
  edge_tail = λ e. if e == 2 then 7 else e;
  edge_head = λ e. if e == 2 then 8 else 7;
  edge_length_m = λ e. 100;
  edge_speed_mps = λ e. 20;
  edge_lanes = λ e. 2;
  edge_median = λ e. false;
  edge_road_class = λ e. secondary;
  edge_reverse = λ e. none;
  edge_approach_control = λ e. no_control;
  edge_must_stop = λ e. false;
  edge_control_confidence = λ e. observed;
  turn_in_edge = λ t. 0;
  turn_out_edge = λ t. 2;
  turn_maneuver = λ t. straight;
  turn_angle_deg = λ t. 0;
  node_lat = λ n. 0;
  node_lon = λ n. n;
}

abbrev quiet : ℕ → ℕ
quiet e = 0

crossing_counted : turn_unsafe_type naturals config node quiet 0 ≡ unsafe_crossing
unfolding program
crossing_counted = refl

control_mult-ladder_example :
    naturals.mul 7 (control_mult naturals config signal_permissive false left)
    ≡ ladder naturals naturals-IsScaled config signal_permissive false left 7
control_mult-ladder_example =
    control_mult-ladder naturals naturals-IsScaled config signal_permissive false left 7

arc_cost-above_example :
    Le naturals 0 (turn_penalty_s naturals config node quiet 0)
    × Le naturals
        (turn_time_s naturals config node quiet (λ e. 9) (λ t. 1) 0)
        (arc_cost naturals config node quiet (λ e. 9) (λ t. 1) 3 0)
arc_cost-above_example =
    arc_cost-above naturals naturals-IsScaled naturals-IsMonotone config node quiet (λ e. 9)
      (λ t. 1) 3 0 (omega arith) (omega arith) (omega arith)

crossings_iff_example :
    ((crossings naturals config node quiet ≡ none) ↔ (
      (t : ℕ) × (t < node.num_turns)
      × (is_straight naturals config node quiet t ≡ true)
      × (node.edge_reverse (node.turn_out_edge t) ≡ some (node.turn_in_edge t))))
    × ((counted : ℕ → Bool)
        → crossings naturals config node quiet ≡ some counted
        → (t : ℕ) → (counted t ≡ true) ↔ IsCounted naturals config node quiet t)
crossings_iff_example = crossings_iff naturals config node quiet

flags-agree_example :
    (turn_unsafe_type naturals config node quiet 0 ≢ unsafe_none
      → turn_tier naturals config node quiet 0 ≡ tier_unsafe)
    × ((turn_tier naturals config node quiet 0 ≡ tier_unsafe) ↔ (
        over_tau naturals config node quiet 0
          && is_observed (confidence naturals config node quiet 0)
        ≡ true))
flags-agree_example = flags-agree naturals config node quiet 0
