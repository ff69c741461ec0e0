-- ===== src/Costs/Delay/Examples.antt =====
-- Minor streets, edges 0 and 2, meet an artery, edge 1, at node 7; the straight turn from 0 leaves
-- along edge 3.
use safety_aware_route_plann.Base.{
  ℕ, ◌+◌, ◌==◌, ◌≡◌, refl, false, none, some, [], ◌∷◌, if◌then◌else◌, arith,
}
use safety_aware_route_plann.Float.{Le}
use safety_aware_route_plann.Float.Whole.{naturals, naturals-IsScaled, naturals-IsMonotone}
use safety_aware_route_plann.Graph.{stop_2way, observed, straight, residential, primary, GraphPack}
use safety_aware_route_plann.Costs.{incoming, repeat}
use safety_aware_route_plann.Costs.Delay.{
  DelayConfig, select, feeders, feeders_of, oncoming, continues, outranks, num_legs, major, minor,
  priority, cross_legs, left_legs, candidates, conflicts, depth, horner, exp_poly, adams_delay_s,
  delay_fixed_s, gap_tc, wide, control_delay_s, ctrl,
}
use safety_aware_route_plann.Costs.Delay.Movements.{
  choose, choose_fixed, fixed_rule, rule_of, movements-table,
}
use safety_aware_route_plann.Costs.Delay.Bounds.{major-once, control_delay_s-bounds}

program : Unit {0}
unfolding incoming repeat select feeders feeders_of continues outranks num_legs major minor priority
    cross_legs left_legs candidates conflicts depth horner exp_poly adams_delay_s delay_fixed_s
    gap_tc control_delay_s
program = tt

abbrev node : GraphPack ℕ
node = record {
  num_nodes = 9;
  num_edges = 4;
  num_turns = 1;
  edge_tail = λ e. if e == 3 then 7 else e;
  edge_head = λ e. if e == 3 then 8 else 7;
  edge_length_m = λ e. 100;
  edge_speed_mps = λ e. 20;
  edge_lanes = λ e. 1;
  edge_median = λ e. false;
  edge_road_class = λ e. if e == 1 then primary else residential;
  edge_reverse = λ e. none;
  edge_approach_control = λ e. stop_2way;
  edge_must_stop = λ e. e == 0;
  edge_control_confidence = λ e. observed;
  turn_in_edge = λ t. 0;
  turn_out_edge = λ t. 3;
  turn_maneuver = λ t. straight;
  turn_angle_deg = λ t. 0;
  node_lat = λ n. 0;
  node_lon = λ n. n;
}

-- In tenths; the exponential series up to its square.
abbrev config : DelayConfig naturals
config = record {
  all_way_stop_s = 8;
  signal_major_s = 10;
  signal_minor_s = 25;
  t_c_crossing_s = 6;
  t_c_left_s = 7;
  t_c_left_wide_s = 8;
  t_c_right_s = 6;
  t_c_priority_left_s = 4;
  left_wide_lanes_min = 4;
  cap_s = 90;
  seconds_per_hour = 1;
  exp_x_max = 50;
  inv_ln2 = 0;
  ln2_hi = 1;
  ln2_lo = 1;
  exp_coef = 1 ∷ 1 ∷ 1 ∷ [];
  rint = λ x. x;
  ldexp = λ p k. p;
}

abbrev traffic : ℕ → ℕ
traffic e = if e == 1 then 2 else 1

-- Both other legs are cleared; x = 3 * 6, and (1 + x + x * x - x - 1) / 3 is over the cap.
waits : (conflicts node 0 ≡ 1 ∷ 2 ∷ []) × (control_delay_s naturals config node traffic 0 ≡ 90)
unfolding program
waits = (refl, refl)

movements-table_example :
    (delay_fixed_s naturals config node 0
      ≡ choose_fixed (fixed_rule (ctrl node 0) straight (major node 0)) 0 8 10 25)
    × (candidates node 0
        ≡ choose
            (rule_of naturals config node 0)
            []
            (cross_legs node 0)
            (left_legs node 0)
            (feeders_of node (some 3))
            (oncoming node 0))
    × (gap_tc naturals config node 0
        ≡ choose
            (rule_of naturals config node 0)
            0
            6
            (if wide naturals config node 0 then 8 else 7)
            6
            4)
movements-table_example = movements-table naturals config node 0

major-once_example : major node 0 ≡ false
unfolding program
major-once_example =
    major-once node 1 0 (omega arith) (omega arith) refl (omega arith) refl refl refl

control_delay_s-bounds_example :
    Le naturals 0 (control_delay_s naturals config node traffic 0)
    × Le naturals
        (control_delay_s naturals config node traffic 0)
        (delay_fixed_s naturals config node 0 + 90)
control_delay_s-bounds_example =
    control_delay_s-bounds naturals naturals-IsScaled naturals-IsMonotone config node traffic 0
      (λ a b h k. omega arith) (omega arith) (omega arith) (omega arith) (omega arith)
