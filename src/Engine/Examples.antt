-- ===== src/Engine/Examples.antt =====
-- One turn, from edge 0 to edge 3; the engine knows the one path there is.
use safety_aware_route_plann.Base.{
  ℕ, ◌+◌, ◌==◌, ◌≡◌, ◌≢◌, refl, true, false, Option, none, some, List, [], ◌∷◌, if◌then◌else◌,
  dict_get, sym, ◌∙◌, subst, inl, inr, Option-cases, arith,
}
use mathlib.Core.Option.{some-injective}
use safety_aware_route_plann.Float.Whole.{naturals}
use safety_aware_route_plann.Graph.{no_control, observed, straight, primary, GraphPack}
use safety_aware_route_plann.Search.{PathResult, edges, route_edges}
use safety_aware_route_plann.Sim.{
  SimConfig, interpolate_hourly, class_group, speed_by_class, vol_by_class, at_time,
}
use safety_aware_route_plann.Snap.{SnapIndex, dist_to, frac_of, best_of, snap}
use safety_aware_route_plann.Costs.{
  CostConfig, incoming, crossed, repeat, padded, control_mult, raw_base, turn_raw, turn_penalty_s,
  legs, depth, scatter, uncontrolled_crossing, unprotected_left, turn_unsafe_type, turn_tier,
  tier_safe, tier_caution,
}
use safety_aware_route_plann.Costs.Delay.{DelayConfig}
use safety_aware_route_plann.Metrics.{
  compute_costs, count_kind, less_last, share, scaled, compute_metrics,
}
use safety_aware_route_plann.Geometry.{
  clips, cumulative, searchsorted, point_at, inner, edge_coords, joined, route_geometry, length_on,
  end_offsets, zip_segments, route_segments, bends, route_maneuvers, unsafe_points,
}
use safety_aware_route_plann.Alternatives.{
  to_set, intersection, count_nonzero, any_flagged, travel_time_s, avoid_within_budget, rerun,
  improve, offer, try_level, try_all, within_budget, ceiling, relabel_rest, relabel,
  compute_alternatives, compute_single, fast,
}
use safety_aware_route_plann.Alternatives.Total.{Given}
use safety_aware_route_plann.Engine.{
  Router, RouteOut, Resolved, planned, unresolved, no_basis, answered, refused, origin_too_far,
  with_fastest, with_detour_pct, by_edge, same_edge_at, same_edge_of, resolve, describe, artifact,
  artifacts, route, reroute,
}
use safety_aware_route_plann.Engine.Total.{IsEngine}
use safety_aware_route_plann.Engine.Reroute.{HasFastPath}
use safety_aware_route_plann.Metrics.{arc_cost}
use safety_aware_route_plann.Engine.Answers.{Fitting, route-Fitting}

program : Unit {0}
unfolding edges route_edges interpolate_hourly class_group speed_by_class vol_by_class at_time
    dist_to frac_of best_of snap compute_costs count_kind less_last share scaled compute_metrics
    clips cumulative searchsorted point_at inner edge_coords joined route_geometry length_on
    end_offsets zip_segments route_segments bends route_maneuvers unsafe_points to_set intersection
    count_nonzero any_flagged travel_time_s avoid_within_budget rerun improve offer try_level
    try_all within_budget ceiling relabel_rest relabel compute_alternatives compute_single
    with_fastest with_detour_pct by_edge same_edge_at same_edge_of resolve describe artifact
    artifacts route reroute incoming crossed repeat padded control_mult raw_base turn_raw
    turn_penalty_s legs depth scatter uncontrolled_crossing unprotected_left turn_unsafe_type
    turn_tier
program = tt

abbrev cost : CostConfig naturals
cost = record {
  w_man = 2;
  w_speed = 1;
  w_lanes = 1;
  w_vol = 1;
  w_med = 1;
  speed_norm_max_mps = 20;
  lanes_norm_max = 4;
  vol_norm_max_vph = 600;
  severity = λ m. 3;
  stop4way_factor = 1;
  yield_row_factor = 1;
  yield_factor = 2;
  right_of_way_factor = 1;
  signal_left_factor = 2;
  inferred_confidence_factor = 1;
  k_penalty_scale_s = 4;
  uturn_fixed_penalty_s = 60;
  a_speed = 1;
  a_lanes = 1;
  a_vol = 1;
  busy_floor_by_class = λ c. 0;
  busy_threshold = 0;
  major_lanes_min = 3;
  major_class_max = primary;
  tau_unsafe = 50;
  tau_caution = 3;
}

abbrev delay : DelayConfig naturals
delay = record {
  all_way_stop_s = 8;
  signal_major_s = 10;
  signal_minor_s = 25;
  t_c_crossing_s = 6;
  t_c_left_s = 7;
  t_c_left_wide_s = 8;
  t_c_right_s = 6;
  t_c_priority_left_s = 4;
  left_wide_lanes_min = 4;
  cap_s = 90;
  seconds_per_hour = 1;
  exp_x_max = 50;
  inv_ln2 = 0;
  ln2_hi = 1;
  ln2_lo = 1;
  exp_coef = 1 ∷ 1 ∷ 1 ∷ [];
  rint = λ x. x;
  ldexp = λ p k. p;
}

abbrev pack : GraphPack ℕ
pack = record {
  num_nodes = 9;
  num_edges = 4;
  num_turns = 1;
  edge_tail = λ e. if e == 3 then 7 else e;
  edge_head = λ e. if e == 3 then 8 else 7;
  edge_length_m = λ e. 100;
  edge_speed_mps = λ e. 20;
  edge_lanes = λ e. 1;
  edge_median = λ e. false;
  edge_road_class = λ e. primary;
  edge_reverse = λ e. none;
  edge_approach_control = λ e. no_control;
  edge_must_stop = λ e. false;
  edge_control_confidence = λ e. observed;
  turn_in_edge = λ t. 0;
  turn_out_edge = λ t. 3;
  turn_maneuver = λ t. straight;
  turn_angle_deg = λ t. 0;
  node_lat = λ n. 0;
  node_lon = λ n. n;
}

abbrev sim : SimConfig naturals ℕ
sim = record {
  class_groups = [];
  profiles = λ g. record { speed_mult = λ i. 1; volume_mult = λ i. 1 };
  base_vph_per_lane = λ c. 0;
  profile_version = "one";
  hour_of = λ d. d;
  center = λ h. (h, 0);
}

-- A point is on edge 0 or on edge 3, by its longitude; beyond 50 there is no road.
abbrev index : SnapIndex naturals
index = record {
  seg_edge = λ si. if si == 0 then 0 else 3;
  seg_a = λ si. si;
  ax = λ si. 0;
  ay = λ si. 0;
  bx = λ si. 0;
  by = λ si. 0;
  cum = λ i. 0;
  edge_geom_ptr = λ e. e;
  edge_reverse = λ e. none;
  kx = 1;
  ky = 1;
  query = λ x y. if x == 0 then 0 ∷ [] else 1 ∷ [];
  project = λ lat lon. (lon, lat);
  hypot = λ x y. x + y;
  degrees = λ x. x;
}

abbrev path : PathResult ℕ
path = record { turn_ids = 0 ∷ []; first_edge = 0; dest_edge = 3; total_cost = 10 }

abbrev between : Option ℕ → Option ℕ → Option (PathResult ℕ)
between (some a) (some b) = some path
between (some a) none = none
between none b = none

abbrev search : (ℕ → ℕ) → Option (ℕ → ℕ) → List (ℕ × ℕ) → List (ℕ × ℕ) → Option (PathResult ℕ)
search ac h seeds dests = between (dict_get seeds 0) (dict_get dests 3)

abbrev pub router : Router naturals ℕ
router = record {
  pack = pack;
  cost = cost;
  delay = delay;
  sim = sim;
  snap_index = index;
  snap_max_m = 50;
  is_astar = false;
  v_max_mps = 20;
  haversine_m = λ a b. 1;
  geom = λ e. (e, 0) ∷ (e, 1) ∷ [];
  sum = total;
  ratio = λ a b. 1;
  lambda_fast = 0;
  lambda_balanced = 1;
  lambda_safe = 3;
  jaccard_threshold = 0;
  penalty_factor = 2;
  max_reruns = 1;
  avoid_surcharge_s = 100;
  detour_budget_pct = 1;
  run = search;
}
  where
    total : List ℕ → ℕ
    total [] = 0
    total (x ∷ xs) = x + total xs

pub search-IsEngine : IsEngine naturals router
search-IsEngine ac h seeds dests r e = elim (Option-cases (dict_get seeds 0)) [
  | inl f ↦ let bad : none ≡ some r = sym (rw f refl) ∙ e in ground (arith, bad)
  | inr (a, f) ↦ elim (Option-cases (dict_get dests 3)) [
    | inl g ↦ let bad : none ≡ some r = sym (rw (f, g) refl) ∙ e in ground (arith, bad)
    | inr (b, g) ↦
        let made : some path ≡ some r = sym (rw (f, g) refl) ∙ e in
        subst
          (λ (x : PathResult ℕ).
            Given (dict_get seeds x.first_edge) × Given (dict_get dests x.dest_edge))
          (some-injective _ _ made) ((a, f), (b, g))
  ]
]

abbrev pub artifact_0 : RouteOut naturals ℕ
artifact_0 = record {
  kind = fast;
  geometry = (0, 0) ∷ (0, 1) ∷ (3, 0) ∷ (3, 0) ∷ [];
  distance_m = 100;
  eta_s = 5;
  unprotected_left = 0;
  uncontrolled_crossing = 0;
  unsafe_total = 0;
  segments =
      record { coordinates = (0, 0) ∷ (0, 1) ∷ []; tier = tier_safe }
      ∷ record { coordinates = (3, 0) ∷ (3, 0) ∷ []; tier = tier_caution }
      ∷ [];
  unsafe_points = [];
  maneuvers = [];
  preference = record {
    level = fast;
    lam = 0;
    detour_budget_pct = 1;
    departure_time = 8;
    traffic_basis = record { source = "synthetic"; as_of = 8; profile_version = "one" };
  };
  detour_pct = 0;
  control_delay_s = 0;
  schema_version = 2;
}

-- The search finds the path between the ends, whatever the costs.
abbrev IsFound : Resolved naturals ℕ → Type 0
IsFound (planned plan) =
    (ac : ℕ → ℕ) (h : Option (ℕ → ℕ)) → router.run ac h plan.seeds plan.dests ≢ none
IsFound (unresolved e) = Unit
IsFound no_basis = Unit

resolve-IsFound : (departure : ℕ) → IsFound (resolve naturals router 0 0 0 1 departure)
unfolding program
resolve-IsFound departure ac h e = ground (arith, e)

pub resolve-HasFastPath :
    (departure : ℕ) → HasFastPath naturals router (resolve naturals router 0 0 0 1 departure)
resolve-HasFastPath departure plan made apart =
    subst IsFound made (resolve-IsFound departure) (arc_cost naturals plan.qc router.lambda_fast)
      plan.h

pub one_route : route naturals router 0 0 0 1 8 true none ≡ answered (artifact_0 ∷ [])
unfolding program
one_route = refl

-- A point too far from any road.
too_far : route naturals router 0 99 0 1 8 true none ≡ refused origin_too_far
unfolding program
too_far = refl

route-Fitting_example :
    Fitting naturals router 8
      (snap naturals index 0 0 50)
      (snap naturals index 0 1 50)
      (route naturals router 0 0 0 1 8 true none)
route-Fitting_example = route-Fitting naturals router 0 0 0 1 8 true none search-IsEngine
