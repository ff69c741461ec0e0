-- ===== src/Engine.antt =====
-- pyref/engine.py: from the endpoints of a request to its artifacts. The search
-- is an argument, since it is one of two: the reference search or the compiled one.
pub mod Total
pub mod Answers
pub mod Reroute
pub mod Examples
use Prim.Native.String.{String}
use mathlib.Core.Option
use safety_aware_route_plann.Base.{
  ℕ, zero, suc, ◌+◌, Bool, true, false, not, ◌&&◌, Option, none, some, List, [], ◌∷◌, ◌++◌, map,
  ◌==◌, if◌then◌else◌, length, dict_get,
}
use safety_aware_route_plann.Float.{Float, lt, le}
use safety_aware_route_plann.Graph.{Maneuver, straight, is_maneuver, GraphPack}
use safety_aware_route_plann.Search.{PathResult, edges}
use safety_aware_route_plann.Sim.{Snapshot, TrafficBasis, SimConfig, at_time}
use safety_aware_route_plann.Snap.{SnapCandidate, SnapIndex, snap}
use safety_aware_route_plann.Costs.{
  fmin, CostConfig, UnsafeType, unsafe_none, unsafe_left, unsafe_crossing, Tier, tier_safe,
  turn_unsafe_type, turn_tier, turn_penalty_s,
}
use safety_aware_route_plann.Costs.Delay.{DelayConfig, control_delay_s}
use safety_aware_route_plann.Geometry.{
  unsafe_code, UnsafePoint, RouteSegment, RouteManeuver, route_geometry, route_segments,
  route_maneuvers, unsafe_points,
}
use safety_aware_route_plann.Metrics.{
  QueryCosts, compute_costs, arc_cost, RouteMetrics, unsafe_total, compute_metrics,
}
use safety_aware_route_plann.Alternatives.{
  Kind, fast, balanced, safe, Alternative, Planner, compute_alternatives, compute_single,
}

-- `ROUTE_SCHEMA_VERSION`.
abbrev pub route_schema_version : ℕ
route_schema_version = 2

module _ (fl : Float) where
  open fl use {Val, zero_val, one_val, add, sub, mul, div}

  -- The errors that a user is told.
  pub data RoutingError : Type 0 where
    origin_too_far destination_too_far no_route : RoutingError

  pub record Preference (D : Type 0) : Type 0 where
    pub level : Kind
    pub lam : Val
    pub detour_budget_pct : Val
    pub departure_time : D
    pub traffic_basis : TrafficBasis D

  pub record RouteOut (D : Type 0) : Type 0 where
    pub kind : Kind
    pub geometry : List (Val × Val)
    pub distance_m : Val
    pub eta_s : Val
    pub unprotected_left : ℕ
    pub uncontrolled_crossing : ℕ
    pub unsafe_total : ℕ
    pub segments : List (RouteSegment fl)
    pub unsafe_points : List (UnsafePoint fl)
    pub maneuvers : List (RouteManeuver fl)
    pub preference : Preference D
    pub detour_pct : Val
    pub control_delay_s : Val
    pub schema_version : ℕ

  abbrev pub min_of : Val → List Val → Val
  min_of m [] = m
  min_of m (x ∷ xs) = min_of (fmin fl m x) xs

  unfoldable pub with_fastest : {D : Type 0} → Val → List (RouteOut D) → List (RouteOut D)
  with_fastest fastest [] = []
  with_fastest fastest (r ∷ rs) =
      record r { detour_pct = div (sub r.eta_s fastest) fastest } ∷ with_fastest fastest rs

  -- `_with_detour_pct`.
  unfoldable pub with_detour_pct : {D : Type 0} → List (RouteOut D) → List (RouteOut D)
  unfolding with_fastest
  with_detour_pct [] = []
  with_detour_pct {D} (r ∷ rs) =
      let fastest = min_of r.eta_s (map (λ (a : RouteOut D). a.eta_s) rs) in
      if lt fl zero_val fastest then with_fastest fastest (r ∷ rs) else r ∷ rs

  pub record Router (D : Type 0) : Type 0 where
    pub pack : GraphPack Val
    pub cost : CostConfig fl
    pub delay : DelayConfig fl
    pub sim : SimConfig fl D
    pub snap_index : SnapIndex fl
    pub snap_max_m : Val
    pub is_astar : Bool
    pub v_max_mps : Val
    pub haversine_m : Val × Val → Val × Val → Val
    pub geom : ℕ → List (Val × Val)
    pub sum : List Val → Val
    pub ratio : ℕ → ℕ → Val
    pub lambda_fast : Val
    pub lambda_balanced : Val
    pub lambda_safe : Val
    pub jaccard_threshold : Val
    pub penalty_factor : Val
    pub max_reruns : ℕ
    pub avoid_surcharge_s : Val
    pub detour_budget_pct : Val
    pub run :
        (ℕ → Val) → Option (ℕ → Val) → List (ℕ × Val) → List (ℕ × Val) → Option (PathResult Val)

  pub record Plan (D : Type 0) : Type 0 where
    pub qc : QueryCosts fl
    pub o_cands : List (SnapCandidate fl)
    pub d_cands : List (SnapCandidate fl)
    pub seeds : List (ℕ × Val)
    pub dests : List (ℕ × Val)
    pub h : Option (ℕ → Val)
    pub same_edge : Option (PathResult Val)
    pub basis : TrafficBasis D

  -- `{c.edge: c for c in cands}`.
  unfoldable pub by_edge : List (SnapCandidate fl) → ℕ → Option (SnapCandidate fl)
  by_edge cands e = dict_get (map (λ (c : SnapCandidate fl). (c.edge, c)) cands) e

  unfoldable pub same_edge_at :
      QueryCosts fl
      → ℕ
      → Option (SnapCandidate fl)
      → Option (SnapCandidate fl)
      → Option (PathResult Val)
  same_edge_at qc e none dc = none
  same_edge_at qc e (some oc) none = none
  same_edge_at qc e (some oc) (some dc) =
      if le fl oc.frac dc.frac
      then some (record {
        turn_ids = [];
        first_edge = e;
        dest_edge = e;
        total_cost = mul (sub dc.frac oc.frac) (qc.edge_time_s e);
      })
      else none

  abbrev pub first_of {ℓ} : {A : Type ℓ} → Option A → Option A → Option A
  first_of none other = other
  first_of (some a) other = some a

  -- The loop over `o_by_edge`: the first of the origin's edges that the destination is downstream on.
  unfoldable pub same_edge_of :
      QueryCosts fl
      → List (SnapCandidate fl)
      → List (SnapCandidate fl)
      → List (SnapCandidate fl)
      → Option (PathResult Val)
  unfolding same_edge_at by_edge
  same_edge_of qc o d [] = none
  same_edge_of qc o d (c ∷ cs) =
      first_of (same_edge_at qc c.edge (by_edge o c.edge) (by_edge d c.edge))
        (same_edge_of qc o d cs)

  pub data Resolved (D : Type 0) : Type 0 where
    planned : Plan D → Resolved D
    unresolved : RoutingError → Resolved D
    no_basis : Resolved D

  -- What a request ends in; the last two are exceptions that no handler expects.
  pub data Answer (A : Type 0) : Type 0 where
    answered : A → Answer A
    refused : RoutingError → Answer A
    key_error assertion_error : Answer A

  abbrev pub or_key_error : {A : Type 0} → Option A → Answer A
  or_key_error none = key_error
  or_key_error (some a) = answered a

  module _ {D : Type 0} (router : Router D) where
    open router use {pack}

    -- `heuristic`, at the head of an edge.
    abbrev pub heuristic : Val → Val → ℕ → Val
    heuristic dest_lat dest_lon e =
        div
          (router.haversine_m (pack.node_lon (pack.edge_head e), pack.node_lat (pack.edge_head e))
            (dest_lon, dest_lat))
          router.v_max_mps

    abbrev pub seeds_of : QueryCosts fl → List (SnapCandidate fl) → List (ℕ × Val)
    seeds_of qc =
        map (λ (c : SnapCandidate fl). (c.edge, mul (sub one_val c.frac) (qc.edge_time_s c.edge)))

    abbrev pub dests_of : QueryCosts fl → List (SnapCandidate fl) → List (ℕ × Val)
    dests_of qc =
        map (λ (c : SnapCandidate fl). (c.edge, mul (sub c.frac one_val) (qc.edge_time_s c.edge)))

    abbrev pub plan_with :
        QueryCosts fl
        → TrafficBasis D
        → List (SnapCandidate fl)
        → SnapCandidate fl
        → List (SnapCandidate fl)
        → Plan D
    plan_with qc basis o dc d = record {
      qc = qc;
      o_cands = o;
      d_cands = d;
      seeds = seeds_of qc o;
      dests = dests_of qc d;
      h = if router.is_astar then some (heuristic dc.lat dc.lon) else none;
      same_edge = same_edge_of qc o d o;
      basis = basis;
    }

    abbrev pub plan_at :
        Snapshot Val D
        → Option (TrafficBasis D)
        → List (SnapCandidate fl)
        → SnapCandidate fl
        → List (SnapCandidate fl)
        → Resolved D
    plan_at snapshot none o dc d = no_basis
    plan_at snapshot (some basis) o dc d =
        planned (plan_with (compute_costs fl router.cost router.delay pack snapshot) basis o dc d)

    abbrev pub resolve_cands : D → List (SnapCandidate fl) → List (SnapCandidate fl) → Resolved D
    resolve_cands departure [] d = unresolved origin_too_far
    resolve_cands departure (oc ∷ o) [] = unresolved destination_too_far
    resolve_cands departure (oc ∷ o) (dc ∷ d) =
        let snapshot = at_time fl router.sim pack departure in
        plan_at snapshot snapshot.basis (oc ∷ o) dc (dc ∷ d)

    -- `_resolve`.
    unfoldable pub resolve : Val → Val → Val → Val → D → Resolved D
    unfolding snap at_time compute_costs same_edge_of
    resolve origin_lat origin_lon dest_lat dest_lon departure =
        resolve_cands departure (snap fl router.snap_index origin_lat origin_lon router.snap_max_m)
          (snap fl router.snap_index dest_lat dest_lon router.snap_max_m)

    -- `_describe`.
    unfoldable pub describe :
        Plan D
        → Kind
        → Val
        → Val
        → D
        → PathResult Val
        → SnapCandidate fl
        → SnapCandidate fl
        → RouteOut D
    unfolding compute_metrics route_geometry route_segments unsafe_points route_maneuvers
    describe plan kind lam budget departure r oc dc =
        let m = compute_metrics fl router.sum pack plan.qc r oc.frac dc.frac in
        record {
          kind = kind;
          geometry =
              route_geometry fl router.haversine_m router.geom pack.turn_out_edge r oc.frac dc.frac;
          distance_m = m.distance_m;
          eta_s = m.eta_s;
          unprotected_left = m.unprotected_left;
          uncontrolled_crossing = m.uncontrolled_crossing;
          unsafe_total = unsafe_total fl m;
          segments =
              route_segments fl router.haversine_m router.geom plan.qc.turn_tier pack.turn_out_edge
                r oc.frac dc.frac;
          unsafe_points =
              unsafe_points fl pack plan.qc.turn_unsafe_type plan.qc.turn_delay_s r.turn_ids;
          maneuvers = route_maneuvers fl router.haversine_m router.geom pack r oc.frac dc.frac;
          preference = record {
            level = kind;
            lam = lam;
            detour_budget_pct = budget;
            departure_time = departure;
            traffic_basis = plan.basis;
          };
          detour_pct = zero_val;
          control_delay_s = m.control_delay_s;
          schema_version = route_schema_version;
        }

    abbrev pub describe_at :
        Plan D
        → Kind
        → Val
        → Val
        → D
        → PathResult Val
        → Option (SnapCandidate fl)
        → Option (SnapCandidate fl)
        → Option (RouteOut D)
    describe_at plan kind lam budget departure r none dc = none
    describe_at plan kind lam budget departure r (some oc) none = none
    describe_at plan kind lam budget departure r (some oc) (some dc) =
        some (describe plan kind lam budget departure r oc dc)

    -- An artifact between the candidates of its end edges; `none` is a KeyError.
    unfoldable pub artifact : Plan D → Kind → Val → Val → D → PathResult Val → Option (RouteOut D)
    unfolding describe by_edge
    artifact plan kind lam budget departure r =
        describe_at plan kind lam budget departure r (by_edge plan.o_cands r.first_edge)
          (by_edge plan.d_cands r.dest_edge)

    abbrev pub planner : Plan D → Val → Planner fl
    planner plan budget = record {
      num_turns = pack.num_turns;
      turn_out_edge = pack.turn_out_edge;
      turn_unsafe_type = λ t. unsafe_code (plan.qc.turn_unsafe_type t);
      arc_cost = arc_cost fl plan.qc;
      seeds = plan.seeds;
      dests = plan.dests;
      run = λ ac. router.run ac plan.h plan.seeds plan.dests;
      sum = router.sum;
      ratio = router.ratio;
      lambda_fast = router.lambda_fast;
      lambda_balanced = router.lambda_balanced;
      lambda_safe = router.lambda_safe;
      jaccard_threshold = router.jaccard_threshold;
      penalty_factor = router.penalty_factor;
      max_reruns = router.max_reruns;
      avoid_surcharge_s = router.avoid_surcharge_s;
      detour_budget_pct = budget;
    }

    abbrev pub lam_by_kind : Kind → Val
    lam_by_kind fast = router.lambda_fast
    lam_by_kind balanced = router.lambda_balanced
    lam_by_kind safe = router.lambda_safe

    unfoldable pub artifacts :
        Plan D → Val → D → List (Alternative Val) → Option (List (RouteOut D))
    unfolding artifact Option.bind
    artifacts plan budget departure [] = some []
    artifacts plan budget departure (a ∷ alts) =
        Option.bind (artifact plan a.kind (lam_by_kind a.kind) budget departure a.result)
          (λ r. Option.map (λ rs. r ∷ rs) (artifacts plan budget departure alts))

    abbrev pub described :
        Plan D → Val → D → Option (List (Alternative Val)) → Answer (List (RouteOut D))
    described plan budget departure none = key_error
    described plan budget departure (some []) = refused no_route
    described plan budget departure (some (a ∷ alts)) =
        or_key_error (Option.map with_detour_pct (artifacts plan budget departure (a ∷ alts)))

    abbrev pub route_plan :
        Plan D → Val → D → Bool → Option (PathResult Val) → Answer (List (RouteOut D))
    route_plan plan budget departure safety_enabled (some r) =
        or_key_error
          (Option.map (λ a. a ∷ []) (artifact plan fast router.lambda_fast budget departure r))
    route_plan plan budget departure safety_enabled none =
        described plan budget departure
          (compute_alternatives fl (planner plan budget) safety_enabled)

    abbrev pub route_resolved : Val → D → Bool → Resolved D → Answer (List (RouteOut D))
    route_resolved budget departure safety_enabled (planned plan) =
        route_plan plan budget departure safety_enabled plan.same_edge
    route_resolved budget departure safety_enabled (unresolved e) = refused e
    route_resolved budget departure safety_enabled no_basis = assertion_error

    abbrev pub budget_of : Option Val → Val
    budget_of none = router.detour_budget_pct
    budget_of (some b) = b

    -- `route`.
    unfoldable pub route :
        Val → Val → Val → Val → D → Bool → Option Val → Answer (List (RouteOut D))
    unfolding resolve artifacts with_detour_pct compute_alternatives
    route origin_lat origin_lon dest_lat dest_lon departure safety_enabled detour_budget_pct =
        route_resolved (budget_of detour_budget_pct) departure safety_enabled
          (resolve origin_lat origin_lon dest_lat dest_lon departure)

    abbrev pub rerouted :
        Plan D → Kind → Val → Val → D → Option (Option (PathResult Val)) → Answer (RouteOut D)
    rerouted plan level lam budget departure none = key_error
    rerouted plan level lam budget departure (some none) = refused no_route
    rerouted plan level lam budget departure (some (some r)) =
        or_key_error (artifact plan level lam budget departure r)

    abbrev pub reroute_plan :
        Plan D → Kind → Val → Val → D → Option (PathResult Val) → Answer (RouteOut D)
    reroute_plan plan level lam budget departure (some r) =
        or_key_error (artifact plan level lam budget departure r)
    reroute_plan plan level lam budget departure none =
        rerouted plan level lam budget departure (compute_single fl (planner plan budget) level lam)

    abbrev pub reroute_resolved : Kind → Val → Val → D → Resolved D → Answer (RouteOut D)
    reroute_resolved level lam budget departure (planned plan) =
        reroute_plan plan level lam budget departure plan.same_edge
    reroute_resolved level lam budget departure (unresolved e) = refused e
    reroute_resolved level lam budget departure no_basis = assertion_error

    -- `reroute`.
    unfoldable pub reroute : Val → Val → Val → Val → Kind → Val → Val → D → Answer (RouteOut D)
    unfolding resolve artifact compute_single
    reroute origin_lat origin_lon dest_lat dest_lon level lam budget departure =
        reroute_resolved level lam budget departure
          (resolve origin_lat origin_lon dest_lat dest_lon departure)
