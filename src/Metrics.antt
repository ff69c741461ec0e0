-- ===== src/Metrics.antt =====
-- pyref/metrics.py, and the end of pyref/costs.py: the arrays of one request, and the distance, the
-- ETA and the counts of a route. `sum` is numpy's.
pub mod Markers
mod Examples
use safety_aware_route_plann.Base.{ℕ, ◌+◌, List, [], ◌∷◌, map, ◌==◌, if◌then◌else◌}
use safety_aware_route_plann.Float.{Float}
use safety_aware_route_plann.Graph.{GraphPack}
use safety_aware_route_plann.Search.{PathResult, edges}
use safety_aware_route_plann.Sim.{Snapshot}
use safety_aware_route_plann.Costs.{
  CostConfig, UnsafeType, Tier, turn_unsafe_type, turn_tier, turn_penalty_s,
}
use safety_aware_route_plann.Costs.Delay.{DelayConfig, control_delay_s}
use safety_aware_route_plann.Geometry.{unsafe_code}

-- `np.count_nonzero(kinds == code)`.
unfoldable pub count_kind : (ℕ → UnsafeType) → ℕ → List ℕ → ℕ
count_kind kinds code [] = 0
count_kind kinds code (t ∷ ts) =
    (if unsafe_code (kinds t) == code then 1 else 0) + count_kind kinds code ts

module _ (fl : Float) where
  open fl use {Val, zero_val, one_val, add, sub, mul, div}

  pub record QueryCosts : Type 0 where
    pub edge_time_s : ℕ → Val
    pub turn_time_s : ℕ → Val
    pub turn_delay_s : ℕ → Val
    pub turn_penalty_s : ℕ → Val
    pub turn_unsafe_type : ℕ → UnsafeType
    pub turn_tier : ℕ → Tier

  -- `compute_costs`, the arrays that the engine and the metrics read.
  unfoldable pub compute_costs :
      {D : Type 0} → CostConfig fl → DelayConfig fl → GraphPack Val → Snapshot Val D → QueryCosts
  unfolding turn_penalty_s turn_unsafe_type turn_tier control_delay_s
  compute_costs cfg cd pack snapshot =
      let delay = control_delay_s fl cd pack snapshot.volume_vph_lane in
      record {
        edge_time_s = snapshot.edge_time_s;
        turn_time_s = λ t. add (snapshot.edge_time_s (pack.turn_out_edge t)) (delay t);
        turn_delay_s = delay;
        turn_penalty_s = turn_penalty_s fl cfg pack snapshot.volume_vph_lane;
        turn_unsafe_type = turn_unsafe_type fl cfg pack snapshot.volume_vph_lane;
        turn_tier = turn_tier fl cfg pack snapshot.volume_vph_lane;
      }

  -- `arc_cost`.
  abbrev pub arc_cost : QueryCosts → Val → ℕ → Val
  arc_cost qc lam t = add (qc.turn_time_s t) (mul lam (qc.turn_penalty_s t))

  pub record RouteMetrics : Type 0 where
    pub distance_m : Val
    pub eta_s : Val
    pub unprotected_left : ℕ
    pub uncontrolled_crossing : ℕ
    pub control_delay_s : Val

  abbrev pub unsafe_total : RouteMetrics → ℕ
  unsafe_total m = m.unprotected_left + m.uncontrolled_crossing

  -- `share[0] -= x` and `share[-1] -= x`.
  abbrev pub less_first : Val → List Val → List Val
  less_first x [] = []
  less_first x (s ∷ ss) = sub s x ∷ ss

  unfoldable pub less_last : Val → List Val → List Val
  less_last x [] = []
  less_last x (s ∷ []) = sub s x ∷ []
  less_last x (s ∷ u ∷ ss) = s ∷ less_last x (u ∷ ss)

  unfoldable pub share : Val → Val → List ℕ → List Val
  unfolding less_last
  share frac_origin frac_dest es =
      less_last (sub one_val frac_dest) (less_first frac_origin (map (λ e. one_val) es))

  -- `values * share`.
  unfoldable pub scaled : (ℕ → Val) → List ℕ → List Val → List Val
  scaled value [] ss = []
  scaled value (e ∷ es) [] = []
  scaled value (e ∷ es) (s ∷ ss) = mul (value e) s ∷ scaled value es ss

  module _ (sum : List Val → Val) (pack : GraphPack Val) (qc : QueryCosts) where
    -- `compute_metrics`; `sum` is numpy's.
    unfoldable pub compute_metrics : PathResult Val → Val → Val → RouteMetrics
    unfolding share scaled count_kind edges
    compute_metrics r frac_origin frac_dest =
        let es = edges r pack.turn_out_edge in
        let ss = share frac_origin frac_dest es in
        let delay = sum (map qc.turn_delay_s r.turn_ids) in
        record {
          distance_m = sum (scaled pack.edge_length_m es ss);
          eta_s = add (sum (scaled qc.edge_time_s es ss)) delay;
          unprotected_left = count_kind qc.turn_unsafe_type 1 r.turn_ids;
          uncontrolled_crossing = count_kind qc.turn_unsafe_type 2 r.turn_ids;
          control_delay_s = delay;
        }
