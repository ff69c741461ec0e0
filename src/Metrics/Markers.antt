-- ===== src/Metrics/Markers.antt =====
-- The counts of a route, its markers on the map, and the count that the search for alternatives uses.
use safety_aware_route_plann.Base.{ℕ, ◌+◌, List, [], ◌∷◌, length, ◌≡◌, refl, arith}
use safety_aware_route_plann.Float.{Float}
use safety_aware_route_plann.Graph.{GraphPack}
use safety_aware_route_plann.Search.{PathResult}
use safety_aware_route_plann.Costs.{UnsafeType}
use safety_aware_route_plann.Geometry.{unsafe_code, unsafe_points}
use safety_aware_route_plann.Alternatives.{count_nonzero}
use safety_aware_route_plann.Metrics.{QueryCosts, count_kind, unsafe_total, compute_metrics}

counts :
    (kinds : ℕ → UnsafeType) (ts : List ℕ)
    → count_kind kinds 1 ts + count_kind kinds 2 ts ≡ count_nonzero (λ t. unsafe_code (kinds t)) ts
unfolding count_kind count_nonzero
counts kinds [] = refl
counts kinds (t ∷ ts) = ground (arith, counts kinds ts)

module _ (fl : Float) (pack : GraphPack fl.Val) where
  points :
      (kinds : ℕ → UnsafeType) (delay : ℕ → fl.Val) (ts : List ℕ)
      → length (unsafe_points fl pack kinds delay ts)
        ≡ count_nonzero (λ t. unsafe_code (kinds t)) ts
  unfolding unsafe_points count_nonzero
  points kinds delay [] = refl
  points kinds delay (t ∷ ts) = ground (arith, points kinds delay ts)

  -- The total that is reported, the number of markers on the map, and the count by which the
  -- search for alternatives compares routes are the same.
  pub counts-agree :
      (sum : List fl.Val → fl.Val) (qc : QueryCosts fl) (r : PathResult fl.Val)
      (frac_origin frac_dest : fl.Val)
      → let total = unsafe_total fl (compute_metrics fl sum pack qc r frac_origin frac_dest) in
        (total ≡ length (unsafe_points fl pack qc.turn_unsafe_type qc.turn_delay_s r.turn_ids))
        × (total ≡ count_nonzero (λ t. unsafe_code (qc.turn_unsafe_type t)) r.turn_ids)
  unfolding compute_metrics
  counts-agree sum qc r frac_origin frac_dest =
      let same = counts qc.turn_unsafe_type r.turn_ids in
      (omega (arith, same, points qc.turn_unsafe_type qc.turn_delay_s r.turn_ids), same)
