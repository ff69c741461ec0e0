-- ===== src/Engine/Answers.antt =====
-- Every request is answered: with routes, or with the error that fits its endpoints.
use safety_aware_route_plann.Base.{Bool, Option, List, [], ◌∷◌, ◌≡◌, ◌≢◌, refl, arith}
use safety_aware_route_plann.Float.{Float}
use safety_aware_route_plann.Snap.{SnapCandidate, snap}
use safety_aware_route_plann.Sim.{at_time, TrafficBasis, synthetic_source}
use safety_aware_route_plann.Metrics.{compute_costs}
use safety_aware_route_plann.Engine.{
  origin_too_far, destination_too_far, no_route, RouteOut, Router, Plan, plan_with, planned,
  resolve_cands, resolve, Answer, answered, refused, key_error, assertion_error, route_resolved,
  route, budget_of, same_edge_of,
}
use safety_aware_route_plann.Engine.Total.{
  IsEngine, HasNoPath, HasNoFastPath, Planned, route_plan-Planned,
}

module _ (fl : Float) {D : Type 0} (router : Router fl D) where
  open fl use {Val}

  -- By the candidates of the endpoints: the answer to a request for routes.
  abbrev pub Fitting :
      D
      → List (SnapCandidate fl)
      → List (SnapCandidate fl)
      → Answer fl (List (RouteOut fl D))
      → Type 0
  Fitting departure o d (answered rs) =
      (o ≢ [])
      × (d ≢ [])
      × (rs ≢ [])
      × ((plan : Plan fl D) × (resolve_cands fl router departure o d ≡ planned plan)
          × (HasNoPath fl router plan → ⊥))
  Fitting departure o d (refused origin_too_far) = o ≡ []
  Fitting departure o d (refused destination_too_far) = (o ≢ []) × (d ≡ [])
  Fitting departure o d (refused no_route) =
      (o ≢ [])
      × (d ≢ [])
      × ((plan : Plan fl D) × (resolve_cands fl router departure o d ≡ planned plan)
          × HasNoFastPath fl router plan)
  Fitting departure o d key_error = ⊥
  Fitting departure o d assertion_error = ⊥

  Planned-Fitting :
      (departure : D) (plan : Plan fl D) (oc dc : SnapCandidate fl) (o d : List (SnapCandidate fl))
      (out : Answer fl (List (RouteOut fl D)))
      → resolve_cands fl router departure (oc ∷ o) (dc ∷ d) ≡ planned plan
      → Planned fl router plan out
      → Fitting departure (oc ∷ o) (dc ∷ d) out
  Planned-Fitting departure plan oc dc o d (answered rs) e h =
      (λ s. ground (arith, s), λ s. ground (arith, s), h.0, (plan, e, h.1))
  Planned-Fitting departure plan oc dc o d (refused origin_too_far) e h =
      let bad = h.0 in ground (arith, bad)
  Planned-Fitting departure plan oc dc o d (refused destination_too_far) e h =
      let bad = h.0 in ground (arith, bad)
  Planned-Fitting departure plan oc dc o d (refused no_route) e h =
      (λ s. ground (arith, s), λ s. ground (arith, s), (plan, e, h.1))
  Planned-Fitting departure plan oc dc o d key_error e h = h
  Planned-Fitting departure plan oc dc o d assertion_error e h = h

  resolved-Fitting :
      (engine : IsEngine fl router) (budget : Val) (departure : D) (safety_enabled : Bool)
      (o d : List (SnapCandidate fl))
      → Fitting departure o d (
          route_resolved fl router budget departure safety_enabled
            (resolve_cands fl router departure o d))
  unfolding at_time
  resolved-Fitting engine budget departure safety_enabled [] d = refl
  resolved-Fitting engine budget departure safety_enabled (oc ∷ o) [] =
      (λ s. ground (arith, s), refl)
  resolved-Fitting engine budget departure safety_enabled (oc ∷ o) (dc ∷ d) =
      let snapshot = at_time fl router.sim router.pack departure in
      let basis : TrafficBasis D = record {
        source = synthetic_source;
        as_of = departure;
        profile_version = router.sim.profile_version;
      } in
      let qc = compute_costs fl router.cost router.delay router.pack snapshot in
      let chosen : Plan fl D = plan_with fl router qc basis (oc ∷ o) dc (dc ∷ d) in
      Planned-Fitting departure chosen oc dc o d _ refl (
        route_plan-Planned fl router qc basis (oc ∷ o) (dc ∷ d) dc engine budget departure
          safety_enabled (same_edge_of fl qc (oc ∷ o) (dc ∷ d) (oc ∷ o)) refl)

  -- Where the engine returns only paths from a seed to a destination, a request for routes is refused
  -- as too far exactly by the endpoint that has no candidate, the origin first. Otherwise it is
  -- answered with at least one route, and then it is not so that the ends share no edge that leads
  -- from one to the other and the search finds no path at any costs; or it is refused because there is
  -- no route, and then the ends share no such edge and the search finds no path at the fast lambda. No
  -- key is ever missing.
  pub route-Fitting :
      (origin_lat origin_lon dest_lat dest_lon : Val) (departure : D) (safety_enabled : Bool)
      (detour_budget_pct : Option Val)
      → IsEngine fl router
      → Fitting departure
          (snap fl router.snap_index origin_lat origin_lon router.snap_max_m)
          (snap fl router.snap_index dest_lat dest_lon router.snap_max_m)
          (route fl router origin_lat origin_lon dest_lat dest_lon departure safety_enabled
            detour_budget_pct)
  unfolding route resolve
  route-Fitting origin_lat origin_lon dest_lat dest_lon departure safety_enabled pct engine =
      resolved-Fitting engine (budget_of fl router pct) departure safety_enabled
        (snap fl router.snap_index origin_lat origin_lon router.snap_max_m)
        (snap fl router.snap_index dest_lat dest_lon router.snap_max_m)
