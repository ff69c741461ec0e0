-- ===== src/Engine/Total.antt =====
-- Where a request ends: in routes, or in one of the errors that a user is told.
use mathlib.Core.Option
use mathlib.Core.Option.{some-injective}
use safety_aware_route_plann.Base.{
  ℕ, Bool, Option, none, some, List, [], ◌∷◌, map, ◌==◌, All, dict_get, ◌≡◌, ◌≢◌, refl, sym, ◌∙◌,
  subst, inl, inr, arith, Bool-cases, Option-cases,
}
use safety_aware_route_plann.Float.{Float, le}
use safety_aware_route_plann.Search.{PathResult}
use safety_aware_route_plann.Snap.{SnapCandidate}
use safety_aware_route_plann.Sim.{TrafficBasis}
use safety_aware_route_plann.Metrics.{QueryCosts, arc_cost}
use safety_aware_route_plann.Alternatives.{Kind, fast, Alternative, compute_alternatives}
use safety_aware_route_plann.Alternatives.Total.{
  Given, Known, IsEnded, IsEnded-Known, Known-IsBetween, compute_alternatives-Given,
}
use safety_aware_route_plann.Alternatives.First.{
  compute_alternatives-Head, compute_alternatives-nothing,
}
use safety_aware_route_plann.Alternatives.Results.{
  compute_alternatives-Knowns, compute_single-Given,
}
use safety_aware_route_plann.Engine.{
  no_route, RouteOut, Router, Plan, by_edge, same_edge_at, same_edge_of, plan_with, artifact,
  planner, lam_by_kind, artifacts, Answer, answered, refused, key_error, assertion_error, described,
  route_plan, describe, with_detour_pct, with_fastest, reroute_plan,
}

-- A key of one dictionary of the candidates is a key of another.
dict_get-Given :
    {C V W : Type 0} (key : C → ℕ) (f : C → V) (g : C → W) (cs : List C) (k : ℕ) (v : V)
    → dict_get (map (λ c. (key c, f c)) cs) k ≡ some v
    → Given (dict_get (map (λ c. (key c, g c)) cs) k)
dict_get-Given key f g [] k v h = ground (arith, h)
dict_get-Given {C} {V} {W} key f g (c ∷ cs) k v h =
    elim (Option-cases (dict_get (map (λ c. (key c, g c)) cs) k)) [
      | inr (w, e) ↦ (w, rw e refl)
      | inl e ↦ elim (Bool-cases (key c == k)) [
        | inl s ↦ (g c, rw (e, s) refl)
        | inr s ↦ elim (Option-cases (dict_get (map (λ c. (key c, f c)) cs) k)) [
          | inl n ↦ let bad : none ≡ some v = sym (rw (n, s) refl) ∙ h in ground (arith, bad)
          | inr (u, m) ↦
              let (w, there) = dict_get-Given key f g cs k u m in
              let bad : none ≡ some w = sym e ∙ there in ground (arith, bad)
        ]
      ]
    ]

module _ (fl : Float) {D : Type 0} (router : Router fl D) where
  open fl use {Val}

  -- What both engines promise: a path starts at a seed and ends at a destination.
  abbrev pub IsEngine : Type 0
  IsEngine =
      (ac : ℕ → Val) (h : Option (ℕ → Val)) (seeds dests : List (ℕ × Val)) (r : PathResult Val)
      → router.run ac h seeds dests ≡ some r
      → Given (dict_get seeds r.first_edge) × Given (dict_get dests r.dest_edge)

  -- Neither an edge in common nor a path of the search, whatever the costs.
  abbrev pub HasNoPath : Plan fl D → Type 0
  HasNoPath plan =
      (plan.same_edge ≡ none) × ((ac : ℕ → Val) → router.run ac plan.h plan.seeds plan.dests ≡ none)

  -- Neither an edge in common nor a path of the search at the fast lambda.
  abbrev pub HasNoFastPath : Plan fl D → Type 0
  HasNoFastPath plan =
      (plan.same_edge ≡ none)
      × (router.run (arc_cost fl plan.qc router.lambda_fast) plan.h plan.seeds plan.dests ≡ none)

  -- Routes, at least one, where there is a path; or no route, where none is found.
  abbrev pub Planned : Plan fl D → Answer fl (List (RouteOut fl D)) → Type 0
  Planned plan (answered rs) = (rs ≢ []) × (HasNoPath plan → ⊥)
  Planned plan (refused e) = (e ≡ no_route) × HasNoFastPath plan
  Planned plan key_error = ⊥
  Planned plan assertion_error = ⊥

  -- A reroute: one route, or none.
  abbrev pub PlannedOne : Answer fl (RouteOut fl D) → Type 0
  PlannedOne (answered r) = Unit
  PlannedOne (refused e) = e ≡ no_route
  PlannedOne key_error = ⊥
  PlannedOne assertion_error = ⊥

  module _ (qc : QueryCosts fl) (basis : TrafficBasis D) (o d : List (SnapCandidate fl))
      (dc : SnapCandidate fl) where
    abbrev pub plan : Plan fl D
    plan = plan_with fl router qc basis o dc d

    artifact-Given :
        (kind : Kind) (lam budget : Val) (departure : D) (r : PathResult Val)
        → Given (dict_get plan.seeds r.first_edge)
        → Given (dict_get plan.dests r.dest_edge)
        → Given (artifact fl router plan kind lam budget departure r)
    unfolding artifact by_edge
    artifact-Given kind lam budget departure r (a, e) (b, f) =
        let key = λ (c : SnapCandidate fl). c.edge in
        let same = λ (c : SnapCandidate fl). c in
        let (oc, g) =
          dict_get-Given key (λ c. fl.mul (fl.sub fl.one_val c.frac) (qc.edge_time_s c.edge)) same o
            r.first_edge a e in
        let (c, k) =
          dict_get-Given key (λ c. fl.mul (fl.sub c.frac fl.one_val) (qc.edge_time_s c.edge)) same d
            r.dest_edge b f in
        (describe fl router plan kind lam budget departure r oc c, rw (g, k, artifact) refl)

    same_edge-Given :
        (cs : List (SnapCandidate fl)) (kind : Kind) (lam budget : Val) (departure : D)
        (r : PathResult Val)
        → same_edge_of fl qc o d cs ≡ some r
        → Given (artifact fl router plan kind lam budget departure r)
    unfolding same_edge_of
    same_edge-Given [] kind lam budget departure r h = ground (arith, h)
    same_edge-Given (c ∷ cs) kind lam budget departure r h =
        elim (Option-cases (by_edge fl o c.edge)) [
          | inl e ↦
              same_edge-Given cs kind lam budget departure r
                (sym (unfold same_edge_at in rw e refl) ∙ h)
          | inr (oc, e) ↦ elim (Option-cases (by_edge fl d c.edge)) [
            | inl f ↦
                same_edge-Given cs kind lam budget departure r
                  (sym (unfold same_edge_at in rw (e, f) refl) ∙ h)
            | inr (k, f) ↦ elim (Bool-cases (le fl oc.frac k.frac)) [
              | inr g ↦
                  same_edge-Given cs kind lam budget departure r
                    (sym (unfold same_edge_at in rw (e, f, g) refl) ∙ h)
              | inl g ↦
                  let direct : PathResult Val = record {
                    turn_ids = [];
                    first_edge = c.edge;
                    dest_edge = c.edge;
                    total_cost = fl.mul (fl.sub k.frac oc.frac) (qc.edge_time_s c.edge);
                  } in
                  let made : some direct ≡ some r =
                    sym (unfold same_edge_at in rw (e, f, g) refl) ∙ h in
                  let out : Given (artifact fl router plan kind lam budget departure direct) = (
                    describe fl router plan kind lam budget departure direct oc k,
                    unfold artifact in rw (e, f) refl,
                  ) in
                  subst (λ x. Given (artifact fl router plan kind lam budget departure x))
                    (some-injective _ _ made) out
            ]
          ]
        ]

    module _ (engine : IsEngine) (budget : Val) where
      ended : IsEnded fl (planner fl router plan budget)
      ended ac r h = engine ac plan.h plan.seeds plan.dests r h

      known :
          (ac : ℕ → Val) (r : PathResult Val)
          → (planner fl router plan budget).run ac ≡ some r
          → Known fl (planner fl router plan budget) r
      known = IsEnded-Known fl (planner fl router plan budget) ended

      Known-artifact :
          (kind : Kind) (lam : Val) (departure : D) (r : PathResult Val)
          → Known fl (planner fl router plan budget) r
          → Given (artifact fl router plan kind lam budget departure r)
      Known-artifact kind lam departure r k =
          let (first, last) = Known-IsBetween fl (planner fl router plan budget) r k in
          artifact-Given kind lam budget departure r first last

      artifacts-Given :
          (departure : D) (alts : List (Alternative Val))
          → All (λ (a : Alternative Val). Known fl (planner fl router plan budget) a.result) alts
          → (rs : List (RouteOut fl D)) × (artifacts fl router plan budget departure alts ≡ some rs)
            × (alts ≢ [] → rs ≢ [])
      unfolding artifacts Option.bind
      artifacts-Given departure [] h = ([], refl, λ n. absurd (n refl))
      artifacts-Given departure (a ∷ alts) h =
          let (r, e) =
            Known-artifact a.kind (lam_by_kind fl router a.kind) departure a.result h.0 in
          let (rs, f, filled) = artifacts-Given departure alts h.1 in
          (r ∷ rs, rw (e, f, artifacts) refl, λ n s. ground (arith, s))

      detour-filled : (rs : List (RouteOut fl D)) → rs ≢ [] → with_detour_pct fl rs ≢ []
      unfolding with_detour_pct with_fastest
      detour-filled [] h = absurd (h refl)
      detour-filled (r ∷ rs) h = ground arith

      fast_none :
          (safety_enabled : Bool)
          → compute_alternatives fl (planner fl router plan budget) safety_enabled ≡ some []
          → router.run (arc_cost fl qc router.lambda_fast) plan.h plan.seeds plan.dests ≡ none
      fast_none safety_enabled e =
          elim (Option-cases
            (router.run (arc_cost fl qc router.lambda_fast) plan.h plan.seeds plan.dests)) [
              | inl n ↦ n
              | inr (plain, n) ↦ absurd (
                  compute_alternatives-Head fl (planner fl router plan budget) plain safety_enabled
                    [] n e)
            ]

      described-Planned :
          (departure : D) (safety_enabled : Bool) (alts : List (Alternative Val))
          → compute_alternatives fl (planner fl router plan budget) safety_enabled ≡ some alts
          → plan.same_edge ≡ none
          → Planned plan (described fl router plan budget departure (some alts))
      described-Planned departure safety_enabled [] e apart =
          (refl, (apart, fast_none safety_enabled e))
      described-Planned departure safety_enabled (a ∷ alts) e apart =
          let p = planner fl router plan budget in
          let (rs, f, filled) =
            artifacts-Given departure (a ∷ alts)
              (compute_alternatives-Knowns fl p safety_enabled (a ∷ alts) known e) in
          let some_path : HasNoPath plan → ⊥ = λ (same, nowhere).
            let bad : some (a ∷ alts) ≡ some [] =
              sym e ∙ compute_alternatives-nothing fl p safety_enabled nowhere in
            ground (arith, bad) in
          rw f (detour-filled rs (filled (λ s. ground (arith, s))), some_path)

      pub route_plan-Planned :
          (departure : D) (safety_enabled : Bool) (same : Option (PathResult Val))
          → same_edge_of fl qc o d o ≡ same
          → Planned plan (route_plan fl router plan budget departure safety_enabled same)
      route_plan-Planned departure safety_enabled (some r) h =
          let (a, e) = same_edge-Given o fast router.lambda_fast budget departure r h in
          let some_path : HasNoPath plan → ⊥ =
            λ (same, nowhere). let bad : some r ≡ none = sym h ∙ same in ground (arith, bad) in
          rw e (λ s. ground (arith, s), some_path)
      route_plan-Planned departure safety_enabled none h =
          let p = planner fl router plan budget in
          let (alts, e) = compute_alternatives-Given fl p safety_enabled ended in
          rw e (described-Planned departure safety_enabled alts e h)

      pub reroute_plan-Planned :
          (level : Kind) (lam : Val) (departure : D) (same : Option (PathResult Val))
          → same_edge_of fl qc o d o ≡ same
          → PlannedOne (reroute_plan fl router plan level lam budget departure same)
      reroute_plan-Planned level lam departure (some r) h =
          let (a, e) = same_edge-Given o level lam budget departure r h in rw e tt
      reroute_plan-Planned level lam departure none h =
          let p = planner fl router plan budget in
          let (found, e, k) = compute_single-Given fl p level lam known in
          elim (Option-cases found) [
            | inl n ↦ rw (e, n) refl
            | inr (r, n) ↦
                let (a, f) = Known-artifact level lam departure r (k r n) in rw (e, n, f) tt
          ]
