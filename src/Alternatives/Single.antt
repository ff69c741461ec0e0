-- ===== src/Alternatives/Single.antt =====
-- The one route of a reroute.
use mathlib.Core.Option
use mathlib.Core.Option.{some-injective}
use safety_aware_route_plann.Base.{
  ◌<◌, true, false, ◌&&◌, none, some, ltb, ◌≡◌, refl, sym, ◌∙◌, subst, ◌⊎◌, inl, inr, arith,
  Bool-cases, Option-cases,
}
use safety_aware_route_plann.Float.{Float, lt}
use safety_aware_route_plann.Search.{PathResult}
use safety_aware_route_plann.Alternatives.{
  Kind, Planner, is_safe, travel_time_s, unsafe_count, limit_s, avoid_within_budget, compute_single,
}
use safety_aware_route_plann.Alternatives.Offered.{avoid-safer}

module _ (fl : Float) (p : Planner fl) where
  open fl use {Val, zero_val}

  -- Strictly safer than the plain route, and not over the budget measured against the fastest.
  abbrev pub Affordable : PathResult Val → PathResult Val → Type 0
  Affordable plain r =
      (unsafe_count fl p r < unsafe_count fl p plain)
      × ((fastest : PathResult Val) × (p.run (p.arc_cost zero_val) ≡ some fastest)
          × ((t u : Val) × (travel_time_s fl p fastest ≡ some t)
              × (travel_time_s fl p r ≡ some u)
              × (lt fl (limit_s fl p t) u ≡ false)))

  -- A reroute returns the plain optimum at the carried lambda or, for the level "safe", a route with
  -- strictly fewer unsafe manoeuvres whose travel time is within the budget over the fastest.
  pub compute_single_sound :
      (level : Kind) (lam : Val) (plain r : PathResult Val)
      → p.run (p.arc_cost lam) ≡ some plain
      → compute_single fl p level lam ≡ some (some r)
      → (r ≡ plain) ⊎ ((is_safe level ≡ true) × Affordable plain r)
  unfolding compute_single Option.bind
  compute_single_sound level lam plain r run h =
      elim (Bool-cases
        (is_safe level && lt fl zero_val p.detour_budget_pct && ltb 0 (unsafe_count fl p plain))) [
          | inr e ↦
              let made : some (some plain) ≡ some (some r) =
                sym (rw (run, e, compute_single) refl) ∙ h in
              inl (sym (some-injective _ _ (some-injective _ _ made)))
          | inl e ↦ elim (Option-cases (p.run (p.arc_cost zero_val))) [
            | inl f ↦
                let made : some (some plain) ≡ some (some r) =
                  sym (rw (run, e, f, compute_single) refl) ∙ h in
                inl (sym (some-injective _ _ (some-injective _ _ made)))
            | inr (fastest, f) ↦ elim (Option-cases (travel_time_s fl p fastest)) [
              | inl g ↦
                  let bad : none ≡ some (some r) =
                    sym (rw (run, e, f, g, compute_single) refl) ∙ h in
                  ground (arith, bad)
              | inr (t, g) ↦
                  elim (Option-cases (avoid_within_budget fl p lam t (unsafe_count fl p plain))) [
                    | inl k ↦
                        let bad : none ≡ some (some r) =
                          sym (rw (run, e, f, g, k, compute_single) refl) ∙ h in
                        ground (arith, bad)
                    | inr (none, k) ↦
                        let made : some (some plain) ≡ some (some r) =
                          sym (rw (run, e, f, g, k, compute_single) refl) ∙ h in
                        inl (sym (some-injective _ _ (some-injective _ _ made)))
                    | inr (some (r2, ac), k) ↦
                        let made : some (some r2) ≡ some (some r) =
                          sym (rw (run, e, f, g, k, compute_single) refl) ∙ h in
                        let (fewer, (u, time, fits)) =
                          avoid-safer fl p lam t (unsafe_count fl p plain) r2 ac k in
                        let is_level : is_safe level ≡ true = ground (arith, e) in
                        inr (
                          is_level,
                          subst (Affordable plain) (some-injective _ _ (some-injective _ _ made))
                              (fewer, (fastest, f, (t, u, g, time, fits))),
                        )
                  ]
            ]
          ]
        ]
