-- ===== src/Engine/Reroute.antt =====
-- A reroute from the same place, at the preference that the fast artifact carries, is that artifact.
use mathlib.Core.Option
use mathlib.Core.Option.{some-injective}
use safety_aware_route_plann.Base.{
  Bool, Option, none, some, List, [], ◌∷◌, map, ◌≡◌, ◌≢◌, refl, sym, ap, ◌∙◌, subst, inl, inr,
  arith, Bool-cases, Option-cases,
}
use safety_aware_route_plann.Float.{Float, lt}
use safety_aware_route_plann.Search.{PathResult}
use safety_aware_route_plann.Snap.{SnapCandidate}
use safety_aware_route_plann.Metrics.{arc_cost}
use safety_aware_route_plann.Alternatives.{
  Kind, fast, Alternative, compute_alternatives, compute_single,
}
use safety_aware_route_plann.Alternatives.First.{Head, compute_alternatives-Head}
use safety_aware_route_plann.Engine.{
  Preference, RouteOut, Router, Plan, Resolved, planned, unresolved, no_basis, by_edge, min_of,
  with_fastest, with_detour_pct, describe, describe_at, artifact, planner, lam_by_kind, artifacts,
  Answer, answered, key_error, described, route_plan, route_resolved, route, reroute_plan,
  reroute_resolved, reroute, resolve, budget_of,
}

module _ (fl : Float) {D : Type 0} (router : Router fl D) where
  open fl use {Val, zero_val}

  -- Where the ends share no edge, the search finds a path at the fast lambda.
  abbrev pub HasFastPath : Resolved fl D → Type 0
  HasFastPath res =
      (plan : Plan fl D)
      → res ≡ planned plan
      → plan.same_edge ≡ none
      → router.run (arc_cost fl plan.qc router.lambda_fast) plan.h plan.seeds plan.dests ≢ none

  abbrev pub as_fastest : RouteOut fl D → RouteOut fl D
  as_fastest a = record a { detour_pct = zero_val }

  -- The same artifact, but for the comparison with the others of its response.
  abbrev Same : RouteOut fl D → RouteOut fl D → Type 0
  Same a r = (as_fastest a ≡ as_fastest r) × (a.preference ≡ r.preference)

  abbrev head_or : RouteOut fl D → List (RouteOut fl D) → RouteOut fl D
  head_or d [] = d
  head_or d (r ∷ rs) = r

  with_detour_pct-Same :
      (r a : RouteOut fl D) (rs rest : List (RouteOut fl D))
      → with_detour_pct fl (r ∷ rs) ≡ a ∷ rest
      → Same a r
  unfolding with_detour_pct with_fastest
  with_detour_pct-Same r a rs rest h =
      let fastest = min_of fl r.eta_s (map (λ (x : RouteOut fl D). x.eta_s) rs) in
      elim (Bool-cases (lt fl zero_val fastest)) [
        | inl e ↦
            let made : with_fastest fl fastest (r ∷ rs) ≡ a ∷ rest =
              sym (rw (e, with_detour_pct) refl) ∙ h in
            subst (λ x. Same x r) (ap (head_or r) made) (refl, refl)
        | inr e ↦
            let made : r ∷ rs ≡ a ∷ rest = sym (rw (e, with_detour_pct) refl) ∙ h in
            subst (λ x. Same x r) (ap (head_or r) made) (refl, refl)
      ]

  abbrev preference_of : Plan fl D → Kind → Val → Val → D → Preference fl D
  preference_of plan kind lam budget departure = record {
    level = kind;
    lam = lam;
    detour_budget_pct = budget;
    departure_time = departure;
    traffic_basis = plan.basis;
  }

  -- An artifact that is described carries what it was made for.
  abbrev Plain : Plan fl D → Kind → Val → Val → D → RouteOut fl D → Type 0
  Plain plan kind lam budget departure r =
      (as_fastest r ≡ r) × (r.preference ≡ preference_of plan kind lam budget departure)

  describe_at-Plain :
      (plan : Plan fl D) (kind : Kind) (lam budget : Val) (departure : D) (x : PathResult Val)
      (oc dc : Option (SnapCandidate fl)) (r : RouteOut fl D)
      → describe_at fl router plan kind lam budget departure x oc dc ≡ some r
      → Plain plan kind lam budget departure r
  unfolding describe
  describe_at-Plain plan kind lam budget departure x none dc r h = ground (arith, h)
  describe_at-Plain plan kind lam budget departure x (some oc) none r h = ground (arith, h)
  describe_at-Plain plan kind lam budget departure x (some oc) (some dc) r h =
      subst (Plain plan kind lam budget departure) (some-injective _ _ h) (refl, refl)

  artifact-Plain :
      (plan : Plan fl D) (kind : Kind) (lam budget : Val) (departure : D) (x : PathResult Val)
      (r : RouteOut fl D)
      → artifact fl router plan kind lam budget departure x ≡ some r
      → Plain plan kind lam budget departure r
  unfolding artifact
  artifact-Plain plan kind lam budget departure x r h =
      describe_at-Plain plan kind lam budget departure x (by_edge fl plan.o_cands x.first_edge)
        (by_edge fl plan.d_cands x.dest_edge) r h

  -- What is claimed of a first artifact, by the resolved request.
  abbrev Repeats : Resolved fl D → Val → D → RouteOut fl D → Type 0
  Repeats res budget departure a =
      (a.preference.level ≡ fast)
      × (a.preference.lam ≡ router.lambda_fast)
      × (a.preference.detour_budget_pct ≡ budget)
      × (a.preference.departure_time ≡ departure)
      × (reroute_resolved fl router fast router.lambda_fast budget departure res
          ≡ answered (as_fastest a))

  Repeats-Plain :
      (res : Resolved fl D) (plan : Plan fl D) (budget : Val) (departure : D) (a r : RouteOut fl D)
      → Same a r
      → Plain plan fast router.lambda_fast budget departure r
      → reroute_resolved fl router fast router.lambda_fast budget departure res ≡ answered r
      → Repeats res budget departure a
  Repeats-Plain res plan budget departure a r (same, pref) (plain, own) h =
      let carried : a.preference ≡ preference_of plan fast router.lambda_fast budget departure =
        pref ∙ own in
      (
        ap (λ (p : Preference fl D). p.level) carried,
        ap (λ (p : Preference fl D). p.lam) carried,
        ap (λ (p : Preference fl D). p.detour_budget_pct) carried,
        ap (λ (p : Preference fl D). p.departure_time) carried,
        h ∙ ap answered (sym (same ∙ plain)),
      )

  answered-injective :
      (x y : RouteOut fl D) (xs ys : List (RouteOut fl D))
      → ◌≡◌ {A = Answer fl (List (RouteOut fl D))} (answered (x ∷ xs)) (answered (y ∷ ys))
      → x ≡ y
  answered-injective x y xs ys h = cc

  same_edge-Repeats :
      (plan : Plan fl D) (budget : Val) (departure : D) (safety_enabled : Bool) (x : PathResult Val)
      (a : RouteOut fl D) (rest : List (RouteOut fl D))
      → plan.same_edge ≡ some x
      → route_plan fl router plan budget departure safety_enabled (some x) ≡ answered (a ∷ rest)
      → Repeats (planned plan) budget departure a
  same_edge-Repeats plan budget departure safety_enabled x a rest e h =
      elim (Option-cases (artifact fl router plan fast router.lambda_fast budget departure x)) [
        | inl f ↦
            let bad : ◌≡◌ {A = Answer fl (List (RouteOut fl D))} key_error (answered (a ∷ rest)) =
              sym (rw f refl) ∙ h in
            ground (arith, bad)
        | inr (r, f) ↦
            let made : ◌≡◌ {A = Answer fl (List (RouteOut fl D))} (answered (r ∷ []))
                (answered (a ∷ rest)) =
              sym (rw f refl) ∙ h in
            let again : reroute_plan fl router plan fast router.lambda_fast budget departure
                  (some x)
                ≡ answered r =
              rw f refl in
            Repeats-Plain (planned plan) plan budget departure a r
              (subst (λ y. Same y r) (answered-injective r a [] rest made) (refl, refl))
              (artifact-Plain plan fast router.lambda_fast budget departure x r f)
              (ap (reroute_plan fl router plan fast router.lambda_fast budget departure) e ∙ again)
      ]

  -- The same path, described again.
  abbrev Described : Plan fl D → Val → D → PathResult Val → RouteOut fl D → Type 0
  Described plan budget departure plain a =
      (r : RouteOut fl D) × (artifact fl router plan fast router.lambda_fast budget departure plain
        ≡ some r)
      × Same a r

  artifacts-first :
      (plan : Plan fl D) (budget : Val) (departure : D) (plain : PathResult Val)
      (b : Alternative Val) (alts : List (Alternative Val)) (a : RouteOut fl D)
      (rest : List (RouteOut fl D))
      → (b.kind ≡ fast) × (b.result ≡ plain)
      → described fl router plan budget departure (some (b ∷ alts)) ≡ answered (a ∷ rest)
      → Described plan budget departure plain a
  unfolding artifacts Option.bind
  artifacts-first plan budget departure plain b alts a rest (kind, path) h =
      let art =
        artifact fl router plan b.kind (lam_by_kind fl router b.kind) budget departure b.result in
      elim (Option-cases art) [
        | inl e ↦
            let bad : ◌≡◌ {A = Answer fl (List (RouteOut fl D))} key_error (answered (a ∷ rest)) =
              sym (rw (e, artifacts) refl) ∙ h in
            ground (arith, bad)
        | inr (r, e) ↦ elim (Option-cases (artifacts fl router plan budget departure alts)) [
          | inl f ↦
              let bad : ◌≡◌ {A = Answer fl (List (RouteOut fl D))} key_error (answered (a ∷ rest)) =
                sym (rw (e, f, artifacts) refl) ∙ h in
              ground (arith, bad)
          | inr (rs, f) ↦
              let made : ◌≡◌ {A = Answer fl (List (RouteOut fl D))}
                  (answered (with_detour_pct fl (r ∷ rs))) (answered (a ∷ rest)) =
                sym (rw (e, f, artifacts) refl) ∙ h in
              let lists : with_detour_pct fl (r ∷ rs) ≡ a ∷ rest = cc in
              let kinds : artifact fl router plan fast router.lambda_fast budget departure plain
                  ≡ some r =
                ap
                  (λ (k : Kind).
                    artifact fl router plan k (lam_by_kind fl router k) budget departure plain)
                  (sym kind)
                ∙ ap
                    (λ (x : PathResult Val).
                      artifact fl router plan b.kind (lam_by_kind fl router b.kind) budget departure
                        x)
                    (sym path)
                ∙ e in
              (r, kinds, with_detour_pct-Same r a rs rest lists)
        ]
      ]

  alternatives-Described :
      (plan : Plan fl D) (budget : Val) (departure : D) (plain : PathResult Val)
      (alts : List (Alternative Val)) (a : RouteOut fl D) (rest : List (RouteOut fl D))
      → Head fl (planner fl router plan budget) plain alts
      → described fl router plan budget departure (some alts) ≡ answered (a ∷ rest)
      → Described plan budget departure plain a
  alternatives-Described plan budget departure plain [] a rest head h = elim head [ ]
  alternatives-Described plan budget departure plain (b ∷ alts) a rest head h =
      artifacts-first plan budget departure plain b alts a rest head h

  fast-Described :
      (plan : Plan fl D) (budget : Val) (departure : D) (safety_enabled : Bool) (a : RouteOut fl D)
      (rest : List (RouteOut fl D)) (plain : PathResult Val)
      → (planner fl router plan budget).run
          ((planner fl router plan budget).arc_cost router.lambda_fast)
        ≡ some plain
      → described fl router plan budget departure
          (compute_alternatives fl (planner fl router plan budget) safety_enabled)
        ≡ answered (a ∷ rest)
      → Described plan budget departure plain a
  fast-Described plan budget departure safety_enabled a rest plain e h =
      let p = planner fl router plan budget in
      elim (Option-cases (compute_alternatives fl p safety_enabled)) [
        | inl f ↦
            let bad : ◌≡◌ {A = Answer fl (List (RouteOut fl D))} key_error (answered (a ∷ rest)) =
              sym (ap (described fl router plan budget departure) f) ∙ h in
            ground (arith, bad)
        | inr (alts, f) ↦
            alternatives-Described plan budget departure plain alts a rest
              (compute_alternatives-Head fl p plain safety_enabled alts e f)
              (sym (ap (described fl router plan budget departure) f) ∙ h)
      ]

  alternatives-Repeats :
      (plan : Plan fl D) (budget : Val) (departure : D) (safety_enabled : Bool) (a : RouteOut fl D)
      (rest : List (RouteOut fl D))
      → HasFastPath (planned plan)
      → plan.same_edge ≡ none
      → route_plan fl router plan budget departure safety_enabled none ≡ answered (a ∷ rest)
      → Repeats (planned plan) budget departure a
  unfolding compute_single
  alternatives-Repeats plan budget departure safety_enabled a rest finds e h =
      let ac = (planner fl router plan budget).arc_cost router.lambda_fast in
      elim (Option-cases ((planner fl router plan budget).run ac)) [
        | inl f ↦ absurd (finds plan refl e f)
        | inr (plain, f) ↦
            let (r, art, same) =
              fast-Described plan budget departure safety_enabled a rest plain f h in
            let again : reroute_plan fl router plan fast router.lambda_fast budget departure none
                ≡ answered r =
              rw (f, compute_single, art) refl in
            Repeats-Plain (planned plan) plan budget departure a r same
              (artifact-Plain plan fast router.lambda_fast budget departure plain r art)
              (ap (reroute_plan fl router plan fast router.lambda_fast budget departure) e ∙ again)
      ]

  resolved-Repeats :
      (res : Resolved fl D) (budget : Val) (departure : D) (safety_enabled : Bool)
      (a : RouteOut fl D) (rest : List (RouteOut fl D))
      → HasFastPath res
      → route_resolved fl router budget departure safety_enabled res ≡ answered (a ∷ rest)
      → Repeats res budget departure a
  resolved-Repeats (planned plan) budget departure safety_enabled a rest finds h =
      elim (Option-cases plan.same_edge) [
        | inl e ↦
            alternatives-Repeats plan budget departure safety_enabled a rest finds e
              (sym (ap (route_plan fl router plan budget departure safety_enabled) e) ∙ h)
        | inr (x, e) ↦
            same_edge-Repeats plan budget departure safety_enabled x a rest e
              (sym (ap (route_plan fl router plan budget departure safety_enabled) e) ∙ h)
      ]
  resolved-Repeats (unresolved e) budget departure safety_enabled a rest finds h = cc
  resolved-Repeats no_basis budget departure safety_enabled a rest finds h = cc

  -- Where the search finds a path at the fast lambda: a reroute from the same origin, at the level, the
  -- lambda, the budget and the departure that the first artifact of a response carries, is
  -- that artifact, but for the comparison with the others of its response.
  pub route-reroute :
      (origin_lat origin_lon dest_lat dest_lon : Val) (departure : D) (safety_enabled : Bool)
      (detour_budget_pct : Option Val) (a : RouteOut fl D) (rest : List (RouteOut fl D))
      → HasFastPath (resolve fl router origin_lat origin_lon dest_lat dest_lon departure)
      → route fl router origin_lat origin_lon dest_lat dest_lon departure safety_enabled
          detour_budget_pct
        ≡ answered (a ∷ rest)
      → reroute fl router origin_lat origin_lon dest_lat dest_lon a.preference.level
          a.preference.lam a.preference.detour_budget_pct a.preference.departure_time
        ≡ answered (as_fastest a)
  unfolding route reroute
  route-reroute origin_lat origin_lon dest_lat dest_lon departure safety_enabled pct a rest finds
        h =
      let budget = budget_of fl router pct in
      let res = resolve fl router origin_lat origin_lon dest_lat dest_lon departure in
      let (level, lam, own, at, again) =
        resolved-Repeats res budget departure safety_enabled a rest finds h in
      let again_at = reroute fl router origin_lat origin_lon dest_lat dest_lon in
      let pref = a.preference in
      ap (λ (k : Kind). again_at k pref.lam pref.detour_budget_pct pref.departure_time) level
      ∙ ap (λ (l : Val). again_at fast l pref.detour_budget_pct pref.departure_time) lam
      ∙ ap (λ (b : Val). again_at fast router.lambda_fast b pref.departure_time) own
      ∙ ap (λ (t : D). again_at fast router.lambda_fast budget t) at
      ∙ again
