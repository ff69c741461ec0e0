-- ===== src/Alternatives/Total.antt =====
-- No key is missing: the computation of the alternatives gives a result.
use mathlib.Core.Option
use mathlib.Core.Option.{some-injective}
use safety_aware_route_plann.Base.{
  ℕ, zero, suc, Bool, ◌&&◌, Option, none, some, List, [], ◌∷◌, ltb, if◌then◌else◌, All, ◌≡◌, refl,
  sym, ◌∙◌, subst, map, dict_get, inl, inr, arith, Bool-cases, Option-cases,
}
use safety_aware_route_plann.Float.{Float, lt, le}
use safety_aware_route_plann.Search.{PathResult}
use safety_aware_route_plann.Alternatives.{
  Kind, Alternative, Planner, Sweep, is_safe, travel_time_s, unsafe_count, edge_set, is_duplicate,
  limit_s, any_flagged, avoid_cost, avoid_within_budget, inflate, rerun, improve, offer, baseline,
  try_level, try_all, levels, keep_if, within_budget, ceiling, relabel, compute_alternatives,
}
use safety_aware_route_plann.Alternatives.Offered.{All-last}

-- A value is there.
abbrev pub Given : {A : Type 0} → Option A → Type 0
Given {A} o = (a : A) × (o ≡ some a)

module _ (fl : Float) (p : Planner fl) where
  open fl use {Val, zero_val}

  -- The first edge is a key of the seeds, and the last one a key of the destinations.
  abbrev pub IsBetween : PathResult Val → Type 0
  IsBetween r = Given (dict_get p.seeds r.first_edge) × Given (dict_get p.dests r.dest_edge)

  -- The travel time is there.
  abbrev pub Known : PathResult Val → Type 0
  Known r = Given (travel_time_s fl p r)

  IsBetween-Known : (r : PathResult Val) → IsBetween r → Known r
  unfolding travel_time_s Option.bind
  IsBetween-Known r ((a, e), (b, f)) = (
    fl.add (fl.add a (p.sum (map (p.arc_cost zero_val) r.turn_ids))) b,
    rw (e, f, travel_time_s) refl,
  )

  pub Known-IsBetween : (r : PathResult Val) → Known r → IsBetween r
  unfolding travel_time_s Option.bind
  Known-IsBetween r (t, k) = elim (Option-cases (dict_get p.seeds r.first_edge)) [
    | inl e ↦ let bad : none ≡ some t = sym (rw (e, travel_time_s) refl) ∙ k in ground (arith, bad)
    | inr (a, e) ↦ elim (Option-cases (dict_get p.dests r.dest_edge)) [
      | inl f ↦
          let bad : none ≡ some t = sym (rw (e, f, travel_time_s) refl) ∙ k in ground (arith, bad)
      | inr (b, f) ↦ ((a, e), (b, f))
    ]
  ]

  -- What the search promises: its results run from a seed to a destination.
  abbrev pub IsEnded : Type 0
  IsEnded = (ac : ℕ → Val) (r : PathResult Val) → p.run ac ≡ some r → IsBetween r

  pub IsEnded-Known : IsEnded → (ac : ℕ → Val) (r : PathResult Val) → p.run ac ≡ some r → Known r
  IsEnded-Known ended ac r h = IsBetween-Known r (ended ac r h)

  module _ (known : (ac : ℕ → Val) (r : PathResult Val) → p.run ac ≡ some r → Known r) where
    pub avoid-Given :
        (lam t : Val) (n : ℕ)
        → (o : Option (PathResult Val × (ℕ → Val))) × (avoid_within_budget fl p lam t n ≡ some o)
          × ((chosen : PathResult Val × (ℕ → Val)) → o ≡ some chosen → Known chosen.0)
    unfolding avoid_within_budget
    avoid-Given lam t n = elim (Bool-cases (any_flagged p.turn_unsafe_type p.num_turns)) [
      | inr e ↦ (none, rw (e, avoid_within_budget) refl, λ c h. ground (arith, h))
      | inl e ↦ elim (Option-cases (p.run (avoid_cost fl p lam))) [
        | inl f ↦ (none, rw (e, f, avoid_within_budget) refl, λ c h. ground (arith, h))
        | inr (r, f) ↦ elim (Bool-cases (ltb (unsafe_count fl p r) n)) [
          | inr g ↦ (none, rw (e, f, g, avoid_within_budget) refl, λ c h. ground (arith, h))
          | inl g ↦
              let (u, k) = known (avoid_cost fl p lam) r f in
              elim (Bool-cases (lt fl (limit_s fl p t) u)) [
                | inl over ↦ (
                  none,
                  rw (e, f, g, k, over, avoid_within_budget) refl,
                  λ c h. ground (arith, h),
                )
                | inr fits ↦ (
                  some (r, avoid_cost fl p lam),
                  rw (e, f, g, k, fits, avoid_within_budget) refl,
                  λ c h.
                      subst (λ (c : PathResult Val × (ℕ → Val)). Known c.0) (some-injective _ _ h)
                        (u, k),
                )
              ]
        ]
      ]
    ]

    improve-Given :
        (kind : Kind) (lam t : Val) (r : PathResult Val)
        → Known r
        → (chosen : PathResult Val × (ℕ → Val)) × (improve fl p kind lam t r ≡ some chosen)
          × Known chosen.0
    unfolding improve
    improve-Given kind lam t r k =
        elim (Bool-cases
          (is_safe kind && lt fl zero_val p.detour_budget_pct && ltb 0 (unsafe_count fl p r))) [
            | inr e ↦ ((r, p.arc_cost lam), rw (e, improve) refl, k)
            | inl e ↦
                let (o, f, h) = avoid-Given lam t (unsafe_count fl p r) in
                elim (Option-cases o) [
                  | inl g ↦ ((r, p.arc_cost lam), rw (e, f, g, improve) refl, k)
                  | inr (better, g) ↦ (better, rw (e, f, g, improve) refl, h better g)
                ]
          ]

    rerun-Known :
        (n : ℕ) (sets : List (List ℕ)) (ac : ℕ → Val) (r : PathResult Val)
        → Known r
        → Known (rerun fl p n sets ac r)
    unfolding rerun
    rerun-Known zero sets ac r k = k
    rerun-Known (suc n) sets ac r k = elim (Bool-cases (is_duplicate fl p (edge_set fl p r) sets)) [
      | inr e ↦ rw (e, rerun) k
      | inl e ↦ elim (Option-cases (p.run (inflate fl p sets (edge_set fl p r) ac))) [
        | inl f ↦ rw (e, f, rerun) k
        | inr (r2, f) ↦
            rw (e, f, rerun)
              (rerun-Known n sets (inflate fl p sets (edge_set fl p r) ac) r2
                (known (inflate fl p sets (edge_set fl p r) ac) r2 f))
      ]
    ]

    abbrev pub AllKnown : Sweep fl p → Type 0
    AllKnown s = All (λ (a : Alternative Val). Known a.result) s.kept

    offer-AllKnown :
        (s : Sweep fl p) (kind : Kind) (lam : Val) (n : ℕ) (r : PathResult Val)
        → AllKnown s
        → Known r
        → AllKnown (offer fl p s kind lam n r)
    unfolding offer
    offer-AllKnown s kind lam n r h k =
        elim (Bool-cases (is_duplicate fl p (edge_set fl p r) s.kept_edge_sets)) [
          | inl e ↦ rw (e, offer) h
          | inr e ↦ elim (Bool-cases (ltb n (unsafe_count fl p r))) [
            | inl f ↦ rw (e, f, offer) h
            | inr f ↦
                rw (e, f, offer)
                  (All-last (λ (a : Alternative Val). Known a.result) s.kept
                    (record { kind = kind; lam = lam; result = r }) h k)
          ]
        ]

    baseline-Given : (o : Option Val) (r : PathResult Val) → Known r → Given (baseline fl p o r)
    baseline-Given none r k = k
    baseline-Given (some t) r k = (t, refl)

    try_level-Given :
        (s : Sweep fl p) (kind : Kind) (lam : Val)
        → AllKnown s
        → (u : Sweep fl p) × (try_level fl p s kind lam ≡ some u) × AllKnown u
    unfolding try_level Option.bind
    try_level-Given s kind lam h = elim (Option-cases (p.run (p.arc_cost lam))) [
      | inl e ↦ (s, rw (e, try_level) refl, h)
      | inr (r, e) ↦
          let k = known (p.arc_cost lam) r e in
          let (t, f) = baseline-Given s.fast_time_s r k in
          let (chosen, g, c) = improve-Given kind lam t r k in
          let timed : Sweep fl p = record s { fast_time_s = some t } in
          let last : PathResult Val = rerun fl p p.max_reruns s.kept_edge_sets chosen.1 chosen.0 in
          (
            offer fl p timed kind lam (unsafe_count fl p chosen.0) last,
            rw (e, f, g, try_level) refl,
            offer-AllKnown timed kind lam (unsafe_count fl p chosen.0) last h
                (rerun-Known p.max_reruns s.kept_edge_sets chosen.1 chosen.0 c),
          )
    ]

    pub try_all-Given :
        (s : Sweep fl p) (levels : List (Kind × Val))
        → AllKnown s
        → (u : Sweep fl p) × (try_all fl p s levels ≡ some u) × AllKnown u
    unfolding try_all Option.bind
    try_all-Given s [] h = (s, refl, h)
    try_all-Given s ((kind, lam) ∷ rest) h =
        let (v, e, k) = try_level-Given s kind lam h in
        let (u, f, l) = try_all-Given v rest k in (u, rw (e, f, try_all) refl, l)

    within_budget-Given :
        (limit : Val) (kept : List (Alternative Val))
        → All (λ (a : Alternative Val). Known a.result) kept
        → Given (within_budget fl p limit kept)
    unfolding within_budget Option.bind
    within_budget-Given limit [] h = ([], refl)
    within_budget-Given limit (a ∷ kept) h =
        let (t, e) = h.0 in
        let (rest, f) = within_budget-Given limit kept h.1 in
        (keep_if fl p (le fl t limit) a rest, rw (e, f, within_budget) refl)

    ceiling-Given :
        (fast_time_s : Option Val) (kept : List (Alternative Val))
        → All (λ (a : Alternative Val). Known a.result) kept
        → Given (ceiling fl p fast_time_s kept)
    unfolding ceiling
    ceiling-Given none kept h = (kept, refl)
    ceiling-Given (some t) [] h = ([], refl)
    ceiling-Given (some t) (a ∷ rest) h =
        let (others, e) = within_budget-Given (limit_s fl p t) rest h.1 in
        (a ∷ others, rw (e, ceiling) refl)

  -- Where the first edge of every result of the search is a key of the seeds and its last one a key of
  -- the destinations, no dictionary misses a key: the alternatives are computed.
  pub compute_alternatives-Given :
      (safety_enabled : Bool) → IsEnded → Given (compute_alternatives fl p safety_enabled)
  unfolding compute_alternatives Option.bind
  compute_alternatives-Given safety_enabled ended =
      let known = IsEnded-Known ended in
      let start : Sweep fl p = record { kept = []; kept_edge_sets = []; fast_time_s = none } in
      let (s, e, h) = try_all-Given known start (levels fl p safety_enabled) tt in
      let (kept, f) = ceiling-Given known s.fast_time_s s.kept h in
      (if safety_enabled then relabel fl p kept else kept, rw (e, f, compute_alternatives) refl)
