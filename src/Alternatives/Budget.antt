-- ===== src/Alternatives/Budget.antt =====
-- The first route offered is the plain optimum at the lambda of "fast", and its travel time is what
-- the budget is measured against.
use mathlib.Core.Option
use mathlib.Core.Option.{some-injective}
use safety_aware_route_plann.Base.{
  ℕ, zero, suc, Bool, true, false, Option, none, some, List, [], ◌∷◌, ◌++◌, ltb, All, ◌≡◌, refl,
  sym, ap, ◌∙◌, subst, inl, inr, arith, Bool-cases, Option-cases, le→ltb,
}
use safety_aware_route_plann.Float.{Float, le}
use safety_aware_route_plann.Search.{PathResult}
use safety_aware_route_plann.Alternatives.{
  Kind, fast, balanced, safe, Alternative, Planner, Sweep, travel_time_s, unsafe_count, edge_set,
  is_duplicate, limit_s, rerun, improve, offer, try_level, try_all, levels, within_budget, ceiling,
  relabel, compute_alternatives,
}
use safety_aware_route_plann.Alternatives.Offered.{
  Pairwise, Differ, Safe, Within, same_route, IsSweep, IsSweep-try_all, within_budget-IsSub,
  relabel_rest-same, relabel_rest-Differ,
}

module _ (fl : Float) (p : Planner fl) where
  open fl use {Val, zero_val}

  -- The first route kept, and the baseline.
  abbrev Leads : Alternative Val → Val → Sweep fl p → Type 0
  Leads x t s = ((rest : List (Alternative Val)) × (s.kept ≡ x ∷ rest)) × (s.fast_time_s ≡ some t)

  Leads-offer :
      (x : Alternative Val) (t : Val) (s : Sweep fl p) (kind : Kind) (lam : Val) (base : ℕ)
      (r : PathResult Val)
      → Leads x t s
      → Leads x t (offer fl p s kind lam base r)
  unfolding offer
  Leads-offer x t s kind lam base r ((rest, e), f) =
      elim (Bool-cases (is_duplicate fl p (edge_set fl p r) s.kept_edge_sets)) [
        | inl dup ↦ rw (dup, offer) ((rest, e), f)
        | inr new ↦ elim (Bool-cases (ltb base (unsafe_count fl p r))) [
          | inl worse ↦ rw (new, worse, offer) ((rest, e), f)
          | inr fine ↦
              let y : Alternative Val = record { kind = kind; lam = lam; result = r } in
              rw (new, fine, offer) ((rest ++ y ∷ [], ap (λ l. l ++ y ∷ []) e), f)
        ]
      ]

  Leads-try_level :
      (x : Alternative Val) (t : Val) (s u : Sweep fl p) (kind : Kind) (lam : Val)
      → Leads x t s
      → try_level fl p s kind lam ≡ some u
      → Leads x t u
  unfolding try_level Option.bind
  Leads-try_level x t s u kind lam h e = elim (Option-cases (p.run (p.arc_cost lam))) [
    | inl f ↦
        let made : some s ≡ some u = sym (rw (f, try_level) refl) ∙ e in
        subst (Leads x t) (some-injective _ _ made) h
    | inr (r, f) ↦ elim (Option-cases (improve fl p kind lam t r)) [
      | inl k ↦
          let bad : none ≡ some u = sym (rw (f, h.1, k, try_level) refl) ∙ e in ground (arith, bad)
      | inr (chosen, k) ↦
          let timed : Sweep fl p = record s { fast_time_s = some t } in
          let last : PathResult Val = rerun fl p p.max_reruns s.kept_edge_sets chosen.1 chosen.0 in
          let made : some (offer fl p timed kind lam (unsafe_count fl p chosen.0) last) ≡ some u =
            sym (rw (f, h.1, k, try_level) refl) ∙ e in
          subst (Leads x t) (some-injective _ _ made)
            (Leads-offer x t timed kind lam (unsafe_count fl p chosen.0) last (h.0, refl))
    ]
  ]

  Leads-try_all :
      (x : Alternative Val) (t : Val) (s u : Sweep fl p) (levels : List (Kind × Val))
      → Leads x t s
      → try_all fl p s levels ≡ some u
      → Leads x t u
  unfolding try_all Option.bind
  Leads-try_all x t s u [] h e = subst (Leads x t) (some-injective _ _ e) h
  Leads-try_all x t s u ((kind, lam) ∷ rest) h e = elim (Option-cases (try_level fl p s kind lam)) [
    | inl f ↦ let bad : none ≡ some u = sym (rw (f, try_all) refl) ∙ e in ground (arith, bad)
    | inr (v, f) ↦
        Leads-try_all x t v u rest (Leads-try_level x t s v kind lam h f)
          (sym (rw (f, try_all) refl) ∙ e)
  ]

  abbrev nothing_yet : Sweep fl p
  nothing_yet = record { kept = []; kept_edge_sets = []; fast_time_s = none }

  rerun-first : (n : ℕ) (ac : ℕ → Val) (r : PathResult Val) → rerun fl p n [] ac r ≡ r
  unfolding rerun
  rerun-first zero ac r = refl
  rerun-first (suc n) ac r = refl

  first_level :
      (r : PathResult Val) (s : Sweep fl p)
      → p.run (p.arc_cost p.lambda_fast) ≡ some r
      → try_level fl p nothing_yet fast p.lambda_fast ≡ some s
      → (t : Val) × (travel_time_s fl p r ≡ some t)
        × Leads (record { kind = fast; lam = p.lambda_fast; result = r }) t s
  unfolding try_level improve offer Option.bind
  first_level r s f e = elim (Option-cases (travel_time_s fl p r)) [
    | inl g ↦ let bad : none ≡ some s = sym (rw (f, g, try_level) refl) ∙ e in ground (arith, bad)
    | inr (t, g) ↦
        let x : Alternative Val = record { kind = fast; lam = p.lambda_fast; result = r } in
        let made : some (record {
          kept = x ∷ [];
          kept_edge_sets = edge_set fl p r ∷ [];
          fast_time_s = some t;
        })
            ≡ some s =
          sym (
            rw
              (
                f,
                g,
                rerun-first p.max_reruns (p.arc_cost p.lambda_fast) r,
                le→ltb (unsafe_count fl p r) (unsafe_count fl p r) (omega arith),
                try_level,
                improve,
                offer,
              )
              refl)
          ∙ e in
        (t, g, subst (Leads x t) (some-injective _ _ made) (([], refl), refl))
  ]

  -- The first route is the given one, at the lambda of "fast"; every other takes at most the limit;
  -- no two are the same route; none is less safe than the plain optimum at its lambda.
  abbrev pub IsOffer : PathResult Val → Val → List (Alternative Val) → Type 0
  IsOffer r t [] = ⊥
  IsOffer r t (a ∷ others) =
      ((a.kind ≡ fast) × (a.lam ≡ p.lambda_fast) × (a.result ≡ r))
      × All (Within fl p (limit_s fl p t)) others
      × Pairwise (Differ fl p) (a ∷ others)
      × All (λ (b : Alternative Val). Safe fl p b.lam b.result) (a ∷ others)

  IsOffer-relabel :
      (r : PathResult Val) (t : Val) (out : List (Alternative Val))
      → IsOffer r t out
      → IsOffer r t (relabel fl p out)
  unfolding relabel
  IsOffer-relabel r t [] h = h
  IsOffer-relabel r t (a ∷ []) h = h
  IsOffer-relabel r t (a ∷ b ∷ rest) (lead, within, distinct, guarded) = (
    (refl, lead.1, lead.2),
    relabel_rest-same fl p
        (λ l u.
          (time_s : Val) × (travel_time_s fl p u ≡ some time_s)
          × (le fl time_s (limit_s fl p t) ≡ true))
        (b ∷ rest) within,
    (
      relabel_rest-same fl p (λ l u. same_route fl p u a.result ≡ false) (b ∷ rest) distinct.0,
      relabel_rest-Differ fl p (b ∷ rest) distinct.1,
    ),
    (guarded.0, relabel_rest-same fl p (Safe fl p) (b ∷ rest) guarded.1),
  )

  cut-IsOffer :
      (r : PathResult Val) (t : Val) (rest out : List (Alternative Val))
      → Pairwise (Differ fl p) (record { kind = fast; lam = p.lambda_fast; result = r } ∷ rest)
      → All
          (λ (b : Alternative Val). Safe fl p b.lam b.result)
          (record { kind = fast; lam = p.lambda_fast; result = r } ∷ rest)
      → ceiling fl p (some t) (record { kind = fast; lam = p.lambda_fast; result = r } ∷ rest)
        ≡ some out
      → IsOffer r t out
  unfolding ceiling
  cut-IsOffer r t rest out distinct guarded cut =
      elim (Option-cases (within_budget fl p (limit_s fl p t) rest)) [
        | inl e ↦
            let bad : none ≡ some out = sym (rw (e, ceiling) refl) ∙ cut in ground (arith, bad)
        | inr (others, e) ↦
            let x : Alternative Val = record { kind = fast; lam = p.lambda_fast; result = r } in
            let made : some (x ∷ others) ≡ some out = sym (rw (e, ceiling) refl) ∙ cut in
            let sub = within_budget-IsSub fl p (limit_s fl p t) rest others e in
            subst (IsOffer r t) (some-injective _ _ made) (
              (refl, refl, refl),
              sub.within,
              (sub.all (λ y. Differ fl p y x) distinct.0, sub.differ distinct.1),
              (guarded.0, sub.all (λ (b : Alternative Val). Safe fl p b.lam b.result) guarded.1),
            )
      ]

  try_all-IsOffer :
      (r : PathResult Val) (out : List (Alternative Val)) (levels : List (Kind × Val))
      → p.run (p.arc_cost p.lambda_fast) ≡ some r
      → Option.bind
          (try_all fl p nothing_yet ((fast, p.lambda_fast) ∷ levels))
          (λ s. ceiling fl p s.fast_time_s s.kept)
        ≡ some out
      → (t : Val) × (travel_time_s fl p r ≡ some t) × IsOffer r t out
  unfolding try_all ceiling Option.bind
  try_all-IsOffer r out levels f h =
      elim (Option-cases (try_level fl p nothing_yet fast p.lambda_fast)) [
        | inl e ↦ let bad : none ≡ some out = sym (rw (e, try_all) refl) ∙ h in ground (arith, bad)
        | inr (s, e) ↦ elim (Option-cases (try_all fl p s levels)) [
          | inl g ↦
              let bad : none ≡ some out = sym (rw (e, g, try_all) refl) ∙ h in ground (arith, bad)
          | inr (u, g) ↦
              let (t, time, leads) = first_level r s f e in
              let x : Alternative Val = record { kind = fast; lam = p.lambda_fast; result = r } in
              let ((rest, kept), timed) = Leads-try_all x t s u levels leads g in
              let cut : ceiling fl p (some t) (x ∷ rest) ≡ some out =
                sym (rw (e, g, kept, timed, try_all) refl) ∙ h in
              let start : IsSweep fl p nothing_yet = record {
                sets = refl;
                differ = tt;
                guarded = tt;
              } in
              let ok : IsSweep fl p u =
                IsSweep-try_all fl p nothing_yet u ((fast, p.lambda_fast) ∷ levels) start
                  (rw (e, try_all) g) in
              (
                t,
                time,
                cut-IsOffer r t rest out (subst (Pairwise (Differ fl p)) kept ok.differ)
                    (subst (All (λ (b : Alternative Val). Safe fl p b.lam b.result)) kept
                      ok.guarded)
                    cut,
              )
        ]
      ]

  map-same : (o : Option (List (Alternative Val))) → Option.map (λ kept. kept) o ≡ o
  map-same none = refl
  map-same (some x) = refl

  -- When the search finds a route at the lambda of "fast" and the alternatives are computed (no key
  -- is missing), then that route comes first, and every other takes at most (1 + budget) times its
  -- travel time; no route has a similarity above the threshold with one before it; and each takes
  -- at most as many unsafe manoeuvres as the plain optimum at its own lambda.
  pub compute_alternatives-IsOffer :
      (safety_enabled : Bool) (r : PathResult Val) (out : List (Alternative Val))
      → p.run (p.arc_cost p.lambda_fast) ≡ some r
      → compute_alternatives fl p safety_enabled ≡ some out
      → (t : Val) × (travel_time_s fl p r ≡ some t) × IsOffer r t out
  unfolding compute_alternatives Option.bind
  compute_alternatives-IsOffer false r out f h = try_all-IsOffer r out [] f (sym (map-same _) ∙ h)
  compute_alternatives-IsOffer true r out f h =
      elim (Option-cases (
        Option.bind (try_all fl p nothing_yet (levels fl p true))
          (λ s. ceiling fl p s.fast_time_s s.kept))) [
            | inl e ↦
                let bad : none ≡ some out = sym (rw (e, compute_alternatives) refl) ∙ h in
                ground (arith, bad)
            | inr (kept, e) ↦
                let made : some (relabel fl p kept) ≡ some out =
                  sym (rw (e, compute_alternatives) refl) ∙ h in
                let (t, time, offered) =
                  try_all-IsOffer r kept
                    ((balanced, p.lambda_balanced) ∷ (safe, p.lambda_safe) ∷ []) f e in
                (
                  t,
                  time,
                  subst (IsOffer r t) (some-injective _ _ made) (IsOffer-relabel r t kept offered),
                )
          ]
