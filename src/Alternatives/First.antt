-- ===== src/Alternatives/First.antt =====
-- The first route that is offered is the search's answer at the fast lambda.
use mathlib.Core.Option
use mathlib.Core.Option.{some-injective}
use safety_aware_route_plann.Base.{
  ℕ, zero, suc, Bool, true, false, Option, none, some, List, [], ◌∷◌, ◌++◌, if◌then◌else◌, ltb, ◌≡◌,
  refl, sym, ◌∙◌, subst, inl, inr, arith, Bool-cases, Option-cases,
}
use safety_aware_route_plann.Float.{Float}
use safety_aware_route_plann.Search.{PathResult}
use safety_aware_route_plann.Alternatives.{
  Kind, fast, Alternative, Planner, Sweep, travel_time_s, unsafe_count, edge_set, is_duplicate,
  limit_s, rerun, improve, offer, baseline, try_level, try_all, levels, within_budget, ceiling,
  relabel, compute_alternatives,
}

module _ (fl : Float) (p : Planner fl) (plain : PathResult fl.Val) where
  open fl use {Val}

  -- The first of a list is the plain route, as "fast".
  abbrev pub Head : List (Alternative Val) → Type 0
  Head [] = ⊥
  Head (a ∷ rest) = (a.kind ≡ fast) × (a.result ≡ plain)

  Head-append :
      (kept : List (Alternative Val)) (a : Alternative Val) → Head kept → Head (kept ++ a ∷ [])
  Head-append [] a h = elim h [ ]
  Head-append (b ∷ kept) a h = h

  offer-Head :
      (s : Sweep fl p) (kind : Kind) (lam : Val) (n : ℕ) (r : PathResult Val)
      → Head s.kept
      → Head (offer fl p s kind lam n r).kept
  unfolding offer
  offer-Head s kind lam n r h =
      elim (Bool-cases (is_duplicate fl p (edge_set fl p r) s.kept_edge_sets)) [
        | inl e ↦ rw (e, offer) h
        | inr e ↦ elim (Bool-cases (ltb n (unsafe_count fl p r))) [
          | inl f ↦ rw (e, f, offer) h
          | inr f ↦
              rw (e, f, offer)
                (Head-append s.kept (record { kind = kind; lam = lam; result = r }) h)
        ]
      ]

  -- A level that is tried either adds nothing, or makes an offer with the routes kept so far.
  try_level-offer :
      (s u : Sweep fl p) (kind : Kind) (lam : Val)
      → try_level fl p s kind lam ≡ some u
      → Head s.kept
      → Head u.kept
  unfolding try_level Option.bind
  try_level-offer s u kind lam e h = elim (Option-cases (p.run (p.arc_cost lam))) [
    | inl f ↦
        let made : some s ≡ some u = sym (rw (f, try_level) refl) ∙ e in
        subst (λ (x : Sweep fl p). Head x.kept) (some-injective _ _ made) h
    | inr (r, f) ↦ elim (Option-cases (baseline fl p s.fast_time_s r)) [
      | inl g ↦ let bad : none ≡ some u = sym (rw (f, g, try_level) refl) ∙ e in ground (arith, bad)
      | inr (t, g) ↦ elim (Option-cases (improve fl p kind lam t r)) [
        | inl k ↦
            let bad : none ≡ some u = sym (rw (f, g, k, try_level) refl) ∙ e in ground (arith, bad)
        | inr (chosen, k) ↦
            let timed : Sweep fl p = record s { fast_time_s = some t } in
            let last = rerun fl p p.max_reruns s.kept_edge_sets chosen.1 chosen.0 in
            let made : some (offer fl p timed kind lam (unsafe_count fl p chosen.0) last) ≡ some u =
              sym (rw (f, g, k, try_level) refl) ∙ e in
            subst (λ (x : Sweep fl p). Head x.kept) (some-injective _ _ made)
              (offer-Head timed kind lam (unsafe_count fl p chosen.0) last h)
      ]
    ]
  ]

  try_all-Head :
      (s u : Sweep fl p) (levels : List (Kind × Val))
      → try_all fl p s levels ≡ some u
      → Head s.kept
      → Head u.kept
  unfolding try_all Option.bind
  try_all-Head s u [] e h = subst (λ (x : Sweep fl p). Head x.kept) (some-injective _ _ e) h
  try_all-Head s u ((kind, lam) ∷ rest) e h = elim (Option-cases (try_level fl p s kind lam)) [
    | inl f ↦ let bad : none ≡ some u = sym (rw (f, try_all) refl) ∙ e in ground (arith, bad)
    | inr (v, f) ↦
        try_all-Head v u rest (sym (rw (f, try_all) refl) ∙ e) (try_level-offer s v kind lam f h)
  ]

  rerun-unopposed : (n : ℕ) (ac : ℕ → Val) (r : PathResult Val) → rerun fl p n [] ac r ≡ r
  unfolding rerun
  rerun-unopposed zero ac r = refl
  rerun-unopposed (suc n) ac r = refl

  abbrev start : Sweep fl p
  start = record { kept = []; kept_edge_sets = []; fast_time_s = none }

  offer-first :
      (t : Val)
      → Head
          (offer fl p
            (record start { fast_time_s = some t })
            fast
            p.lambda_fast
            (unsafe_count fl p plain)
            plain).kept
  unfolding offer
  offer-first t = elim (Bool-cases (ltb (unsafe_count fl p plain) (unsafe_count fl p plain))) [
    | inl e ↦ ground (arith, e)
    | inr e ↦ rw (e, offer) (refl, refl)
  ]

  first_level-Head :
      (u : Sweep fl p)
      → p.run (p.arc_cost p.lambda_fast) ≡ some plain
      → try_level fl p start fast p.lambda_fast ≡ some u
      → Head u.kept
  unfolding try_level Option.bind improve
  first_level-Head u f e = elim (Option-cases (travel_time_s fl p plain)) [
    | inl g ↦ let bad : none ≡ some u = sym (rw (f, g, try_level) refl) ∙ e in ground (arith, bad)
    | inr (t, g) ↦
        let timed : Sweep fl p = record start { fast_time_s = some t } in
        let made : some (offer fl p timed fast p.lambda_fast (unsafe_count fl p plain) plain)
            ≡ some u =
          sym (
            rw
              (
                f,
                g,
                try_level,
                improve,
                rerun-unopposed p.max_reruns (p.arc_cost p.lambda_fast) plain,
              )
              refl)
          ∙ e in
        subst (λ (x : Sweep fl p). Head x.kept) (some-injective _ _ made) (offer-first t)
  ]

  ceiling-Head :
      (time : Option Val) (kept out : List (Alternative Val))
      → ceiling fl p time kept ≡ some out
      → Head kept
      → Head out
  unfolding ceiling
  ceiling-Head none kept out e h = subst Head (some-injective _ _ e) h
  ceiling-Head (some t) [] out e h = elim h [ ]
  ceiling-Head (some t) (a ∷ rest) out e h =
      elim (Option-cases (within_budget fl p (limit_s fl p t) rest)) [
        | inl g ↦ let bad : none ≡ some out = sym (rw (g, ceiling) refl) ∙ e in ground (arith, bad)
        | inr (others, g) ↦
            let made : some (a ∷ others) ≡ some out = sym (rw (g, ceiling) refl) ∙ e in
            subst Head (some-injective _ _ made) h
      ]

  relabel-Head : (kept : List (Alternative Val)) → Head kept → Head (relabel fl p kept)
  unfolding relabel
  relabel-Head [] h = h
  relabel-Head (a ∷ []) h = h
  relabel-Head (a ∷ b ∷ rest) h = (refl, h.1)

  labelled-Head :
      (b : Bool) (kept : List (Alternative Val))
      → Head kept
      → Head (if b then relabel fl p kept else kept)
  labelled-Head true kept h = relabel-Head kept h
  labelled-Head false kept h = h

  fast_first :
      (s : Sweep fl p) (rest : List (Kind × Val))
      → p.run (p.arc_cost p.lambda_fast) ≡ some plain
      → try_all fl p start ((fast, p.lambda_fast) ∷ rest) ≡ some s
      → Head s.kept
  unfolding try_all Option.bind
  fast_first s rest f e = elim (Option-cases (try_level fl p start fast p.lambda_fast)) [
    | inl g ↦ let bad : none ≡ some s = sym (rw (g, try_all) refl) ∙ e in ground (arith, bad)
    | inr (u, g) ↦ try_all-Head u s rest (sym (rw (g, try_all) refl) ∙ e) (first_level-Head u f g)
  ]

  levels-Head :
      (safety_enabled : Bool) (s : Sweep fl p)
      → p.run (p.arc_cost p.lambda_fast) ≡ some plain
      → try_all fl p start (levels fl p safety_enabled) ≡ some s
      → Head s.kept
  levels-Head true s f e = fast_first s _ f e
  levels-Head false s f e = fast_first s [] f e

  -- Where the search has an answer at the fast lambda, that answer is the first route offered, and it
  -- is labelled fast.
  pub compute_alternatives-Head :
      (safety_enabled : Bool) (out : List (Alternative Val))
      → p.run (p.arc_cost p.lambda_fast) ≡ some plain
      → compute_alternatives fl p safety_enabled ≡ some out
      → Head out
  unfolding compute_alternatives Option.bind
  compute_alternatives-Head safety_enabled out f e =
      elim (Option-cases (try_all fl p start (levels fl p safety_enabled))) [
        | inl g ↦
            let bad : none ≡ some out = sym (rw (g, compute_alternatives) refl) ∙ e in
            ground (arith, bad)
        | inr (s, g) ↦ elim (Option-cases (ceiling fl p s.fast_time_s s.kept)) [
          | inl k ↦
              let bad : none ≡ some out = sym (rw (g, k, compute_alternatives) refl) ∙ e in
              ground (arith, bad)
          | inr (kept, k) ↦
              let made : some (if safety_enabled then relabel fl p kept else kept) ≡ some out =
                sym (rw (g, k, compute_alternatives) refl) ∙ e in
              subst Head (some-injective _ _ made) (
                labelled-Head safety_enabled kept
                  (ceiling-Head s.fast_time_s s.kept kept k (levels-Head safety_enabled s f g)))
        ]
      ]

module _ (fl : Float) (p : Planner fl) where
  try_all-nothing :
      (s : Sweep fl p) (levels : List (Kind × fl.Val))
      → ((ac : ℕ → fl.Val) → p.run ac ≡ none)
      → try_all fl p s levels ≡ some s
  unfolding try_all try_level Option.bind
  try_all-nothing s [] h = refl
  try_all-nothing s ((kind, lam) ∷ rest) h =
      rw (h (p.arc_cost lam), try_level) (try_all-nothing s rest h)

  -- Where the search has no answer at all, nothing is offered.
  pub compute_alternatives-nothing :
      (safety_enabled : Bool)
      → ((ac : ℕ → fl.Val) → p.run ac ≡ none)
      → compute_alternatives fl p safety_enabled ≡ some []
  unfolding compute_alternatives Option.bind ceiling relabel
  compute_alternatives-nothing true h =
      rw
        (try_all-nothing (record { kept = []; kept_edge_sets = []; fast_time_s = none })
          (levels fl p true) h)
        refl
  compute_alternatives-nothing false h =
      rw
        (try_all-nothing (record { kept = []; kept_edge_sets = []; fast_time_s = none })
          (levels fl p false) h)
        refl
