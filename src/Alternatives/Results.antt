-- ===== src/Alternatives/Results.antt =====
-- What is offered came from the search, and the first of it is the search's answer for "fast".
use mathlib.Core.Option
use mathlib.Core.Option.{some-injective}
use safety_aware_route_plann.Base.{
  ℕ, Bool, true, false, ◌&&◌, Option, none, some, List, [], ◌∷◌, if◌then◌else◌, All, ltb, ◌≡◌, refl,
  sym, ◌∙◌, subst, inl, inr, arith, Bool-cases, Option-cases,
}
use safety_aware_route_plann.Float.{Float, le, lt}
use safety_aware_route_plann.Search.{PathResult}
use safety_aware_route_plann.Alternatives.{
  Kind, Alternative, Planner, Sweep, unsafe_count, limit_s, levels, keep_if, within_budget, ceiling,
  relabel, relabel_rest, compute_alternatives, compute_single, is_safe,
}
use safety_aware_route_plann.Alternatives.Total.{Known, try_all-Given, avoid-Given}

module _ (fl : Float) (p : Planner fl) where
  open fl use {Val}

  abbrev Knowns : List (Alternative Val) → Type 0
  Knowns = All (λ (a : Alternative Val). Known fl p a.result)

  keep_if-Knowns :
      (b : Bool) (a : Alternative Val) (rest : List (Alternative Val))
      → Known fl p a.result
      → Knowns rest
      → Knowns (keep_if fl p b a rest)
  keep_if-Knowns true a rest k h = (k, h)
  keep_if-Knowns false a rest k h = h

  within_budget-Knowns :
      (limit : Val) (kept out : List (Alternative Val))
      → Knowns kept
      → within_budget fl p limit kept ≡ some out
      → Knowns out
  unfolding within_budget Option.bind
  within_budget-Knowns limit [] out h e = subst Knowns (some-injective _ _ e) tt
  within_budget-Knowns limit (a ∷ kept) out h e =
      let (t, f) = h.0 in
      elim (Option-cases (within_budget fl p limit kept)) [
        | inl g ↦
            let bad : none ≡ some out = sym (rw (f, g, within_budget) refl) ∙ e in
            ground (arith, bad)
        | inr (rest, g) ↦
            let made : some (keep_if fl p (le fl t limit) a rest) ≡ some out =
              sym (rw (f, g, within_budget) refl) ∙ e in
            subst Knowns (some-injective _ _ made) (
              keep_if-Knowns (le fl t limit) a rest h.0
                (within_budget-Knowns limit kept rest h.1 g))
      ]

  ceiling-Knowns :
      (time : Option Val) (kept out : List (Alternative Val))
      → Knowns kept
      → ceiling fl p time kept ≡ some out
      → Knowns out
  unfolding ceiling
  ceiling-Knowns none kept out h e = subst Knowns (some-injective _ _ e) h
  ceiling-Knowns (some t) [] out h e = subst Knowns (some-injective _ _ e) tt
  ceiling-Knowns (some t) (a ∷ rest) out h e =
      elim (Option-cases (within_budget fl p (limit_s fl p t) rest)) [
        | inl g ↦ let bad : none ≡ some out = sym (rw (g, ceiling) refl) ∙ e in ground (arith, bad)
        | inr (others, g) ↦
            let made : some (a ∷ others) ≡ some out = sym (rw (g, ceiling) refl) ∙ e in
            subst Knowns (some-injective _ _ made)
              (h.0, within_budget-Knowns (limit_s fl p t) rest others h.1 g)
      ]

  relabel_rest-Knowns :
      (kept : List (Alternative Val)) → Knowns kept → Knowns (relabel_rest fl p kept)
  unfolding relabel_rest
  relabel_rest-Knowns [] h = tt
  relabel_rest-Knowns (a ∷ []) h = h
  relabel_rest-Knowns (a ∷ b ∷ rest) h = (h.0, relabel_rest-Knowns (b ∷ rest) h.1)

  relabel-Knowns : (kept : List (Alternative Val)) → Knowns kept → Knowns (relabel fl p kept)
  unfolding relabel
  relabel-Knowns [] h = tt
  relabel-Knowns (a ∷ []) h = h
  relabel-Knowns (a ∷ b ∷ rest) h = (h.0, relabel_rest-Knowns (b ∷ rest) h.1)

  labelled-Knowns :
      (b : Bool) (kept : List (Alternative Val))
      → Knowns kept
      → Knowns (if b then relabel fl p kept else kept)
  labelled-Knowns true kept h = relabel-Knowns kept h
  labelled-Knowns false kept h = h

  -- Every route offered is a result of the search, up to its label.
  pub compute_alternatives-Knowns :
      (safety_enabled : Bool) (out : List (Alternative Val))
      → ((ac : ℕ → Val) (r : PathResult Val) → p.run ac ≡ some r → Known fl p r)
      → compute_alternatives fl p safety_enabled ≡ some out
      → Knowns out
  unfolding compute_alternatives Option.bind
  compute_alternatives-Knowns safety_enabled out known e =
      let start : Sweep fl p = record { kept = []; kept_edge_sets = []; fast_time_s = none } in
      let (s, f, h) = try_all-Given fl p known start (levels fl p safety_enabled) tt in
      elim (Option-cases (ceiling fl p s.fast_time_s s.kept)) [
        | inl g ↦
            let bad : none ≡ some out = sym (rw (f, g, compute_alternatives) refl) ∙ e in
            ground (arith, bad)
        | inr (kept, g) ↦
            let made : some (if safety_enabled then relabel fl p kept else kept) ≡ some out =
              sym (rw (f, g, compute_alternatives) refl) ∙ e in
            subst Knowns (some-injective _ _ made)
              (labelled-Knowns safety_enabled kept (ceiling-Knowns s.fast_time_s s.kept kept h g))
      ]

  -- A reroute gives a result too, and what it returns is a result of the search.
  pub compute_single-Given :
      (level : Kind) (lam : Val)
      → ((ac : ℕ → Val) (r : PathResult Val) → p.run ac ≡ some r → Known fl p r)
      → (o : Option (PathResult Val)) × (compute_single fl p level lam ≡ some o)
        × ((r : PathResult Val) → o ≡ some r → Known fl p r)
  unfolding compute_single Option.bind
  compute_single-Given level lam known = elim (Option-cases (p.run (p.arc_cost lam))) [
    | inl e ↦ (none, rw (e, compute_single) refl, λ r h. ground (arith, h))
    | inr (plain, e) ↦
        let keep = λ (r : PathResult Val) (h : some plain ≡ some r).
          subst (Known fl p) (some-injective _ _ h) (known (p.arc_cost lam) plain e) in
        elim (Bool-cases (
          is_safe level
          && lt fl fl.zero_val p.detour_budget_pct
          && ltb 0 (unsafe_count fl p plain))) [
            | inr f ↦ (some plain, rw (e, f, compute_single) refl, keep)
            | inl f ↦ elim (Option-cases (p.run (p.arc_cost fl.zero_val))) [
              | inl g ↦ (some plain, rw (e, f, g, compute_single) refl, keep)
              | inr (fastest, g) ↦
                  let (t, k) = known (p.arc_cost fl.zero_val) fastest g in
                  let (o, a, h) = avoid-Given fl p known lam t (unsafe_count fl p plain) in
                  elim (Option-cases o) [
                    | inl n ↦ (some plain, rw (e, f, g, k, a, n, compute_single) refl, keep)
                    | inr (better, b) ↦ (
                      some better.0,
                      rw (e, f, g, k, a, b, compute_single) refl,
                      λ r s. subst (Known fl p) (some-injective _ _ s) (h better b),
                    )
                  ]
            ]
          ]
  ]
