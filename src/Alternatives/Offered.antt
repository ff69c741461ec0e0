-- ===== src/Alternatives/Offered.antt =====
-- What the routes offered together promise: none repeats another, none is less safe than the plain
-- optimum at its lambda, and none but the first costs more time than the budget allows.
use mathlib.Core.Option
use mathlib.Core.Option.{some-injective}
use safety_aware_route_plann.Base.{
  ℕ, ◌≤◌, ◌<◌, Bool, true, false, ◌&&◌, none, some, List, [], ◌∷◌, ◌++◌, map, ltb, All, ◌≡◌, refl,
  sym, ap, ◌∙◌, subst, inl, inr, arith, Bool-cases, Option-cases, ltb→lt, ltb→le,
}
use safety_aware_route_plann.Float.{Float, lt, le}
use safety_aware_route_plann.Search.{PathResult}
use safety_aware_route_plann.Alternatives.{
  Kind, Alternative, Planner, Sweep, travel_time_s, unsafe_count, edge_set, is_duplicate, limit_s,
  avoid_cost, avoid_within_budget, rerun, improve, offer, baseline, try_level, try_all,
  within_budget, relabel_rest, is_safe, any_flagged, jaccard,
}

-- Every element stands in the relation to those before it.
abbrev pub Pairwise : {A : Type 0} → (A → A → Type 0) → List A → Type 0
Pairwise R [] = Unit
Pairwise R (x ∷ xs) = All (λ y. R y x) xs × Pairwise R xs

module _ {A : Type 0} (P : A → Type 0) where
  pub All-last : (xs : List A) (x : A) → All P xs → P x → All P (xs ++ x ∷ [])
  All-last [] x h k = (k, tt)
  All-last (y ∷ ys) x h k = (h.0, All-last ys x h.1 k)

module _ {A : Type 0} (R : A → A → Type 0) where
  Pairwise-last :
      (xs : List A) (x : A) → Pairwise R xs → All (λ y. R x y) xs → Pairwise R (xs ++ x ∷ [])
  Pairwise-last [] x h k = (tt, tt)
  Pairwise-last (y ∷ ys) x h k = (All-last (λ z. R z y) ys x h.0 k.0, Pairwise-last ys x h.1 k.1)

module _ (fl : Float) (p : Planner fl) where
  open fl use {Val, zero_val}

  -- Similar beyond the threshold.
  abbrev pub same_route : PathResult Val → PathResult Val → Bool
  same_route a b = lt fl p.jaccard_threshold (jaccard fl p (edge_set fl p a) (edge_set fl p b))

  -- No less safe than the plain optimum at the lambda.
  abbrev pub Safe : Val → PathResult Val → Type 0
  Safe lam r =
      (plain : PathResult Val) × (p.run (p.arc_cost lam) ≡ some plain)
      × (unsafe_count fl p r ≤ unsafe_count fl p plain)

  abbrev pub Differ : Alternative Val → Alternative Val → Type 0
  Differ a b = same_route a.result b.result ≡ false

  pub record IsSweep (s : Sweep fl p) : Type 0 where
    pub sets : s.kept_edge_sets ≡ map (λ (a : Alternative Val). edge_set fl p a.result) s.kept
    pub differ : Pairwise Differ s.kept
    pub guarded : All (λ (a : Alternative Val). Safe a.lam a.result) s.kept

  Differ-all :
      (x : Alternative Val) (kept : List (Alternative Val))
      → is_duplicate fl p
          (edge_set fl p x.result)
          (map (λ (a : Alternative Val). edge_set fl p a.result) kept)
        ≡ false
      → All (λ a. Differ x a) kept
  Differ-all x [] h = tt
  Differ-all x (a ∷ kept) h = (ground arith, Differ-all x kept (ground arith))

  map-last :
      (kept : List (Alternative Val)) (x : Alternative Val)
      → map (λ (a : Alternative Val). edge_set fl p a.result) (kept ++ x ∷ [])
        ≡ map (λ (a : Alternative Val). edge_set fl p a.result) kept ++ edge_set fl p x.result ∷ []
  map-last [] x = refl
  map-last (a ∷ kept) x = ap (λ l. edge_set fl p a.result ∷ l) (map-last kept x)

  IsSweep-offer :
      (s : Sweep fl p) (kind : Kind) (lam : Val) (base : ℕ) (r plain : PathResult Val)
      → IsSweep s
      → p.run (p.arc_cost lam) ≡ some plain
      → base ≤ unsafe_count fl p plain
      → IsSweep (offer fl p s kind lam base r)
  unfolding offer
  IsSweep-offer s kind lam base r plain h run le =
      elim (Bool-cases (is_duplicate fl p (edge_set fl p r) s.kept_edge_sets)) [
        | inl dup ↦ rw (dup, offer) h
        | inr new ↦ elim (Bool-cases (ltb base (unsafe_count fl p r))) [
          | inl worse ↦ rw (new, worse, offer) h
          | inr fine ↦
              let x : Alternative Val = record { kind = kind; lam = lam; result = r } in
              rw (new, fine, offer)
                (record {
                  sets = rw (h.sets) (sym (map-last s.kept x));
                  differ = Pairwise-last Differ s.kept x h.differ (
                      Differ-all x s.kept
                        (subst (λ l. is_duplicate fl p (edge_set fl p r) l ≡ false) h.sets new));
                  guarded =
                      All-last (λ (a : Alternative Val). Safe a.lam a.result) s.kept x h.guarded
                        (plain, run, omega (arith, ltb→le base (unsafe_count fl p r) fine, le));
                })
        ]
      ]

  pub avoid-safer :
      (lam fast_time_s : Val) (n : ℕ) (r : PathResult Val) (ac : ℕ → Val)
      → avoid_within_budget fl p lam fast_time_s n ≡ some (some (r, ac))
      → (unsafe_count fl p r < n)
        × ((time_s : Val) × (travel_time_s fl p r ≡ some time_s)
            × (lt fl (limit_s fl p fast_time_s) time_s ≡ false))
  unfolding avoid_within_budget
  avoid-safer lam fast_time_s n r ac h =
      elim (Bool-cases (any_flagged p.turn_unsafe_type p.num_turns)) [
        | inr e ↦ ground (arith, e)
        | inl e ↦ elim (Option-cases (p.run (avoid_cost fl p lam))) [
          | inl f ↦ ground (arith, e, f)
          | inr (r2, f) ↦ elim (Bool-cases (ltb (unsafe_count fl p r2) n)) [
            | inr g ↦ ground (arith, e, f, g)
            | inl g ↦ elim (Option-cases (travel_time_s fl p r2)) [
              | inl t ↦ ground (arith, e, f, g, t)
              | inr (time_s, t) ↦ elim (Bool-cases (lt fl (limit_s fl p fast_time_s) time_s)) [
                | inl over ↦ ground (arith, e, f, g, t, over)
                | inr fits ↦
                    let made : some (some (r2, avoid_cost fl p lam)) ≡ some (some (r, ac)) =
                      sym (rw (e, f, g, t, fits, avoid_within_budget) refl) ∙ h in
                    let same : r2 ≡ r =
                      ap (λ (x : PathResult Val × (ℕ → Val)). x.0)
                        (some-injective _ _ (some-injective _ _ made)) in
                    subst
                      (λ (u : PathResult Val).
                        (unsafe_count fl p u < n)
                        × ((x : Val) × (travel_time_s fl p u ≡ some x)
                            × (lt fl (limit_s fl p fast_time_s) x ≡ false)))
                      same (ltb→lt (unsafe_count fl p r2) n g, (time_s, t, fits))
              ]
            ]
          ]
        ]
      ]

  improve-safer :
      (kind : Kind) (lam fast_time_s : Val) (r : PathResult Val)
      (chosen : PathResult Val × (ℕ → Val))
      → improve fl p kind lam fast_time_s r ≡ some chosen
      → unsafe_count fl p chosen.0 ≤ unsafe_count fl p r
  unfolding improve
  improve-safer kind lam fast_time_s r chosen h =
      elim (Bool-cases
        (is_safe kind && lt fl zero_val p.detour_budget_pct && ltb 0 (unsafe_count fl p r))) [
          | inr e ↦
              let made : some (r, p.arc_cost lam) ≡ some chosen = sym (rw (e, improve) refl) ∙ h in
              rw (sym (some-injective _ _ made)) (omega arith)
          | inl e ↦
              elim (Option-cases (avoid_within_budget fl p lam fast_time_s (unsafe_count fl p r))) [
                | inl f ↦ ground (arith, e, f)
                | inr (none, f) ↦
                    let made : some (r, p.arc_cost lam) ≡ some chosen =
                      sym (rw (e, f, improve) refl) ∙ h in
                    rw (sym (some-injective _ _ made)) (omega arith)
                | inr (some (r2, ac), f) ↦
                    let made : some (r2, ac) ≡ some chosen = sym (rw (e, f, improve) refl) ∙ h in
                    rw (sym (some-injective _ _ made))
                      (omega (arith, (avoid-safer lam fast_time_s (unsafe_count fl p r) r2 ac f).0))
              ]
        ]

  IsSweep-try_level :
      (s u : Sweep fl p) (kind : Kind) (lam : Val)
      → IsSweep s
      → try_level fl p s kind lam ≡ some u
      → IsSweep u
  unfolding try_level Option.bind
  IsSweep-try_level s u kind lam h e = elim (Option-cases (p.run (p.arc_cost lam))) [
    | inl f ↦ subst IsSweep (some-injective _ _ (sym (rw (f, try_level) refl) ∙ e)) h
    | inr (r, f) ↦ elim (Option-cases (baseline fl p s.fast_time_s r)) [
      | inl g ↦ let bad : none ≡ some u = sym (rw (f, g, try_level) refl) ∙ e in ground (arith, bad)
      | inr (t, g) ↦ elim (Option-cases (improve fl p kind lam t r)) [
        | inl k ↦
            let bad : none ≡ some u = sym (rw (f, g, k, try_level) refl) ∙ e in ground (arith, bad)
        | inr (chosen, k) ↦
            let timed : Sweep fl p = record s { fast_time_s = some t } in
            let ok : IsSweep timed = record {
              sets = h.sets;
              differ = h.differ;
              guarded = h.guarded;
            } in
            subst IsSweep (some-injective _ _ (sym (rw (f, g, k, try_level) refl) ∙ e)) (
              IsSweep-offer timed kind lam (unsafe_count fl p chosen.0)
                (rerun fl p p.max_reruns s.kept_edge_sets chosen.1 chosen.0) r ok f
                (improve-safer kind lam t r chosen k))
      ]
    ]
  ]

  pub IsSweep-try_all :
      (s u : Sweep fl p) (levels : List (Kind × Val))
      → IsSweep s
      → try_all fl p s levels ≡ some u
      → IsSweep u
  unfolding try_all Option.bind
  IsSweep-try_all s u [] h e = subst IsSweep (some-injective _ _ e) h
  IsSweep-try_all s u ((kind, lam) ∷ rest) h e = elim (Option-cases (try_level fl p s kind lam)) [
    | inl f ↦ let bad : none ≡ some u = sym (rw (f, try_all) refl) ∙ e in ground (arith, bad)
    | inr (v, f) ↦
        IsSweep-try_all v u rest (IsSweep-try_level s v kind lam h f)
          (sym (rw (f, try_all) refl) ∙ e)
  ]

  -- What survives the ceiling.
  abbrev pub Within : Val → Alternative Val → Type 0
  Within limit a =
      (time_s : Val) × (travel_time_s fl p a.result ≡ some time_s) × (le fl time_s limit ≡ true)

  pub record IsSub (limit : Val) (kept out : List (Alternative Val)) : Type 1 where
    pub all : (P : Alternative Val → Type 0) → All P kept → All P out
    pub differ : Pairwise Differ kept → Pairwise Differ out
    pub within : All (Within limit) out

  pub within_budget-IsSub :
      (limit : Val) (kept out : List (Alternative Val))
      → within_budget fl p limit kept ≡ some out
      → IsSub limit kept out
  unfolding within_budget Option.bind
  within_budget-IsSub limit [] out h =
      subst (IsSub limit []) (some-injective _ _ h)
        (record { all = λ P k. k; differ = λ k. k; within = tt })
  within_budget-IsSub limit (a ∷ kept) out h = elim (Option-cases (travel_time_s fl p a.result)) [
    | inl e ↦
        let bad : none ≡ some out = sym (rw (e, within_budget) refl) ∙ h in ground (arith, bad)
    | inr (t, e) ↦ elim (Option-cases (within_budget fl p limit kept)) [
      | inl f ↦
          let bad : none ≡ some out = sym (rw (e, f, within_budget) refl) ∙ h in ground (arith, bad)
      | inr (rest, f) ↦
          let sub = within_budget-IsSub limit kept rest f in
          elim (Bool-cases (le fl t limit)) [
            | inl fits ↦
                let made : some (a ∷ rest) ≡ some out =
                  sym (rw (e, f, fits, within_budget) refl) ∙ h in
                subst (IsSub limit (a ∷ kept)) (some-injective _ _ made) (record {
                  all = λ P k. (k.0, sub.all P k.1);
                  differ = λ k. (sub.all (λ y. Differ y a) k.0, sub.differ k.1);
                  within = ((t, e, fits), sub.within);
                })
            | inr over ↦
                let made : some rest ≡ some out = sym (rw (e, f, over, within_budget) refl) ∙ h in
                subst (IsSub limit (a ∷ kept)) (some-injective _ _ made) (record {
                  all = λ P k. sub.all P k.1;
                  differ = λ k. sub.differ k.1;
                  within = sub.within;
                })
          ]
    ]
  ]

  pub relabel_rest-same :
      (P : Val → PathResult Val → Type 0) (kept : List (Alternative Val))
      → All (λ (a : Alternative Val). P a.lam a.result) kept
      → All (λ (a : Alternative Val). P a.lam a.result) (relabel_rest fl p kept)
  unfolding relabel_rest
  relabel_rest-same P [] h = tt
  relabel_rest-same P (a ∷ []) h = (h.0, tt)
  relabel_rest-same P (a ∷ b ∷ rest) h = (h.0, relabel_rest-same P (b ∷ rest) h.1)

  pub relabel_rest-Differ :
      (kept : List (Alternative Val))
      → Pairwise Differ kept
      → Pairwise Differ (relabel_rest fl p kept)
  unfolding relabel_rest
  relabel_rest-Differ [] h = tt
  relabel_rest-Differ (a ∷ []) h = (tt, tt)
  relabel_rest-Differ (a ∷ b ∷ rest) h = (
    relabel_rest-same (λ l r. same_route r a.result ≡ false) (b ∷ rest) h.0,
    relabel_rest-Differ (b ∷ rest) h.1,
  )
