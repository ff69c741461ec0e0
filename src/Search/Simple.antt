-- ===== src/Search/Simple.antt =====
-- The way back from an edge to its seed repeats no edge, so it is shorter than the edges are many.
use safety_aware_route_plann.Base.{
  ℕ, zero, suc, ◌<◌, ◌≤◌, ◌≡◌, refl, sym, List, [], ◌∷◌, ◌++◌, In, Option, some, inl, inr, ◌⊎◌, ◌≢◌,
  ◌==◌, arith, subst, All, All-In, length, length-append, if◌then◌else◌, ap, ◌∙◌,
}
use safety_aware_route_plann.Float.{Float, IsMonotone}
use safety_aware_route_plann.Search.{Query, walk_back, route_edges}
use safety_aware_route_plann.Search.Topo.{IsTopo}
use safety_aware_route_plann.Search.Trace.{TracedBy, root, step}
use safety_aware_route_plann.Search.Routes.{Route, from_seed, by_turn}
use mathlib.Core.Option.{some-injective}
use mathlib.Core.List.{append_assoc}

abbrev pub Distinct : List ℕ → Type 0
Distinct [] = Unit
Distinct (x ∷ xs) = (In x xs → ⊥) × Distinct xs

without : ℕ → List ℕ → List ℕ
without v [] = []
without v (x ∷ xs) = if x == v then without v xs else x ∷ without v xs

In-without : (v a : ℕ) (xs : List ℕ) → In a (without v xs) → In a xs × (a ≢ v)
unfolding without
In-without v a [] m = elim m [ ]
In-without v a (x ∷ xs) m = ground (arith, In-without v a xs)

All-without : (v n : ℕ) (xs : List ℕ) → All (λ a. a < suc n) xs → All (λ a. a < n) (without n xs)
unfolding without
All-without v n [] h = tt
All-without v n (x ∷ xs) h = ground (arith, All-without v n xs)

Distinct-without : (v : ℕ) (xs : List ℕ) → Distinct xs → Distinct (without v xs)
unfolding without
Distinct-without v [] d = tt
Distinct-without v (x ∷ xs) d = ground (arith, Distinct-without v xs, In-without v x xs)

without_absent : (v : ℕ) (xs : List ℕ) → (In v xs → ⊥) → length (without v xs) ≡ length xs
unfolding without
without_absent v [] d = refl
without_absent v (x ∷ xs) d = ground (arith, without_absent v xs)

length-without : (v : ℕ) (xs : List ℕ) → Distinct xs → length xs ≤ suc (length (without v xs))
unfolding without
length-without v [] d = omega arith
length-without v (x ∷ xs) d = ground (arith, length-without v xs, without_absent v xs)

-- The pigeonhole principle.
pub length-Distinct : (n : ℕ) (xs : List ℕ) → Distinct xs → All (λ a. a < n) xs → length xs ≤ n
length-Distinct n [] d h = omega arith
length-Distinct zero (x ∷ xs) d h = elim (h.0) [ ]
length-Distinct (suc n) (x ∷ xs) d h = omega (
  arith,
  length-without n (x ∷ xs) d,
  length-Distinct n (without n (x ∷ xs)) (Distinct-without n (x ∷ xs) d)
      (All-without n n (x ∷ xs) h),
)

In-last : (xs : List ℕ) (x a : ℕ) → In a (xs ++ x ∷ []) → In a xs ⊎ (a ≡ x)
In-last [] x a (inl e) = inr e
In-last [] x a (inr m) = elim m [ ]
In-last (y ∷ ys) x a (inl e) = inl (inl e)
In-last (y ∷ ys) x a (inr m) = ground (arith, In-last ys x a m)

Distinct-last : (xs : List ℕ) (x : ℕ) → Distinct xs → (In x xs → ⊥) → Distinct (xs ++ x ∷ [])
Distinct-last [] x d h = (λ m. m, tt)
Distinct-last (y ∷ ys) x d h = (
  λ m. elim (In-last ys x y m) [ inl i ↦ d.0 i | inr e ↦ h (inl (sym e)) ],
  Distinct-last ys x d.1 (λ m. h (inr m)),
)

All-last : (P : ℕ → Type 0) (xs : List ℕ) (x : ℕ) → All P xs → P x → All P (xs ++ x ∷ [])
All-last P [] x h p = (p, tt)
All-last P (y ∷ ys) x h p = (h.0, All-last P ys x h.1 p)

route_edges-last :
    (out : ℕ → ℕ) (ts : List ℕ) (t : ℕ)
    → route_edges out (ts ++ t ∷ []) ≡ route_edges out ts ++ out t ∷ []
unfolding route_edges
route_edges-last out [] t = refl
route_edges-last out (x ∷ ts) t = ap (◌∷◌ (out x)) (route_edges-last out ts t)

module _ (fl : Float) (q : Query fl) (dist : ℕ → fl.Val) (pred : ℕ → Option ℕ) where
  abbrev Tr : ℕ → ℕ → Type 0
  Tr = TracedBy fl q dist pred

  -- The edges of a trace, the seed first.
  pub trail : {e n : ℕ} → Tr e n → List ℕ
  trail (root e _ _ _ _) = e ∷ []
  trail (step e _ tr _ _ _ _ _ _ _) = trail tr ++ e ∷ []

  -- The predecessors determine how long a trace is.
  depth_unique : {e n m : ℕ} → Tr e n → Tr e m → n ≡ m
  depth_unique (root e g at _ _) (root e' g' at' _ _) = refl
  depth_unique (root e g at _ _) (step e' t tr at' _ _ _ _ _ _) = cc
  depth_unique (step e t tr at _ _ _ _ _ _) (root e' g at' _ _) = cc
  depth_unique (step {p} {n} e t tr at from _ _ _ _ _)
        (step {p = p'} {n = n'} e' t' tr' at' from' _ _ _ _ _) =
      let same_turn : t ≡ t' = some-injective _ _ (sym at ∙ at') in
      let same_edge : p ≡ p' = sym from ∙ ap q.turn_in_edge same_turn ∙ from' in
      ap suc (depth_unique tr (subst (λ x. Tr x n') (sym same_edge) tr'))

  In-trail : {e n : ℕ} (tr : Tr e n) (a : ℕ) → In a (trail tr) → (k : ℕ) × (k ≤ n) × Tr a k
  unfolding trail
  In-trail (root e g at i le) a (inl here) =
      (zero, omega arith, subst (λ x. Tr x zero) (sym here) (root e g at i le))
  In-trail (root e g at i le) a (inr m) = elim m [ ]
  In-trail (step {p} {n} e t tr at from to lo hi ok le) a m = elim (In-last (trail tr) e a m) [
    | inl before ↦ let (k, le', tr') = In-trail tr a before in (k, omega arith, tr')
    | inr here ↦ (
      suc n,
      omega arith,
      subst (λ x. Tr x (suc n)) (sym here) (step e t tr at from to lo hi ok le),
    )
  ]

  pub trail-Distinct : {e n : ℕ} (tr : Tr e n) → Distinct (trail tr)
  unfolding trail
  trail-Distinct (root e g at i le) = (λ m. m, tt)
  trail-Distinct (step {n} e t tr at from to lo hi ok le) =
      Distinct-last (trail tr) e (trail-Distinct tr) (λ m.
        let (k, le', tr') = In-trail tr e m in
        absurd (omega (arith, depth_unique tr' (step e t tr at from to lo hi ok le))))

  length-trail : {e n : ℕ} (tr : Tr e n) → length (trail tr) ≡ suc n
  unfolding trail
  length-trail (root e g at i le) = refl
  length-trail (step e t tr _ _ _ _ _ _ _) =
      omega (arith, length-append (trail tr) (e ∷ []), length-trail tr)

  module _ (topo : IsTopo q.topo) (range : All (λ p. p.0 < q.num_edges) q.seeds) where
    Traced_lt : {e n : ℕ} → Tr e n → e < q.num_edges
    Traced_lt (root e g at i le) = All-In (λ p. p.0 < q.num_edges) (e, g) q.seeds range i
    Traced_lt (step {p} e t tr at from to lo hi ok le) =
        subst (λ x. x < q.num_edges) to (topo.out_lt p t (Traced_lt tr) lo hi)

    trail_lt : {e n : ℕ} (tr : Tr e n) → All (λ a. a < q.num_edges) (trail tr)
    unfolding trail
    trail_lt (root e g at i le) = (Traced_lt (root e g at i le), tt)
    trail_lt (step e t tr at from to lo hi ok le) =
        All-last (λ a. a < q.num_edges) (trail tr) e (trail_lt tr)
          (Traced_lt (step e t tr at from to lo hi ok le))

    -- A trace has fewer turns than the graph has edges.
    pub depth_lt : {e n : ℕ} → Tr e n → n < q.num_edges
    depth_lt tr = omega (
      arith,
      length-trail tr,
      length-Distinct q.num_edges (trail tr) (trail-Distinct tr) (trail_lt tr),
    )

  -- What the reconstruction reads off a trace: the seed and the turns.
  pub origin : {e n : ℕ} → Tr e n → ℕ
  origin (root e _ _ _ _) = e
  origin (step _ _ tr _ _ _ _ _ _ _) = origin tr

  pub turns : {e n : ℕ} → Tr e n → List ℕ
  turns (root _ _ _ _ _) = []
  turns (step _ t tr _ _ _ _ _ _ _) = turns tr ++ t ∷ []

  pub walk_back-Traced :
      {e n : ℕ} (tr : Tr e n) (fuel : ℕ) (acc : List ℕ)
      → n < fuel
      → walk_back fl q fuel pred e acc ≡ some (origin tr, turns tr ++ acc)
  unfolding walk_back origin turns
  walk_back-Traced tr zero acc h = elim h [ ]
  walk_back-Traced (root e g at i le) (suc fuel) acc h = rw (at, walk_back)
  walk_back-Traced (step e t tr at from to lo hi ok le) (suc fuel) acc h =
      rw (at, walk_back)
        (rw (from, append_assoc) (walk_back-Traced tr fuel (t ∷ acc) (omega arith)))

  pub edges-Traced :
      {e n : ℕ} (tr : Tr e n) → origin tr ∷ route_edges q.turn_out_edge (turns tr) ≡ trail tr
  unfolding origin turns trail route_edges
  edges-Traced (root e g at i le) = refl
  edges-Traced (step e t tr at from to lo hi ok le) = rw (route_edges-last, to, ← edges-Traced tr)

  -- A trace is a route, no dearer than the distance recorded.
  pub Route-Traced :
      IsMonotone fl
      → {e n : ℕ} (tr : Tr e n)
      → (g : fl.Val) × Route fl q (origin tr) (turns tr) e g × (fl.rank g ≤ fl.rank (dist e))
  unfolding origin turns
  Route-Traced mono (root e g at i le) = (g, from_seed g i, le)
  Route-Traced mono (step {p} e t tr at from to lo hi ok le) =
      let (g, r, cheap) = Route-Traced mono tr in
      (
        fl.add g (q.arc_cost t),
        subst (λ x. Route fl q (origin tr) (turns tr ++ t ∷ []) x (fl.add g (q.arc_cost t))) to
            (by_turn r t lo hi ok),
        omega (arith, mono.add_mono g (dist p) (q.arc_cost t) (q.arc_cost t) cheap (omega arith)),
      )
