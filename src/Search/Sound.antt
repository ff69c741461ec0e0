-- ===== src/Search/Sound.antt =====
-- Every state of a run records routes: the invariant behind the returned path.
use mathlib.Core.Option.{some-injective}
use safety_aware_route_plann.Base.{
  ℕ, zero, suc, ◌+◌, ◌<◌, ◌≤◌, ◌≡◌, refl, true, List, [], ◌∷◌, In, none, some, inl, inr, Bool-cases,
  Option-cases, ==_iff, ◌==◌, arith, ltb→lt, subst, All, dict_get, All-self,
}
use safety_aware_route_plann.Float.{Float, lt, eq, IsMonotone}
use safety_aware_route_plann.Search.{
  Query, SearchState, Entry, push, finalize, settle, blank, seed_all, start,
}
use safety_aware_route_plann.Search.Topo.{IsTopo, All-heappush, relax_range_rule, dist-finalize}
use safety_aware_route_plann.Search.Routes.{IsNonneg}
use safety_aware_route_plann.Search.Trace.{
  Traced, root, Traced-pushed, dist-pushed_le, dist-pushed_ne, not_pushed, Traced-target, pushed,
}

module _ (fl : Float) (q : Query fl) where
  open fl use {Val, rank, add, inf_val}

  abbrev pub IsFinite : Entry fl → Type 0
  IsFinite x = (rank x.g < rank inf_val) × (x.edge < q.num_edges)

  pub record IsTraced (s : SearchState fl) : Type 0 where
    pub reached : (e : ℕ) → rank (s.dist e) < rank inf_val → (n : ℕ) × Traced fl q s e n
    pub capped : (e : ℕ) → rank (s.dist e) ≤ rank inf_val
    pub live : All IsFinite s.heap
    pub best_capped : rank s.best_final ≤ rank inf_val
    pub best :
        (e : ℕ)
        → s.best_edge ≡ some e
        → (adj : Val) × (dict_get q.dests e ≡ some adj)
          × (rank (s.dist e) < rank inf_val)
          × (rank (add (s.dist e) adj) ≤ rank s.best_final)

  module _ (mono : IsMonotone fl) (nonneg : IsNonneg fl q) where
    push-IsTraced :
        (s : SearchState fl) (p t : ℕ) (g : Val)
        → rank g ≡ rank (s.dist p)
        → lt fl (add g (q.arc_cost t)) (s.dist (q.turn_out_edge t)) ≡ true
        → q.turn_in_edge t ≡ p
        → q.turn_ptr p ≤ t
        → t < q.turn_ptr (p + 1)
        → q.turn_allowed t ≡ true
        → q.turn_out_edge t < q.num_edges
        → IsTraced s
        → IsTraced (push fl q s (q.turn_out_edge t) (add g (q.arc_cost t)) (some t))
    unfolding push
    push-IsTraced s p t g same cheaper from lo hi ok inside h =
        let at_target = ltb→lt _ _ cheaper in
        let below = h.capped (q.turn_out_edge t) in
        let (k, at_p) = h.reached p (omega (arith, nonneg.arc_nonneg g t)) in
        let lower = dist-pushed_le fl q mono nonneg s p t g same cheaper in
        record {
          reached = λ e r. elim (Bool-cases (q.turn_out_edge t == e)) [
            | inl hit ↦ (
              suc k,
              subst (λ x. Traced fl q (pushed fl q mono nonneg s p t g same cheaper) x (suc k))
                  ((==_iff _ e).0 hit)
                  (Traced-target fl q mono nonneg s p t g same cheaper at_p from lo hi ok),
            )
            | inr miss ↦
                let (n, tr) = h.reached e (rw miss at r) in
                Traced-pushed fl q mono nonneg s p t g same cheaper at_p from lo hi ok tr
          ];
          capped = λ e. omega (arith, lower e, h.capped e);
          live = All-heappush fl IsFinite s.heap _ h.live (omega arith, inside);
          best_capped = h.best_capped;
          best = λ e b.
              let (adj, d, fin, le) = h.best e b in
              (
                adj,
                d,
                omega (arith, lower e),
                omega (arith, mono.add_mono _ _ adj adj (lower e) (omega arith)),
              );
        }

    finalize-IsTraced :
        (s : SearchState fl) (e : ℕ) (g : Val)
        → rank g ≡ rank (s.dist e)
        → rank g < rank inf_val
        → IsTraced s
        → IsTraced (finalize fl q e g s)
    unfolding finalize
    finalize-IsTraced s e g same fin h = elim (Option-cases (dict_get q.dests e)) [
      | inl n ↦ rw (n, finalize) h
      | inr (adj, m) ↦ elim (Bool-cases (lt fl (add g adj) s.best_final)) [
        | inl c ↦
            rw (m, c, finalize)
              (record {
                reached = h.reached;
                capped = h.capped;
                live = h.live;
                best_capped = omega (arith, ltb→lt _ _ c, h.best_capped);
                best = λ x b.
                    let same_edge : e ≡ x = some-injective _ _ b in
                    (
                      adj,
                      subst (λ y. dict_get q.dests y ≡ some adj) same_edge m,
                      subst (λ y. rank (s.dist y) < rank inf_val) same_edge (omega arith),
                      subst (λ y. rank (add (s.dist y) adj) ≤ rank (add g adj)) same_edge
                          (mono.add_mono _ _ adj adj (omega arith) (omega arith)),
                    );
              })
        | inr c ↦ rw (m, c, finalize) h
      ]
    ]

    settle-IsTraced :
        (topo : IsTopo q.topo) (s : SearchState fl) (x : Entry fl)
        → IsFinite x
        → IsTraced s
        → IsTraced (settle fl q s x)
    unfolding settle
    settle-IsTraced topo s x (fin, hx) h = elim (Bool-cases (eq fl x.g (s.dist x.edge))) [
      | inl e ↦
          let same : rank x.g ≡ rank (s.dist x.edge) = (==_iff _ _).0 e in
          rw (e, settle)
            (relax_range_rule fl q (λ u. IsTraced u × (rank x.g ≡ rank (u.dist x.edge))) x.edge x.g
              (λ i u hu lo hi ok cheaper. (
                push-IsTraced u x.edge i x.g hu.1 cheaper (topo.in_eq x.edge i hx lo hi) lo hi ok
                    (topo.out_lt x.edge i hx lo hi) hu.0,
                rw
                    (dist-pushed_ne fl q mono nonneg u x.edge i x.g hu.1 cheaper x.edge (
                      not_pushed fl q mono nonneg u x.edge i x.g hu.1 cheaper x.edge (omega arith)))
                    hu.1,
              ))
              _ _ _ (omega arith) (omega (arith, topo.ordered x.edge hx))
              (
                finalize-IsTraced s x.edge x.g same fin h,
                rw (dist-finalize fl q x.edge x.g s) same,
              )).0
      | inr e ↦ rw (e, settle) h
    ]

  -- While the seeds are set, no edge has a predecessor.
  record IsSeeded (s : SearchState fl) : Type 0 where
    fresh : (e : ℕ) → s.pred e ≡ none
    seeded :
        (e : ℕ)
        → rank (s.dist e) < rank inf_val
        → (g : Val) × In (e, g) q.seeds × (rank g ≤ rank (s.dist e))
    capped : (e : ℕ) → rank (s.dist e) ≤ rank inf_val
    live : All IsFinite s.heap
    no_best : s.best_edge ≡ none
    best_capped : rank s.best_final ≤ rank inf_val

  seed-IsSeeded :
      (s : SearchState fl) (e : ℕ) (g : Val)
      → In (e, g) q.seeds
      → e < q.num_edges
      → lt fl g (s.dist e) ≡ true
      → IsSeeded s
      → IsSeeded (push fl q s e g none)
  unfolding push
  seed-IsSeeded s e g seed inside cheaper h = record {
    fresh = h.fresh;
    seeded = λ x r. elim (Bool-cases (e == x)) [
      | inl hit ↦
          (g, subst (λ y. In (y, g) q.seeds) ((==_iff e x).0 hit) seed, rw hit (omega arith))
      | inr miss ↦ let (g', m, le) = h.seeded x (rw miss at r) in (g', m, rw miss le)
    ];
    capped = λ x. ground (arith, h.capped x, h.capped e, ==_iff e x);
    live =
        All-heappush fl IsFinite s.heap _ h.live
          (omega (arith, h.capped e, ltb→lt _ _ cheaper), inside);
    no_best = h.no_best;
    best_capped = h.best_capped;
  }

  seed_all-IsSeeded :
      (seeds : List (ℕ × Val)) (s : SearchState fl)
      → All (λ p. In p q.seeds) seeds
      → All (λ p. p.0 < q.num_edges) seeds
      → IsSeeded s
      → IsSeeded (seed_all fl q s seeds)
  unfolding seed_all
  seed_all-IsSeeded [] s hs hr h = h
  seed_all-IsSeeded ((e, g) ∷ rest) s hs hr h = elim (Bool-cases (lt fl g (s.dist e))) [
    | inl c ↦ rw c (seed_all-IsSeeded rest _ hs.1 hr.1 (seed-IsSeeded s e g hs.0 hr.0 c h))
    | inr c ↦ rw c (seed_all-IsSeeded rest s hs.1 hr.1 h)
  ]

  blank-IsSeeded : IsSeeded (blank fl q)
  blank-IsSeeded = record {
    fresh = λ e. refl;
    seeded = λ e r. absurd (omega arith);
    capped = λ e. omega arith;
    live = tt;
    no_best = refl;
    best_capped = omega arith;
  }

  IsTraced-IsSeeded : (s : SearchState fl) → IsSeeded s → IsTraced s
  IsTraced-IsSeeded s h = record {
    reached = λ e r. let (g, m, le) = h.seeded e r in (zero, root e g (h.fresh e) m le);
    capped = h.capped;
    live = h.live;
    best_capped = h.best_capped;
    best = λ e b. absurd (cc (h.no_best));
  }

  pub start-IsTraced : All (λ p. p.0 < q.num_edges) q.seeds → IsTraced (start fl q)
  unfolding start
  start-IsTraced hr =
      IsTraced-IsSeeded _ (seed_all-IsSeeded q.seeds _ (All-self q.seeds) hr blank-IsSeeded)

  pub round-IsTraced :
      IsMonotone fl
      → IsNonneg fl q
      → IsTopo q.topo
      → (s : SearchState fl) (x : Entry fl) (rest : List (Entry fl)) → s.heap ≡ x ∷ rest
      → IsTraced s
      → IsTraced (settle fl q (record s { heap = rest }) x)
  round-IsTraced mono nonneg topo s x rest e h =
      let live : All IsFinite (x ∷ rest) = rw e at h.live in
      settle-IsTraced mono nonneg topo (record s { heap = rest }) x live.0
        (record {
          reached = h.reached;
          capped = h.capped;
          live = live.1;
          best_capped = h.best_capped;
          best = h.best;
        })
