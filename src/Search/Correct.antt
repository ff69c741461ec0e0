-- ===== src/Search/Correct.antt =====
-- What `shortest_path` returns: an answer, a real route, and the cheapest one.
use safety_aware_route_plann.Base.{
  ℕ, ◌+◌, ◌<◌, ◌≤◌, ◌≡◌, ◌≢◌, sym, true, List, [], ◌∷◌, In, some, inl, inr, ◌⊎◌, Bool-cases,
  Option-cases, ==_iff, ◌==◌, if◌then◌else◌, arith, ltb→lt, subst, All, dict_get, All-In, ◌∙◌,
}
use safety_aware_route_plann.Float.{Float, lt, IsMonotone, IsExact}
use safety_aware_route_plann.Search.{
  Query, SearchState, PathResult, Entry, Outcome, found, out_of_fuel, past_bound, slack_from, start,
  search_loop, loop_fuel, reconstruct, shortest_path, h_at, edges, route_edges,
}
use safety_aware_route_plann.Search.Topo.{IsTopo, loop_rule, Stopped}
use safety_aware_route_plann.Search.Ends.{search_ends}
use safety_aware_route_plann.Search.Routes.{Route, from_seed, by_turn, IsNonneg, IsConsistent}
use safety_aware_route_plann.Search.Heap.{head_le, IsSorted}
use safety_aware_route_plann.Search.Trace.{Traced}
use safety_aware_route_plann.Search.Sound.{IsTraced, IsFinite, start-IsTraced, round-IsTraced}
use safety_aware_route_plann.Search.Simple.{
  Distinct, origin, turns, walk_back-Traced, edges-Traced, trail-Distinct, depth_lt, Route-Traced,
}
use safety_aware_route_plann.Search.Explored.{Keyed, Closed, IsExplored}
use safety_aware_route_plann.Search.Rounds.{settle-IsExplored, start-IsExplored}
use mathlib.Core.Option.{some-injective}
use mathlib.Core.List.{append-nil}

module _ (fl : Float) (q : Query fl) where
  open fl use {Val, rank, add, sub, inf_val, zero_val}

  -- What the callers of the engine give it.
  pub record IsWellPosed : Type 0 where
    pub mono : IsMonotone fl
    pub nonneg : IsNonneg fl q
    pub topo : IsTopo q.topo
    pub range : All (λ p. p.0 < q.num_edges) q.seeds

  slack_from-le : (s : Val) (dests : List (ℕ × Val)) → rank s ≤ rank (slack_from fl q.h s dests)
  unfolding slack_from
  slack_from-le s [] = omega arith
  slack_from-le s ((d, adj) ∷ rest) = elim (Bool-cases (lt fl s (sub (h_at fl q.h d) adj))) [
    | inl c ↦ rw c (omega (arith, ltb→lt _ _ c, slack_from-le (sub (h_at fl q.h d) adj) rest))
    | inr c ↦ rw c (slack_from-le s rest)
  ]

  larger : (s v : Val) → rank v ≤ rank (if lt fl s v then v else s)
  larger s v = ground arith

  slack_covers :
      (s : Val) (dests : List (ℕ × Val)) (d : ℕ) (adj : Val)
      → dict_get dests d ≡ some adj
      → rank (sub (h_at fl q.h d) adj) ≤ rank (slack_from fl q.h s dests)
  unfolding slack_from
  slack_covers s [] d adj m = cc
  slack_covers s ((e, a) ∷ rest) d adj m = elim (Option-cases (dict_get rest d)) [
    | inr (w, later) ↦
        slack_covers (if lt fl s (sub (h_at fl q.h e) a) then sub (h_at fl q.h e) a else s) rest d
          adj (later ∙ (rw later at m))
    | inl last ↦ elim (Bool-cases (e == d)) [
      | inr miss ↦ cc (rw (last, miss) at m)
      | inl hit ↦
          let next = if lt fl s (sub (h_at fl q.h e) a) then sub (h_at fl q.h e) a else s in
          let bound = slack_from fl q.h next rest in
          let same : a ≡ adj = some-injective _ _ (rw (last, hit) at m) in
          let le : rank (sub (h_at fl q.h e) a) ≤ rank bound =
            omega (arith, larger s (sub (h_at fl q.h e) a), slack_from-le next rest) in
          subst (λ z. rank (sub (h_at fl q.h z) adj) ≤ rank bound) ((==_iff e d).0 hit)
            (subst (λ z. rank (sub (h_at fl q.h e) z) ≤ rank bound) same le)
    ]
  ]

  past_bound-lt :
      (s : SearchState fl) (f : Val)
      → past_bound fl q s f ≡ true
      → rank (add s.best_final (slack_from fl q.h zero_val q.dests)) < rank f
  unfolding past_bound
  past_bound-lt s f h = ground arith

  -- What an explored state knows of a route: an entry of the heap leads at least as far, or its end
  -- is closed at no more than its cost.
  abbrev Ahead : SearchState fl → ℕ → Val → Type 0
  Ahead s e g =
      ((x : Entry fl) × In x s.heap × (rank x.f ≤ rank (add g (h_at fl q.h e))))
      ⊎ (rank (s.dist e) ≤ rank g) × Closed fl q s e

  module _ (w : IsWellPosed) (consistent : IsConsistent fl q) (s : SearchState fl)
      (h : IsExplored fl q s) where
    reached-Ahead :
        (e : ℕ) (g : Val) → rank (s.dist e) ≤ rank g → rank g < rank inf_val → Ahead s e g
    reached-Ahead e g le fin = elim (h.seen e (omega arith)) [
      | inr c ↦ inr (le, c)
      | inl o ↦ inl (
        o.entry,
        o.on_heap,
        rw (All-In (Keyed fl q) o.entry s.heap h.keyed o.on_heap) (
            w.mono.add_mono o.entry.g g _ _ (omega (arith, o.at_dist))
              (rw o.at_edge (omega arith))),
      )
    ]

    Route-Ahead :
        {a e : ℕ} {ts : List ℕ} {g : Val}
        → Route fl q a ts e g
        → rank g < rank inf_val
        → Ahead s e g
    Route-Ahead (from_seed g i) fin = reached-Ahead _ g (h.covers _ g i) fin
    Route-Ahead (by_turn {e} {g} r t lo hi ok) fin =
        elim (Route-Ahead r (omega (arith, w.nonneg.arc_nonneg g t))) [
          | inl (x, m, le) ↦ inl (x, m, omega (arith, consistent.consistent g e t lo hi ok))
          | inr (le, c) ↦
              reached-Ahead _ _
                (omega (
                  arith,
                  c.relaxed t lo hi ok,
                  w.mono.add_mono (s.dist e) g (q.arc_cost t) (q.arc_cost t) le (omega arith),
                ))
                fin
        ]

    -- Where the search stops, stopping at the end of a route is no cheaper than the best.
    best_le :
        (exact : IsExact fl)
        → Stopped fl q s
        → {a d : ℕ} {ts : List ℕ} {g : Val} (adj : Val) → Route fl q a ts d g
        → dict_get q.dests d ≡ some adj
        → rank g < rank inf_val
        → rank s.best_final ≤ rank (add g adj)
    best_le exact stop {d} {g} adj r m fin = elim (Route-Ahead r fin) [
      | inr (le, c) ↦
          omega (arith, c.stopped adj m, w.mono.add_mono (s.dist d) g adj adj le (omega arith))
      | inl (x, on, le) ↦ elim stop [
        | inl empty ↦ absurd (subst (In x) empty on)
        | inr (x0, rest, at_head, past) ↦
            let first : rank x0.f ≤ rank x.f =
              head_le fl x0 x rest (subst (IsSorted fl) at_head h.sorted)
                (subst (In x) at_head on) in
            exact.bound_exact s.best_final (slack_from fl q.h zero_val q.dests) g (h_at fl q.h d)
              adj (slack_covers zero_val q.dests d adj m) (omega (arith, past_bound-lt s x0.f past))
      ]
    ]

  -- Where a run stops.
  record IsFinal (t : SearchState fl) : Type 0 where
    ends : search_loop fl q (loop_fuel fl q) (start fl q) ≡ some t
    traced : IsTraced fl q t
    explored : IsExplored fl q t
    stopped : Stopped fl q t

  module _ (w : IsWellPosed) where
    IsFinal-state : (t : SearchState fl) × IsFinal t
    IsFinal-state =
        let (t, ends) = search_ends fl q w.topo w.range in
        let (inv, stop) =
          loop_rule fl q (λ s. IsTraced fl q s × IsExplored fl q s)
            (λ s x rest at_head p.
              let live : All (IsFinite fl q) (x ∷ rest) = rw at_head at p.0.live in
              (
                round-IsTraced fl q w.mono w.nonneg w.topo s x rest at_head p.0,
                settle-IsExplored fl q s x rest at_head p.1 w.mono w.nonneg
                    (w.topo.ordered x.edge live.0.1),
              ))
            (loop_fuel fl q) (start fl q) t (start-IsTraced fl q w.range, start-IsExplored fl q)
            ends in
        (t, record { ends = ends; traced = inv.0; explored = inv.1; stopped = stop })

    -- With a destination reached, the reconstruction gives its route.
    reconstruct-found :
        (t : SearchState fl) (e : ℕ)
        → IsTraced fl q t
        → t.best_edge ≡ some e
        → (n : ℕ) × (tr : Traced fl q t e n) × (reconstruct fl q t
            ≡ found (record {
              turn_ids = turns fl q t.dist t.pred tr;
              first_edge = origin fl q t.dist t.pred tr;
              dest_edge = e;
              total_cost = t.best_final;
            }))
    unfolding reconstruct
    reconstruct-found t e h b =
        let (adj, d, fin, le) = h.best e b in
        let (n, tr) = h.reached e fin in
        let short = depth_lt fl q t.dist t.pred w.topo w.range tr in
        let back = walk_back-Traced fl q t.dist t.pred tr (q.num_edges + 1) [] (omega arith) in
        (n, tr, rw (b, reconstruct) (rw (back, append-nil)))

    -- What a run returns is read off its last state.
    returned :
        (r : PathResult Val)
        → shortest_path fl q ≡ found r
        → (t : SearchState fl) × IsFinal t × (reconstruct fl q t ≡ found r)
    unfolding shortest_path
    returned r h = let (t, f) = IsFinal-state in (t, f, rw (f.ends, shortest_path) at h)

    returned_best :
        (t : SearchState fl) (r : PathResult Val)
        → reconstruct fl q t ≡ found r
        → (e : ℕ) × (t.best_edge ≡ some e)
    unfolding reconstruct
    returned_best t r h = elim (Option-cases t.best_edge) [
      | inl n ↦ absurd (cc (rw (n, reconstruct) at h))
      | inr found_one ↦ found_one
    ]

found-injective :
    (fl : Float) (q : Query fl) (r u : PathResult fl.Val)
    → ◌≡◌ {A = Outcome fl q} (found r) (found u)
    → r ≡ u
found-injective fl q r u h = cc

-- Whatever the costs are, so long as no turn makes a route cheaper and the turn table is that of a
-- graph, a search gives an answer: neither its loop nor its reconstruction runs out of fuel.
pub shortest_path-answers :
    (fl : Float) (q : Query fl) → IsWellPosed fl q → shortest_path fl q ≢ out_of_fuel
unfolding shortest_path
shortest_path-answers fl q w =
    let (t, f) = IsFinal-state fl q w in
    elim (Option-cases t.best_edge) [
      | inl n ↦ rw (f.ends, shortest_path) (unfold reconstruct in rw (n, reconstruct) (λ p. cc))
      | inr (e, b) ↦
          let (n, tr, eq) = reconstruct-found fl q w t e f.traced b in
          rw (f.ends, shortest_path) (rw eq (λ p. cc))
    ]

-- A returned path is a route of the graph from a seed to a destination that repeats no edge, and
-- the cost reported is no less than that of the route with its destination's refund.
pub shortest_path_sound :
    (fl : Float) (q : Query fl) (r : PathResult fl.Val)
    → IsWellPosed fl q
    → shortest_path fl q ≡ found r
    → (g : fl.Val) × (adj : fl.Val) × Route fl q r.first_edge r.turn_ids r.dest_edge g
      × (dict_get q.dests r.dest_edge ≡ some adj)
      × (fl.rank (fl.add g adj) ≤ fl.rank r.total_cost)
      × Distinct (edges r q.turn_out_edge)
unfolding edges
shortest_path_sound fl q r w h =
    let (t, f, back) = returned fl q w r h in
    let (e, b) = returned_best fl q w t r back in
    let (n, tr, eq) = reconstruct-found fl q w t e f.traced b in
    let (adj, d, fin, le) = f.traced.best e b in
    let (g, route, cheap) = Route-Traced fl q t.dist t.pred w.mono tr in
    subst
      (λ (u : PathResult fl.Val).
        (g : fl.Val) × (adj : fl.Val) × Route fl q u.first_edge u.turn_ids u.dest_edge g
        × (dict_get q.dests u.dest_edge ≡ some adj)
        × (fl.rank (fl.add g adj) ≤ fl.rank u.total_cost)
        × Distinct (u.first_edge ∷ route_edges q.turn_out_edge u.turn_ids))
      (found-injective fl q _ r (sym eq ∙ back))
      (
        g,
        adj,
        route,
        d,
        omega (arith, w.mono.add_mono g (t.dist e) adj adj cheap (omega arith)),
        subst Distinct (sym (edges-Traced fl q t.dist t.pred tr))
            (trail-Distinct fl q t.dist t.pred tr),
      )

-- With a consistent heuristic (or none) and exact sums, a search to which any route of finite cost
-- is open returns one, and no such route is cheaper than the cost that it reports.
pub shortest_path-optimal :
    (fl : Float) (q : Query fl) {a d : ℕ} {ts : List ℕ} {g : fl.Val} (adj : fl.Val)
    → IsWellPosed fl q
    → IsConsistent fl q
    → IsExact fl
    → Route fl q a ts d g
    → dict_get q.dests d ≡ some adj
    → fl.rank g < fl.rank fl.inf_val
    → fl.rank (fl.add g adj) < fl.rank fl.inf_val
    → (r : PathResult fl.Val) × (shortest_path fl q ≡ found r)
      × (fl.rank r.total_cost ≤ fl.rank (fl.add g adj))
unfolding shortest_path
shortest_path-optimal fl q adj w consistent exact route m fin fin' =
    let (t, f) = IsFinal-state fl q w in
    let le = best_le fl q w consistent t f.explored exact f.stopped adj route m fin in
    elim (Option-cases t.best_edge) [
      | inl n ↦ absurd (omega (arith, f.explored.no_best n))
      | inr (e, b) ↦
          let (k, tr, eq) = reconstruct-found fl q w t e f.traced b in
          (
            record {
              turn_ids = turns fl q t.dist t.pred tr;
              first_edge = origin fl q t.dist t.pred tr;
              dest_edge = e;
              total_cost = t.best_final;
            },
            rw (f.ends, shortest_path) eq,
            le,
          )
    ]
