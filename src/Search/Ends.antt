-- ===== src/Search/Ends.antt =====
-- The search ends. Costs are doubles, so each has a rank below that of infinity, and a push lowers
-- the rank of one distance: the ranks and the heap together fall with each round.
use safety_aware_route_plann.Base.{
  ℕ, zero, suc, ◌+◌, ◌<◌, ◌≤◌, ◌≡◌, true, Option, none, some, List, [], ◌∷◌, arith, Bool-cases,
  List-cases, All, inl, inr, refl, length, sum_below, sum_below-le, sum_below-update, ltb→lt, ap,
}
use safety_aware_route_plann.Float.{Float, lt, eq}
use safety_aware_route_plann.Search.{
  Entry, SearchState, Query, heappush, push, seed_all, blank, start, loop_fuel, finalize, settle,
  past_bound, search_loop,
}
use safety_aware_route_plann.Search.Topo.{
  IsTopo, All-heappush, relax_range_rule, heap-finalize, dist-finalize,
}

module _ (fl : Float) where
  open fl use {Val, rank, add, inf_val}

  length-heappush : (h : List (Entry fl)) (x : Entry fl) → length (heappush fl h x) ≡ suc (length h)
  unfolding heappush
  length-heappush [] x = refl
  length-heappush (y ∷ ys) x = ground (arith, length-heappush ys x)

  module _ (q : Query fl) where
    abbrev energy : SearchState fl → ℕ
    energy s = sum_below q.num_edges (λ i. rank (s.dist i)) + length s.heap

    abbrev InRange : Entry fl → Type 0
    InRange x = x.edge < q.num_edges

    -- No more energy than `b`, and only edges of the graph on the heap.
    record IsBounded (b : ℕ) (s : SearchState fl) : Type 0 where
      energy_le : energy s ≤ b
      in_range : All InRange s.heap

    push-IsBounded :
        (b : ℕ) (s : SearchState fl) (e : ℕ) (g : Val) (p : Option ℕ)
        → e < q.num_edges
        → lt fl g (s.dist e) ≡ true
        → IsBounded b s
        → IsBounded b (push fl q s e g p)
    unfolding push
    push-IsBounded b s e g p hi cheaper h = record {
      energy_le = omega (
        arith,
        sum_below-update rank s.dist e g q.num_edges hi,
        ltb→lt _ _ cheaper,
        length-heappush s.heap _,
        h.energy_le,
      );
      in_range = All-heappush fl InRange s.heap _ h.in_range hi;
    }

    finalize-IsBounded :
        (b : ℕ) (e : ℕ) (g : Val) (s : SearchState fl)
        → IsBounded b s
        → IsBounded b (finalize fl q e g s)
    finalize-IsBounded b e g s h = record {
      energy_le = rw (heap-finalize fl q e g s, dist-finalize fl q e g s) h.energy_le;
      in_range = rw (heap-finalize fl q e g s) h.in_range;
    }

    module _ (topo : IsTopo q.topo) where
      settle-IsBounded :
          (b : ℕ) (s : SearchState fl) (x : Entry fl)
          → InRange x
          → IsBounded b s
          → IsBounded b (settle fl q s x)
      unfolding settle
      settle-IsBounded b s x hx h = elim (Bool-cases (eq fl x.g (s.dist x.edge))) [
        | inl e ↦
            rw (e, settle)
              (relax_range_rule fl q (IsBounded b) x.edge x.g
                (λ i u hu lo hi ok cheaper.
                  push-IsBounded b u _ _ _ (topo.out_lt x.edge i hx lo hi) cheaper hu)
                _ _ _ (omega arith) (omega (arith, topo.ordered x.edge hx))
                (finalize-IsBounded b x.edge x.g s h))
        | inr e ↦ rw (e, settle) h
      ]

      loop_ends :
          (fuel : ℕ) (s : SearchState fl)
          → IsBounded fuel s
          → (t : SearchState fl) × (search_loop fl q fuel s ≡ some t)
      unfolding search_loop
      loop_ends zero s h = elim (List-cases s.heap) [
        | inl e ↦ (s, ground arith)
        | inr (x, rest, e) ↦ absurd (omega (arith, h.energy_le, ap length e))
      ]
      loop_ends (suc fuel) s h = elim (List-cases s.heap) [
        | inl e ↦ (s, ground arith)
        | inr (x, rest, e) ↦ elim (Bool-cases (past_bound fl q s x.f)) [
          | inl stop ↦ (s, ground arith)
          | inr on ↦
              let ranges : All InRange (x ∷ rest) = rw e at h.in_range in
              let popped : IsBounded fuel (record s { heap = rest }) = record {
                energy_le = omega (arith, h.energy_le, ap length e);
                in_range = ranges.1;
              } in
              let (t, ends) =
                loop_ends fuel (settle fl q (record s { heap = rest }) x)
                  (settle-IsBounded fuel _ x ranges.0 popped) in
              (t, rw (e, on, search_loop) ends)
        ]
      ]

      seed_all-IsBounded :
          (b : ℕ) (seeds : List (ℕ × Val)) (s : SearchState fl)
          → All (λ p. p.0 < q.num_edges) seeds
          → IsBounded b s
          → IsBounded b (seed_all fl q s seeds)
      unfolding seed_all
      seed_all-IsBounded b [] s hs h = h
      seed_all-IsBounded b ((e, g) ∷ rest) s hs h = elim (Bool-cases (lt fl g (s.dist e))) [
        | inl c ↦ rw c (
            seed_all-IsBounded b rest (push fl q s e g none) hs.1
              (push-IsBounded b s e g none hs.0 c h))
        | inr c ↦ rw c (seed_all-IsBounded b rest s hs.1 h)
      ]

      blank-IsBounded : IsBounded (loop_fuel fl q) (blank fl q)
      blank-IsBounded = record {
        energy_le =
            omega (
              arith,
              sum_below-le q.num_edges (λ i. rank inf_val) (rank inf_val) (λ i. omega arith),
            );
        in_range = tt;
      }

      -- The loop of `shortest_path` stops within its fuel.
      pub search_ends :
          All (λ p. p.0 < q.num_edges) q.seeds
          → (t : SearchState fl) × (search_loop fl q (loop_fuel fl q) (start fl q) ≡ some t)
      unfolding start
      search_ends hs =
          loop_ends (loop_fuel fl q) _
            (seed_all-IsBounded (loop_fuel fl q) q.seeds _ hs blank-IsBounded)
