-- ===== src/Search/Topo.antt =====
-- What the search assumes of its inputs (`GraphPack.validate`, and the CSR expansion of
-- `turn_in_edge`), and the rule for its loops.
use safety_aware_route_plann.Base.{
  ℕ, zero, suc, ◌+◌, ◌<◌, ◌≤◌, ◌≡◌, true, some, List, [], ◌∷◌, arith, Bool-cases, List-cases, All,
  subst, inl, inr, ◌⊎◌,
}
use safety_aware_route_plann.Float.{Float, lt}
use safety_aware_route_plann.Search.{
  TurnTopo, Entry, SearchState, Query, entry_lt, heappush, push, relax, relax_range, settle,
  past_bound, search_loop, finalize,
}

-- The turns out of an edge start at it and lead to edges.
pub record IsTopo (t : TurnTopo) : Type 0 where
  pub ordered : (e : ℕ) → e < t.num_edges → t.turn_ptr e ≤ t.turn_ptr (e + 1)
  pub out_lt :
      (e i : ℕ)
      → e < t.num_edges
      → t.turn_ptr e ≤ i
      → i < t.turn_ptr (e + 1)
      → t.turn_out_edge i < t.num_edges
  pub in_eq :
      (e i : ℕ) → e < t.num_edges → t.turn_ptr e ≤ i → i < t.turn_ptr (e + 1) → t.turn_in_edge i ≡ e

module _ (fl : Float) where
  open fl use {Val, rank, add}

  pub All-heappush :
      (P : Entry fl → Type 0) (h : List (Entry fl)) (x : Entry fl)
      → All P h
      → P x
      → All P (heappush fl h x)
  unfolding heappush
  All-heappush P [] x a p = (p, tt)
  All-heappush P (y ∷ ys) x a p = elim (Bool-cases (entry_lt fl x y)) [
    | inl e ↦ rw (e, heappush) (p, a)
    | inr e ↦ rw (e, heappush) (a.0, All-heappush P ys x a.1 p)
  ]

  module _ (q : Query fl) where
    -- How a run stops: with an empty heap, or past the bound of P6.
    abbrev pub Stopped : SearchState fl → Type 0
    Stopped s =
        (s.heap ≡ [])
        ⊎ ((x : Entry fl) × (rest : List (Entry fl)) × (s.heap ≡ x ∷ rest)
            × (past_bound fl q s x.f ≡ true))

    -- An invariant that one round keeps holds where the loop stops.
    pub loop_rule :
        (P : SearchState fl → Type 0)
        → ((s : SearchState fl) (x : Entry fl) (rest : List (Entry fl))
            → s.heap ≡ x ∷ rest
            → P s
            → P (settle fl q (record s { heap = rest }) x))
        → (fuel : ℕ) (s t : SearchState fl) → P s
        → search_loop fl q fuel s ≡ some t
        → P t × Stopped t
    unfolding search_loop
    loop_rule P keep zero s t p h = elim (List-cases s.heap) [
      | inl e ↦ ground arith
      | inr (x, rest, e) ↦ ground arith
    ]
    loop_rule P keep (suc fuel) s t p h = elim (List-cases s.heap) [
      | inl e ↦ ground arith
      | inr (x, rest, e) ↦ elim (Bool-cases (past_bound fl q s x.f)) [
        | inl b ↦
            let e' : s ≡ t = ground arith in
            subst (λ u. P u × Stopped u) e' (p, inr (x, rest, e, b))
        | inr b ↦
            loop_rule P keep fuel (settle fl q (record s { heap = rest }) x) t (keep s x rest e p)
              (rw (e, b, search_loop) at h)
      ]
    ]

    -- A property of the state that no push of a cheaper cost breaks is kept by the relaxations.
    pub relax_range_rule :
        (P : SearchState fl → Type 0) (e : ℕ) (g : Val)
        → ((i : ℕ) (s : SearchState fl)
            → P s
            → q.turn_ptr e ≤ i
            → i < q.turn_ptr (e + 1)
            → q.turn_allowed i ≡ true
            → lt fl (add g (q.arc_cost i)) (s.dist (q.turn_out_edge i)) ≡ true
            → P (push fl q s (q.turn_out_edge i) (add g (q.arc_cost i)) (some i)))
        → (n i : ℕ) (s : SearchState fl) → q.turn_ptr e ≤ i
        → i + n ≤ q.turn_ptr (e + 1)
        → P s
        → P (relax_range fl q g i n s)
    unfolding relax_range relax
    relax_range_rule P e g keep zero i s lo hi p = p
    relax_range_rule P e g keep (suc n) i s lo hi p =
        relax_range_rule P e g keep n (i + 1) (relax fl q g i s) (omega arith) (omega arith)
          (ground (arith, keep i s))

    -- Finalising a destination touches the best route only.
    module _ (e : ℕ) (g : Val) (s : SearchState fl) where
      pub heap-finalize : (finalize fl q e g s).heap ≡ s.heap
      unfolding finalize
      heap-finalize = ground arith

      pub dist-finalize : (finalize fl q e g s).dist ≡ s.dist
      unfolding finalize
      dist-finalize = ground arith

      pub pred-finalize : (finalize fl q e g s).pred ≡ s.pred
      unfolding finalize
      pred-finalize = ground arith
