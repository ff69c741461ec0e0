-- ===== src/Search/Routes.antt =====
-- The routes of the turn graph, and what they cost: the sum from the left that the engine adds up.
use safety_aware_route_plann.Base.{ℕ, ◌+◌, ◌<◌, ◌≤◌, ◌≡◌, true, List, [], ◌∷◌, ◌++◌, In}
use safety_aware_route_plann.Float.{Float}
use safety_aware_route_plann.Search.{Query, h_at}

module _ (fl : Float) where
  open fl use {Val, rank, add, inf_val}

  -- `Route q a ts e g`: from the seed edge `a` by the turns `ts` to the end of the edge `e`, at the
  -- cost `g`.
  pub data Route (q : Query fl) (a : ℕ) : List ℕ → ℕ → Val → Type 0 where
    from_seed : (g : Val) → In (a, g) q.seeds → Route q a [] a g
    by_turn :
        {ts : List ℕ} {e : ℕ} {g : Val}
        → Route q a ts e g
        → (t : ℕ) → q.turn_ptr e ≤ t
        → t < q.turn_ptr (e + 1)
        → q.turn_allowed t ≡ true
        → Route q a (ts ++ t ∷ []) (q.turn_out_edge t) (add g (q.arc_cost t))

  -- No turn makes a route cheaper: times and penalties are not negative.
  pub record IsNonneg (q : Query fl) : Type 0 where
    pub arc_nonneg : (g : Val) (t : ℕ) → rank g ≤ rank (add g (q.arc_cost t))

  -- The heuristic never falls by more than a turn costs. With no heuristic this is `arc_nonneg` after
  -- an addition of 0.0.
  pub record IsConsistent (q : Query fl) : Type 0 where
    pub consistent :
        (g : Val) (e t : ℕ)
        → q.turn_ptr e ≤ t
        → t < q.turn_ptr (e + 1)
        → q.turn_allowed t ≡ true
        → rank (add g (h_at fl q.h e))
          ≤ rank (add (add g (q.arc_cost t)) (h_at fl q.h (q.turn_out_edge t)))
