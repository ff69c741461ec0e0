-- ===== src/Search.antt =====
-- pyref/search.py: edge-based Dijkstra and A*, the reference engine.
-- Arrays are functions on the indices in range (`IsTopo` says which those are). A run of the search
-- takes fuel, and `shortest_path` is given as much as `Search.Ends` proves to be enough.
pub mod Topo
pub mod Ends
pub mod Routes
pub mod Trace
pub mod Sound
pub mod Simple
pub mod Heap
pub mod Explored
pub mod Relaxing
pub mod Rounds
pub mod Correct
mod Examples
use safety_aware_route_plann.Base.{
  ℕ, zero, suc, ◌+◌, ◌-◌, ◌*◌, Bool, true, false, Option, none, some, List, [], ◌∷◌, if◌then◌else◌,
  ltb, update, dict_get,
}
use safety_aware_route_plann.Float.{Float, lt, eq}

-- `TurnTopo`. `num_edges` is `len(turn_ptr) - 1`.
pub record TurnTopo : Type 0 where
  pub num_edges : ℕ
  pub turn_ptr : ℕ → ℕ
  pub turn_out_edge : ℕ → ℕ
  pub turn_in_edge : ℕ → ℕ
  pub turn_allowed : ℕ → Bool

-- `PathResult`.
pub record PathResult {ℓ} (V : Type ℓ) : Type ℓ where
  pub turn_ids : List ℕ
  pub first_edge : ℕ
  pub dest_edge : ℕ
  pub total_cost : V

-- `PathResult.edges`.
unfoldable pub route_edges : (ℕ → ℕ) → List ℕ → List ℕ
route_edges turn_out_edge [] = []
route_edges turn_out_edge (t ∷ ts) = turn_out_edge t ∷ route_edges turn_out_edge ts

unfoldable pub edges {ℓ} : {V : Type ℓ} → PathResult V → (ℕ → ℕ) → List ℕ
unfolding route_edges
edges r turn_out_edge = r.first_edge ∷ route_edges turn_out_edge r.turn_ids

module _ (fl : Float) where
  open fl use {Val, rank, zero_val, inf_val, add, sub}

  -- A heap entry `(f, edge, g)`.
  pub record Entry : Type 0 where
    pub f : Val
    pub edge : ℕ
    pub g : Val

  -- Tuples compare left to right.
  abbrev pub entry_lt : Entry → Entry → Bool
  entry_lt a b =
      if ltb (rank a.f) (rank b.f)
      then true
      else if ltb (rank b.f) (rank a.f)
      then false
      else if ltb a.edge b.edge
      then true
      else if ltb b.edge a.edge
      then false
      else ltb (rank a.g) (rank b.g)

  -- `heapq` holds a multiset and pops its least entry: the entries in order.
  unfoldable pub heappush : List Entry → Entry → List Entry
  heappush [] x = x ∷ []
  heappush (y ∷ ys) x = if entry_lt x y then x ∷ y ∷ ys else y ∷ heappush ys x

  pub record SearchState : Type 0 where
    pub dist : ℕ → Val
    pub pred : ℕ → Option ℕ
    pub heap : List Entry
    pub best_final : Val
    pub best_edge : Option ℕ

  pub record Query : Type 0 where
    pub topo : TurnTopo
    pub open topo use *
    pub arc_cost : ℕ → Val
    pub h : Option (ℕ → Val)
    pub seeds : List (ℕ × Val)
    pub dests : List (ℕ × Val)

  -- `h[e] if h is not None else 0.0`.
  abbrev pub h_at : Option (ℕ → Val) → ℕ → Val
  h_at none e = zero_val
  h_at (some h) e = h e

  -- P6: the termination slack, from 0.0 up.
  unfoldable pub slack_from : Option (ℕ → Val) → Val → List (ℕ × Val) → Val
  slack_from h slack [] = slack
  slack_from h slack ((d, adj) ∷ rest) =
      slack_from h (if lt fl slack (sub (h_at h d) adj) then sub (h_at h d) adj else slack) rest

  module _ (q : Query) where
    -- `dist[e] = g; heappush(heap, (g + h[e], e, g))`, with the predecessor turn where there is one.
    unfoldable pub push : SearchState → ℕ → Val → Option ℕ → SearchState
    push s e g p = record s {
      dist = update s.dist e g;
      pred = elim p [ none ↦ s.pred | some t ↦ update s.pred e (some t) ];
      heap = heappush s.heap (record { f = add g (h_at q.h e); edge = e; g = g });
    }

    abbrev pub blank : SearchState
    blank = record {
      dist = λ _. inf_val;
      pred = λ _. none;
      heap = [];
      best_final = inf_val;
      best_edge = none;
    }

    -- `for e, g0 in seeds`.
    unfoldable pub seed_all : SearchState → List (ℕ × Val) → SearchState
    seed_all s [] = s
    seed_all s ((e, g0) ∷ rest) =
        seed_all (if lt fl g0 (s.dist e) then push s e g0 none else s) rest

    -- One turn of the relaxation loop (P3, P5).
    unfoldable pub relax : Val → ℕ → SearchState → SearchState
    relax g t s =
        if q.turn_allowed t
        then if lt fl (add g (q.arc_cost t)) (s.dist (q.turn_out_edge t))
          then push s (q.turn_out_edge t) (add g (q.arc_cost t)) (some t)
          else s
        else s

    -- `for t in range(lo, hi)`, by the turns left.
    unfoldable pub relax_range : Val → ℕ → ℕ → SearchState → SearchState
    relax_range g t zero s = s
    relax_range g t (suc n) s = relax_range g (t + 1) n (relax g t s)

    -- `if e in dest_adjust: ...`.
    unfoldable pub finalize : ℕ → Val → SearchState → SearchState
    finalize e g s = elim (dict_get q.dests e) [
      | none ↦ s
      | some adj ↦
          if lt fl (add g adj) s.best_final
          then record s { best_final = add g adj; best_edge = some e }
          else s
    ]

    -- The body of the loop once an entry is popped, `heap` without it, and not past the bound.
    unfoldable pub settle : SearchState → Entry → SearchState
    settle s x =
        if eq fl x.g (s.dist x.edge)
        then relax_range x.g (q.turn_ptr x.edge) (q.turn_ptr (x.edge + 1) - q.turn_ptr x.edge)
            (finalize x.edge x.g s)
        else s

    -- `best_edge >= 0 and f > best_final + slack`.
    unfoldable pub past_bound : SearchState → Val → Bool
    past_bound s f = elim s.best_edge [
      | none ↦ false
      | some _ ↦ lt fl (add s.best_final (slack_from q.h zero_val q.dests)) f
    ]

    -- `while heap`; `none` means that the fuel ran out.
    unfoldable pub search_loop : ℕ → SearchState → Option SearchState
    search_loop zero s = elim s.heap [ [] ↦ some s | _ ∷ _ ↦ none ]
    search_loop (suc fuel) s = elim s.heap [
      | [] ↦ some s
      | x ∷ rest ↦ elim (past_bound s x.f) [
        | true ↦ some s
        | false ↦ search_loop fuel (settle (record s { heap = rest }) x)
      ]
    ]

    -- P7: the turns from `e` back to a seed, last first, with the seed edge; `none` means that the
    -- fuel ran out.
    unfoldable pub walk_back : ℕ → (ℕ → Option ℕ) → ℕ → List ℕ → Option (ℕ × List ℕ)
    walk_back zero pred e turns = none
    walk_back (suc fuel) pred e turns = elim (pred e) [
      | none ↦ some (e, turns)
      | some t ↦ walk_back fuel pred (q.turn_in_edge t) (t ∷ turns)
    ]

    pub data Outcome : Type 0 where
      found : PathResult Val → Outcome
      no_path out_of_fuel : Outcome

    unfoldable pub start : SearchState
    start = seed_all blank q.seeds

    -- The rounds that are enough for `search_loop`, and for `walk_back`.
    abbrev pub loop_fuel : ℕ
    loop_fuel = q.num_edges * rank inf_val

    unfoldable pub reconstruct : SearchState → Outcome
    reconstruct s = elim s.best_edge [
      | none ↦ no_path
      | some e ↦ elim (walk_back (q.num_edges + 1) s.pred e []) [
        | none ↦ out_of_fuel
        | some (first, turns) ↦ found (record {
          turn_ids = turns;
          first_edge = first;
          dest_edge = e;
          total_cost = s.best_final;
        })
      ]
    ]

    unfoldable pub shortest_path : Outcome
    shortest_path = elim (search_loop loop_fuel start) [
      | none ↦ out_of_fuel
      | some s ↦ reconstruct s
    ]
