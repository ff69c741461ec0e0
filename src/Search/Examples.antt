-- ===== src/Search/Examples.antt =====
-- A small search: from edge 0 to edge 3 by way of edge 1 or of edge 2.
use safety_aware_route_plann.Base.{
  ℕ, ◌+◌, ◌-◌, ◌≤◌, ◌≡◌, ◌≢◌, refl, true, [], ◌∷◌, none, some, inl, arith, if◌then◌else◌, ◌==◌,
  dict_get, ltb,
}
use safety_aware_route_plann.Float.Whole.{whole, whole-IsMonotone, whole-IsExact}
use safety_aware_route_plann.Search.{
  Query, PathResult, found, out_of_fuel, heappush, slack_from, push, seed_all, relax, relax_range,
  finalize, settle, past_bound, search_loop, walk_back, start, reconstruct, shortest_path, edges,
  route_edges,
}
use safety_aware_route_plann.Search.Topo.{IsTopo}
use safety_aware_route_plann.Search.Routes.{Route, from_seed, by_turn, IsConsistent}
use safety_aware_route_plann.Search.Simple.{Distinct}
use safety_aware_route_plann.Search.Correct.{
  IsWellPosed, shortest_path-answers, shortest_path_sound, shortest_path-optimal,
}

abbrev turn_ptr : ℕ → ℕ
turn_ptr e = if e == 0 then 0 else if e == 1 then 2 else if e == 2 then 3 else 4

abbrev turn_out_edge : ℕ → ℕ
turn_out_edge t = if t == 0 then 1 else if t == 1 then 2 else 3

abbrev turn_in_edge : ℕ → ℕ
turn_in_edge t = if ltb t 2 then 0 else if t == 2 then 1 else 2

abbrev arc_cost : ℕ → ℕ
arc_cost t = if t == 0 then 110 else if t == 1 then 103 else if t == 2 then 101 else 102

abbrev query : Query whole
query = record {
  topo = record {
    num_edges = 4;
    turn_ptr = turn_ptr;
    turn_out_edge = turn_out_edge;
    turn_in_edge = turn_in_edge;
    turn_allowed = λ _. true;
  };
  arc_cost = arc_cost;
  h = none;
  seeds = (0, 105) ∷ [];
  dests = (3, 98) ∷ [];
}

abbrev answer : PathResult ℕ
answer = record { turn_ids = 1 ∷ 3 ∷ []; first_edge = 0; dest_edge = 3; total_cost = 108 }

program : Unit {0}
unfolding heappush slack_from push seed_all relax relax_range finalize settle past_bound search_loop
    walk_back start reconstruct shortest_path edges route_edges
program = tt

shortest_path-query : shortest_path whole query ≡ found answer
unfolding program
shortest_path-query = refl

edges-answer : edges answer turn_out_edge ≡ 0 ∷ 2 ∷ 3 ∷ []
unfolding program
edges-answer = refl

query-IsTopo : IsTopo query.topo
query-IsTopo = record {
  ordered = λ e h. ground arith;
  out_lt = λ e i h lo hi. ground arith;
  in_eq = λ e i h lo hi. ground arith;
}

query-IsWellPosed : IsWellPosed whole query
query-IsWellPosed = record {
  mono = whole-IsMonotone;
  nonneg = record { arc_nonneg = λ g t. ground arith };
  topo = query-IsTopo;
  range = omega arith;
}

query-IsConsistent : IsConsistent whole query
query-IsConsistent = record { consistent = λ g e t lo hi ok. ground arith }

by_edge_1 : Route whole query 0 (0 ∷ 2 ∷ []) 3 116
by_edge_1 =
    by_turn (by_turn (from_seed 105 (inl refl)) 0 (omega arith) (omega arith) refl) 2 (omega arith)
      (omega arith) refl

shortest_path-answers_example : shortest_path whole query ≢ out_of_fuel
shortest_path-answers_example = shortest_path-answers whole query query-IsWellPosed

shortest_path_sound_example :
    (g : ℕ) × (adj : ℕ) × Route whole query 0 (1 ∷ 3 ∷ []) 3 g
    × (dict_get query.dests 3 ≡ some adj)
    × (g + adj - 100 ≤ 108)
    × Distinct (edges answer turn_out_edge)
shortest_path_sound_example =
    shortest_path_sound whole query answer query-IsWellPosed shortest_path-query

shortest_path-optimal_example :
    (r : PathResult ℕ) × (shortest_path whole query ≡ found r) × (r.total_cost ≤ 114)
shortest_path-optimal_example =
    shortest_path-optimal whole query 98 query-IsWellPosed query-IsConsistent whole-IsExact
      by_edge_1 refl (omega arith) (omega arith)
