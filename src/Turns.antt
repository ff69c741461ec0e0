-- ===== src/Turns.antt =====
-- ingestion/turns.py: the turn table. Angles are values of a Float, in degrees; the modulus of two
-- floats, the absolute value and the bearings are arguments.
pub mod Table
mod Examples
use safety_aware_route_plann.Base.{
  ℕ, zero, suc, ◌+◌, ◌-◌, Bool, true, false, not, ◌&&◌, ◌||◌, Option, none, some, List, [], ◌∷◌,
  ◌++◌, ◌==◌, ltb, if◌then◌else◌, length,
}
use safety_aware_route_plann.Float.{Float, lt, eq}
use safety_aware_route_plann.Graph.{Maneuver, straight, left, right, uturn, is_maneuver}

module _ (fl : Float) where
  open fl use {Val, zero_val, add, sub}

  pub record Angles : Type 0 where
    pub abs : Val → Val
    pub modulo : Val → Val → Val
    pub straight_max_deg : Val
    pub uturn_min_deg : Val
    pub half_turn : Val
    pub minus_half_turn : Val
    pub full_turn : Val

  module _ (g : Angles) where
    -- `wrap_delta_deg`.
    unfoldable pub wrap_delta_deg : Val → Val
    wrap_delta_deg delta =
        let d = sub (g.modulo (add delta g.half_turn) g.full_turn) g.half_turn in
        if eq fl d g.minus_half_turn then g.half_turn else d

    -- `classify_maneuver`.
    unfoldable pub classify_maneuver : Val → Bool → Maneuver
    classify_maneuver delta_deg is_reverse_pair =
        if is_reverse_pair || lt fl g.uturn_min_deg (g.abs delta_deg)
        then uturn
        else if lt fl (g.abs delta_deg) g.straight_max_deg
        then straight
        else if lt fl zero_val delta_deg
        then right
        else left

    -- What the table is built from. Out-edges of node n are those from node_out_ptr n on, below
    -- node_out_ptr (n + 1); `none` is a reverse of -1.
    pub record Edges : Type 0 where
      pub num_edges : ℕ
      pub edge_head : ℕ → ℕ
      pub edge_reverse : ℕ → Option ℕ
      pub node_out_ptr : ℕ → ℕ
      pub bearing_in : ℕ → Val
      pub bearing_out : ℕ → Val

    -- A row of the table.
    pub record Turn : Type 0 where
      pub in_edge : ℕ
      pub out_edge : ℕ
      pub maneuver : Maneuver
      pub angle_deg : Val
      pub allowed : Bool

    module _ (es : Edges) where
      abbrev pub is_reverse : ℕ → ℕ → Bool
      is_reverse e e2 = elim (es.edge_reverse e) [ none ↦ false | some r ↦ r == e2 ]

      -- The body of the inner loop.
      unfoldable pub turn_row : ℕ → ℕ → ℕ → Turn
      unfolding wrap_delta_deg classify_maneuver
      turn_row out_degree e e2 =
          let delta = wrap_delta_deg (sub (es.bearing_in e2) (es.bearing_out e)) in
          let man = classify_maneuver delta (is_reverse e e2) in
          record {
            in_edge = e;
            out_edge = e2;
            maneuver = man;
            angle_deg = delta;
            allowed = not (is_maneuver man uturn && ltb 1 out_degree);
          }

      -- `for e2 in range(lo, hi)`, by the edges left.
      unfoldable pub rows : ℕ → ℕ → ℕ → ℕ → List Turn
      unfolding turn_row
      rows out_degree e lo zero = []
      rows out_degree e lo (suc n) = turn_row out_degree e lo ∷ rows out_degree e (lo + 1) n

      abbrev pub out_degree : ℕ → ℕ
      out_degree e = es.node_out_ptr (es.edge_head e + 1) - es.node_out_ptr (es.edge_head e)

      unfoldable pub rows_of : ℕ → List Turn
      unfolding rows
      rows_of e = rows (out_degree e) e (es.node_out_ptr (es.edge_head e)) (out_degree e)

      -- The rows of the edges below n, in order.
      unfoldable pub turns_below : ℕ → List Turn
      unfolding rows_of
      turns_below zero = []
      turns_below (suc n) = turns_below n ++ rows_of n

      -- `turn_ptr`: how many rows the edges below e have.
      unfoldable pub turn_ptr : ℕ → ℕ
      unfolding turns_below
      turn_ptr e = length (turns_below e)

      -- `build_turn_table`.
      unfoldable pub build_turn_table : List Turn
      unfolding turns_below
      build_turn_table = turns_below es.num_edges
