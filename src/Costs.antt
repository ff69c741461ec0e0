-- ===== src/Costs.antt =====
-- pyref/costs.py: the scores, penalties and unsafe flags of the turns. An array is the function that
-- gives its elements; the control delay of the turns is an argument.
pub mod Overrides
pub mod Flags
pub mod Crossings
pub mod Delay
mod Examples
use safety_aware_route_plann.Base.{
  ℕ, zero, suc, ◌+◌, ◌-◌, Bool, true, false, not, ◌&&◌, ◌||◌, Option, none, some, List, [], ◌∷◌,
  ◌++◌, ◌==◌, ltb, leb, if◌then◌else◌, length, any,
}
use safety_aware_route_plann.Float.{Float, lt, le}
use safety_aware_route_plann.Graph.{
  Control, no_control, stop_2way, stop_4way, signal_permissive, signal_protected, roundabout, yield,
  is_control, ControlConfidence, is_observed, Maneuver, straight, left, right, uturn, is_maneuver,
  RoadClass, road_class_rank, GraphPack,
}

pub data UnsafeType : Type 0 where
  unsafe_none unsafe_left unsafe_crossing : UnsafeType

pub data Tier : Type 0 where
  tier_safe tier_caution tier_unsafe : Tier

-- The override masks of an approach's control, one per factor.
abbrev pub is_protected : Control → Bool
is_protected c = is_control c signal_protected || is_control c roundabout

abbrev pub straight_or_right : Maneuver → Bool
straight_or_right m = is_maneuver m straight || is_maneuver m right

abbrev pub stop4 : Control → Bool
stop4 c = is_control c stop_4way

abbrev pub yield_row : Control → Maneuver → Bool
yield_row c m = is_control c yield && straight_or_right m

abbrev pub yield_conflict : Control → Maneuver → Bool
yield_conflict c m = is_control c yield && not (straight_or_right m)

abbrev pub row_reduce : Control → Bool → Maneuver → Bool
row_reduce c must_stop m =
    (is_control c signal_permissive || is_control c stop_2way && not must_stop)
    && straight_or_right m

abbrev pub signal_left : Control → Maneuver → Bool
signal_left c m = is_control c signal_permissive && is_maneuver m left

-- Holding a stop or give-way line.
abbrev pub unprotected_approach : Control → Bool → Bool
unprotected_approach c must_stop = (is_control c stop_2way || is_control c yield) && must_stop

abbrev pub guessed : Control → Bool → ControlConfidence → Bool
guessed c must_stop confidence =
    (is_control c no_control || unprotected_approach c must_stop) && not (is_observed confidence)

-- Edges below n, in order, whose head is the node: a row of `_group_padded` by heads.
unfoldable pub incoming : (ℕ → ℕ) → ℕ → ℕ → List ℕ
incoming edge_head zero node = []
incoming edge_head (suc n) node =
    let rest = incoming edge_head n node in if edge_head n == node then rest ++ n ∷ [] else rest

abbrev pub is_edge : Option ℕ → ℕ → Bool
is_edge none e = false
is_edge (some d) e = d == e

-- The candidates but our own in-edge and the reverse of our out-edge.
unfoldable pub crossed : ℕ → Option ℕ → List ℕ → List ℕ
crossed own rev [] = []
crossed own rev (e ∷ cand) =
    let rest = crossed own rev cand in if e == own || is_edge rev e then rest else e ∷ rest

-- `array.any()`, of n elements.
unfoldable pub any_below : (ℕ → Bool) → ℕ → Bool
any_below mask zero = false
any_below mask (suc n) = mask n || any_below mask n

unfoldable pub repeat : ℕ → ℕ → List ℕ
repeat zero e = []
repeat (suc n) e = e ∷ repeat n e

-- Padded to a depth by its first element; an empty row is dropped (`none`).
unfoldable pub padded : ℕ → List ℕ → Option (List ℕ)
unfolding repeat
padded depth [] = none
padded depth (e ∷ legs) = some (e ∷ legs ++ repeat (depth - length (e ∷ legs)) e)

module _ (fl : Float) where
  open fl use {Val, zero_val, one_val, add, sub, mul, div}

  pub record CostConfig : Type 0 where
    pub w_man : Val
    pub w_speed : Val
    pub w_lanes : Val
    pub w_vol : Val
    pub w_med : Val
    pub speed_norm_max_mps : Val
    pub lanes_norm_max : Val
    pub vol_norm_max_vph : Val
    pub severity : Maneuver → Val
    pub stop4way_factor : Val
    pub yield_row_factor : Val
    pub yield_factor : Val
    pub right_of_way_factor : Val
    pub signal_left_factor : Val
    pub inferred_confidence_factor : Val
    pub k_penalty_scale_s : Val
    pub uturn_fixed_penalty_s : Val
    pub a_speed : Val
    pub a_lanes : Val
    pub a_vol : Val
    pub busy_floor_by_class : RoadClass → Val
    pub busy_threshold : Val
    pub major_lanes_min : Val
    pub major_class_max : RoadClass
    pub tau_unsafe : Val
    pub tau_caution : Val

  abbrev pub fmax : Val → Val → Val
  fmax a b = if lt fl a b then b else a

  abbrev pub fmin : Val → Val → Val
  fmin a b = if lt fl b a then b else a

  -- `_norm`.
  abbrev pub norm : Val → Val → Val
  norm x cap = fmin (fmax (div x cap) zero_val) one_val

  -- `array[mask] = v`.
  abbrev pub assign : Bool → Val → Val → Val
  assign mask v old = if mask then v else old

  module _ (cfg : CostConfig) where
    open cfg use {
      w_man, w_speed, w_lanes, w_vol, w_med, speed_norm_max_mps, lanes_norm_max, vol_norm_max_vph,
      severity, stop4way_factor, yield_row_factor, yield_factor, right_of_way_factor,
      signal_left_factor, inferred_confidence_factor, k_penalty_scale_s, uturn_fixed_penalty_s,
      a_speed, a_lanes, a_vol, busy_floor_by_class, busy_threshold, major_lanes_min,
      major_class_max, tau_unsafe, tau_caution,
    }

    -- The six stages that are folded into one multiplier.
    unfoldable pub control_mult : Control → Bool → Maneuver → Val
    control_mult c must_stop m = assign (signal_left c m) signal_left_factor (
        assign (row_reduce c must_stop m) right_of_way_factor (
          assign (yield_conflict c m) yield_factor
            (assign (yield_row c m) yield_row_factor (assign (stop4 c) stop4way_factor one_val))))

    abbrev pub guessed_mult : Control → Bool → ControlConfidence → Val
    guessed_mult c must_stop confidence =
        assign (guessed c must_stop confidence) inferred_confidence_factor one_val

    module _ (pack : GraphPack Val) (volume_vph_lane : ℕ → Val) where
      open pack use {
        num_edges, num_turns, edge_head, edge_speed_mps, edge_lanes, edge_median, edge_road_class,
        edge_reverse, edge_approach_control, edge_must_stop, edge_control_confidence, turn_in_edge,
        turn_out_edge, turn_maneuver,
      }

      -- What governs a turn: the control facing its incoming approach.
      abbrev pub ctrl : ℕ → Control
      ctrl t = edge_approach_control (turn_in_edge t)

      abbrev pub must_stop : ℕ → Bool
      must_stop t = edge_must_stop (turn_in_edge t)

      abbrev pub confidence : ℕ → ControlConfidence
      confidence t = edge_control_confidence (turn_in_edge t)

      abbrev pub spd_n : ℕ → Val
      spd_n e = norm (edge_speed_mps e) speed_norm_max_mps

      abbrev pub lanes_n : ℕ → Val
      lanes_n e = norm (edge_lanes e) lanes_norm_max

      abbrev pub vol_n : ℕ → Val
      vol_n e = norm (volume_vph_lane e) vol_norm_max_vph

      -- The score before the overrides: the prefix of `build_pack_statics`, then the volume, then
      -- the median.
      unfoldable pub raw_base : ℕ → Val
      raw_base t =
          sub
            (add
              (add
                (add (mul w_man (severity (turn_maneuver t)))
                  (mul w_speed (spd_n (turn_out_edge t))))
                (mul w_lanes (lanes_n (turn_out_edge t))))
              (mul w_vol (vol_n (turn_out_edge t))))
            (mul w_med (if edge_median (turn_out_edge t) then one_val else zero_val))

      -- `turn_raw`.
      unfoldable pub turn_raw : ℕ → Val
      unfolding raw_base control_mult
      turn_raw t =
          mul
            (mul (if is_protected (ctrl t) then zero_val else raw_base t)
              (control_mult (ctrl t) (must_stop t) (turn_maneuver t)))
            (guessed_mult (ctrl t) (must_stop t) (confidence t))

      -- `turn_penalty_s`.
      unfoldable pub turn_penalty_s : ℕ → Val
      unfolding turn_raw
      turn_penalty_s t =
          if is_maneuver (turn_maneuver t) uturn
          then add (mul k_penalty_scale_s (fmax (turn_raw t) zero_val)) uturn_fixed_penalty_s
          else mul k_penalty_scale_s (fmax (turn_raw t) zero_val)

      abbrev pub edge_busy : ℕ → Bool
      edge_busy e = lt fl busy_threshold (
          fmax (add (add (mul a_speed (spd_n e)) (mul a_lanes (lanes_n e))) (mul a_vol (vol_n e)))
            (busy_floor_by_class (edge_road_class e)))

      abbrev pub edge_big : ℕ → Bool
      edge_big e =
          le fl major_lanes_min (edge_lanes e)
          || leb (road_class_rank (edge_road_class e)) (road_class_rank major_class_max)

      abbrev pub edge_major : ℕ → Bool
      edge_major e = edge_busy e && edge_big e

      abbrev pub over_tau : ℕ → Bool
      over_tau t = le fl tau_unsafe (turn_raw t)

      abbrev pub is_left : ℕ → Bool
      is_left t = is_maneuver (turn_maneuver t) left

      abbrev pub is_straight : ℕ → Bool
      is_straight t = is_maneuver (turn_maneuver t) straight

      -- The legs a straight at the turn's node crosses.
      unfoldable pub legs : ℕ → List ℕ
      unfolding incoming crossed
      legs t =
          crossed (turn_in_edge t) (edge_reverse (turn_out_edge t))
            (incoming edge_head num_edges (edge_head (turn_in_edge t)))

      -- What the assertion of `_crossing_legs` is on: a straight along the reverse of its in-edge.
      abbrev pub straight_reversal : ℕ → Bool
      straight_reversal t =
          is_straight t && is_edge (edge_reverse (turn_out_edge t)) (turn_in_edge t)

      -- The gates of the two calls of `_crossing_legs`.
      abbrev pub busy_gate : ℕ → Bool
      busy_gate t = is_straight t && is_observed (confidence t) && is_control (ctrl t) no_control

      abbrev pub major_gate : ℕ → Bool
      major_gate t =
          is_straight t && is_observed (confidence t) && unprotected_approach (ctrl t) (must_stop t)

      -- The most legs that a turn in the gate crosses, at least one.
      unfoldable pub depth : (ℕ → Bool) → ℕ → ℕ
      unfolding legs
      depth gate zero = 1
      depth gate (suc n) =
          let rest = depth gate n in
          if gate n && ltb rest (length (legs n)) then length (legs n) else rest

      -- `out[t] = over_tau[t] & mask[legs].any(axis=0)`, where the turn is listed.
      unfoldable pub scatter : (ℕ → Bool) → (ℕ → Bool) → ℕ → Bool → Bool
      unfolding depth padded turn_raw
      scatter gate mask t old =
          if gate t
          then elim (padded (depth gate num_turns) (legs t)) [
            | none ↦ old
            | some row ↦ over_tau t && any mask row
          ]
          else old

      -- `_uncontrolled_crossing`.
      unfoldable pub uncontrolled_crossing : ℕ → Bool
      unfolding scatter
      uncontrolled_crossing t =
          scatter major_gate edge_major t (scatter busy_gate edge_busy t false)

      -- The same with the assertion, which `build_pack_statics` raises before any request: `none` is
      -- its AssertionError. A pack whose statics were built has the flags below.
      unfoldable pub crossings : Option (ℕ → Bool)
      unfolding uncontrolled_crossing any_below
      crossings = if any_below straight_reversal num_turns then none else some uncontrolled_crossing

      unfoldable pub unprotected_left : ℕ → Bool
      unfolding turn_raw
      unprotected_left t =
          is_left t
          && is_observed (confidence t)
          && over_tau t
          && (is_control (ctrl t) no_control && edge_busy (turn_out_edge t)
              || unprotected_approach (ctrl t) (must_stop t) && edge_major (turn_out_edge t))

      -- `turn_unsafe_type`: a left wins.
      unfoldable pub turn_unsafe_type : ℕ → UnsafeType
      unfolding uncontrolled_crossing unprotected_left
      turn_unsafe_type t =
          if unprotected_left t
          then unsafe_left
          else if uncontrolled_crossing t
          then unsafe_crossing
          else unsafe_none

      abbrev pub is_tier_unsafe : Tier → Bool
      is_tier_unsafe tier_unsafe = true
      is_tier_unsafe _ = false

      abbrev pub tier_band : ℕ → Tier
      tier_band t =
          if over_tau t
          then tier_unsafe
          else if le fl tau_caution (turn_raw t)
          then tier_caution
          else tier_safe

      -- `turn_tier`: what was guessed is capped at caution.
      unfoldable pub turn_tier : ℕ → Tier
      unfolding turn_raw
      turn_tier t =
          if is_tier_unsafe (tier_band t) && not (is_observed (confidence t))
          then tier_caution
          else tier_band t

      -- `turn_time_s` and `arc_cost`, with the link times and the control delays.
      abbrev pub turn_time_s : (ℕ → Val) → (ℕ → Val) → ℕ → Val
      turn_time_s edge_time_s turn_delay_s t = add (edge_time_s (turn_out_edge t)) (turn_delay_s t)

      unfoldable pub arc_cost : (ℕ → Val) → (ℕ → Val) → Val → ℕ → Val
      unfolding turn_penalty_s
      arc_cost edge_time_s turn_delay_s lam t =
          add (turn_time_s edge_time_s turn_delay_s t) (mul lam (turn_penalty_s t))
