-- ===== src/Costs/Delay.antt =====
-- pyref/costs.py: the control delay of ADR-0016, `_control_delay_statics`, `adams_delay_s`,
-- `_exp_poly` and `control_delay_s`. `rint` and `ldexp` are numpy's. A row of legs is in the order of the
-- edge ids, as `np.unique` leaves it; the sentinel leg is the edge id `num_edges`.
pub mod Movements
pub mod Bounds
mod Examples
use safety_aware_route_plann.Base.{
  ℕ, zero, suc, ◌+◌, ◌-◌, Bool, true, false, not, ◌&&◌, ◌||◌, Option, none, some, List, [], ◌∷◌,
  ◌++◌, map, ◌==◌, ltb, if◌then◌else◌, length, any, all,
}
use safety_aware_route_plann.Float.{Float, lt, le}
use safety_aware_route_plann.Graph.{
  Control, no_control, stop_2way, stop_4way, signal_permissive, yield, is_control, Maneuver,
  straight, left, right, uturn, is_maneuver, road_class_rank, GraphPack,
}
use safety_aware_route_plann.Costs.{incoming, is_edge, repeat, fmax, fmin}

-- `np.flatnonzero` below n.
unfoldable pub select : (ℕ → Bool) → ℕ → List ℕ
select p zero = []
select p (suc n) = let rest = select p n in if p n then rest ++ n ∷ [] else rest

abbrev pub elem : ℕ → List ℕ → Bool
elem e es = any (λ x. x == e) es

abbrev pub without_edge : (ℕ → Bool) → List ℕ → List ℕ
without_edge p [] = []
without_edge p (e ∷ es) = let rest = without_edge p es in if p e then rest else e ∷ rest

abbrev pub opt_edge : Option ℕ → List ℕ
opt_edge none = []
opt_edge (some e) = e ∷ []

abbrev pub if_gate : Bool → List ℕ → List ℕ
if_gate gate legs = if gate then legs else []

-- `array[mask] = v`, at one element.
abbrev pub delay_when {ℓ} : {V : Type ℓ} → Bool → V → V → V
delay_when mask s old = if mask then s else old

module _ {V : Type 0} (pack : GraphPack V) where
  open pack use {
    num_nodes, num_edges, num_turns, edge_tail, edge_head, edge_road_class, edge_reverse,
    turn_in_edge, turn_out_edge, turn_maneuver, edge_approach_control, edge_must_stop,
  }

  -- The straight feeders of an edge, in the order of their turns.
  unfoldable pub feeders : ℕ → List ℕ
  unfolding select
  feeders o =
      map turn_in_edge
        (select (λ t. is_maneuver (turn_maneuver t) straight && turn_out_edge t == o) num_turns)

  unfoldable pub feeders_of : Option ℕ → List ℕ
  unfolding feeders
  feeders_of none = []
  feeders_of (some o) = feeders o

  abbrev pub oncoming : ℕ → List ℕ
  oncoming i = feeders_of (edge_reverse i)

  unfoldable pub continues : ℕ → Bool
  unfolding select
  continues i =
      any (λ t. turn_in_edge t == i)
        (select (λ t. is_maneuver (turn_maneuver t) straight) num_turns)

  abbrev pub rank : ℕ → ℕ
  rank e = road_class_rank (edge_road_class e)

  -- An approach's own road: itself, and what comes the other way.
  abbrev pub own_road : ℕ → ℕ → Bool
  own_road i e = e == i || elem e (oncoming i)

  unfoldable pub outranks : ℕ → ℕ → Bool
  unfolding continues
  outranks i e = ltb (rank i) (rank e) || rank i == rank e && continues i && not (continues e)

  -- Two nodes are neighbours if an edge joins them, in either direction.
  abbrev pub joins : ℕ → ℕ → ℕ → Bool
  joins n m e = edge_head e == n && edge_tail e == m || edge_tail e == n && edge_head e == m

  unfoldable pub num_legs : ℕ → ℕ
  unfolding select
  num_legs n = length (select (λ m. any (joins n m) (select (λ e. true) num_edges)) num_nodes)

  abbrev pub yields_none : ℕ → ℕ → Bool
  yields_none i e = own_road i e || outranks i e

  -- `major`, of an approach.
  unfoldable pub major : ℕ → Bool
  unfolding outranks num_legs feeders_of incoming
  major i =
      all (yields_none i) (incoming edge_head num_edges (edge_head i))
      || ltb (num_legs (edge_head i)) 3

  abbrev pub ctrl : ℕ → Control
  ctrl t = edge_approach_control (turn_in_edge t)

  abbrev pub must_stop : ℕ → Bool
  must_stop t = edge_must_stop (turn_in_edge t)

  abbrev pub two_way : ℕ → Bool
  two_way t = is_control (ctrl t) stop_2way || is_control (ctrl t) yield

  abbrev pub is_turn : Maneuver → ℕ → Bool
  is_turn m t = is_maneuver (turn_maneuver t) m

  -- The masks of the movement table.
  unfoldable pub minor : ℕ → Bool
  unfolding major
  minor t =
      (two_way t && must_stop t || is_control (ctrl t) no_control && not (major (turn_in_edge t)))
      && not (is_turn uturn t)

  unfoldable pub priority : ℕ → Bool
  unfolding major
  priority t =
      two_way t && not (must_stop t) || is_control (ctrl t) no_control && major (turn_in_edge t)

  abbrev pub signal : ℕ → Bool
  signal t = is_control (ctrl t) signal_permissive

  -- The candidates of the four calls of `add`.
  unfoldable pub cross_legs : ℕ → List ℕ
  unfolding incoming
  cross_legs t =
      without_edge (is_edge (edge_reverse (turn_out_edge t)))
        (incoming edge_head num_edges (edge_head (turn_in_edge t)))

  unfoldable pub left_legs : ℕ → List ℕ
  unfolding feeders_of
  left_legs t = opt_edge (edge_reverse (turn_out_edge t)) ++ feeders_of (some (turn_out_edge t))

  unfoldable pub candidates : ℕ → List ℕ
  unfolding minor priority cross_legs left_legs
  candidates t =
      if_gate (minor t && is_turn straight t) (cross_legs t)
      ++ (if_gate (minor t && is_turn left t) (left_legs t)
          ++ (if_gate (minor t && is_turn right t) (feeders_of (some (turn_out_edge t)))
              ++ if_gate ((priority t || signal t) && is_turn left t) (oncoming (turn_in_edge t))))

  -- A turn's conflicting legs: each candidate once, but the in-edge, in the order of the edge ids.
  unfoldable pub conflicts : ℕ → List ℕ
  unfolding candidates select
  conflicts t = select (λ e. elem e (candidates t) && not (e == turn_in_edge t)) num_edges

  -- The longest row below n, at least one.
  unfoldable pub depth : ℕ → ℕ
  unfolding conflicts
  depth zero = 1
  depth (suc n) =
      let rest = depth n in if ltb rest (length (conflicts n)) then length (conflicts n) else rest

module _ (fl : Float) where
  open fl use {Val, zero_val, one_val, add, sub, mul, div}

  -- `[sim.control_delay]`, and the constants of `_exp_poly` with numpy's rounding and scaling.
  pub record DelayConfig : Type 0 where
    pub all_way_stop_s : Val
    pub signal_major_s : Val
    pub signal_minor_s : Val
    pub t_c_crossing_s : Val
    pub t_c_left_s : Val
    pub t_c_left_wide_s : Val
    pub t_c_right_s : Val
    pub t_c_priority_left_s : Val
    pub left_wide_lanes_min : Val
    pub cap_s : Val
    pub seconds_per_hour : Val
    pub exp_x_max : Val
    pub inv_ln2 : Val
    pub ln2_hi : Val
    pub ln2_lo : Val
    pub exp_coef : List Val
    pub rint : Val → Val
    pub ldexp : Val → Val → Val

  -- `p *= r; p += c` from the last coefficient to the first.
  unfoldable pub horner : Val → List Val → Val
  horner r [] = zero_val
  horner r (c ∷ []) = c
  horner r (c ∷ d ∷ cs) = add (mul (horner r (d ∷ cs)) r) c

  module _ (cd : DelayConfig) where
    unfoldable pub exp_poly : Val → Val
    unfolding horner
    exp_poly x =
        let k = cd.rint (mul x cd.inv_ln2) in
        let r = sub (sub x (mul k cd.ln2_hi)) (mul k cd.ln2_lo) in cd.ldexp (horner r cd.exp_coef) k

    unfoldable pub adams_delay_s : Val → Val → Val
    unfolding exp_poly
    adams_delay_s q t_c =
        let x = fmin fl (mul q t_c) cd.exp_x_max in
        let num = fmax fl (sub (sub (exp_poly x) x) one_val) zero_val in
        fmin fl (if lt fl zero_val q then div num q else zero_val) cd.cap_s

    module _ (pack : GraphPack Val) where
      open pack use {num_edges, edge_lanes, edge_reverse, turn_in_edge, turn_out_edge}

      -- The three assignments, the last first.
      unfoldable pub delay_fixed_s : ℕ → Val
      unfolding major
      delay_fixed_s t =
          let stays = not (is_turn pack uturn t) in
          let maj = major pack (turn_in_edge t) in
          delay_when (signal pack t && stays && not maj) cd.signal_minor_s (
            delay_when (signal pack t && stays && maj) cd.signal_major_s
              (delay_when (is_control (ctrl pack t) stop_4way && stays) cd.all_way_stop_s zero_val))

      abbrev pub lanes_of : Option ℕ → Val
      lanes_of none = zero_val
      lanes_of (some e) = edge_lanes e

      abbrev pub wide : ℕ → Bool
      wide t =
          le fl cd.left_wide_lanes_min
            (add (edge_lanes (turn_out_edge t)) (lanes_of (edge_reverse (turn_out_edge t))))

      -- The critical gap: one assignment per call of `add`, the last first.
      unfoldable pub gap_tc : ℕ → Val
      unfolding minor priority
      gap_tc t =
          delay_when ((priority pack t || signal pack t) && is_turn pack left t)
            cd.t_c_priority_left_s
            (delay_when (minor pack t && is_turn pack right t) cd.t_c_right_s (
              delay_when (minor pack t && is_turn pack left t)
                (if wide t then cd.t_c_left_wide_s else cd.t_c_left_s)
                (delay_when (minor pack t && is_turn pack straight t) cd.t_c_crossing_s zero_val)))

      -- The flow on an approach; the sentinel's is zero.
      abbrev pub flow : (ℕ → Val) → ℕ → Val
      flow volume_vph_lane e =
          if e == num_edges then zero_val else mul (volume_vph_lane e) (edge_lanes e)

      abbrev pub sum_from : Val → (ℕ → Val) → List ℕ → Val
      sum_from acc f [] = acc
      sum_from acc f (e ∷ es) = sum_from (add acc (f e)) f es

      abbrev pub gap_wait : (ℕ → Val) → ℕ → List ℕ → Val → Val
      gap_wait volume_vph_lane t [] fixed = fixed
      gap_wait volume_vph_lane t (e ∷ es) fixed = add fixed (
          adams_delay_s
            (div
              (sum_from (flow volume_vph_lane e) (flow volume_vph_lane)
                (es ++ repeat (depth pack pack.num_turns - suc (length es)) num_edges))
              cd.seconds_per_hour)
            (gap_tc t))

      -- `control_delay_s`: a turn with no legs is none of `gap_turns`.
      unfoldable pub control_delay_s : (ℕ → Val) → ℕ → Val
      unfolding adams_delay_s delay_fixed_s gap_tc conflicts depth repeat
      control_delay_s volume_vph_lane t =
          gap_wait volume_vph_lane t (conflicts pack t) (delay_fixed_s t)
