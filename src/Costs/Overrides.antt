-- ===== src/Costs/Overrides.antt =====
-- The override ladder, and the costs that come of it.
use safety_aware_route_plann.Base.{
  ℕ, ◌+◌, ◌≤◌, Bool, if◌then◌else◌, ◌≡◌, subst, inl, inr, arith, Bool-cases, ltb→le,
}
use safety_aware_route_plann.Float.{Float, IsMonotone, IsScaled, lt, Le}
use safety_aware_route_plann.Graph.{Control, Maneuver, uturn, is_maneuver, GraphPack}
use safety_aware_route_plann.Costs.{
  CostConfig, fmax, stop4, yield_row, yield_conflict, row_reduce, signal_left, control_mult,
  turn_penalty_s, turn_raw, turn_time_s, arc_cost,
}

abbrev pub count : Bool → ℕ
count b = if b then 1 else 0

-- No turn is in two of the five masks that are folded into one multiplier.
pub masks-disjoint :
    (c : Control) (must_stop : Bool) (m : Maneuver)
    → count (stop4 c)
        + count (yield_row c m)
        + count (yield_conflict c m)
        + count (row_reduce c must_stop m)
        + count (signal_left c m)
      ≤ 1
masks-disjoint c must_stop m = ground arith

module _ (fl : Float) (laws : IsScaled fl) where
  open fl use {Val, zero_val, one_val, add, mul}

  -- `raw[mask] *= factor`.
  abbrev pub stage : Bool → Val → Val → Val
  stage mask factor x = if mask then mul x factor else x

  module _ (cfg : CostConfig fl) where
    open cfg use {
      stop4way_factor, yield_row_factor, yield_factor, right_of_way_factor, signal_left_factor,
    }

    -- The stages one after the other.
    abbrev pub ladder : Control → Bool → Maneuver → Val → Val
    ladder c must_stop m x = stage (signal_left c m) signal_left_factor (
        stage (row_reduce c must_stop m) right_of_way_factor (
          stage (yield_conflict c m) yield_factor
            (stage (yield_row c m) yield_row_factor (stage (stop4 c) stop4way_factor x))))

    -- Where a product with one is exact, one multiplication by the folded multiplier is the five
    -- stages one after the other, for every control, approach and manoeuvre.
    pub control_mult-ladder :
        (c : Control) (must_stop : Bool) (m : Maneuver) (x : Val)
        → mul x (control_mult fl cfg c must_stop m) ≡ ladder c must_stop m x
    unfolding control_mult
    control_mult-ladder c must_stop m x = ground (arith, laws.mul_one x)

module _ (fl : Float) (laws : IsScaled fl) (mono : IsMonotone fl) (cfg : CostConfig fl)
    (pack : GraphPack fl.Val) where
  open fl use {Val, zero_val, add, mul}

  fmax-nonneg : (x : Val) → Le fl zero_val (fmax fl x zero_val)
  fmax-nonneg x = elim (Bool-cases (lt fl x zero_val)) [
    | inl e ↦ rw e (omega arith)
    | inr e ↦ rw e (ltb→le (fl.rank x) (fl.rank zero_val) e)
  ]

  add_above : (a b : Val) → Le fl zero_val b → Le fl a (add a b)
  add_above a b h =
      subst (λ x. Le fl x (add a b)) (laws.add_zero a)
        (mono.add_mono a a zero_val b (omega arith) h)

  -- Where the scale, the fee for a U-turn and lambda are not negative, no penalty is negative, and
  -- the cost of a turn is at least its time.
  pub arc_cost-above :
      (volume edge_time_s turn_delay_s : ℕ → Val) (lam : Val) (t : ℕ)
      → Le fl zero_val cfg.k_penalty_scale_s
      → Le fl zero_val cfg.uturn_fixed_penalty_s
      → Le fl zero_val lam
      → Le fl zero_val (turn_penalty_s fl cfg pack volume t)
        × Le fl
            (turn_time_s fl cfg pack volume edge_time_s turn_delay_s t)
            (arc_cost fl cfg pack volume edge_time_s turn_delay_s lam t)
  unfolding turn_penalty_s arc_cost
  arc_cost-above volume edge_time_s turn_delay_s lam t k fee l =
      let scaled : Le fl zero_val
          (mul cfg.k_penalty_scale_s (fmax fl (turn_raw fl cfg pack volume t) zero_val)) =
        laws.mul_nonneg cfg.k_penalty_scale_s (fmax fl (turn_raw fl cfg pack volume t) zero_val) k
          (fmax-nonneg _) in
      let penalty : Le fl zero_val (turn_penalty_s fl cfg pack volume t) =
        elim (Bool-cases (is_maneuver (pack.turn_maneuver t) uturn)) [
          | inr e ↦ rw (e, turn_penalty_s) scaled
          | inl e ↦
              let more =
                add_above
                  (mul cfg.k_penalty_scale_s (fmax fl (turn_raw fl cfg pack volume t) zero_val))
                  cfg.uturn_fixed_penalty_s fee in
              rw (e, turn_penalty_s) (omega (arith, scaled, more))
        ] in
      (penalty, add_above _ _ (laws.mul_nonneg lam (turn_penalty_s fl cfg pack volume t) l penalty))
