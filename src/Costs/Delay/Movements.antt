-- ===== src/Costs/Delay/Movements.antt =====
-- The masks against the movement table of the module's documentation.
use mathlib.Core.List.{append-nil}
use safety_aware_route_plann.Base.{
  ℕ, Bool, true, false, not, ◌&&◌, ◌||◌, some, List, [], ◌++◌, if◌then◌else◌, ◌≡◌, arith,
}
use safety_aware_route_plann.Float.{Float}
use safety_aware_route_plann.Graph.{
  Control, no_control, stop_2way, stop_4way, signal_permissive, signal_protected, roundabout, yield,
  is_control, Maneuver, straight, left, right, uturn, is_maneuver, GraphPack,
}
use safety_aware_route_plann.Costs.Delay.{
  DelayConfig, if_gate, delay_when, major, minor, priority, ctrl, must_stop, feeders_of, oncoming,
  cross_legs, left_legs, candidates, delay_fixed_s, gap_tc, wide,
}

-- Which traffic a movement waits for a gap in.
pub data Gap : Type 0 where
  no_gap crossing onto_left onto_right across : Gap

pub data Fixed : Type 0 where
  no_wait all_way signal_major signal_minor : Fixed

-- The row of an approach that has the right of way, and of one that has not.
abbrev pub of_priority : Maneuver → Gap
of_priority left = across
of_priority straight = no_gap
of_priority right = no_gap
of_priority uturn = no_gap

abbrev pub of_minor : Maneuver → Gap
of_minor straight = crossing
of_minor left = onto_left
of_minor right = onto_right
of_minor uturn = no_gap

-- The movement table: the control, whether the approach holds the line, the movement, whether the
-- approach is major.
abbrev pub gap_rule : Control → Bool → Maneuver → Bool → Gap
gap_rule signal_protected held m maj = no_gap
gap_rule roundabout held m maj = no_gap
gap_rule stop_4way held m maj = no_gap
gap_rule signal_permissive held m maj = of_priority m
gap_rule stop_2way true m maj = of_minor m
gap_rule stop_2way false m maj = of_priority m
gap_rule yield true m maj = of_minor m
gap_rule yield false m maj = of_priority m
gap_rule no_control held m true = of_priority m
gap_rule no_control held m false = of_minor m

abbrev pub unless_uturn : Maneuver → Fixed → Fixed
unless_uturn uturn f = no_wait
unless_uturn straight f = f
unless_uturn left f = f
unless_uturn right f = f

abbrev pub fixed_rule : Control → Maneuver → Bool → Fixed
fixed_rule stop_4way m maj = unless_uturn m all_way
fixed_rule signal_permissive m true = unless_uturn m signal_major
fixed_rule signal_permissive m false = unless_uturn m signal_minor
fixed_rule signal_protected m maj = no_wait
fixed_rule roundabout m maj = no_wait
fixed_rule stop_2way m maj = no_wait
fixed_rule yield m maj = no_wait
fixed_rule no_control m maj = no_wait

abbrev pub choose {ℓ} : {A : Type ℓ} → Gap → A → A → A → A → A → A
choose no_gap n a b c d = n
choose crossing n a b c d = a
choose onto_left n a b c d = b
choose onto_right n a b c d = c
choose across n a b c d = d

abbrev pub choose_fixed {ℓ} : {A : Type ℓ} → Fixed → A → A → A → A → A
choose_fixed no_wait n a b c = n
choose_fixed all_way n a b c = a
choose_fixed signal_major n a b c = b
choose_fixed signal_minor n a b c = c

abbrev is_minor : Control → Bool → Maneuver → Bool → Bool
is_minor c held m maj =
    ((is_control c stop_2way || is_control c yield) && held || is_control c no_control && not maj)
    && not (is_maneuver m uturn)

abbrev is_priority : Control → Bool → Bool → Bool
is_priority c held maj =
    (is_control c stop_2way || is_control c yield) && not held || is_control c no_control && maj

legs-choose :
    (c : Control) (held : Bool) (m : Maneuver) (maj : Bool) (cross lefts rights oncomings : List ℕ)
    → if_gate (is_minor c held m maj && is_maneuver m straight) cross
        ++ (if_gate (is_minor c held m maj && is_maneuver m left) lefts
            ++ (if_gate (is_minor c held m maj && is_maneuver m right) rights
                ++ if_gate
                    ((is_priority c held maj || is_control c signal_permissive)
                      && is_maneuver m left)
                    oncomings))
      ≡ choose (gap_rule c held m maj) [] cross lefts rights oncomings
legs-choose c held m maj cross lefts rights oncomings =
    ground (arith, append-nil cross, append-nil lefts, append-nil rights)

fixed-choose {ℓ} :
    {A : Type ℓ} (c : Control) (m : Maneuver) (maj : Bool) (none_s way_s major_s minor_s : A)
    → delay_when (is_control c signal_permissive && not (is_maneuver m uturn) && not maj) minor_s (
        delay_when
          (is_control c signal_permissive && not (is_maneuver m uturn) && maj)
          major_s
          (delay_when (is_control c stop_4way && not (is_maneuver m uturn)) way_s none_s))
      ≡ choose_fixed (fixed_rule c m maj) none_s way_s major_s minor_s
fixed-choose c m maj none_s way_s major_s minor_s = ground arith

gap_tc-choose {ℓ} :
    {A : Type ℓ} (c : Control) (held : Bool) (m : Maneuver) (maj : Bool)
    (n cross lefts rights oncomings : A)
    → delay_when
        ((is_priority c held maj || is_control c signal_permissive) && is_maneuver m left)
        oncomings
        (delay_when (is_minor c held m maj && is_maneuver m right) rights (
          delay_when
            (is_minor c held m maj && is_maneuver m left)
            lefts
            (delay_when (is_minor c held m maj && is_maneuver m straight) cross n)))
      ≡ choose (gap_rule c held m maj) n cross lefts rights oncomings
gap_tc-choose c held m maj n cross lefts rights oncomings = ground arith

module _ (fl : Float) (cd : DelayConfig fl) (pack : GraphPack fl.Val) where
  abbrev pub rule_of : ℕ → Gap
  rule_of t =
      gap_rule (ctrl pack t) (must_stop pack t) (pack.turn_maneuver t)
        (major pack (pack.turn_in_edge t))

  -- At every turn the masks give the movement table: the fixed wait of the control, the legs of the
  -- movement's gap, and its critical gap. A turn that waits for no gap has no legs and no gap.
  pub movements-table :
      (t : ℕ)
      → (delay_fixed_s fl cd pack t
          ≡ choose_fixed
              (fixed_rule (ctrl pack t) (pack.turn_maneuver t) (major pack (pack.turn_in_edge t)))
              fl.zero_val
              cd.all_way_stop_s
              cd.signal_major_s
              cd.signal_minor_s)
        × (candidates pack t
            ≡ choose
                (rule_of t)
                []
                (cross_legs pack t)
                (left_legs pack t)
                (feeders_of pack (some (pack.turn_out_edge t)))
                (oncoming pack (pack.turn_in_edge t)))
        × (gap_tc fl cd pack t
            ≡ choose
                (rule_of t)
                fl.zero_val
                cd.t_c_crossing_s
                (if wide fl cd pack t then cd.t_c_left_wide_s else cd.t_c_left_s)
                cd.t_c_right_s
                cd.t_c_priority_left_s)
  unfolding delay_fixed_s candidates gap_tc minor priority
  movements-table t =
      let c = ctrl pack t in
      let held = must_stop pack t in
      let m = pack.turn_maneuver t in
      let maj = major pack (pack.turn_in_edge t) in
      (
        fixed-choose c m maj fl.zero_val cd.all_way_stop_s cd.signal_major_s cd.signal_minor_s,
        legs-choose c held m maj (cross_legs pack t) (left_legs pack t)
            (feeders_of pack (some (pack.turn_out_edge t))) (oncoming pack (pack.turn_in_edge t)),
        gap_tc-choose c held m maj fl.zero_val cd.t_c_crossing_s
            (if wide fl cd pack t then cd.t_c_left_wide_s else cd.t_c_left_s) cd.t_c_right_s
            cd.t_c_priority_left_s,
      )
