-- ===== src/Controls/Examples.antt =====
-- Two named streets that cross; a stop sign is mapped on one arm only.
use safety_aware_route_plann.Base.{true, false, some, List, [], ◌∷◌, ◌≡◌, refl}
use safety_aware_route_plann.Graph.{stop_2way}
use safety_aware_route_plann.Controls.{
  min_rank, resolve_approach, Kinds, Arm, no_kinds, shared, harmonize_each, harmonize_opposite_arms,
  ApproachControl, everywhere, each_arm, junction_other, resolve_junction,
}

program : Unit {0}
unfolding min_rank resolve_approach shared harmonize_each harmonize_opposite_arms everywhere
    each_arm resolve_junction
program = tt

abbrev signed : Kinds
signed = record no_kinds { has_stop = true }

abbrev crossing : List Arm
crossing =
    record { far = 1; kinds = signed; street = some 5 }
    ∷ record { far = 2; kinds = no_kinds; street = some 6 }
    ∷ record { far = 3; kinds = no_kinds; street = some 5 }
    ∷ record { far = 4; kinds = no_kinds; street = some 6 }
    ∷ []

abbrev stops : ApproachControl
stops = record { control = stop_2way; must_stop = true }

abbrev goes : ApproachControl
goes = record { control = stop_2way; must_stop = false }

resolved :
    resolve_junction junction_other false (harmonize_opposite_arms crossing)
    ≡ (1, stops) ∷ (2, goes) ∷ (3, stops) ∷ (4, goes) ∷ []
unfolding program
resolved = refl
