-- ===== src/Settings/Examples.antt =====
-- SR_REGIONS = "a, ,b".
use safety_aware_route_plann.Base.{
  Option, some, List, [], ◌∷◌, Text, is_space, lstrip, strip, split, ◌≡◌, refl,
}
use safety_aware_route_plann.Ratelimit.{stripped, chain}
use safety_aware_route_plann.Settings.{serve, configured_regions, served_regions}

program : Unit {0}
unfolding is_space lstrip strip split stripped chain configured_regions served_regions
program = tt

abbrev variable : Option Text
variable = some (97 ∷ 44 ∷ 32 ∷ 44 ∷ 98 ∷ [])

abbrev no_regions : Option (List Text)
no_regions = some []

two_regions : served_regions variable no_regions [] ≡ serve ((97 ∷ []) ∷ (98 ∷ []) ∷ [])
unfolding program
two_regions = refl
