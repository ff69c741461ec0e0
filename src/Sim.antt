-- ===== src/Sim.antt =====
-- sim/profiles.py and sim/snapshot.py: the traffic of a departure. `hour` is the float hour of the day;
-- its integer part and rest after `(hour - 0.5) % 24.0` are Python's, the argument `center`.
use Prim.Native.String.{String}
use safety_aware_route_plann.Base.{
  ℕ, ◌+◌, ◌%◌, Option, none, some, List, [], ◌∷◌, ◌==◌, if◌then◌else◌, any,
}
use safety_aware_route_plann.Float.{Float}
use safety_aware_route_plann.Graph.{RoadClass, class_code, GraphPack}

-- Where the traffic came from.
pub record TrafficBasis (D : Type 0) : Type 0 where
  pub source : String
  pub as_of : D
  pub profile_version : String

pub record Snapshot (V D : Type 0) : Type 0 where
  pub speed_mult : ℕ → V
  pub volume_vph_lane : ℕ → V
  pub edge_time_s : ℕ → V
  pub basis : Option (TrafficBasis D)

abbrev pub synthetic_source : String
synthetic_source = "synthetic"

-- The first group that lists the class, or "local".
unfoldable pub class_group : List (String × List RoadClass) → RoadClass → String
class_group [] rc = "local"
class_group ((group, members) ∷ groups) rc =
    if any (λ m. class_code m == class_code rc) members then group else class_group groups rc

module _ (fl : Float) where
  open fl use {Val, zero_val, one_val, add, sub, mul, div}

  pub record Profile : Type 0 where
    pub speed_mult : ℕ → Val
    pub volume_mult : ℕ → Val

  pub record SimConfig (D : Type 0) : Type 0 where
    pub class_groups : List (String × List RoadClass)
    pub profiles : String → Profile
    pub base_vph_per_lane : RoadClass → Val
    pub profile_version : String
    pub hour_of : D → Val
    pub center : Val → ℕ × Val

  module _ {D : Type 0} (sim : SimConfig D) where
    -- `interpolate_hourly`, of a table with 24 entries.
    unfoldable pub interpolate_hourly : (ℕ → Val) → Val → Val
    interpolate_hourly table hour_of_day =
        let (i, frac) = sim.center hour_of_day in
        let a = table (i % 24) in let b = table ((i + 1) % 24) in add a (mul frac (sub b a))

    -- `multipliers_at`, at one class.
    unfoldable pub speed_by_class : D → RoadClass → Val
    unfolding interpolate_hourly class_group
    speed_by_class departure rc =
        interpolate_hourly (sim.profiles (class_group sim.class_groups rc)).speed_mult
          (sim.hour_of departure)

    unfoldable pub vol_by_class : D → RoadClass → Val
    unfolding interpolate_hourly class_group
    vol_by_class departure rc =
        interpolate_hourly (sim.profiles (class_group sim.class_groups rc)).volume_mult
          (sim.hour_of departure)

    abbrev pub base_volume : GraphPack Val → ℕ → Val
    base_volume pack e = sim.base_vph_per_lane (pack.edge_road_class e)

    unfoldable pub at_time : GraphPack Val → D → Snapshot Val D
    unfolding speed_by_class vol_by_class
    at_time pack departure =
        let mult : ℕ → Val = λ (e : ℕ). speed_by_class departure (pack.edge_road_class e) in
        record {
          speed_mult = mult;
          volume_vph_lane =
              λ e. mul (base_volume pack e) (vol_by_class departure (pack.edge_road_class e));
          edge_time_s = λ e. div (pack.edge_length_m e) (mul (pack.edge_speed_mps e) (mult e));
          basis = some (record {
            source = synthetic_source;
            as_of = departure;
            profile_version = sim.profile_version;
          });
        }

    -- No congestion, and no clock to record.
    unfoldable pub free_flow : GraphPack Val → Snapshot Val D
    free_flow pack = record {
      speed_mult = λ e. one_val;
      volume_vph_lane = base_volume pack;
      edge_time_s = λ e. div (pack.edge_length_m e) (mul (pack.edge_speed_mps e) one_val);
      basis = none;
    }
