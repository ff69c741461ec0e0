-- ===== src/Graph.antt =====
-- pyref/graph.py: the codes of the graph pack, and the part of its arrays that costs and turns read.
-- `none` stands for the edge id -1.
use safety_aware_route_plann.Base.{ℕ, Bool, true, false, Option, ◌==◌}

pub data Control : Type 0 where
  no_control stop_2way stop_4way signal_permissive signal_protected roundabout yield : Control

pub data ControlConfidence : Type 0 where
  unknown inferred observed : ControlConfidence

pub data Maneuver : Type 0 where
  straight left right uturn : Maneuver

pub data RoadClass : Type 0 where
  motorway trunk primary secondary tertiary residential unclassified service living_street :
      RoadClass
  motorway_link trunk_link primary_link secondary_link tertiary_link : RoadClass

-- The values of the enumerations `Control` and `Maneuver`, and `==` on them.
abbrev pub control_code : Control → ℕ
control_code no_control = 0
control_code stop_2way = 1
control_code stop_4way = 2
control_code signal_permissive = 3
control_code signal_protected = 4
control_code roundabout = 5
control_code yield = 6

abbrev pub is_control : Control → Control → Bool
is_control c d = control_code c == control_code d

abbrev pub maneuver_code : Maneuver → ℕ
maneuver_code straight = 0
maneuver_code left = 1
maneuver_code right = 2
maneuver_code uturn = 3

abbrev pub is_maneuver : Maneuver → Maneuver → Bool
is_maneuver m n = maneuver_code m == maneuver_code n

abbrev pub is_observed : ControlConfidence → Bool
is_observed observed = true
is_observed _ = false

-- The values of `RoadClass`.
abbrev pub class_code : RoadClass → ℕ
class_code motorway = 0
class_code trunk = 1
class_code primary = 2
class_code secondary = 3
class_code tertiary = 4
class_code residential = 5
class_code unclassified = 6
class_code service = 7
class_code living_street = 8
class_code motorway_link = 9
class_code trunk_link = 10
class_code primary_link = 11
class_code secondary_link = 12
class_code tertiary_link = 13

-- `ROAD_CLASS_RANK`: links share their parent's rank.
abbrev pub road_class_rank : RoadClass → ℕ
road_class_rank motorway = 0
road_class_rank motorway_link = 0
road_class_rank trunk = 1
road_class_rank trunk_link = 1
road_class_rank primary = 2
road_class_rank primary_link = 2
road_class_rank secondary = 3
road_class_rank secondary_link = 3
road_class_rank tertiary = 4
road_class_rank tertiary_link = 4
road_class_rank unclassified = 5
road_class_rank residential = 6
road_class_rank living_street = 7
road_class_rank service = 8

pub record GraphPack {ℓ} (V : Type ℓ) : Type ℓ where
  pub num_nodes : ℕ
  pub num_edges : ℕ
  pub num_turns : ℕ
  pub edge_tail : ℕ → ℕ
  pub edge_head : ℕ → ℕ
  pub edge_length_m : ℕ → V
  pub edge_speed_mps : ℕ → V
  pub edge_lanes : ℕ → V
  pub edge_median : ℕ → Bool
  pub edge_road_class : ℕ → RoadClass
  pub edge_reverse : ℕ → Option ℕ
  pub edge_approach_control : ℕ → Control
  pub edge_must_stop : ℕ → Bool
  pub edge_control_confidence : ℕ → ControlConfidence
  pub turn_in_edge : ℕ → ℕ
  pub turn_out_edge : ℕ → ℕ
  pub turn_maneuver : ℕ → Maneuver
  pub turn_angle_deg : ℕ → V
  pub node_lat : ℕ → V
  pub node_lon : ℕ → V
