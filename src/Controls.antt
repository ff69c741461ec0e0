-- ===== src/Controls.antt =====
-- ingestion/controls.py and ingestion/approach_controls.py: which control governs each approach of a
-- junction. The value of a tag is a number, with the values that the source names as constants;
-- `tag_first` has been applied. A set of kinds is four flags.
pub mod Resolve
mod Examples
use safety_aware_route_plann.Base.{
  ℕ, Bool, true, false, not, ◌&&◌, ◌||◌, Option, none, some, List, [], ◌∷◌, ◌==◌, ltb, leb,
  if◌then◌else◌, length, any, all,
}
use safety_aware_route_plann.Graph.{
  Control, no_control, stop_2way, stop_4way, signal_permissive, roundabout, yield, is_control,
  ControlConfidence, inferred, observed, RoadClass, residential, road_class_rank,
}

-- The tag values of a junction node that matter: `highway`, `stop=all`, and an override.
pub data Highway : Type 0 where
  traffic_signals mini_roundabout stop give_way other_highway : Highway

pub record NodeTags : Type 0 where
  pub control_override : Option Control
  pub highway : Highway
  pub stop_all : Bool

-- The least rank; `ranks` is not empty where it is called.
unfoldable pub min_rank : List ℕ → ℕ
min_rank [] = 0
min_rank (r ∷ []) = r
min_rank (r ∷ s ∷ ranks) = let rest = min_rank (s ∷ ranks) in if ltb r rest then r else rest

-- `len(set(ranks)) == 1`, of a list that is not empty.
abbrev pub all_same : List ℕ → Bool
all_same [] = false
all_same (r ∷ ranks) = all (λ s. s == r) ranks

-- The rule of thumb for untagged nodes. An empty list of ranks is tested first.
unfoldable pub infer_control : ℕ → List ℕ → Control
infer_control num_legs [] = no_control
infer_control num_legs (r ∷ ranks) =
    if ltb num_legs 3
    then no_control
    else if not (all_same (r ∷ ranks))
    then stop_2way
    else if leb 4 num_legs && leb (road_class_rank residential) r
    then stop_4way
    else no_control

abbrev pub highway_control : Highway → Bool → Bool → ℕ → List ℕ → Control × ControlConfidence
highway_control traffic_signals circular stop_all num_legs ranks = (signal_permissive, observed)
highway_control mini_roundabout circular stop_all num_legs ranks = (roundabout, observed)
highway_control stop circular stop_all num_legs ranks =
    (if circular then roundabout else if stop_all then stop_4way else stop_2way, observed)
highway_control give_way circular stop_all num_legs ranks =
    (if circular then roundabout else yield, observed)
highway_control other_highway circular stop_all num_legs ranks =
    if circular then (roundabout, observed) else (infer_control num_legs ranks, inferred)

-- `classify_node_control`; `incident` says of each incident edge whether its `junction` tag is
-- "roundabout" or "circular".
unfoldable pub classify_node_control :
    NodeTags → List Bool → ℕ → List ℕ → Control × ControlConfidence
unfolding infer_control
classify_node_control node incident num_legs approach_ranks = elim node.control_override [
  | some c ↦ (c, observed)
  | none ↦
      highway_control node.highway (any (λ b. b) incident) node.stop_all num_legs approach_ranks
]

-- `resolve_approach`.
unfoldable pub resolve_approach : Control → ℕ → List ℕ → Control × Bool
unfolding min_rank
resolve_approach control approach_rank ranks_at_node =
    if is_control control stop_2way || is_control control yield
    then (control, all_same ranks_at_node || ltb (min_rank ranks_at_node) approach_rank)
    else (control, is_control control stop_4way)

-- The kinds of control node seen on an arm.
pub record Kinds : Type 0 where
  pub has_signal : Bool
  pub has_stop : Bool
  pub has_give_way : Bool
  pub has_mini_roundabout : Bool

-- An arm: its far node, what was seen on it, and its street's name where it has one.
pub record Arm : Type 0 where
  pub far : ℕ
  pub kinds : Kinds
  pub street : Option ℕ

abbrev pub no_kinds : Kinds
no_kinds = record {
  has_signal = false;
  has_stop = false;
  has_give_way = false;
  has_mini_roundabout = false;
}

abbrev pub union_kinds : Kinds → Kinds → Kinds
union_kinds k l = record {
  has_signal = k.has_signal || l.has_signal;
  has_stop = k.has_stop || l.has_stop;
  has_give_way = k.has_give_way || l.has_give_way;
  has_mini_roundabout = k.has_mini_roundabout || l.has_mini_roundabout;
}

abbrev pub on_street : ℕ → Option ℕ → Bool
on_street name none = false
on_street name (some n) = n == name

-- The union over the arms of one street.
unfoldable pub shared : ℕ → List Arm → Kinds
shared name [] = no_kinds
shared name (a ∷ arms) =
    let rest = shared name arms in
    if on_street name a.street then union_kinds a.kinds rest else rest

abbrev pub harmonize_arm : List Arm → Arm → Arm
harmonize_arm arms a = elim a.street [
  | none ↦ a
  | some name ↦ record a { kinds = shared name arms }
]

unfoldable pub harmonize_each : List Arm → List Arm → List Arm
unfolding shared
harmonize_each arms [] = []
harmonize_each arms (a ∷ rest) = harmonize_arm arms a ∷ harmonize_each arms rest

-- `_harmonize_opposite_arms`. A street with one arm shares that arm's kinds with itself.
unfoldable pub harmonize_opposite_arms : List Arm → List Arm
unfolding harmonize_each
harmonize_opposite_arms arms = harmonize_each arms arms

-- `ApproachControl`, whose confidence is always OBSERVED.
pub record ApproachControl : Type 0 where
  pub control : Control
  pub must_stop : Bool

-- The same control on every arm.
unfoldable pub everywhere : ApproachControl → List Arm → List (ℕ × ApproachControl)
everywhere c [] = []
everywhere c (a ∷ arms) = (a.far, c) ∷ everywhere c arms

abbrev pub arm_control : Bool → Arm → ApproachControl
arm_control any_stop a =
    if a.kinds.has_stop
    then record { control = stop_2way; must_stop = true }
    else if not any_stop && a.kinds.has_give_way
    then record { control = yield; must_stop = true }
    else record { control = if any_stop then stop_2way else yield; must_stop = false }

unfoldable pub each_arm : Bool → List Arm → List (ℕ × ApproachControl)
each_arm any_stop [] = []
each_arm any_stop (a ∷ arms) = (a.far, arm_control any_stop a) ∷ each_arm any_stop arms

-- The control kind of the junction node itself.
pub data JunctionKind : Type 0 where
  junction_signal junction_mini_roundabout junction_other : JunctionKind

abbrev pub is_signal : JunctionKind → Bool
is_signal junction_signal = true
is_signal _ = false

abbrev pub is_mini : JunctionKind → Bool
is_mini junction_mini_roundabout = true
is_mini _ = false

-- `_resolve_junction`; `stop_all` is the junction node's `stop=all`.
unfoldable pub resolve_junction : JunctionKind → Bool → List Arm → List (ℕ × ApproachControl)
unfolding everywhere each_arm
resolve_junction kind stop_all arms =
    let any_stop = any (λ (a : Arm). a.kinds.has_stop) arms in
    let any_yield = any (λ (a : Arm). a.kinds.has_give_way) arms in
    let every_arm_stops = leb 3 (length arms) && all (λ (a : Arm). a.kinds.has_stop) arms in
    if is_signal kind || any (λ (a : Arm). a.kinds.has_signal) arms
    then everywhere (record { control = signal_permissive; must_stop = false }) arms
    else if is_mini kind
    then everywhere (record { control = roundabout; must_stop = false }) arms
    else if any_stop && (stop_all || every_arm_stops)
    then everywhere (record { control = stop_4way; must_stop = true }) arms
    else if any_stop || any_yield
    then each_arm any_stop arms
    else []
