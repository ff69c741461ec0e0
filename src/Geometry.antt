-- ===== src/Geometry.antt =====
-- pyref/geometry.py: the polyline of a route, its coloured segments, its manoeuvres and its markers.
-- A point is (lon, lat); `haversine_m`, of two points, is trigonometry, and an argument.
use mathlib.Core.List.{get_last?}
use safety_aware_route_plann.Base.{
  ℕ, suc, ◌+◌, ◌-◌, Bool, ◌&&◌, Option, none, some, List, [], ◌∷◌, ◌++◌, map, ◌==◌, ltb,
  if◌then◌else◌, length, get_elem?,
}
use safety_aware_route_plann.Float.{Float, lt, le, eq}
use safety_aware_route_plann.Graph.{Maneuver, straight, is_maneuver, GraphPack}
use safety_aware_route_plann.Search.{PathResult, edges}
use safety_aware_route_plann.Costs.{
  UnsafeType, unsafe_none, unsafe_left, unsafe_crossing, Tier, tier_safe,
}

abbrev pub unsafe_code : UnsafeType → ℕ
unsafe_code unsafe_none = 0
unsafe_code unsafe_left = 1
unsafe_code unsafe_crossing = 2

module _ (fl : Float) where
  open fl use {Val, zero_val, one_val, add, sub, mul, div}

  abbrev pub Coord : Type 0
  Coord = Val × Val

  abbrev pub same_point : Coord → Coord → Bool
  same_point (lon, lat) (lon2, lat2) = eq fl lon lon2 && eq fl lat lat2

  abbrev pub nth : {A : Type 0} → A → List A → ℕ → A
  nth d xs i = elim (get_elem? xs i) [ none ↦ d | some x ↦ x ]

  pub record UnsafePoint : Type 0 where
    pub lon : Val
    pub lat : Val
    pub kind : UnsafeType
    pub expected_wait_s : Val

  pub record RouteSegment : Type 0 where
    pub coordinates : List Coord
    pub tier : Tier

  pub record RouteManeuver : Type 0 where
    pub kind : Maneuver
    pub angle_deg : Val
    pub offset_m : Val
    pub lon : Val
    pub lat : Val

  -- Each edge of a route with the shares that it is clipped to.
  unfoldable pub clips : Val → Val → List ℕ → List (ℕ × Val × Val)
  clips frac_origin frac_dest [] = []
  clips frac_origin frac_dest (e ∷ []) = (e, frac_origin, frac_dest) ∷ []
  clips frac_origin frac_dest (e ∷ f ∷ es) =
      (e, frac_origin, one_val) ∷ clips zero_val frac_dest (f ∷ es)

  module _ (haversine_m : Coord → Coord → Val) (geom : ℕ → List Coord) where
    -- `np.concatenate([[0.0], np.cumsum(seg)])`, from a sum on.
    unfoldable pub cumulative : Val → List Coord → List Val
    cumulative acc [] = []
    cumulative acc (p ∷ []) = acc ∷ []
    cumulative acc (p ∷ q ∷ ps) = acc ∷ cumulative (add acc (haversine_m p q)) (q ∷ ps)

    -- `np.searchsorted(cum, dist, side="right")`, of an ordered array.
    unfoldable pub searchsorted : List Val → Val → ℕ
    searchsorted [] dist = 0
    searchsorted (c ∷ cs) dist = if le fl c dist then suc (searchsorted cs dist) else 0

    abbrev pub min_nat : ℕ → ℕ → ℕ
    min_nat a b = if ltb b a then b else a

    unfoldable pub point_at : List Coord → List Val → Val → Coord
    unfolding searchsorted
    point_at pts cum dist =
        let i = min_nat (searchsorted cum dist - 1) (length pts - 2) in
        let (lon, lat) = nth (zero_val, zero_val) pts i in
        let (lon2, lat2) = nth (zero_val, zero_val) pts (i + 1) in
        let at = nth zero_val cum i in
        let span = haversine_m (lon, lat) (lon2, lat2) in
        let u = if le fl span zero_val then zero_val else div (sub dist at) span in
        (add lon (mul u (sub lon2 lon)), add lat (mul u (sub lat2 lat)))

    unfoldable pub inner : Val → Val → List Coord → List Val → List Coord
    inner d0 d1 [] cum = []
    inner d0 d1 (p ∷ ps) [] = []
    inner d0 d1 (p ∷ ps) (c ∷ cum) =
        let rest = inner d0 d1 ps cum in if lt fl d0 c && lt fl c d1 then p ∷ rest else rest

    abbrev pub first_last : List Coord → List Coord
    first_last pts =
        nth (zero_val, zero_val) pts 0 ∷ nth (zero_val, zero_val) pts (length pts - 1) ∷ []

    -- `_edge_coords`.
    unfoldable pub edge_coords : ℕ → Val → Val → List Coord
    unfolding cumulative point_at inner
    edge_coords e frac_start frac_end =
        let pts = geom e in
        let cum = cumulative zero_val pts in
        let total = nth zero_val cum (length pts - 1) in
        let d0 = mul frac_start total in
        let d1 = mul frac_end total in
        if le fl frac_start zero_val && le fl one_val frac_end
        then pts
        else if le fl total zero_val
        then first_last pts
        else point_at pts cum d0 ∷ (inner d0 d1 pts cum ++ point_at pts cum d1 ∷ [])

    -- A point that two edges share is kept once.
    abbrev pub fresh_points : Option Coord → List Coord → List Coord
    fresh_points none pts = pts
    fresh_points (some p) [] = []
    fresh_points (some p) (q ∷ qs) = if same_point p q then qs else q ∷ qs

    unfoldable pub joined : List Coord → List (ℕ × Val × Val) → List Coord
    unfolding edge_coords
    joined coords [] = coords
    joined coords ((e, fs, fe) ∷ rest) =
        joined (coords ++ fresh_points (get_last? coords) (edge_coords e fs fe)) rest

    -- `route_geometry`.
    unfoldable pub route_geometry : (ℕ → ℕ) → PathResult Val → Val → Val → List Coord
    unfolding joined clips edges
    route_geometry turn_out_edge r frac_origin frac_dest =
        joined [] (clips frac_origin frac_dest (edges r turn_out_edge))

    unfoldable pub length_on : Val → Option Coord → List Coord → Val
    length_on cum last [] = cum
    length_on cum none (p ∷ ps) = length_on cum (some p) ps
    length_on cum (some q) (p ∷ ps) = length_on (add cum (haversine_m q p)) (some p) ps

    -- The offset at the end of each edge (`edge_end_cum`).
    unfoldable pub end_offsets : List Coord → Val → List (ℕ × Val × Val) → List Val
    unfolding edge_coords length_on
    end_offsets coords cum [] = []
    end_offsets coords cum ((e, fs, fe) ∷ rest) =
        let pts = fresh_points (get_last? coords) (edge_coords e fs fe) in
        let after = length_on cum (get_last? coords) pts in
        after ∷ end_offsets (coords ++ pts) after rest

    unfoldable pub zip_segments : List (ℕ × Val × Val) → List Tier → List RouteSegment
    unfolding edge_coords
    zip_segments [] tiers = []
    zip_segments (c ∷ cs) [] = []
    zip_segments ((e, fs, fe) ∷ cs) (tier ∷ tiers) =
        record { coordinates = edge_coords e fs fe; tier = tier } ∷ zip_segments cs tiers

    -- `route_segments`.
    unfoldable pub route_segments :
        (ℕ → Tier) → (ℕ → ℕ) → PathResult Val → Val → Val → List RouteSegment
    unfolding zip_segments clips edges
    route_segments turn_tier turn_out_edge r frac_origin frac_dest =
        zip_segments (clips frac_origin frac_dest (edges r turn_out_edge))
          (tier_safe ∷ map turn_tier r.turn_ids)

    module _ (pack : GraphPack Val) where
      abbrev pub maneuver : ℕ → Val → RouteManeuver
      maneuver t offset =
          let node = pack.edge_head (pack.turn_in_edge t) in
          record {
            kind = pack.turn_maneuver t;
            angle_deg = pack.turn_angle_deg t;
            offset_m = offset;
            lon = pack.node_lon node;
            lat = pack.node_lat node;
          }

      unfoldable pub bends : List ℕ → List Val → List RouteManeuver
      bends [] offsets = []
      bends (t ∷ ts) [] = []
      bends (t ∷ ts) (offset ∷ offsets) =
          let rest = bends ts offsets in
          if is_maneuver (pack.turn_maneuver t) straight then rest else maneuver t offset ∷ rest

      -- `route_maneuvers`.
      unfoldable pub route_maneuvers : PathResult Val → Val → Val → List RouteManeuver
      unfolding bends end_offsets clips edges
      route_maneuvers r frac_origin frac_dest =
          bends r.turn_ids
            (end_offsets [] zero_val (clips frac_origin frac_dest (edges r pack.turn_out_edge)))

  module _ (pack : GraphPack Val) (turn_unsafe_type : ℕ → UnsafeType) (turn_delay_s : ℕ → Val) where
    abbrev pub unsafe_point : ℕ → UnsafePoint
    unsafe_point t =
        let node = pack.edge_head (pack.turn_in_edge t) in
        record {
          lon = pack.node_lon node;
          lat = pack.node_lat node;
          kind = turn_unsafe_type t;
          expected_wait_s = turn_delay_s t;
        }

    -- `unsafe_points`.
    unfoldable pub unsafe_points : List ℕ → List UnsafePoint
    unsafe_points [] = []
    unsafe_points (t ∷ ts) =
        let rest = unsafe_points ts in
        if unsafe_code (turn_unsafe_type t) == 0 then rest else unsafe_point t ∷ rest
