-- ===== src/Registry.antt =====
-- api/registry.py: the served packs, and which one a request belongs to.
-- A pack's name is a text; a bounding box is [west, south, east, north], and a point (lat, lon).
mod Cover
pub mod Select
mod Examples
use Prim.Native.String.{String}
use text.Mathlib.Text.{◌==◌ as str_eq}
use safety_aware_route_plann.Base.{
  Bool, true, false, ◌&&◌, ◌||◌, not, Option, none, some, List, [], ◌∷◌, ltb, length, if◌then◌else◌,
  any,
}
use safety_aware_route_plann.Float.{Float, le, lt}

pub data PackConfigError : Type 0 where
  served_twice no_bbox : String → PackConfigError
  malformed : String → PackConfigError
  overlap : String → String → PackConfigError
  no_packs wrong_region : PackConfigError

module _ (fl : Float) where
  open fl use {Val}

  pub record Point : Type 0 where
    pub lat : Val
    pub lon : Val

  pub record BBox : Type 0 where
    pub west : Val
    pub south : Val
    pub east : Val
    pub north : Val

  -- A null bbox contains every point.
  unfoldable pub bbox_contains : Option BBox → Point → Bool
  bbox_contains none p = true
  bbox_contains (some b) p =
      le fl b.south p.lat && le fl p.lat b.north && le fl b.west p.lon && le fl p.lon b.east

  abbrev pub Served : Type 0
  Served = List (String × Option BBox)

  unfoldable pub owner : Served → Point → Option String
  owner [] p = none
  owner ((name, b) ∷ packs) p = if bbox_contains b p then some name else owner packs p

  pub data Selection : Type 0 where
    selected : String → Selection
    origin_outside destination_outside : Selection
    different_packs : String → String → Selection

  unfoldable pub select_owners : Option String → Option String → Selection
  select_owners none d = origin_outside
  select_owners (some o) none = destination_outside
  select_owners (some o) (some d) = if str_eq o d then selected o else different_packs o d

  unfoldable pub pack_for : Served → Point → Point → Selection
  unfolding select_owners owner
  pack_for packs origin destination = select_owners (owner packs origin) (owner packs destination)

  -- `_check_bbox`, on a box of any length.
  unfoldable pub check_bbox : List Val → Option BBox
  check_bbox (west ∷ south ∷ east ∷ north ∷ []) =
      if lt fl east west || lt fl north south
      then none
      else some (record { west = west; south = south; east = east; north = north })
  check_bbox _ = none

  -- Closed boxes: a shared edge or corner is an intersection.
  unfoldable pub intersects : BBox → BBox → Bool
  intersects a b =
      le fl a.west b.east && le fl b.west a.east && le fl a.south b.north && le fl b.south a.north

  unfoldable pub has_name : String → Served → Bool
  has_name n [] = false
  has_name n ((m, _) ∷ packs) = str_eq m n || has_name n packs

  unfoldable pub duplicate : Served → Option String
  unfolding has_name
  duplicate [] = none
  duplicate ((n, _) ∷ packs) = if has_name n packs then some n else duplicate packs

  unfoldable pub first_null : Served → Option String
  first_null [] = none
  first_null ((n, none) ∷ packs) = some n
  first_null ((n, some _) ∷ packs) = first_null packs

  unfoldable pub first_malformed : Served → Option String
  unfolding check_bbox
  first_malformed [] = none
  first_malformed ((n, none) ∷ packs) = first_malformed packs
  first_malformed ((n, some b) ∷ packs) =
      elim (check_bbox (b.west ∷ b.south ∷ b.east ∷ b.north ∷ [])) [
        | none ↦ some n
        | some _ ↦ first_malformed packs
      ]

  -- The first pack of a list whose box meets `a`, and the first pair of a list that meets.
  unfoldable pub meets : BBox → Served → Option String
  unfolding intersects
  meets a [] = none
  meets a ((n, none) ∷ packs) = meets a packs
  meets a ((n, some b) ∷ packs) = if intersects a b then some n else meets a packs

  unfoldable pub overlapping : Served → Option (String × String)
  unfolding meets
  overlapping [] = none
  overlapping ((n, none) ∷ packs) = overlapping packs
  overlapping ((n, some a) ∷ packs) = elim (meets a packs) [
    | some m ↦ some (n, m)
    | none ↦ overlapping packs
  ]

  -- `none` means that the set is accepted.
  unfoldable pub validate_coverage : Served → Option PackConfigError
  unfolding duplicate first_null first_malformed overlapping
  validate_coverage packs = elim (duplicate packs) [
    | some n ↦ some (served_twice n)
    | none ↦ elim (if ltb 1 (length packs) then first_null packs else none) [
      | some n ↦ some (no_bbox n)
      | none ↦ elim (first_malformed packs) [
        | some n ↦ some (malformed n)
        | none ↦ elim (overlapping packs) [ some (n, m) ↦ some (overlap n m) | none ↦ none ]
      ]
    ]
  ]

  -- `validate_pack_name`, of a directory's name and its manifest's region.
  unfoldable pub validate_pack_name : String → Option String → Option PackConfigError
  validate_pack_name name none = some wrong_region
  validate_pack_name name (some region) = if str_eq region name then none else some wrong_region

  -- `PackRegistry.__init__`.
  unfoldable pub registry : Served → Option PackConfigError
  unfolding validate_coverage
  registry [] = some no_packs
  registry (p ∷ packs) = validate_coverage (p ∷ packs)
