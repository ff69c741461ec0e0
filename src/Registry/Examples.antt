-- ===== src/Registry/Examples.antt =====
-- Two metros, far apart.
use Prim.Native.String.{String}
use safety_aware_route_plann.Base.{◌≡◌, ◌↔◌, refl, true, Option, none, some, [], ◌∷◌, In, arith}
use safety_aware_route_plann.Float.Whole.{whole}
use safety_aware_route_plann.Registry.{
  BBox, Point, Served, selected, overlap, bbox_contains, owner, select_owners, pack_for, check_bbox,
  duplicate, validate_coverage, registry, has_name, first_null, first_malformed, meets, overlapping,
  intersects,
}
use safety_aware_route_plann.Registry.Select.{pack_for_iff, pack_for-reorder}

abbrev east_bay : BBox whole
east_bay = record { west = 10; south = 10; east = 20; north = 20 }

abbrev city : BBox whole
city = record { west = 0; south = 0; east = 8; north = 8 }

abbrev metros : Served whole
metros = ("berkeley_oakland", some east_bay) ∷ ("san_francisco", some city) ∷ []

abbrev swapped : Served whole
swapped = ("san_francisco", some city) ∷ ("berkeley_oakland", some east_bay) ∷ []

abbrev oakland : Point whole
oakland = record { lat = 12; lon = 13 }

abbrev berkeley : Point whole
berkeley = record { lat = 20; lon = 20 }

program : Unit {0}
unfolding bbox_contains owner select_owners pack_for check_bbox duplicate validate_coverage registry
    has_name first_null first_malformed meets overlapping intersects
program = tt

metros-accepted : registry whole metros ≡ none
unfolding program
metros-accepted = refl

swapped-accepted : registry whole swapped ≡ none
unfolding program
swapped-accepted = refl

-- Boxes that touch are refused.
touching :
    registry whole (("a", some city) ∷ ("b", some (record city { west = 8; east = 9 })) ∷ [])
    ≡ some (overlap "a" "b")
unfolding program
touching = refl

pack_for_iff_example : (pack_for whole metros oakland berkeley ≡ selected "berkeley_oakland") ↔ (
    (b : Option (BBox whole)) × In ("berkeley_oakland", b) metros
    × (bbox_contains whole b oakland ≡ true)
    × (bbox_contains whole b berkeley ≡ true))
pack_for_iff_example = pack_for_iff whole metros oakland berkeley "berkeley_oakland" metros-accepted

same_packs : (x : String × Option (BBox whole)) → In x metros ↔ In x swapped
same_packs x = ground arith

pack_for-reorder_example :
    pack_for whole metros oakland berkeley ≡ pack_for whole swapped oakland berkeley
pack_for-reorder_example =
    pack_for-reorder whole metros swapped oakland berkeley metros-accepted swapped-accepted
      same_packs
