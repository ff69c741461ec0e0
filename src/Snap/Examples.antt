-- ===== src/Snap/Examples.antt =====
-- Two hits: the second segment is nearer, on a two-way street.
use safety_aware_route_plann.Base.{◌+◌, ◌==◌, ◌≡◌, refl, none, some, [], ◌∷◌, if◌then◌else◌}
use safety_aware_route_plann.Float.Whole.{naturals}
use safety_aware_route_plann.Snap.{SnapIndex, dist_to, frac_of, best_of, snap}
use safety_aware_route_plann.Snap.Nearest.{IsSnap, snap-nearest}

program : Unit {0}
unfolding dist_to frac_of best_of snap
program = tt

abbrev index : SnapIndex naturals
index = record {
  seg_edge = λ si. si + 4;
  seg_a = λ si. si;
  ax = λ si. if si == 0 then 1 else 9;
  ay = λ si. 0;
  bx = λ si. if si == 0 then 1 else 9;
  by = λ si. 0;
  cum = λ i. i;
  edge_geom_ptr = λ e. e;
  edge_reverse = λ e. if e == 5 then some 7 else none;
  kx = 1;
  ky = 1;
  query = λ x y. 0 ∷ 1 ∷ [];
  project = λ lat lon. (lon, lat);
  hypot = λ x y. x + y;
  degrees = λ x. x;
}

two_ways :
    snap naturals index 0 12 50
    ≡ record { edge = 5; frac = 0; dist_m = 3; lat = 0; lon = 9 }
      ∷ record { edge = 7; frac = 1; dist_m = 3; lat = 0; lon = 9 }
      ∷ []
unfolding program
two_ways = refl

snap-nearest_example : IsSnap naturals index 50 12 0 (0 ∷ 1 ∷ []) (snap naturals index 0 12 50)
snap-nearest_example = snap-nearest naturals index 0 12 50
