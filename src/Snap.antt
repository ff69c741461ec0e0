-- ===== src/Snap.antt =====
-- pyref/snap.py: `SnapIndex.snap`. The k-d tree, the projection and the trigonometry are libraries:
-- the hits of a query, the distance of two plane offsets, and degrees.
pub mod Nearest
mod Examples
use safety_aware_route_plann.Base.{
  ℕ, ◌+◌, ◌-◌, Bool, true, false, ◌||◌, Option, none, some, List, [], ◌∷◌, if◌then◌else◌,
}
use safety_aware_route_plann.Float.{Float, lt, le, eq}
use safety_aware_route_plann.Costs.{fmax, fmin}

module _ (fl : Float) where
  open fl use {Val, zero_val, one_val, add, sub, mul, div}

  pub record SnapCandidate : Type 0 where
    pub edge : ℕ
    pub frac : Val
    pub dist_m : Val
    pub lat : Val
    pub lon : Val

  pub record SnapIndex : Type 0 where
    pub seg_edge : ℕ → ℕ
    pub seg_a : ℕ → ℕ
    pub ax : ℕ → Val
    pub ay : ℕ → Val
    pub bx : ℕ → Val
    pub by : ℕ → Val
    pub cum : ℕ → Val
    pub edge_geom_ptr : ℕ → ℕ
    pub edge_reverse : ℕ → Option ℕ
    pub kx : Val
    pub ky : Val
    pub query : Val → Val → List ℕ
    pub project : Val → Val → Val × Val
    pub hypot : Val → Val → Val
    pub degrees : Val → Val

  module _ (ix : SnapIndex) where
    -- The projection onto a segment: the share of it, the point, and the distance.
    abbrev pub len2 : ℕ → Val
    len2 si =
        let dx = sub (ix.bx si) (ix.ax si) in
        let dy = sub (ix.by si) (ix.ay si) in add (mul dx dx) (mul dy dy)

    abbrev pub share : Val → Val → ℕ → Val
    share px py si =
        let dx = sub (ix.bx si) (ix.ax si) in
        let dy = sub (ix.by si) (ix.ay si) in
        let dot = add (mul (sub px (ix.ax si)) dx) (mul (sub py (ix.ay si)) dy) in
        if eq fl (len2 si) zero_val
        then zero_val
        else fmax fl zero_val (fmin fl one_val (div dot (len2 si)))

    abbrev pub qx : Val → Val → ℕ → Val
    qx px py si = add (ix.ax si) (mul (share px py si) (sub (ix.bx si) (ix.ax si)))

    abbrev pub qy : Val → Val → ℕ → Val
    qy px py si = add (ix.ay si) (mul (share px py si) (sub (ix.by si) (ix.ay si)))

    unfoldable pub dist_to : Val → Val → ℕ → Val
    dist_to px py si = ix.hypot (sub px (qx px py si)) (sub py (qy px py si))

    -- `_edge_polyline_len`; every edge has points.
    abbrev pub edge_polyline_len : ℕ → Val
    edge_polyline_len e = sub (ix.cum (ix.edge_geom_ptr (e + 1) - 1)) (ix.cum (ix.edge_geom_ptr e))

    unfoldable pub frac_of : Val → Val → ℕ → Val
    frac_of px py si =
        let e = ix.seg_edge si in
        let a = ix.seg_a si in
        let seg_len = sub (ix.cum (a + 1)) (ix.cum a) in
        let along =
          add (sub (ix.cum a) (ix.cum (ix.edge_geom_ptr e))) (mul (share px py si) seg_len) in
        let total = edge_polyline_len e in
        if le fl total zero_val then zero_val else fmin fl one_val (div along total)

    abbrev pub candidate : Val → Val → ℕ → SnapCandidate
    candidate px py si = record {
      edge = ix.seg_edge si;
      frac = frac_of px py si;
      dist_m = dist_to px py si;
      lat = ix.degrees (div (qy px py si) ix.ky);
      lon = ix.degrees (div (qx px py si) ix.kx);
    }

    abbrev pub no_closer : Val → Option SnapCandidate → Bool
    no_closer d none = false
    no_closer d (some best) = le fl best.dist_m d

    -- The loop over the hits.
    unfoldable pub best_of : Val → Val → Val → Option SnapCandidate → List ℕ → Option SnapCandidate
    unfolding dist_to frac_of
    best_of max_m px py best [] = best
    best_of max_m px py best (si ∷ rest) =
        best_of max_m px py
          (if lt fl max_m (dist_to px py si) || no_closer (dist_to px py si) best
            then best
            else some (candidate px py si))
          rest

    abbrev pub with_twin : SnapCandidate → Option ℕ → List SnapCandidate
    with_twin best none = best ∷ []
    with_twin best (some rev) = best ∷ record best { edge = rev; frac = sub one_val best.frac } ∷ []

    abbrev pub both_ways : Option SnapCandidate → List SnapCandidate
    both_ways none = []
    both_ways (some best) = with_twin best (ix.edge_reverse best.edge)

    -- `snap`.
    unfoldable pub snap : Val → Val → Val → List SnapCandidate
    unfolding best_of
    snap lat lon max_m =
        let (px, py) = ix.project lat lon in both_ways (best_of max_m px py none (ix.query px py))
