-- ===== src/Registry/Cover.antt =====
-- A set that is accepted has at most one pack at any point.
use Prim.Native.String.{String}
use text.Mathlib.TextEquality.{eq_iff}
use safety_aware_route_plann.Base.{
  ◌≡◌, refl, true, false, Option, none, some, [], ◌∷◌, In, inl, inr, arith, Option-cases,
}
use safety_aware_route_plann.Float.{Float}
use safety_aware_route_plann.Registry.{
  BBox, Point, Served, bbox_contains, intersects, has_name, duplicate, first_null, meets,
  overlapping, validate_coverage,
}

module _ (fl : Float) where
  -- Two boxes that contain a point meet.
  intersects_of_contains :
      (a b : BBox fl) (p : Point fl)
      → bbox_contains fl (some a) p ≡ true
      → bbox_contains fl (some b) p ≡ true
      → intersects fl a b ≡ true
  unfolding bbox_contains intersects
  intersects_of_contains a b p h k = ground arith

  -- No two packs of the list contain one point.
  abbrev pub Disjoint : Served fl → Type 0
  Disjoint [] = Unit
  Disjoint ((n, a) ∷ packs) =
      ((m : String) (b : Option (BBox fl)) (p : Point fl)
        → In (m, b) packs
        → bbox_contains fl a p ≡ true
        → bbox_contains fl b p ≡ true
        → ⊥)
      × Disjoint packs

  meets-none :
      (a : BBox fl) (packs : Served fl) (m : String) (b : BBox fl)
      → meets fl a packs ≡ none
      → In (m, some b) packs
      → intersects fl a b ≡ false
  unfolding meets
  meets-none a [] m b h i = elim i [ ]
  meets-none a ((n, none) ∷ packs) m b h (inl e) = cc
  meets-none a ((n, none) ∷ packs) m b h (inr i) = meets-none a packs m b h i
  meets-none a ((n, some c) ∷ packs) m b h (inl e) = ground arith
  meets-none a ((n, some c) ∷ packs) m b h (inr i) = ground (arith, meets-none a packs m b)

  null_free : (packs : Served fl) (m : String) → first_null fl packs ≡ none → In (m, none) packs → ⊥
  unfolding first_null
  null_free [] m h i = i
  null_free ((n, none) ∷ packs) m h i = cc
  null_free ((n, some c) ∷ packs) m h (inl e) = cc
  null_free ((n, some c) ∷ packs) m h (inr i) = null_free packs m h i

  Disjoint-of_overlapping :
      (packs : Served fl)
      → ((m : String) → In (m, none) packs → ⊥)
      → overlapping fl packs ≡ none
      → Disjoint packs
  unfolding overlapping
  Disjoint-of_overlapping [] free h = tt
  Disjoint-of_overlapping ((n, none) ∷ packs) free h = absurd (free n (inl refl))
  Disjoint-of_overlapping ((n, some a) ∷ packs) free h = elim (Option-cases (meets fl a packs)) [
    | inr (m, e) ↦ cc (rw (e, overlapping) at h)
    | inl e ↦ (
      λ m b p i ca cb. apart m b p e i ca cb,
      Disjoint-of_overlapping packs (λ m i. free m (inr i)) (rw (e, overlapping) at h),
    )
  ]
    where
      apart :
          (m : String) (b : Option (BBox fl)) (p : Point fl)
          → meets fl a packs ≡ none
          → In (m, b) packs
          → bbox_contains fl (some a) p ≡ true
          → bbox_contains fl b p ≡ true
          → ⊥
      apart m none p e i ca cb = free m (inr i)
      apart m (some b) p e i ca cb =
          let met = intersects_of_contains a b p ca cb in
          let apart' = meets-none a packs m b e i in cc

  pub Disjoint-of_coverage :
      (packs : Served fl) → validate_coverage fl packs ≡ none → Disjoint packs
  unfolding validate_coverage
  Disjoint-of_coverage [] h = tt
  Disjoint-of_coverage ((n, b) ∷ []) h = (λ m c p i _ _. i, tt)
  Disjoint-of_coverage (x ∷ y ∷ packs) h =
      Disjoint-of_overlapping (x ∷ y ∷ packs) (λ m. null_free (x ∷ y ∷ packs) m (ground arith))
        (ground arith)

  not_named :
      (n : String) (packs : Served fl) (b : Option (BBox fl))
      → has_name fl n packs ≡ false
      → In (n, b) packs
      → ⊥
  unfolding has_name
  not_named n [] b h i = i
  not_named n ((m, c) ∷ packs) b h (inl e) = ground (arith, eq_iff m n)
  not_named n ((m, c) ∷ packs) b h (inr i) = not_named n packs b (ground arith) i

  -- A name of an accepted set has one box.
  pub box_unique :
      (packs : Served fl) (n : String) (a b : Option (BBox fl))
      → duplicate fl packs ≡ none
      → In (n, a) packs
      → In (n, b) packs
      → a ≡ b
  unfolding duplicate
  box_unique [] n a b h i j = absurd i
  box_unique ((m, c) ∷ packs) n a b h (inl e) (inl f) = cc
  box_unique ((m, c) ∷ packs) n a b h (inl e) (inr j) =
      absurd (not_named n packs b (ground (arith, eq_iff m n)) j)
  box_unique ((m, c) ∷ packs) n a b h (inr i) (inl f) =
      absurd (not_named n packs a (ground (arith, eq_iff m n)) i)
  box_unique ((m, c) ∷ packs) n a b h (inr i) (inr j) = box_unique packs n a b (ground arith) i j

  pub duplicate_of_coverage :
      (packs : Served fl) → validate_coverage fl packs ≡ none → duplicate fl packs ≡ none
  unfolding validate_coverage
  duplicate_of_coverage packs h = ground arith
