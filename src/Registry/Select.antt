-- ===== src/Registry/Select.antt =====
-- Selection is a function of the coordinates: it finds the one pack that holds both endpoints.
use Prim.Native.String.{String}
use text.Mathlib.TextEquality.{eq_iff}
use safety_aware_route_plann.Base.{
  ◌≡◌, ◌↔◌, sym, subst, true, Option, none, some, [], ◌∷◌, In, inl, inr, arith, Bool-cases,
  Option-cases, ◌∙◌,
}
use safety_aware_route_plann.Float.{Float}
use safety_aware_route_plann.Registry.{
  BBox, Point, Served, selected, bbox_contains, owner, select_owners, pack_for, validate_coverage,
  registry,
}
use safety_aware_route_plann.Registry.Cover.{
  Disjoint, Disjoint-of_coverage, box_unique, duplicate_of_coverage,
}

module _ (fl : Float) where
  -- The pack `n` is served, and its box contains the point.
  abbrev pub Holds : Served fl → String → Point fl → Type 0
  Holds packs n p = (b : Option (BBox fl)) × In (n, b) packs × (bbox_contains fl b p ≡ true)

  owner-Holds :
      (packs : Served fl) (p : Point fl) (n : String) → owner fl packs p ≡ some n → Holds packs n p
  unfolding owner
  owner-Holds [] p n h = cc
  owner-Holds ((m, c) ∷ packs) p n h = elim (Bool-cases (bbox_contains fl c p)) [
    | inl e ↦ (c, inl (ground arith), e)
    | inr e ↦ let (b, i, k) = owner-Holds packs p n (rw e at h) in (b, inr i, k)
  ]

  Holds-owner :
      (packs : Served fl) (p : Point fl) (n : String)
      → Disjoint fl packs
      → Holds packs n p
      → owner fl packs p ≡ some n
  unfolding owner
  Holds-owner [] p n d (b, i, k) = absurd i
  Holds-owner ((m, c) ∷ packs) p n d (b, inl e, k) = ground arith
  Holds-owner ((m, c) ∷ packs) p n d (b, inr i, k) = elim (Bool-cases (bbox_contains fl c p)) [
    | inl e ↦ absurd (d.0 n b p i e k)
    | inr e ↦ rw e (Holds-owner packs p n d.1 (b, i, k))
  ]

  accepted : (packs : Served fl) → registry fl packs ≡ none → validate_coverage fl packs ≡ none
  unfolding registry
  accepted [] h = cc
  accepted (p ∷ packs) h = h

  pub owners_selected :
      (o d : Option String) (n : String)
      → select_owners fl o d ≡ selected n
      → (o ≡ some n) × (d ≡ some n)
  unfolding select_owners
  owners_selected none d n h = cc
  owners_selected (some o) none n h = cc
  owners_selected (some o) (some d) n h = ground (arith, eq_iff o d)

  owner_same :
      (packs others : Served fl) (p : Point fl)
      → Disjoint fl packs
      → Disjoint fl others
      → ((x : String × Option (BBox fl)) → In x packs ↔ In x others)
      → owner fl packs p ≡ owner fl others p
  owner_same packs others p d d' same = elim (Option-cases (owner fl packs p)) [
    | inr (n, e) ↦
        let (b, i, k) = owner-Holds packs p n e in
        e ∙ sym (Holds-owner others p n d' (b, (same (n, b)).0 i, k))
    | inl e ↦ elim (Option-cases (owner fl others p)) [
      | inl e' ↦ e ∙ sym e'
      | inr (n, e') ↦
          let (b, i, k) = owner-Holds others p n e' in
          Holds-owner packs p n d (b, (same (n, b)).1 i, k) ∙ sym e'
    ]
  ]

-- On an accepted set, a request is given to a pack exactly when that pack is served and contains
-- both endpoints.
pub pack_for_iff :
    (fl : Float) (packs : Served fl) (o d : Point fl) (n : String)
    → registry fl packs ≡ none
    → (pack_for fl packs o d ≡ selected n) ↔ (
        (b : Option (BBox fl)) × In (n, b) packs
        × (bbox_contains fl b o ≡ true)
        × (bbox_contains fl b d ≡ true))
unfolding pack_for
pack_for_iff fl packs o d n h =
    let ok = accepted fl packs h in
    let apart = Disjoint-of_coverage fl packs ok in
    (
      λ s. both s,
      λ (b, i, co, cd).
          rw
            (
              Holds-owner fl packs o n apart (b, i, co),
              Holds-owner fl packs d n apart (b, i, cd),
              select_owners,
            )
            (ground (arith, eq_iff n n)),
    )
  where
    both :
        select_owners fl (owner fl packs o) (owner fl packs d) ≡ selected n
        → (b : Option (BBox fl)) × In (n, b) packs
          × (bbox_contains fl b o ≡ true)
          × (bbox_contains fl b d ≡ true)
    both s =
        let (eo, ed) = owners_selected fl (owner fl packs o) (owner fl packs d) n s in
        let (b, i, co) = owner-Holds fl packs o n eo in
        let (c, j, cd) = owner-Holds fl packs d n ed in
        let same =
          box_unique fl packs n b c (duplicate_of_coverage fl packs (accepted fl packs h)) i j in
        (b, i, co, subst (λ z. bbox_contains fl z d ≡ true) (sym same) cd)

-- Two accepted sets with the same packs, in any order, select alike.
pub pack_for-reorder :
    (fl : Float) (packs others : Served fl) (o d : Point fl)
    → registry fl packs ≡ none
    → registry fl others ≡ none
    → ((x : String × Option (BBox fl)) → In x packs ↔ In x others)
    → pack_for fl packs o d ≡ pack_for fl others o d
unfolding pack_for
pack_for-reorder fl packs others o d h k same =
    let apart = Disjoint-of_coverage fl packs (accepted fl packs h) in
    let apart' = Disjoint-of_coverage fl others (accepted fl others k) in
    rw (
      owner_same fl packs others o apart apart' same,
      owner_same fl packs others d apart apart' same,
    )
