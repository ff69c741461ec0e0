-- ===== src/Snap/Nearest.antt =====
-- The loop over the hits keeps the nearest.
use mathlib.Core.Option.{some-injective}
use safety_aware_route_plann.Base.{
  ℕ, ◌≤◌, ◌<◌, true, false, ◌||◌, Option, none, some, List, [], ◌∷◌, In, All, ◌≡◌, ◌⊎◌, refl, sym,
  inl, inr, arith, Bool-cases, Option-cases,
}
use safety_aware_route_plann.Float.{Float, lt, Le}
use safety_aware_route_plann.Snap.{
  SnapCandidate, SnapIndex, dist_to, candidate, no_closer, best_of, both_ways, snap,
}

module _ (fl : Float) (ix : SnapIndex fl) (max_m px py : fl.Val) where
  open fl use {Val, rank}

  abbrev d : ℕ → ℕ
  d si = rank (dist_to fl ix px py si)

  abbrev Fits : Option (SnapCandidate fl) → Type 0
  Fits none = Unit
  Fits (some b) = Le fl b.dist_m max_m

  abbrev NotAbove : SnapCandidate fl → Option (SnapCandidate fl) → Type 0
  NotAbove r none = Unit
  NotAbove r (some b) = Le fl r.dist_m b.dist_m

  abbrev FromHit : SnapCandidate fl → List ℕ → Type 0
  FromHit r hits = (si : ℕ) × In si hits × (r ≡ candidate fl ix px py si)

  abbrev Ends : Option (SnapCandidate fl) → List ℕ → Option (SnapCandidate fl) → Type 0
  Ends none hits none = All (λ si. rank max_m < d si) hits
  Ends (some b) hits none = ⊥
  Ends best hits (some r) =
      Le fl r.dist_m max_m
      × NotAbove r best
      × All (λ si. rank r.dist_m ≤ d si) hits
      × ((best ≡ some r) ⊎ FromHit r hits)

  later :
      (best : Option (SnapCandidate fl)) (r : SnapCandidate fl) (si : ℕ) (rest : List ℕ)
      → (best ≡ some r) ⊎ FromHit r rest
      → (best ≡ some r) ⊎ FromHit r (si ∷ rest)
  later best r si rest (inl e) = inl e
  later best r si rest (inr (s, m, e)) = inr (s, inr m, e)

  -- A hit that is skipped is too far, or no nearer than the best.
  skipped :
      (best : Option (SnapCandidate fl)) (si : ℕ) (rest : List ℕ) (out : Option (SnapCandidate fl))
      → lt fl max_m (dist_to fl ix px py si) || no_closer fl ix (dist_to fl ix px py si) best ≡ true
      → Ends best rest out
      → Ends best (si ∷ rest) out
  skipped none si rest none h e = (ground (arith, h), e)
  skipped (some b) si rest none h e = elim e [ ]
  skipped none si rest (some r) h e =
      let (small, below, above, came) = e in
      let near : rank r.dist_m ≤ d si = ground (arith, h, small) in
      (small, below, (near, above), later none r si rest came)
  skipped (some b) si rest (some r) h e =
      let (small, below, above, came) = e in
      let near : rank r.dist_m ≤ d si = ground (arith, h, small, below) in
      (small, below, (near, above), later (some b) r si rest came)

  from_taken :
      (r : SnapCandidate fl) (si : ℕ) (rest : List ℕ)
      → (some (candidate fl ix px py si) ≡ some r) ⊎ FromHit r rest
      → FromHit r (si ∷ rest)
  from_taken r si rest (inl e) = (si, inl refl, sym (some-injective _ _ e))
  from_taken r si rest (inr (s, m, e)) = (s, inr m, e)

  -- A hit that is taken is near enough, and nearer than the best.
  taken :
      (best : Option (SnapCandidate fl)) (si : ℕ) (rest : List ℕ) (out : Option (SnapCandidate fl))
      → lt fl max_m (dist_to fl ix px py si) || no_closer fl ix (dist_to fl ix px py si) best
        ≡ false
      → Ends (some (candidate fl ix px py si)) rest out
      → Ends best (si ∷ rest) out
  taken best si rest none h e = elim e [ ]
  taken none si rest (some r) h e =
      let (small, below, above, came) = e in
      (small, tt, (below, above), inr (from_taken r si rest came))
  taken (some b) si rest (some r) h e =
      let (small, below, above, came) = e in
      let nearer : rank r.dist_m ≤ rank b.dist_m = ground (arith, h, below) in
      (small, nearer, (below, above), inr (from_taken r si rest came))

  best_of-Ends :
      (best : Option (SnapCandidate fl)) (hits : List ℕ)
      → Fits best
      → Ends best hits (best_of fl ix max_m px py best hits)
  unfolding best_of
  best_of-Ends none [] f = tt
  best_of-Ends (some b) [] f = (f, omega arith, tt, inl refl)
  best_of-Ends best (si ∷ rest) f =
      elim (Bool-cases
        (lt fl max_m (dist_to fl ix px py si) || no_closer fl ix (dist_to fl ix px py si) best)) [
          | inl e ↦ rw (e, best_of) (skipped best si rest _ e (best_of-Ends best rest f))
          | inr e ↦
              let near : Le fl (dist_to fl ix px py si) max_m = ground (arith, e) in
              rw (e, best_of)
                (taken best si rest _ e (best_of-Ends (some (candidate fl ix px py si)) rest near))
        ]

module _ (fl : Float) (ix : SnapIndex fl) where
  open fl use {Val, rank, sub, one_val}

  -- What a query's answer is: nothing within the limit; or the candidate of a hit within the limit that no hit is nearer
  -- than, alone, or with its twin, at the mirrored share of the reverse edge.
  abbrev pub IsSnap : Val → Val → Val → List ℕ → List (SnapCandidate fl) → Type 0
  IsSnap max_m px py hits [] = All (λ si. rank max_m < rank (dist_to fl ix px py si)) hits
  IsSnap max_m px py hits (best ∷ twins) =
      Le fl best.dist_m max_m
      × All (λ si. rank best.dist_m ≤ rank (dist_to fl ix px py si)) hits
      × ((si : ℕ) × In si hits × (best ≡ candidate fl ix px py si))
      × (((ix.edge_reverse best.edge ≡ none) × (twins ≡ []))
          ⊎ ((rev : ℕ) × (ix.edge_reverse best.edge ≡ some rev)
              × (twins ≡ record best { edge = rev; frac = sub one_val best.frac } ∷ [])))

  Ends-IsSnap :
      (max_m px py : Val) (hits : List ℕ) (out : Option (SnapCandidate fl))
      → Ends fl ix max_m px py none hits out
      → IsSnap max_m px py hits (both_ways fl ix out)
  Ends-IsSnap max_m px py hits none e = e
  Ends-IsSnap max_m px py hits (some r) e =
      let (small, below, above, came) = e in
      let from : (si : ℕ) × In si hits × (r ≡ candidate fl ix px py si) = elim came [
        | inl bad ↦ ground (arith, bad)
        | inr hit ↦ hit
      ] in
      elim (Option-cases (ix.edge_reverse r.edge)) [
        | inl n ↦ rw n (small, above, from, inl (n, refl))
        | inr (rev, s) ↦ rw s (small, above, from, inr (rev, s, refl))
      ]

  -- Snapping finds no candidate exactly where every hit is farther than the limit; else the first
  -- candidate is a hit that none is nearer than, within the limit, and a two-way street adds the
  -- reverse edge at the mirrored share.
  pub snap-nearest :
      (lat lon max_m : Val)
      → let (px, py) = ix.project lat lon in
        IsSnap max_m px py (ix.query px py) (snap fl ix lat lon max_m)
  unfolding snap
  snap-nearest lat lon max_m =
      let px = (ix.project lat lon).0 in
      let py = (ix.project lat lon).1 in
      Ends-IsSnap max_m px py (ix.query px py) (best_of fl ix max_m px py none (ix.query px py))
        (best_of-Ends fl ix max_m px py none (ix.query px py) tt)
