-- ===== src/Costs/Flags.antt =====
-- Which turns are counted as unsafe, and how they are painted.
use safety_aware_route_plann.Base.{
  ℕ, zero, suc, Bool, true, false, ◌&&◌, ◌||◌, List, [], ◌∷◌, ◌++◌, if◌then◌else◌, any, ◌≡◌, ◌≢◌,
  ◌↔◌, refl, sym, ap, ◌∙◌, inl, inr, arith, Bool-cases, List-cases,
}
use safety_aware_route_plann.Float.{Float}
use safety_aware_route_plann.Graph.{is_observed, GraphPack}
use safety_aware_route_plann.Costs.{
  CostConfig, unsafe_none, tier_unsafe, repeat, padded, legs, busy_gate, major_gate, scatter,
  uncontrolled_crossing, unprotected_left, turn_unsafe_type, turn_tier, over_tau, edge_busy,
  edge_major, confidence,
}

any-repeat : (mask : ℕ → Bool) (e n : ℕ) → mask e || any mask (repeat n e) ≡ mask e
unfolding repeat
any-repeat mask e zero = ground arith
any-repeat mask e (suc n) = ground (arith, any-repeat mask e n)

any-append : (mask : ℕ → Bool) (xs ys : List ℕ) → any mask (xs ++ ys) ≡ any mask xs || any mask ys
any-append mask [] ys = refl
any-append mask (x ∷ xs) ys = ground (arith, any-append mask xs ys)

-- A repeat cannot change an `any`.
padded-any :
    (mask : ℕ → Bool) (n e : ℕ) (es : List ℕ) → any mask (e ∷ es ++ repeat n e) ≡ any mask (e ∷ es)
padded-any mask n e es = rw (any-append mask es (repeat n e)) (ground (arith, any-repeat mask e n))

any-some : (mask : ℕ → Bool) (es : List ℕ) → any mask es ≡ true → any (λ e. true) es ≡ true
any-some mask [] h = h
any-some mask (e ∷ es) h = ground arith

-- The two writes, on an array that holds false.
writes :
    (b m o some_leg busy major : Bool)
    → b && m ≡ false
    → (busy ≡ true → some_leg ≡ true)
    → (major ≡ true → some_leg ≡ true)
    → (if m && some_leg then o && major else if b && some_leg then o && busy else false)
      ≡ o && (b && busy || m && major)
writes b m o some_leg busy major h k l = ground arith

module _ (fl : Float) (cfg : CostConfig fl) (pack : GraphPack fl.Val) (volume : ℕ → fl.Val) where
  scatter-any :
      (gate mask : ℕ → Bool) (t : ℕ) (old : Bool)
      → scatter fl cfg pack volume gate mask t old ≡ (
          if gate t && any (λ e. true) (legs fl cfg pack volume t)
          then over_tau fl cfg pack volume t && any mask (legs fl cfg pack volume t)
          else old)
  unfolding scatter padded
  scatter-any gate mask t old = elim (Bool-cases (gate t)) [
    | inr g ↦ rw (g, scatter) refl
    | inl g ↦ elim (List-cases (legs fl cfg pack volume t)) [
      | inl e ↦ rw (g, e, scatter) refl
      | inr (x, rest, e) ↦
          rw (g, e, scatter)
            (ap (λ b. over_tau fl cfg pack volume t && b) (padded-any mask _ x rest))
    ]
  ]

  -- The gates are disjoint.
  gates : (t : ℕ) → busy_gate fl cfg pack volume t && major_gate fl cfg pack volume t ≡ false
  gates t = ground arith

  -- The padding of the legs and the order of the two writes make no difference.
  pub uncontrolled_crossing_iff :
      (t : ℕ)
      → uncontrolled_crossing fl cfg pack volume t
        ≡ over_tau fl cfg pack volume t
          && (busy_gate fl cfg pack volume t
                && any (edge_busy fl cfg pack volume) (legs fl cfg pack volume t)
              || major_gate fl cfg pack volume t
                && any (edge_major fl cfg pack volume) (legs fl cfg pack volume t))
  unfolding uncontrolled_crossing
  uncontrolled_crossing_iff t =
      scatter-any (major_gate fl cfg pack volume) (edge_major fl cfg pack volume) t _
      ∙ ap
          (λ old.
            if major_gate fl cfg pack volume t && any (λ e. true) (legs fl cfg pack volume t)
            then over_tau fl cfg pack volume t
              && any (edge_major fl cfg pack volume) (legs fl cfg pack volume t)
            else old)
          (scatter-any (busy_gate fl cfg pack volume) (edge_busy fl cfg pack volume) t false)
      ∙ writes (busy_gate fl cfg pack volume t) (major_gate fl cfg pack volume t)
          (over_tau fl cfg pack volume t) (any (λ e. true) (legs fl cfg pack volume t))
          (any (edge_busy fl cfg pack volume) (legs fl cfg pack volume t))
          (any (edge_major fl cfg pack volume) (legs fl cfg pack volume t)) (gates t)
          (any-some (edge_busy fl cfg pack volume) (legs fl cfg pack volume t))
          (any-some (edge_major fl cfg pack volume) (legs fl cfg pack volume t))

  crossing-observed :
      (t : ℕ)
      → uncontrolled_crossing fl cfg pack volume t ≡ true
      → over_tau fl cfg pack volume t && is_observed (confidence fl cfg pack volume t) ≡ true
  crossing-observed t h = let e = sym (uncontrolled_crossing_iff t) ∙ h in ground (arith, e)

  unsafe-observed :
      (t : ℕ)
      → turn_unsafe_type fl cfg pack volume t ≢ unsafe_none
      → over_tau fl cfg pack volume t && is_observed (confidence fl cfg pack volume t) ≡ true
  unfolding turn_unsafe_type unprotected_left
  unsafe-observed t h = elim (Bool-cases (uncontrolled_crossing fl cfg pack volume t)) [
    | inl e ↦ crossing-observed t e
    | inr e ↦ ground (arith, e)
  ]

  tier-observed :
      (t : ℕ)
      → (turn_tier fl cfg pack volume t ≡ tier_unsafe)
        ↔ (over_tau fl cfg pack volume t && is_observed (confidence fl cfg pack volume t) ≡ true)
  unfolding turn_tier
  tier-observed t = ground arith

  -- A turn that is counted as unsafe has an observed control and a score of at least the threshold,
  -- and is painted unsafe; and a turn is painted unsafe exactly if both hold: a guess never is.
  pub flags-agree :
      (t : ℕ)
      → (turn_unsafe_type fl cfg pack volume t ≢ unsafe_none
          → turn_tier fl cfg pack volume t ≡ tier_unsafe)
        × ((turn_tier fl cfg pack volume t ≡ tier_unsafe) ↔ (
            over_tau fl cfg pack volume t && is_observed (confidence fl cfg pack volume t) ≡ true))
  flags-agree t = (λ h. (tier-observed t).1 (unsafe-observed t h), tier-observed t)
