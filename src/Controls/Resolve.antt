-- ===== src/Controls/Resolve.antt =====
-- Who must stop at a junction.
use safety_aware_route_plann.Base.{
  ℕ, ◌≤◌, Bool, true, false, ◌||◌, none, List, [], ◌∷◌, ◌==◌, ltb, length, any, all, In, ◌≡◌, ◌≢◌,
  refl, sym, subst, ◌⊎◌, inl, inr, arith, Bool-cases, ltb→le, ltb→lt, lt→ltb, le→ltb,
}
use safety_aware_route_plann.Graph.{
  Control, stop_2way, stop_4way, signal_permissive, roundabout, yield, is_control,
}
use safety_aware_route_plann.Controls.{
  min_rank, all_same, resolve_approach, Kinds, Arm, ApproachControl, arm_control, JunctionKind,
  junction_signal, junction_mini_roundabout,
}

min_rank-In : (r : ℕ) (ranks : List ℕ) → In (min_rank (r ∷ ranks)) (r ∷ ranks)
unfolding min_rank
min_rank-In r [] = inl refl
min_rank-In r (s ∷ ranks) = elim (Bool-cases (ltb r (min_rank (s ∷ ranks)))) [
  | inl e ↦
      let first : r ≡ min_rank (r ∷ s ∷ ranks) = sym (rw (e, min_rank) refl) in
      subst (λ x. In x (r ∷ s ∷ ranks)) first (inl refl)
  | inr e ↦
      let rest : min_rank (s ∷ ranks) ≡ min_rank (r ∷ s ∷ ranks) = sym (rw (e, min_rank) refl) in
      subst (λ x. In x (r ∷ s ∷ ranks)) rest (inr (min_rank-In s ranks))
]

min_rank-le : (r : ℕ) (ranks : List ℕ) (x : ℕ) → In x (r ∷ ranks) → min_rank (r ∷ ranks) ≤ x
unfolding min_rank
min_rank-le r [] x m = ground (arith, m)
min_rank-le r (s ∷ ranks) x (inl e) = elim (Bool-cases (ltb r (min_rank (s ∷ ranks)))) [
  | inl f ↦ rw (f, e) (omega arith)
  | inr f ↦ rw (f, e) (ltb→le r (min_rank (s ∷ ranks)) f)
]
min_rank-le r (s ∷ ranks) x (inr m) =
    let rest : min_rank (s ∷ ranks) ≤ x = min_rank-le s ranks x m in
    elim (Bool-cases (ltb r (min_rank (s ∷ ranks)))) [
      | inl f ↦ rw f (omega (arith, ltb→lt r (min_rank (s ∷ ranks)) f, rest))
      | inr f ↦ rw f rest
    ]

other_rank :
    (r : ℕ) (ranks : List ℕ) → all (λ s. s == r) ranks ≡ false → (x : ℕ) × In x ranks × (x ≢ r)
other_rank r [] h = ground arith
other_rank r (s ∷ ranks) h = elim (Bool-cases (s == r)) [
  | inl e ↦ let (x, m, ne) = other_rank r ranks (ground (arith, h, e)) in (x, inr m, ne)
  | inr e ↦ (s, inl refl, λ same. ground (arith, e, same))
]

-- At a junction with a two-way stop or a give-way whose approaches are not all of one rank, some
-- approach must stop and some approach keeps the priority.
pub resolve_approach-splits :
    (c : Control) (r : ℕ) (ranks : List ℕ)
    → is_control c stop_2way || is_control c yield ≡ true
    → all_same (r ∷ ranks) ≡ false
    → ((x : ℕ) × In x (r ∷ ranks) × (resolve_approach c x (r ∷ ranks) ≡ (c, true)))
      × ((x : ℕ) × In x (r ∷ ranks) × (resolve_approach c x (r ∷ ranks) ≡ (c, false)))
unfolding resolve_approach
resolve_approach-splits c r ranks two mixed =
    let least : ℕ = min_rank (r ∷ ranks) in
    let (x, m, ne) = other_rank r ranks mixed in
    let low_r : least ≤ r = min_rank-le r ranks r (inl refl) in
    let low_x : least ≤ x = min_rank-le r ranks x (inr m) in
    (
      elim (Bool-cases (ltb least r)) [
        | inl above ↦ (r, inl refl, rw (two, mixed, above))
        | inr not_above ↦
            let above : ltb least x ≡ true =
              lt→ltb least x (grind (arith, ltb→le least r not_above, low_r, low_x, ne)) in
            (x, inr m, rw (two, mixed, above))
      ],
      (least, min_rank-In r ranks, rw (two, mixed, le→ltb least least (omega arith))),
    )

-- A control for each arm by what was seen on it.
unfoldable pub by_kinds : (Kinds → ApproachControl) → List Arm → List (ℕ × ApproachControl)
by_kinds f [] = []
by_kinds f (a ∷ arms) = (a.far, f a.kinds) ∷ by_kinds f arms

abbrev kinds_control : Bool → Kinds → ApproachControl
kinds_control any_stop k = arm_control any_stop (record { far = 0; kinds = k; street = none })

-- What the junction itself decides, from its kind, its `stop=all` and the evidence on its arms.
module _ (kind : JunctionKind) (stop_all : Bool) (arms : List Arm) where
  abbrev pub HasSignals : Type 0
  HasSignals = (kind ≡ junction_signal) ⊎ (any (λ (a : Arm). a.kinds.has_signal) arms ≡ true)

  abbrev pub IsAllWay : Type 0
  IsAllWay =
      (any (λ (a : Arm). a.kinds.has_stop) arms ≡ true)
      × ((stop_all ≡ true)
          ⊎ ((3 ≤ length arms) × (all (λ (a : Arm). a.kinds.has_stop) arms ≡ true)))

  -- What a rule from kinds to controls may say.
  pub record IsFair (f : Kinds → ApproachControl) : Type 0 where
    pub lit :
        HasSignals → (k : Kinds) → ((f k).control ≡ signal_permissive) × ((f k).must_stop ≡ false)
    pub round :
        kind ≡ junction_mini_roundabout
        → (HasSignals → ⊥)
        → (k : Kinds) → ((f k).control ≡ roundabout) × ((f k).must_stop ≡ false)
    pub stopped :
        IsAllWay
        → (HasSignals → ⊥)
        → kind ≢ junction_mini_roundabout
        → (k : Kinds) → ((f k).control ≡ stop_4way) × ((f k).must_stop ≡ true)
    pub held :
        (k : Kinds)
        → k.has_stop ≡ true
        → ((f k).must_stop ≡ true)
          ⊎ (((f k).control ≡ signal_permissive) × HasSignals)
          ⊎ (((f k).control ≡ roundabout) × (kind ≡ junction_mini_roundabout))
    pub seen :
        (k : Kinds)
        → (f k).must_stop ≡ true
        → (((f k).control ≡ stop_4way) × IsAllWay) ⊎ (k.has_stop ≡ true) ⊎ (k.has_give_way ≡ true)

abbrev signals_rule : Kinds → ApproachControl
signals_rule k = record { control = signal_permissive; must_stop = false }

abbrev circle_rule : Kinds → ApproachControl
circle_rule k = record { control = roundabout; must_stop = false }

abbrev all_way_rule : Kinds → ApproachControl
all_way_rule k = record { control = stop_4way; must_stop = true }

module _ (kind : JunctionKind) (stop_all : Bool) (arms : List Arm) where
  abbrev lit_arms : Bool
  lit_arms = any (λ (a : Arm). a.kinds.has_signal) arms
