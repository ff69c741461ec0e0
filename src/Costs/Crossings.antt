-- ===== src/Costs/Crossings.antt =====
-- Which straight turns are counted as crossings: the legs that are listed once for a pack, against the
-- approaches of the node.
use mathlib.Core.Option.{some-injective}
use safety_aware_route_plann.Base.{
  ℕ, zero, suc, ◌<◌, Bool, true, false, ◌&&◌, ◌||◌, Option, none, some, List, [], ◌∷◌, ◌++◌, ◌==◌,
  if◌then◌else◌, any, In, ◌≡◌, ◌≢◌, ◌↔◌, ◌⊎◌, refl, sym, ap, subst, ◌∙◌, inl, inr, arith,
  Bool-cases,
}
use safety_aware_route_plann.Float.{Float}
use safety_aware_route_plann.Graph.{
  is_control, no_control, stop_2way, yield, is_observed, GraphPack,
}
use safety_aware_route_plann.Costs.{
  CostConfig, incoming, is_edge, crossed, any_below, legs, is_straight, straight_reversal, ctrl,
  must_stop, confidence, uncontrolled_crossing, crossings, over_tau, edge_busy, edge_major,
}
use safety_aware_route_plann.Costs.Flags.{uncontrolled_crossing_iff}
use safety_aware_route_plann.Costs.Delay.Bounds.{incoming-In}

-- Some element satisfies the mask.
abbrev Some : (ℕ → Type 0) → (ℕ → Bool) → Type 0
Some P mask = (e : ℕ) × P e × (mask e ≡ true)

any_below-Some : (mask : ℕ → Bool) (n : ℕ) → any_below mask n ≡ true → Some (λ e. e < n) mask
unfolding any_below
any_below-Some mask zero h = ground (arith, h)
any_below-Some mask (suc n) h = elim (Bool-cases (mask n)) [
  | inl e ↦ (n, omega arith, e)
  | inr e ↦
      let (m, below, is) = any_below-Some mask n (ground (arith, h, e)) in
      (m, omega (arith, below), is)
]

Some-any_below : (mask : ℕ → Bool) (n e : ℕ) → e < n → mask e ≡ true → any_below mask n ≡ true
unfolding any_below
Some-any_below mask zero e below is = absurd (omega (arith, below))
Some-any_below mask (suc n) e below is = elim (Bool-cases (n == e)) [
  | inl same ↦
      let last : n ≡ e = ground (arith, same) in
      let here : mask n ≡ true = ap mask last ∙ is in rw here refl
  | inr other ↦
      let rest = Some-any_below mask n e (grind (arith, below, other)) is in ground (arith, rest)
]

any-In : (mask : ℕ → Bool) (es : List ℕ) → any mask es ≡ true → Some (λ e. In e es) mask
any-In mask [] h = ground (arith, h)
any-In mask (x ∷ es) h = elim (Bool-cases (mask x)) [
  | inl e ↦ (x, inl refl, e)
  | inr e ↦ let (y, m, is) = any-In mask es (ground (arith, h, e)) in (y, inr m, is)
]

In-any : (mask : ℕ → Bool) (es : List ℕ) (e : ℕ) → In e es → mask e ≡ true → any mask es ≡ true
In-any mask [] e m is = elim m [ ]
In-any mask (x ∷ es) e (inl same) is =
    let here : mask x ≡ true = ap mask (sym same) ∙ is in rw here refl
In-any mask (x ∷ es) e (inr m) is = let rest = In-any mask es e m is in ground (arith, rest)

In-last : (xs : List ℕ) (x e : ℕ) → In e (xs ++ x ∷ []) → In e xs ⊎ (e ≡ x)
In-last [] x e (inl same) = inr same
In-last [] x e (inr m) = elim m [ ]
In-last (y ∷ xs) x e (inl same) = inl (inl same)
In-last (y ∷ xs) x e (inr m) = ground (arith, In-last xs x e m)

In-incoming :
    (edge_head : ℕ → ℕ) (n node e : ℕ)
    → In e (incoming edge_head n node)
    → (e < n) × (edge_head e ≡ node)
unfolding incoming
In-incoming edge_head zero node e m = elim m [ ]
In-incoming edge_head (suc n) node e m = elim (Bool-cases (edge_head n == node)) [
  | inl is ↦
      let listed : In e (incoming edge_head n node ++ n ∷ []) =
        subst
          (λ (b : Bool).
            In e (if b then incoming edge_head n node ++ n ∷ [] else incoming edge_head n node))
          is m in
      elim (In-last (incoming edge_head n node) n e listed) [
        | inl before ↦
            let (below, head) = In-incoming edge_head n node e before in
            (omega (arith, below), head)
        | inr last ↦
            let head : edge_head n ≡ node = ground (arith, is) in
            (omega (arith, last), ap edge_head last ∙ head)
      ]
  | inr other ↦
      let listed : In e (incoming edge_head n node) =
        subst
          (λ (b : Bool).
            In e (if b then incoming edge_head n node ++ n ∷ [] else incoming edge_head n node))
          other m in
      let (below, head) = In-incoming edge_head n node e listed in (omega (arith, below), head)
]

is_edge_iff : (rev : Option ℕ) (e : ℕ) → (is_edge rev e ≡ true) ↔ (rev ≡ some e)
is_edge_iff none e = (λ h. ground (arith, h), λ h. ground (arith, h))
is_edge_iff (some d) e = (
  λ h. ap some (ground (arith, h)),
  λ h. let same : d ≡ e = some-injective _ _ h in ground (arith, same),
)

In-crossed :
    (own : ℕ) (rev : Option ℕ) (es : List ℕ) (e : ℕ)
    → In e (crossed own rev es)
    → In e es × (e ≢ own) × (rev ≢ some e)
unfolding crossed
In-crossed own rev [] e m = elim m [ ]
In-crossed own rev (x ∷ es) e m = elim (Bool-cases (x == own || is_edge rev x)) [
  | inl out ↦
      let listed : In e (crossed own rev es) =
        subst (λ (b : Bool). In e (if b then crossed own rev es else x ∷ crossed own rev es)) out
          m in
      let (i, apart, kept) = In-crossed own rev es e listed in (inr i, apart, kept)
  | inr stays ↦
      let listed : In e (x ∷ crossed own rev es) =
        subst (λ (b : Bool). In e (if b then crossed own rev es else x ∷ crossed own rev es)) stays
          m in
      elim listed [
        | inl here ↦ (
          inl here,
          λ same. ground (arith, stays, here, same),
          λ same.
              let back : is_edge rev x ≡ true = (is_edge_iff rev x).1 (same ∙ ap some here) in
              ground (arith, stays, back),
        )
        | inr there ↦ let (i, apart, kept) = In-crossed own rev es e there in (inr i, apart, kept)
      ]
]

crossed-In :
    (own : ℕ) (rev : Option ℕ) (es : List ℕ) (e : ℕ)
    → In e es
    → e ≢ own
    → rev ≢ some e
    → In e (crossed own rev es)
unfolding crossed
crossed-In own rev [] e m apart kept = elim m [ ]
crossed-In own rev (x ∷ es) e (inr m) apart kept =
    let rest = crossed-In own rev es e m apart kept in
    elim (Bool-cases (x == own || is_edge rev x)) [
      | inl out ↦ rw out rest
      | inr stays ↦ rw stays (inr rest)
    ]
crossed-In own rev (x ∷ es) e (inl here) apart kept =
    elim (Bool-cases (x == own || is_edge rev x)) [
      | inr stays ↦ rw stays (inl here)
      | inl out ↦ elim (Bool-cases (is_edge rev x)) [
        | inl back ↦ absurd (kept ((is_edge_iff rev x).0 back ∙ ap some (sym here)))
        | inr ahead ↦ absurd (apart (ground (arith, out, ahead, here)))
      ]
    ]

-- The two gates are taken apart into their tests.
gates_apart :
    (over along seen free signed held x y : Bool)
    → over && ((along && seen && free) && x || (along && seen && (signed && held)) && y) ≡ true
    → (over ≡ true)
      × (along ≡ true)
      × (seen ≡ true)
      × (((free ≡ true) × (x ≡ true)) ⊎ ((signed ≡ true) × (held ≡ true) × (y ≡ true)))
gates_apart over along seen free signed held x y h = ground (arith, h)

gates_together :
    (over along seen free signed held x y : Bool)
    → over ≡ true
    → along ≡ true
    → seen ≡ true
    → ((free ≡ true) × (x ≡ true)) ⊎ ((signed ≡ true) × (held ≡ true) × (y ≡ true))
    → over && ((along && seen && free) && x || (along && seen && (signed && held)) && y) ≡ true
gates_together over along seen free signed held x y o s w which = ground (arith, o, s, w, which)

module _ (fl : Float) (cfg : CostConfig fl) (pack : GraphPack fl.Val) (volume : ℕ → fl.Val) where
  open pack use {edge_head, edge_reverse, turn_in_edge, turn_out_edge, num_edges, num_turns}

  -- An approach of the turn's node that is neither of the two legs that the turn travels along.
  abbrev pub IsCrossed : ℕ → ℕ → Type 0
  IsCrossed t e =
      (e < num_edges)
      × (edge_head e ≡ edge_head (turn_in_edge t))
      × (e ≢ turn_in_edge t)
      × (edge_reverse (turn_out_edge t) ≢ some e)

  abbrev pub Crosses : (ℕ → Bool) → ℕ → Type 0
  Crosses mask t = (e : ℕ) × IsCrossed t e × (mask e ≡ true)

  legs_iff :
      (mask : ℕ → Bool) (t : ℕ) → (any mask (legs fl cfg pack volume t) ≡ true) ↔ Crosses mask t
  unfolding legs
  legs_iff mask t =
      let own = turn_in_edge t in
      let rev = edge_reverse (turn_out_edge t) in
      let row = incoming edge_head num_edges (edge_head (turn_in_edge t)) in
      (
        λ h.
            let (e, m, is) = any-In mask (crossed own rev row) h in
            let (i, apart, kept) = In-crossed own rev row e m in
            let (below, head) = In-incoming edge_head num_edges _ e i in
            (e, (below, head, apart, kept), is),
        λ (e, (below, head, apart, kept), is).
            In-any mask (crossed own rev row) e
              (crossed-In own rev row e (incoming-In edge_head num_edges _ e below head) apart kept)
              is,
      )

  -- What is counted as a crossing.
  abbrev pub IsCounted : ℕ → Type 0
  IsCounted t =
      (over_tau fl cfg pack volume t ≡ true)
      × (is_straight fl cfg pack volume t ≡ true)
      × (is_observed (confidence fl cfg pack volume t) ≡ true)
      × (((is_control (ctrl fl cfg pack volume t) no_control ≡ true)
            × Crosses (edge_busy fl cfg pack volume) t)
          ⊎ ((is_control (ctrl fl cfg pack volume t) stop_2way
                  || is_control (ctrl fl cfg pack volume t) yield
                ≡ true)
              × (must_stop fl cfg pack volume t ≡ true)
              × Crosses (edge_major fl cfg pack volume) t))

  IsCounted-crossing : (t : ℕ) → (uncontrolled_crossing fl cfg pack volume t ≡ true) ↔ IsCounted t
  IsCounted-crossing t =
      let e = uncontrolled_crossing_iff fl cfg pack volume t in
      let busy = legs_iff (edge_busy fl cfg pack volume) t in
      let major = legs_iff (edge_major fl cfg pack volume) t in
      let over = over_tau fl cfg pack volume t in
      let along = is_straight fl cfg pack volume t in
      let seen = is_observed (confidence fl cfg pack volume t) in
      let free = is_control (ctrl fl cfg pack volume t) no_control in
      let signed =
        is_control (ctrl fl cfg pack volume t) stop_2way
        || is_control (ctrl fl cfg pack volume t) yield in
      let held = must_stop fl cfg pack volume t in
      let x = any (edge_busy fl cfg pack volume) (legs fl cfg pack volume t) in
      let y = any (edge_major fl cfg pack volume) (legs fl cfg pack volume t) in
      (
        λ h.
            let (o, s, w, which) = gates_apart over along seen free signed held x y (sym e ∙ h) in
            (
              o,
              s,
              w,
              elim which [
                | inl (n, is) ↦ inl (n, busy.0 is)
                | inr (u, m, is) ↦ inr (u, m, major.0 is)
              ],
            ),
        λ (o, s, w, which).
            e
            ∙ gates_together over along seen free signed held x y o s w (elim which [
              | inl (n, some_busy) ↦ inl (n, busy.1 some_busy)
              | inr (u, m, some_major) ↦ inr (u, m, major.1 some_major)
            ]),
      )

  -- The statics of a pack are built exactly if no straight of it leaves along the reverse of its
  -- in-edge. Then a turn is counted as a crossing exactly if it scores at least the threshold, is a
  -- straight whose control was observed, and has no control and a busy approach to cross, or holds a
  -- stop or give-way line and has a major one to cross: an approach of its node other than its own and
  -- than the reverse of its out-edge.
  pub crossings_iff :
      ((crossings fl cfg pack volume ≡ none) ↔ (
        (t : ℕ) × (t < num_turns)
        × (is_straight fl cfg pack volume t ≡ true)
        × (edge_reverse (turn_out_edge t) ≡ some (turn_in_edge t))))
      × ((counted : ℕ → Bool)
          → crossings fl cfg pack volume ≡ some counted
          → (t : ℕ) → (counted t ≡ true) ↔ IsCounted t)
  unfolding crossings
  crossings_iff = elim (Bool-cases (any_below (straight_reversal fl cfg pack volume) num_turns)) [
    | inl raised ↦
        let (t, below, is) =
          any_below-Some (straight_reversal fl cfg pack volume) num_turns raised in
        let back =
          (is_edge_iff (edge_reverse (turn_out_edge t)) (turn_in_edge t)).0 (ground (arith, is)) in
        rw raised
          ((λ h. (t, below, ground (arith, is), back), λ h. refl), λ counted h. ground (arith, h))
    | inr built ↦ rw built (
      (
        λ h. ground (arith, h),
        λ (t, below, along, back).
            let turned = (is_edge_iff (edge_reverse (turn_out_edge t)) (turn_in_edge t)).1 back in
            let raised =
              Some-any_below (straight_reversal fl cfg pack volume) num_turns t below
                (ground (arith, along, turned)) in
            let bad : false ≡ true = sym built ∙ raised in ground (arith, bad),
      ),
      λ counted h t.
          subst (λ (f : ℕ → Bool). (f t ≡ true) ↔ IsCounted t) (some-injective _ _ h)
            (IsCounted-crossing t),
    )
  ]
