-- ===== src/Costs/Delay/Bounds.antt =====
-- The delay is never negative, and at most its fixed wait and the cap; of two roads that cross, at
-- most one is major.
use safety_aware_route_plann.Base.{
  ℕ, zero, suc, ◌≤◌, ◌<◌, Bool, true, false, List, [], ◌∷◌, ◌++◌, ◌==◌, In, all, ◌≡◌, refl, sym,
  subst, inl, inr, arith, Bool-cases, ltb→lt, ltb→le,
}
use safety_aware_route_plann.Float.{Float, lt, Le, IsMonotone, IsScaled}
use safety_aware_route_plann.Graph.{GraphPack}
use safety_aware_route_plann.Costs.{incoming, fmax, fmin}
use safety_aware_route_plann.Costs.Delay.{
  DelayConfig, delay_when, major, own_road, outranks, num_legs, yields_none, conflicts, gap_wait,
  adams_delay_s, delay_fixed_s, control_delay_s,
}

all-In : (p : ℕ → Bool) (xs : List ℕ) (x : ℕ) → all p xs ≡ true → In x xs → p x ≡ true
all-In p [] x h m = elim m [ ]
all-In p (y ∷ xs) x h (inl e) = ground (arith, h, e)
all-In p (y ∷ xs) x h (inr m) = all-In p xs x (ground (arith, h)) m

In-last : (xs : List ℕ) (x : ℕ) → In x (xs ++ x ∷ [])
In-last [] x = inl refl
In-last (y ∷ xs) x = inr (In-last xs x)

In-append : (xs ys : List ℕ) (x : ℕ) → In x xs → In x (xs ++ ys)
In-append [] ys x m = elim m [ ]
In-append (y ∷ xs) ys x (inl e) = inl e
In-append (y ∷ xs) ys x (inr m) = inr (In-append xs ys x m)

pub incoming-In :
    (edge_head : ℕ → ℕ) (n node e : ℕ)
    → e < n
    → edge_head e ≡ node
    → In e (incoming edge_head n node)
unfolding incoming
incoming-In edge_head zero node e lt h = absurd (omega (arith, lt))
incoming-In edge_head (suc n) node e lt h =
    let rest = incoming edge_head n node in
    elim (Bool-cases (edge_head n == node)) [
      | inr f ↦
          let less : e < n = elim (Bool-cases (e == n)) [
            | inl same ↦
                let here : e ≡ n = ground (arith, same) in
                let there : edge_head n ≡ node = subst (λ x. edge_head x ≡ node) here h in
                ground (arith, f, there)
            | inr apart ↦ ground (arith, lt, apart)
          ] in
          rw f (incoming-In edge_head n node e less h)
      | inl f ↦ elim (Bool-cases (e == n)) [
        | inl same ↦
            let here : n ≡ e = ground (arith, same) in
            rw f (subst (λ x. In x (rest ++ n ∷ [])) here (In-last rest n))
        | inr apart ↦
            let less : e < n = ground (arith, lt, apart) in
            rw f (In-append rest (n ∷ []) e (incoming-In edge_head n node e less h))
      ]
    ]

-- No order of the ranks, and no through road, lets two approaches outrank each other.
outranks-asymmetric :
    {V : Type 0} (pack : GraphPack V) (i j : ℕ)
    → outranks pack i j ≡ true
    → outranks pack j i ≡ true
    → ⊥
unfolding outranks
outranks-asymmetric pack i j h k = ground (arith, h, k)

-- At a junction of three or more legs, two approaches of which neither is of the other's road are
-- not both major.
pub major-once :
    {V : Type 0} (pack : GraphPack V) (i j : ℕ)
    → i < pack.num_edges
    → j < pack.num_edges
    → pack.edge_head i ≡ pack.edge_head j
    → 3 ≤ num_legs pack (pack.edge_head i)
    → own_road pack i j ≡ false
    → own_road pack j i ≡ false
    → major pack i ≡ true
    → major pack j ≡ false
unfolding major
major-once pack i j hi hj same legs ij ji major_i =
    let at_i = incoming pack.edge_head pack.num_edges (pack.edge_head i) in
    let at_j = incoming pack.edge_head pack.num_edges (pack.edge_head j) in
    let legs_j : 3 ≤ num_legs pack (pack.edge_head j) =
      subst (λ n. 3 ≤ num_legs pack n) same legs in
    let all_i : all (yields_none pack i) at_i ≡ true = ground (arith, major_i, legs) in
    let there : In j at_i =
      incoming-In pack.edge_head pack.num_edges (pack.edge_head i) j hj (sym same) in
    let one : outranks pack i j ≡ true =
      ground (arith, all-In (yields_none pack i) at_i j all_i there, ij) in
    elim (Bool-cases (all (yields_none pack j) at_j)) [
      | inr e ↦ ground (arith, e, legs_j)
      | inl e ↦
          let here : In i at_j =
            incoming-In pack.edge_head pack.num_edges (pack.edge_head j) i hi same in
          let two : outranks pack j i ≡ true =
            ground (arith, all-In (yields_none pack j) at_j i e here, ji) in
          absurd (outranks-asymmetric pack i j one two)
    ]

module _ (fl : Float) (laws : IsScaled fl) (mono : IsMonotone fl) (cd : DelayConfig fl) where
  open fl use {Val, zero_val, add, div}

  -- What the bound needs of the division: a quotient of what is not negative is not negative.
  abbrev pub DividesUp : Type 0
  DividesUp = (a b : Val) → Le fl zero_val a → Le fl zero_val b → Le fl zero_val (div a b)

  fmin-bounds :
      (a b : Val)
      → Le fl zero_val a
      → Le fl zero_val b
      → Le fl zero_val (fmin fl a b) × Le fl (fmin fl a b) b
  fmin-bounds a b h k = elim (Bool-cases (lt fl b a)) [
    | inl e ↦ rw e (k, omega arith)
    | inr e ↦ rw e (h, ltb→le (fl.rank b) (fl.rank a) e)
  ]

  fmax-zero : (x : Val) → Le fl zero_val (fmax fl x zero_val)
  fmax-zero x = elim (Bool-cases (lt fl x zero_val)) [
    | inl e ↦ rw e (omega arith)
    | inr e ↦ rw e (ltb→le (fl.rank x) (fl.rank zero_val) e)
  ]

  -- Adams' wait: whatever the polynomial gives, it is between zero and the cap.
  adams-bounds :
      (q t_c : Val)
      → DividesUp
      → Le fl zero_val cd.cap_s
      → Le fl zero_val (adams_delay_s fl cd q t_c) × Le fl (adams_delay_s fl cd q t_c) cd.cap_s
  unfolding adams_delay_s
  adams-bounds q t_c up cap = elim (Bool-cases (lt fl zero_val q)) [
    | inr e ↦ rw e (fmin-bounds zero_val cd.cap_s (omega arith) cap)
    | inl e ↦
        let less = ltb→lt (fl.rank zero_val) (fl.rank q) e in
        rw e (fmin-bounds _ cd.cap_s (up _ q (fmax-zero _) (omega (arith, less))) cap)
  ]

  add_both : (a b : Val) → Le fl zero_val a → Le fl zero_val b → Le fl zero_val (add a b)
  add_both a b h k =
      subst (λ x. Le fl x (add a b)) (laws.add_zero zero_val)
        (mono.add_mono zero_val a zero_val b h k)

  fixed-bounds :
      (a b c : Bool) (x y z : Val)
      → Le fl zero_val x
      → Le fl zero_val y
      → Le fl zero_val z
      → Le fl zero_val (delay_when a x (delay_when b y (delay_when c z zero_val)))
  fixed-bounds a b c x y z h k l = ground (arith, h, k, l)

  gap_wait-bounds :
      (pack : GraphPack Val) (volume_vph_lane : ℕ → Val) (t : ℕ) (legs : List ℕ) (fixed : Val)
      → DividesUp
      → Le fl zero_val cd.cap_s
      → Le fl zero_val fixed
      → Le fl zero_val (gap_wait fl cd pack volume_vph_lane t legs fixed)
        × Le fl (gap_wait fl cd pack volume_vph_lane t legs fixed) (add fixed cd.cap_s)
  gap_wait-bounds pack volume_vph_lane t [] fixed up cap h = (
    h,
    subst (λ x. Le fl x (add fixed cd.cap_s)) (laws.add_zero fixed)
        (mono.add_mono fixed fixed zero_val cd.cap_s (omega arith) cap),
  )
  gap_wait-bounds pack volume_vph_lane t (e ∷ es) fixed up cap h =
      let (low, high) = adams-bounds _ _ up cap in
      (add_both _ _ h low, mono.add_mono fixed fixed _ cd.cap_s (omega arith) high)

  -- If the fixed waits and the cap are not negative, no control delay is negative, and none exceeds
  -- the turn's fixed wait and the cap on a gap wait.
  pub control_delay_s-bounds :
      (pack : GraphPack Val) (volume_vph_lane : ℕ → Val) (t : ℕ)
      → DividesUp
      → Le fl zero_val cd.cap_s
      → Le fl zero_val cd.all_way_stop_s
      → Le fl zero_val cd.signal_major_s
      → Le fl zero_val cd.signal_minor_s
      → Le fl zero_val (control_delay_s fl cd pack volume_vph_lane t)
        × Le fl
            (control_delay_s fl cd pack volume_vph_lane t)
            (add (delay_fixed_s fl cd pack t) cd.cap_s)
  unfolding control_delay_s
  control_delay_s-bounds pack volume_vph_lane t up cap way major_s minor_s =
      let fixed : Le fl zero_val (delay_fixed_s fl cd pack t) =
        unfold delay_fixed_s in
        fixed-bounds _ _ _ cd.signal_minor_s cd.signal_major_s cd.all_way_stop_s minor_s major_s
          way in
      gap_wait-bounds pack volume_vph_lane t (conflicts pack t) (delay_fixed_s fl cd pack t) up cap
        fixed
