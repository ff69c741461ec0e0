-- ===== src/Turns/Table.antt =====
-- Which turns the table holds, and which of them are allowed.
use safety_aware_route_plann.Base.{
  ℕ, zero, suc, ◌+◌, ◌≤◌, ◌<◌, false, not, ◌&&◌, List, [], ◌∷◌, ◌++◌, ◌==◌, ltb, In, ◌≡◌, ◌↔◌, refl,
  sym, ap, subst, ◌⊎◌, inl, inr, arith, Bool-cases,
}
use safety_aware_route_plann.Float.{Float}
use safety_aware_route_plann.Graph.{Maneuver, uturn, is_maneuver}
use safety_aware_route_plann.Turns.{
  Angles, Edges, Turn, classify_maneuver, turn_row, rows, out_degree, rows_of, turns_below,
  build_turn_table,
}

In-append : {A : Type 0} (x : A) (xs ys : List A) → In x (xs ++ ys) → In x xs ⊎ In x ys
In-append x [] ys m = inr m
In-append x (y ∷ xs) ys (inl e) = inl (inl e)
In-append x (y ∷ xs) ys (inr m) = elim (In-append x xs ys m) [ inl a ↦ inl (inr a) | inr b ↦ inr b ]

In-left : {A : Type 0} (x : A) (xs ys : List A) → In x xs → In x (xs ++ ys)
In-left x [] ys m = elim m [ ]
In-left x (y ∷ xs) ys (inl e) = inl e
In-left x (y ∷ xs) ys (inr m) = inr (In-left x xs ys m)

In-right : {A : Type 0} (x : A) (xs ys : List A) → In x ys → In x (xs ++ ys)
In-right x [] ys m = m
In-right x (y ∷ xs) ys m = inr (In-right x xs ys m)

forbidden_iff :
    (m : Maneuver) (d : ℕ)
    → (not (is_maneuver m uturn && ltb 1 d) ≡ false) ↔ ((m ≡ uturn) × (1 < d))
forbidden_iff m d = ground arith

module _ (fl : Float) (g : Angles fl) (es : Edges fl g) where
  -- A turn leaves the head of its in-edge by one of its out-edges.
  abbrev pub Leaves : ℕ → ℕ → Type 0
  Leaves e e2 =
      (es.node_out_ptr (es.edge_head e) ≤ e2) × (e2 < es.node_out_ptr (es.edge_head e + 1))

  rows-In :
      (d e lo n : ℕ) (t : Turn fl g)
      → In t (rows fl g es d e lo n)
      → (e2 : ℕ) × (lo ≤ e2) × (e2 < lo + n) × (t ≡ turn_row fl g es d e e2)
  unfolding rows
  rows-In d e lo zero t m = elim m [ ]
  rows-In d e lo (suc n) t (inl h) = (lo, omega arith, omega arith, h)
  rows-In d e lo (suc n) t (inr m) =
      let (e2, low, high, h) = rows-In d e (lo + 1) n t m in
      (e2, omega (arith, low), omega (arith, high), h)

  In-rows :
      (d e lo n e2 : ℕ)
      → lo ≤ e2
      → e2 < lo + n
      → In (turn_row fl g es d e e2) (rows fl g es d e lo n)
  unfolding rows
  In-rows d e lo zero e2 low high = ground (arith, low, high)
  In-rows d e lo (suc n) e2 low high = elim (Bool-cases (lo == e2)) [
    | inl s ↦ let same : e2 ≡ lo = ground (arith, s) in inl (ap (turn_row fl g es d e) same)
    | inr s ↦ inr (In-rows d e (lo + 1) n e2 (ground (arith, low, s)) (omega (arith, high)))
  ]

  turns_below-In :
      (n : ℕ) (t : Turn fl g)
      → In t (turns_below fl g es n)
      → (e : ℕ) × (e < n) × In t (rows_of fl g es e)
  unfolding turns_below
  turns_below-In zero t m = elim m [ ]
  turns_below-In (suc n) t m = elim (In-append t (turns_below fl g es n) (rows_of fl g es n) m) [
    | inl a ↦ let (e, h, k) = turns_below-In n t a in (e, omega (arith, h), k)
    | inr b ↦ (n, omega arith, b)
  ]

  In-turns_below :
      (n e : ℕ) (t : Turn fl g) → e < n → In t (rows_of fl g es e) → In t (turns_below fl g es n)
  unfolding turns_below
  In-turns_below zero e t h m = ground (arith, h)
  In-turns_below (suc n) e t h m = elim (Bool-cases (e == n)) [
    | inl s ↦
        let same : e ≡ n = ground (arith, s) in
        In-right t (turns_below fl g es n) (rows_of fl g es n)
          (subst (λ i. In t (rows_of fl g es i)) same m)
    | inr s ↦
        In-left t (turns_below fl g es n) (rows_of fl g es n)
          (In-turns_below n e t (ground (arith, h, s)) m)
  ]

  -- The table has a row for an edge and every edge that leaves its head; every row is of that form;
  -- and a row is forbidden exactly if it is a U-turn where the head has another way out.
  pub build_turn_table_complete :
      ((e e2 : ℕ)
        → e < es.num_edges
        → Leaves e e2
        → (t : Turn fl g) × In t (build_turn_table fl g es) × (t.in_edge ≡ e) × (t.out_edge ≡ e2))
      × ((t : Turn fl g)
          → In t (build_turn_table fl g es)
          → (t.in_edge < es.num_edges)
            × Leaves t.in_edge t.out_edge
            × ((t.allowed ≡ false) ↔ ((t.maneuver ≡ uturn) × (1 < out_degree fl g es t.in_edge))))
  unfolding build_turn_table rows_of turn_row
  build_turn_table_complete = (
    λ e e2 h leaves.
        let t : Turn fl g = turn_row fl g es (out_degree fl g es e) e e2 in
        (
          t,
          In-turns_below es.num_edges e t h (
              In-rows (out_degree fl g es e) e (es.node_out_ptr (es.edge_head e))
                (out_degree fl g es e) e2 leaves.0 (omega (arith, leaves.0, leaves.1))),
          refl,
          refl,
        ),
    λ t m.
        let (e, h, row) = turns_below-In es.num_edges t m in
        let (e2, low, high, same) =
          rows-In (out_degree fl g es e) e (es.node_out_ptr (es.edge_head e)) (out_degree fl g es e)
            t row in
        subst
          (λ (u : Turn fl g).
            (u.in_edge < es.num_edges)
            × Leaves u.in_edge u.out_edge
            × ((u.allowed ≡ false) ↔ ((u.maneuver ≡ uturn) × (1 < out_degree fl g es u.in_edge))))
          (sym same)
          (
            h,
            (low, omega (arith, low, high)),
            forbidden_iff (classify_maneuver fl g _ _) (out_degree fl g es e),
          ),
  )
