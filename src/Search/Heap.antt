-- ===== src/Search/Heap.antt =====
-- The heap in order: what a push keeps, and that the head is least.
use safety_aware_route_plann.Base.{
  ◌≤◌, ◌≡◌, refl, true, false, List, [], ◌∷◌, In, inl, inr, Bool-cases, arith, All, All-In, subst,
  sym,
}
use safety_aware_route_plann.Float.{Float}
use safety_aware_route_plann.Search.{Entry, entry_lt, heappush}
use safety_aware_route_plann.Search.Topo.{All-heappush}

module _ (fl : Float) where
  open fl use {rank}

  abbrev pub IsSorted : List (Entry fl) → Type 0
  IsSorted [] = Unit
  IsSorted (x ∷ xs) = All (λ y. rank x.f ≤ rank y.f) xs × IsSorted xs

  entry_lt-le : (x y : Entry fl) → entry_lt fl x y ≡ true → rank x.f ≤ rank y.f
  entry_lt-le x y h = ground arith

  not-entry_lt-le : (x y : Entry fl) → entry_lt fl x y ≡ false → rank y.f ≤ rank x.f
  not-entry_lt-le x y h = ground arith

  All-le :
      (x y : Entry fl) (ys : List (Entry fl))
      → rank x.f ≤ rank y.f
      → All (λ z. rank y.f ≤ rank z.f) ys
      → All (λ z. rank x.f ≤ rank z.f) ys
  All-le x y [] h a = tt
  All-le x y (z ∷ zs) h a = (omega arith, All-le x y zs h a.1)

  pub heappush-IsSorted :
      (h : List (Entry fl)) (x : Entry fl) → IsSorted h → IsSorted (heappush fl h x)
  unfolding heappush
  heappush-IsSorted [] x s = (tt, tt)
  heappush-IsSorted (y ∷ ys) x s = elim (Bool-cases (entry_lt fl x y)) [
    | inl e ↦ let le = entry_lt-le x y e in rw (e, heappush) ((le, All-le x y ys le s.0), s)
    | inr e ↦
        rw (e, heappush)
          (
            All-heappush fl (λ z. rank y.f ≤ rank z.f) ys x s.0 (not-entry_lt-le x y e),
            heappush-IsSorted ys x s.1,
          )
  ]

  pub In-heappush_self : (h : List (Entry fl)) (x : Entry fl) → In x (heappush fl h x)
  unfolding heappush
  In-heappush_self [] x = inl refl
  In-heappush_self (y ∷ ys) x = elim (Bool-cases (entry_lt fl x y)) [
    | inl e ↦ rw (e, heappush) (inl refl)
    | inr e ↦ rw (e, heappush) (inr (In-heappush_self ys x))
  ]

  pub In-heappush : (h : List (Entry fl)) (x a : Entry fl) → In a h → In a (heappush fl h x)
  unfolding heappush
  In-heappush [] x a m = elim m [ ]
  In-heappush (y ∷ ys) x a m = elim (Bool-cases (entry_lt fl x y)) [
    | inl e ↦ rw (e, heappush) (inr m)
    | inr e ↦
        rw (e, heappush)
          (elim m [ inl here ↦ inl here | inr there ↦ inr (In-heappush ys x a there) ])
  ]

  pub head_le :
      (x a : Entry fl) (rest : List (Entry fl))
      → IsSorted (x ∷ rest)
      → In a (x ∷ rest)
      → rank x.f ≤ rank a.f
  head_le x a rest s (inl e) = subst (λ (z : Entry fl). rank x.f ≤ rank z.f) (sym e) (omega arith)
  head_le x a rest s (inr m) = All-In (λ z. rank x.f ≤ rank z.f) a rest s.0 m
