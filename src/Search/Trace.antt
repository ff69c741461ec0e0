-- ===== src/Search/Trace.antt =====
-- The predecessor turns of a state lead back to a seed, at no more than the distance recorded.
use safety_aware_route_plann.Base.{
  ℕ, zero, suc, ◌+◌, ◌<◌, ◌≤◌, ◌≡◌, sym, refl, true, false, In, Option, none, some, inl, inr,
  Bool-cases, ==_iff, ==_self, ◌==◌, arith, ltb→lt, subst,
}
use safety_aware_route_plann.Float.{Float, lt, IsMonotone}
use safety_aware_route_plann.Search.{Query, SearchState, push}
use safety_aware_route_plann.Search.Routes.{IsNonneg}

module _ (fl : Float) (q : Query fl) where
  open fl use {Val, rank, add, inf_val}

  -- `TracedBy dist pred e n`: `n` turns back from `e` by `pred` stands a seed, and each distance on the way
  -- covers the one before it and the turn between.
  pub data TracedBy (dist : ℕ → Val) (pred : ℕ → Option ℕ) : ℕ → ℕ → Type 0 where
    root :
        (e : ℕ) (g : Val)
        → pred e ≡ none
        → In (e, g) q.seeds
        → rank g ≤ rank (dist e)
        → TracedBy dist pred e zero
    step :
        {p n : ℕ} (e t : ℕ)
        → TracedBy dist pred p n
        → pred e ≡ some t
        → q.turn_in_edge t ≡ p
        → q.turn_out_edge t ≡ e
        → q.turn_ptr p ≤ t
        → t < q.turn_ptr (p + 1)
        → q.turn_allowed t ≡ true
        → rank (add (dist p) (q.arc_cost t)) ≤ rank (dist e)
        → TracedBy dist pred e (suc n)

  abbrev pub Traced : SearchState fl → ℕ → ℕ → Type 0
  Traced s = TracedBy s.dist s.pred

  module _ (mono : IsMonotone fl) (nonneg : IsNonneg fl q) (s : SearchState fl) (p t : ℕ) (g : Val)
      (same : rank g ≡ rank (s.dist p))
      (cheaper : lt fl (add g (q.arc_cost t)) (s.dist (q.turn_out_edge t)) ≡ true) where
    abbrev pub pushed : SearchState fl
    pushed = push fl q s (q.turn_out_edge t) (add g (q.arc_cost t)) (some t)

    -- An edge no further than `p` is not the one that is pushed.
    pub not_pushed : (e : ℕ) → rank (s.dist e) ≤ rank (s.dist p) → (q.turn_out_edge t == e) ≡ false
    not_pushed e h = elim (Bool-cases (q.turn_out_edge t == e)) [
      | inl hit ↦ absurd (
          omega (
            arith,
            nonneg.arc_nonneg g t,
            ltb→lt _ _ cheaper,
            subst (λ x. rank (s.dist x) ≤ rank (s.dist p)) (sym ((==_iff _ e).0 hit)) h,
          ))
      | inr miss ↦ miss
    ]

    pub dist-pushed_ne : (e : ℕ) → (q.turn_out_edge t == e) ≡ false → pushed.dist e ≡ s.dist e
    unfolding push
    dist-pushed_ne e h = rw h

    pred-pushed_ne : (e : ℕ) → (q.turn_out_edge t == e) ≡ false → pushed.pred e ≡ s.pred e
    unfolding push
    pred-pushed_ne e h = rw h

    pub dist-pushed_le : (e : ℕ) → rank (pushed.dist e) ≤ rank (s.dist e)
    unfolding push
    dist-pushed_le e = ground (arith, ltb→lt _ _ cheaper, ==_iff (q.turn_out_edge t) e)

    Traced-near : {e n : ℕ} → Traced s e n → rank (s.dist e) ≤ rank (s.dist p) → Traced pushed e n
    Traced-near (root e g0 none_at seed le) h =
        let miss = not_pushed e h in
        root e g0 (rw (pred-pushed_ne e miss) none_at) seed (rw (dist-pushed_ne e miss) le)
    Traced-near (step {p = p'} e i tr at from to lo hi ok le) h =
        let miss = not_pushed e h in
        let near : rank (s.dist p') ≤ rank (s.dist p) =
          omega (arith, nonneg.arc_nonneg (s.dist p') i) in
        step e i (Traced-near tr near) (rw (pred-pushed_ne e miss) at) from to lo hi ok
          (rw (dist-pushed_ne e miss, dist-pushed_ne p' (not_pushed p' near)) le)

    module _ {k : ℕ} (at_p : Traced s p k) (from : q.turn_in_edge t ≡ p) (lo : q.turn_ptr p ≤ t)
        (hi : t < q.turn_ptr (p + 1)) (ok : q.turn_allowed t ≡ true) where
      pub Traced-target : Traced pushed (q.turn_out_edge t) (suc k)
      unfolding push
      Traced-target =
          step (q.turn_out_edge t) t (Traced-near at_p (omega arith))
            (rw (==_self (q.turn_out_edge t))) from refl lo hi ok
            (rw (==_self (q.turn_out_edge t), dist-pushed_ne p (not_pushed p (omega arith)))
              (mono.add_mono _ _ _ _ (omega arith) (omega arith)))

      -- After the push every trace leads to a seed, through the new turn where it met its target.
      pub Traced-pushed : {e n : ℕ} → Traced s e n → (m : ℕ) × Traced pushed e m
      Traced-pushed (root e g0 none_at seed le) = elim (Bool-cases (q.turn_out_edge t == e)) [
        | inl hit ↦ (suc k, subst (λ x. Traced pushed x (suc k)) ((==_iff _ e).0 hit) Traced-target)
        | inr miss ↦ (
          zero,
          root e g0 (rw (pred-pushed_ne e miss) none_at) seed (rw (dist-pushed_ne e miss) le),
        )
      ]
      Traced-pushed (step {p = p'} e i tr at from' to lo' hi' ok' le) =
          let (m, before) = Traced-pushed tr in
          elim (Bool-cases (q.turn_out_edge t == e)) [
            | inl hit ↦
                (suc k, subst (λ x. Traced pushed x (suc k)) ((==_iff _ e).0 hit) Traced-target)
            | inr miss ↦ (
              suc m,
              step e i before (rw (pred-pushed_ne e miss) at) from' to lo' hi' ok' (
                  rw (dist-pushed_ne e miss) (
                    omega (
                      arith,
                      mono.add_mono _ _ (q.arc_cost i) (q.arc_cost i) (dist-pushed_le p')
                          (omega arith),
                    ))),
            )
          ]
