-- ===== src/Search/Rounds.antt =====
-- The seeds are explored, and so is every state of the loop.
use safety_aware_route_plann.Base.{
  ℕ, ◌+◌, ◌<◌, ◌≤◌, ◌≡◌, refl, sym, true, false, List, [], ◌∷◌, In, none, some, inl, inr, ◌⊎◌,
  Bool-cases, ==_iff, ==_self, ◌==◌, update, arith, ltb→lt, ltb→le, subst, All, dict_get, ap, ◌∙◌,
}
use safety_aware_route_plann.Float.{Float, lt, eq, IsMonotone}
use safety_aware_route_plann.Search.{
  Query, SearchState, Entry, push, finalize, settle, blank, seed_all, start,
}
use safety_aware_route_plann.Search.Topo.{All-heappush, heap-finalize, dist-finalize}
use safety_aware_route_plann.Search.Routes.{IsNonneg}
use safety_aware_route_plann.Search.Heap.{IsSorted, heappush-IsSorted}
use safety_aware_route_plann.Search.Explored.{
  Keyed, Closed, Seen, IsExplored, push-Seen, push-Seen_self,
}
use safety_aware_route_plann.Search.Relaxing.{Relaxing, relax_range-Relaxing}

module _ (fl : Float) (q : Query fl) where
  open fl use {Val, rank, add, inf_val}

  module _ (e : ℕ) (g : Val) (s : SearchState fl) where
    best-finalize_le : rank (finalize fl q e g s).best_final ≤ rank s.best_final
    unfolding finalize
    best-finalize_le = ground arith

    best-finalize :
        (adj : Val)
        → dict_get q.dests e ≡ some adj
        → rank (finalize fl q e g s).best_final ≤ rank (add g adj)
    unfolding finalize
    best-finalize adj d = ground arith

    no_best-finalize :
        (s.best_edge ≡ none → rank inf_val ≤ rank s.best_final)
        → (finalize fl q e g s).best_edge ≡ none
        → rank inf_val ≤ rank (finalize fl q e g s).best_final
    unfolding finalize
    no_best-finalize h n = ground arith

    Seen-finalize : (x : ℕ) → Seen fl q s x → Seen fl q (finalize fl q e g s) x
    Seen-finalize x (inl o) = inl (record {
      entry = o.entry;
      on_heap = rw (heap-finalize fl q e g s) o.on_heap;
      at_edge = o.at_edge;
      at_dist = rw (dist-finalize fl q e g s) o.at_dist;
    })
    Seen-finalize x (inr c) = inr (record {
      relaxed = λ t lo hi ok. rw (dist-finalize fl q e g s) (c.relaxed t lo hi ok);
      stopped =
          λ adj d. rw (dist-finalize fl q e g s) (omega (arith, c.stopped adj d, best-finalize_le));
    })

  -- With `x` popped, the other edges stay explored.
  module _ (s : SearchState fl) (x : Entry fl) (rest : List (Entry fl))
      (at_head : s.heap ≡ x ∷ rest) (h : IsExplored fl q s) where
    abbrev popped : SearchState fl
    popped = record s { heap = rest }

    Seen-popped :
        (e : ℕ) → (x.edge ≡ e → rank x.g ≡ rank (s.dist e) → ⊥) → Seen fl q s e → Seen fl q popped e
    Seen-popped e other (inr c) = inr (record { relaxed = c.relaxed; stopped = c.stopped })
    Seen-popped e other (inl o) = elim (subst (In o.entry) at_head o.on_heap) [
      | inl here ↦ absurd (
          other (sym (ap (λ (y : Entry fl). y.edge) here) ∙ o.at_edge)
            (sym (ap (λ (y : Entry fl). rank y.g) here) ∙ o.at_dist))
      | inr there ↦
          inl
            (record { entry = o.entry; on_heap = there; at_edge = o.at_edge; at_dist = o.at_dist })
    ]

    stale-IsExplored : (eq fl x.g (s.dist x.edge) ≡ false) → IsExplored fl q popped
    stale-IsExplored stale =
        let keys : All (Keyed fl q) (x ∷ rest) = rw at_head at h.keyed in
        let order : IsSorted fl (x ∷ rest) = rw at_head at h.sorted in
        record {
          seen =
              λ e r. Seen-popped e (λ same_edge same. absurd_stale e same_edge same) (h.seen e r);
          covers = h.covers;
          keyed = keys.1;
          sorted = order.1;
          no_best = h.no_best;
        }
      where
        absurd_stale : (e : ℕ) → x.edge ≡ e → rank x.g ≡ rank (s.dist e) → ⊥
        absurd_stale e same_edge same = cc (
            (==_iff (rank x.g) (rank (s.dist x.edge))).1
              (same ∙ ap (λ z. rank (s.dist z)) (sym same_edge)))

    fresh-Relaxing :
        eq fl x.g (s.dist x.edge) ≡ true
        → Relaxing fl q x.edge x.g (q.turn_ptr x.edge) (finalize fl q x.edge x.g popped)
    fresh-Relaxing fresh =
        let keys : All (Keyed fl q) (x ∷ rest) = rw at_head at h.keyed in
        let order : IsSorted fl (x ∷ rest) = rw at_head at h.sorted in
        let same_dist = dist-finalize fl q x.edge x.g popped in
        let same_heap = heap-finalize fl q x.edge x.g popped in
        record {
          seen_but = λ e ne r. Seen-finalize x.edge x.g popped e (
              Seen-popped e (λ same_edge _. cc ((==_iff x.edge e).1 same_edge))
                (h.seen e (rw same_dist at r)));
          relaxed = λ t lo hi ok. absurd (omega arith);
          same = rw same_dist ((==_iff _ _).0 fresh);
          stopped = best-finalize x.edge x.g popped;
          covers = λ e g m. rw same_dist (h.covers e g m);
          keyed = rw same_heap keys.1;
          sorted = rw same_heap order.1;
          no_best = no_best-finalize x.edge x.g popped h.no_best;
        }

    -- When all its turns are relaxed, the popped edge is closed.
    Relaxing-IsExplored :
        (mono : IsMonotone fl) (e : ℕ) (g : Val) (t : SearchState fl)
        → Relaxing fl q e g (q.turn_ptr (e + 1)) t
        → IsExplored fl q t
    Relaxing-IsExplored mono e g t r = record {
      seen = λ y fin. elim (Bool-cases (e == y)) [
        | inl hit ↦ subst (Seen fl q t) ((==_iff e y).0 hit) (inr done)
        | inr miss ↦ r.seen_but y miss fin
      ];
      covers = r.covers;
      keyed = r.keyed;
      sorted = r.sorted;
      no_best = r.no_best;
    }
      where
        done : Closed fl q t e
        done = record {
          relaxed = λ i lo hi ok. omega (
            arith,
            r.relaxed i lo hi ok,
            mono.add_mono g (t.dist e) (q.arc_cost i) (q.arc_cost i) (omega arith) (omega arith),
          );
          stopped = λ adj d. omega (
            arith,
            r.stopped adj d,
            mono.add_mono g (t.dist e) adj adj (omega arith) (omega arith),
          );
        }

    pub settle-IsExplored :
        IsMonotone fl
        → IsNonneg fl q
        → q.turn_ptr x.edge ≤ q.turn_ptr (x.edge + 1)
        → IsExplored fl q (settle fl q popped x)
    unfolding settle
    settle-IsExplored mono nonneg ordered = elim (Bool-cases (eq fl x.g (s.dist x.edge))) [
      | inl fresh ↦
          rw (fresh, settle)
            (Relaxing-IsExplored mono x.edge x.g _ (
              relax_range-Relaxing fl q nonneg x.edge x.g _ _ _ _ (omega arith) (omega arith)
                (fresh-Relaxing fresh)))
      | inr stale ↦ rw (stale, settle) (stale-IsExplored stale)
    ]

  -- The seeds not yet set are left out of `covers`.
  record Seeding (rest : List (ℕ × Val)) (s : SearchState fl) : Type 0 where
    seen : (e : ℕ) → rank (s.dist e) < rank inf_val → Seen fl q s e
    covers : (e : ℕ) (g : Val) → In (e, g) q.seeds → In (e, g) rest ⊎ (rank (s.dist e) ≤ rank g)
    keyed : All (Keyed fl q) s.heap
    sorted : IsSorted fl s.heap
    no_best : s.best_edge ≡ none → rank inf_val ≤ rank s.best_final

  module _ (e : ℕ) (g : Val) (rest : List (ℕ × Val)) (s : SearchState fl)
      (h : Seeding ((e, g) ∷ rest) s) where
    push-Seeding : lt fl g (s.dist e) ≡ true → Seeding rest (push fl q s e g none)
    unfolding push
    push-Seeding c = record {
      seen = λ x r. elim (Bool-cases (e == x)) [
        | inl hit ↦
            subst (Seen fl q (push fl q s e g none)) ((==_iff e x).0 hit)
              (push-Seen_self fl q s e g none c)
        | inr miss ↦ push-Seen fl q s e g none c x (h.seen x (rw miss at r))
      ];
      covers = λ x g' m. elim (h.covers x g' m) [
        | inl (inl here) ↦ inr (
            subst (λ (z : ℕ × Val). rank (update s.dist e g z.0) ≤ rank z.1) (sym here)
              (rw (==_self e) (omega arith)))
        | inl (inr there) ↦ inl there
        | inr le ↦ inr (ground (arith, ltb→lt _ _ c, ==_iff e x))
      ];
      keyed = All-heappush fl (Keyed fl q) s.heap _ h.keyed refl;
      sorted = heappush-IsSorted fl s.heap _ h.sorted;
      no_best = h.no_best;
    }

    skip-Seeding : lt fl g (s.dist e) ≡ false → Seeding rest s
    skip-Seeding c = record {
      seen = h.seen;
      covers = λ x g' m. elim (h.covers x g' m) [
        | inl (inl here) ↦
            inr (subst (λ (z : ℕ × Val). rank (s.dist z.0) ≤ rank z.1) (sym here) (ltb→le _ _ c))
        | inl (inr there) ↦ inl there
        | inr le ↦ inr le
      ];
      keyed = h.keyed;
      sorted = h.sorted;
      no_best = h.no_best;
    }

  seed_all-Seeding :
      (seeds : List (ℕ × Val)) (s : SearchState fl)
      → Seeding seeds s
      → Seeding [] (seed_all fl q s seeds)
  unfolding seed_all
  seed_all-Seeding [] s h = h
  seed_all-Seeding ((e, g) ∷ rest) s h = elim (Bool-cases (lt fl g (s.dist e))) [
    | inl c ↦ rw c (seed_all-Seeding rest _ (push-Seeding e g rest s h c))
    | inr c ↦ rw c (seed_all-Seeding rest s (skip-Seeding e g rest s h c))
  ]

  pub start-IsExplored : IsExplored fl q (start fl q)
  unfolding start
  start-IsExplored =
      let h = seed_all-Seeding q.seeds (blank fl q) (record {
        seen = λ e r. absurd (omega arith);
        covers = λ e g m. inl m;
        keyed = tt;
        sorted = tt;
        no_best = λ _. omega arith;
      }) in
      record {
        seen = h.seen;
        covers = λ e g m. elim (h.covers e g m) [ inl none_left ↦ absurd none_left | inr le ↦ le ];
        keyed = h.keyed;
        sorted = h.sorted;
        no_best = h.no_best;
      }
