-- ===== src/Search/Relaxing.antt =====
-- One round of the loop keeps what is explored: the popped edge is expanded turn by turn.
use safety_aware_route_plann.Base.{
  ℕ, zero, suc, ◌+◌, ◌<◌, ◌≤◌, ◌≡◌, refl, sym, true, false, In, none, some, inl, inr, Bool-cases,
  ==_iff, ==_self, ◌==◌, update, arith, ltb→lt, ltb→le, subst, All, dict_get,
}
use safety_aware_route_plann.Float.{Float, lt}
use safety_aware_route_plann.Search.{Query, SearchState, push, relax, relax_range}
use safety_aware_route_plann.Search.Topo.{All-heappush}
use safety_aware_route_plann.Search.Routes.{IsNonneg}
use safety_aware_route_plann.Search.Heap.{IsSorted, heappush-IsSorted}
use safety_aware_route_plann.Search.Explored.{Keyed, Seen, push-Seen, push-Seen_self}

module _ (fl : Float) (q : Query fl) where
  open fl use {Val, rank, add, inf_val}

  -- The turns of `e` before `i` are relaxed, and all other edges are explored.
  pub record Relaxing (e : ℕ) (g : Val) (i : ℕ) (s : SearchState fl) : Type 0 where
    pub seen_but : (x : ℕ) → (e == x) ≡ false → rank (s.dist x) < rank inf_val → Seen fl q s x
    pub relaxed :
        (t : ℕ)
        → q.turn_ptr e ≤ t
        → t < i
        → q.turn_allowed t ≡ true
        → rank (s.dist (q.turn_out_edge t)) ≤ rank (add g (q.arc_cost t))
    pub same : rank g ≡ rank (s.dist e)
    pub stopped : (adj : Val) → dict_get q.dests e ≡ some adj → rank s.best_final ≤ rank (add g adj)
    pub covers : (x : ℕ) (g' : Val) → In (x, g') q.seeds → rank (s.dist x) ≤ rank g'
    pub keyed : All (Keyed fl q) s.heap
    pub sorted : IsSorted fl s.heap
    pub no_best : s.best_edge ≡ none → rank inf_val ≤ rank s.best_final

  module _ (nonneg : IsNonneg fl q) (e : ℕ) (g : Val) where
    push-Relaxing :
        (i : ℕ) (s : SearchState fl)
        → q.turn_ptr e ≤ i
        → lt fl (add g (q.arc_cost i)) (s.dist (q.turn_out_edge i)) ≡ true
        → Relaxing e g i s
        → Relaxing e g (i + 1) (push fl q s (q.turn_out_edge i) (add g (q.arc_cost i)) (some i))
    unfolding push
    push-Relaxing i s lo cheaper h =
        let o = q.turn_out_edge i in
        let g' = add g (q.arc_cost i) in
        let below = ltb→lt _ _ cheaper in
        record {
          seen_but = λ x ne r. elim (Bool-cases (o == x)) [
            | inl hit ↦
                subst (Seen fl q (push fl q s o g' (some i))) ((==_iff o x).0 hit)
                  (push-Seen_self fl q s o g' (some i) cheaper)
            | inr miss ↦ push-Seen fl q s o g' (some i) cheaper x (h.seen_but x ne (rw miss at r))
          ];
          relaxed = λ t lo' hi ok. elim (Bool-cases (t == i)) [
            | inl hit ↦
                subst
                  (λ z. rank (update s.dist o g' (q.turn_out_edge z)) ≤ rank (add g (q.arc_cost z)))
                  (sym ((==_iff t i).0 hit)) (rw (==_self o) (omega arith))
            | inr miss ↦
                ground (arith, h.relaxed t lo' (ground arith) ok, ==_iff o (q.turn_out_edge t))
          ];
          same = ground (arith, nonneg.arc_nonneg g i, ==_iff o e);
          stopped = h.stopped;
          covers = λ x g'' m. ground (arith, h.covers x g'' m, ==_iff o x);
          keyed = All-heappush fl (Keyed fl q) s.heap _ h.keyed refl;
          sorted = heappush-IsSorted fl s.heap _ h.sorted;
          no_best = h.no_best;
        }

    -- A turn that lowers nothing is relaxed as it stands.
    skip-Relaxing :
        (i : ℕ) (s : SearchState fl)
        → (q.turn_allowed i ≡ true
            → rank (s.dist (q.turn_out_edge i)) ≤ rank (add g (q.arc_cost i)))
        → Relaxing e g i s
        → Relaxing e g (i + 1) s
    skip-Relaxing i s low h = record {
      seen_but = h.seen_but;
      relaxed = λ t lo hi ok. elim (Bool-cases (t == i)) [
        | inl hit ↦
            let t_is_i : t ≡ i = (==_iff t i).0 hit in
            subst (λ z. rank (s.dist (q.turn_out_edge z)) ≤ rank (add g (q.arc_cost z)))
              (sym t_is_i) (low (subst (λ z. q.turn_allowed z ≡ true) t_is_i ok))
        | inr miss ↦ h.relaxed t lo (ground arith) ok
      ];
      same = h.same;
      stopped = h.stopped;
      covers = h.covers;
      keyed = h.keyed;
      sorted = h.sorted;
      no_best = h.no_best;
    }

    relax-Relaxing :
        (i : ℕ) (s : SearchState fl)
        → q.turn_ptr e ≤ i
        → Relaxing e g i s
        → Relaxing e g (i + 1) (relax fl q g i s)
    unfolding relax
    relax-Relaxing i s lo h = elim (Bool-cases (q.turn_allowed i)) [
      | inr closed ↦ rw (closed, relax) (skip-Relaxing i s (λ ok. cc) h)
      | inl ok ↦ elim (Bool-cases (lt fl (add g (q.arc_cost i)) (s.dist (q.turn_out_edge i)))) [
        | inl cheaper ↦ rw (ok, cheaper, relax) (push-Relaxing i s lo cheaper h)
        | inr dear ↦ rw (ok, dear, relax) (skip-Relaxing i s (λ _. ltb→le _ _ dear) h)
      ]
    ]

    pub relax_range-Relaxing :
        (n i j : ℕ) (s : SearchState fl)
        → q.turn_ptr e ≤ i
        → i + n ≡ j
        → Relaxing e g i s
        → Relaxing e g j (relax_range fl q g i n s)
    unfolding relax_range
    relax_range-Relaxing zero i j s lo at h = subst (λ z. Relaxing e g z s) (omega arith) h
    relax_range-Relaxing (suc n) i j s lo at h =
        relax_range-Relaxing n (i + 1) j _ (omega arith) (omega arith) (relax-Relaxing i s lo h)
