-- ===== src/Search/Explored.antt =====
-- What the search has explored: every edge reached is on the heap at its distance, or it has been
-- expanded at that distance. Hence no route beats the best one where the search stops.
use safety_aware_route_plann.Base.{
  ℕ, ◌+◌, ◌<◌, ◌≤◌, ◌≡◌, refl, true, In, Option, none, some, inl, inr, ◌⊎◌, Bool-cases, ==_iff,
  ==_self, ◌==◌, arith, ltb→lt, subst, All, dict_get,
}
use safety_aware_route_plann.Float.{Float, lt}
use safety_aware_route_plann.Search.{Query, SearchState, Entry, push, h_at}
use safety_aware_route_plann.Search.Heap.{IsSorted, In-heappush_self, In-heappush}

module _ (fl : Float) (q : Query fl) where
  open fl use {Val, rank, add, inf_val}

  abbrev pub Keyed : Entry fl → Type 0
  Keyed x = x.f ≡ add x.g (h_at fl q.h x.edge)

  -- An entry of the heap holds `e` at its distance.
  pub record Open (s : SearchState fl) (e : ℕ) : Type 0 where
    pub entry : Entry fl
    pub on_heap : In entry s.heap
    pub at_edge : entry.edge ≡ e
    pub at_dist : rank entry.g ≡ rank (s.dist e)

  -- Every turn out of `e` is relaxed at its distance, and the best route is no dearer than stopping
  -- on `e`.
  pub record Closed (s : SearchState fl) (e : ℕ) : Type 0 where
    pub relaxed :
        (t : ℕ)
        → q.turn_ptr e ≤ t
        → t < q.turn_ptr (e + 1)
        → q.turn_allowed t ≡ true
        → rank (s.dist (q.turn_out_edge t)) ≤ rank (add (s.dist e) (q.arc_cost t))
    pub stopped :
        (adj : Val) → dict_get q.dests e ≡ some adj → rank s.best_final ≤ rank (add (s.dist e) adj)

  abbrev pub Seen : SearchState fl → ℕ → Type 0
  Seen s e = Open s e ⊎ Closed s e

  pub record IsExplored (s : SearchState fl) : Type 0 where
    pub seen : (e : ℕ) → rank (s.dist e) < rank inf_val → Seen s e
    pub covers : (e : ℕ) (g : Val) → In (e, g) q.seeds → rank (s.dist e) ≤ rank g
    pub keyed : All Keyed s.heap
    pub sorted : IsSorted fl s.heap
    pub no_best : s.best_edge ≡ none → rank inf_val ≤ rank s.best_final

  module _ (s : SearchState fl) (e : ℕ) (g : Val) (p : Option ℕ)
      (cheaper : lt fl g (s.dist e) ≡ true) where
    abbrev pub after : SearchState fl
    after = push fl q s e g p

    pub push-Seen_self : Seen after e
    unfolding push
    push-Seen_self = inl (record {
      entry = record { f = add g (h_at fl q.h e); edge = e; g = g };
      on_heap = In-heappush_self fl s.heap _;
      at_edge = refl;
      at_dist = rw (==_self e);
    })

    pub push-Seen : (x : ℕ) → Seen s x → Seen after x
    unfolding push
    push-Seen x h = elim (Bool-cases (e == x)) [
      | inl hit ↦ subst (Seen after) ((==_iff e x).0 hit) push-Seen_self
      | inr miss ↦ elim h [
        | inl o ↦ inl (record {
          entry = o.entry;
          on_heap = In-heappush fl s.heap _ o.entry o.on_heap;
          at_edge = o.at_edge;
          at_dist = rw miss o.at_dist;
        })
        | inr c ↦ inr (record {
          relaxed = λ t lo hi ok.
              ground
                (arith, c.relaxed t lo hi ok, ltb→lt _ _ cheaper, ==_iff e (q.turn_out_edge t));
          stopped = λ adj d. rw miss (c.stopped adj d);
        })
      ]
    ]
