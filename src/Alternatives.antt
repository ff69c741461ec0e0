-- ===== src/Alternatives.antt =====
-- pyref/alternatives.py: the routes offered for one request. The search, the arc costs of a lambda
-- and numpy's sum are arguments, as `run` is in the source; `ratio` is Python's division of two
-- counts. A set of edges is a list without repetitions; `none` as the result is a KeyError.

pub mod Offered
pub mod Budget
pub mod Single
pub mod Total
pub mod Results
pub mod First
mod Examples
use mathlib.Core.Option
use safety_aware_route_plann.Base.{
  ℕ, zero, suc, ◌+◌, Bool, true, false, not, ◌&&◌, ◌||◌, Option, none, some, List, [], ◌∷◌, ◌++◌,
  map, ◌==◌, ltb, if◌then◌else◌, length, any, dict_get,
}
use safety_aware_route_plann.Float.{Float, lt, le}
use safety_aware_route_plann.Search.{PathResult, edges}

abbrev pub elem : ℕ → List ℕ → Bool
elem e es = any (λ x. x == e) es

unfoldable pub to_set : List ℕ → List ℕ
to_set [] = []
to_set (e ∷ es) = let rest = to_set es in if elem e rest then rest else e ∷ rest

-- `a & b` and `a | b`.
unfoldable pub intersection : List ℕ → List ℕ → List ℕ
intersection [] b = []
intersection (e ∷ a) b = let rest = intersection a b in if elem e b then e ∷ rest else rest

abbrev pub union : List ℕ → List ℕ → List ℕ
union a b = to_set (a ++ b)

-- `set().union(*sets)`.
unfoldable pub union_all : List (List ℕ) → List ℕ
union_all [] = []
union_all (a ∷ sets) = union a (union_all sets)

-- `int(np.count_nonzero(qc.turn_unsafe_type[turn_ids]))`.
unfoldable pub count_nonzero : (ℕ → ℕ) → List ℕ → ℕ
count_nonzero unsafe_type [] = 0
count_nonzero unsafe_type (t ∷ ts) =
    (if unsafe_type t == 0 then 0 else 1) + count_nonzero unsafe_type ts

-- `flagged.any()` on an array of n turns.
unfoldable pub any_flagged : (ℕ → ℕ) → ℕ → Bool
any_flagged unsafe_type zero = false
any_flagged unsafe_type (suc n) = not (unsafe_type n == 0) || any_flagged unsafe_type n

pub data Kind : Type 0 where
  fast balanced safe : Kind

abbrev pub is_safe : Kind → Bool
is_safe safe = true
is_safe _ = false

pub record Alternative {ℓ} (V : Type ℓ) : Type ℓ where
  pub kind : Kind
  pub lam : V
  pub result : PathResult V

module _ (fl : Float) where
  open fl use {Val, zero_val, one_val, add, mul}

  -- What one request fixes: the pack, the costs, the endpoints, the configuration, the search.
  pub record Planner : Type 0 where
    pub num_turns : ℕ
    pub turn_out_edge : ℕ → ℕ
    pub turn_unsafe_type : ℕ → ℕ
    pub arc_cost : Val → ℕ → Val
    pub seeds : List (ℕ × Val)
    pub dests : List (ℕ × Val)
    pub run : (ℕ → Val) → Option (PathResult Val)
    pub sum : List Val → Val
    pub ratio : ℕ → ℕ → Val
    pub lambda_fast : Val
    pub lambda_balanced : Val
    pub lambda_safe : Val
    pub jaccard_threshold : Val
    pub penalty_factor : Val
    pub max_reruns : ℕ
    pub avoid_surcharge_s : Val
    pub detour_budget_pct : Val

  module _ (p : Planner) where
    abbrev pub jaccard : List ℕ → List ℕ → Val
    jaccard [] [] = one_val
    jaccard a b = p.ratio (length (intersection a b)) (length (union a b))

    -- The function that `travel_time_fn` returns.
    unfoldable pub travel_time_s : PathResult Val → Option Val
    travel_time_s r = Option.bind (dict_get p.seeds r.first_edge) (λ seed_cost.
        Option.map
          (λ dest_cost.
            add (add seed_cost (p.sum (map (p.arc_cost zero_val) r.turn_ids))) dest_cost)
          (dict_get p.dests r.dest_edge))

    abbrev pub unsafe_count : PathResult Val → ℕ
    unsafe_count r = count_nonzero p.turn_unsafe_type r.turn_ids

    abbrev pub edge_set : PathResult Val → List ℕ
    edge_set r = to_set (edges r p.turn_out_edge)

    abbrev pub is_duplicate : List ℕ → List (List ℕ) → Bool
    is_duplicate es sets = any (λ ks. lt fl p.jaccard_threshold (jaccard es ks)) sets

    abbrev pub limit_s : Val → Val
    limit_s fast_time_s = mul (add one_val p.detour_budget_pct) fast_time_s

    -- The arc costs with a surcharge on every flagged turn.
    abbrev pub avoid_cost : Val → ℕ → Val
    avoid_cost lam t =
        add (p.arc_cost lam t) (if p.turn_unsafe_type t == 0 then zero_val else p.avoid_surcharge_s)

    -- `_avoid_within_budget`.
    unfoldable pub avoid_within_budget :
        Val → Val → ℕ → Option (Option (PathResult Val × (ℕ → Val)))
    unfolding any_flagged travel_time_s count_nonzero
    avoid_within_budget lam fast_time_s baseline_unsafe =
        if any_flagged p.turn_unsafe_type p.num_turns
        then elim (p.run (avoid_cost lam)) [
          | none ↦ some none
          | some r ↦
              if ltb (unsafe_count r) baseline_unsafe
              then Option.map
                  (λ time_s.
                    if lt fl (limit_s fast_time_s) time_s then none else some (r, avoid_cost lam))
                  (travel_time_s r)
              else some none
        ]
        else some none

    -- The arc costs with every turn into a shared edge inflated.
    abbrev pub inflate : List (List ℕ) → List ℕ → (ℕ → Val) → ℕ → Val
    inflate sets es ac t =
        if elem (p.turn_out_edge t) (intersection (union_all sets) es)
        then mul (ac t) p.penalty_factor
        else ac t

    -- The `while` loop, by the reruns left: the last result.
    unfoldable pub rerun : ℕ → List (List ℕ) → (ℕ → Val) → PathResult Val → PathResult Val
    rerun zero sets ac r = r
    rerun (suc n) sets ac r = elim (is_duplicate (edge_set r) sets) [
      | false ↦ r
      | true ↦ elim (p.run (inflate sets (edge_set r) ac)) [
        | none ↦ r
        | some r2 ↦ rerun n sets (inflate sets (edge_set r) ac) r2
      ]
    ]

    pub record Sweep : Type 0 where
      pub kept : List (Alternative Val)
      pub kept_edge_sets : List (List ℕ)
      pub fast_time_s : Option Val

    -- The result at a lambda and its arc costs, or those of the hard avoid.
    unfoldable pub improve : Kind → Val → Val → PathResult Val → Option (PathResult Val × (ℕ → Val))
    unfolding avoid_within_budget count_nonzero
    improve kind lam fast_time_s r =
        if is_safe kind && lt fl zero_val p.detour_budget_pct && ltb 0 (unsafe_count r)
        then Option.map (λ clean. elim clean [ none ↦ (r, p.arc_cost lam) | some better ↦ better ])
            (avoid_within_budget lam fast_time_s (unsafe_count r))
        else some (r, p.arc_cost lam)

    -- Keeps a result that is no duplicate, and no less safe than the one before the reruns.
    unfoldable pub offer : Sweep → Kind → Val → ℕ → PathResult Val → Sweep
    unfolding to_set intersection count_nonzero
    offer s kind lam base_unsafe r =
        if is_duplicate (edge_set r) s.kept_edge_sets
        then s
        else if ltb base_unsafe (unsafe_count r)
        then s
        else record s {
          kept = s.kept ++ record { kind = kind; lam = lam; result = r } ∷ [];
          kept_edge_sets = s.kept_edge_sets ++ edge_set r ∷ [];
        }

    abbrev pub baseline : Option Val → PathResult Val → Option Val
    baseline none r = travel_time_s r
    baseline (some t) r = some t

    -- One pass of `for kind, lam in sweep`.
    unfoldable pub try_level : Sweep → Kind → Val → Option Sweep
    unfolding travel_time_s improve rerun offer
    try_level s kind lam = elim (p.run (p.arc_cost lam)) [
      | none ↦ some s
      | some r ↦ Option.bind (baseline s.fast_time_s r) (λ fast_time_s.
          Option.map
            (λ chosen.
              offer (record s { fast_time_s = some fast_time_s }) kind lam (unsafe_count chosen.0)
                (rerun p.max_reruns s.kept_edge_sets chosen.1 chosen.0))
            (improve kind lam fast_time_s r))
    ]

    unfoldable pub try_all : Sweep → List (Kind × Val) → Option Sweep
    unfolding try_level
    try_all s [] = some s
    try_all s ((kind, lam) ∷ rest) = Option.bind (try_level s kind lam) (λ u. try_all u rest)

    abbrev pub levels : Bool → List (Kind × Val)
    levels false = (fast, p.lambda_fast) ∷ []
    levels true = (fast, p.lambda_fast) ∷ (balanced, p.lambda_balanced) ∷ (safe, p.lambda_safe) ∷ []

    abbrev pub keep_if : Bool → Alternative Val → List (Alternative Val) → List (Alternative Val)
    keep_if b a rest = if b then a ∷ rest else rest

    unfoldable pub within_budget : Val → List (Alternative Val) → Option (List (Alternative Val))
    unfolding travel_time_s
    within_budget limit [] = some []
    within_budget limit (a ∷ rest) =
        Option.bind (travel_time_s a.result)
          (λ time_s. Option.map (keep_if (le fl time_s limit) a) (within_budget limit rest))

    -- The budget as a ceiling; the first alternative is always kept.
    unfoldable pub ceiling : Option Val → List (Alternative Val) → Option (List (Alternative Val))
    unfolding within_budget
    ceiling none kept = some kept
    ceiling (some fast_time_s) [] = some []
    ceiling (some fast_time_s) (a ∷ rest) =
        Option.map (λ others. a ∷ others) (within_budget (limit_s fast_time_s) rest)

    unfoldable pub relabel_rest : List (Alternative Val) → List (Alternative Val)
    relabel_rest [] = []
    relabel_rest (a ∷ []) = record a { kind = safe } ∷ []
    relabel_rest (a ∷ b ∷ rest) = record a { kind = balanced } ∷ relabel_rest (b ∷ rest)

    unfoldable pub relabel : List (Alternative Val) → List (Alternative Val)
    unfolding relabel_rest
    relabel [] = []
    relabel (a ∷ []) = a ∷ []
    relabel (a ∷ b ∷ rest) = record a { kind = fast } ∷ relabel_rest (b ∷ rest)

    -- `compute_alternatives`.
    unfoldable pub compute_alternatives : Bool → Option (List (Alternative Val))
    unfolding try_all ceiling relabel
    compute_alternatives safety_enabled =
        Option.map (λ kept. if safety_enabled then relabel kept else kept)
          (Option.bind
            (try_all (record { kept = []; kept_edge_sets = []; fast_time_s = none })
              (levels safety_enabled))
            (λ s. ceiling s.fast_time_s s.kept))

    -- `compute_single`; the inner `none` is a request without a path.
    unfoldable pub compute_single : Kind → Val → Option (Option (PathResult Val))
    unfolding avoid_within_budget count_nonzero travel_time_s
    compute_single level lam = elim (p.run (p.arc_cost lam)) [
      | none ↦ some none
      | some r ↦
          if is_safe level && lt fl zero_val p.detour_budget_pct && ltb 0 (unsafe_count r)
          then elim (p.run (p.arc_cost zero_val)) [
            | none ↦ some (some r)
            | some fastest ↦ Option.bind (travel_time_s fastest) (λ fast_time_s.
                Option.map (λ clean. elim clean [ none ↦ some r | some better ↦ some better.0 ])
                  (avoid_within_budget lam fast_time_s (unsafe_count r)))
          ]
          else some (some r)
    ]
