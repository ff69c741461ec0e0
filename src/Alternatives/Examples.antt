-- ===== src/Alternatives/Examples.antt =====
-- A direct route with one unsafe turn, and a way around it.
use mathlib.Core.Option
use mathlib.Core.Option.{some-injective}
use safety_aware_route_plann.Base.{
  ℕ, ◌+◌, ◌-◌, ◌*◌, ◌/◌, ◌≡◌, ◌⊎◌, refl, true, Option, some, List, [], ◌∷◌, if◌then◌else◌, leb,
  ◌==◌, Bool-cases, inl, inr, sym, ◌∙◌, subst,
}
use safety_aware_route_plann.Float.Whole.{whole}
use safety_aware_route_plann.Search.{PathResult, edges, route_edges}
use safety_aware_route_plann.Alternatives.{
  fast, safe, Alternative, Planner, to_set, intersection, union_all, count_nonzero, any_flagged,
  travel_time_s, avoid_within_budget, rerun, improve, offer, try_level, try_all, within_budget,
  ceiling, relabel_rest, relabel, compute_alternatives, compute_single, is_safe,
}
use safety_aware_route_plann.Alternatives.Budget.{IsOffer, compute_alternatives-IsOffer}
use safety_aware_route_plann.Alternatives.Total.{
  Given, IsBetween, IsEnded, compute_alternatives-Given,
}
use safety_aware_route_plann.Alternatives.Single.{Affordable, compute_single_sound}

program : Unit {0}
unfolding edges route_edges to_set intersection union_all count_nonzero any_flagged travel_time_s
    avoid_within_budget rerun improve offer try_level try_all within_budget ceiling relabel_rest
    relabel compute_alternatives compute_single Option.bind
program = tt

abbrev direct : PathResult ℕ
direct = record { turn_ids = 0 ∷ []; first_edge = 0; dest_edge = 9; total_cost = 110 }

abbrev around : PathResult ℕ
around = record { turn_ids = 1 ∷ 2 ∷ []; first_edge = 0; dest_edge = 9; total_cost = 114 }

-- 10 s with a penalty of 10 s, against 8 s and 6 s.
abbrev costs : ℕ → ℕ → ℕ
costs lam t = if t == 0 then 110 + (lam - 100) * 10 else if t == 1 then 108 else 106

abbrev cheaper : (ℕ → ℕ) → Option (PathResult ℕ)
cheaper ac = some (if leb (ac 0 + 100) (ac 1 + ac 2) then direct else around)

abbrev total : List ℕ → ℕ
total [] = 100
total (x ∷ xs) = x + total xs - 100

abbrev target : ℕ → ℕ
target t = if t == 1 then 5 else 9

abbrev flag : ℕ → ℕ
flag t = if t == 0 then 1 else 0

-- A similarity above 70 hundredths is a duplicate; the budget is once the fastest time.
abbrev planner : Planner whole
planner = record {
  num_turns = 3;
  turn_out_edge = target;
  turn_unsafe_type = flag;
  arc_cost = costs;
  seeds = (0, 100) ∷ [];
  dests = (9, 100) ∷ [];
  run = cheaper;
  sum = total;
  ratio = λ a b. 100 + 100 * a / b;
  lambda_fast = 100;
  lambda_balanced = 100;
  lambda_safe = 105;
  jaccard_threshold = 170;
  penalty_factor = 103;
  max_reruns = 2;
  avoid_surcharge_s = 700;
  detour_budget_pct = 101;
}

abbrev offered : List (Alternative ℕ)
offered =
    record { kind = fast; lam = 100; result = direct }
    ∷ record { kind = safe; lam = 100; result = around }
    ∷ []

offered_two : compute_alternatives whole planner true ≡ some offered
unfolding program
offered_two = refl

compute_alternatives-IsOffer_example :
    (t : ℕ) × (travel_time_s whole planner direct ≡ some t) × IsOffer whole planner direct t offered
compute_alternatives-IsOffer_example =
    compute_alternatives-IsOffer whole planner true direct offered refl offered_two

-- At lambda 0 the hard avoid still finds the way around.
rerouted : compute_single whole planner safe 100 ≡ some (some around)
unfolding program
rerouted = refl

compute_single_sound_example :
    (around ≡ direct) ⊎ ((is_safe safe ≡ true) × Affordable whole planner direct around)
compute_single_sound_example =
    compute_single_sound whole planner safe 100 direct around refl rerouted

IsBetween-direct : IsBetween whole planner direct
unfolding program
IsBetween-direct = ((_, refl), (_, refl))

IsBetween-around : IsBetween whole planner around
unfolding program
IsBetween-around = ((_, refl), (_, refl))

search-IsEnded : IsEnded whole planner
search-IsEnded ac r h = elim (Bool-cases (leb (ac 0 + 100) (ac 1 + ac 2))) [
  | inl e ↦
      let same : direct ≡ r = some-injective _ _ (sym (rw e refl) ∙ h) in
      subst (IsBetween whole planner) same IsBetween-direct
  | inr e ↦
      let same : around ≡ r = some-injective _ _ (sym (rw e refl) ∙ h) in
      subst (IsBetween whole planner) same IsBetween-around
]

compute_alternatives-Given_example : Given (compute_alternatives whole planner true)
compute_alternatives-Given_example = compute_alternatives-Given whole planner true search-IsEnded
