-- ===== src/Float.antt =====
-- Binary floating point, which the source computes with and does not define: the type and its
-- operations are a parameter of every module that calculates. Not-a-number aside, the doubles are
-- finitely many and totally ordered, so a comparison is a comparison of ranks.
pub mod Whole
use safety_aware_route_plann.Base.{ℕ, ◌≤◌, ◌<◌, Bool, ltb, leb, ◌==◌, ◌≡◌}

pub record Float : Type 1 where
  pub Val : Type 0
  pub rank : Val → ℕ
  pub zero_val : Val
  pub one_val : Val
  pub inf_val : Val
  pub add : Val → Val → Val
  pub sub : Val → Val → Val
  pub mul : Val → Val → Val
  pub div : Val → Val → Val

module _ (fl : Float) where
  open fl use {Val, rank}

  -- `a < b`, `a <= b` and `a == b`.
  abbrev pub lt : Val → Val → Bool
  lt a b = ltb (rank a) (rank b)

  abbrev pub le : Val → Val → Bool
  le a b = leb (rank a) (rank b)

  abbrev pub eq : Val → Val → Bool
  eq a b = rank a == rank b

  -- The order as a proposition.
  abbrev pub Le : Val → Val → Type 0
  Le a b = rank a ≤ rank b

-- Correctly rounded addition is monotone in both arguments.
pub record IsMonotone (fl : Float) : Type 0 where
  pub add_mono :
      (a b c d : fl.Val)
      → fl.rank a ≤ fl.rank b
      → fl.rank c ≤ fl.rank d
      → fl.rank (fl.add a c) ≤ fl.rank (fl.add b d)

-- What the termination bound of the search needs of its arithmetic (exact sums have it): from
-- `h - a <= s` and `b + s < g + h` follows `b <= g + a`.
pub record IsExact (fl : Float) : Type 0 where
  pub bound_exact :
      (b s g h a : fl.Val)
      → fl.rank (fl.sub h a) ≤ fl.rank s
      → fl.rank (fl.add b s) < fl.rank (fl.add g h)
      → fl.rank b ≤ fl.rank (fl.add g a)

-- What the cost model relies on: zero and one are neutral, and products of what is not negative are
-- not negative.
pub record IsScaled (fl : Float) : Type 0 where
  pub add_zero : (a : fl.Val) → fl.add a fl.zero_val ≡ a
  pub mul_one : (a : fl.Val) → fl.mul a fl.one_val ≡ a
  pub mul_nonneg :
      (a b : fl.Val)
      → fl.rank fl.zero_val ≤ fl.rank a
      → fl.rank fl.zero_val ≤ fl.rank b
      → fl.rank fl.zero_val ≤ fl.rank (fl.mul a b)
