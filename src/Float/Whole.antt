-- ===== src/Float/Whole.antt =====
-- Whole numbers with a bias of 100 for the parameter of `Float`: the number `n` stands for `n - 100`,
-- and infinity for 9900. They show that the laws can hold, and the tests run on them.
use safety_aware_route_plann.Base.{ℕ, ◌+◌, ◌-◌, ◌*◌, ◌/◌, arith}
use safety_aware_route_plann.Float.{Float, IsMonotone, IsExact, IsScaled}

abbrev pub whole : Float
whole = record {
  Val = ℕ;
  rank = λ n. n;
  zero_val = 100;
  one_val = 101;
  inf_val = 10000;
  add = λ a b. a + b - 100;
  sub = λ a b. a + 100 - b;
  mul = λ a b. (a - 100) * (b - 100) + 100;
  div = λ a b. (a - 100) / (b - 100) + 100;
}

pub whole-IsMonotone : IsMonotone whole
whole-IsMonotone = record { add_mono = λ a b c d h k. omega arith }

pub whole-IsExact : IsExact whole
whole-IsExact = record { bound_exact = λ b s g h a le lt. omega arith }

-- The natural numbers themselves.
abbrev pub naturals : Float
naturals = record {
  Val = ℕ;
  rank = λ n. n;
  zero_val = 0;
  one_val = 1;
  inf_val = 1_000_000;
  add = λ a b. a + b;
  sub = λ a b. a - b;
  mul = λ a b. a * b;
  div = λ a b. a / b;
}

pub naturals-IsScaled : IsScaled naturals
naturals-IsScaled = record {
  add_zero = λ a. omega arith;
  mul_one = λ a. omega arith;
  mul_nonneg = λ a b h k. omega arith;
}

pub naturals-IsMonotone : IsMonotone naturals
naturals-IsMonotone = record { add_mono = λ a b c d h k. omega arith }
