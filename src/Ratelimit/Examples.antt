-- ===== src/Ratelimit/Examples.antt =====
-- Two clients, with room for two buckets.
use safety_aware_route_plann.Base.{
  ◌≤◌, none, some, List, [], ◌∷◌, ◌++◌, length, Text, is_space, lstrip, strip, split, same_text,
  ◌≡◌, ◌≢◌, ◌↔◌, refl, arith,
}
use safety_aware_route_plann.Float.{Le}
use safety_aware_route_plann.Float.Whole.{naturals}
use safety_aware_route_plann.Ratelimit.{
  refill, bucket_step, Limiter, take, bucket_for, without, acquire, stripped, chain, client_key,
}
use safety_aware_route_plann.Ratelimit.Step.{bucket_step-bounds}
use safety_aware_route_plann.Ratelimit.Clients.{
  Request, acquire_all, own_bucket, acquire-kept, tracked-bound,
}
use safety_aware_route_plann.Ratelimit.Trust.{client_key-forged}

program : Unit {0}
unfolding refill bucket_step take bucket_for without acquire stripped chain client_key is_space
    lstrip strip split same_text acquire_all own_bucket
program = tt

bucket_step-bounds_example :
    (((bucket_step naturals 2 5 7 1 3).2 ≡ none) ↔ Le naturals 1 (refill naturals 2 5 7 1 3))
    × ((bucket_step naturals 2 5 7 1 3).1 ≡ 7)
    × Le naturals (bucket_step naturals 2 5 7 1 3).0 3
bucket_step-bounds_example = bucket_step-bounds naturals 2 5 7 1 3 (λ a. omega arith)

-- The clock went from 9 back to 4.

abbrev limiter : Limiter naturals
limiter = record { rate = 1; capacity = 3; max_clients = 2 }

abbrev alice : Text
alice = 97 ∷ []

abbrev bob : Text
bob = 98 ∷ []

abbrev others : List (Request naturals limiter)
others = (bob, 10, 10) ∷ []

different : alice ≢ bob
different e = ground arith

acquire-kept_example :
    bucket_for naturals limiter
      (acquire_all naturals limiter (acquire naturals limiter [] alice 9 9).0 others)
      alice
    ≡ some (own_bucket naturals limiter [] alice 9 9)
acquire-kept_example =
    acquire-kept naturals limiter alice [] 9 9 others (different, tt) (omega arith)

-- One token of three is gone.
charged : own_bucket naturals limiter [] alice 9 9 ≡ record { tokens = 2; ts = 9 }
unfolding program
charged = refl

tracked-bound_example : length (acquire_all naturals limiter [] others) ≤ 2
tracked-bound_example = tracked-bound naturals limiter [] others (omega arith)

one_entry : 1 ≤ length (chain (122 ∷ []))
unfolding program
one_entry = omega arith

-- "x, y" in front of "z": one proxy trusted.
client_key-forged_example :
    (client_key none (some ((120 ∷ 44 ∷ 32 ∷ 121 ∷ []) ++ 44 ∷ 122 ∷ [])) 1
      ≡ client_key none (some (122 ∷ [])) 1)
    × (client_key none (some ((120 ∷ 44 ∷ 32 ∷ 121 ∷ []) ++ 44 ∷ 122 ∷ [])) 0
        ≡ client_key none none 0)
client_key-forged_example = client_key-forged none (120 ∷ 44 ∷ 32 ∷ 121 ∷ []) (122 ∷ []) 1 one_entry

vouched_for : client_key none (some (122 ∷ [])) 1 ≡ 122 ∷ []
unfolding program
vouched_for = refl
