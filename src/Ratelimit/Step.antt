-- ===== src/Ratelimit/Step.antt =====
-- One step of a token bucket.
use safety_aware_route_plann.Base.{
  none, ◌≡◌, ◌↔◌, refl, arith, Bool-cases, inl, inr, ltb→lt, leb→le, le→ltb,
}
use safety_aware_route_plann.Float.{Float, lt, le, Le}
use safety_aware_route_plann.Ratelimit.{refill, bucket_step, min_val}

module _ (fl : Float) where
  open fl use {Val, zero_val, one_val, add, sub, mul, rank}

  min_val-le : (a b : Val) → Le fl (min_val fl a b) a
  min_val-le a b = elim (Bool-cases (lt fl b a)) [
    | inl e ↦ rw e (omega (arith, ltb→lt (rank b) (rank a) e))
    | inr e ↦ rw e (omega arith)
  ]

  -- A step admits exactly if the refilled bucket holds a whole token; it sets the clock of the
  -- bucket; and, if taking one away leaves no more than there was, the bucket never holds more than
  -- its capacity.
  pub bucket_step-bounds :
      (tokens ts now rate capacity : Val)
      → ((a : Val) → Le fl (sub a one_val) a)
      → (((bucket_step fl tokens ts now rate capacity).2 ≡ none)
          ↔ Le fl one_val (refill fl tokens ts now rate capacity))
        × ((bucket_step fl tokens ts now rate capacity).1 ≡ now)
        × Le fl (bucket_step fl tokens ts now rate capacity).0 capacity
  unfolding bucket_step
  bucket_step-bounds tokens ts now rate capacity less =
      let full : Le fl (refill fl tokens ts now rate capacity) capacity = min_val-le capacity _ in
      elim (Bool-cases (le fl one_val (refill fl tokens ts now rate capacity))) [
        | inl e ↦
            rw (e, bucket_step)
              (
                (λ _. leb→le (rank one_val) _ e, λ _. refl),
                refl,
                omega (arith, less (refill fl tokens ts now rate capacity), full),
              )
        | inr e ↦
            rw (e, bucket_step) ((λ h. ground (arith, h), λ h. ground (arith, e, h)), refl, full)
      ]

  -- A clock that went backwards neither destroys tokens nor credits them: where zero is neutral for
  -- sums, and zero times the rate is zero, the refilled bucket holds what it held, up to its capacity.
  pub refill-backwards :
      (tokens ts now rate capacity : Val)
      → ((a : Val) → add a zero_val ≡ a)
      → mul zero_val rate ≡ zero_val
      → Le fl (sub now ts) zero_val
      → refill fl tokens ts now rate capacity ≡ min_val fl capacity tokens
  unfolding refill
  refill-backwards tokens ts now rate capacity neutral flat back =
      rw (le→ltb (rank zero_val) (rank (sub now ts)) back, flat, neutral tokens)
