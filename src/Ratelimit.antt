-- ===== src/Ratelimit.antt =====
-- api/ratelimit.py and the quota of api/routes.py: token buckets, one for each client.
-- A client's key is a text (a list of code points). A `dict` is the list of its items in the order
-- of insertion. The clock is read by the caller.
pub mod Step
pub mod Clients
pub mod Trust
mod Examples
use safety_aware_route_plann.Base.{
  ℕ, zero, suc, ◌+◌, ◌-◌, Bool, true, false, not, ◌&&◌, Option, none, some, List, [], ◌∷◌, ◌++◌,
  reverse, ltb, leb, if◌then◌else◌, length, Text, strip, split, is_empty, same_text, get_elem?,
}
use safety_aware_route_plann.Float.{Float, lt, le}

module _ (fl : Float) where
  open fl use {Val, zero_val, one_val, add, sub, mul, div}

  abbrev pub max_val : Val → Val → Val
  max_val a b = if lt fl a b then b else a

  abbrev pub min_val : Val → Val → Val
  min_val a b = if lt fl b a then b else a

  -- The tokens at a time, before one is taken: `min(capacity, tokens + max(0.0, now - ts) * rate)`.
  unfoldable pub refill : Val → Val → Val → Val → Val → Val
  refill tokens ts now rate capacity =
      min_val capacity (add tokens (mul (max_val zero_val (sub now ts)) rate))

  -- `bucket_step`: the tokens left, the time, and how long to wait if none is taken.
  unfoldable pub bucket_step : Val → Val → Val → Val → Val → Val × Val × Option Val
  unfolding refill
  bucket_step tokens ts now rate capacity =
      if le fl one_val (refill tokens ts now rate capacity)
      then (sub (refill tokens ts now rate capacity) one_val, now, none)
      else (
        refill tokens ts now rate capacity,
        now,
        some (div (sub one_val (refill tokens ts now rate capacity)) rate),
      )

  -- `InProcessTokenBucket`.
  pub record Bucket : Type 0 where
    pub tokens : Val
    pub ts : Val

  -- `build_route_limiter`, in process: the configuration of `PerClientLimiter`.
  pub record Limiter : Type 0 where
    pub rate : Val
    pub capacity : Val
    pub max_clients : ℕ

  module _ (l : Limiter) where
    -- `acquire`, of one bucket.
    unfoldable pub take : Bucket → Val → Bucket × Option Val
    unfolding bucket_step
    take b now =
        let step = bucket_step b.tokens b.ts now l.rate l.capacity in
        (record { tokens = step.0; ts = step.1 }, step.2)

    abbrev pub fresh : Val → Bucket
    fresh now = record { tokens = l.capacity; ts = now }

    -- `self._max`.
    abbrev pub most : ℕ
    most = if ltb 1 l.max_clients then l.max_clients else 1

    -- `self._buckets.get(key)`, and the items but the key's (no two have the same key).
    unfoldable pub bucket_for : List (Text × Bucket) → Text → Option Bucket
    unfolding same_text
    bucket_for [] key = none
    bucket_for ((k, b) ∷ rest) key = if same_text k key then some b else bucket_for rest key

    unfoldable pub without : List (Text × Bucket) → Text → List (Text × Bucket)
    unfolding same_text
    without [] key = []
    without ((k, b) ∷ rest) key =
        let others = without rest key in if same_text k key then others else (k, b) ∷ others

    abbrev pub drop_oldest : List (Text × Bucket) → List (Text × Bucket)
    drop_oldest [] = []
    drop_oldest (x ∷ rest) = rest

    -- The items once a bucket that is missing has room.
    abbrev pub make_room : List (Text × Bucket) → List (Text × Bucket)
    make_room buckets = if leb most (length buckets) then drop_oldest buckets else buckets

    -- `PerClientLimiter.acquire`. A bucket that is made reads the clock once more (`made`).
    unfoldable pub acquire :
        List (Text × Bucket) → Text → Val → Val → List (Text × Bucket) × Option Val
    unfolding take bucket_for without
    acquire buckets key made now = elim (bucket_for buckets key) [
      | some b ↦ (without buckets key ++ (key, (take b now).0) ∷ [], (take b now).1)
      | none ↦
          (make_room buckets ++ (key, (take (fresh made) now).0) ∷ [], (take (fresh made) now).1)
    ]

-- The entries of `X-Forwarded-For`, stripped, the empty ones left out.
unfoldable pub stripped : List Text → List Text
unfolding strip
stripped [] = []
stripped (part ∷ parts) =
    let rest = stripped parts in if is_empty (strip part) then rest else strip part ∷ rest

unfoldable pub chain : Text → List Text
unfolding stripped split
chain forwarded_for = stripped (split 44 forwarded_for)

-- "unknown".
abbrev pub unknown_client : Text
unknown_client = 117 ∷ 110 ∷ 107 ∷ 110 ∷ 111 ∷ 119 ∷ 110 ∷ []

abbrev pub or_else : Text → Text → Text
or_else [] other = other
or_else (c ∷ s) other = c ∷ s

abbrev pub given : Option Text → Text
given none = []
given (some s) = s

-- `client_key`. An entry counted from the end is one counted from the front of the reverse.
unfoldable pub client_key : Option Text → Option Text → ℕ → Text
unfolding chain strip
client_key peer forwarded_for hops =
    let direct = or_else (strip (given peer)) unknown_client in
    let header = given forwarded_for in
    if ltb 0 hops && not (is_empty header) && leb hops (length (chain header))
    then elim (get_elem? (reverse (chain header)) (hops - 1)) [ some entry ↦ entry | none ↦ direct ]
    else direct

-- `retry_after_header`, of the ceiling of the seconds.
abbrev pub retry_after_seconds : ℕ → ℕ
retry_after_seconds ceiling = if ltb 1 ceiling then ceiling else 1

-- What a limiter answers a routing request with, or `LimiterUnavailable`.
pub data Answer : Type 0 where
  admitted unavailable : Answer
  wait : ℕ → Answer

-- `enforce_route_quota`: the value of `Retry-After` of a refusal; it fails open.
unfoldable pub enforce_route_quota : Answer → Option ℕ
enforce_route_quota admitted = none
enforce_route_quota unavailable = none
enforce_route_quota (wait ceiling) = some (retry_after_seconds ceiling)
