-- ===== src/Commute/Store.antt =====
-- commute/store.py: `TraceStore`. A transaction is a function from the tables to the tables and an
-- outcome; where a constraint of the schema is violated it is rolled back (`integrity_error`).
-- `content_digest` is SHA-256 of the UTF-8 text, from Python's library; `none` is the
-- UnicodeEncodeError of a lone surrogate, which `canonical_json` leaves as it is. The JSON text of a
-- value is Python's too. Failures of SQLite itself (a full disk, a lock) are left out.
use Prim.Native.String.{String}
use mathlib.Core.List.{head?, get_last?}
use mathlib.Core.Option
use safety_aware_route_plann.Base.{
  ℕ, Bool, true, false, Option, none, some, List, [], ◌∷◌, ◌++◌, ◌==◌, if◌then◌else◌, length,
}
use safety_aware_route_plann.Commute.Tables.{
  ChunkRow, Prediction, EndRow, Db, has_token, trip_owner, find_chunk, find_end,
}

pub data Outcome : Type 0 where
  created replayed conflict not_yours integrity_error unencodable : Outcome

-- `TraceChunk`, as the store reads it: the times of its fixes, and its canonical JSON text.
pub record TraceChunk : Type 0 where
  pub times : List ℕ
  pub text : String

pub record TripEnd (V : Type 0) : Type 0 where
  pub ended_at : ℕ
  pub arrived : Bool
  pub prediction : Option (Prediction V)
  pub text : String

abbrev pub chunk_row : ℕ → ℕ → ℕ → ℕ → TraceChunk → ChunkRow
chunk_row digest trip_id seq now chunk = record {
  trip_id = trip_id;
  seq = seq;
  received_at = now;
  content_sha256 = digest;
  fix_count = length chunk.times;
  first_t = head? chunk.times;
  last_t = get_last? chunk.times;
  body = some chunk.text;
  purged_at = none;
}

module _ {V : Type 0} where
  -- `_claim_trip`: whether the trip is this token's; a new trip is entered. `none` is a violated
  -- foreign key.
  unfoldable pub claim_trip : Db V → ℕ → ℕ → ℕ → Option (Db V × Bool)
  claim_trip s trip_id token_id now = elim (trip_owner trip_id s.trips) [
    | some owner ↦ some (s, owner == token_id)
    | none ↦
        if has_token token_id s.tester_tokens
        then some (
          record s {
            trips =
                s.trips ++ record { trip_id = trip_id; token_id = token_id; created_at = now } ∷ [];
          },
          true,
        )
        else none
  ]

  -- What stands under the key already decides between a replay and a conflict.
  unfoldable pub settle : Db V → Option ℕ → ℕ → Db V → Db V × Outcome
  settle s none digest inserted = (inserted, created)
  settle s (some old) digest inserted = (s, if old == digest then replayed else conflict)

  unfoldable pub transact : Db V → Option (Db V × Bool) → (Db V → Db V × Outcome) → Db V × Outcome
  transact s none k = (s, integrity_error)
  transact s (some (claimed, false)) k = (claimed, not_yours)
  transact s (some (claimed, true)) k = k claimed

  -- The digest is taken before the transaction.
  unfoldable pub encoded : Db V → Option ℕ → (ℕ → Db V × Outcome) → Db V × Outcome
  encoded s none k = (s, unencodable)
  encoded s (some digest) k = k digest

  abbrev pub end_row : ℕ → ℕ → ℕ → TripEnd V → EndRow V
  end_row digest trip_id now end = record {
    trip_id = trip_id;
    received_at = now;
    content_sha256 = digest;
    ended_at = end.ended_at;
    arrived = end.arrived;
    predicted_effective_at = Option.map (λ (p : Prediction V). p.effective_at) end.prediction;
    predicted_eta_s = Option.map (λ (p : Prediction V). p.eta_s) end.prediction;
    level = Option.map (λ (p : Prediction V). p.level) end.prediction;
    profile_version = Option.bind end.prediction (λ (p : Prediction V). p.profile_version);
  }

  module _ (content_digest : String → Option ℕ) where
    -- `put_chunk`. The clock is read once for a new trip (`t0`) and once for a new row (`t1`).
    unfoldable pub put_chunk : Db V → ℕ → ℕ → ℕ → TraceChunk → ℕ → ℕ → Db V × Outcome
    unfolding claim_trip settle transact encoded
    put_chunk s token_id trip_id seq chunk t0 t1 = encoded s (content_digest chunk.text) (λ digest.
        transact s (claim_trip s trip_id token_id t0) (λ c.
          settle c
            (Option.map (λ (r : ChunkRow). r.content_sha256)
              (find_chunk trip_id seq c.trace_chunks))
            digest
            (record c {
              trace_chunks = c.trace_chunks ++ chunk_row digest trip_id seq t1 chunk ∷ [];
            })))

    -- `end_trip`.
    unfoldable pub end_trip : Db V → ℕ → ℕ → TripEnd V → ℕ → ℕ → Db V × Outcome
    unfolding claim_trip settle transact encoded
    end_trip s token_id trip_id end t0 t1 = encoded s (content_digest end.text) (λ digest.
        transact s (claim_trip s trip_id token_id t0) (λ c.
          settle c (Option.map (λ (r : EndRow V). r.content_sha256) (find_end trip_id c.trip_ends))
            digest (record c { trip_ends = c.trip_ends ++ end_row digest trip_id t1 end ∷ [] })))
