-- ===== src/Commute/Replay.antt =====
-- Uploads may be retried: what an accepted chunk or trip end answers from then on.
use Prim.Native.String.{String}
use mathlib.Core.Option
use mathlib.Core.Option.{some-injective}
use safety_aware_route_plann.Base.{
  ℕ, Bool, true, false, Option, none, some, List, [], ◌∷◌, ◌++◌, ◌==◌, if◌then◌else◌, ◌≡◌, ◌≢◌,
  refl, arith, Option-cases, ==_self, ◌⊎◌, inl, inr, ap, ◌∙◌, sym, subst,
}
use safety_aware_route_plann.Commute.Tables.{
  TripRow, ChunkRow, Db, trip_owner, find_chunk, is_chunk,
}
use safety_aware_route_plann.Commute.Store.{
  TraceChunk, TripEnd, Outcome, chunk_row, claim_trip, settle, transact, encoded, put_chunk,
  end_trip, created, replayed, conflict, not_yours, unencodable,
}
use safety_aware_route_plann.Commute.Rows.{trip_owner-last, find_chunk-last}
use safety_aware_route_plann.Commute.History.{Operation, Extends, run, run-Extends}

-- The answers that store something or find it stored.
abbrev pub Accepted : Outcome → Type 0
Accepted o = (o ≡ created) ⊎ (o ≡ replayed)

module _ {V : Type 0} where
  -- The trip is the token's.
  claim_own :
      (s : Db V) (trip token now : ℕ)
      → trip_owner trip s.trips ≡ some token
      → claim_trip s trip token now ≡ some (s, true)
  unfolding claim_trip
  claim_own s trip token now h = ground arith

  claim_other :
      (s : Db V) (trip token owner now : ℕ)
      → trip_owner trip s.trips ≡ some owner
      → owner ≢ token
      → claim_trip s trip token now ≡ some (s, false)
  unfolding claim_trip
  claim_other s trip token owner now h ne = ground arith

  claimed_owner :
      (s c : Db V) (trip token now : ℕ)
      → claim_trip s trip token now ≡ some (c, true)
      → trip_owner trip c.trips ≡ some token
  unfolding claim_trip
  claimed_owner s c trip token now h = elim (Option-cases (trip_owner trip s.trips)) [
    | inr (o, e) ↦
        let same : s ≡ c = ground arith in
        subst (λ (u : Db V). trip_owner trip u.trips ≡ some token) same (ground arith)
    | inl e ↦
        let row : TripRow = record { trip_id = trip; token_id = token; created_at = now } in
        let same : record s { trips = s.trips ++ row ∷ [] } ≡ c = ground arith in
        subst (λ (u : Db V). trip_owner trip u.trips ≡ some token) same
          (rw (trip_owner-last, e, ==_self trip))
  ]

  transact-Accepted :
      (s : Db V) (m : Option (Db V × Bool)) (k : Db V → Db V × Outcome)
      → Accepted (transact s m k).1
      → (c : Db V) × (m ≡ some (c, true)) × (transact s m k ≡ k c)
  unfolding transact
  transact-Accepted s none k ok = ground arith
  transact-Accepted s (some (c, false)) k ok = ground arith
  transact-Accepted s (some (c, true)) k ok = (c, refl, refl)

  -- An accepted digest was absent and is inserted, or stood there already.
  settle-Accepted :
      (c u : Db V) (old : Option ℕ) (digest : ℕ)
      → Accepted (settle c old digest u).1
      → ((old ≡ none) × ((settle c old digest u).0 ≡ u))
        ⊎ ((old ≡ some digest) × ((settle c old digest u).0 ≡ c))
  unfolding settle
  settle-Accepted c u none digest ok = inl (refl, refl)
  settle-Accepted c u (some old) digest ok = ground arith

-- What is accepted had a digest.
encoded-Accepted :
    {V : Type 0} (s : Db V) (digest : Option ℕ) (k : ℕ → Db V × Outcome)
    → Accepted (encoded s digest k).1
    → (d : ℕ) × (digest ≡ some d) × (encoded s digest k ≡ k d)
unfolding encoded
encoded-Accepted s none k ok = ground arith
encoded-Accepted s (some d) k ok = (d, refl, refl)

-- The answer to a text under a key that holds one, by their digests.
abbrev pub resent : Option ℕ → Option ℕ → Outcome
resent old none = unencodable
resent none (some digest) = conflict
resent (some old) (some digest) = if old == digest then replayed else conflict

-- The answer to a text for a trip that is another's.
abbrev pub denied : Option ℕ → Outcome
denied none = unencodable
denied (some digest) = not_yours

abbrev hash_of : Option ChunkRow → Option ℕ
hash_of o = Option.map (λ (r : ChunkRow). r.content_sha256) o

module _ {V : Type 0} (content_digest : String → Option ℕ) (trip seq token : ℕ) where
  -- The chunk stands in the tables with this digest, on a trip of the token.
  record Holds (s : Db V) (digest : ℕ) : Type 0 where
    owner : trip_owner trip s.trips ≡ some token
    held : hash_of (find_chunk trip seq s.trace_chunks) ≡ some digest

  -- The transaction of a text with this digest.
  abbrev write : Db V → TraceChunk → ℕ → ℕ → ℕ → Db V × Outcome
  write s chunk digest t0 t1 = transact s (claim_trip s trip token t0) (λ c.
      settle c (hash_of (find_chunk trip seq c.trace_chunks)) digest
        (record c { trace_chunks = c.trace_chunks ++ chunk_row digest trip seq t1 chunk ∷ [] }))

  Holds-inserted :
      (c : Db V) (r : ChunkRow)
      → trip_owner trip c.trips ≡ some token
      → hash_of (find_chunk trip seq c.trace_chunks) ≡ none
      → is_chunk trip seq r ≡ true
      → Holds (record c { trace_chunks = c.trace_chunks ++ r ∷ [] }) r.content_sha256
  Holds-inserted c r own absent key = record {
    owner = own;
    held = elim (Option-cases (find_chunk trip seq c.trace_chunks)) [
      | inl e ↦ rw (find_chunk-last, e, key)
      | inr (x, e) ↦ ground arith
    ];
  }

  Holds-transact :
      (s : Db V) (chunk : TraceChunk) (digest t0 t1 : ℕ)
      → Accepted (write s chunk digest t0 t1).1
      → Holds (write s chunk digest t0 t1).0 digest
  Holds-transact s chunk digest t0 t1 ok =
      let (c, e, f) = transact-Accepted s _ _ ok in
      let own = claimed_owner s c trip token t0 e in
      let old : Option ℕ = hash_of (find_chunk trip seq c.trace_chunks) in
      let row : ChunkRow = chunk_row digest trip seq t1 chunk in
      let inserted : Db V = record c { trace_chunks = c.trace_chunks ++ row ∷ [] } in
      let there : (u : Db V)
          → (settle c old digest inserted).0 ≡ u
          → Holds u digest
          → Holds (write s chunk digest t0 t1).0 digest =
        (λ u g k. subst (λ v. Holds v digest) (sym (ap (λ (r : Db V × Outcome). r.0) f ∙ g)) k) in
      elim (settle-Accepted c inserted old digest
        (subst (λ (r : Db V × Outcome). Accepted r.1) f ok)) [
          | inl (absent, g) ↦
              there inserted g (Holds-inserted c row own absent (rw (==_self trip, ==_self seq)))
          | inr (same, g) ↦ there c g (record { owner = own; held = same })
        ]

  Holds-put :
      (s : Db V) (chunk : TraceChunk) (t0 t1 : ℕ)
      → Accepted (put_chunk content_digest s token trip seq chunk t0 t1).1
      → (digest : ℕ) × (content_digest chunk.text ≡ some digest)
        × Holds (put_chunk content_digest s token trip seq chunk t0 t1).0 digest
  unfolding put_chunk
  Holds-put s chunk t0 t1 ok =
      let (d, e, f) = encoded-Accepted s _ _ ok in
      let accepted = subst (λ (r : Db V × Outcome). Accepted r.1) f ok in
      (
        d,
        e,
        subst (λ (r : Db V × Outcome). Holds r.0 d) (sym f)
            (Holds-transact s chunk d t0 t1 accepted),
      )

  Holds-Extends : (s u : Db V) (digest : ℕ) → Extends s u → Holds s digest → Holds u digest
  Holds-Extends s u digest ext h = elim (Option-cases (find_chunk trip seq s.trace_chunks)) [
    | inl e ↦ let gone : none ≡ some digest = sym (ap hash_of e) ∙ h.held in ground (arith, gone)
    | inr (r, e) ↦
        let (c, f, kept) = ext.chunks trip seq r e in
        record {
          owner = ext.owners trip token h.owner;
          held = rw f (ap some (kept.same_hash ∙ some-injective _ _ (sym (ap hash_of e) ∙ h.held)));
        }
  ]

  put-Holds :
      (s : Db V) (digest : ℕ) (chunk : TraceChunk) (t0 t1 : ℕ)
      → Holds s digest
      → put_chunk content_digest s token trip seq chunk t0 t1
        ≡ (s, resent (some digest) (content_digest chunk.text))
  unfolding put_chunk transact settle encoded
  put-Holds s digest chunk t0 t1 h = elim (Option-cases (content_digest chunk.text)) [
    | inl e ↦ rw (e, encoded) refl
    | inr (d, e) ↦ rw (e, encoded, claim_own s trip token t0 h.owner, h.held) refl
  ]

  denied-Holds :
      (s : Db V) (digest : ℕ) (other : TraceChunk) (end : TripEnd V) (t0 t1 thief q : ℕ)
      → token ≢ thief
      → Holds s digest
      → (put_chunk content_digest s thief trip q other t0 t1
          ≡ (s, denied (content_digest other.text)))
        × (end_trip content_digest s thief trip end t0 t1 ≡ (s, denied (content_digest end.text)))
  unfolding put_chunk end_trip transact encoded
  denied-Holds s digest other end t0 t1 thief q ne h = (
    elim (Option-cases (content_digest other.text)) [
      | inl e ↦ rw (e, encoded) refl
      | inr (d, e) ↦ rw (e, encoded, claim_other s trip thief token t0 h.owner ne) refl
    ],
    elim (Option-cases (content_digest end.text)) [
      | inl e ↦ rw (e, encoded) refl
      | inr (d, e) ↦ rw (e, encoded, claim_other s trip thief token t0 h.owner ne) refl
    ],
  )

  -- Once a chunk has been accepted under a trip and a sequence number, and whatever happens to the
  -- store afterwards (other uploads, ends, tokens minted or revoked, a purge of the bodies), an
  -- upload by the same token under the same key changes nothing: it is a replay if its text has the
  -- accepted one's digest, else a conflict; a text without a digest raises.
  pub put_chunk-again :
      (s : Db V) (chunk again : TraceChunk) (t0 t1 t2 t3 : ℕ) (ops : List (Operation V))
      → Accepted (put_chunk content_digest s token trip seq chunk t0 t1).1
      → put_chunk content_digest
          (run content_digest (put_chunk content_digest s token trip seq chunk t0 t1).0 ops)
          token
          trip
          seq
          again
          t2
          t3
        ≡ (
          run content_digest (put_chunk content_digest s token trip seq chunk t0 t1).0 ops,
          resent (content_digest chunk.text) (content_digest again.text),
        )
  put_chunk-again s chunk again t0 t1 t2 t3 ops ok =
      let (digest, e, h) = Holds-put s chunk t0 t1 ok in
      let u : Db V =
        run content_digest (put_chunk content_digest s token trip seq chunk t0 t1).0 ops in
      put-Holds u digest again t2 t3 (Holds-Extends _ _ _ (run-Extends content_digest _ ops) h)
      ∙ ap
          (λ (o : Option ℕ).
            let told : Db V × Outcome = (u, resent o (content_digest again.text)) in told)
          (sym e)

  -- Once a token's chunk has been accepted for a trip, then whatever happens to the store, a
  -- different token that uploads a chunk or an end for that trip is told that it is not its own, or
  -- its text has no digest and raises; and the store does not change.
  pub put_chunk-owned :
      (s : Db V) (chunk other : TraceChunk) (end : TripEnd V) (t0 t1 t2 t3 thief q : ℕ)
      (ops : List (Operation V))
      → Accepted (put_chunk content_digest s token trip seq chunk t0 t1).1
      → token ≢ thief
      → (put_chunk content_digest
            (run content_digest (put_chunk content_digest s token trip seq chunk t0 t1).0 ops)
            thief
            trip
            q
            other
            t2
            t3
          ≡ (
            run content_digest (put_chunk content_digest s token trip seq chunk t0 t1).0 ops,
            denied (content_digest other.text),
          ))
        × (end_trip content_digest
              (run content_digest (put_chunk content_digest s token trip seq chunk t0 t1).0 ops)
              thief
              trip
              end
              t2
              t3
            ≡ (
              run content_digest (put_chunk content_digest s token trip seq chunk t0 t1).0 ops,
              denied (content_digest end.text),
            ))
  put_chunk-owned s chunk other end t0 t1 t2 t3 thief q ops ok ne =
      let (digest, e, h) = Holds-put s chunk t0 t1 ok in
      denied-Holds _ digest other end t2 t3 thief q ne
        (Holds-Extends _ _ _ (run-Extends content_digest _ ops) h)
