-- ===== src/Commute/History.antt =====
-- What a store has accepted stays: the operations on it, and what each leaves of a row.
use Prim.Native.String.{String}
use mathlib.Core.Option
use safety_aware_route_plann.Base.{
  ℕ, Bool, true, false, Option, none, some, List, [], ◌∷◌, ◌++◌, ◌≡◌, refl, arith, Bool-cases,
  Option-cases, ◌⊎◌, inl, inr, ap, sym, ◌∙◌, Text, strip, is_empty, subst,
}
use safety_aware_route_plann.Commute.Tables.{
  TokenRow, TripRow, ChunkRow, EndRow, Db, has_token, trip_owner, find_chunk, find_end,
}
use safety_aware_route_plann.Commute.Store.{
  TraceChunk, TripEnd, Outcome, chunk_row, end_row, claim_trip, settle, transact, encoded,
  put_chunk, end_trip,
}
use safety_aware_route_plann.Commute.Tokens.{
  Issue, issued, value_error, integrity_error, issue, revoke, has_hash,
}
use safety_aware_route_plann.Commute.Retention.{purge_row, purge_raw_traces}
use safety_aware_route_plann.Commute.Rows.{
  trip_owner-last, find_chunk-last, find_end-last, find_chunk-purge,
}

-- The same chunk, but for a body that was there and was cleared, with the time of that.
pub record Kept (r c : ChunkRow) : Type 0 where
  pub same_trip : c.trip_id ≡ r.trip_id
  pub same_seq : c.seq ≡ r.seq
  pub same_receipt : c.received_at ≡ r.received_at
  pub same_hash : c.content_sha256 ≡ r.content_sha256
  pub same_count : c.fix_count ≡ r.fix_count
  pub same_first : c.first_t ≡ r.first_t
  pub same_last : c.last_t ≡ r.last_t
  pub body_kept :
      ((c.body ≡ r.body) × (c.purged_at ≡ r.purged_at))
      ⊎ ((c.body ≡ none) × ((b : String) × (r.body ≡ some b)) × ((t : ℕ) × (c.purged_at ≡ some t)))

Kept-refl : (r : ChunkRow) → Kept r r
Kept-refl r = record {
  same_trip = refl;
  same_seq = refl;
  same_receipt = refl;
  same_hash = refl;
  same_count = refl;
  same_first = refl;
  same_last = refl;
  body_kept = inl (refl, refl);
}

Kept-trans : (r c d : ChunkRow) → Kept r c → Kept c d → Kept r d
Kept-trans r c d h k = record {
  same_trip = k.same_trip ∙ h.same_trip;
  same_seq = k.same_seq ∙ h.same_seq;
  same_receipt = k.same_receipt ∙ h.same_receipt;
  same_hash = k.same_hash ∙ h.same_hash;
  same_count = k.same_count ∙ h.same_count;
  same_first = k.same_first ∙ h.same_first;
  same_last = k.same_last ∙ h.same_last;
  body_kept = elim k.body_kept [
    | inr (gone, (b, held), at) ↦ elim h.body_kept [
      | inl (f, g) ↦ inr (gone, (b, sym f ∙ held), at)
      | inr (lost, there, t) ↦ let bad : none ≡ some b = sym lost ∙ held in ground (arith, bad)
    ]
    | inl (e, g) ↦ elim h.body_kept [
      | inl (f, i) ↦ inl (e ∙ f, g ∙ i)
      | inr (gone, held, (t, at)) ↦ inr (e ∙ gone, held, (t, g ∙ at))
    ]
  ];
}

Kept-purge_row : (now age : ℕ) (r : ChunkRow) → Kept r (purge_row now age r)
unfolding purge_row
Kept-purge_row now age r = ground arith

-- The operations of the service and of its command lines.
pub data Operation (V : Type 0) : Type 0 where
  chunk : (token trip seq : ℕ) → TraceChunk → (t0 t1 : ℕ) → Operation V
  end : (token trip : ℕ) → TripEnd V → (t0 t1 : ℕ) → Operation V
  mint : Text → (hash now : ℕ) → Operation V
  withdraw : (token now : ℕ) → Operation V
  purge : (now age : ℕ) → Operation V

module _ {V : Type 0} where
  pub record Extends (s u : Db V) : Type 0 where
    pub owners : (t o : ℕ) → trip_owner t s.trips ≡ some o → trip_owner t u.trips ≡ some o
    pub chunks :
        (t q : ℕ) (r : ChunkRow)
        → find_chunk t q s.trace_chunks ≡ some r
        → (c : ChunkRow) × (find_chunk t q u.trace_chunks ≡ some c) × Kept r c
    pub ends :
        (t : ℕ) (e : EndRow V) → find_end t s.trip_ends ≡ some e → find_end t u.trip_ends ≡ some e

  Extends-refl : (s : Db V) → Extends s s
  Extends-refl s = record {
    owners = λ t o h. h;
    chunks = λ t q r h. (r, h, Kept-refl r);
    ends = λ t e h. h;
  }

  Extends-trans : (s u v : Db V) → Extends s u → Extends u v → Extends s v
  Extends-trans s u v h k = record {
    owners = λ t o e. k.owners t o (h.owners t o e);
    chunks = λ t q r e.
        let (c, f, kc) = h.chunks t q r e in
        let (d, g, kd) = k.chunks t q c f in (d, g, Kept-trans r c d kc kd);
    ends = λ t x e. k.ends t x (h.ends t x e);
  }

  purge-Extends : (s : Db V) (now age : ℕ) → Extends s (purge_raw_traces s now age).0
  unfolding purge_raw_traces
  purge-Extends s now age = record {
    owners = λ t o h. h;
    chunks = λ t q r h. (
      purge_row now age r,
      find_chunk-purge t q now age s.trace_chunks ∙ ap (Option.map (purge_row now age)) h,
      Kept-purge_row now age r,
    );
    ends = λ t e h. h;
  }

  tester_tokens-Extends :
      (s : Db V) (rows : List TokenRow) → Extends s (record s { tester_tokens = rows })
  tester_tokens-Extends s rows = record {
    owners = λ t o h. h;
    chunks = λ t q x h. (x, h, Kept-refl x);
    ends = λ t e h. h;
  }

  trips-Extends : (s : Db V) (r : TripRow) → Extends s (record s { trips = s.trips ++ r ∷ [] })
  trips-Extends s r = record {
    owners = λ t o h. rw (trip_owner-last, h);
    chunks = λ t q x h. (x, h, Kept-refl x);
    ends = λ t e h. h;
  }

  trace_chunks-Extends :
      (s : Db V) (r : ChunkRow) → Extends s (record s { trace_chunks = s.trace_chunks ++ r ∷ [] })
  trace_chunks-Extends s r = record {
    owners = λ t o h. h;
    chunks = λ t q x h. (x, rw (find_chunk-last, h), Kept-refl x);
    ends = λ t e h. h;
  }

  trip_ends-Extends :
      (s : Db V) (r : EndRow V) → Extends s (record s { trip_ends = s.trip_ends ++ r ∷ [] })
  trip_ends-Extends s r = record {
    owners = λ t o h. h;
    chunks = λ t q x h. (x, h, Kept-refl x);
    ends = λ t e h. rw (find_end-last, h);
  }

  claim_trip-Extends :
      (s : Db V) (trip token now : ℕ) (c : Db V) (b : Bool)
      → claim_trip s trip token now ≡ some (c, b)
      → Extends s c
  unfolding claim_trip
  claim_trip-Extends s trip token now c b h = elim (Option-cases (trip_owner trip s.trips)) [
    | inr (o, e) ↦ let same : s ≡ c = ground arith in subst (Extends s) same (Extends-refl s)
    | inl e ↦
        let row : TripRow = record { trip_id = trip; token_id = token; created_at = now } in
        let same : record s { trips = s.trips ++ row ∷ [] } ≡ c = ground arith in
        subst (Extends s) same (trips-Extends s row)
  ]

  transact-Extends :
      (s : Db V) (m : Option (Db V × Bool)) (k : Db V → Db V × Outcome)
      → ((c : Db V) (b : Bool) → m ≡ some (c, b) → Extends s c)
      → ((c : Db V) → Extends c (k c).0)
      → Extends s (transact s m k).0
  unfolding transact
  transact-Extends s none k claim rest = Extends-refl s
  transact-Extends s (some (c, false)) k claim rest = claim c false refl
  transact-Extends s (some (c, true)) k claim rest =
      Extends-trans s c (k c).0 (claim c true refl) (rest c)

  settle-Extends :
      (c u : Db V) (old : Option ℕ) (digest : ℕ) → Extends c u → Extends c (settle c old digest u).0
  unfolding settle
  settle-Extends c u none digest h = h
  settle-Extends c u (some old) digest h = Extends-refl c

  encoded-Extends :
      (s : Db V) (digest : Option ℕ) (k : ℕ → Db V × Outcome)
      → ((d : ℕ) → Extends s (k d).0)
      → Extends s (encoded s digest k).0
  unfolding encoded
  encoded-Extends s none k h = Extends-refl s
  encoded-Extends s (some d) k h = h d

  -- A mint that fails leaves the tables as they are.
  abbrev pub after_issue : Db V → Issue V → Db V
  after_issue s (issued u i) = u
  after_issue s value_error = s
  after_issue s integrity_error = s

  module _ (content_digest : String → Option ℕ) where
    unfoldable pub apply : Db V → Operation V → Db V
    apply s (chunk token trip seq c t0 t1) = (put_chunk content_digest s token trip seq c t0 t1).0
    apply s (end token trip e t0 t1) = (end_trip content_digest s token trip e t0 t1).0
    apply s (mint label hash now) = after_issue s (issue s label hash now)
    apply s (withdraw token now) = (revoke s token now).0
    apply s (purge now age) = (purge_raw_traces s now age).0

    unfoldable pub run : Db V → List (Operation V) → Db V
    unfolding apply
    run s [] = s
    run s (o ∷ ops) = run (apply s o) ops

    issue-Extends :
        (s : Db V) (label : Text) (hash now : ℕ)
        → Extends s (after_issue s (issue s label hash now))
    unfolding issue
    issue-Extends s label hash now = elim (Bool-cases (is_empty (strip label))) [
      | inl e ↦ rw (e, issue) (Extends-refl s)
      | inr e ↦ elim (Bool-cases (has_hash hash s.tester_tokens)) [
        | inl f ↦ rw (e, f, issue) (Extends-refl s)
        | inr f ↦ rw (e, f, issue) (tester_tokens-Extends s _)
      ]
    ]

    revoke-Extends : (s : Db V) (token now : ℕ) → Extends s (revoke s token now).0
    unfolding revoke
    revoke-Extends s token now = elim (Bool-cases (has_token token s.tester_tokens)) [
      | inl e ↦ rw (e, revoke) (tester_tokens-Extends s _)
      | inr e ↦ rw (e, revoke) (Extends-refl s)
    ]

    apply-Extends : (s : Db V) (o : Operation V) → Extends s (apply s o)
    unfolding apply put_chunk end_trip
    apply-Extends s (chunk token trip seq c t0 t1) = encoded-Extends s _ _ (λ d.
        transact-Extends s _ _ (claim_trip-Extends s trip token t0)
          (λ u. settle-Extends u _ _ _ (trace_chunks-Extends u (chunk_row d trip seq t1 c))))
    apply-Extends s (end token trip e t0 t1) = encoded-Extends s _ _ (λ d.
        transact-Extends s _ _ (claim_trip-Extends s trip token t0)
          (λ u. settle-Extends u _ _ _ (trip_ends-Extends u (end_row d trip t1 e))))
    apply-Extends s (mint label hash now) = issue-Extends s label hash now
    apply-Extends s (withdraw token now) = revoke-Extends s token now
    apply-Extends s (purge now age) = purge-Extends s now age

    -- Whatever operations follow, a trip keeps its owner, an end is found as it was stored, and a chunk
    -- is found under its key with every field it had, or, if its body was there, with the body cleared
    -- and a time of the purge in place of those two fields.
    pub run-Extends : (s : Db V) (ops : List (Operation V)) → Extends s (run s ops)
    unfolding run
    run-Extends s [] = Extends-refl s
    run-Extends s (o ∷ ops) =
        Extends-trans s (apply s o) _ (apply-Extends s o) (run-Extends (apply s o) ops)
