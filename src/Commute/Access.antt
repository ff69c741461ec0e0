-- ===== src/Commute/Access.antt =====
-- Who is let in: tokens minted and withdrawn, and the traces that a purge leaves.
use Prim.Native.String.{String}
use safety_aware_route_plann.Base.{
  ℕ, Bool, true, false, ◌||◌, Option, none, some, List, [], ◌∷◌, ◌++◌, ◌+◌, ◌*◌, ◌≤◌, ◌<◌, ◌==◌,
  if◌then◌else◌, ◌≡◌, ◌≢◌, refl, arith, Bool-cases, ==_self, inl, inr, ap, ◌∙◌, sym, subst, In,
  Text, strip, is_empty,
}
use safety_aware_route_plann.Commute.Tables.{TokenRow, ChunkRow, Db, has_token}
use safety_aware_route_plann.Commute.Store.{
  Outcome, claim_trip, settle, transact, encoded, put_chunk, end_trip,
}
use safety_aware_route_plann.Commute.Tokens.{
  Tester, Issue, issued, value_error, integrity_error, issue, next_id, has_hash, is_active,
  find_active, revoke_row, revoke_rows, authenticate, revoke,
}
use safety_aware_route_plann.Commute.Retention.{
  is_held, expires, day_ms, purge_row, purge_rows, purge_count, purge_raw_traces,
}
use safety_aware_route_plann.Commute.History.{
  Operation, chunk, end, mint, withdraw, purge, after_issue, apply, run,
}

-- A row of this id that is not withdrawn.
abbrev is_live : ℕ → TokenRow → Bool
is_live i r = elim r.revoked_at [ some _ ↦ false | none ↦ r.id == i ]

unfoldable live : ℕ → List TokenRow → Bool
live i [] = false
live i (r ∷ rows) = is_live i r || live i rows

live-revoke_same : (i now : ℕ) (rows : List TokenRow) → live i (revoke_rows i now rows) ≡ false
unfolding live revoke_rows revoke_row
live-revoke_same i now [] = refl
live-revoke_same i now (r ∷ rows) = ground (arith, live-revoke_same i now rows)

live-revoke :
    (i j now : ℕ) (rows : List TokenRow)
    → live i rows ≡ false
    → live i (revoke_rows j now rows) ≡ false
unfolding live revoke_rows revoke_row
live-revoke i j now [] h = refl
live-revoke i j now (r ∷ rows) h = ground (arith, live-revoke i j now rows)

live-last :
    (i : ℕ) (rows : List TokenRow) (r : TokenRow)
    → live i (rows ++ r ∷ []) ≡ live i rows || is_live i r
unfolding live
live-last i [] r = ground arith
live-last i (x ∷ rows) r = ground (arith, live-last i rows r)

has_token-last :
    (i : ℕ) (rows : List TokenRow) (r : TokenRow)
    → has_token i rows ≡ true
    → has_token i (rows ++ r ∷ []) ≡ true
unfolding has_token
has_token-last i [] r h = ground arith
has_token-last i (x ∷ rows) r h = ground (arith, has_token-last i rows r)

has_token-revoke :
    (i j now : ℕ) (rows : List TokenRow)
    → has_token i rows ≡ true
    → has_token i (revoke_rows j now rows) ≡ true
unfolding has_token revoke_rows revoke_row
has_token-revoke i j now [] h = h
has_token-revoke i j now (x ∷ rows) h = ground (arith, has_token-revoke i j now rows)

next_id-above : (i : ℕ) (rows : List TokenRow) → has_token i rows ≡ true → i < next_id rows
unfolding has_token next_id
next_id-above i [] h = ground arith
next_id-above i (r ∷ rows) h = ground (arith, next_id-above i rows)

find_active-live :
    (i hash : ℕ) (rows : List TokenRow) (who : Tester)
    → live i rows ≡ false
    → find_active hash rows ≡ some who
    → who.id ≢ i
unfolding live find_active is_active
find_active-live i hash [] who l h = ground arith
find_active-live i hash (r ∷ rows) who l h = ground (arith, find_active-live i hash rows who)

module _ {V : Type 0} where
  -- The id was given out, and is withdrawn.
  record Withdrawn (i : ℕ) (s : Db V) : Type 0 where
    known : has_token i s.tester_tokens ≡ true
    dead : live i s.tester_tokens ≡ false

  transact-tokens :
      (s : Db V) (m : Option (Db V × Bool)) (k : Db V → Db V × Outcome)
      → ((c : Db V) (b : Bool) → m ≡ some (c, b) → c.tester_tokens ≡ s.tester_tokens)
      → ((c : Db V) → (k c).0.tester_tokens ≡ c.tester_tokens)
      → (transact s m k).0.tester_tokens ≡ s.tester_tokens
  unfolding transact
  transact-tokens s none k claim rest = refl
  transact-tokens s (some (c, false)) k claim rest = claim c false refl
  transact-tokens s (some (c, true)) k claim rest = rest c ∙ claim c true refl

  claim_trip-tokens :
      (s : Db V) (trip token now : ℕ) (c : Db V) (b : Bool)
      → claim_trip s trip token now ≡ some (c, b)
      → c.tester_tokens ≡ s.tester_tokens
  unfolding claim_trip
  claim_trip-tokens s trip token now c b h = ground arith

  settle-tokens :
      (c u : Db V) (old : Option ℕ) (digest : ℕ)
      → u.tester_tokens ≡ c.tester_tokens
      → (settle c old digest u).0.tester_tokens ≡ c.tester_tokens
  unfolding settle
  settle-tokens c u none digest h = h
  settle-tokens c u (some old) digest h = refl

  encoded-tokens :
      (s : Db V) (digest : Option ℕ) (k : ℕ → Db V × Outcome)
      → ((d : ℕ) → (k d).0.tester_tokens ≡ s.tester_tokens)
      → (encoded s digest k).0.tester_tokens ≡ s.tester_tokens
  unfolding encoded
  encoded-tokens s none k h = refl
  encoded-tokens s (some d) k h = h d

  Withdrawn-tokens :
      (i : ℕ) (s u : Db V) → u.tester_tokens ≡ s.tester_tokens → Withdrawn i s → Withdrawn i u
  Withdrawn-tokens i s u e h = record { known = rw e h.known; dead = rw e h.dead }

  Withdrawn-issue :
      (i : ℕ) (s : Db V) (label : Text) (hash now : ℕ)
      → Withdrawn i s
      → Withdrawn i (after_issue s (issue s label hash now))
  unfolding issue
  Withdrawn-issue i s label hash now h = elim (Bool-cases (is_empty (strip label))) [
    | inl e ↦ rw (e, issue) h
    | inr e ↦ elim (Bool-cases (has_hash hash s.tester_tokens)) [
      | inl f ↦ rw (e, f, issue) h
      | inr f ↦
          let fresh : i < next_id s.tester_tokens = next_id-above i _ h.known in
          rw (e, f, issue)
            (record {
              known = has_token-last i s.tester_tokens _ h.known;
              dead = live-last i s.tester_tokens _ ∙ ground (arith, fresh, h.dead);
            })
    ]
  ]

  Withdrawn-revoke :
      (i : ℕ) (s : Db V) (token now : ℕ) → Withdrawn i s → Withdrawn i (revoke s token now).0
  unfolding revoke
  Withdrawn-revoke i s token now h = elim (Bool-cases (has_token token s.tester_tokens)) [
    | inr e ↦ rw (e, revoke) h
    | inl e ↦
        rw (e, revoke)
          (record {
            known = has_token-revoke i token now s.tester_tokens h.known;
            dead = live-revoke i token now s.tester_tokens h.dead;
          })
  ]

  module _ (content_digest : String → Option ℕ) where
    Withdrawn-apply :
        (i : ℕ) (s : Db V) (o : Operation V)
        → Withdrawn i s
        → Withdrawn i (apply content_digest s o)
    unfolding apply put_chunk end_trip purge_raw_traces
    Withdrawn-apply i s (chunk token trip seq c t0 t1) h =
        Withdrawn-tokens i s _
          (encoded-tokens s _ _ (λ d.
            transact-tokens s _ _ (claim_trip-tokens s trip token t0)
              (λ u. settle-tokens u _ _ _ refl)))
          h
    Withdrawn-apply i s (end token trip e t0 t1) h =
        Withdrawn-tokens i s _
          (encoded-tokens s _ _ (λ d.
            transact-tokens s _ _ (claim_trip-tokens s trip token t0)
              (λ u. settle-tokens u _ _ _ refl)))
          h
    Withdrawn-apply i s (mint label hash now) h = Withdrawn-issue i s label hash now h
    Withdrawn-apply i s (withdraw token now) h = Withdrawn-revoke i s token now h
    Withdrawn-apply i s (purge now age) h = Withdrawn-tokens i s _ refl h

    Withdrawn-run :
        (i : ℕ) (s : Db V) (ops : List (Operation V))
        → Withdrawn i s
        → Withdrawn i (run content_digest s ops)
    unfolding run
    Withdrawn-run i s [] h = h
    Withdrawn-run i s (o ∷ ops) h =
        Withdrawn-run i (apply content_digest s o) ops (Withdrawn-apply i s o h)

    -- After a token id that was given out is revoked, and whatever happens to the store afterwards
    -- (mints included), no token authenticates as that id.
    pub revoke-authenticate :
        (s : Db V) (i now : ℕ) (ops : List (Operation V)) (hash : ℕ) (who : Tester)
        → has_token i s.tester_tokens ≡ true
        → authenticate (run content_digest (revoke s i now).0 ops) hash ≡ some who
        → who.id ≢ i
    unfolding authenticate revoke
    revoke-authenticate s i now ops hash who known h =
        let gone : Withdrawn i (revoke s i now).0 =
          rw (known, revoke)
            (record {
              known = has_token-revoke i i now s.tester_tokens known;
              dead = live-revoke_same i now s.tester_tokens;
            }) in
        find_active-live i hash _ who (Withdrawn-run i _ ops gone).dead h

find_active-last :
    (hash : ℕ) (rows : List TokenRow) (r : TokenRow)
    → has_hash hash rows ≡ false
    → find_active hash (rows ++ r ∷ [])
      ≡ (if is_active hash r then some (record { id = r.id; label = r.label }) else none)
unfolding find_active has_hash is_active
find_active-last hash [] r h = refl
find_active-last hash (x ∷ rows) r h = ground (arith, find_active-last hash rows r)

find_active-other :
    (hash : ℕ) (rows : List TokenRow) (r : TokenRow)
    → r.token_sha256 ≢ hash
    → find_active hash (rows ++ r ∷ []) ≡ find_active hash rows
unfolding find_active is_active
find_active-other hash [] r ne = ground arith
find_active-other hash (x ∷ rows) r ne = ground (arith, find_active-other hash rows r ne)

module _ {V : Type 0} where
  abbrev table_of : Issue V → List TokenRow
  table_of (issued u i) = u.tester_tokens
  table_of value_error = []
  table_of integrity_error = []

  abbrev id_of : Issue V → ℕ
  id_of (issued u i) = i
  id_of value_error = 0
  id_of integrity_error = 0

  -- A token that was minted lets its holder in, under the id that the mint returned and the
  -- stripped label; whoever holds another token is let in exactly as before.
  pub issue-authenticate :
      (s u : Db V) (label : Text) (hash now i : ℕ)
      → issue s label hash now ≡ issued u i
      → (authenticate u hash ≡ some (record { id = i; label = strip label }))
        × ((other : ℕ) → hash ≢ other → authenticate u other ≡ authenticate s other)
  unfolding issue authenticate
  issue-authenticate s u label hash now i h = elim (Bool-cases (is_empty (strip label))) [
    | inl e ↦ ground (arith, e)
    | inr e ↦ elim (Bool-cases (has_hash hash s.tester_tokens)) [
      | inl f ↦ ground (arith, e, f)
      | inr f ↦
          let row : TokenRow = record {
            id = next_id s.tester_tokens;
            label = strip label;
            token_sha256 = hash;
            created_at = now;
            revoked_at = none;
          } in
          let made : issued (record s { tester_tokens = s.tester_tokens ++ row ∷ [] })
                (next_id s.tester_tokens)
              ≡ issued u i =
            sym (rw (e, f, issue) refl) ∙ h in
          let table : s.tester_tokens ++ row ∷ [] ≡ u.tester_tokens = ap table_of made in
          let same : next_id s.tester_tokens ≡ i = ap id_of made in
          (
            subst (λ rows. find_active hash rows ≡ some (record { id = i; label = strip label }))
                table
                (find_active-last hash s.tester_tokens row f ∙ rw (==_self hash, same, is_active)),
            λ other ne.
                subst (λ rows. find_active other rows ≡ find_active other s.tester_tokens) table
                  (find_active-other other s.tester_tokens row ne),
          )
    ]
  ]

expires-purge_row : (now age : ℕ) (r : ChunkRow) → expires now age (purge_row now age r) ≡ false
unfolding purge_row
expires-purge_row now age r = ground arith

purge_row-fresh : (now age : ℕ) (r : ChunkRow) → expires now age r ≡ false → purge_row now age r ≡ r
unfolding purge_row
purge_row-fresh now age r h = ground arith

purge_rows-again :
    (now age : ℕ) (rows : List ChunkRow)
    → (purge_rows now age (purge_rows now age rows) ≡ purge_rows now age rows)
      × (purge_count now age (purge_rows now age rows) ≡ 0)
unfolding purge_rows purge_count
purge_rows-again now age [] = (refl, refl)
purge_rows-again now age (r ∷ rows) =
    let (same, count) = purge_rows-again now age rows in
    let gone = expires-purge_row now age r in
    (rw (purge_row-fresh now age (purge_row now age r) gone, same), rw (gone, count))

purge_rows-kept :
    (now age : ℕ) (rows : List ChunkRow) (r : ChunkRow)
    → In r (purge_rows now age rows)
    → is_held r ≡ true
    → In r rows × (now ≤ r.received_at + age * day_ms)
unfolding purge_rows purge_row
purge_rows-kept now age [] r m h = elim m [ ]
purge_rows-kept now age (x ∷ rows) r m h = elim m [
  | inr deep ↦ let (a, b) = purge_rows-kept now age rows r deep h in (inr a, b)
  | inl e ↦ elim (Bool-cases (expires now age x)) [
    | inl gone ↦
        let cleared : r ≡ record x { body = none; purged_at = some now } =
          ground (arith, gone, e) in
        let off : is_held r ≡ false = ap is_held cleared in ground (arith, off, h)
    | inr fresh ↦
        let same : r ≡ x = ground (arith, fresh, e) in
        let live_x : is_held x ≡ true = subst (λ y. is_held y ≡ true) same h in
        (
          inl same,
          subst (λ (y : ChunkRow). now ≤ y.received_at + age * day_ms) (sym same)
              (ground (arith, fresh, live_x)),
        )
  ]
]

module _ {V : Type 0} where
  -- After a purge every body that is still held belongs to a chunk that stood in the table before
  -- and is no older than the limit; and a second purge at the same time changes nothing and
  -- reports that it purged no row.
  pub purge_raw_traces-once :
      (s : Db V) (now age : ℕ)
      → ((r : ChunkRow)
          → In r (purge_raw_traces s now age).0.trace_chunks
          → is_held r ≡ true
          → In r s.trace_chunks × (now ≤ r.received_at + age * day_ms))
        × (purge_raw_traces (purge_raw_traces s now age).0 now age
            ≡ ((purge_raw_traces s now age).0, 0))
  unfolding purge_raw_traces
  purge_raw_traces-once s now age =
      let (same, count) = purge_rows-again now age s.trace_chunks in
      (λ r m h. purge_rows-kept now age s.trace_chunks r m h, rw (same, count))
