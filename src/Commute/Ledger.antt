-- ===== src/Commute/Ledger.antt =====
-- What the store promises its uploaders, without its tables: who owns a trip, and which digest stands
-- under a key. The store's writes are those of the ledger.
use Prim.Native.String.{String}
use mathlib.Core.Option
use mathlib.Core.Path.{fun_ext}
use safety_aware_route_plann.Base.{
  ℕ, Bool, true, false, ◌&&◌, Option, none, some, List, [], ◌∷◌, ◌++◌, ◌==◌, if◌then◌else◌, ◌≡◌,
  refl, arith, Option-cases, Bool-cases, inl, inr, ap, ◌∙◌, sym, subst,
}
use safety_aware_route_plann.Commute.Tables.{
  TripRow, ChunkRow, EndRow, Db, has_token, trip_owner, find_chunk, find_end, is_chunk,
}
use safety_aware_route_plann.Commute.Store.{
  TraceChunk, TripEnd, Outcome, chunk_row, end_row, claim_trip, settle, transact, encoded,
  put_chunk, end_trip, unencodable, created, replayed, conflict, not_yours, integrity_error,
}
use safety_aware_route_plann.Commute.Retention.{purge_raw_traces, purge_rows, purge_row}
use safety_aware_route_plann.Commute.Rows.{
  or_else, trip_owner-last, find_chunk-last, find_end-last, find_chunk-purge,
}

-- Four functions, and no rows.
pub record Ledger : Type 0 where
  pub tester : ℕ → Bool
  pub owner : ℕ → Option ℕ
  pub chunk : ℕ → ℕ → Option ℕ
  pub final : ℕ → Option ℕ

abbrev pub enter : Ledger → ℕ → ℕ → Ledger
enter l trip token = record l { owner = λ t. if trip == t then some token else l.owner t }

abbrev pub verdict : ℕ → Option ℕ → Outcome
verdict digest none = created
verdict digest (some old) = if old == digest then replayed else conflict

abbrev pub only_new : {A : Type 0} → Option ℕ → A → A → A
only_new none new old = new
only_new (some d) new old = old

-- A write by a token to a trip: the owner writes once under a key, an unowned trip becomes its
-- own, another's is left alone.
abbrev pub by_owner : Ledger → ℕ → ℕ → (Ledger → Ledger × Outcome) → Ledger × Outcome
by_owner l token trip write = elim (l.owner trip) [
  | some o ↦ if o == token then write l else (l, not_yours)
  | none ↦ if l.tester token then write (enter l trip token) else (l, integrity_error)
]

abbrev pub record_chunk : ℕ → ℕ → ℕ → Ledger → Ledger × Outcome
record_chunk trip seq digest l = (
  only_new (l.chunk trip seq)
      (record l { chunk = λ t q. if trip == t && seq == q then some digest else l.chunk t q }) l,
  verdict digest (l.chunk trip seq),
)

abbrev pub record_final : ℕ → ℕ → Ledger → Ledger × Outcome
record_final trip digest l = (
  only_new (l.final trip) (record l { final = λ t. if trip == t then some digest else l.final t })
      l,
  verdict digest (l.final trip),
)

-- A text without a digest changes nothing.
abbrev pub only_encoded : Ledger → Option ℕ → (ℕ → Ledger × Outcome) → Ledger × Outcome
only_encoded l none k = (l, unencodable)
only_encoded l (some digest) k = k digest

abbrev pub hash_of : Option ChunkRow → Option ℕ
hash_of o = Option.map (λ (r : ChunkRow). r.content_sha256) o

hash-purge_row :
    (now age : ℕ) (r : ChunkRow) → (purge_row now age r).content_sha256 ≡ r.content_sha256
unfolding purge_row
hash-purge_row now age r = ground arith

or_else-none : {A : Type 0} (o : Option A) → or_else o none ≡ o
or_else-none none = refl
or_else-none (some a) = refl

module _ {V : Type 0} where
  abbrev pub end_hash : Option (EndRow V) → Option ℕ
  end_hash o = Option.map (λ (r : EndRow V). r.content_sha256) o

  -- The ledger of a store.
  abbrev pub view : Db V → Ledger
  view s = record {
    tester = λ i. has_token i s.tester_tokens;
    owner = λ t. trip_owner t s.trips;
    chunk = λ t q. hash_of (find_chunk t q s.trace_chunks);
    final = λ t. end_hash (find_end t s.trip_ends);
  }

  view-enter :
      (s : Db V) (trip token now : ℕ)
      → trip_owner trip s.trips ≡ none
      → view (record s {
        trips = s.trips ++ record { trip_id = trip; token_id = token; created_at = now } ∷ [];
      })
        ≡ enter (view s) trip token
  view-enter s trip token now h =
      let row : TripRow = record { trip_id = trip; token_id = token; created_at = now } in
      let owners : ◌≡◌ {A = ℕ → Option ℕ} (λ t. trip_owner t (s.trips ++ row ∷ []))
          (λ t. if trip == t then some token else trip_owner t s.trips) =
        fun_ext λ (t : ℕ). elim (Bool-cases (trip == t)) [
          | inl e ↦
              let same : trip ≡ t = ground (arith, e) in
              let free : trip_owner t s.trips ≡ none =
                subst (λ x. trip_owner x s.trips ≡ none) same h in
              rw (trip_owner-last, free, e) refl
          | inr e ↦ rw (trip_owner-last, e) (or_else-none (trip_owner t s.trips))
        ] in
      ap (λ (f : ℕ → Option ℕ). record (view s) { owner = f }) owners

  abbrev pub seen : Db V × Outcome → Ledger × Outcome
  seen (s, o) = (view s, o)

  view-chunk :
      (s : Db V) (trip seq : ℕ) (r : ChunkRow)
      → find_chunk trip seq s.trace_chunks ≡ none
      → ((t q : ℕ) → is_chunk t q r ≡ (trip == t && seq == q))
      → view (record s { trace_chunks = s.trace_chunks ++ r ∷ [] }) ≡ record (view s) {
        chunk = λ t q. if trip == t && seq == q then some r.content_sha256 else (view s).chunk t q;
      }
  view-chunk s trip seq r h key =
      let chunks : ◌≡◌ {A = ℕ → ℕ → Option ℕ}
          (λ t q. hash_of (find_chunk t q (s.trace_chunks ++ r ∷ [])))
          (λ t q. if trip == t && seq == q then some r.content_sha256 else (view s).chunk t q) =
        fun_ext λ (t : ℕ). fun_ext λ (q : ℕ). elim (Bool-cases (trip == t && seq == q)) [
          | inl e ↦
              let trips : trip ≡ t = ground (arith, e) in
              let seqs : seq ≡ q = ground (arith, e) in
              let free : find_chunk t q s.trace_chunks ≡ none =
                subst (λ x. find_chunk x q s.trace_chunks ≡ none) trips
                  (subst (λ x. find_chunk trip x s.trace_chunks ≡ none) seqs h) in
              let own : is_chunk t q r ≡ true = key t q ∙ e in
              rw (find_chunk-last, free, own, e) refl
          | inr e ↦
              let other : is_chunk t q r ≡ false = key t q ∙ e in
              rw (find_chunk-last, other, e, or_else-none (find_chunk t q s.trace_chunks)) refl
        ] in
      ap (λ (f : ℕ → ℕ → Option ℕ). record (view s) { chunk = f }) chunks

  view-end :
      (s : Db V) (trip : ℕ) (r : EndRow V)
      → find_end trip s.trip_ends ≡ none
      → r.trip_id ≡ trip
      → view (record s { trip_ends = s.trip_ends ++ r ∷ [] }) ≡ record (view s) {
        final = λ t. if trip == t then some r.content_sha256 else (view s).final t;
      }
  view-end s trip r h key =
      let finals : ◌≡◌ {A = ℕ → Option ℕ} (λ t. end_hash (find_end t (s.trip_ends ++ r ∷ [])))
          (λ t. if trip == t then some r.content_sha256 else (view s).final t) =
        fun_ext λ (t : ℕ). elim (Bool-cases (trip == t)) [
          | inl e ↦
              let trips : trip ≡ t = ground (arith, e) in
              let free : find_end t s.trip_ends ≡ none =
                subst (λ x. find_end x s.trip_ends ≡ none) trips h in
              let own : (r.trip_id == t) ≡ true = ground (arith, key, e) in
              rw (find_end-last, free, own, e) refl
          | inr e ↦
              let other : (r.trip_id == t) ≡ false = ground (arith, key, e) in
              rw (find_end-last, other, e, or_else-none (find_end t s.trip_ends)) refl
        ] in
      ap (λ (f : ℕ → Option ℕ). record (view s) { final = f }) finals

  transact-by_owner :
      (s : Db V) (trip token now : ℕ) (k : Db V → Db V × Outcome)
      (write : Ledger → Ledger × Outcome)
      → ((c : Db V) → seen (k c) ≡ write (view c))
      → seen (transact s (claim_trip s trip token now) k) ≡ by_owner (view s) token trip write
  unfolding claim_trip transact
  transact-by_owner s trip token now k write h = elim (Option-cases (trip_owner trip s.trips)) [
    | inr (o, e) ↦ elim (Bool-cases (o == token)) [
      | inl f ↦ rw (e, f, claim_trip, transact, by_owner) (h s)
      | inr f ↦ rw (e, f, claim_trip, transact, by_owner) refl
    ]
    | inl e ↦
        let row : TripRow = record { trip_id = trip; token_id = token; created_at = now } in
        let claimed : Db V = record s { trips = s.trips ++ row ∷ [] } in
        elim (Bool-cases (has_token token s.tester_tokens)) [
          | inl f ↦
              let left : seen (transact s (claim_trip s trip token now) k) ≡ seen (k claimed) =
                rw (e, f, claim_trip, transact) refl in
              let right : by_owner (view s) token trip write ≡ write (enter (view s) trip token) =
                rw (e, f, by_owner) refl in
              left ∙ h claimed ∙ ap write (view-enter s trip token now e) ∙ sym right
          | inr f ↦ rw (e, f, claim_trip, transact, by_owner) refl
        ]
  ]

  encoded-seen :
      (s : Db V) (digest : Option ℕ) (k : ℕ → Db V × Outcome) (l : ℕ → Ledger × Outcome)
      → ((d : ℕ) → seen (k d) ≡ l d)
      → seen (encoded s digest k) ≡ only_encoded (view s) digest l
  unfolding encoded
  encoded-seen s none k l h = refl
  encoded-seen s (some d) k l h = h d

  settle-chunk :
      (c : Db V) (trip seq : ℕ) (r : ChunkRow)
      → ((t q : ℕ) → is_chunk t q r ≡ (trip == t && seq == q))
      → seen (
          settle c
            (hash_of (find_chunk trip seq c.trace_chunks))
            r.content_sha256
            (record c { trace_chunks = c.trace_chunks ++ r ∷ [] }))
        ≡ record_chunk trip seq r.content_sha256 (view c)
  unfolding settle
  settle-chunk c trip seq r key = elim (Option-cases (find_chunk trip seq c.trace_chunks)) [
    | inl e ↦ rw (e, settle) (ap (λ (l : Ledger). (l, created)) (view-chunk c trip seq r e key))
    | inr (old, e) ↦ rw (e, settle) refl
  ]

  settle-end :
      (c : Db V) (trip : ℕ) (r : EndRow V)
      → r.trip_id ≡ trip
      → seen (
          settle c
            (end_hash (find_end trip c.trip_ends))
            r.content_sha256
            (record c { trip_ends = c.trip_ends ++ r ∷ [] }))
        ≡ record_final trip r.content_sha256 (view c)
  unfolding settle
  settle-end c trip r key = elim (Option-cases (find_end trip c.trip_ends)) [
    | inl e ↦ rw (e, settle) (ap (λ (l : Ledger). (l, created)) (view-end c trip r e key))
    | inr (old, e) ↦ rw (e, settle) refl
  ]

  purge-view : (s : Db V) (now age : ℕ) → view (purge_raw_traces s now age).0 ≡ view s
  unfolding purge_raw_traces
  purge-view s now age =
      let chunks : ◌≡◌ {A = ℕ → ℕ → Option ℕ}
          (λ t q. hash_of (find_chunk t q (purge_rows now age s.trace_chunks)))
          (λ t q. hash_of (find_chunk t q s.trace_chunks)) =
        fun_ext λ (t : ℕ). fun_ext λ (q : ℕ). elim (Option-cases (find_chunk t q s.trace_chunks)) [
          | inl e ↦ rw (find_chunk-purge, e) refl
          | inr (r, e) ↦ rw (find_chunk-purge, e) (ap some (hash-purge_row now age r))
        ] in
      ap (λ (f : ℕ → ℕ → Option ℕ). record (view s) { chunk = f }) chunks

-- What uploaders and the nightly job do to a store, and to a ledger.
pub data Write (V : Type 0) : Type 0 where
  put : (token trip seq : ℕ) → TraceChunk → (t0 t1 : ℕ) → Write V
  finish : (token trip : ℕ) → TripEnd V → (t0 t1 : ℕ) → Write V
  clear : (now age : ℕ) → Write V

module _ {V : Type 0} (content_digest : String → Option ℕ) where
  unfoldable pub on_store : Db V → Write V → Db V × Option Outcome
  unfolding put_chunk end_trip purge_raw_traces
  on_store s (put token trip seq chunk t0 t1) =
      let (u, o) = put_chunk content_digest s token trip seq chunk t0 t1 in (u, some o)
  on_store s (finish token trip end t0 t1) =
      let (u, o) = end_trip content_digest s token trip end t0 t1 in (u, some o)
  on_store s (clear now age) = ((purge_raw_traces s now age).0, none)

  abbrev pub on_ledger : Ledger → Write V → Ledger × Option Outcome
  on_ledger l (put token trip seq chunk t0 t1) =
      let (u, o) =
        only_encoded l (content_digest chunk.text)
          (λ digest. by_owner l token trip (record_chunk trip seq digest)) in
      (u, some o)
  on_ledger l (finish token trip end t0 t1) =
      let (u, o) =
        only_encoded l (content_digest end.text)
          (λ digest. by_owner l token trip (record_final trip digest)) in
      (u, some o)
  on_ledger l (clear now age) = (l, none)

  unfoldable pub replies_of : Db V → List (Write V) → Db V × List (Option Outcome)
  unfolding on_store
  replies_of s [] = (s, [])
  replies_of s (w ∷ ws) = let (u, o) = on_store s w in let (v, os) = replies_of u ws in (v, o ∷ os)

  unfoldable pub ledger_replies : Ledger → List (Write V) → Ledger × List (Option Outcome)
  ledger_replies l [] = (l, [])
  ledger_replies l (w ∷ ws) =
      let (u, o) = on_ledger l w in let (v, os) = ledger_replies u ws in (v, o ∷ os)

  abbrev pub seen_all : {A : Type 0} → Db V × A → Ledger × A
  seen_all (s, o) = (view s, o)

  on_store-view : (s : Db V) (w : Write V) → seen_all (on_store s w) ≡ on_ledger (view s) w
  unfolding on_store put_chunk end_trip
  on_store-view s (put token trip seq chunk t0 t1) =
      ap (λ (r : Ledger × Outcome). (r.0, some r.1))
        (encoded-seen s (content_digest chunk.text) _ _ (λ digest.
          transact-by_owner s trip token t0 _ (record_chunk trip seq digest)
            (λ c. settle-chunk c trip seq (chunk_row digest trip seq t1 chunk) (λ t q. refl))))
  on_store-view s (finish token trip end t0 t1) =
      ap (λ (r : Ledger × Outcome). (r.0, some r.1))
        (encoded-seen s (content_digest end.text) _ _ (λ digest.
          transact-by_owner s trip token t0 _ (record_final trip digest)
            (λ c. settle-end c trip (end_row digest trip t1 end) refl)))
  on_store-view s (clear now age) = ap (λ (l : Ledger). (l, none)) (purge-view s now age)

  -- The store implements the ledger: from any store, a sequence of uploads, trip ends and purges gets
  -- the answers that the ledger gives, and leaves the ledger that they lead to; the rows, their
  -- times and their bodies make no difference.
  pub replies_of-view :
      (s : Db V) (ws : List (Write V)) → seen_all (replies_of s ws) ≡ ledger_replies (view s) ws
  unfolding replies_of ledger_replies
  replies_of-view s [] = refl
  replies_of-view s (w ∷ ws) =
      let (u, o) = on_store s w in
      ap (λ (r : Ledger × List (Option Outcome)). (r.0, o ∷ r.1)) (replies_of-view u ws)
      ∙ ap
          (λ (p : Ledger × Option Outcome).
            ((ledger_replies p.0 ws).0, p.1 ∷ (ledger_replies p.0 ws).1))
          (on_store-view s w)
