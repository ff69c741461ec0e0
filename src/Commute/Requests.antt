-- ===== src/Commute/Requests.antt =====
-- What a client is answered, and which bodies reach the application.
use Prim.Native.String.{String}
use mathlib.Core.Option
use mathlib.Core.Option.{some-injective}
use mathlib.Core.List.{append_assoc}
use safety_aware_route_plann.Base.{
  ℕ, Bool, true, false, Option, none, some, List, [], ◌∷◌, ◌++◌, ◌≤◌, ltb, length, Text, ◌≡◌, ◌≢◌,
  ◌↔◌, refl, arith, Bool-cases, Option-cases, ltb→le, inl, inr, ◌⊎◌, ap, ◌∙◌, sym, subst,
}
use safety_aware_route_plann.Commute.Tables.{
  TokenRow, ChunkRow, EndRow, Db, has_token, find_chunk, find_end,
}
use safety_aware_route_plann.Commute.Store.{
  TraceChunk, TripEnd, Outcome, created, replayed, conflict, not_yours, integrity_error,
  unencodable, claim_trip, settle, transact, encoded, put_chunk, end_trip, chunk_row, end_row,
}
use safety_aware_route_plann.Commute.Tokens.{Tester, is_active, find_active, authenticate}
use safety_aware_route_plann.Commute.App.{
  http_error, server_error, reply, as_tester, put_chunk_request, end_trip_request, Message, request,
  disconnect, Handling, passed_on, with_replay, read_body, limit_body, ℤ, pos, negsuc,
  content_length, check_declared,
}

find_active-known :
    (hash : ℕ) (rows : List TokenRow) (who : Tester)
    → find_active hash rows ≡ some who
    → has_token who.id rows ≡ true
unfolding find_active has_token is_active
find_active-known hash [] who h = ground arith
find_active-known hash (r ∷ rows) who h = ground (arith, find_active-known hash rows who)

-- The two exceptions of a write.
reply-raises :
    (o : Outcome) → (reply o ≡ server_error) ↔ ((o ≡ integrity_error) ⊎ (o ≡ unencodable))
unfolding reply
reply-raises created = ground arith
reply-raises replayed = ground arith
reply-raises conflict = ground arith
reply-raises not_yours = ground arith
reply-raises integrity_error = ground arith
reply-raises unencodable = ground arith

-- Neither exception.
abbrev Plain : Outcome → Type 0
Plain o = (o ≢ integrity_error) × (o ≢ unencodable)

module _ {V : Type 0} where
  claim_known :
      (s : Db V) (trip token now : ℕ)
      → has_token token s.tester_tokens ≡ true
      → claim_trip s trip token now ≢ none
  unfolding claim_trip
  claim_known s trip token now h no_claim = ground arith

  settle-Plain : (c u : Db V) (old : Option ℕ) (digest : ℕ) → Plain (settle c old digest u).1
  unfolding settle
  settle-Plain c u none digest = (λ e. ground arith, λ e. ground arith)
  settle-Plain c u (some old) digest = (λ e. ground arith, λ e. ground arith)

  transact-Plain :
      (s : Db V) (m : Option (Db V × Bool)) (k : Db V → Db V × Outcome)
      → m ≢ none
      → ((c : Db V) → Plain (k c).1)
      → Plain (transact s m k).1
  unfolding transact
  transact-Plain s none k claim rest = elim (claim refl) [ ]
  transact-Plain s (some (c, false)) k claim rest = (λ e. ground arith, λ e. ground arith)
  transact-Plain s (some (c, true)) k claim rest = rest c

  -- What is let in raises exactly if its text has no UTF-8.
  encoded-raises :
      (s : Db V) (digest : Option ℕ) (k : ℕ → Db V × Outcome)
      → ((d : ℕ) → Plain (k d).1)
      → (reply (encoded s digest k).1 ≡ server_error) ↔ (digest ≡ none)
  unfolding encoded reply
  encoded-raises s none k plain = (λ h. refl, λ h. refl)
  encoded-raises s (some d) k plain = (
    λ h. elim ((reply-raises (k d).1).0 h) [
      | inl e ↦ absurd ((plain d).0 e)
      | inr e ↦ absurd ((plain d).1 e)
    ],
    λ h. ground (arith, h),
  )

  -- The credentials are those of a tester.
  abbrev pub IsLetIn : Db V → Option ℕ → Type 0
  IsLetIn s credentials =
      (hash : ℕ) × (who : Tester) × (credentials ≡ some hash) × (authenticate s hash ≡ some who)

  as_tester-raises :
      (s : Db V) (credentials : Option ℕ) (k : Tester → Db V × Outcome) (digest : Option ℕ)
      → ((who : Tester)
          → has_token who.id s.tester_tokens ≡ true
          → (reply (k who).1 ≡ server_error) ↔ (digest ≡ none))
      → ((as_tester s credentials k).1 ≡ server_error) ↔ (IsLetIn s credentials × (digest ≡ none))
  unfolding as_tester authenticate
  as_tester-raises s none k digest h =
      (λ e. ground (arith, e), λ ((hash, who, given, found), raised). ground (arith, given))
  as_tester-raises s (some hash) k digest h =
      elim (Option-cases (find_active hash s.tester_tokens)) [
        | inl no_one ↦ (
          λ e.
              let bad : http_error 401 ≡ server_error =
                sym (rw (no_one, as_tester, authenticate) refl) ∙ e in
              ground (arith, bad),
          λ ((other, who, given, found), raised).
              let same : hash ≡ other = some-injective _ _ given in
              let bad : none ≡ some who =
                sym no_one
                ∙ subst (λ x. find_active x s.tester_tokens ≡ some who) (sym same) found in
              ground (arith, bad),
        )
        | inr (who, found) ↦
            let known = find_active-known hash s.tester_tokens who found in
            (
              λ e. (
                (hash, who, refl, found),
                (h who known).0 (sym (rw (found, as_tester, authenticate) refl) ∙ e),
              ),
              λ (let_in, raised). rw (found, as_tester, authenticate) ((h who known).1 raised),
            )
      ]

  -- Of the exceptions that are modelled (a violated foreign key, a text that has no UTF-8 encoding for
  -- a lone surrogate in it) a request that writes meets the second exactly if its token is let in and
  -- its text is such, and never the first: a token that is let in is a row of the table. So it is
  -- answered by a server error exactly then.
  pub requests-answered :
      (content_digest : String → Option ℕ) (s : Db V) (credentials : Option ℕ) (trip seq : ℕ)
      (chunk : TraceChunk) (end : TripEnd V) (t0 t1 : ℕ)
      → (((put_chunk_request content_digest s credentials trip seq chunk t0 t1).1 ≡ server_error)
          ↔ (IsLetIn s credentials × (content_digest chunk.text ≡ none)))
        × (((end_trip_request content_digest s credentials trip end t0 t1).1 ≡ server_error)
            ↔ (IsLetIn s credentials × (content_digest end.text ≡ none)))
  unfolding put_chunk_request end_trip_request put_chunk end_trip
  requests-answered content_digest s credentials trip seq chunk end t0 t1 = (
    as_tester-raises s credentials _ (content_digest chunk.text) (λ who known.
        encoded-raises s (content_digest chunk.text) _ (λ d.
          transact-Plain s _ _ (claim_known s trip who.id t0 known) (λ c.
            settle-Plain c
              (record c { trace_chunks = c.trace_chunks ++ chunk_row d trip seq t1 chunk ∷ [] })
              (Option.map (λ (r : ChunkRow). r.content_sha256) (find_chunk trip seq c.trace_chunks))
              d))),
    as_tester-raises s credentials _ (content_digest end.text) (λ who known.
        encoded-raises s (content_digest end.text) _ (λ d.
          transact-Plain s _ _ (claim_known s trip who.id t0 known) (λ c.
            settle-Plain c (record c { trip_ends = c.trip_ends ++ end_row d trip t1 end ∷ [] })
              (Option.map (λ (r : EndRow V). r.content_sha256) (find_end trip c.trip_ends)) d))),
  )

-- The messages are these parts of a body, of which only the last is marked as the last.
abbrev pub Parts : Text → List Message → List Message → Type 0
Parts body [] rest = ⊥
Parts body (disconnect ∷ ms) rest = ⊥
Parts body (request part true ∷ ms) rest =
    (tail : Text) × (body ≡ part ++ tail) × Parts tail ms rest
Parts body (request part false ∷ ms) rest = (body ≡ part) × (ms ≡ rest)

abbrev body_of : Handling → Text
body_of (with_replay body rest) = body
body_of _ = []

abbrev rest_of : Handling → List Message
rest_of (with_replay body rest) = rest
rest_of _ = []

read_body-replay :
    (max_bytes : ℕ) (sofar body : Text) (messages rest : List Message)
    → read_body max_bytes sofar messages ≡ with_replay body rest
    → (length body ≤ max_bytes)
      × ((tail : Text) × (body ≡ sofar ++ tail) × Parts tail messages rest)
unfolding read_body
read_body-replay max_bytes sofar body [] rest h = ground arith
read_body-replay max_bytes sofar body (disconnect ∷ ms) rest h = ground arith
read_body-replay max_bytes sofar body (request part false ∷ ms) rest h =
    elim (Bool-cases (ltb max_bytes (length (sofar ++ part)))) [
      | inl over ↦ ground (arith, over)
      | inr fits ↦
          let made : with_replay (sofar ++ part) ms ≡ with_replay body rest =
            ground (arith, fits) in
          let same : sofar ++ part ≡ body = ap body_of made in
          (
            subst (λ b. length b ≤ max_bytes) same (ltb→le max_bytes _ fits),
            (part, sym same, (refl, ap rest_of made)),
          )
    ]
read_body-replay max_bytes sofar body (request part true ∷ ms) rest h =
    elim (Bool-cases (ltb max_bytes (length (sofar ++ part)))) [
      | inl over ↦ ground (arith, over)
      | inr fits ↦
          let further : read_body max_bytes (sofar ++ part) ms ≡ with_replay body rest =
            ground (arith, fits) in
          let (small, (tail, e, parts)) =
            read_body-replay max_bytes (sofar ++ part) body ms rest further in
          (small, (part ++ tail, e ∙ append_assoc sofar part tail, (tail, refl, parts)))
    ]

read_body-not_passed :
    (max_bytes : ℕ) (sofar : Text) (messages : List Message)
    → read_body max_bytes sofar messages ≢ passed_on
unfolding read_body
read_body-not_passed max_bytes sofar [] h = ground arith
read_body-not_passed max_bytes sofar (disconnect ∷ ms) h = ground arith
read_body-not_passed max_bytes sofar (request part false ∷ ms) h = ground arith
read_body-not_passed max_bytes sofar (request part true ∷ ms) h =
    ground (arith, read_body-not_passed max_bytes (sofar ++ part) ms)

-- A request without a declared length reaches the application with a body of at most the limit,
-- which is all the parts that arrived up to the last one, and with the later messages unread; and
-- a request with a declared length reaches it only if that length is at most the limit.
pub limit_body-bound :
    (to_int : Text → Option ℤ) (max_bytes : ℕ) (headers : List (Text × Text))
    (messages : List Message)
    → ((body : Text) (rest : List Message)
        → limit_body to_int max_bytes true headers messages ≡ with_replay body rest
        → (length body ≤ max_bytes) × Parts body messages rest)
      × (limit_body to_int max_bytes true headers messages ≡ passed_on
          → ((n : ℕ) × (content_length to_int headers ≡ some (pos n)) × (n ≤ max_bytes))
            ⊎ ((n : ℕ) × (content_length to_int headers ≡ some (negsuc n))))
unfolding limit_body check_declared
limit_body-bound to_int max_bytes headers messages =
    elim (Option-cases (content_length to_int headers)) [
      | inl e ↦
          rw (e, limit_body)
            (
              λ body rest h.
                  let (small, (tail, same, parts)) =
                    read_body-replay max_bytes [] body messages rest h in
                  (small, subst (λ b. Parts b messages rest) (sym same) parts),
              λ h. elim (read_body-not_passed max_bytes [] messages h) [ ],
            )
      | inr (pos n, e) ↦
          rw (e, limit_body)
            (λ body rest h. ground (arith, h), λ h. inl (n, refl, ground (arith, h)))
      | inr (negsuc n, e) ↦
          rw (e, limit_body) (λ body rest h. ground (arith, h), λ h. inr (n, refl))
    ]
