-- ===== src/Commute/App.antt =====
-- commute/app.py: the two writing endpoints behind the bearer token, and the limit on a body's
-- size. FastAPI has parsed path and body by then. Python's `int` on a header's bytes is a parameter.
use Prim.Native.String.{String}
use safety_aware_route_plann.Base.{
  ℕ, Bool, true, false, Option, none, some, List, [], ◌∷◌, ◌++◌, ltb, if◌then◌else◌, length, Text,
  same_text,
}
use safety_aware_route_plann.Commute.Tables.{Db}
use safety_aware_route_plann.Commute.Store.{
  TraceChunk, TripEnd, Outcome, created, replayed, conflict, not_yours, integrity_error,
  unencodable, put_chunk, end_trip,
}
use safety_aware_route_plann.Commute.Tokens.{Tester, authenticate}

-- A receipt with its status code and its field `created`, or an HTTPException; an exception that
-- nothing catches is a server error.
pub data Reply : Type 0 where
  receipt : ℕ → Bool → Reply
  http_error : ℕ → Reply
  server_error : Reply

unfoldable pub reply : Outcome → Reply
reply not_yours = http_error 404
reply conflict = http_error 409
reply replayed = receipt 200 false
reply created = receipt 201 true
reply integrity_error = server_error
reply unencodable = server_error

module _ {V : Type 0} where
  -- `current_tester`, in front of an endpoint.
  unfoldable pub as_tester : Db V → Option ℕ → (Tester → Db V × Outcome) → Db V × Reply
  unfolding authenticate reply
  as_tester s none k = (s, http_error 401)
  as_tester s (some hash) k = elim (authenticate s hash) [
    | none ↦ (s, http_error 401)
    | some who ↦ ((k who).0, reply (k who).1)
  ]

  unfoldable pub put_chunk_request :
      (String → Option ℕ) → Db V → Option ℕ → ℕ → ℕ → TraceChunk → ℕ → ℕ → Db V × Reply
  unfolding as_tester put_chunk
  put_chunk_request content_digest s credentials trip seq chunk t0 t1 =
      as_tester s credentials (λ who. put_chunk content_digest s who.id trip seq chunk t0 t1)

  unfoldable pub end_trip_request :
      (String → Option ℕ) → Db V → Option ℕ → ℕ → TripEnd V → ℕ → ℕ → Db V × Reply
  unfolding as_tester end_trip
  end_trip_request content_digest s credentials trip end t0 t1 =
      as_tester s credentials (λ who. end_trip content_digest s who.id trip end t0 t1)

pub data ℤ : Type 0 where
  pos negsuc : ℕ → ℤ

-- An ASGI message: a part of the body, or anything else.
pub data Message : Type 0 where
  request : Text → Bool → Message
  disconnect : Message

-- What `BodySizeLimit` does with a request: pass it on untouched; pass it on with the body that was
-- read, the later messages left to receive; refuse it; give up; or wait for a message.
pub data Handling : Type 0 where
  passed_on too_large gone waiting : Handling
  with_replay : Text → List Message → Handling

-- b"content-length".
abbrev pub header_name : Text
header_name = 99 ∷ 111 ∷ 110 ∷ 116 ∷ 101 ∷ 110 ∷ 116 ∷ 45 ∷ 108 ∷ 101 ∷ 110 ∷ 103 ∷ 116 ∷ 104 ∷ []

-- `_content_length`; `to_int` is `int`, `none` its ValueError.
unfoldable pub content_length : (Text → Option ℤ) → List (Text × Text) → Option ℤ
unfolding same_text
content_length to_int [] = none
content_length to_int ((name, value) ∷ headers) =
    if same_text name header_name then to_int value else content_length to_int headers

-- The `while True` loop, on the messages to come.
unfoldable pub read_body : ℕ → Text → List Message → Handling
read_body max_bytes body [] = waiting
read_body max_bytes body (disconnect ∷ rest) = gone
read_body max_bytes body (request part more_body ∷ rest) =
    let further = read_body max_bytes (body ++ part) rest in
    if ltb max_bytes (length (body ++ part))
    then too_large
    else if more_body
    then further
    else with_replay (body ++ part) rest

-- A request whose length is declared.
unfoldable pub check_declared : ℕ → ℤ → Handling
check_declared max_bytes (pos n) = if ltb max_bytes n then too_large else passed_on
check_declared max_bytes (negsuc n) = passed_on

-- `BodySizeLimit.__call__`.
unfoldable pub limit_body :
    (Text → Option ℤ) → ℕ → Bool → List (Text × Text) → List Message → Handling
unfolding read_body check_declared content_length
limit_body to_int max_bytes is_http headers messages =
    if is_http
    then elim (content_length to_int headers) [
      | some n ↦ check_declared max_bytes n
      | none ↦ read_body max_bytes [] messages
    ]
    else passed_on
