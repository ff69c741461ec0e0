-- ===== src/Commute/Examples.antt =====
-- One tester, one trip, two chunks.
use Prim.Native.String.{String}
use text.Mathlib.Text.{◌==◌ as str_eq}
use safety_aware_route_plann.Base.{
  ℕ, true, false, Option, none, some, List, [], ◌∷◌, ◌+◌, ◌*◌, ◌≤◌, ◌==◌, if◌then◌else◌, length,
  Text, ◌≡◌, ◌≢◌, ◌↔◌, ◌⊎◌, refl, arith, inl, In, strip, lstrip, is_space, same_text,
}
use safety_aware_route_plann.Commute.Tables.{
  TokenRow, ChunkRow, Db, has_token, trip_owner, find_chunk, find_end,
}
use safety_aware_route_plann.Commute.Store.{
  TraceChunk, TripEnd, created, conflict, not_yours, claim_trip, settle, transact, encoded,
  put_chunk, end_trip,
}
use safety_aware_route_plann.Commute.Tokens.{
  issued, issue, next_id, has_hash, is_active, find_active, revoke_row, revoke_rows, authenticate,
  revoke,
}
use safety_aware_route_plann.Commute.Retention.{
  is_held, day_ms, purge_row, purge_rows, purge_count, purge_raw_traces, raw_retention_days,
}
use safety_aware_route_plann.Commute.History.{
  Extends, Operation, end, mint, withdraw, purge, apply, run, run-Extends,
}
use safety_aware_route_plann.Commute.Ledger.{
  Write, put, finish as finish_trip, clear, view, on_store, replies_of, ledger_replies, seen_all,
  replies_of-view,
}
use safety_aware_route_plann.Commute.Replay.{put_chunk-again, put_chunk-owned}
use safety_aware_route_plann.Commute.Access.{
  revoke-authenticate, issue-authenticate, purge_raw_traces-once,
}
use safety_aware_route_plann.Commute.App.{
  ℤ, pos, negsuc, http_error, server_error, reply, as_tester, put_chunk_request, end_trip_request,
  Message, request, disconnect, passed_on, with_replay, read_body, check_declared, content_length,
  limit_body,
}
use safety_aware_route_plann.Commute.Requests.{Parts, IsLetIn, requests-answered, limit_body-bound}

program : Unit {0}
unfolding has_token trip_owner find_chunk find_end claim_trip settle transact encoded put_chunk
    end_trip issue next_id has_hash is_active find_active revoke_row revoke_rows authenticate revoke
    purge_row purge_rows purge_count purge_raw_traces apply run reply as_tester put_chunk_request
    end_trip_request read_body check_declared content_length limit_body strip lstrip is_space
    same_text on_store replies_of
program = tt

-- A digest that tells the texts below apart, and refuses one.
abbrev content_digest : String → Option ℕ
content_digest t =
    if str_eq t "surrogate"
    then none
    else some (if str_eq t "a" then 1 else if str_eq t "b" then 2 else 3)

abbrev empty : Db ℕ
empty = record { tester_tokens = []; trips = []; trace_chunks = []; trip_ends = [] }

abbrev first_token : TokenRow
first_token = record {
  id = 1;
  label = 65 ∷ [];
  token_sha256 = 500;
  created_at = 10;
  revoked_at = none;
}

abbrev opened : Db ℕ
opened = record empty { tester_tokens = first_token ∷ [] }

abbrev part_a : TraceChunk
part_a = record { times = 5 ∷ 9 ∷ []; text = "a" }

abbrev part_b : TraceChunk
part_b = record { times = 6 ∷ []; text = "b" }

abbrev finish : TripEnd ℕ
finish = record { ended_at = 90; arrived = true; prediction = none; text = "end" }

-- What happens later: a second tester, an end, a purge, a withdrawal.
abbrev later : List (Operation ℕ)
later =
    mint (32 ∷ 66 ∷ []) 600 20 ∷ end 1 77 finish 30 31 ∷ purge 9_000_000_000 90 ∷ withdraw 1 40 ∷ []

minted : issue empty (32 ∷ 65 ∷ 32 ∷ []) 500 10 ≡ issued opened 1
unfolding program
minted = refl

first_put : (put_chunk content_digest opened 1 77 0 part_a 11 12).1 ≡ created
unfolding program
first_put = refl

run-Extends_example : Extends opened (run content_digest opened later)
run-Extends_example = run-Extends content_digest opened later

put_chunk-again_example :
    put_chunk content_digest
      (run content_digest (put_chunk content_digest opened 1 77 0 part_a 11 12).0 later)
      1
      77
      0
      part_b
      50
      51
    ≡ (run content_digest (put_chunk content_digest opened 1 77 0 part_a 11 12).0 later, conflict)
put_chunk-again_example =
    put_chunk-again content_digest 77 0 1 opened part_a part_b 11 12 50 51 later (inl first_put)

different : (1 == 2) ≡ false → ◌≢◌ {A = ℕ} 1 2
different h e = ground arith

put_chunk-owned_example :
    (put_chunk content_digest
        (run content_digest (put_chunk content_digest opened 1 77 0 part_a 11 12).0 later)
        2
        77
        4
        part_b
        50
        51
      ≡ (
        run content_digest (put_chunk content_digest opened 1 77 0 part_a 11 12).0 later,
        not_yours,
      ))
    × (end_trip content_digest
          (run content_digest (put_chunk content_digest opened 1 77 0 part_a 11 12).0 later)
          2
          77
          finish
          50
          51
        ≡ (
          run content_digest (put_chunk content_digest opened 1 77 0 part_a 11 12).0 later,
          not_yours,
        ))
put_chunk-owned_example =
    put_chunk-owned content_digest 77 0 1 opened part_a part_b finish 11 12 50 51 2 4 later
      (inl first_put) (different refl)

second :
    authenticate (run content_digest (revoke opened 1 15).0 later) 600
    ≡ some (record { id = 2; label = 66 ∷ [] })
unfolding program
second = refl

known_one : has_token 1 opened.tester_tokens ≡ true
unfolding program
known_one = refl

revoke-authenticate_example : ◌≢◌ {A = ℕ} 2 1
revoke-authenticate_example =
    revoke-authenticate content_digest opened 1 15 later 600 _ known_one second

issue-authenticate_example :
    (authenticate opened 500 ≡ some (record { id = 1; label = strip (32 ∷ 65 ∷ 32 ∷ []) }))
    × ((other : ℕ) → 500 ≢ other → authenticate opened other ≡ authenticate empty other)
issue-authenticate_example = issue-authenticate empty opened (32 ∷ 65 ∷ 32 ∷ []) 500 10 1 minted

abbrev traced : Db ℕ
traced = (put_chunk content_digest opened 1 77 0 part_a 11 12).0

purge_raw_traces-once_example :
    ((r : ChunkRow)
      → In r (purge_raw_traces traced 9_000_000_000 raw_retention_days).0.trace_chunks
      → is_held r ≡ true
      → In r traced.trace_chunks × (9_000_000_000 ≤ r.received_at + raw_retention_days * day_ms))
    × (purge_raw_traces
          (purge_raw_traces traced 9_000_000_000 raw_retention_days).0
          9_000_000_000
          raw_retention_days
        ≡ ((purge_raw_traces traced 9_000_000_000 raw_retention_days).0, 0))
purge_raw_traces-once_example = purge_raw_traces-once traced 9_000_000_000 raw_retention_days

-- The chunk is 104 days old by then.
purged_one : (purge_raw_traces traced 9_000_000_000 raw_retention_days).1 ≡ 1
unfolding program
purged_one = refl

requests-answered_example :
    (((put_chunk_request content_digest opened (some 500) 77 0 part_a 11 12).1 ≡ server_error)
      ↔ (IsLetIn opened (some 500) × (content_digest part_a.text ≡ none)))
    × (((end_trip_request content_digest opened (some 500) 77 finish 11 12).1 ≡ server_error)
        ↔ (IsLetIn opened (some 500) × (content_digest finish.text ≡ none)))
requests-answered_example =
    requests-answered content_digest opened (some 500) 77 0 part_a finish 11 12

-- A text that has no UTF-8.
raised :
    put_chunk_request content_digest opened
      (some 500)
      77
      0
      (record { times = []; text = "surrogate" })
      11
      12
    ≡ (opened, server_error)
unfolding program
raised = refl

-- The same trip under an unknown token.
not_let_in :
    put_chunk_request content_digest opened (some 501) 77 0 part_a 11 12 ≡ (opened, http_error 401)
unfolding program
not_let_in = refl

abbrev no_int : Text → Option ℤ
no_int t = none

abbrev two_parts : List Message
two_parts = request (1 ∷ 2 ∷ []) true ∷ request (3 ∷ []) false ∷ disconnect ∷ []

replayed_three :
    limit_body no_int 3 true [] two_parts ≡ with_replay (1 ∷ 2 ∷ 3 ∷ []) (disconnect ∷ [])
unfolding program
replayed_three = refl

limit_body-bound_example :
    ((body : Text) (rest : List Message)
      → limit_body no_int 3 true [] two_parts ≡ with_replay body rest
      → (length body ≤ 3) × Parts body two_parts rest)
    × (limit_body no_int 3 true [] two_parts ≡ passed_on
        → ((n : ℕ) × (content_length no_int [] ≡ some (pos n)) × (n ≤ 3))
          ⊎ ((n : ℕ) × (content_length no_int [] ≡ some (negsuc n))))
limit_body-bound_example = limit_body-bound no_int 3 [] two_parts

abbrev uploads : List (Write ℕ)
uploads =
    put 1 77 0 part_a 11 12
    ∷ put 1 77 0 part_b 13 14
    ∷ put 2 77 1 part_b 15 16
    ∷ clear 9_000_000_000 90
    ∷ finish_trip 1 77 finish 17 18
    ∷ []

replies :
    (replies_of content_digest opened uploads).1
    ≡ some created ∷ some conflict ∷ some not_yours ∷ none ∷ some created ∷ []
unfolding program
replies = refl

replies_of-view_example :
    seen_all content_digest (replies_of content_digest opened uploads)
    ≡ ledger_replies content_digest (view opened) uploads
replies_of-view_example = replies_of-view content_digest opened uploads
