-- ===== src/Commute/Rows.antt =====
-- What each query finds after each change of its table.
use mathlib.Core.Option
use safety_aware_route_plann.Base.{
  ℕ, Option, none, some, List, [], ◌∷◌, ◌++◌, ◌==◌, if◌then◌else◌, ◌≡◌, refl, arith, Bool-cases,
  inl, inr,
}
use safety_aware_route_plann.Commute.Tables.{
  TripRow, ChunkRow, EndRow, trip_owner, find_chunk, find_end, is_chunk,
}
use safety_aware_route_plann.Commute.Retention.{purge_row, purge_rows}

-- The first of two answers.
abbrev pub or_else : {A : Type 0} → Option A → Option A → Option A
or_else none b = b
or_else (some a) b = some a

pub trip_owner-last :
    (t : ℕ) (rows : List TripRow) (r : TripRow)
    → trip_owner t (rows ++ r ∷ [])
      ≡ or_else (trip_owner t rows) (if r.trip_id == t then some r.token_id else none)
unfolding trip_owner
trip_owner-last t [] r = refl
trip_owner-last t (x ∷ rows) r = ground (arith, trip_owner-last t rows r)

pub find_chunk-last :
    (t q : ℕ) (rows : List ChunkRow) (r : ChunkRow)
    → find_chunk t q (rows ++ r ∷ [])
      ≡ or_else (find_chunk t q rows) (if is_chunk t q r then some r else none)
unfolding find_chunk
find_chunk-last t q [] r = refl
find_chunk-last t q (x ∷ rows) r = ground (arith, find_chunk-last t q rows r)

pub find_end-last :
    {V : Type 0} (t : ℕ) (rows : List (EndRow V)) (r : EndRow V)
    → find_end t (rows ++ r ∷ [])
      ≡ or_else (find_end t rows) (if r.trip_id == t then some r else none)
unfolding find_end
find_end-last t [] r = refl
find_end-last t (x ∷ rows) r = ground (arith, find_end-last t rows r)

key-purge_row :
    (t q now age : ℕ) (r : ChunkRow) → is_chunk t q (purge_row now age r) ≡ is_chunk t q r
unfolding purge_row
key-purge_row t q now age r = ground arith

pub find_chunk-purge :
    (t q now age : ℕ) (rows : List ChunkRow)
    → find_chunk t q (purge_rows now age rows)
      ≡ Option.map (purge_row now age) (find_chunk t q rows)
unfolding find_chunk purge_rows
find_chunk-purge t q now age [] = refl
find_chunk-purge t q now age (x ∷ rows) = elim (Bool-cases (is_chunk t q x)) [
  | inl e ↦ rw (key-purge_row, e)
  | inr e ↦ rw (key-purge_row, e) (find_chunk-purge t q now age rows)
]
