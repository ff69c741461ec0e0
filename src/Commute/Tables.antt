-- ===== src/Commute/Tables.antt =====
-- commute/store.py: the tables of the SQLite file, and the queries that the service makes.
-- A trip id is the 128-bit number of its UUID, a digest the 256-bit number of its SHA-256, an
-- instant a count of milliseconds. A table is a list of rows in the order of insertion.
use Prim.Native.String.{String}
use safety_aware_route_plann.Base.{
  ℕ, Bool, false, ◌&&◌, ◌||◌, Option, none, some, List, [], ◌∷◌, Text, ◌==◌, if◌then◌else◌,
}

pub record TokenRow : Type 0 where
  pub id : ℕ
  pub label : Text
  pub token_sha256 : ℕ
  pub created_at : ℕ
  pub revoked_at : Option ℕ

pub record TripRow : Type 0 where
  pub trip_id : ℕ
  pub token_id : ℕ
  pub created_at : ℕ

pub record ChunkRow : Type 0 where
  pub trip_id : ℕ
  pub seq : ℕ
  pub received_at : ℕ
  pub content_sha256 : ℕ
  pub fix_count : ℕ
  pub first_t : Option ℕ
  pub last_t : Option ℕ
  pub body : Option String
  pub purged_at : Option ℕ

-- `EtaPrediction`. Its `eta_s` is a double, kept as the caller's type `V`.
pub record Prediction (V : Type 0) : Type 0 where
  pub effective_at : ℕ
  pub eta_s : V
  pub level : String
  pub profile_version : Option String

pub record EndRow (V : Type 0) : Type 0 where
  pub trip_id : ℕ
  pub received_at : ℕ
  pub content_sha256 : ℕ
  pub ended_at : ℕ
  pub arrived : Bool
  pub predicted_effective_at : Option ℕ
  pub predicted_eta_s : Option V
  pub level : Option String
  pub profile_version : Option String

pub record Db (V : Type 0) : Type 0 where
  pub tester_tokens : List TokenRow
  pub trips : List TripRow
  pub trace_chunks : List ChunkRow
  pub trip_ends : List (EndRow V)

-- `SELECT 1 FROM tester_tokens WHERE id = ?`: the foreign key of a trip.
unfoldable pub has_token : ℕ → List TokenRow → Bool
has_token i [] = false
has_token i (r ∷ rows) = r.id == i || has_token i rows

-- `SELECT token_id FROM trips WHERE trip_id = ?`.
unfoldable pub trip_owner : ℕ → List TripRow → Option ℕ
trip_owner t [] = none
trip_owner t (r ∷ rows) = if r.trip_id == t then some r.token_id else trip_owner t rows

abbrev pub is_chunk : ℕ → ℕ → ChunkRow → Bool
is_chunk t q r = r.trip_id == t && r.seq == q

-- `SELECT ... FROM trace_chunks WHERE trip_id = ? AND seq = ?`.
unfoldable pub find_chunk : ℕ → ℕ → List ChunkRow → Option ChunkRow
find_chunk t q [] = none
find_chunk t q (r ∷ rows) = if is_chunk t q r then some r else find_chunk t q rows

-- `SELECT content_sha256 FROM trip_ends WHERE trip_id = ?`.
unfoldable pub find_end : {V : Type 0} → ℕ → List (EndRow V) → Option (EndRow V)
find_end t [] = none
find_end t (r ∷ rows) = if r.trip_id == t then some r else find_end t rows
