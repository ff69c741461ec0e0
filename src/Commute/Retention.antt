-- ===== src/Commute/Retention.antt =====
-- commute/retention.py: raw trip traces are kept 90 days.
use safety_aware_route_plann.Base.{
  ℕ, Bool, true, false, ◌&&◌, none, some, List, [], ◌∷◌, ◌+◌, ◌*◌, if◌then◌else◌, ltb,
}
use safety_aware_route_plann.Commute.Tables.{ChunkRow, Db}

abbrev pub raw_retention_days : ℕ
raw_retention_days = 90

abbrev pub day_ms : ℕ
day_ms = 86_400_000

abbrev pub is_held : ChunkRow → Bool
is_held r = elim r.body [ none ↦ false | some _ ↦ true ]

-- `body IS NOT NULL AND received_at < now - max_age_days * _DAY_MS`.
abbrev pub expires : ℕ → ℕ → ChunkRow → Bool
expires now max_age_days r = is_held r && ltb (r.received_at + max_age_days * day_ms) now

unfoldable pub purge_row : ℕ → ℕ → ChunkRow → ChunkRow
purge_row now max_age_days r =
    if expires now max_age_days r then record r { body = none; purged_at = some now } else r

unfoldable pub purge_rows : ℕ → ℕ → List ChunkRow → List ChunkRow
unfolding purge_row
purge_rows now max_age_days [] = []
purge_rows now max_age_days (r ∷ rows) =
    purge_row now max_age_days r ∷ purge_rows now max_age_days rows

unfoldable pub purge_count : ℕ → ℕ → List ChunkRow → ℕ
purge_count now max_age_days [] = 0
purge_count now max_age_days (r ∷ rows) =
    (if expires now max_age_days r then 1 else 0) + purge_count now max_age_days rows

unfoldable pub purge_raw_traces : {V : Type 0} → Db V → ℕ → ℕ → Db V × ℕ
unfolding purge_rows purge_count
purge_raw_traces s now max_age_days = (
  record s { trace_chunks = purge_rows now max_age_days s.trace_chunks },
  purge_count now max_age_days s.trace_chunks,
)
