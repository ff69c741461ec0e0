-- ===== src/Commute/Tokens.antt =====
-- commute/tokens.py: tester tokens. A token's text reaches these functions as its SHA-256.
use safety_aware_route_plann.Base.{
  ℕ, Bool, true, false, ◌||◌, Option, none, some, List, [], ◌∷◌, ◌++◌, ◌+◌, ◌==◌, if◌then◌else◌,
  ltb, Text, strip, is_empty,
}
use safety_aware_route_plann.Commute.Tables.{TokenRow, Db, has_token}

pub record Tester : Type 0 where
  pub id : ℕ
  pub label : Text

-- `INTEGER PRIMARY KEY`: one more than the largest id.
unfoldable pub next_id : List TokenRow → ℕ
next_id [] = 1
next_id (r ∷ rows) = let rest = next_id rows in if ltb r.id rest then rest else r.id + 1

unfoldable pub has_hash : ℕ → List TokenRow → Bool
has_hash h [] = false
has_hash h (r ∷ rows) = r.token_sha256 == h || has_hash h rows

pub data Issue (V : Type 0) : Type 0 where
  issued : Db V → ℕ → Issue V
  value_error integrity_error : Issue V

module _ {V : Type 0} where
  -- `issue`, with the SHA-256 of the token minted; the stored label is stripped.
  unfoldable pub issue : Db V → Text → ℕ → ℕ → Issue V
  unfolding next_id has_hash strip
  issue s label hash now =
      if is_empty (strip label)
      then value_error
      else if has_hash hash s.tester_tokens
      then integrity_error
      else issued
          (record s {
            tester_tokens =
                s.tester_tokens
                ++ record {
                  id = next_id s.tester_tokens;
                  label = strip label;
                  token_sha256 = hash;
                  created_at = now;
                  revoked_at = none;
                }
                  ∷ [];
          })
          (next_id s.tester_tokens)

-- `SELECT id, label ... WHERE token_sha256 = ? AND revoked_at IS NULL`.
unfoldable pub is_active : ℕ → TokenRow → Bool
is_active hash r = elim r.revoked_at [ some _ ↦ false | none ↦ r.token_sha256 == hash ]

unfoldable pub find_active : ℕ → List TokenRow → Option Tester
unfolding is_active
find_active hash [] = none
find_active hash (r ∷ rows) =
    if is_active hash r then some (record { id = r.id; label = r.label }) else find_active hash rows

-- The row of a revoked token keeps the time of the first revocation.
unfoldable pub revoke_row : ℕ → ℕ → TokenRow → TokenRow
revoke_row token_id now r =
    if r.id == token_id
    then elim r.revoked_at [ some _ ↦ r | none ↦ record r { revoked_at = some now } ]
    else r

unfoldable pub revoke_rows : ℕ → ℕ → List TokenRow → List TokenRow
unfolding revoke_row
revoke_rows token_id now [] = []
revoke_rows token_id now (r ∷ rows) = revoke_row token_id now r ∷ revoke_rows token_id now rows

module _ {V : Type 0} where
  unfoldable pub authenticate : Db V → ℕ → Option Tester
  unfolding find_active
  authenticate s hash = find_active hash s.tester_tokens

  unfoldable pub revoke : Db V → ℕ → ℕ → Db V × Bool
  unfolding revoke_rows
  revoke s token_id now =
      if has_token token_id s.tester_tokens
      then (record s { tester_tokens = revoke_rows token_id now s.tester_tokens }, true)
      else (s, false)
