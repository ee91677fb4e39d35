-- ===== src/Auth/Tokens.antt =====
-- apps/api/src/modules/auth/token.service.ts: refresh tokens. The hash of a presented token is what the
-- functions take, and a row is known by it, as the unique index of the database has it. Random values and
-- signed access tokens are made by libraries: the hash of a new token and the id of a new family are given.
-- The audit entry and the log of a reuse are left out.
pub mod Live
pub mod Reuse
mod Tests
use muzael.Common.{
  ℕ, ◌≡◌, ◌+◌, ◌*◌, Bool, true, false, not, ◌&&◌, ◌||◌, Option, none, some, List, [], ◌∷◌, map, any,
  ltb, ◌==◌, if◌then◌else◌,
}
use muzael.Shared.Errors.{ErrorCode, token_invalid, token_expired, refresh_token_reused, forbidden}
use muzael.Shared.Time.{ms_per_day}

pub record RefreshToken : Type 0 where
  pub token_hash : ℕ
  pub user_id : ℕ
  pub family_id : ℕ
  pub expires_at : ℕ
  pub consumed_at : Option ℕ
  pub revoked_at : Option ℕ

pub record Account : Type 0 where
  pub id : ℕ
  pub is_active : Bool

pub record TokenStore : Type 0 where
  pub accounts : List Account
  pub tokens : List RefreshToken

abbrev pub is_set : Option ℕ → Bool
is_set none = false
is_set (some t) = true

unfoldable pub find_token : ℕ → List RefreshToken → Option RefreshToken
find_token hash [] = none
find_token hash (t ∷ ts) = if t.token_hash == hash then some t else find_token hash ts

abbrev pub is_active_account : ℕ → List Account → Bool
is_active_account id accounts = any (λ a. a.id == id && a.is_active) accounts

-- The row that `issueForUser` creates.
unfoldable pub issue : ℕ → ℕ → ℕ → ℕ → ℕ → TokenStore → TokenStore
issue ttl_days now hash user family s = record s {
  tokens =
      record {
        token_hash = hash;
        user_id = user;
        family_id = family;
        expires_at = now + ttl_days * ms_per_day;
        consumed_at = none;
        revoked_at = none;
      }
      ∷ s.tokens;
}

-- `updateMany` of the rows that pass the test and are not revoked yet.
abbrev pub revoke_row : (RefreshToken → Bool) → ℕ → RefreshToken → RefreshToken
revoke_row p now t =
    if p t && not (is_set t.revoked_at) then record t { revoked_at = some now } else t

unfoldable pub revoke_where : (RefreshToken → Bool) → ℕ → TokenStore → TokenStore
revoke_where p now s = record s { tokens = map (revoke_row p now) s.tokens }

abbrev pub revoke : ℕ → ℕ → TokenStore → TokenStore
revoke now hash s = revoke_where (λ t. t.token_hash == hash) now s

abbrev pub revoke_family : ℕ → ℕ → TokenStore → TokenStore
revoke_family now family s = revoke_where (λ t. t.family_id == family) now s

abbrev pub revoke_all_for_user : ℕ → ℕ → TokenStore → TokenStore
revoke_all_for_user now user s = revoke_where (λ t. t.user_id == user) now s

unfoldable pub consume : ℕ → ℕ → List RefreshToken → List RefreshToken
consume now hash [] = []
consume now hash (t ∷ ts) =
    let rest = consume now hash ts in
    if t.token_hash == hash then record t { consumed_at = some now } ∷ ts else t ∷ rest

-- The store that a rotation leaves, and what it threw; without an error a pair was returned.
pub record Rotated : Type 0 where
  pub store : TokenStore
  pub thrown : Option ErrorCode

abbrev pub refuse : ErrorCode → TokenStore → Rotated
refuse e s = record { store = s; thrown = some e }

abbrev pub is_spent : RefreshToken → Bool
is_spent t = is_set t.consumed_at || is_set t.revoked_at

-- The writes of a rotation that is granted.
unfoldable pub renew : ℕ → ℕ → ℕ → RefreshToken → TokenStore → Rotated
renew ttl_days now new_hash t s = record {
  store =
      issue ttl_days now new_hash t.user_id t.family_id
        (record s { tokens = consume now t.token_hash s.tokens });
  thrown = none;
}

unfoldable pub rotate_found : ℕ → ℕ → ℕ → TokenStore → Option RefreshToken → Rotated
rotate_found ttl_days now new_hash s none = refuse token_invalid s
rotate_found ttl_days now new_hash s (some t) =
    if is_spent t
    then refuse refresh_token_reused (revoke_family now t.family_id s)
    else if ltb t.expires_at now
    then refuse token_expired s
    else if is_active_account t.user_id s.accounts
    then renew ttl_days now new_hash t s
    else refuse forbidden s

unfoldable pub rotate : ℕ → ℕ → ℕ → ℕ → TokenStore → Rotated
rotate ttl_days now hash new_hash s =
    rotate_found ttl_days now new_hash s (find_token hash s.tokens)

-- A family that some row has.
abbrev pub knows_family : ℕ → TokenStore → Bool
knows_family family s = any (λ t. t.family_id == family) s.tokens

-- One call of the service. A login starts a family with a random id, which no row has.
pub data Step (ttl_days : ℕ) : TokenStore → TokenStore → Type 0 where
  new_session :
      (now hash user family : ℕ) (s : TokenStore)
      → knows_family family s ≡ false
      → Step ttl_days s (issue ttl_days now hash user family s)
  rotation :
      (now hash new_hash : ℕ) (s : TokenStore)
      → Step ttl_days s (rotate ttl_days now hash new_hash s).store
  revocation : (now hash : ℕ) (s : TokenStore) → Step ttl_days s (revoke now hash s)
  logout_everywhere :
      (now user : ℕ) (s : TokenStore) → Step ttl_days s (revoke_all_for_user now user s)

-- Calls in a row.
pub data Steps (ttl_days : ℕ) : TokenStore → TokenStore → Type 0 where
  done : (s : TokenStore) → Steps ttl_days s s
  then_ : (s t u : TokenStore) → Step ttl_days s t → Steps ttl_days t u → Steps ttl_days s u
