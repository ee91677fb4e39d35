-- ===== src/Auth/Tokens/Tests.antt =====
-- A token that is rotated, stolen and presented again.
use muzael.Common.{ℕ, ◌≡◌, refl, true, Option, none, some, [], ◌∷◌}
use muzael.Shared.Errors.{refresh_token_reused}
use muzael.Auth.Tokens.{
  RefreshToken, TokenStore, find_token, issue, revoke_where, consume, renew, rotate_found, rotate,
  new_session, done, then_,
}
use muzael.Auth.Tokens.Reuse.{rotate-reused}

-- One login with token 100, rotated to token 101.
abbrev start : TokenStore
start = record { accounts = record { id = 1; is_active = true } ∷ []; tokens = [] }

abbrev token : ℕ → Option ℕ → RefreshToken
token hash consumed_at = record {
  token_hash = hash;
  user_id = 1;
  family_id = 5;
  expires_at = 2_592_000_000;
  consumed_at = consumed_at;
  revoked_at = none;
}

abbrev rotated : TokenStore
rotated = record start {
  tokens = record (token 101 none) { expires_at = 2_592_000_010 } ∷ token 100 (some 10) ∷ [];
}

rotation_test : (rotate 30 10 100 101 (issue 30 0 100 1 5 start)).store ≡ rotated
unfolding rotate rotate_found renew issue consume find_token
rotation_test = refl

-- The store after token 100 came again, and after a new login.
abbrev caught : TokenStore
caught = (rotate 30 20 100 102 rotated).store

abbrev later : TokenStore
later = issue 30 30 103 1 6 caught

abbrev revoked : RefreshToken
revoked = record (token 101 none) { expires_at = 2_592_000_010; revoked_at = some 20 }

rotate-reused_example :
    ((rotate 30 20 100 102 rotated).thrown ≡ some refresh_token_reused)
    × ((rotate 30 40 101 104 later).thrown ≡ some refresh_token_reused)
unfolding rotate rotate_found issue revoke_where find_token
rotate-reused_example =
    rotate-reused 30 20 100 102 rotated later (token 100 (some 10)) 40 101 104 revoked refl refl
      (then_ caught later later (new_session 30 103 1 6 caught refl) (done later)) refl refl
