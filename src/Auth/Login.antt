-- ===== src/Auth/Login.antt =====
-- apps/api/src/modules/auth/auth.service.ts: `register`, `login` and `changePassword`. The counters in Redis
-- are an interface, by the address in small letters, the client's address and the time; the digest of
-- passwords and the small letters of a text are parameters. A user's row is known by its address, as the
-- unique index has it; profiles, memberships and audit entries are left out.
pub mod Guesses
mod Tests
use muzael.Common.{
  ℕ, ◌+◌, ◌*◌, Bool, true, false, not, ◌&&◌, Option, none, some, List, [], ◌∷◌, ltb, leb, ◌==◌,
  if◌then◌else◌,
}
use muzael.Shared.Errors.{
  ErrorCode, email_already_registered, invalid_credentials, account_locked, forbidden,
}
use muzael.Shared.Time.{ms_per_minute}
use muzael.Auth.Tokens.{TokenStore, issue, revoke_all_for_user}

abbrev pub max_login_attempts : ℕ
max_login_attempts = 5

abbrev pub lockout_minutes : ℕ
lockout_minutes = 15

pub record User : Type 0 where
  pub id : ℕ
  pub email : ℕ
  pub password_hash : ℕ
  pub is_active : Bool
  pub failed_login_attempts : ℕ
  pub locked_until : Option ℕ
  pub last_login_at : Option ℕ

-- `redis.client` on the keys of `attemptKey`: `get`, `incr` with `expire` on the first, and `forget`.
pub record AttemptCounters (Counters : Type 0) : Type 0 where
  pub count : ℕ → ℕ → ℕ → Counters → ℕ
  pub increment : ℕ → ℕ → ℕ → Counters → Counters
  pub forget : ℕ → ℕ → Counters → Counters

-- What the libraries of passwords and texts do.
pub record Passwords : Type 0 where
  pub lower_case : ℕ → ℕ
  pub hash : ℕ → ℕ
  pub verify : ℕ → ℕ → Bool

unfoldable pub find_user : ℕ → List User → Option User
find_user email [] = none
find_user email (u ∷ us) = if u.email == email then some u else find_user email us

unfoldable pub put_user : User → List User → List User
put_user v [] = []
put_user v (u ∷ us) = let rest = put_user v us in if u.email == v.email then v ∷ us else u ∷ rest

pub record LoginRequest : Type 0 where
  pub now : ℕ
  pub email : ℕ
  pub password : ℕ
  pub ip : ℕ
  pub ttl_days : ℕ
  pub token_hash : ℕ
  pub family_id : ℕ

pub record AuthState (Counters : Type 0) : Type 0 where
  pub users : List User
  pub tokens : TokenStore
  pub counters : Counters

-- The state that a call leaves, and what it threw.
pub record AuthOutcome (Counters : Type 0) : Type 0 where
  pub state : AuthState Counters
  pub thrown : Option ErrorCode

abbrev pub is_locked : ℕ → User → Bool
is_locked now u = elim u.locked_until [ none ↦ false | some until ↦ ltb now until ]

-- The `data` of `registerFailureOnUser`.
abbrev pub with_failure : ℕ → User → User
with_failure now u = record u {
  failed_login_attempts = u.failed_login_attempts + 1;
  locked_until =
      if leb (max_login_attempts * 2) (u.failed_login_attempts + 1)
      then some (now + lockout_minutes * ms_per_minute)
      else u.locked_until;
}

abbrev pub with_login : ℕ → User → User
with_login now u = record u {
  last_login_at = some now;
  failed_login_attempts = 0;
  locked_until = none;
}

module _ {Counters : Type 0} (redis : AttemptCounters Counters) (passwords : Passwords) where
  abbrev pub failed : LoginRequest → ℕ → AuthState Counters → AuthState Counters
  failed q email s = record s { counters = redis.increment email q.ip q.now s.counters }

  abbrev pub granted : LoginRequest → ℕ → User → AuthState Counters → AuthState Counters
  granted q email u s = record {
    users = put_user (with_login q.now u) s.users;
    tokens = issue q.ttl_days q.now q.token_hash u.id q.family_id s.tokens;
    counters = redis.forget email q.ip s.counters;
  }

  unfoldable pub login_user :
      LoginRequest → ℕ → AuthState Counters → Option User → AuthOutcome Counters
  login_user q email s none = record { state = failed q email s; thrown = some invalid_credentials }
  login_user q email s (some u) =
      if is_locked q.now u
      then record { state = s; thrown = some account_locked }
      else if not (passwords.verify u.password_hash q.password)
      then record {
        state = record (failed q email s) { users = put_user (with_failure q.now u) s.users };
        thrown = some invalid_credentials;
      }
      else if not u.is_active
      then record { state = s; thrown = some forbidden }
      else record { state = granted q email u s; thrown = none }

  unfoldable pub login : LoginRequest → AuthState Counters → AuthOutcome Counters
  login q s =
      let email = passwords.lower_case q.email in
      if leb max_login_attempts (redis.count email q.ip q.now s.counters)
      then record { state = s; thrown = some account_locked }
      else login_user q email s (find_user email s.users)

  -- Logins in a row.
  unfoldable pub login_all : List LoginRequest → AuthState Counters → AuthState Counters
  login_all [] s = s
  login_all (q ∷ qs) s = login_all qs (login q s).state

  -- A new user with an empty history and a session.
  abbrev pub new_user : ℕ → ℕ → LoginRequest → User
  new_user id email q = record {
    id = id;
    email = email;
    password_hash = passwords.hash q.password;
    is_active = true;
    failed_login_attempts = 0;
    locked_until = none;
    last_login_at = none;
  }

  abbrev pub register_new :
      ℕ → ℕ → LoginRequest → AuthState Counters → Option User → AuthOutcome Counters
  register_new id email q s (some u) = record { state = s; thrown = some email_already_registered }
  register_new id email q s none = record {
    state = record s {
      users = new_user id email q ∷ s.users;
      tokens = issue q.ttl_days q.now q.token_hash id q.family_id s.tokens;
    };
    thrown = none;
  }

  unfoldable pub register : ℕ → LoginRequest → AuthState Counters → AuthOutcome Counters
  register id q s =
      let email = passwords.lower_case q.email in
      register_new id email q s (find_user email s.users)

  -- `changePassword` of a user who is there: every session of the user ends.
  unfoldable pub change_password : ℕ → ℕ → ℕ → User → AuthState Counters → AuthOutcome Counters
  change_password now current_password new_password u s =
      if not (passwords.verify u.password_hash current_password)
      then record { state = s; thrown = some invalid_credentials }
      else record {
        state = record s {
          users = put_user (record u { password_hash = passwords.hash new_password }) s.users;
          tokens = revoke_all_for_user now u.id s.tokens;
        };
        thrown = none;
      }
