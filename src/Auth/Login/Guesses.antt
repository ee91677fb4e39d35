-- ===== src/Auth/Login/Guesses.antt =====
-- apps/api/src/modules/auth/auth.service.ts: how many wrong passwords an account answers.
use muzael.Common.{
  ℕ, ◌+◌, ◌-◌, ◌*◌, ◌≤◌, ◌<◌, ◌≡◌, max, false, Option, none, some, List, [], ◌∷◌, ltb,
  if◌then◌else◌,
}
use muzael.Shared.Errors.{ErrorCode, invalid_credentials}
use muzael.Shared.Time.{ms_per_minute}
use muzael.Auth.Login.{
  User, AttemptCounters, Passwords, find_user, LoginRequest, AuthState, AuthOutcome, login,
}

-- The answer that tells that the password was wrong.
abbrev pub is_guess : Option ErrorCode → ℕ
is_guess (some invalid_credentials) = 1
is_guess _ = 0

-- What is left of ten guesses, where the account is not locked until `end`. After ten failures each
-- further one locks again.
abbrev guesses_left : ℕ → User → ℕ
guesses_left limit u = elim u.locked_until [
  | none ↦ max 1 (10 - u.failed_login_attempts)
  | some until ↦ if ltb until limit then max 1 (10 - u.failed_login_attempts) else 0
]

module _ {Counters : Type 0} (redis : AttemptCounters Counters) (passwords : Passwords) where
  -- How many of the logins are answered with a wrong password.
  abbrev pub guesses : List LoginRequest → AuthState Counters → ℕ
  guesses [] s = 0
  guesses (q ∷ qs) s =
      is_guess (login redis passwords q s).thrown + guesses qs (login redis passwords q s).state

  -- What a wrong password leads to: nothing, or one guess less.
  record Guessed (limit email : ℕ) (hash : ℕ) (u : User) (o : AuthOutcome Counters) : Type 0 where
    user : User
    at : find_user email o.state.users ≡ some user
    same_hash : user.password_hash ≡ hash
    fewer : is_guess o.thrown + guesses_left limit user ≤ guesses_left limit u

  -- A login to the account of `email`, in the quarter of an hour before `limit`, with a wrong password.
  abbrev pub WrongLogin : ℕ → ℕ → ℕ → LoginRequest → Type 0
  WrongLogin limit email hash q =
      (passwords.lower_case q.email ≡ email)
      × (q.now < limit)
      × (limit ≤ q.now + 15 * ms_per_minute)
      × (passwords.verify hash q.password ≡ false)
