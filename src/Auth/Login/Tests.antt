-- ===== src/Auth/Login/Tests.antt =====
-- Nine guesses from as many addresses, at an account that failed three times before.
use muzael.Common.{ℕ, ◌≡◌, refl, true, false, none, List, [], ◌∷◌, arith}
use muzael.Auth.Login.{
  User, AttemptCounters, Passwords, LoginRequest, AuthState, find_user, put_user, login_user, login,
}
use muzael.Auth.Login.Guesses.{guesses, WrongLogin}

-- Counters that forget everything.
abbrev redis : AttemptCounters ℕ
redis = record {
  count = λ email ip now c. 0;
  increment = λ email ip now c. c;
  forget = λ email ip c. c;
}

-- No password is right.
abbrev passwords : Passwords
passwords = record { lower_case = λ t. t; hash = λ p. p; verify = λ h p. false }

abbrev account : User
account = record {
  id = 1;
  email = 5;
  password_hash = 0;
  is_active = true;
  failed_login_attempts = 3;
  locked_until = none;
  last_login_at = none;
}

abbrev state : AuthState ℕ
state = record {
  users = account ∷ [];
  tokens = record { accounts = []; tokens = [] };
  counters = 0;
}

abbrev guess : ℕ → LoginRequest
guess ip = record {
  now = 1000;
  email = 5;
  password = ip;
  ip = ip;
  ttl_days = 30;
  token_hash = 0;
  family_id = 0;
}

abbrev nine : List LoginRequest
nine = guess 1 ∷ guess 2 ∷ guess 3 ∷ guess 4 ∷ guess 5 ∷ guess 6 ∷ guess 7 ∷ guess 8 ∷ guess 9 ∷ []

seven_test : guesses redis passwords nine state ≡ 7
unfolding login login_user find_user put_user
seven_test = refl

abbrev wrong : (ip : ℕ) → WrongLogin redis passwords 900_000 5 0 (guess ip)
wrong ip = (refl, omega arith, omega arith, refl)
