-- ===== src/Common/Lists.antt =====
-- Lists over the native numbers: lengths, indices, sums, and tests on all members.
use Prim.Native.Nat.{ℕ, zero, suc, ◌+◌, ◌<◌, ◌≤◌}
use mathlib.Core.Path.{◌≡◌, refl, ap}
use mathlib.Core.Logic.{◌≢◌, ◌⊎◌}
use mathlib.Core.Bool.{Bool, true, false, ◌&&◌, ◌||◌}
use mathlib.Core.List.{List, [], ◌∷◌, ◌++◌, map}
use native.Mathlib.Omega.{arith}
use muzael.Common.Tests.{◌==◌, if◌then◌else◌}

module _ {ℓ} {A : Type ℓ} where
  abbrev pub length : List A → ℕ
  length [] = 0
  length (_ ∷ xs) = suc (length xs)

  abbrev pub get_or : List A → ℕ → A → A
  get_or [] i d = d
  get_or (x ∷ xs) zero d = x
  get_or (x ∷ xs) (suc i) d = get_or xs i d

  abbrev pub all : (A → Bool) → List A → Bool
  all p [] = true
  all p (x ∷ xs) = p x && all p xs

  abbrev pub any : (A → Bool) → List A → Bool
  any p [] = false
  any p (x ∷ xs) = p x || any p xs

  abbrev pub filter : (A → Bool) → List A → List A
  filter p [] = []
  filter p (x ∷ xs) = let rest = filter p xs in if p x then x ∷ rest else rest

  abbrev pub sum_by : (A → ℕ) → List A → ℕ
  sum_by f [] = 0
  sum_by f (x ∷ xs) = f x + sum_by f xs

  pub sum_by-append : (f : A → ℕ) (xs ys : List A) → sum_by f (xs ++ ys) ≡ sum_by f xs + sum_by f ys
  sum_by-append f [] ys = omega arith
  sum_by-append f (x ∷ xs) ys = omega (arith, sum_by-append f xs ys)

pub length-map {ℓ κ} :
    {A : Type ℓ} {B : Type κ} (f : A → B) (xs : List A) → length (map f xs) ≡ length xs
length-map f [] = refl
length-map f (x ∷ xs) = ap suc (length-map f xs)

module _ {ℓ κ} {A : Type ℓ} (P : A → Type κ) where
  abbrev pub All : List A → Type κ
  All [] = Unit
  All (x ∷ xs) = P x × All xs

-- Some member, with its place.
abbrev pub Any {ℓ} : {A : Type ℓ} → (A → Type 0) → List A → Type 0
Any P [] = ⊥
Any P (x ∷ xs) = P x ⊎ Any P xs

abbrev pub sum : List ℕ → ℕ
sum [] = 0
sum (x ∷ xs) = x + sum xs

-- `result[i] = (result[i] ?? 0) + 1` for an index inside the array; outside nothing is written.
abbrev pub increment : List ℕ → ℕ → List ℕ
increment [] i = []
increment (x ∷ xs) zero = (x + 1) ∷ xs
increment (x ∷ xs) (suc i) = x ∷ increment xs i

pub length-increment : (xs : List ℕ) (i : ℕ) → length (increment xs i) ≡ length xs
length-increment [] i = refl
length-increment (x ∷ xs) zero = refl
length-increment (x ∷ xs) (suc i) = ap suc (length-increment xs i)

pub sum-increment : (xs : List ℕ) (i : ℕ) → i < length xs → sum (increment xs i) ≡ sum xs + 1
sum-increment [] i h = elim h [ ]
sum-increment (x ∷ xs) zero h = omega arith
sum-increment (x ∷ xs) (suc i) h = omega (arith, sum-increment xs i (omega arith))

-- What an increment at `i` adds at `j`.
abbrev pub hit : ℕ → ℕ → ℕ
hit zero zero = 1
hit zero (suc j) = 0
hit (suc i) zero = 0
hit (suc i) (suc j) = hit i j

pub get_or-increment :
    (xs : List ℕ) (i j : ℕ) → i < length xs → get_or (increment xs i) j 0 ≡ get_or xs j 0 + hit i j
get_or-increment [] i j h = elim h [ ]
get_or-increment (x ∷ xs) zero zero h = refl
get_or-increment (x ∷ xs) zero (suc j) h = omega arith
get_or-increment (x ∷ xs) (suc i) zero h = omega arith
get_or-increment (x ∷ xs) (suc i) (suc j) h = get_or-increment xs i j (omega arith)

pub hit-le : (i j : ℕ) → hit i j ≤ 1
hit-le zero zero = omega arith
hit-le zero (suc j) = omega arith
hit-le (suc i) zero = omega arith
hit-le (suc i) (suc j) = hit-le i j

pub hit-ne : (i j : ℕ) → i ≢ j → hit i j ≡ 0
hit-ne zero zero h = absurd (h refl)
hit-ne zero (suc j) h = refl
hit-ne (suc i) zero h = refl
hit-ne (suc i) (suc j) h = hit-ne i j (λ e. h (ap suc e))

abbrev pub contains : List ℕ → ℕ → Bool
contains xs a = any (λ x. x == a) xs
