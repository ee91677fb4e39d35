-- ===== src/Shared/Money/Order.antt =====
-- packages/shared/src/money.ts: the order in which the remainder is handed out.
use muzael.Common.{
  ℕ, suc, ◌+◌, ◌≤◌, ◌<◌, ◌≡◌, refl, true, false, inl, inr, List, [], ◌∷◌, arith, sum_by, All,
  Bool-cases, length,
}
use muzael.Shared.Money.{Entry, before, insert_entry, sort_entries, entries_from}

pub sum_by-insert_entry :
    (f : Entry → ℕ) (e : Entry) (es : List Entry) → sum_by f (insert_entry e es) ≡ f e + sum_by f es
unfolding insert_entry
sum_by-insert_entry f e [] = refl
sum_by-insert_entry f e (x ∷ xs) = ground (arith, sum_by-insert_entry f e xs)

pub sum_by-sort_entries :
    (f : Entry → ℕ) (es : List Entry) → sum_by f (sort_entries es) ≡ sum_by f es
unfolding sort_entries
sum_by-sort_entries f [] = refl
sum_by-sort_entries f (e ∷ es) =
    omega (arith, sum_by-insert_entry f e (sort_entries es), sum_by-sort_entries f es)

module _ (P : Entry → Type 0) where
  All-insert_entry : (e : Entry) (es : List Entry) → P e → All P es → All P (insert_entry e es)
  unfolding insert_entry
  All-insert_entry e [] p h = (p, tt)
  All-insert_entry e (x ∷ xs) p (q, h) = elim (Bool-cases (before e x)) [
    | inl first ↦ rw first (p, (q, h))
    | inr later ↦ rw later (q, All-insert_entry e xs p h)
  ]

  pub All-sort_entries : (es : List Entry) → All P es → All P (sort_entries es)
  unfolding sort_entries
  All-sort_entries [] h = tt
  All-sort_entries (e ∷ es) (p, h) = All-insert_entry e (sort_entries es) p (All-sort_entries es h)

-- No fraction after the first is larger than it, at each place of the list.
abbrev pub Descending : List Entry → Type 0
Descending [] = Unit
Descending (x ∷ xs) = All (λ y. y.frac ≤ x.frac) xs × Descending xs

before-le : (a b : Entry) → before a b ≡ true → b.frac ≤ a.frac
before-le a b h = ground arith

not_before-le : (a b : Entry) → before a b ≡ false → a.frac ≤ b.frac
not_before-le a b h = ground arith

pub All-le_trans :
    (m n : ℕ) (xs : List Entry) → m ≤ n → All (λ y. y.frac ≤ m) xs → All (λ y. y.frac ≤ n) xs
All-le_trans m n [] h k = tt
All-le_trans m n (x ∷ xs) h (p, k) = (omega arith, All-le_trans m n xs h k)

Descending-insert_entry :
    (e : Entry) (es : List Entry) → Descending es → Descending (insert_entry e es)
unfolding insert_entry
Descending-insert_entry e [] d = (tt, tt)
Descending-insert_entry e (x ∷ xs) (h, d) = elim (Bool-cases (before e x)) [
  | inl first ↦
      let le = before-le e x first in rw first ((le, All-le_trans x.frac e.frac xs le h), (h, d))
  | inr later ↦ rw later (
    All-insert_entry (λ y. y.frac ≤ x.frac) e xs (not_before-le e x later) h,
    Descending-insert_entry e xs d,
  )
]

pub Descending-sort_entries : (es : List Entry) → Descending (sort_entries es)
unfolding sort_entries
Descending-sort_entries [] = tt
Descending-sort_entries (e ∷ es) =
    Descending-insert_entry e (sort_entries es) (Descending-sort_entries es)

-- Every fraction is below the sum of the weights, and every index inside the list.
pub entries_from-bounds :
    (k total weight_sum : ℕ) (ws : List ℕ)
    → 0 < weight_sum
    → All (λ e. (e.frac < weight_sum) × (e.i < k + length ws)) (entries_from k total weight_sum ws)
unfolding entries_from
entries_from-bounds k total weight_sum [] h = tt
entries_from-bounds k total weight_sum (w ∷ ws) h = (
  (omega arith, omega arith),
  widen (entries_from (suc k) total weight_sum ws)
      (entries_from-bounds (suc k) total weight_sum ws h),
)
  where
    widen :
        (es : List Entry)
        → All (λ e. (e.frac < weight_sum) × (e.i < suc k + length ws)) es
        → All (λ e. (e.frac < weight_sum) × (e.i < k + suc (length ws))) es
    widen [] a = tt
    widen (e ∷ es) (p, a) = (omega arith, widen es a)
