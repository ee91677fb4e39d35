-- ===== src/Cart/Selections/Same.antt =====
-- apps/api/src/modules/cart/cart.service.ts: when two lists of options are the same selection.
use muzael.Common.{
  ℕ, suc, ◌≡◌, ◌↔◌, ◌≤◌, ◌<◌, refl, sym, ap, ◌∙◌, true, List, [], ◌∷◌, arith, sum_by, All, sort_by,
  insert_by, length, ◌==◌, if◌then◌else◌, inl, inr, Nat-cases, Bool-cases, ltb, ltb→lt,
}
use muzael.Cart.Selections.{every_same, same_modifier_set}

-- How often an option was selected.
abbrev pub times : ℕ → List ℕ → ℕ
times o xs = sum_by (λ x. if x == o then 1 else 0) xs

abbrev sorted : List ℕ → List ℕ
sorted xs = sort_by (λ x. x) xs

times-insert_by : (o x : ℕ) (xs : List ℕ) → times o (insert_by (λ y. y) x xs) ≡ times o (x ∷ xs)
unfolding insert_by
times-insert_by o x [] = refl
times-insert_by o x (y ∷ ys) = ground (arith, times-insert_by o x ys)

times-sorted : (o : ℕ) (xs : List ℕ) → times o (sorted xs) ≡ times o xs
unfolding sort_by
times-sorted o [] = refl
times-sorted o (x ∷ xs) = omega (arith, times-insert_by o x (sorted xs), times-sorted o xs)

length-insert_by : (x : ℕ) (xs : List ℕ) → length (insert_by (λ y. y) x xs) ≡ suc (length xs)
unfolding insert_by
length-insert_by x [] = refl
length-insert_by x (y ∷ ys) = ground (arith, length-insert_by x ys)

length-sorted : (xs : List ℕ) → length (sorted xs) ≡ length xs
unfolding sort_by
length-sorted [] = refl
length-sorted (x ∷ xs) = omega (arith, length-insert_by x (sorted xs), length-sorted xs)

-- Each member is a bound of those behind it.
abbrev Ascending : List ℕ → Type 0
Ascending [] = Unit
Ascending (x ∷ xs) = All (λ y. x ≤ y) xs × Ascending xs

All-weaken : (x y : ℕ) (ys : List ℕ) → x ≤ y → All (λ z. y ≤ z) ys → All (λ z. x ≤ z) ys
All-weaken x y [] h a = tt
All-weaken x y (z ∷ zs) h a = (let first = a.0 in omega arith, All-weaken x y zs h a.1)

All-insert_by :
    (b x : ℕ) (xs : List ℕ)
    → b ≤ x
    → All (λ z. b ≤ z) xs
    → All (λ z. b ≤ z) (insert_by (λ y. y) x xs)
unfolding insert_by
All-insert_by b x [] h a = (h, tt)
All-insert_by b x (y ∷ ys) h a = ground (arith, All-insert_by b x ys h a.1)

insert_by-Ascending : (x : ℕ) (xs : List ℕ) → Ascending xs → Ascending (insert_by (λ y. y) x xs)
unfolding insert_by
insert_by-Ascending x [] a = (tt, tt)
insert_by-Ascending x (y ∷ ys) a =
    ground (arith, insert_by-Ascending x ys a.1, All-insert_by y x ys, All-weaken x y ys)

sorted-Ascending : (xs : List ℕ) → Ascending (sorted xs)
unfolding sort_by
sorted-Ascending [] = tt
sorted-Ascending (x ∷ xs) = insert_by-Ascending x (sorted xs) (sorted-Ascending xs)

times-below : (o x : ℕ) (xs : List ℕ) → o < x → All (λ y. x ≤ y) xs → times o xs ≡ 0
times-below o x [] h a = refl
times-below o x (y ∷ ys) h a = let first = a.0 in ground (arith, times-below o x ys h a.1)

-- Two ascending lists with the same members are equal.
Ascending-unique :
    (xs ys : List ℕ) → Ascending xs → Ascending ys → ((o : ℕ) → times o xs ≡ times o ys) → xs ≡ ys
Ascending-unique [] [] a b h = refl
Ascending-unique [] (y ∷ ys) a b h = let once = h y in absurd (ground arith)
Ascending-unique (x ∷ xs) [] a b h = let once = h x in absurd (ground arith)
Ascending-unique (x ∷ xs) (y ∷ ys) a b h = elim (Nat-cases x y) [
  | inl same ↦
      let tails : (o : ℕ) → times o xs ≡ times o ys = λ o. let both = h o in ground (arith, same) in
      ap (λ z. z ∷ xs) same ∙ ap (λ zs. y ∷ zs) (Ascending-unique xs ys a.1 b.1 tails)
  | inr differ ↦ elim (Bool-cases (ltb x y)) [
    | inl less ↦
        let once = h x in
        let none_there = times-below x y ys (ltb→lt x y less) b.0 in absurd (ground arith)
    | inr more ↦
        let once = h y in
        let less : y < x = ground arith in
        let none_there = times-below y x xs less a.0 in absurd (ground arith)
  ]
]

every_same_refl : (xs : List ℕ) → every_same xs xs ≡ true
unfolding every_same
every_same_refl [] = refl
every_same_refl (x ∷ xs) = ground (arith, every_same_refl xs)

every_same_sound :
    (xs ys : List ℕ) (o : ℕ)
    → length xs ≡ length ys
    → every_same xs ys ≡ true
    → times o xs ≡ times o ys
unfolding every_same
every_same_sound [] [] o l h = refl
every_same_sound [] (y ∷ ys) o l h = omega arith
every_same_sound (x ∷ xs) [] o l h = omega arith
every_same_sound (x ∷ xs) (y ∷ ys) o l h = ground (arith, every_same_sound xs ys o)

-- Two selections are taken for the same exactly when they select every option equally often.
pub same_modifier_set_iff :
    (xs ys : List ℕ) → (same_modifier_set xs ys ≡ true) ↔ ((o : ℕ) → times o xs ≡ times o ys)
unfolding same_modifier_set
same_modifier_set_iff xs ys = (
  λ h o.
      let lengths : length (sorted xs) ≡ length (sorted ys) =
        ground (arith, length-sorted xs, length-sorted ys) in
      let every : every_same (sorted xs) (sorted ys) ≡ true = ground arith in
      sym (times-sorted o xs)
      ∙ every_same_sound (sorted xs) (sorted ys) o lengths every
      ∙ times-sorted o ys,
  λ h.
      let same : sorted xs ≡ sorted ys =
        Ascending-unique (sorted xs) (sorted ys) (sorted-Ascending xs) (sorted-Ascending ys)
          (λ o. times-sorted o xs ∙ h o ∙ sym (times-sorted o ys)) in
      let lengths : length xs ≡ length ys =
        sym (length-sorted xs) ∙ ap length same ∙ length-sorted ys in
      let every : every_same (sorted xs) (sorted ys) ≡ true =
        ap (λ zs. every_same (sorted xs) zs) (sym same) ∙ every_same_refl (sorted xs) in
      ground (arith, lengths, every),
)
