-- ===== src/Rbac/Modules/Visit.antt =====
-- packages/rbac/src/modules.ts: the walk of `withDependencies`.
use muzael.Common.{
  ℕ, zero, suc, ◌≤◌, ◌<◌, List, [], ◌∷◌, arith, All, Bool-cases, inl, inr, ◌⊎◌, ==_refl,
}
use mathlib.Core.Path.{subst}
use muzael.Rbac.Modules.{
  ModuleKey, place, requires, includes, visit_each, visit, same_module, crm, orders, booking,
  delivery, inventory, loyalty, marketing, messages, pos, suppliers, ai,
}
use muzael.Rbac.Modules.Sets.{same_module-eq, In}

-- How many links a chain of requirements below a module has at most.
abbrev pub height : ModuleKey → ℕ
height orders = 1
height booking = 1
height delivery = 2
height inventory = 1
height loyalty = 1
height marketing = 1
height messages = 1
height pos = 2
height suppliers = 2
height ai = 1
height _ = 0

requires-height : (m : ModuleKey) → All (λ d. height d < height m) (requires m)
unfolding requires
requires-height crm = tt
requires-height _ = omega arith

pub height-lt : (m : ModuleKey) → height m < 4
height-lt crm = omega arith
height-lt _ = omega arith

-- A set that has grown, and whose new members have all that they require.
pub record Grown (old new : List ModuleKey) : Type 0 where
  pub keeps : (m : ModuleKey) → In old m → In new m
  pub closed : (m : ModuleKey) → In new m → In old m ⊎ All (In new) (requires m)

pub All-keeps :
    (old new ms : List ModuleKey)
    → ((m : ModuleKey) → In old m → In new m)
    → All (In old) ms
    → All (In new) ms
All-keeps old new [] k h = tt
All-keeps old new (m ∷ ms) k (i, h) = (k m i, All-keeps old new ms k h)

Grown-refl : (set : List ModuleKey) → Grown set set
Grown-refl set = record { keeps = λ m i. i; closed = λ m i. inl i }

Grown-trans : {a b c : List ModuleKey} → Grown a b → Grown b c → Grown a c
Grown-trans {a} {b} {c} g h = record { keeps = λ m i. h.keeps m (g.keeps m i); closed = both }
  where
    both : (m : ModuleKey) → In c m → In a m ⊎ All (In c) (requires m)
    both m i = elim (h.closed m i) [
      | inl earlier ↦ elim (g.closed m earlier) [
        | inl first ↦ inl first
        | inr whole ↦ inr (All-keeps b c (requires m) h.keeps whole)
      ]
      | inr whole ↦ inr whole
    ]

-- A visit with enough fuel adds its module.
abbrev pub Visits : ℕ → (ModuleKey → List ModuleKey → List ModuleKey) → Type 0
Visits fuel v =
    (m : ModuleKey) (set : List ModuleKey) → height m < fuel → Grown set (v m set) × In (v m set) m

pub visit_each-Grown :
    (fuel : ℕ) (v : ModuleKey → List ModuleKey → List ModuleKey)
    → Visits fuel v
    → (ms set : List ModuleKey) → All (λ m. height m < fuel) ms
    → Grown set (visit_each v ms set) × All (In (visit_each v ms set)) ms
unfolding visit_each
visit_each-Grown fuel v good [] set h = (Grown-refl set, tt)
visit_each-Grown fuel v good (m ∷ ms) set (p, h) =
    let (grown, added) = good m set p in
    let (rest, all_added) = visit_each-Grown fuel v good ms (v m set) h in
    (Grown-trans grown rest, (rest.keeps m added, all_added))

lower :
    (ms : List ModuleKey) (a b : ℕ)
    → a ≤ b
    → All (λ m. height m < a) ms
    → All (λ m. height m < b) ms
lower [] a b le h = tt
lower (m ∷ ms) a b le (p, h) = (omega arith, lower ms a b le h)

visit_step : (fuel : ℕ) → Visits fuel (visit fuel) → Visits (suc fuel) (visit (suc fuel))
unfolding visit
visit_step fuel good m set h = elim (Bool-cases (includes set m)) [
  | inl there ↦ rw there (Grown-refl set, there)
  | inr fresh ↦ rw fresh (record { keeps = keeps; closed = closed }, each.0.keeps m self)
]
  where
    self : In (m ∷ set) m
    self = ground (arith, ==_refl (place m))

    result : List ModuleKey
    result = visit_each (visit fuel) (requires m) (m ∷ set)

    each : Grown (m ∷ set) result × All (In result) (requires m)
    each =
        visit_each-Grown fuel (visit fuel) good (requires m) (m ∷ set)
          (lower (requires m) (height m) fuel (omega arith) (requires-height m))

    keeps : (x : ModuleKey) → In set x → In result x
    keeps x i = each.0.keeps x (ground (arith, i))

    closed : (x : ModuleKey) → In result x → In set x ⊎ All (In result) (requires x)
    closed x i = elim (each.0.closed x i) [
      | inl earlier ↦ elim (Bool-cases (same_module m x)) [
        | inl same ↦
            inr (subst (λ y. All (In result) (requires y)) (same_module-eq m x same) each.1)
        | inr other ↦ inl (ground (arith, earlier, other))
      ]
      | inr whole ↦ inr whole
    ]

pub visit-Grown : (fuel : ℕ) → Visits fuel (visit fuel)
visit-Grown zero m set h = absurd (omega arith)
visit-Grown (suc fuel) m set h = visit_step fuel (visit-Grown fuel) m set h
