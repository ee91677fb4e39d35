-- ===== src/Rbac/Modules/Sets.antt =====
-- packages/rbac/src/modules.ts: lists of modules as sets.
use muzael.Common.{
  ◌≡◌, refl, sym, ap, ◌∙◌, Bool, true, ◌&&◌, List, [], ◌∷◌, arith, filter, All, get_or, Bool-cases,
  inl, inr, ==_iff, ==_refl,
}
use mathlib.Core.Path.{subst}
use muzael.Rbac.Modules.{ModuleKey, place, same_module, modules, includes, crm}

get-place : (m : ModuleKey) → get_or modules (place m) crm ≡ m
unfolding modules place
get-place crm = refl
get-place _ = refl

pub same_module-eq : (a b : ModuleKey) → same_module a b ≡ true → a ≡ b
same_module-eq a b e =
    sym (get-place a)
    ∙ ap (λ n. get_or modules n crm) ((==_iff (place a) (place b)).0 e)
    ∙ get-place b

abbrev pub In : List ModuleKey → ModuleKey → Type 0
In set m = includes set m ≡ true

pub In-modules : (m : ModuleKey) → In modules m
unfolding modules place
In-modules crm = refl
In-modules _ = refl

module _ (P : ModuleKey → Type 0) where
  pub All-lookup : (set : List ModuleKey) (m : ModuleKey) → All P set → In set m → P m
  All-lookup [] m h i = absurd (ground arith)
  All-lookup (x ∷ xs) m (p, h) i = elim (Bool-cases (same_module x m)) [
    | inl same ↦ subst P (same_module-eq x m same) p
    | inr other ↦ All-lookup xs m h (ground arith)
  ]

  pub All-In : (set : List ModuleKey) → ((m : ModuleKey) → In set m → P m) → All P set
  All-In [] h = tt
  All-In (x ∷ xs) h =
      (h x (ground (arith, ==_refl (place x))), All-In xs (λ m i. h m (ground (arith, i))))

pub includes-filter :
    (p : ModuleKey → Bool) (set : List ModuleKey) (m : ModuleKey)
    → includes (filter p set) m ≡ (includes set m && p m)
includes-filter p [] m = refl
includes-filter p (x ∷ xs) m = elim (Bool-cases (same_module x m)) [
  | inl same ↦
      rw (same_module-eq x m same) (ground (arith, includes-filter p xs m, ==_refl (place m)))
  | inr other ↦ ground (arith, includes-filter p xs m, other)
]
