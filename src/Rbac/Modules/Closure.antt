-- ===== src/Rbac/Modules/Closure.antt =====
-- packages/rbac/src/modules.ts: the result of `withDependencies` as a set.
use muzael.Common.{
  ℕ, zero, suc, ◌<◌, ◌≡◌, true, List, [], ◌∷◌, arith, sym, ◌∙◌, All, Bool-cases, inl, inr, ==_refl,
}
use mathlib.Core.Path.{subst}
use muzael.Rbac.Modules.{
  ModuleKey, place, modules, is_core, requires, includes, visit_each, visit, core_modules,
  with_dependencies, same_module, crm,
}
use muzael.Rbac.Modules.Sets.{same_module-eq, In, In-modules, All-lookup, All-In, includes-filter}
use muzael.Rbac.Modules.Visit.{height, height-lt, Grown, visit_each-Grown, visit-Grown, All-keeps}

-- Why a module is in the result: it is core, it was selected, or one that is there requires it.
pub data Needed (selection : List ModuleKey) : ModuleKey → Type 0 where
  core : {m : ModuleKey} → is_core m ≡ true → Needed selection m
  chosen : {m : ModuleKey} → In selection m → Needed selection m
  required : {m d : ModuleKey} → Needed selection m → In (requires m) d → Needed selection d

module _ (selection : List ModuleKey) where
  abbrev AllNeeded : List ModuleKey → Type 0
  AllNeeded set = (x : ModuleKey) → In set x → Needed selection x

  visit_each-Needed :
      (v : ModuleKey → List ModuleKey → List ModuleKey)
      → ((m : ModuleKey) (set : List ModuleKey)
          → Needed selection m
          → AllNeeded set
          → AllNeeded (v m set))
      → (ms set : List ModuleKey) → AllNeeded ms
      → AllNeeded set
      → AllNeeded (visit_each v ms set)
  unfolding visit_each
  visit_each-Needed v good [] set a b = b
  visit_each-Needed v good (m ∷ ms) set a b =
      visit_each-Needed v good ms (v m set) (λ x i. a x (ground (arith, i)))
        (good m set (a m (ground (arith, ==_refl (place m)))) b)

  visit-Needed :
      (fuel : ℕ) (m : ModuleKey) (set : List ModuleKey)
      → Needed selection m
      → AllNeeded set
      → AllNeeded (visit fuel m set)
  unfolding visit
  visit-Needed zero m set n a = a
  visit-Needed (suc fuel) m set n a = elim (Bool-cases (includes set m)) [
    | inl there ↦ rw there a
    | inr fresh ↦ rw fresh (
        visit_each-Needed (visit fuel) (visit-Needed fuel) (requires m) (m ∷ set)
          (λ x i. required n i)
          (λ x i. elim (Bool-cases (same_module m x)) [
            | inl same ↦ subst (Needed selection) (same_module-eq m x same) n
            | inr other ↦ a x (ground (arith, i, other))
          ]))
  ]

core_modules-In : (m : ModuleKey) → In core_modules m → is_core m ≡ true
unfolding core_modules
core_modules-In m i = ground (arith, i, includes-filter is_core modules m)

core_modules_complete : (m : ModuleKey) → is_core m ≡ true → In core_modules m
unfolding core_modules
core_modules_complete m c = ground (arith, includes-filter is_core modules m, In-modules m)

core-requires :
    (m : ModuleKey) (set : List ModuleKey) → is_core m ≡ true → All (In set) (requires m)
unfolding is_core requires
core-requires crm set c = tt
core-requires _ set c = ground arith

-- The set that `withDependencies` promises.
pub record IsClosure (selection result : List ModuleKey) : Type 0 where
  pub core : (m : ModuleKey) → is_core m ≡ true → In result m
  pub selected : (m : ModuleKey) → In selection m → In result m
  pub closed : (m : ModuleKey) → In result m → All (In result) (requires m)
  pub least : (m : ModuleKey) → In result m → Needed selection m

module _ (selection : List ModuleKey) where
  walked : List ModuleKey
  walked = visit_each (visit 4) selection core_modules

  grown : Grown core_modules walked × All (In walked) selection
  unfolding walked
  grown =
      visit_each-Grown 4 (visit 4) (visit-Grown 4) selection core_modules
        (All-In (λ m. height m < 4) selection (λ m _. height-lt m))

  includes-with_dependencies :
      (m : ModuleKey) → includes (with_dependencies selection) m ≡ includes walked m
  unfolding with_dependencies walked
  includes-with_dependencies m = includes-filter (includes walked) modules m ∙ rw (In-modules m)

  walked-closed : (m : ModuleKey) → In walked m → All (In walked) (requires m)
  walked-closed m i = elim (grown.0.closed m i) [
    | inl first ↦ core-requires m walked (core_modules-In m first)
    | inr whole ↦ whole
  ]

  walked-Needed : (m : ModuleKey) → In walked m → Needed selection m
  unfolding walked
  walked-Needed =
      visit_each-Needed selection (visit 4) (visit-Needed selection 4) selection core_modules
        (λ m i. chosen i) (λ m i. core (core_modules-In m i))

-- `withDependencies` returns the core modules, the selection and all that any of these require,
-- directly or through others, and no module that nothing needs; and the fuel is enough for it.
pub with_dependencies-IsClosure :
    (selection : List ModuleKey) → IsClosure selection (with_dependencies selection)
with_dependencies-IsClosure selection =
    let same = includes-with_dependencies selection in
    let (grown, added) = grown selection in
    let into : (m : ModuleKey) → In (walked selection) m → In (with_dependencies selection) m =
      λ m i. same m ∙ i in
    record {
      core = λ m c. into m (grown.keeps m (core_modules_complete m c));
      selected = λ m i. into m (All-lookup (In (walked selection)) selection m added i);
      closed = λ m i.
          All-keeps (walked selection) (with_dependencies selection) (requires m) into
            (walked-closed selection m (sym (same m) ∙ i));
      least = λ m i. walked-Needed selection m (sym (same m) ∙ i);
    }
