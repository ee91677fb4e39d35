-- ===== src/Tenants/Modules.antt =====
-- apps/api/src/modules/tenants/tenants.service.ts: `setModule` and what the modules require.
use muzael.Common.{
  ◌≡◌, sym, ap, ◌∙◌, Bool, true, false, not, List, [], ◌∷◌, arith, filter, All, Bool-cases, inl,
  inr, ==_refl,
}
use mathlib.Core.Path.{subst}
use muzael.Shared.Errors.{ok, >>=-eq-ok, throw_if-eq-ok, module_not_available}
use muzael.Rbac.Modules.{
  ModuleKey, place, same_module, is_core, is_coming_soon, requires, includes, missing_dependencies,
  dependents_of,
}
use muzael.Rbac.Modules.Sets.{same_module-eq, In, All-lookup, All-In}
use muzael.Tenants.{TenantModule, currently_enabled, upsert, is_empty, check_switch, set_module}

pub record IsConsistent (enabled : List ModuleKey) : Type 0 where
  pub core_on : (m : ModuleKey) → is_core m ≡ true → In enabled m
  pub has_required : (m : ModuleKey) → In enabled m → All (In enabled) (requires m)

-- A write leaves the other modules as they were, and switches its own on.
upsert-other :
    (m : ModuleKey) (on : Bool) (rows : List TenantModule) (x : ModuleKey)
    → same_module m x ≡ false
    → includes (currently_enabled (upsert m on rows)) x ≡ includes (currently_enabled rows) x
unfolding upsert currently_enabled
upsert-other m on [] x ne = ground arith
upsert-other m on (r ∷ rs) x ne = elim (Bool-cases (same_module r.key m)) [
  | inl same ↦ let e = same_module-eq r.key m same in ground (arith, e)
  | inr other ↦ ground (arith, upsert-other m on rs x ne)
]

upsert-on :
    (m : ModuleKey) (rows : List TenantModule) → In (currently_enabled (upsert m true rows)) m
unfolding upsert currently_enabled
upsert-on m [] = ground (arith, ==_refl (place m))
upsert-on m (r ∷ rs) = ground (arith, upsert-on m rs)

upsert-off :
    (m : ModuleKey) (rows : List TenantModule) (x : ModuleKey)
    → In (currently_enabled (upsert m false rows)) x
    → In (currently_enabled rows) x
unfolding upsert currently_enabled
upsert-off m [] x i = i
upsert-off m (r ∷ rs) x i = ground (arith, upsert-off m rs x)

is_empty-filter :
    (p : ModuleKey → Bool) (set : List ModuleKey) (x : ModuleKey)
    → is_empty (filter p set) ≡ true
    → In set x
    → p x ≡ false
is_empty-filter p [] x e i = absurd (ground arith)
is_empty-filter p (y ∷ ys) x e i = elim (Bool-cases (same_module y x)) [
  | inl same ↦ subst (λ z. p z ≡ false) (same_module-eq y x same) (ground arith)
  | inr other ↦ is_empty-filter p ys x (ground arith) (ground (arith, i, other))
]

none_missing :
    (m : ModuleKey) (enabled : List ModuleKey)
    → check_switch true m enabled ≡ ok tt
    → is_empty (filter (λ dep. not (includes enabled dep)) (requires m)) ≡ true
unfolding missing_dependencies
none_missing m enabled h = ground arith

none_depend :
    (m : ModuleKey) (enabled : List ModuleKey)
    → check_switch false m enabled ≡ ok tt
    → (is_core m ≡ false) × (is_empty (filter (λ x. includes (requires x) m) enabled) ≡ true)
unfolding dependents_of
none_depend m enabled h = ground arith

module _ (m : ModuleKey) (rows : List TenantModule)
    (c : IsConsistent (currently_enabled rows)) where
  enable-IsConsistent :
      check_switch true m (currently_enabled rows) ≡ ok tt
      → IsConsistent (currently_enabled (upsert m true rows))
  enable-IsConsistent passed = record {
    core_on = λ x h. stays x (c.core_on x h);
    has_required = λ x i. All-In _ (requires x) (λ d j. stays d (required x i d j));
  }
    where
      stays :
          (x : ModuleKey)
          → In (currently_enabled rows) x
          → In (currently_enabled (upsert m true rows)) x
      stays x i = elim (Bool-cases (same_module m x)) [
        | inl same ↦
            subst (In (currently_enabled (upsert m true rows))) (same_module-eq m x same)
              (upsert-on m rows)
        | inr other ↦ upsert-other m true rows x other ∙ i
      ]

      required :
          (x : ModuleKey)
          → In (currently_enabled (upsert m true rows)) x
          → (d : ModuleKey) → In (requires x) d
          → In (currently_enabled rows) d
      required x i d j = elim (Bool-cases (same_module m x)) [
        | inl same ↦
            let own = subst (λ z. In (requires z) d) (sym (same_module-eq m x same)) j in
            let absent =
              is_empty-filter (λ dep. not (includes (currently_enabled rows) dep)) (requires m) d
                (none_missing m (currently_enabled rows) passed) own in
            ground (arith, absent)
        | inr other ↦
            All-lookup (In (currently_enabled rows)) (requires x) d
              (c.has_required x (sym (upsert-other m true rows x other) ∙ i)) j
      ]

  disable-IsConsistent :
      check_switch false m (currently_enabled rows) ≡ ok tt
      → IsConsistent (currently_enabled (upsert m false rows))
  disable-IsConsistent passed = record {
    core_on = λ x h. stays x (c.core_on x h) (not_core x h);
    has_required = λ x i. All-In _ (requires x) (λ d j. required x i d j);
  }
    where
      stays :
          (x : ModuleKey)
          → In (currently_enabled rows) x
          → same_module m x ≡ false
          → In (currently_enabled (upsert m false rows)) x
      stays x i other = upsert-other m false rows x other ∙ i

      not_core : (x : ModuleKey) → is_core x ≡ true → same_module m x ≡ false
      not_core x h = elim (Bool-cases (same_module m x)) [
        | inl same ↦
            let (plain, _) = none_depend m (currently_enabled rows) passed in
            let e = ap is_core (same_module-eq m x same) in cc
        | inr other ↦ other
      ]

      required :
          (x : ModuleKey)
          → In (currently_enabled (upsert m false rows)) x
          → (d : ModuleKey) → In (requires x) d
          → In (currently_enabled (upsert m false rows)) d
      required x i d j =
          let before = upsert-off m rows x i in
          let (_, unused) = none_depend m (currently_enabled rows) passed in
          let free =
            is_empty-filter (λ y. includes (requires y) m) (currently_enabled rows) x unused
              before in
          stays d
            (All-lookup (In (currently_enabled rows)) (requires x) d (c.has_required x before) j)
            (elim (Bool-cases (same_module m d)) [
              | inl same ↦ let hit = subst (In (requires x)) (sym (same_module-eq m d same)) j in cc
              | inr other ↦ other
            ])

-- Switching a module on or off, where it is allowed, keeps the tenant's modules consistent: every
-- core module is on, and every module that is on has all the modules that it requires.
pub set_module-IsConsistent :
    (m : ModuleKey) (on : Bool) (rows : List TenantModule) {rows' : List TenantModule}
    → IsConsistent (currently_enabled rows)
    → set_module m on rows ≡ ok rows'
    → IsConsistent (currently_enabled rows')
unfolding set_module
set_module-IsConsistent m on rows {rows'} c h =
    let (_, k) = throw_if-eq-ok (is_coming_soon m) module_not_available _ h in
    let (tt', passed, e) = >>=-eq-ok (check_switch on m (currently_enabled rows)) _ k in
    let built : rows' ≡ upsert m on rows = cc in rw built (switch on passed)
  where
    switch :
        (on : Bool)
        → check_switch on m (currently_enabled rows) ≡ ok tt
        → IsConsistent (currently_enabled (upsert m on rows))
    switch true p = enable-IsConsistent m rows c p
    switch false p = disable-IsConsistent m rows c p
