-- ===== src/Tenants/Tests.antt =====
-- A tenant that switches a module on, and is refused another.
use muzael.Common.{◌≡◌, refl, subst, true, false, List, [], ◌∷◌}
use muzael.Shared.Errors.{ok, err, module_has_dependents}
use muzael.Rbac.Modules.{
  crm, analytics, telegram, orders, delivery, is_core, requires, is_coming_soon,
  missing_dependencies, dependents_of, place, with_dependencies, visit_each, visit, core_modules,
  modules,
}
use muzael.Rbac.Modules.Closure.{with_dependencies-IsClosure}
use muzael.Tenants.{TenantModule, currently_enabled, set_module, upsert}
use muzael.Tenants.Modules.{IsConsistent, set_module-IsConsistent}

abbrev rows : List TenantModule
rows =
    record { key = crm; enabled = true }
    ∷ record { key = orders; enabled = true }
    ∷ record { key = analytics; enabled = true }
    ∷ record { key = telegram; enabled = true }
    ∷ record { key = delivery; enabled = false }
    ∷ []

abbrev rows_after : List TenantModule
rows_after =
    record { key = crm; enabled = true }
    ∷ record { key = orders; enabled = true }
    ∷ record { key = analytics; enabled = true }
    ∷ record { key = telegram; enabled = true }
    ∷ record { key = delivery; enabled = true }
    ∷ []

switched_on : set_module delivery true rows ≡ ok rows_after
unfolding set_module is_coming_soon missing_dependencies requires currently_enabled upsert place
switched_on = refl

refused : set_module orders false rows_after ≡ err module_has_dependents
unfolding set_module is_coming_soon dependents_of requires currently_enabled is_core place
refused = refl

-- What is on is what the module for orders needs.
closed_rows : with_dependencies (orders ∷ []) ≡ currently_enabled rows
unfolding currently_enabled with_dependencies visit_each visit requires place core_modules modules
    is_core
closed_rows = refl

rows-IsConsistent : IsConsistent (currently_enabled rows)
rows-IsConsistent =
    let closure = with_dependencies-IsClosure (orders ∷ []) in
    subst IsConsistent closed_rows
      (record { core_on = closure.core; has_required = closure.closed })

set_module-IsConsistent_example : IsConsistent (currently_enabled rows_after)
set_module-IsConsistent_example =
    set_module-IsConsistent delivery true rows rows-IsConsistent switched_on
