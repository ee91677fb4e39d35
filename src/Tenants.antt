-- ===== src/Tenants.antt =====
-- apps/api/src/modules/tenants/tenants.service.ts: the modules that a tenant switches on and off.
pub mod Modules
mod Tests
use muzael.Common.{Bool, true, false, not, List, [], ◌∷◌, if◌then◌else◌, ◌==◌}
use muzael.Shared.Errors.{
  Result, ok, err, ◌>>=◌, ◌>>◌, throw_if, module_not_available, module_dependency_missing,
  module_is_core, module_has_dependents,
}
use muzael.Rbac.Modules.{
  ModuleKey, same_module, is_core, is_coming_soon, missing_dependencies, dependents_of,
}

-- A row of the table, of one tenant.
pub record TenantModule : Type 0 where
  pub key : ModuleKey
  pub enabled : Bool

-- `rows.filter((r) => r.enabled).map((r) => r.module)`.
unfoldable pub currently_enabled : List TenantModule → List ModuleKey
currently_enabled [] = []
currently_enabled (r ∷ rs) =
    let rest = currently_enabled rs in if r.enabled then r.key ∷ rest else rest

unfoldable pub upsert : ModuleKey → Bool → List TenantModule → List TenantModule
upsert m enabled [] = record { key = m; enabled = enabled } ∷ []
upsert m enabled (r ∷ rs) =
    if same_module r.key m then record r { enabled = enabled } ∷ rs else r ∷ upsert m enabled rs

abbrev pub is_empty : List ModuleKey → Bool
is_empty [] = true
is_empty (_ ∷ _) = false

-- The two branches of `if (enabled)`.
abbrev pub check_switch : Bool → ModuleKey → List ModuleKey → Result (Unit {0})
check_switch true m enabled =
    throw_if (not (is_empty (missing_dependencies m enabled))) module_dependency_missing
check_switch false m enabled = do
  throw_if (is_core m) module_is_core
  throw_if (not (is_empty (dependents_of m enabled))) module_has_dependents

unfoldable pub set_module : ModuleKey → Bool → List TenantModule → Result (List TenantModule)
set_module m enabled rows = do
  throw_if (is_coming_soon m) module_not_available
  check_switch enabled m (currently_enabled rows)
  ok (upsert m enabled rows)
