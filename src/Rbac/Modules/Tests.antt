-- ===== src/Rbac/Modules/Tests.antt =====
-- The closure of a selection of modules.
use muzael.Common.{◌≡◌, refl, List, [], ◌∷◌}
use muzael.Rbac.Modules.{
  ModuleKey, crm, catalog, orders, payments, delivery, analytics, telegram, pos, with_dependencies,
  visit_each, visit, requires, place, core_modules, modules, is_core,
}
use muzael.Rbac.Modules.Closure.{IsClosure, with_dependencies-IsClosure}

abbrev selection : List ModuleKey
selection = delivery ∷ pos ∷ []

selected :
    with_dependencies selection
    ≡ crm ∷ catalog ∷ orders ∷ payments ∷ delivery ∷ analytics ∷ telegram ∷ pos ∷ []
unfolding with_dependencies visit_each visit requires place core_modules modules is_core
selected = refl

with_dependencies-IsClosure_example : IsClosure selection (with_dependencies selection)
with_dependencies-IsClosure_example = with_dependencies-IsClosure selection
