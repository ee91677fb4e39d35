-- ===== src/Rbac/Modules.antt =====
-- packages/rbac/src/modules.ts: the modules of a tenant and what they require.
pub mod Sets
mod Visit
pub mod Closure
mod Tests
use muzael.Common.{
  ℕ, zero, suc, Bool, true, false, not, List, [], ◌∷◌, ◌++◌, any, filter, ◌==◌, if◌then◌else◌,
}

pub data ModuleKey : Type 0 where
  crm catalog services orders booking payments delivery branches employees : ModuleKey
  inventory loyalty promocodes marketing messages analytics telegram pos : ModuleKey
  finance suppliers ai automation : ModuleKey

-- The place of a module in `MODULES`; the source compares the strings.
unfoldable pub place : ModuleKey → ℕ
place crm = 0
place catalog = 1
place services = 2
place orders = 3
place booking = 4
place payments = 5
place delivery = 6
place branches = 7
place employees = 8
place inventory = 9
place loyalty = 10
place promocodes = 11
place marketing = 12
place messages = 13
place analytics = 14
place telegram = 15
place pos = 16
place finance = 17
place suppliers = 18
place ai = 19
place automation = 20

abbrev pub same_module : ModuleKey → ModuleKey → Bool
same_module a b = place a == place b

unfoldable pub modules : List ModuleKey
modules =
    crm ∷ catalog ∷ services ∷ orders ∷ booking ∷ payments ∷ delivery ∷ branches ∷ employees
    ∷ inventory ∷ loyalty ∷ promocodes ∷ marketing ∷ messages ∷ analytics ∷ telegram ∷ pos ∷ finance
    ∷ suppliers ∷ ai ∷ automation ∷ []

-- The fields `core`, `comingSoon` and `requires` of `MODULE_DEFINITIONS`.
unfoldable pub is_core : ModuleKey → Bool
is_core crm = true
is_core analytics = true
is_core telegram = true
is_core _ = false

unfoldable pub is_coming_soon : ModuleKey → Bool
is_coming_soon marketing = true
is_coming_soon pos = true
is_coming_soon finance = true
is_coming_soon suppliers = true
is_coming_soon ai = true
is_coming_soon automation = true
is_coming_soon _ = false

unfoldable pub requires : ModuleKey → List ModuleKey
requires orders = crm ∷ []
requires booking = services ∷ crm ∷ []
requires delivery = orders ∷ []
requires inventory = catalog ∷ []
requires loyalty = crm ∷ []
requires marketing = crm ∷ []
requires messages = crm ∷ []
requires pos = catalog ∷ orders ∷ payments ∷ []
requires suppliers = inventory ∷ []
requires ai = crm ∷ []
requires _ = []

abbrev pub includes : List ModuleKey → ModuleKey → Bool
includes set m = any (λ x. same_module x m) set

unfoldable pub missing_dependencies : ModuleKey → List ModuleKey → List ModuleKey
missing_dependencies m enabled = filter (λ dep. not (includes enabled dep)) (requires m)

unfoldable pub dependents_of : ModuleKey → List ModuleKey → List ModuleKey
dependents_of m enabled = filter (λ x. includes (requires x) m) enabled

-- `visit` of `withDependencies`, and the `forEach` over what a module requires. The fuel bounds how
-- deep the calls nest; a chain of requirements has at most three links.
unfoldable pub visit_each :
    (ModuleKey → List ModuleKey → List ModuleKey) → List ModuleKey → List ModuleKey → List ModuleKey
visit_each visit [] result = result
visit_each visit (m ∷ ms) result = visit_each visit ms (visit m result)

unfoldable pub visit : ℕ → ModuleKey → List ModuleKey → List ModuleKey
visit zero m result = result
visit (suc fuel) m result =
    let added = visit_each (visit fuel) (requires m) (m ∷ result) in
    if includes result m then result else added

unfoldable pub core_modules : List ModuleKey
unfolding modules is_core
core_modules = filter is_core modules

unfoldable pub with_dependencies : List ModuleKey → List ModuleKey
unfolding visit_each visit requires place core_modules
with_dependencies selection =
    let result = visit_each (visit 4) selection core_modules in filter (includes result) modules
