-- ===== src/Rbac/Roles.antt =====
-- packages/rbac/src/roles.ts: what each role may do, the overrides of a membership, and who may
-- assign which role.
mod Effective
mod Assignment
mod Tests
use muzael.Common.{
  ℕ, Bool, true, false, ◌&&◌, ◌||◌, not, Option, none, some, List, [], ◌∷◌, ◌++◌, any, filter, ltb,
  if◌then◌else◌,
}
use muzael.Rbac.Permissions.{
  Permission, same_permission, permissions, customer_read, customer_write, customer_delete,
  customer_export, product_read, product_write, product_delete, service_read, service_write,
  service_delete, order_read, order_write, order_status, order_cancel, order_refund, booking_read,
  booking_write, booking_cancel, booking_reassign, employee_read, employee_write, branch_read,
  branch_write, inventory_read, inventory_write, loyalty_read, loyalty_adjust, promo_read,
  promo_write, message_read, message_write, message_assign, analytics_read, analytics_financial,
  settings_read, settings_write, integration_read, integration_write, member_read, member_invite,
  member_role, audit_read, tenant_delete, tenant_billing,
}

pub data Role : Type 0 where
  owner admin manager operator employee accountant courier custom : Role

-- `MATRIX`.
abbrev admin_permissions : List Permission
admin_permissions =
    customer_read ∷ customer_write ∷ customer_delete ∷ customer_export ∷ product_read
    ∷ product_write ∷ product_delete ∷ service_read ∷ service_write ∷ service_delete ∷ order_read
    ∷ order_write ∷ order_status ∷ order_cancel ∷ order_refund ∷ booking_read ∷ booking_write
    ∷ booking_cancel ∷ booking_reassign ∷ employee_read ∷ employee_write ∷ branch_read
    ∷ branch_write ∷ inventory_read ∷ inventory_write ∷ loyalty_read ∷ loyalty_adjust ∷ promo_read
    ∷ promo_write ∷ message_read ∷ message_write ∷ message_assign ∷ analytics_read
    ∷ analytics_financial ∷ settings_read ∷ settings_write ∷ integration_read ∷ member_read
    ∷ member_invite ∷ audit_read ∷ []

abbrev manager_permissions : List Permission
manager_permissions =
    customer_read ∷ customer_write ∷ product_read ∷ product_write ∷ service_read ∷ service_write
    ∷ order_read ∷ order_write ∷ order_status ∷ order_cancel ∷ booking_read ∷ booking_write
    ∷ booking_cancel ∷ booking_reassign ∷ employee_read ∷ branch_read ∷ inventory_read
    ∷ inventory_write ∷ loyalty_read ∷ loyalty_adjust ∷ promo_read ∷ promo_write ∷ message_read
    ∷ message_write ∷ message_assign ∷ analytics_read ∷ settings_read ∷ []

abbrev operator_permissions : List Permission
operator_permissions =
    customer_read ∷ customer_write ∷ product_read ∷ service_read ∷ order_read ∷ order_status
    ∷ booking_read ∷ loyalty_read ∷ message_read ∷ message_write ∷ branch_read ∷ []

abbrev employee_permissions : List Permission
employee_permissions = booking_read ∷ service_read ∷ product_read ∷ customer_read ∷ []

abbrev accountant_permissions : List Permission
accountant_permissions =
    customer_read ∷ order_read ∷ product_read ∷ service_read ∷ inventory_read ∷ loyalty_read
    ∷ analytics_read ∷ analytics_financial ∷ []

abbrev courier_permissions : List Permission
courier_permissions = order_read ∷ order_status ∷ []

-- A set of permissions as the list of its members; the cache of the source is left out, since it
-- only keeps what the function returns anyway.
unfoldable pub permissions_for_role : Role → List Permission
unfolding permissions
permissions_for_role owner = permissions
permissions_for_role custom = []
permissions_for_role admin = admin_permissions
permissions_for_role manager = manager_permissions
permissions_for_role operator = operator_permissions
permissions_for_role employee = employee_permissions
permissions_for_role accountant = accountant_permissions
permissions_for_role courier = courier_permissions

pub record PermissionOverrides : Type 0 where
  pub grant : List Permission
  pub revoke : List Permission

abbrev pub has : List Permission → Permission → Bool
has set p = any (λ q. same_permission q p) set

-- `set.add(p)`.
abbrev pub add : List Permission → Permission → List Permission
add set p = if has set p then set else set ++ p ∷ []

-- `set.delete(p)`.
abbrev pub delete : List Permission → Permission → List Permission
delete set p = filter (λ q. not (same_permission q p)) set

-- The two loops of `effectivePermissions`.
unfoldable pub add_all : List Permission → List Permission → List Permission
add_all set [] = set
add_all set (p ∷ ps) = add_all (add set p) ps

unfoldable pub delete_all : List Permission → List Permission → List Permission
delete_all set [] = set
delete_all set (p ∷ ps) = delete_all (delete set p) ps

abbrev is_empty : List Permission → Bool
is_empty [] = true
is_empty (_ ∷ _) = false

-- Overrides that are absent, or absent inside, are empty lists.
unfoldable pub effective_permissions : Role → Option PermissionOverrides → List Permission
effective_permissions role none = permissions_for_role role
effective_permissions role (some overrides) =
    if is_empty overrides.grant && is_empty overrides.revoke
    then permissions_for_role role
    else delete_all (add_all (permissions_for_role role) overrides.grant) overrides.revoke

unfoldable pub role_has_permission : Role → Permission → Option PermissionOverrides → Bool
role_has_permission role p overrides = has (effective_permissions role overrides) p

abbrev pub rank : Role → ℕ
rank owner = 100
rank admin = 80
rank manager = 60
rank accountant = 50
rank operator = 40
rank courier = 30
rank employee = 20
rank custom = 10

abbrev pub is_owner : Role → Bool
is_owner owner = true
is_owner _ = false

unfoldable pub can_assign_role : Role → Role → Bool
can_assign_role actor target = if is_owner actor then true else ltb (rank target) (rank actor)
