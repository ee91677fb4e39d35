-- ===== src/Rbac/Permissions.antt =====
-- packages/rbac/src/permissions.ts: the permissions, in the order of `PERMISSIONS`.
use muzael.Common.{ℕ, Bool, List, [], ◌∷◌, ◌==◌}

pub data Permission : Type 0 where
  customer_read customer_write customer_delete customer_export product_read : Permission
  product_write product_delete service_read service_write service_delete : Permission
  order_read order_write order_status order_cancel order_refund : Permission
  booking_read booking_write booking_cancel booking_reassign employee_read : Permission
  employee_write branch_read branch_write inventory_read inventory_write : Permission
  loyalty_read loyalty_adjust promo_read promo_write message_read : Permission
  message_write message_assign analytics_read analytics_financial : Permission
  settings_read settings_write integration_read integration_write : Permission
  member_read member_invite member_role audit_read tenant_delete : Permission
  tenant_billing : Permission

-- The place of a permission in `PERMISSIONS`. The source compares the strings, which differ exactly
-- where the places do.
unfoldable pub place : Permission → ℕ
place customer_read = 0
place customer_write = 1
place customer_delete = 2
place customer_export = 3
place product_read = 4
place product_write = 5
place product_delete = 6
place service_read = 7
place service_write = 8
place service_delete = 9
place order_read = 10
place order_write = 11
place order_status = 12
place order_cancel = 13
place order_refund = 14
place booking_read = 15
place booking_write = 16
place booking_cancel = 17
place booking_reassign = 18
place employee_read = 19
place employee_write = 20
place branch_read = 21
place branch_write = 22
place inventory_read = 23
place inventory_write = 24
place loyalty_read = 25
place loyalty_adjust = 26
place promo_read = 27
place promo_write = 28
place message_read = 29
place message_write = 30
place message_assign = 31
place analytics_read = 32
place analytics_financial = 33
place settings_read = 34
place settings_write = 35
place integration_read = 36
place integration_write = 37
place member_read = 38
place member_invite = 39
place member_role = 40
place audit_read = 41
place tenant_delete = 42
place tenant_billing = 43

abbrev pub same_permission : Permission → Permission → Bool
same_permission p q = place p == place q

unfoldable pub permissions : List Permission
permissions =
    customer_read ∷ customer_write ∷ customer_delete ∷ customer_export ∷ product_read
    ∷ product_write ∷ product_delete ∷ service_read ∷ service_write ∷ service_delete ∷ order_read
    ∷ order_write ∷ order_status ∷ order_cancel ∷ order_refund ∷ booking_read ∷ booking_write
    ∷ booking_cancel ∷ booking_reassign ∷ employee_read ∷ employee_write ∷ branch_read
    ∷ branch_write ∷ inventory_read ∷ inventory_write ∷ loyalty_read ∷ loyalty_adjust ∷ promo_read
    ∷ promo_write ∷ message_read ∷ message_write ∷ message_assign ∷ analytics_read
    ∷ analytics_financial ∷ settings_read ∷ settings_write ∷ integration_read ∷ integration_write
    ∷ member_read ∷ member_invite ∷ member_role ∷ audit_read ∷ tenant_delete ∷ tenant_billing ∷ []
