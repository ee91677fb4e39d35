-- ===== src/Rbac/Roles/Tests.antt =====
-- The theorems on roles at concrete roles, permissions and overrides.
use muzael.Common.{◌≡◌, refl, true, false, not, ◌&&◌, ◌||◌, none, some, [], ◌∷◌}
use muzael.Rbac.Permissions.{place, order_refund, customer_export, member_invite, analytics_read}
use muzael.Rbac.Roles.{
  admin, manager, operator, PermissionOverrides, has, permissions_for_role, effective_permissions,
  delete_all, add_all, role_has_permission, can_assign_role,
}
use muzael.Rbac.Roles.Effective.{role_has_permission-overrides}
use muzael.Rbac.Roles.Assignment.{invite-no_escalation}

-- Extra permissions of an operator, one of them revoked again.
abbrev overrides : PermissionOverrides
overrides = record { grant = order_refund ∷ customer_export ∷ []; revoke = customer_export ∷ [] }

role_has_permission-overrides_example :
    role_has_permission operator customer_export (some overrides) ≡ (
      (has (permissions_for_role operator) customer_export || has overrides.grant customer_export)
      && not (has overrides.revoke customer_export))
role_has_permission-overrides_example =
    role_has_permission-overrides operator customer_export overrides

revoked_wins : role_has_permission operator customer_export (some overrides) ≡ false
unfolding role_has_permission effective_permissions permissions_for_role place delete_all add_all
revoked_wins = refl

admin_invites : role_has_permission admin member_invite none ≡ true
unfolding role_has_permission effective_permissions permissions_for_role place
admin_invites = refl

admin_assigns_manager : can_assign_role admin manager ≡ true
unfolding can_assign_role
admin_assigns_manager = refl

manager_reads : role_has_permission manager analytics_read none ≡ true
unfolding role_has_permission effective_permissions permissions_for_role place
manager_reads = refl

invite-no_escalation_example : role_has_permission admin analytics_read none ≡ true
invite-no_escalation_example =
    invite-no_escalation admin manager analytics_read admin_invites admin_assigns_manager
      manager_reads
