-- ===== src/Rbac/Roles/Assignment.antt =====
-- packages/rbac/src/roles.ts: who can hand out which role.
use muzael.Common.{◌≡◌, refl, Bool, true, false, not, ◌||◌, none, arith, inl, inr, Bool-cases}
use muzael.Rbac.Permissions.{Permission, place, member_invite, customer_read}
use muzael.Rbac.Roles.{
  Role, owner, admin, manager, operator, employee, accountant, courier, custom,
  permissions_for_role, role_has_permission, effective_permissions, rank, is_owner, can_assign_role,
}

-- An owner holds every permission.
pub owner-has : (p : Permission) → role_has_permission owner p none ≡ true
unfolding role_has_permission effective_permissions permissions_for_role place
owner-has customer_read = refl
owner-has _ = refl

abbrev implies : Bool → Bool → Bool
implies a b = not a || b

abbrev holds : Role → Permission → Bool
holds role p = role_has_permission role p none

-- Whatever another role holds, an administrator holds, owners apart.
admin-covers :
    (target : Role) (p : Permission)
    → is_owner target ≡ false
    → implies (holds target p) (holds admin p) ≡ true
unfolding role_has_permission effective_permissions permissions_for_role place
admin-covers owner p h = cc
admin-covers manager customer_read h = refl
admin-covers manager _ h = refl
admin-covers _ customer_read h = refl
admin-covers _ _ h = refl

-- A role that may invite people cannot hand out a permission that it lacks itself.
pub invite-no_escalation :
    (actor target : Role) (p : Permission)
    → role_has_permission actor member_invite none ≡ true
    → can_assign_role actor target ≡ true
    → role_has_permission target p none ≡ true
    → role_has_permission actor p none ≡ true
unfolding can_assign_role
invite-no_escalation owner target p invites assigns holds_it = owner-has p
invite-no_escalation admin target p invites assigns holds_it = elim (Bool-cases (is_owner target)) [
  | inl top ↦ ground (arith, outranked target top)
  | inr other ↦ ground (arith, admin-covers target p other)
]
  where
    outranked : (t : Role) → is_owner t ≡ true → rank t ≡ 100
    outranked owner e = refl
    outranked admin e = cc
    outranked manager e = cc
    outranked operator e = cc
    outranked employee e = cc
    outranked accountant e = cc
    outranked courier e = cc
    outranked custom e = cc
invite-no_escalation _ target p invites assigns holds_it =
    unfold role_has_permission effective_permissions permissions_for_role place in cc

-- What assignments, one after another, can turn an actor's grant into.
pub data Assigns (r : Role) : Role → Type 0 where
  start : Assigns r r
  next : {s t : Role} → Assigns r s → can_assign_role s t ≡ true → Assigns r t
