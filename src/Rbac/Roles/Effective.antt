-- ===== src/Rbac/Roles/Effective.antt =====
-- packages/rbac/src/roles.ts: the overrides of a membership.
use muzael.Common.{◌≡◌, refl, true, ◌&&◌, ◌||◌, not, some, List, [], ◌∷◌, ◌++◌, arith}
use muzael.Rbac.Permissions.{Permission, same_permission}
use muzael.Rbac.Roles.{
  Role, PermissionOverrides, permissions_for_role, has, add, delete, add_all, delete_all,
  effective_permissions, role_has_permission,
}

has-append :
    (s : List Permission) (p q : Permission)
    → has (s ++ p ∷ []) q ≡ (has s q || same_permission p q)
has-append [] p q = ground arith
has-append (r ∷ s) p q = ground (arith, has-append s p q)

has-same : (s : List Permission) (p q : Permission) → same_permission p q ≡ true → has s p ≡ has s q
has-same [] p q e = refl
has-same (r ∷ s) p q e = ground (arith, has-same s p q e)

has-add :
    (s : List Permission) (p q : Permission) → has (add s p) q ≡ (has s q || same_permission p q)
has-add s p q = ground (arith, has-append s p q, has-same s p q)

has-delete :
    (s : List Permission) (p q : Permission)
    → has (delete s p) q ≡ (has s q && not (same_permission p q))
has-delete [] p q = refl
has-delete (r ∷ s) p q = ground (arith, has-delete s p q)

has-add_all :
    (s ps : List Permission) (q : Permission) → has (add_all s ps) q ≡ (has s q || has ps q)
unfolding add_all
has-add_all s [] q = ground arith
has-add_all s (p ∷ ps) q = ground (arith, has-add_all (add s p) ps q, has-add s p q)

has-delete_all :
    (s ps : List Permission) (q : Permission)
    → has (delete_all s ps) q ≡ (has s q && not (has ps q))
unfolding delete_all
has-delete_all s [] q = ground arith
has-delete_all s (p ∷ ps) q = ground (arith, has-delete_all (delete s p) ps q, has-delete s p q)

-- A member holds a permission exactly if the role or a grant gives it and no revocation names it:
-- a revocation wins over the role and over a grant.
pub role_has_permission-overrides :
    (role : Role) (p : Permission) (o : PermissionOverrides)
    → role_has_permission role p (some o)
      ≡ ((has (permissions_for_role role) p || has o.grant p) && not (has o.revoke p))
unfolding role_has_permission effective_permissions
role_has_permission-overrides role p o = ground (
  arith,
  has-delete_all (add_all (permissions_for_role role) o.grant) o.revoke p,
  has-add_all (permissions_for_role role) o.grant p,
)
