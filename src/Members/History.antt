-- ===== src/Members/History.antt =====
-- apps/api/src/modules/members/members.service.ts: requests one after another.
use muzael.Common.{ℕ, ◌<◌, ◌≡◌, refl, true, false, List, [], ◌∷◌, some, arith, ◌⊎◌, inl, inr}
use muzael.Shared.Errors.{Result, ok, err}
use muzael.Rbac.Roles.{Role, is_owner, can_assign_role}
use muzael.Members.{
  Membership, Actor, Request, change, drop, change_role, remove, handle, handle_all,
  find_membership, set_role, delete_membership,
}
use muzael.Members.Owners.{
  owners, change_role-owners, remove-owners, change_role-Changed, remove-Removed,
}

Result-cases : {A : Type 0} (r : Result A) → ((a : A) × (r ≡ ok a)) ⊎ ((e : _) × (r ≡ err e))
Result-cases (ok a) = inl (a, refl)
Result-cases (err e) = inr (e, refl)

handle-owners : (r : Request) (ms : List Membership) → 0 < owners ms → 0 < owners (handle r ms)
unfolding handle
handle-owners (change actor id role) ms h = elim (Result-cases (change_role actor id role ms)) [
  | inl (ms', e) ↦ rw e (change_role-owners actor id role ms h e)
  | inr (x, e) ↦ rw e h
]
handle-owners (drop actor id) ms h = elim (Result-cases (remove actor id ms)) [
  | inl (ms', e) ↦ rw e (remove-owners actor id ms h e)
  | inr (x, e) ↦ rw e h
]

-- A tenant with an active owner still has one after any requests, served one at a time: changes of
-- role and removals, allowed or refused, by anybody.
pub handle_all-owners :
    (rs : List Request) (ms : List Membership) → 0 < owners ms → 0 < owners (handle_all rs ms)
unfolding handle_all
handle_all-owners [] ms h = h
handle_all-owners (r ∷ rs) ms h = handle_all-owners rs (handle r ms) (handle-owners r ms h)

abbrev pub requester : Request → Actor
requester (change actor id role) = actor
requester (drop actor id) = actor

set_role-owners_kept :
    (id : ℕ) (role : Role) (ms : List Membership) (m : Membership)
    → find_membership id ms ≡ some m
    → is_owner m.role ≡ false
    → is_owner role ≡ false
    → owners (set_role id role ms) ≡ owners ms
unfolding find_membership set_role
set_role-owners_kept id role [] m h a b = cc
set_role-owners_kept id role (x ∷ xs) m h a b = ground (arith, set_role-owners_kept id role xs m)

delete_membership-owners_kept :
    (id : ℕ) (ms : List Membership) (m : Membership)
    → find_membership id ms ≡ some m
    → is_owner m.role ≡ false
    → owners (delete_membership id ms) ≡ owners ms
unfolding find_membership delete_membership
delete_membership-owners_kept id [] m h a = cc
delete_membership-owners_kept id (x ∷ xs) m h a =
    ground (arith, delete_membership-owners_kept id xs m)

reaches_no_owner :
    (actor role : Role)
    → is_owner actor ≡ false
    → can_assign_role actor role ≡ true
    → is_owner role ≡ false
unfolding can_assign_role
reaches_no_owner actor role plain may = ground arith

-- A request of somebody who is no owner neither makes nor unmakes an active owner.
pub handle-owners_kept :
    (r : Request) (ms : List Membership)
    → is_owner (requester r).role ≡ false
    → owners (handle r ms) ≡ owners ms
unfolding handle
handle-owners_kept (change actor id role) ms plain =
    elim (Result-cases (change_role actor id role ms)) [
      | inl (ms', e) ↦
          let c = change_role-Changed actor id role ms e in
          rw (e, c.result)
            (set_role-owners_kept id role ms c.row c.at
              (reaches_no_owner actor.role c.row.role plain c.may_touch)
              (reaches_no_owner actor.role role plain c.may_grant))
      | inr (x, e) ↦ rw e
    ]
handle-owners_kept (drop actor id) ms plain = elim (Result-cases (remove actor id ms)) [
  | inl (ms', e) ↦
      let c = remove-Removed actor id ms e in
      rw (e, c.result)
        (delete_membership-owners_kept id ms c.row c.at
          (reaches_no_owner actor.role c.row.role plain c.may_touch))
  | inr (x, e) ↦ rw e
]
