-- ===== src/Members/Race.antt =====
-- Two changes of role that overlap. `changeRole` reads, counts the other owners and writes in
-- separate statements outside a transaction, so two requests may both count before either writes.
use muzael.Common.{
  ℕ, ◌+◌, ◌<◌, ◌≡◌, ◌≢◌, refl, sym, ◌∙◌, true, false, List, [], ◌∷◌, some, arith, sum_by,
}
use muzael.Shared.Errors.{ok}
use muzael.Rbac.Roles.{Role, owner, is_owner, can_assign_role}
use muzael.Members.{
  Membership, Actor, change_role, find_membership, set_role, assert_not_last_owner, is_other_owner,
  count_if,
}
use muzael.Members.Owners.{owners, is_active_owner}

owners-demote :
    (id : ℕ) (role : Role) (ms : List Membership) (m : Membership)
    → find_membership id ms ≡ some m
    → is_active_owner m ≡ true
    → is_owner role ≡ false
    → owners (set_role id role ms) + 1 ≡ owners ms
unfolding find_membership set_role
owners-demote id role [] m h a b = cc
owners-demote id role (x ∷ xs) m h a b = ground (arith, owners-demote id role xs m)

find_membership-set_role :
    (id other : ℕ) (role : Role) (ms : List Membership)
    → id ≢ other
    → find_membership other (set_role id role ms) ≡ find_membership other ms
unfolding find_membership set_role
find_membership-set_role id other role [] ne = refl
find_membership-set_role id other role (x ∷ xs) ne =
    ground (arith, find_membership-set_role id other role xs ne)

other_counts :
    (id other : ℕ) (ms : List Membership) (m : Membership)
    → id ≢ other
    → find_membership other ms ≡ some m
    → is_active_owner m ≡ true
    → 0 < sum_by (λ x. count_if (is_other_owner id x)) ms
unfolding find_membership
other_counts id other [] m ne h a = cc
other_counts id other (x ∷ xs) m ne h a = ground (arith, other_counts id other xs m ne)

passes :
    (actor : Actor) (id other : ℕ) (role : Role) (ms : List Membership) (m n : Membership)
    → actor.role ≡ owner
    → id ≢ other
    → find_membership id ms ≡ some m
    → find_membership other ms ≡ some n
    → is_active_owner n ≡ true
    → change_role actor id role ms ≡ ok (set_role id role ms)
unfolding change_role assert_not_last_owner can_assign_role
passes actor id other role ms m n top ne at at' a =
    ground (arith, other_counts id other ms n ne at' a)

-- The last two active owners, demoted by overlapping requests that both pass their checks on the
-- same rows, leave the tenant with no active owner.
pub overlapping_demotions :
    (actor : Actor) (a b : ℕ) (role : Role) (ms : List Membership) (m n : Membership)
    → actor.role ≡ owner
    → a ≢ b
    → find_membership a ms ≡ some m
    → find_membership b ms ≡ some n
    → is_active_owner m ≡ true
    → is_active_owner n ≡ true
    → is_owner role ≡ false
    → owners ms ≡ 2
    → (change_role actor a role ms ≡ ok (set_role a role ms))
      × (change_role actor b role ms ≡ ok (set_role b role ms))
      × (owners (set_role b role (set_role a role ms)) ≡ 0)
overlapping_demotions actor a b role ms m n top ne at at' am an plain two = (
  passes actor a b role ms m n top ne at at' an,
  passes actor b a role ms n m top (λ e. ne (sym e)) at' at am,
  omega (
    arith,
    owners-demote a role ms m at am plain,
    owners-demote b role (set_role a role ms) n (find_membership-set_role a b role ms ne ∙ at') an
        plain,
  ),
)
