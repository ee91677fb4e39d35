-- ===== src/Members/Tests.antt =====
-- A small team: two owners and a manager.
use muzael.Common.{◌≡◌, ◌<◌, refl, some, List, [], ◌∷◌, true, arith}
use muzael.Shared.Errors.{ok, err, last_owner}
use muzael.Rbac.Roles.{owner, manager, employee, can_assign_role}
use muzael.Members.{
  Membership, Actor, Request, change, drop, change_role, remove, set_role, find_membership,
  assert_not_last_owner, handle, handle_all,
}
use muzael.Members.Owners.{owners}
use muzael.Members.History.{handle_all-owners, handle-owners_kept}
use muzael.Members.Race.{overlapping_demotions}

abbrev first : Membership
first = record { id = 1; user_id = 11; role = owner; is_active = true }

abbrev second : Membership
second = record { id = 2; user_id = 12; role = owner; is_active = true }

abbrev third : Membership
third = record { id = 3; user_id = 13; role = manager; is_active = true }

abbrev team : List Membership
team = first ∷ second ∷ third ∷ []

abbrev boss : Actor
boss = record { user_id = 11; role = owner }

abbrev helper : Actor
helper = record { user_id = 13; role = manager }

-- Both owners are to go: the second request is refused.
abbrev requests : List Request
requests = change boss 2 employee ∷ drop boss 1 ∷ []

refused : remove boss 1 (set_role 2 employee team) ≡ err last_owner
unfolding remove find_membership assert_not_last_owner set_role can_assign_role
refused = refl

handle_all-owners_example : 0 < owners (handle_all requests team)
handle_all-owners_example = handle_all-owners requests team (omega arith)

handle-owners_kept_example : owners (handle (change helper 1 employee) team) ≡ owners team
handle-owners_kept_example = handle-owners_kept (change helper 1 employee) team refl

found_first : find_membership 1 team ≡ some first
unfolding find_membership
found_first = refl

found_second : find_membership 2 team ≡ some second
unfolding find_membership
found_second = refl

overlapping_demotions_example :
    (change_role boss 1 manager team ≡ ok (set_role 1 manager team))
    × (change_role boss 2 manager team ≡ ok (set_role 2 manager team))
    × (owners (set_role 2 manager (set_role 1 manager team)) ≡ 0)
overlapping_demotions_example =
    overlapping_demotions boss 1 2 manager team first second refl (λ e. omega arith) found_first
      found_second refl refl refl refl
