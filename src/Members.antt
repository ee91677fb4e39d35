-- ===== src/Members.antt =====
-- apps/api/src/modules/members/members.service.ts: the memberships of one tenant. The tenant guard
-- keeps the others out of sight, so the state is the list of the tenant's rows.
pub mod Owners
pub mod History
pub mod Race
mod Tests
use muzael.Common.{
  ℕ, ◌+◌, Bool, true, false, ◌&&◌, ◌||◌, not, Option, none, some, List, [], ◌∷◌, ◌++◌, any, sum_by,
  ◌==◌, if◌then◌else◌,
}
use muzael.Shared.Errors.{
  Result, ok, err, ◌>>=◌, ◌>>◌, throw_if, forbidden, conflict, not_found, last_owner,
}
use muzael.Rbac.Roles.{Role, is_owner, can_assign_role}

pub record Membership : Type 0 where
  pub id : ℕ
  pub user_id : ℕ
  pub role : Role
  pub is_active : Bool

pub record MemberInvite : Type 0 where
  pub email : ℕ
  pub role : Role
  pub invited_by : ℕ

pub record Actor : Type 0 where
  pub user_id : ℕ
  pub role : Role

pub find_membership : ℕ → List Membership → Option Membership
find_membership id [] = none
find_membership id (m ∷ ms) = if m.id == id then some m else find_membership id ms

-- `update` and `delete` by primary key.
pub set_role : ℕ → Role → List Membership → List Membership
set_role id role [] = []
set_role id role (m ∷ ms) =
    if m.id == id then record m { role = role } ∷ ms else m ∷ set_role id role ms

pub delete_membership : ℕ → List Membership → List Membership
delete_membership id [] = []
delete_membership id (m ∷ ms) = if m.id == id then ms else m ∷ delete_membership id ms

-- The rows that `assertNotLastOwner` counts.
abbrev pub is_other_owner : ℕ → Membership → Bool
is_other_owner id m = is_owner m.role && m.is_active && not (m.id == id)

abbrev pub count_if : Bool → ℕ
count_if true = 1
count_if false = 0

pub assert_not_last_owner : ℕ → List Membership → Result (Unit {0})
assert_not_last_owner id ms =
    throw_if (sum_by (λ m. count_if (is_other_owner id m)) ms == 0) last_owner

abbrev pub found : Option Membership → Result Membership
found none = err not_found
found (some m) = ok m

pub change_role : Actor → ℕ → Role → List Membership → Result (List Membership)
change_role actor id new_role ms = do
  m ← found (find_membership id ms)
  throw_if (not (can_assign_role actor.role new_role) || not (can_assign_role actor.role m.role))
      forbidden
  if is_owner m.role && not (is_owner new_role) then assert_not_last_owner id ms else ok tt
  ok (set_role id new_role ms)

pub remove : Actor → ℕ → List Membership → Result (List Membership)
remove actor id ms = do
  m ← found (find_membership id ms)
  if is_owner m.role then assert_not_last_owner id ms else ok tt
  throw_if (not (can_assign_role actor.role m.role)) forbidden
  ok (delete_membership id ms)

-- The membership of the user that an address belongs to, if there is one.
abbrev pub is_member : Option ℕ → List Membership → Bool
is_member none ms = false
is_member (some user) ms = any (λ m. m.user_id == user) ms

-- `user_of` looks a lower-cased address up among the platform's users. Of the invite, the token, its
-- hash and the expiry are left out.
pub invite : (ℕ → Option ℕ) → Actor → ℕ → Role → List Membership → Result MemberInvite
invite user_of actor email role ms = do
  throw_if (not (can_assign_role actor.role role)) forbidden
  throw_if (is_member (user_of email) ms) conflict
  ok (record { email = email; role = role; invited_by = actor.user_id })

-- A request of an actor, and the rows after it: one that throws writes nothing.
pub data Request : Type 0 where
  change : Actor → ℕ → Role → Request
  drop : Actor → ℕ → Request

abbrev pub or_unchanged : Result (List Membership) → List Membership → List Membership
or_unchanged (ok ms') ms = ms'
or_unchanged (err _) ms = ms

pub handle : Request → List Membership → List Membership
handle (change actor id role) ms = or_unchanged (change_role actor id role ms) ms
handle (drop actor id) ms = or_unchanged (remove actor id ms) ms

pub handle_all : List Request → List Membership → List Membership
handle_all [] ms = ms
handle_all (r ∷ rs) ms = handle_all rs (handle r ms)
