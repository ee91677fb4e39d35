-- ===== src/Members/Owners.antt =====
-- apps/api/src/modules/members/members.service.ts: what a request does to the owners.
use muzael.Common.{
  ℕ, ◌≤◌, ◌<◌, ◌≡◌, Bool, true, false, ◌&&◌, ◌||◌, not, Option, none, some, List, [], ◌∷◌, arith,
  sum_by, if◌then◌else◌, Bool-cases, inl, inr, ◌⊎◌,
}
use muzael.Shared.Errors.{ok, >>=-eq-ok, throw_if-eq-ok, forbidden}
use muzael.Rbac.Roles.{Role, is_owner, can_assign_role}
use muzael.Members.{
  Membership, Actor, find_membership, set_role, delete_membership, is_other_owner, count_if,
  assert_not_last_owner, change_role, remove, found,
}

abbrev pub is_active_owner : Membership → Bool
is_active_owner m = is_owner m.role && m.is_active

abbrev pub owners : List Membership → ℕ
owners = sum_by (λ m. count_if (is_active_owner m))

abbrev others : ℕ → List Membership → ℕ
others id = sum_by (λ m. count_if (is_other_owner id m))

others-owners : (id : ℕ) (ms : List Membership) → others id ms ≤ owners ms
others-owners id [] = omega arith
others-owners id (m ∷ ms) = ground (arith, others-owners id ms)

-- The owners under another id survive a write to this one.
others-set_role :
    (id : ℕ) (role : Role) (ms : List Membership) → others id ms ≤ owners (set_role id role ms)
unfolding set_role
others-set_role id role [] = omega arith
others-set_role id role (m ∷ ms) = ground (arith, others-set_role id role ms, others-owners id ms)

others-delete_membership :
    (id : ℕ) (ms : List Membership) → others id ms ≤ owners (delete_membership id ms)
unfolding delete_membership
others-delete_membership id [] = omega arith
others-delete_membership id (m ∷ ms) =
    ground (arith, others-delete_membership id ms, others-owners id ms)

-- A write to a row that is no owner's, or that makes its row an owner's, leaves every owner.
owners-set_role :
    (id : ℕ) (role : Role) (ms : List Membership) (m : Membership)
    → find_membership id ms ≡ some m
    → (is_owner m.role ≡ false) ⊎ (is_owner role ≡ true)
    → owners ms ≤ owners (set_role id role ms)
unfolding find_membership set_role
owners-set_role id role [] m h keeps = cc
owners-set_role id role (x ∷ xs) m h keeps = ground (arith, owners-set_role id role xs m)

owners-delete_membership :
    (id : ℕ) (ms : List Membership) (m : Membership)
    → find_membership id ms ≡ some m
    → is_owner m.role ≡ false
    → owners ms ≤ owners (delete_membership id ms)
unfolding find_membership delete_membership
owners-delete_membership id [] m h plain = cc
owners-delete_membership id (x ∷ xs) m h plain = ground (arith, owners-delete_membership id xs m)

assert_not_last_owner-others :
    (id : ℕ) (ms : List Membership) → assert_not_last_owner id ms ≡ ok tt → 0 < others id ms
unfolding assert_not_last_owner
assert_not_last_owner-others id ms h = ground arith

found-eq-ok : (o : Option Membership) {m : Membership} → found o ≡ ok m → o ≡ some m
found-eq-ok none h = cc
found-eq-ok (some x) h = cc

-- What a successful change of role came through.
pub record Changed (actor : Actor) (id : ℕ) (role : Role) (ms ms' : List Membership) : Type 0 where
  pub row : Membership
  pub at : find_membership id ms ≡ some row
  pub may_grant : can_assign_role actor.role role ≡ true
  pub may_touch : can_assign_role actor.role row.role ≡ true
  pub safe :
      (if is_owner row.role && not (is_owner role) then assert_not_last_owner id ms else ok tt)
      ≡ ok tt
  pub result : ms' ≡ set_role id role ms

pub change_role-Changed :
    (actor : Actor) (id : ℕ) (role : Role) (ms : List Membership) {ms' : List Membership}
    → change_role actor id role ms ≡ ok ms'
    → Changed actor id role ms ms'
unfolding change_role
change_role-Changed actor id role ms h =
    let (m, f, k) = >>=-eq-ok (found (find_membership id ms)) _ h in
    let refuse : Bool =
      not (can_assign_role actor.role role) || not (can_assign_role actor.role m.role) in
    let (allowed, k') = throw_if-eq-ok refuse forbidden _ k in
    let (u, safe, e) =
      >>=-eq-ok
        (if is_owner m.role && not (is_owner role) then assert_not_last_owner id ms else ok tt) _
        k' in
    record {
      row = m;
      at = found-eq-ok (find_membership id ms) f;
      may_grant = ground arith;
      may_touch = ground arith;
      safe = safe;
      result = cc;
    }

-- A change of role leaves the tenant an active owner, if it had one.
pub change_role-owners :
    (actor : Actor) (id : ℕ) (role : Role) (ms : List Membership) {ms' : List Membership}
    → 0 < owners ms
    → change_role actor id role ms ≡ ok ms'
    → 0 < owners ms'
change_role-owners actor id role ms some_owner h =
    let c = change_role-Changed actor id role ms h in
    rw c.result (elim (Bool-cases (is_owner c.row.role && not (is_owner role))) [
      | inl demotes ↦ omega (
        arith,
        assert_not_last_owner-others id ms (rw demotes at c.safe),
        others-set_role id role ms,
      )
      | inr keeps ↦ omega (arith, owners-set_role id role ms c.row c.at (ground arith))
    ])

-- What a successful removal came through.
pub record Removed (actor : Actor) (id : ℕ) (ms ms' : List Membership) : Type 0 where
  pub row : Membership
  pub at : find_membership id ms ≡ some row
  pub may_touch : can_assign_role actor.role row.role ≡ true
  pub safe : (if is_owner row.role then assert_not_last_owner id ms else ok tt) ≡ ok tt
  pub result : ms' ≡ delete_membership id ms

pub remove-Removed :
    (actor : Actor) (id : ℕ) (ms : List Membership) {ms' : List Membership}
    → remove actor id ms ≡ ok ms'
    → Removed actor id ms ms'
unfolding remove
remove-Removed actor id ms h =
    let (m, f, k) = >>=-eq-ok (found (find_membership id ms)) _ h in
    let (u, safe, k') =
      >>=-eq-ok (if is_owner m.role then assert_not_last_owner id ms else ok tt) _ k in
    let refuse : Bool = not (can_assign_role actor.role m.role) in
    let (allowed, e) = throw_if-eq-ok refuse forbidden _ k' in
    record {
      row = m;
      at = found-eq-ok (find_membership id ms) f;
      may_touch = ground arith;
      safe = safe;
      result = cc;
    }

pub remove-owners :
    (actor : Actor) (id : ℕ) (ms : List Membership) {ms' : List Membership}
    → 0 < owners ms
    → remove actor id ms ≡ ok ms'
    → 0 < owners ms'
remove-owners actor id ms some_owner h =
    let c = remove-Removed actor id ms h in
    rw c.result (elim (Bool-cases (is_owner c.row.role)) [
      | inl top ↦ omega (
        arith,
        assert_not_last_owner-others id ms (rw top at c.safe),
        others-delete_membership id ms,
      )
      | inr plain ↦ omega (arith, owners-delete_membership id ms c.row c.at plain)
    ])
