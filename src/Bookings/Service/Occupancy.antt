-- ===== src/Bookings/Service/Occupancy.antt =====
-- apps/api/src/modules/bookings/bookings.service.ts: how many appointments a resource has at an instant.
use muzael.Common.{
  ℕ, ◌+◌, ◌*◌, ◌≤◌, ◌≡◌, refl, sym, ap, subst, inl, inr, true, false, not, ◌&&◌, some, List, [],
  ◌∷◌, arith, any, sum_by, leb, ltb, ◌==◌, if◌then◌else◌, Bool-cases,
}
use muzael.Shared.Errors.{
  Result, ok, err, ◌>>=◌, throw_if, >>=-eq-ok, throw_if-eq-ok, not_found, invalid_status_transition,
  booking_not_cancellable,
}
use muzael.Shared.Time.{ms_per_minute}
use muzael.Bookings.Settings.{booking_settings}
use muzael.Statuses.{BookingStatus, includes_booking}
use muzael.Bookings.Service.{
  allowed_transitions, Booking, Diary, is_held, CreateRequest, first, or_throw,
}
use muzael.Bookings.Service.Create.{
  Booker, known, unknown, add_booker, Lookups, look_up, new_booking, conflicts, write_booking,
  create_for, settle, create_after, create,
}
use muzael.Bookings.Service.Accepted.{create_for-IsAccepted}
use muzael.Bookings.Service.Lifecycle.{
  with_status, put_booking, write_booking_status, find_booking, update_status, cancel_by_customer,
  BookingRequest, creation, status_change, cancellation, serve, serve_all,
}

-- 1 where the booking is held and its block, buffers included, contains the instant.
abbrev pub occupies : ℕ → ℕ → Booking → ℕ
occupies resource t b =
    if b.resource_id == resource
      && is_held b.status
      && leb b.block_starts_at t
      && ltb t b.block_ends_at
    then 1
    else 0

-- The appointments of a resource at an instant.
abbrev pub occupants : ℕ → ℕ → Diary → ℕ
occupants resource t d = sum_by (occupies resource t) d.bookings

abbrev pub NoDoubleBooking : Diary → Type 0
NoDoubleBooking d = (resource t : ℕ) → occupants resource t d ≤ 1

find_booking-id :
    (id : ℕ) (bs : List Booking) (b : Booking) → find_booking id bs ≡ some b → b.id ≡ id
unfolding find_booking
find_booking-id id [] b h = cc
find_booking-id id (x ∷ xs) b h = ground (arith, find_booking-id id xs b)

no_conflict :
    (b : Booking) (resource t : ℕ) (bs : List Booking)
    → any (conflicts b) bs ≡ false
    → occupies resource t b ≡ 1
    → sum_by (occupies resource t) bs ≡ 0
no_conflict b resource t [] h o = refl
no_conflict b resource t (x ∷ xs) h o = ground (arith, no_conflict b resource t xs)

create_for-NoDoubleBooking :
    (q : CreateRequest) (l : Lookups) (d after : Diary)
    → create_for q l d ≡ ok after
    → NoDoubleBooking d
    → NoDoubleBooking after
unfolding write_booking
create_for-NoDoubleBooking q l d after h inv resource t =
    let b = new_booking q l d in
    let passed = create_for-IsAccepted q l d after h in
    let before = inv resource t in
    let alone = no_conflict b resource t d.bookings passed.no_conflict in
    subst (λ x. occupants resource t x ≤ 1) passed.written (ground arith)

-- A status that holds no time is the last.
leaves_held :
    (from next : BookingStatus)
    → includes_booking (allowed_transitions from) next ≡ true
    → is_held from ≡ true
leaves_held from next h = ground arith

with_status-occupies :
    (now resource t : ℕ) (next : BookingStatus) (b : Booking)
    → includes_booking (allowed_transitions b.status) next ≡ true
    → occupies resource t (with_status now next b) ≤ occupies resource t b
with_status-occupies now resource t next b h =
    let held = leaves_held b.status next h in ground arith

put-occupies :
    (next : BookingStatus) (now id resource t : ℕ) (b : Booking) (bs : List Booking)
    → find_booking id bs ≡ some b
    → includes_booking (allowed_transitions b.status) next ≡ true
    → sum_by (occupies resource t) (put_booking (with_status now next b) bs)
      ≤ sum_by (occupies resource t) bs
unfolding find_booking put_booking
put-occupies next now id resource t b [] f a = cc
put-occupies next now id resource t b (x ∷ xs) f a = elim (Bool-cases (x.id == id)) [
  | inl here ↦
      let is_some : some x ≡ some b = ground arith in
      let is_b : x ≡ b = cc in
      let less : occupies resource t (with_status now next b) ≤ occupies resource t x =
        subst (λ y. occupies resource t (with_status now next b) ≤ occupies resource t y) (sym is_b)
          (with_status-occupies now resource t next b a) in
      let ids : x.id ≡ b.id = ap (λ y. y.id) is_b in ground arith
  | inr elsewhere ↦
      let later : find_booking id xs ≡ some b = ground arith in
      let ih = put-occupies next now id resource t b xs later a in
      let own = find_booking-id id xs b later in ground arith
]

update_status-NoDoubleBooking :
    (now id : ℕ) (next : BookingStatus) (d after : Diary)
    → update_status now id next d ≡ ok after
    → NoDoubleBooking d
    → NoDoubleBooking after
unfolding update_status write_booking_status
update_status-NoDoubleBooking now id next d after h inv resource t =
    let lookup : Result Booking = or_throw not_found (find_booking id d.bookings) in
    let rest : Booking → Result Diary = λ b.
      throw_if (not (includes_booking (allowed_transitions b.status) next))
        invalid_status_transition
      >>= λ _. ok (write_booking_status now next b d) in
    let found = >>=-eq-ok lookup rest h in
    let b = found.0 in
    let checked =
      throw_if-eq-ok (not (includes_booking (allowed_transitions b.status) next))
        invalid_status_transition (ok (write_booking_status now next b d)) found.2 in
    let at : find_booking id d.bookings ≡ some b = ground (arith, found.1) in
    let allowed : includes_booking (allowed_transitions b.status) next ≡ true =
      ground (arith, checked.0) in
    let result : ok (write_booking_status now next b d) ≡ ok after = checked.1 in
    let written : write_booking_status now next b d ≡ after = cc in
    let fewer = put-occupies next now id resource t b d.bookings at allowed in
    let before = inv resource t in subst (λ x. occupants resource t x ≤ 1) written (omega arith)

cancel_by_customer-NoDoubleBooking :
    (now id customer_id : ℕ) (d after : Diary)
    → cancel_by_customer now id customer_id d ≡ ok after
    → NoDoubleBooking d
    → NoDoubleBooking after
unfolding cancel_by_customer
cancel_by_customer-NoDoubleBooking now id customer_id d after h inv =
    let deadline : ℕ =
      (booking_settings d.tenant.settings).cancellation_deadline_minutes * ms_per_minute in
    let lookup : Result Booking =
      or_throw not_found (first (λ b. b.id == id && b.customer_id == customer_id) d.bookings) in
    let change : Result Diary = update_status now id BookingStatus.cancelled d in
    let last : Booking → Result Diary =
      λ b. throw_if (ltb b.starts_at (now + deadline)) booking_not_cancellable >>= λ _. change in
    let rest : Booking → Result Diary = λ b.
      throw_if (not (includes_booking (allowed_transitions b.status) BookingStatus.cancelled))
        booking_not_cancellable
      >>= λ _. last b in
    let found = >>=-eq-ok lookup rest h in
    let b = found.0 in
    let open_ =
      throw_if-eq-ok (not (includes_booking (allowed_transitions b.status) BookingStatus.cancelled))
        booking_not_cancellable (last b) found.2 in
    let early =
      throw_if-eq-ok (ltb b.starts_at (now + deadline)) booking_not_cancellable change open_.1 in
    update_status-NoDoubleBooking now id BookingStatus.cancelled d after early.1 inv

settle-NoDoubleBooking :
    (before : Diary) (result : Result Diary)
    → NoDoubleBooking before
    → ((after : Diary) → result ≡ ok after → NoDoubleBooking after)
    → NoDoubleBooking (settle before result).diary
settle-NoDoubleBooking before (err e) inv keep = inv
settle-NoDoubleBooking before (ok after) inv keep = keep after refl

add_booker-NoDoubleBooking :
    (id : ℕ) (k : Booker) (d : Diary) → NoDoubleBooking d → NoDoubleBooking (add_booker id k d)
add_booker-NoDoubleBooking id (known c) d inv = inv
add_booker-NoDoubleBooking id (unknown phone) d inv = inv

create_after-NoDoubleBooking :
    (q : CreateRequest) (d : Diary) (found : Result Lookups)
    → NoDoubleBooking d
    → NoDoubleBooking (create_after q d found).diary
create_after-NoDoubleBooking q d (err e) inv = inv
create_after-NoDoubleBooking q d (ok l) inv =
    let start = add_booker q.new_customer_id l.booker d in
    let inv_start = add_booker-NoDoubleBooking q.new_customer_id l.booker d inv in
    settle-NoDoubleBooking start (create_for q l start) inv_start
      (λ after h. create_for-NoDoubleBooking q l start after h inv_start)

serve-NoDoubleBooking :
    (q : BookingRequest) (d : Diary) → NoDoubleBooking d → NoDoubleBooking (serve q d).diary
unfolding create
serve-NoDoubleBooking (creation q) d inv = create_after-NoDoubleBooking q d (look_up q d) inv
serve-NoDoubleBooking (status_change now id next) d inv =
    settle-NoDoubleBooking d (update_status now id next d) inv
      (λ after h. update_status-NoDoubleBooking now id next d after h inv)
serve-NoDoubleBooking (cancellation now id customer_id) d inv =
    settle-NoDoubleBooking d (cancel_by_customer now id customer_id d) inv
      (λ after h. cancel_by_customer-NoDoubleBooking now id customer_id d after h inv)

-- From a diary in which no resource is taken twice at an instant, whatever requests are served leave one:
-- at every instant at most one appointment that is neither cancelled nor missed has the resource, the
-- buffers of the appointments included.
pub serve_all-NoDoubleBooking :
    (qs : List BookingRequest) (d : Diary) → NoDoubleBooking d → NoDoubleBooking (serve_all qs d)
unfolding serve_all
serve_all-NoDoubleBooking [] d inv = inv
serve_all-NoDoubleBooking (q ∷ qs) d inv =
    serve_all-NoDoubleBooking qs (serve q d).diary (serve-NoDoubleBooking q d inv)
