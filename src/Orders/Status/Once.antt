-- ===== src/Orders/Status/Once.antt =====
-- apps/api/src/modules/orders/orders.service.ts: how often an order is completed or cancelled.
use muzael.Common.{
  ℕ, ◌≡◌, ◌≢◌, refl, sym, ap, ◌∙◌, true, none, some, List, [], ◌∷◌, sum_by, arith, ◌==◌,
  if◌then◌else◌, Option-cases, Bool-cases, Nat-cases, inl, inr,
}
use muzael.Statuses.{OrderStatus, includes_order}
use muzael.Orders.Status.{
  default_pipeline, Order, Shop, OrderEvent, order_cancelled, order_completed, order_status_changed,
  find_order, put_order, changed, consequences, write_status, update_status, StatusRequest,
  or_unchanged, update_all,
}

abbrev pub completes : ℕ → OrderEvent → ℕ
completes id (order_completed other) = if other == id then 1 else 0
completes id (order_cancelled other) = 0
completes id (order_status_changed other from to) = 0

abbrev pub cancels : ℕ → OrderEvent → ℕ
cancels id (order_completed other) = 0
cancels id (order_cancelled other) = if other == id then 1 else 0
cancels id (order_status_changed other from to) = 0

abbrev pub is_completed : OrderStatus → ℕ
is_completed OrderStatus.completed = 1
is_completed _ = 0

abbrev pub is_cancelled : OrderStatus → ℕ
is_cancelled OrderStatus.cancelled = 1
is_cancelled _ = 0

-- Order `id` is there, its completion was announced once if that is its status and never otherwise,
-- and the same for its cancellation.
pub record IsTold (id : ℕ) (s : Shop) : Type 0 where
  pub order : Order
  pub at : find_order id s.orders ≡ some order
  pub completions : sum_by (completes id) s.events ≡ is_completed order.status
  pub cancellations : sum_by (cancels id) s.events ≡ is_cancelled order.status

find-put :
    (q : Order) (os : List Order) (id : ℕ)
    → find_order id (put_order q os)
      ≡ elim (find_order id os) [ none ↦ none | some o ↦ if q.id == id then some q else some o ]
unfolding find_order put_order
find-put q [] id = refl
find-put q (o ∷ os) id = ground (arith, find-put q os id)

find_order-id : (id : ℕ) (os : List Order) (o : Order) → find_order id os ≡ some o → o.id ≡ id
unfolding find_order
find_order-id id [] o h = cc
find_order-id id (x ∷ os) o h = ground (arith, find_order-id id os o)

consequences-orders :
    (next : OrderStatus) (o : Order) (s : Shop) → (consequences next o s).orders ≡ s.orders
consequences-orders OrderStatus.cancelled o s = refl
consequences-orders OrderStatus.completed o s = refl
consequences-orders _ o s = refl

-- Nothing leads out of the two last statuses.
leaves_open :
    (from next : OrderStatus)
    → includes_order (default_pipeline from) next ≡ true
    → (is_completed from ≡ 0) × (is_cancelled from ≡ 0)
leaves_open from next h = ground arith

write_status-same :
    (now id : ℕ) (next : OrderStatus) (o : Order) (s : Shop)
    → find_order id s.orders ≡ some o
    → includes_order (default_pipeline o.status) next ≡ true
    → IsTold id s
    → IsTold id (write_status now next o s)
unfolding write_status
write_status-same now id next o s f allowed t =
    let same : some o ≡ some t.order = sym f ∙ t.at in
    let is_o : o ≡ t.order = cc in
    let own = find_order-id id s.orders o f in
    let unfinished = leaves_open o.status next allowed in
    let statuses : o.status ≡ t.order.status = ap (λ x. x.status) is_o in
    let none_done : sum_by (completes id) s.events ≡ 0 =
      t.completions ∙ ap is_completed (sym statuses) ∙ unfinished.0 in
    let none_gone : sum_by (cancels id) s.events ≡ 0 =
      t.cancellations ∙ ap is_cancelled (sym statuses) ∙ unfinished.1 in
    record {
      order = changed now next o;
      at =
          ap (find_order id) (consequences-orders next o _)
          ∙ find-put (changed now next o) s.orders id
          ∙ rw f (ground (arith, own));
      completions = ground (arith, own, none_done);
      cancellations = ground (arith, own, none_gone);
    }

write_status-other :
    (now id k : ℕ) (next : OrderStatus) (o : Order) (s : Shop)
    → find_order k s.orders ≡ some o
    → id ≢ k
    → IsTold id s
    → IsTold id (write_status now next o s)
unfolding write_status
write_status-other now id k next o s f away t =
    let own = find_order-id k s.orders o f in
    record {
      order = t.order;
      at =
          ap (find_order id) (consequences-orders next o _)
          ∙ find-put (changed now next o) s.orders id
          ∙ rw t.at (ground (arith, own, away));
      completions = ground (arith, own, away, t.completions);
      cancellations = ground (arith, own, away, t.cancellations);
    }

update_status-IsTold :
    (now id k : ℕ) (next : OrderStatus) (s : Shop)
    → IsTold id s
    → IsTold id (or_unchanged (update_status now k next s) s)
unfolding update_status
update_status-IsTold now id k next s t = elim (Option-cases (find_order k s.orders)) [
  | inl missing ↦ rw missing t
  | inr (o, f) ↦ elim (Bool-cases (includes_order (default_pipeline o.status) next)) [
    | inr refused ↦ rw f (rw refused t)
    | inl allowed ↦ rw f (
        rw allowed (elim (Nat-cases id k) [
          | inl e ↦ write_status-same now id next o s (rw e f) allowed t
          | inr away ↦ write_status-other now id k next o s f away t
        ]))
  ]
]

-- Whatever statuses are asked for, in whatever order: the completion of an order is announced once if
-- that is its status and never otherwise, and so is its cancellation, if this holds at the start.
pub update_all-IsTold :
    (rs : List StatusRequest) (id : ℕ) (s : Shop) → IsTold id s → IsTold id (update_all rs s)
unfolding update_all
update_all-IsTold [] id s t = t
update_all-IsTold (r ∷ rs) id s t =
    update_all-IsTold rs id _ (update_status-IsTold r.now id r.order_id r.next s t)
