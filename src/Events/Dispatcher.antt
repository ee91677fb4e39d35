-- ===== src/Events/Dispatcher.antt =====
-- apps/api/src/modules/events/event-dispatcher.service.ts: one worker that drains the outbox. Whether a
-- handler succeeds is a parameter, by its name, the event and the attempts before; names and types are
-- numbers. The log of calls is the model's own. The clock stands still during a drain.
pub mod Once
pub mod Progress
mod Tests
use muzael.Common.{
  ℕ, zero, suc, ◌+◌, ◌*◌, ◌^◌, min, Bool, true, false, not, ◌&&◌, ◌||◌, Option, none, some, List,
  [], ◌∷◌, ◌++◌, map, filter, contains, sort_by, ltb, leb, ◌==◌, if◌then◌else◌,
}

pub data EventStatus : Type 0 where
  pending processing processed failed : EventStatus

pub record DomainEvent : Type 0 where
  pub id : ℕ
  pub kind : ℕ
  pub status : EventStatus
  pub attempts : ℕ
  pub occurred_at : ℕ
  pub available_at : ℕ
  pub processed_at : Option ℕ
  pub failed_handlers : List ℕ

-- `subscribesTo`, with '*' apart.
pub record EventHandler : Type 0 where
  pub name : ℕ
  pub to_everything : Bool
  pub subscribes_to : List ℕ

pub record EventHandlerRun : Type 0 where
  pub event_id : ℕ
  pub handler : ℕ
  pub succeeded : Bool

pub record Call : Type 0 where
  pub event_id : ℕ
  pub handler : ℕ
  pub succeeded : Bool

pub record Outbox : Type 0 where
  pub events : List DomainEvent
  pub runs : List EventHandlerRun
  pub calls : List Call

abbrev pub is_run_of : ℕ → ℕ → EventHandlerRun → Bool
is_run_of event handler r = r.event_id == event && r.handler == handler

-- `previous?.succeeded`.
unfoldable pub has_succeeded : List EventHandlerRun → ℕ → ℕ → Bool
has_succeeded [] event handler = false
has_succeeded (r ∷ rs) event handler =
    if is_run_of event handler r then r.succeeded else has_succeeded rs event handler

-- The upsert of `recordRun`.
unfoldable pub record_run : ℕ → ℕ → Bool → List EventHandlerRun → List EventHandlerRun
record_run event handler succeeded [] =
    record { event_id = event; handler = handler; succeeded = succeeded } ∷ []
record_run event handler succeeded (r ∷ rs) =
    let rest = record_run event handler succeeded rs in
    if is_run_of event handler r then record r { succeeded = succeeded } ∷ rs else r ∷ rest

abbrev pub is_interested : ℕ → EventHandler → Bool
is_interested kind h = h.to_everything || contains h.subscribes_to kind

-- One handler of the loop. A call that fails is recorded as such.
unfoldable pub run_handler : (ℕ → ℕ → ℕ → Bool) → DomainEvent → ℕ → Outbox → Outbox
run_handler succeeds e handler s =
    let ok = succeeds handler e.id e.attempts in
    if has_succeeded s.runs e.id handler then s else record s {
      runs = record_run e.id handler ok s.runs;
      calls = record { event_id = e.id; handler = handler; succeeded = ok } ∷ s.calls;
    }

unfoldable pub run_handlers : (ℕ → ℕ → ℕ → Bool) → DomainEvent → List EventHandler → Outbox → Outbox
run_handlers succeeds e [] s = s
run_handlers succeeds e (h ∷ hs) s = run_handlers succeeds e hs (run_handler succeeds e h.name s)

-- The handler is called and fails, in the state that the loop has reached.
abbrev pub fails : (ℕ → ℕ → ℕ → Bool) → DomainEvent → ℕ → Outbox → Bool
fails succeeds e handler s =
    not (has_succeeded s.runs e.id handler) && not (succeeds handler e.id e.attempts)

unfoldable pub failures : (ℕ → ℕ → ℕ → Bool) → DomainEvent → List EventHandler → Outbox → List ℕ
failures succeeds e [] s = []
failures succeeds e (h ∷ hs) s =
    let rest = failures succeeds e hs (run_handler succeeds e h.name s) in
    if fails succeeds e h.name s then h.name ∷ rest else rest

abbrev pub backoff : ℕ → ℕ
backoff attempts = min (2 ^ attempts) 300 * 1000

-- The `data` of the last update.
abbrev pub finalized : ℕ → DomainEvent → List ℕ → DomainEvent
finalized now e [] = record e {
  status = processed;
  processed_at = some now;
  attempts = e.attempts + 1;
  failed_handlers = [];
}
finalized now e (f ∷ fs) = record e {
  status = if leb 5 (e.attempts + 1) then failed else pending;
  attempts = e.attempts + 1;
  failed_handlers = f ∷ fs;
  available_at = now + backoff (e.attempts + 1);
}

unfoldable pub put_event : DomainEvent → List DomainEvent → List DomainEvent
put_event e [] = []
put_event e (x ∷ xs) = let rest = put_event e xs in if x.id == e.id then e ∷ xs else x ∷ rest

unfoldable pub process : (ℕ → ℕ → ℕ → Bool) → List EventHandler → ℕ → DomainEvent → Outbox → Outbox
process succeeds handlers now e s =
    let interested = filter (is_interested e.kind) handlers in
    let after = run_handlers succeeds e interested s in
    record after {
      events = put_event (finalized now e (failures succeeds e interested s)) after.events;
    }

abbrev pub is_open : EventStatus → Bool
is_open pending = true
is_open processing = false
is_open processed = false
is_open failed = true

abbrev pub take {ℓ} : {A : Type ℓ} → ℕ → List A → List A
take n [] = []
take zero (x ∷ xs) = []
take (suc n) (x ∷ xs) = x ∷ take n xs

unfoldable pub candidates : ℕ → ℕ → List DomainEvent → List DomainEvent
candidates batch_size now es =
    take batch_size
      (sort_by (λ e. e.occurred_at) (filter (λ e. is_open e.status && leb e.available_at now) es))

-- The conditional update of the claim.
abbrev pub claim : List ℕ → DomainEvent → DomainEvent
claim ids e = if contains ids e.id && is_open e.status then record e { status = processing } else e

abbrev pub is_processing : EventStatus → Bool
is_processing processing = true
is_processing _ = false

unfoldable pub process_all :
    (ℕ → ℕ → ℕ → Bool) → List EventHandler → ℕ → List DomainEvent → Outbox → Outbox
process_all succeeds handlers now [] s = s
process_all succeeds handlers now (e ∷ es) s =
    process_all succeeds handlers now es (process succeeds handlers now e s)

-- Without a candidate nothing is claimed and nothing changes.
unfoldable pub drain : (ℕ → ℕ → ℕ → Bool) → List EventHandler → ℕ → ℕ → Outbox → Outbox
drain succeeds handlers batch_size now s =
    let ids = map (λ e. e.id) (candidates batch_size now s.events) in
    let claimed = map (claim ids) s.events in
    let rows =
      sort_by (λ e. e.occurred_at)
        (filter (λ e. contains ids e.id && is_processing e.status) claimed) in
    process_all succeeds handlers now rows (record s { events = claimed })

-- Drains at the instants given.
unfoldable pub drain_all : (ℕ → ℕ → ℕ → Bool) → List EventHandler → ℕ → List ℕ → Outbox → Outbox
drain_all succeeds handlers batch_size [] s = s
drain_all succeeds handlers batch_size (now ∷ nows) s =
    drain_all succeeds handlers batch_size nows (drain succeeds handlers batch_size now s)
