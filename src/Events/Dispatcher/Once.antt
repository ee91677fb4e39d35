-- ===== src/Events/Dispatcher/Once.antt =====
-- apps/api/src/modules/events/event-dispatcher.service.ts: how often a handler succeeds on an event.
use muzael.Common.{
  ℕ, ◌≡◌, Bool, true, false, ◌&&◌, List, [], ◌∷◌, arith, sum_by, ◌==◌, if◌then◌else◌,
}
use muzael.Events.Dispatcher.{EventHandlerRun, Call, Outbox, has_succeeded, record_run}

-- The calls of a handler for an event that succeeded.
abbrev pub success : ℕ → ℕ → Call → ℕ
success event handler c =
    if c.event_id == event && c.handler == handler && c.succeeded then 1 else 0

abbrev pub successes : ℕ → ℕ → Outbox → ℕ
successes event handler s = sum_by (success event handler) s.calls

abbrev pub one_if : Bool → ℕ
one_if true = 1
one_if false = 0

-- What the runs record is what happened: a success is recorded where there was one, and there was no
-- second.
abbrev pub IsOnce : Outbox → Type 0
IsOnce s =
    (event handler : ℕ) → successes event handler s ≡ one_if (has_succeeded s.runs event handler)

pub has_succeeded-record_run :
    (event handler : ℕ) (ok : Bool) (rs : List EventHandlerRun) (event' handler' : ℕ)
    → has_succeeded (record_run event handler ok rs) event' handler'
      ≡ (if event == event' && handler == handler' then ok else has_succeeded rs event' handler')
unfolding has_succeeded record_run
has_succeeded-record_run event handler ok [] event' handler' = ground arith
has_succeeded-record_run event handler ok (r ∷ rs) event' handler' =
    ground (arith, has_succeeded-record_run event handler ok rs event' handler')
