-- ===== src/Events/Dispatcher/Tests.antt =====
-- A loyalty and a notification handler, the second of which fails twice.
use muzael.Common.{
  ℕ, ◌+◌, ◌≡◌, refl, Bool, true, false, ◌||◌, none, some, List, [], ◌∷◌, all, sort_by, insert_by,
  leb, ◌==◌, if◌then◌else◌,
}
use muzael.Events.Dispatcher.{
  pending, processed, failed, DomainEvent, EventHandler, Outbox, has_succeeded, record_run,
  run_handler, run_handlers, failures, put_event, process, candidates, process_all, drain,
  drain_all,
}
use muzael.Events.Dispatcher.Progress.{status_of, interested, process-status}

abbrev handlers : List EventHandler
handlers =
    record { name = 1; to_everything = false; subscribes_to = 7 ∷ [] }
    ∷ record { name = 2; to_everything = true; subscribes_to = [] }
    ∷ []

abbrev succeeds : ℕ → ℕ → ℕ → Bool
succeeds handler event attempts = handler == 1 || leb 2 attempts

abbrev event : DomainEvent
event = record {
  id = 1;
  kind = 7;
  status = pending;
  attempts = 0;
  occurred_at = 0;
  available_at = 0;
  processed_at = none;
  failed_handlers = [];
}

abbrev start : Outbox
start = record { events = event ∷ []; runs = []; calls = [] }

abbrev ticks : List ℕ
ticks = 0 ∷ 1000 ∷ 2000 ∷ 8000 ∷ []

status_test : status_of 1 (drain_all succeeds handlers 50 ticks start).events ≡ some processed
unfolding sort_by insert_by has_succeeded record_run run_handler run_handlers failures put_event
    process candidates process_all drain drain_all
status_test = refl

process-status_example :
    status_of 1 (process succeeds handlers 0 event start).events
    ≡ some (
        if all
          (λ h. has_succeeded (process succeeds handlers 0 event start).runs 1 h.name)
          (interested handlers event)
        then processed
        else if leb 5 (event.attempts + 1)
        then failed
        else pending)
process-status_example = process-status succeeds handlers 0 event start refl
