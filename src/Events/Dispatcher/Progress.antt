-- ===== src/Events/Dispatcher/Progress.antt =====
-- apps/api/src/modules/events/event-dispatcher.service.ts: the status that a round leaves an event in.
use muzael.Common.{
  ℕ, ◌+◌, ◌≡◌, refl, sym, ap, ◌∙◌, Bool, true, false, ◌||◌, Option, none, some, List, [], ◌∷◌,
  arith, all, any, filter, leb, ◌==◌, if◌then◌else◌, Bool-cases, inl, inr,
}
use muzael.Events.Dispatcher.{
  EventStatus, pending, processed, failed, DomainEvent, EventHandler, Outbox, has_succeeded,
  is_interested, run_handler, run_handlers, failures, finalized, put_event, process,
}
use muzael.Events.Dispatcher.Once.{has_succeeded-record_run}

abbrev pub status_of : ℕ → List DomainEvent → Option EventStatus
status_of id [] = none
status_of id (e ∷ es) = if e.id == id then some e.status else status_of id es

abbrev pub has_event : ℕ → List DomainEvent → Bool
has_event id es = any (λ e. e.id == id) es

abbrev no_failure : List ℕ → Bool
no_failure [] = true
no_failure (f ∷ fs) = false

module _ (succeeds : ℕ → ℕ → ℕ → Bool) (e : DomainEvent) where
  -- A success is recorded, or the call of this round succeeds.
  abbrev settles : Outbox → EventHandler → Bool
  settles s h = has_succeeded s.runs e.id h.name || succeeds h.name e.id e.attempts

  same_name : (a b : ℕ) → (a == b) ≡ true → succeeds a e.id e.attempts ≡ succeeds b e.id e.attempts
  same_name a b h = let same : a ≡ b = ground arith in ap (λ n. succeeds n e.id e.attempts) same

  run_handler-settles :
      (name : ℕ) (h : EventHandler) (s : Outbox)
      → settles (run_handler succeeds e name s) h ≡ settles s h
  unfolding run_handler
  run_handler-settles name h s =
      let recorded =
        has_succeeded-record_run e.id name (succeeds name e.id e.attempts) s.runs e.id h.name in
      elim (Bool-cases (name == h.name)) [
        | inl same ↦ ground (arith, recorded, same_name name h.name same)
        | inr differ ↦ ground (arith, recorded)
      ]

  all-settles :
      (name : ℕ) (hs : List EventHandler) (s : Outbox)
      → all (settles (run_handler succeeds e name s)) hs ≡ all (settles s) hs
  all-settles name [] s = refl
  all-settles name (h ∷ hs) s = ground (arith, run_handler-settles name h s, all-settles name hs s)

  no_failure-failures :
      (hs : List EventHandler) (s : Outbox)
      → no_failure (failures succeeds e hs s) ≡ all (settles s) hs
  unfolding failures
  no_failure-failures [] s = refl
  no_failure-failures (h ∷ hs) s =
      ground
        (arith, no_failure-failures hs (run_handler succeeds e h.name s), all-settles h.name hs s)

  -- A recorded success stays, and one that is recorded is settled.
  run_handler-kept :
      (name n : ℕ) (s : Outbox)
      → has_succeeded s.runs e.id n ≡ true
      → has_succeeded (run_handler succeeds e name s).runs e.id n ≡ true
  unfolding run_handler
  run_handler-kept name n s h =
      let recorded =
        has_succeeded-record_run e.id name (succeeds name e.id e.attempts) s.runs e.id n in
      elim (Bool-cases (name == n)) [
        | inl same ↦
            let is_n : name ≡ n = ground arith in
            let own : has_succeeded s.runs e.id name ≡ true =
              ap (λ x. has_succeeded s.runs e.id x) is_n ∙ h in
            ground (arith, recorded, own)
        | inr differ ↦ ground (arith, recorded)
      ]

  run_handlers-kept :
      (hs : List EventHandler) (n : ℕ) (s : Outbox)
      → has_succeeded s.runs e.id n ≡ true
      → has_succeeded (run_handlers succeeds e hs s).runs e.id n ≡ true
  unfolding run_handlers
  run_handlers-kept [] n s h = h
  run_handlers-kept (g ∷ gs) n s h =
      run_handlers-kept gs n (run_handler succeeds e g.name s) (run_handler-kept g.name n s h)

  run_handlers-settles :
      (hs : List EventHandler) (h : EventHandler) (s : Outbox)
      → settles (run_handlers succeeds e hs s) h ≡ settles s h
  unfolding run_handlers
  run_handlers-settles [] h s = refl
  run_handlers-settles (g ∷ gs) h s =
      run_handlers-settles gs h (run_handler succeeds e g.name s) ∙ run_handler-settles g.name h s

  run_handler-own :
      (h : EventHandler) (s : Outbox)
      → has_succeeded (run_handler succeeds e h.name s).runs e.id h.name ≡ settles s h
  unfolding run_handler
  run_handler-own h s = ground (
    arith,
    has_succeeded-record_run e.id h.name (succeeds h.name e.id e.attempts) s.runs e.id h.name,
  )

  recorded-own :
      (hs : List EventHandler) (h : EventHandler) (s : Outbox)
      → has_succeeded
          (run_handlers succeeds e hs (run_handler succeeds e h.name s)).runs
          e.id
          h.name
        ≡ settles s h
  recorded-own hs h s =
      let next = run_handler succeeds e h.name s in
      let own = run_handler-own h s in
      let kept = run_handlers-kept hs h.name next in
      let later = run_handlers-settles hs h next ∙ run_handler-settles h.name h s in
      elim (Bool-cases (settles s h)) [
        | inl yes_ ↦ kept (own ∙ yes_) ∙ sym yes_
        | inr no_ ↦ ground (arith, later)
      ]

  all-recorded :
      (hs : List EventHandler) (s : Outbox)
      → all (λ h. has_succeeded (run_handlers succeeds e hs s).runs e.id h.name) hs
        ≡ all (settles s) hs
  unfolding run_handlers
  all-recorded [] s = refl
  all-recorded (h ∷ hs) s = ground (
    arith,
    recorded-own hs h s,
    all-recorded hs (run_handler succeeds e h.name s),
    all-settles h.name hs s,
  )

status_of-put_event :
    (f : DomainEvent) (es : List DomainEvent)
    → has_event f.id es ≡ true
    → status_of f.id (put_event f es) ≡ some f.status
unfolding put_event
status_of-put_event f [] h = cc
status_of-put_event f (e ∷ es) h = ground (arith, status_of-put_event f es)

-- `interested` in the sense of the round.
abbrev pub interested : List EventHandler → DomainEvent → List EventHandler
interested handlers e = filter (is_interested e.kind) handlers

finalized-status :
    (now : ℕ) (e : DomainEvent) (fs : List ℕ)
    → (finalized now e fs).status
      ≡ (if no_failure fs then processed else if leb 5 (e.attempts + 1) then failed else pending)
finalized-status now e [] = refl
finalized-status now e (f ∷ fs) = refl

finalized-id : (now : ℕ) (e : DomainEvent) (fs : List ℕ) → (finalized now e fs).id ≡ e.id
finalized-id now e [] = refl
finalized-id now e (f ∷ fs) = refl

run_handlers-events :
    (succeeds : ℕ → ℕ → ℕ → Bool) (e : DomainEvent) (hs : List EventHandler) (s : Outbox)
    → (run_handlers succeeds e hs s).events ≡ s.events
unfolding run_handlers run_handler
run_handlers-events succeeds e [] s = refl
run_handlers-events succeeds e (h ∷ hs) s =
    run_handlers-events succeeds e hs (run_handler succeeds e h.name s) ∙ ground arith

-- A round leaves an event of the outbox processed exactly when every handler that is interested in it then
-- has a success recorded; otherwise it waits for the next round, and from the fifth attempt on it has
-- failed.
pub process-status :
    (succeeds : ℕ → ℕ → ℕ → Bool) (handlers : List EventHandler) (now : ℕ) (e : DomainEvent)
    (s : Outbox)
    → has_event e.id s.events ≡ true
    → status_of e.id (process succeeds handlers now e s).events
      ≡ some (
          if all
            (λ h. has_succeeded (process succeeds handlers now e s).runs e.id h.name)
            (interested handlers e)
          then processed
          else if leb 5 (e.attempts + 1)
          then failed
          else pending)
unfolding process
process-status succeeds handlers now e s present =
    let hs = interested handlers e in
    let f = finalized now e (failures succeeds e hs s) in
    let after = run_handlers succeeds e hs s in
    let same_id : f.id ≡ e.id = finalized-id now e (failures succeeds e hs s) in
    let same_events = run_handlers-events succeeds e hs s in
    let there : has_event f.id after.events ≡ true =
      ap (λ x. has_event f.id x) same_events ∙ ap (λ x. has_event x s.events) same_id ∙ present in
    let agree = no_failure-failures succeeds e hs s ∙ sym (all-recorded succeeds e hs s) in
    ap (λ x. status_of x (put_event f after.events)) (sym same_id)
    ∙ status_of-put_event f after.events there
    ∙ ap some (finalized-status now e (failures succeeds e hs s))
    ∙ ap (λ b. some (if b then processed else if leb 5 (e.attempts + 1) then failed else pending))
        agree
