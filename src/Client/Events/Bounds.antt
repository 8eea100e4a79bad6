-- ===== src/Client/Events/Bounds.antt =====
-- The bounds of the event queue of internal/client/provider_events.go, whatever the order of events.
use tappet.Client.Events.{
  QueuedProviderEvent, ProviderEventQueue, new_provider_event_queue, max_provider_queued_events,
  max_provider_queued_event_bytes, max_provider_event_handlers, start, stop, fail, enqueue, receive,
  remove_at, handle, finish, set_handler, leave,
}
use tappet.Prelude.{
  ℕ, zero, suc, ◌+◌, ◌≤◌, ◌≡◌, ◌⊎◌, refl, Bool, true, false, Option, none, some, Option-cases, inl,
  inr, List, [], ◌∷◌, length, length-append, Bytes, get_elem?, sum_by, sum_by-append, arith,
}

abbrev pub bytes_of : QueuedProviderEvent → ℕ
bytes_of e = e.bytes

-- The counter is exact, and every bound holds.
pub record IsBounded (q : ProviderEventQueue) : Type 0 where
  pub counted : q.queued_bytes ≡ sum_by bytes_of q.queue + sum_by bytes_of q.received
  pub bytes_fit : q.queued_bytes ≤ max_provider_queued_event_bytes
  pub events_fit : length q.queue ≤ max_provider_queued_events
  pub handlers_fit : q.workers + length q.received + q.running ≤ max_provider_event_handlers
  pub unstarted : q.started ≡ false → (q.workers ≡ 0) × (length q.received ≡ 0) × (q.running ≡ 0)
  pub called_once : q.overflows ≤ 1
  pub overflow_stops : (q.overflows ≡ 0) ⊎ (q.stopped ≡ true)

sum_by-remove_at :
    (i : ℕ) (es : List QueuedProviderEvent) (e : QueuedProviderEvent)
    → get_elem? es i ≡ some e
    → (sum_by bytes_of (remove_at i es) + e.bytes ≡ sum_by bytes_of es)
      × (suc (length (remove_at i es)) ≡ length es)
unfolding remove_at
sum_by-remove_at i [] e h = absurd (ground arith)
sum_by-remove_at zero (x ∷ es) e h = ground arith
sum_by-remove_at (suc i) (x ∷ es) e h = ground (arith, sum_by-remove_at i es e h)

fail-IsBounded : (q : ProviderEventQueue) → IsBounded q → IsBounded (fail q)
unfolding fail
fail-IsBounded q b = record {
  counted = ground (arith, b.counted);
  bytes_fit = ground (arith, b.bytes_fit);
  events_fit = ground (arith, b.events_fit);
  handlers_fit = ground (arith, b.handlers_fit);
  unstarted = ground (arith, b.unstarted);
  called_once = ground (arith, b.called_once);
  overflow_stops = ground (arith, b.overflow_stops);
}

enqueue-IsBounded :
    (sends : Bool) (n : Bytes) (e : Option Bytes) (q : ProviderEventQueue)
    → IsBounded q
    → IsBounded (enqueue sends n e q)
unfolding enqueue
enqueue-IsBounded sends n none q b = fail-IsBounded q b
enqueue-IsBounded sends n (some e) q b =
    let f = fail-IsBounded q b in
    let event : QueuedProviderEvent = record { notification = n; bytes = length e } in
    let more = sum_by-append bytes_of q.queue (event ∷ []) in
    let longer = length-append q.queue (event ∷ []) in
    record {
      counted = ground (arith, b.counted, f.counted, more);
      bytes_fit = ground (arith, b.bytes_fit, f.bytes_fit);
      events_fit = ground (arith, b.events_fit, f.events_fit, longer);
      handlers_fit = ground (arith, b.handlers_fit, f.handlers_fit);
      unstarted = ground (arith, b.unstarted, f.unstarted);
      called_once = ground (arith, b.called_once, f.called_once);
      overflow_stops = ground (arith, b.overflow_stops, f.overflow_stops);
    }

start-IsBounded : (q : ProviderEventQueue) → IsBounded q → IsBounded (start q)
unfolding start
start-IsBounded q b = record {
  counted = ground (arith, b.counted, b.counted, b.unstarted, b.handlers_fit);
  bytes_fit = ground (arith, b.bytes_fit, b.counted, b.unstarted, b.handlers_fit);
  events_fit = ground (arith, b.events_fit, b.counted, b.unstarted, b.handlers_fit);
  handlers_fit = ground (arith, b.handlers_fit, b.counted, b.unstarted, b.handlers_fit);
  unstarted = ground (arith, b.unstarted, b.counted, b.unstarted, b.handlers_fit);
  called_once = ground (arith, b.called_once, b.counted, b.unstarted, b.handlers_fit);
  overflow_stops = ground (arith, b.overflow_stops, b.counted, b.unstarted, b.handlers_fit);
}

stop-IsBounded : (q : ProviderEventQueue) → IsBounded q → IsBounded (stop q)
stop-IsBounded q b = record {
  counted = ground (arith, b.counted);
  bytes_fit = ground (arith, b.bytes_fit);
  events_fit = ground (arith, b.events_fit);
  handlers_fit = ground (arith, b.handlers_fit);
  unstarted = ground (arith, b.unstarted);
  called_once = ground (arith, b.called_once);
  overflow_stops = ground (arith, b.overflow_stops);
}

set_handler-IsBounded :
    (present : Bool) (q : ProviderEventQueue) → IsBounded q → IsBounded (set_handler present q)
set_handler-IsBounded present q b = record {
  counted = ground (arith, b.counted);
  bytes_fit = ground (arith, b.bytes_fit);
  events_fit = ground (arith, b.events_fit);
  handlers_fit = ground (arith, b.handlers_fit);
  unstarted = ground (arith, b.unstarted);
  called_once = ground (arith, b.called_once);
  overflow_stops = ground (arith, b.overflow_stops);
}

leave-IsBounded : (q : ProviderEventQueue) → IsBounded q → IsBounded (leave q)
unfolding leave
leave-IsBounded q b = record {
  counted = ground (arith, b.counted);
  bytes_fit = ground (arith, b.bytes_fit);
  events_fit = ground (arith, b.events_fit);
  handlers_fit = ground (arith, b.handlers_fit);
  unstarted = ground (arith, b.unstarted);
  called_once = ground (arith, b.called_once);
  overflow_stops = ground (arith, b.overflow_stops);
}

receive-IsBounded : (q : ProviderEventQueue) → IsBounded q → IsBounded (receive q)
unfolding receive
receive-IsBounded q b = record {
  counted = ground (arith, b.counted, b.unstarted);
  bytes_fit = ground (arith, b.bytes_fit, b.unstarted);
  events_fit = ground (arith, b.events_fit, b.unstarted);
  handlers_fit = ground (arith, b.handlers_fit, b.unstarted);
  unstarted = ground (arith, b.unstarted, b.unstarted);
  called_once = ground (arith, b.called_once, b.unstarted);
  overflow_stops = ground (arith, b.overflow_stops, b.unstarted);
}

handle-IsBounded : (i : ℕ) (q : ProviderEventQueue) → IsBounded q → IsBounded (handle i q)
unfolding handle
handle-IsBounded i q b = elim (Option-cases (get_elem? q.received i)) [
  | inl gone ↦ rw (gone, handle) b
  | inr (e, here) ↦
      let (sum, count) = sum_by-remove_at i q.received e here in
      rw (here, handle)
        (record {
          counted = omega (arith, b.counted, sum);
          bytes_fit = omega (arith, b.bytes_fit);
          events_fit = b.events_fit;
          handlers_fit = omega (arith, b.handlers_fit, count);
          unstarted = ground (arith, b.unstarted, count);
          called_once = b.called_once;
          overflow_stops = b.overflow_stops;
        })
]

finish-IsBounded : (q : ProviderEventQueue) → IsBounded q → IsBounded (finish q)
unfolding finish
finish-IsBounded q b = record {
  counted = ground (arith, b.counted);
  bytes_fit = ground (arith, b.bytes_fit);
  events_fit = ground (arith, b.events_fit);
  handlers_fit = ground (arith, b.handlers_fit);
  unstarted = ground (arith, b.unstarted);
  called_once = ground (arith, b.called_once);
  overflow_stops = ground (arith, b.overflow_stops);
}

-- One step of any of the threads that share the queue.
pub data Step : ProviderEventQueue → ProviderEventQueue → Type 0 where
  started : {q : ProviderEventQueue} → Step q (start q)
  enqueued :
      (sends : Bool) (n : Bytes) (e : Option Bytes) {q : ProviderEventQueue}
      → Step q (enqueue sends n e q)
  received : {q : ProviderEventQueue} → Step q (receive q)
  handled : (i : ℕ) {q : ProviderEventQueue} → Step q (handle i q)
  finished : {q : ProviderEventQueue} → Step q (finish q)
  left : {q : ProviderEventQueue} → Step q (leave q)
  handler_changed : (present : Bool) {q : ProviderEventQueue} → Step q (set_handler present q)
  stopped : {q : ProviderEventQueue} → Step q (stop q)

pub data Reach : ProviderEventQueue → Type 0 where
  begin : Reach new_provider_event_queue
  next : {q q' : ProviderEventQueue} → Reach q → Step q q' → Reach q'

Step-IsBounded : {q q' : ProviderEventQueue} → Step q q' → IsBounded q → IsBounded q'
Step-IsBounded (started {q}) b = start-IsBounded q b
Step-IsBounded (enqueued sends n e {q}) b = enqueue-IsBounded sends n e q b
Step-IsBounded (received {q}) b = receive-IsBounded q b
Step-IsBounded (handled i {q}) b = handle-IsBounded i q b
Step-IsBounded (finished {q}) b = finish-IsBounded q b
Step-IsBounded (left {q}) b = leave-IsBounded q b
Step-IsBounded (handler_changed present {q}) b = set_handler-IsBounded present q b
Step-IsBounded (stopped {q}) b = stop-IsBounded q b

-- Whatever the order in which notifications are put in, received, handled and finished, handlers
-- leave, and the queue is started and stopped: the byte counter is exactly the bytes of the
-- events in the channel and of those received and not yet counted down, and is within its limit;
-- the channel holds at most its maximum of events; no more handlers are at work than were
-- started; the overflow callback is called at most once, and once it was, the queue is stopped.
pub Reach-IsBounded : {q : ProviderEventQueue} → Reach q → IsBounded q
Reach-IsBounded begin = record {
  counted = refl;
  bytes_fit = omega arith;
  events_fit = omega arith;
  handlers_fit = omega arith;
  unstarted = λ h. (refl, refl, refl);
  called_once = omega arith;
  overflow_stops = inl refl;
}
Reach-IsBounded (next reached step) = Step-IsBounded step (Reach-IsBounded reached)
