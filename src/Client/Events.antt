-- ===== src/Client/Events.antt =====
-- internal/client/provider_events.go: the bounded queue of a provider's notifications and the handlers
-- that drain it. The JSON encoder is a parameter. A handler is a worker of `run`: it receives an event
-- from the channel, and only then takes the lock and gives the event's bytes back, so that a received
-- event is still counted; `received` holds those. `done_events` lists what was handed on.
pub mod Bounds
use tappet.Prelude.{
  ℕ, zero, suc, not, ◌+◌, ◌-◌, Bool, true, false, ◌&&◌, ◌||◌, Option, none, some, List, [], ◌∷◌,
  ◌++◌, ltb, leb, ◌==◌, if◌then◌else◌, length, Bytes, drop, take, get_elem?,
}

abbrev pub max_provider_queued_events : ℕ
max_provider_queued_events = 256

abbrev pub max_provider_queued_event_bytes : ℕ
max_provider_queued_event_bytes = 16777216

abbrev pub max_provider_event_handlers : ℕ
max_provider_event_handlers = 16

-- `queuedProviderEvent`
pub record QueuedProviderEvent : Type 0 where
  pub notification : Bytes
  pub bytes : ℕ

-- `providerEventQueue`; `workers` is how many handlers are free, 0 before `start`, and `overflows` how
-- often the overflow callback was called. `running` counts the handlers that are in the callback. `handler_set` is whether a handler is there.
pub record ProviderEventQueue : Type 0 where
  pub queue : List QueuedProviderEvent
  pub queued_bytes : ℕ
  pub received : List QueuedProviderEvent
  pub workers : ℕ
  pub running : ℕ
  pub started : Bool
  pub stopped : Bool
  pub overflows : ℕ
  pub failures : ℕ
  pub handler_set : Bool
  pub done_events : List Bytes

abbrev pub new_provider_event_queue : ProviderEventQueue
new_provider_event_queue = record {
  queue = [];
  queued_bytes = 0;
  received = [];
  workers = 0;
  running = 0;
  started = false;
  stopped = false;
  overflows = 0;
  failures = 0;
  handler_set = false;
  done_events = [];
}

-- `start`
unfoldable pub start : ProviderEventQueue → ProviderEventQueue
start q =
    if q.started then q else record q { started = true; workers = max_provider_event_handlers }

-- `stop`
abbrev pub stop : ProviderEventQueue → ProviderEventQueue
stop q = record q { stopped = true }

-- `fail`: every failure is reported, and the first stops the queue and calls back.
unfoldable pub fail : ProviderEventQueue → ProviderEventQueue
fail q =
    if q.overflows == 0
    then record (stop q) { failures = q.failures + 1; overflows = 1 }
    else record q { failures = q.failures + 1 }

-- Whether the bytes of an event pass the limit.
abbrev pub over_bytes : ℕ → ProviderEventQueue → Bool
over_bytes bytes q =
    ltb max_provider_queued_event_bytes bytes
    || ltb (max_provider_queued_event_bytes - bytes) q.queued_bytes

-- `enqueue` of a notification, encoded or not. Where the channel has room and the queue is stopped, the
-- `select` takes either case: `sends` is its choice.
unfoldable pub enqueue : Bool → Bytes → Option Bytes → ProviderEventQueue → ProviderEventQueue
unfolding fail
enqueue sends notification encoded q = elim encoded [
  | none ↦ fail q
  | some e ↦
      let event : QueuedProviderEvent = record { notification = notification; bytes = length e } in
      let sent = record q {
        queue = q.queue ++ event ∷ [];
        queued_bytes = q.queued_bytes + length e;
      } in
      if over_bytes (length e) q
      then fail q
      else if ltb (length q.queue) max_provider_queued_events && (sends || not q.stopped)
      then sent
      else if q.stopped
      then q
      else fail q
]

-- A free handler of `run` receives the event at the head of the channel.
unfoldable pub receive : ProviderEventQueue → ProviderEventQueue
receive q = elim q.queue [
  | [] ↦ q
  | event ∷ rest ↦
      if q.workers == 0
      then q
      else record q { queue = rest; received = event ∷ q.received; workers = q.workers - 1 }
]

-- Without the element at an index.
unfoldable pub remove_at {ℓ} : {A : Type ℓ} → ℕ → List A → List A
remove_at i [] = []
remove_at zero (x ∷ xs) = xs
remove_at (suc i) (x ∷ xs) = x ∷ remove_at i xs

-- A handler that received an event takes the lock, gives the bytes back, and hands the event on.
unfoldable pub handle : ℕ → ProviderEventQueue → ProviderEventQueue
unfolding remove_at
handle i q = elim (get_elem? q.received i) [
  | none ↦ q
  | some event ↦ record q {
    received = remove_at i q.received;
    queued_bytes = q.queued_bytes - event.bytes;
    running = q.running + 1;
    done_events = if q.handler_set then q.done_events ++ event.notification ∷ [] else q.done_events;
  }
]

-- The callback returns, and its handler is free again.
unfoldable pub finish : ProviderEventQueue → ProviderEventQueue
finish q =
    if q.running == 0 then q else record q { running = q.running - 1; workers = q.workers + 1 }

-- `setHandler`
abbrev pub set_handler : Bool → ProviderEventQueue → ProviderEventQueue
set_handler present q = record q { handler_set = present }

-- A free handler that sees the queue stopped returns.
unfoldable pub leave : ProviderEventQueue → ProviderEventQueue
leave q = if q.stopped then record q { workers = q.workers - 1 } else q
