-- ===== src/Tests/ClientTests.antt =====
-- internal/client on a short line and a small queue.
use tappet.Client.Events.{ProviderEventQueue, new_provider_event_queue, start, enqueue, receive}
use tappet.Client.Events.Bounds.{
  IsBounded, begin, next, started, enqueued, received, Reach-IsBounded,
}
use tappet.Client.Lines.{BoundedLineReader, response_limit_exceeded, read_line, validate_line}
use tappet.Client.Lines.Whole.{line_of, after_line, failure_of, read_line-within, read_line-over}
use tappet.Prelude.{
  ℕ, ◌≡◌, arith, Bool, true, none, some, [], ◌∷◌, ◌++◌, codes, err, if◌then◌else◌, ◌==◌, Bytes,
}

abbrev busy : ProviderEventQueue
busy = receive (enqueue true (codes "n") (some (codes "{}")) (start new_provider_event_queue))

Reach-IsBounded_example : IsBounded busy
Reach-IsBounded_example =
    Reach-IsBounded
      (next (next (next begin started) (enqueued true (codes "n") (some (codes "{}")))) received)

abbrev reader : ℕ → BoundedLineReader
reader max = record {
  input = codes "{}" ++ 10 ∷ codes "rest";
  max_bytes = max;
  pending = [];
  pending_err = none;
  limit_signals = 0;
}

abbrev all_valid : Bytes → Bool
all_valid line = true

read_line-within_example :
    read_line all_valid (reader 8)
    ≡ some (
      validate_line all_valid (line_of (reader 8).input) (failure_of (reader 8).input),
      record (reader 8) { input = after_line (reader 8).input },
    )
read_line-within_example = read_line-within all_valid (reader 8) (omega arith)

read_line-over_example :
    (r' : BoundedLineReader) × (read_line all_valid (reader 2)
      ≡ some (err response_limit_exceeded, r'))
    × (r'.limit_signals ≡ (if 0 == 0 then 1 else 0))
read_line-over_example = read_line-over all_valid (reader 2) (omega arith)
