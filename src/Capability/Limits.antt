-- ===== src/Capability/Limits.antt =====
-- internal/capability/service_limits.go and limits.go: the bounds on the services, and their
-- validation. Times and durations are numbers of nanoseconds; one that is not positive is 0 here.
use tappet.Prelude.{ℕ, Bool, ◌||◌, leb, ltb, ◌*◌, true, false}

abbrev pub describe_limit_max : ℕ
describe_limit_max = 100

abbrev pub describe_include_max_bytes : ℕ
describe_include_max_bytes = 64

abbrev pub read_chunk_max : ℕ
read_chunk_max = 65536

abbrev pub broker_response_max_bytes : ℕ
broker_response_max_bytes = 1048576

abbrev pub opaque_reference_max_bytes : ℕ
opaque_reference_max_bytes = 2048

abbrev pub read_attempt_max_bytes : ℕ
read_attempt_max_bytes = 128

abbrev pub read_replay_reservation : ℕ
read_replay_reservation = 131072

abbrev pub max_capability_id_bytes : ℕ
max_capability_id_bytes = 128

abbrev pub projection_count_max : ℕ
projection_count_max = 128

abbrev pub projection_bytes_max : ℕ
projection_bytes_max = 67108864

abbrev pub read_lease_count_max : ℕ
read_lease_count_max = 256

abbrev pub pinned_artifact_bytes_max : ℕ
pinned_artifact_bytes_max = 536870912

abbrev pub replay_bytes_max : ℕ
replay_bytes_max = 33554432

abbrev pub minute : ℕ
minute = 60000000000

pub record ProjectionLimits : Type 0 where
  pub max_count : ℕ
  pub max_bytes : ℕ
  pub idle : ℕ
  pub absolute : ℕ

abbrev pub default_projection_limits : ProjectionLimits
default_projection_limits = record {
  max_count = projection_count_max;
  max_bytes = projection_bytes_max;
  idle = 5 * minute;
  absolute = 60 * minute;
}

pub record ReadLeaseLimits : Type 0 where
  pub max_count : ℕ
  pub max_pinned_bytes : ℕ
  pub max_replay_bytes : ℕ
  pub idle : ℕ
  pub absolute : ℕ
  pub final_replay : ℕ

abbrev pub default_read_lease_limits : ReadLeaseLimits
default_read_lease_limits = record {
  max_count = read_lease_count_max;
  max_pinned_bytes = pinned_artifact_bytes_max;
  max_replay_bytes = replay_bytes_max;
  idle = 5 * minute;
  absolute = 60 * minute;
  final_replay = 5 * minute;
}

-- Whether `validateProjectionLimits` returns an error.
unfoldable pub projection_limits_invalid : ProjectionLimits → Bool
projection_limits_invalid limits =
    (leb limits.max_count 0
      || ltb projection_count_max limits.max_count
      || leb limits.max_bytes 0
      || ltb projection_bytes_max limits.max_bytes)
    || (leb limits.idle 0 || ltb limits.absolute limits.idle || ltb (60 * minute) limits.absolute)

-- Whether `validateReadLeaseLimits` returns an error.
unfoldable pub read_lease_limits_invalid : ReadLeaseLimits → Bool
read_lease_limits_invalid limits =
    (leb limits.max_count 0
      || ltb read_lease_count_max limits.max_count
      || leb limits.max_pinned_bytes 0
      || ltb pinned_artifact_bytes_max limits.max_pinned_bytes
      || leb limits.max_replay_bytes 0
      || ltb replay_bytes_max limits.max_replay_bytes)
    || (leb limits.idle 0
        || ltb limits.absolute limits.idle
        || ltb (60 * minute) limits.absolute
        || leb limits.final_replay 0
        || ltb (5 * minute) limits.final_replay)

-- `minTime`
abbrev pub min_time : ℕ → ℕ → ℕ
min_time first second = elim (ltb first second) [ true ↦ first | false ↦ second ]
