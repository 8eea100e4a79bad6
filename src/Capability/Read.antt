-- ===== src/Capability/Read.antt =====
-- internal/capability/read.go: chunked reads of artifacts under leases, each of whose last chunk
-- can be replayed. Times are numbers of nanoseconds and are arguments, one for each call of
-- `s.now()`; the random source is the list of its draws. SHA-256, the JSON encoder and the base64
-- decoder are parameters: any functions. An offset is an `int64` bit pattern in a request, and a
-- number in a lease. `ReadResponse.chunk` is what `DataBase64` encodes.
pub mod Chunk
pub mod Parts
pub mod Initial
pub mod Service
pub mod Accounting
pub mod Opening
pub mod Requests
pub mod Replays
pub mod Keys
pub mod Transfer
use tappet.Capability.Types.{Artifact, ArtifactKind, manifest}
use tappet.Capability.Snapshot.{Digest, SnapshotStore, ArtifactLease, read_range, release_lease}
use tappet.Capability.Registry.{RegistryError}
use tappet.Capability.Limits.{
  ReadLeaseLimits, min_time, read_chunk_max, opaque_reference_max_bytes, read_attempt_max_bytes,
  read_replay_reservation, max_capability_id_bytes, broker_response_max_bytes,
}
use tappet.Prelude.{
  ℕ, zero, suc, ◌+◌, ◌-◌, ◌/◌, ◌%◌, ◌^◌, Bool, true, false, ◌&&◌, ◌||◌, not, Option, none, some,
  List, [], ◌∷◌, ◌++◌, ◌==◌, ltb, leb, if◌then◌else◌, length, drop, Bytes, codes, bytes_eq,
  bytes_key, is_empty, has_prefix, Map, lookup, insert, delete, gt64, Result, ok, err,
}

pub data ReadError : Type 0 where
  read_request_invalid artifact_reference_stale continuation_invalid continuation_stale : ReadError
  continuation_conflict service_closed service_quota handle_generation : ReadError
  lookup_failed : RegistryError → ReadError

pub record ReadRequest : Type 0 where
  pub capability_id : Bytes
  pub ref : Bytes
  pub attempt_id : Bytes
  pub offset : ℕ
  pub max_bytes : ℕ

pub record ReadResponse : Type 0 where
  pub ref : Bytes
  pub continuation_ref : Bytes
  pub offset : ℕ
  pub chunk : Bytes
  pub next_offset : ℕ
  pub complete : Bool
  pub media_type : Bytes
  pub stored_bytes : ℕ
  pub sha256 : Bytes
  pub expires_at : ℕ

pub record ReadReplay : Type 0 where
  pub input_ref : Bytes
  pub offset : ℕ
  pub max_bytes : ℕ
  pub response : ReadResponse
  pub encoded : Bytes

pub record ReadLease : Type 0 where
  pub id : Bytes
  pub scope_digest : Digest
  pub attempt_key : Digest
  pub artifact : Artifact
  pub object : ArtifactLease
  pub created : ℕ
  pub idle_until : ℕ
  pub expires_at : ℕ
  pub final : Bool
  pub replay : ReadReplay

pub record ReadLeaseStore : Type 0 where
  pub limits : ReadLeaseLimits
  pub closed : Bool
  pub reads : Map Bytes ReadLease
  pub attempts : Map Digest Bytes
  pub pinned_bytes : ℕ
  pub replay_bytes : ℕ

-- The read leases, and the snapshot store that their objects are held in.
pub record World : Type 0 where
  pub store : ReadLeaseStore
  pub snapshots : SnapshotStore

-- Strings: `int64` is negative from 2 ^ 63 on, as a bit pattern.
abbrev pub max_int64 : ℕ
max_int64 = 9223372036854775807

unfoldable pub read_bounds_invalid : Bytes → ReadRequest → Bool
read_bounds_invalid scope request =
    (is_empty scope || ltb 256 (length scope))
    || (is_empty request.ref || ltb opaque_reference_max_bytes (length request.ref))
    || (ltb max_int64 request.offset
        || leb request.max_bytes 0
        || ltb read_chunk_max request.max_bytes)
    || ltb (max_int64 - request.max_bytes) request.offset
    || ltb read_attempt_max_bytes (length request.attempt_id)

-- The class `[A-Za-z0-9_-]`, and the pattern `^read:[A-Za-z0-9_-]{22,123}$`.
unfoldable pub is_handle_byte : ℕ → Bool
is_handle_byte c =
    (leb b'A' c && leb c b'Z')
    || (leb b'a' c && leb c b'z')
    || (leb b'0' c && leb c b'9')
    || c == b'_'
    || c == b'-'

unfoldable pub all_handle_bytes : Bytes → Bool
unfolding is_handle_byte
all_handle_bytes [] = true
all_handle_bytes (c ∷ s) = is_handle_byte c && all_handle_bytes s

unfoldable pub attempt_id_matches : Bytes → Bool
unfolding all_handle_bytes
attempt_id_matches s =
    has_prefix s (codes "read:")
    && (let rest = drop 5 s in
        leb 22 (length rest) && leb (length rest) 123 && all_handle_bytes rest)

abbrev pub readable_artifact_kind : ArtifactKind → Bool
readable_artifact_kind manifest = false
readable_artifact_kind _ = true

-- `binary.BigEndian.PutUint64`, in `k` bytes.
unfoldable pub big_endian : ℕ → ℕ → Bytes
big_endian zero n = []
big_endian (suc k) n = big_endian k (n / 256) ++ (n % 256) ∷ []

-- `strconv.Itoa` on a number that is not negative; twenty digits hold every `int64`.
unfoldable pub decimal : ℕ → ℕ → Bytes
decimal zero n = []
decimal (suc f) n =
    let rest = decimal f (n / 10) in if ltb n 10 then (48 + n) ∷ [] else rest ++ (48 + n % 10) ∷ []

-- What `readAttemptKey` writes to the hash: each value behind its length.
unfoldable pub framed : List Bytes → Bytes
unfolding big_endian
framed [] = []
framed (v ∷ vs) = big_endian 8 (length v) ++ (v ++ framed vs)

unfoldable pub attempt_fields : Bytes → ReadRequest → List Bytes
unfolding decimal
attempt_fields scope request =
    scope
    ∷ request.capability_id
    ∷ request.ref
    ∷ request.attempt_id
    ∷ decimal 20 request.offset
    ∷ decimal 20 request.max_bytes
    ∷ []

-- `newUniqueIDLocked`: the draws of the random source; none is a failure of the source.
unfoldable pub new_unique_id_in {ℓ} :
    {V : Type ℓ} → ℕ → List (Option Bytes) → Map Bytes V → Option Bytes
new_unique_id_in zero draws m = none
new_unique_id_in (suc n) [] m = none
new_unique_id_in (suc n) (none ∷ draws) m = none
new_unique_id_in (suc n) (some id ∷ draws) m =
    let again = new_unique_id_in n draws m in elim (lookup id m) [ none ↦ some id | some _ ↦ again ]

abbrev pub read_handle_collision_attempts : ℕ
read_handle_collision_attempts = 4

-- `dropLocked`
unfoldable pub drop_locked : Bytes → ReadLease → World → World
unfolding release_lease
drop_locked id lease w = record {
  store = record w.store {
    reads = delete id w.store.reads;
    attempts = delete lease.attempt_key w.store.attempts;
    pinned_bytes = w.store.pinned_bytes - lease.artifact.bytes;
    replay_bytes = w.store.replay_bytes - read_replay_reservation;
  };
  snapshots = (release_lease lease.object w.snapshots).1;
}

-- The loop of `sweepLocked` over the leases that were there when it began.
unfoldable pub sweep_entries : ℕ → Map Bytes ReadLease → World → World
unfolding drop_locked
sweep_entries now [] w = w
sweep_entries now ((id, lease) ∷ m) w =
    sweep_entries now m (if leb lease.expires_at now then drop_locked id lease w else w)

unfoldable pub sweep_locked : ℕ → World → World
unfolding sweep_entries
sweep_locked now w = sweep_entries now w.store.reads w

unfoldable pub drop_entries : Map Bytes ReadLease → World → World
unfolding drop_locked
drop_entries [] w = w
drop_entries ((id, lease) ∷ m) w = drop_entries m (drop_locked id lease w)

unfoldable pub close : World → World
unfolding drop_entries
close w =
    if w.store.closed
    then w
    else let shut = record w { store = record w.store { closed = true } } in
      drop_entries w.store.reads shut

-- Whether a lease's last chunk answers the request.
abbrev pub replays : ReadRequest → ReadLease → Bool
replays request lease =
    bytes_eq lease.replay.input_ref request.ref
    && lease.replay.offset == request.offset
    && lease.replay.max_bytes == request.max_bytes

-- `prepareLocked` at the time `now`, up to the test of the encoded size.
unfoldable pub chunk_response :
    ℕ → ReadLeaseLimits → ReadLease → ℕ → Bytes → ReadLease × ReadResponse
chunk_response now limits lease offset chunk =
    let next = offset + length chunk in
    let complete = next == lease.artifact.bytes in
    let absolute = lease.created + limits.absolute in
    let idle_until = if complete then lease.idle_until else now + limits.idle in
    let expires_at =
      if complete
      then min_time (now + limits.final_replay) absolute
      else min_time (now + limits.idle) absolute in
    (
      record lease { final = complete; idle_until = idle_until; expires_at = expires_at },
      record {
        ref = lease.artifact.ref;
        continuation_ref = if complete then [] else codes "read:v1:" ++ lease.id;
        offset = offset;
        chunk = chunk;
        next_offset = next;
        complete = complete;
        media_type = lease.artifact.media_type;
        stored_bytes = lease.artifact.bytes;
        sha256 = lease.artifact.sha256;
        expires_at = expires_at;
      },
    )

module _ (marshal : ReadResponse → Bytes) where
  unfoldable pub prepare_locked :
      ℕ
      → ReadLeaseLimits
      → SnapshotStore
      → ReadLease
      → Bytes
      → ℕ
      → ℕ
      → Result ReadError (ReadLease × ReadResponse)
  unfolding chunk_response
  prepare_locked now limits snapshots lease input_ref offset max_bytes =
      elim (read_range offset max_bytes lease.object snapshots) [
        | none ↦ err artifact_reference_stale
        | some chunk ↦
            let (lease', response) = chunk_response now limits lease offset chunk in
            let encoded = marshal response in
            if ltb broker_response_max_bytes (length encoded)
              || ltb read_replay_reservation (length encoded)
            then err service_quota
            else ok (
              record lease' {
                replay = record {
                  input_ref = input_ref;
                  offset = offset;
                  max_bytes = max_bytes;
                  response = response;
                  encoded = encoded;
                };
              },
              response,
            )
      ]
