-- ===== src/Capability/Read/Parts.antt =====
-- What `readInitial` and `readContinuation` of internal/capability/read.go are made of: the attempt keys, the handles,
-- and the artifact that a read is for.
use tappet.Capability.Types.{Record, Artifact}
use tappet.Capability.Snapshot.{
  Digest, SnapshotStore, ArtifactLease, acquire_artifact, release_lease,
}
use tappet.Capability.Registry.{Registry}
use tappet.Capability.Limits.{
  read_replay_reservation, max_capability_id_bytes, opaque_reference_max_bytes,
}
use tappet.Capability.Read.{
  ReadError, artifact_reference_stale, continuation_conflict, service_closed, ReadRequest,
  ReadResponse, ReadReplay, ReadLease, ReadLeaseStore, World, attempt_id_matches,
  readable_artifact_kind, framed, attempt_fields, sweep_locked, replays,
}
use tappet.Prelude.{
  ℕ, ◌+◌, Bool, false, ◌||◌, not, Option, none, some, [], ◌==◌, ltb, leb, if◌then◌else◌, length,
  drop, get_elem?, Bytes, codes, bytes_key, is_empty, has_prefix, lookup, insert, gt64, Result, ok,
  err,
}

-- `registry`, and the leases with their objects.
pub record Broker : Type 0 where
  pub registry : Registry
  pub world : World

-- What the code relies on outside this repository's source, and the standard library's encoders.
pub record Codec : Type 0 where
  pub sha256 : Bytes → Digest
  pub hex : Digest → Bytes
  pub marshal : ReadResponse → Bytes
  pub raw_url_decode : Bytes → Option Bytes

abbrev pub empty_replay : ReadReplay
empty_replay = record {
  input_ref = [];
  offset = 0;
  max_bytes = 0;
  response = record {
    ref = [];
    continuation_ref = [];
    offset = 0;
    chunk = [];
    next_offset = 0;
    complete = false;
    media_type = [];
    stored_bytes = 0;
    sha256 = [];
    expires_at = 0;
  };
  encoded = [];
}

abbrev pub free_object : ArtifactLease → World → World
free_object object w = record w { snapshots = (release_lease object w.snapshots).1 }

unfoldable pub initial_invalid : ReadRequest → Bool
initial_invalid request =
    is_empty request.capability_id
    || ltb max_capability_id_bytes (length request.capability_id)
    || not (attempt_id_matches request.attempt_id)

-- The answer of a read whose attempt is known already: the same chunk, or a conflict.
unfoldable pub known_attempt :
    Digest → ReadRequest → ReadLeaseStore → Option (Result ReadError ReadResponse)
known_attempt key request s = elim (lookup key s.attempts) [
  | none ↦ none
  | some id ↦ elim (lookup id s.reads) [
    | none ↦ some (err continuation_conflict)
    | some lease ↦
        if replays request lease
        then some (ok lease.replay.response)
        else some (err continuation_conflict)
  ]
]

-- The first part: an answer, or none to go on.
unfoldable pub initial_first :
    ℕ → Digest → ReadRequest → World → Option (Result ReadError ReadResponse) × World
unfolding known_attempt sweep_locked
initial_first now key request w =
    if w.store.closed
    then (some (err service_closed), w)
    else let swept = sweep_locked now w in (known_attempt key request swept.store, swept)

unfoldable pub package_of_lease : ℕ → Registry → Option Record
package_of_lease i r = elim (get_elem? r.leases i) [
  | none ↦ none
  | some l ↦ elim (get_elem? r.generations l.generation) [
    | none ↦ none
    | some g ↦ some g.package_record
  ]
]

-- Whether one more lease passes a limit.
abbrev pub over_quota : Artifact → ReadLeaseStore → Bool
over_quota artifact s =
    leb s.limits.max_count (length s.reads)
    || gt64 (s.pinned_bytes + artifact.bytes) s.limits.max_pinned_bytes
    || gt64 (s.replay_bytes + read_replay_reservation) s.limits.max_replay_bytes

abbrev pub registered : Digest → Bytes → ReadLease → ReadLeaseStore → ReadLeaseStore
registered key id lease s = record s {
  reads = insert id lease s.reads;
  attempts = insert key id s.attempts;
  pinned_bytes = s.pinned_bytes + lease.artifact.bytes;
  replay_bytes = s.replay_bytes + read_replay_reservation;
}

module _ (codec : Codec) where
  open codec use {sha256, hex, marshal, raw_url_decode}

  unfoldable pub read_attempt_key : Bytes → ReadRequest → Digest
  unfolding framed attempt_fields
  read_attempt_key scope request = sha256 (framed (attempt_fields scope request))

  -- `parseReadHandle`
  unfoldable pub parse_read_handle : Bytes → Option Bytes
  parse_read_handle ref =
      if ltb opaque_reference_max_bytes (length ref) || not (has_prefix ref (codes "read:v1:"))
      then none
      else let id = drop 8 ref in
        elim (raw_url_decode id) [
          | none ↦ none
          | some decoded ↦ if length decoded == 16 then some id else none
        ]

  -- `Record.acquireArtifact`
  unfoldable pub record_acquire_artifact :
      Bytes → Record → SnapshotStore → Option (Artifact × ArtifactLease × SnapshotStore)
  record_acquire_artifact ref rec s = elim (lookup ref rec.artifacts) [
    | none ↦ none
    | some artifact ↦ elim rec.snapshot [
      | none ↦ none
      | some snapshot ↦
          elim (acquire_artifact hex artifact.path artifact.bytes artifact.sha256 snapshot s) [
            | none ↦ none
            | some (lease, s') ↦ some (artifact, lease, s')
          ]
    ]
  ]

  -- The second part, without the read store's lock: the artifact and its object lease.
  unfoldable pub acquire_readable :
      Bytes → Record → World → Result ReadError (Artifact × ArtifactLease) × World
  acquire_readable ref rec w = elim (record_acquire_artifact ref rec w.snapshots) [
    | none ↦ (err artifact_reference_stale, w)
    | some (artifact, object, snapshots) ↦
        let acquired = record w { snapshots = snapshots } in
        if not (readable_artifact_kind artifact.kind)
        then (err artifact_reference_stale, free_object object acquired)
        else (ok (artifact, object), acquired)
  ]
