-- ===== src/Capability/Read/Initial.antt =====
-- `readInitial` of internal/capability/read.go. It gives up its lock while it acquires the artifact: its three parts
-- are functions of their own, which `read_initial` runs in order.
use tappet.Capability.Read.Parts.{
  Broker, Codec, empty_replay, free_object, initial_invalid, known_attempt, initial_first,
  package_of_lease, over_quota, registered, read_attempt_key, acquire_readable,
}
use tappet.Capability.Types.{Artifact}
use tappet.Capability.Snapshot.{Digest, ArtifactLease}
use tappet.Capability.Registry.{capability_not_found, lookup_capability, release}
use tappet.Capability.Limits.{ReadLeaseLimits}
use tappet.Capability.Read.{
  ReadError, read_request_invalid, artifact_reference_stale, service_closed, service_quota,
  handle_generation, lookup_failed, ReadRequest, ReadResponse, ReadLease, World, new_unique_id_in,
  read_handle_collision_attempts, sweep_locked, prepare_locked,
}
use tappet.Prelude.{
  ℕ, ◌+◌, false, not, Option, none, some, List, ltb, if◌then◌else◌, Bytes, codes, bytes_key,
  has_prefix, Result, ok, err,
}

module _ (codec : Codec) where
  open codec use {sha256, hex, marshal, raw_url_decode}

  unfoldable pub initial_acquire :
      ReadRequest → Broker → Result ReadError (Artifact × ArtifactLease) × Broker
  unfolding acquire_readable package_of_lease
  initial_acquire request b = elim (lookup_capability request.capability_id b.registry) [
    | err e ↦ (err (lookup_failed e), b)
    | ok (i, registry) ↦ elim (package_of_lease i registry) [
      | none ↦ (err (lookup_failed capability_not_found), b)
      | some rec ↦
          let (result, world) = acquire_readable codec request.ref rec b.world in
          let done : Broker = record { registry = release i registry; world = world } in
          elim result [
            | err e ↦ (err e, done)
            | ok (artifact, object) ↦
                if ltb artifact.bytes request.offset
                then (err read_request_invalid, record done { world = free_object object world })
                else (ok (artifact, object), done)
          ]
    ]
  ]

  abbrev pub new_lease :
      ℕ → Bytes → Digest → Bytes → Artifact → ArtifactLease → ReadLeaseLimits → ReadLease
  new_lease now scope key id artifact object limits = record {
    id = id;
    scope_digest = sha256 scope;
    attempt_key = key;
    artifact = artifact;
    object = object;
    created = now;
    idle_until = now + limits.idle;
    expires_at = 0;
    final = false;
    replay = empty_replay;
  }

  -- The last steps of the third part: a new handle, the first chunk, and the lease.
  unfoldable pub open_lease :
      ℕ
      → ℕ
      → List (Option Bytes)
      → Bytes
      → Digest
      → ReadRequest
      → Artifact
      → ArtifactLease
      → World
      → Result ReadError ReadResponse × World
  open_lease now later draws scope key request artifact object w =
      if over_quota artifact w.store
      then (err service_quota, free_object object w)
      else elim (new_unique_id_in read_handle_collision_attempts draws w.store.reads) [
        | none ↦ (err handle_generation, free_object object w)
        | some id ↦
            elim (prepare_locked marshal later w.store.limits w.snapshots
              (new_lease now scope key id artifact object w.store.limits) request.ref request.offset
              request.max_bytes) [
                | err e ↦ (err e, free_object object w)
                | ok (lease, response) ↦
                    (ok response, record w { store = registered key id lease w.store })
              ]
      ]

  -- The third part; `later` is the clock in `prepareLocked`.
  unfoldable pub initial_last :
      ℕ
      → ℕ
      → List (Option Bytes)
      → Bytes
      → Digest
      → ReadRequest
      → Artifact
      → ArtifactLease
      → World
      → Result ReadError ReadResponse × World
  unfolding open_lease known_attempt sweep_locked
  initial_last now later draws scope key request artifact object w =
      if w.store.closed
      then (err service_closed, free_object object w)
      else let swept = sweep_locked now w in
        elim (known_attempt key request swept.store) [
          | some answer ↦ (answer, free_object object swept)
          | none ↦ open_lease now later draws scope key request artifact object swept
        ]

  -- The three parts in order, for an attempt key.
  unfoldable pub read_attempt :
      ℕ
      → ℕ
      → ℕ
      → List (Option Bytes)
      → Bytes
      → Digest
      → ReadRequest
      → Broker
      → Result ReadError ReadResponse × Broker
  unfolding initial_first initial_acquire initial_last
  read_attempt first now later draws scope key request b =
      let (answer, world) = initial_first first key request b.world in
      let asked = record b { world = world } in
      elim answer [
        | some result ↦ (result, asked)
        | none ↦
            let (acquired, b') = initial_acquire request asked in
            elim acquired [
              | err e ↦ (err e, b')
              | ok (artifact, object) ↦
                  let (result, w) =
                    initial_last now later draws scope key request artifact object b'.world in
                  (result, record b' { world = w })
            ]
      ]

  -- The clock is read in the first part, the third, and in `prepareLocked`.
  unfoldable pub read_initial :
      ℕ
      → ℕ
      → ℕ
      → List (Option Bytes)
      → Bytes
      → ReadRequest
      → Broker
      → Result ReadError ReadResponse × Broker
  unfolding initial_invalid read_attempt read_attempt_key
  read_initial first now later draws scope request b =
      if initial_invalid request
      then (err read_request_invalid, b)
      else if not (has_prefix request.ref (codes "artifact:v1:"))
      then (err artifact_reference_stale, b)
      else read_attempt first now later draws scope (read_attempt_key codec scope request) request b
