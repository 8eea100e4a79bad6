-- ===== src/Capability/Read/Requests.antt =====
-- The requests of internal/capability/read.go as wholes: each keeps the accounts.
use tappet.Capability.Registry.{Registry, lookup_capability, RegistryGeneration, current_generation}
use tappet.Capability.Types.{Artifact, Record}
use tappet.Capability.Snapshot.{Digest, ArtifactLease}
use tappet.Capability.Read.{
  ReadRequest, ReadLease, ReadLeaseStore, World, sweep_locked, sweep_entries, drop_locked,
  read_bounds_invalid,
}
use tappet.Capability.Read.Parts.{
  Codec, known_attempt, initial_first, acquire_readable, package_of_lease, record_acquire_artifact,
  Broker, read_attempt_key, initial_invalid,
}
use tappet.Capability.Read.Initial.{initial_last, initial_acquire, read_initial, read_attempt}
use tappet.Capability.Read.Service.{read_continuation, read}
use tappet.Capability.Read.Accounting.{IsAccounted, sweep-IsAccounted}
use tappet.Prelude.{
  ℕ, ◌+◌, ◌<◌, ◌^◌, ◌≡◌, refl, false, Bool-cases, inl, inr, Option, none, some, List, [], ◌∷◌,
  arith, Bytes, bytes_key, Map, lookup, ok, Option-cases, Result-cases, get_elem?, get_elem?-snoc,
  get_elem?-set, has_prefix, codes,
}
use tappet.Capability.Read.Opening.{IsSmall, open_lease-IsAccounted, continue_lease-IsAccounted}

known_attempt-none :
    (key : Digest) (request : ReadRequest) (s : ReadLeaseStore)
    → known_attempt key request s ≡ none
    → lookup key s.attempts ≡ none
unfolding known_attempt
known_attempt-none key request s h = ground arith

sweep_entries-limits :
    (now : ℕ) (m : Map Bytes ReadLease) (w : World)
    → (sweep_entries now m w).store.limits ≡ w.store.limits
unfolding sweep_entries drop_locked
sweep_entries-limits now [] w = refl
sweep_entries-limits now ((id, l) ∷ m) w =
    ground (arith, sweep_entries-limits now m w, sweep_entries-limits now m (drop_locked id l w))

sweep-limits : (now : ℕ) (w : World) → (sweep_locked now w).store.limits ≡ w.store.limits
unfolding sweep_locked
sweep-limits now w = sweep_entries-limits now w.store.reads w

-- Of an acquired lease, the package is one of the registered generations'.
acquired_package :
    (capability_id : Bytes) (r r' : Registry) (i : ℕ) (rec : Record)
    → lookup_capability capability_id r ≡ ok (i, r')
    → package_of_lease i r' ≡ some rec
    → (a : ℕ) × (g : RegistryGeneration) × (get_elem? r.generations a ≡ some g)
      × (g.package_record ≡ rec)
unfolding lookup_capability package_of_lease
acquired_package capability_id r r' i rec done h =
    elim (Option-cases (current_generation capability_id r)) [
      | inl gone ↦ absurd (ground (arith, gone))
      | inr ((a, g), here) ↦ (
        a,
        g,
        unfold current_generation in ground (arith, here),
        unfold current_generation in
            ground (
              arith,
              here,
              get_elem?-snoc r.leases
                  (record { generation = a; invocation = none; released = false }) i,
              get_elem?-set r.generations a (record g { refs = g.refs + 1 }) a,
            ),
      )
    ]

module _ (codec : Codec) where
  -- The third part of an initial read keeps the accounts, whether it answers or fails.
  pub initial_last-IsAccounted :
      (now later : ℕ) (draws : List (Option Bytes)) (scope : Bytes) (key : Digest)
      (request : ReadRequest) (artifact : Artifact) (object : ArtifactLease) (w : World)
      → IsSmall w.store.limits
      → artifact.bytes < 2 ^ 62
      → IsAccounted w.store
      → IsAccounted (initial_last codec now later draws scope key request artifact object w).1.store
  unfolding initial_last
  initial_last-IsAccounted now later draws scope key request artifact object w small size a =
      let swept = sweep_locked now w in
      let kept = sweep-IsAccounted now w a in
      let fresh = λ (unknown : known_attempt key request swept.store ≡ none).
        open_lease-IsAccounted codec now later draws scope key request artifact object swept
          (known_attempt-none key request swept.store unknown) (rw (sweep-limits now w) small) size
          kept in
      elim (Option-cases (known_attempt key request swept.store)) [
        | inl unknown ↦ simp unknown ground (arith, a, fresh unknown)
        | inr (_, known) ↦ simp known ground (arith, a, kept)
      ]

  pub read_continuation-IsAccounted :
      (now later : ℕ) (scope : Bytes) (request : ReadRequest) (w : World)
      → IsAccounted w.store
      → IsAccounted (read_continuation codec now later scope request w).1.store
  unfolding read_continuation
  read_continuation-IsAccounted now later scope request w a =
      grind (arith, sweep-IsAccounted now w a, continue_lease-IsAccounted codec later scope)

  acquire_readable-store :
      (ref : Bytes) (rec : Record) (w : World)
      → (acquire_readable codec ref rec w).1.store ≡ w.store
  unfolding acquire_readable
  acquire_readable-store ref rec w = ground arith

  acquire_readable-eq-ok :
      (ref : Bytes) (rec : Record) (w : World) (artifact : Artifact) (object : ArtifactLease)
      → (acquire_readable codec ref rec w).0 ≡ ok (artifact, object)
      → lookup ref rec.artifacts ≡ some artifact
  unfolding acquire_readable record_acquire_artifact
  acquire_readable-eq-ok ref rec w artifact object h = ground arith

  -- Every artifact of every registered package is far below the range of `int64`.
  pub record HasSmallArtifacts (r : Registry) : Type 0 where
    pub small :
        (a : ℕ) (g : RegistryGeneration) (ref : Bytes) (artifact : Artifact)
        → get_elem? r.generations a ≡ some g
        → lookup ref g.package_record.artifacts ≡ some artifact
        → artifact.bytes < 2 ^ 62

  -- The second part leaves the read store alone, and what it acquires is small.
  initial_acquire-store :
      (request : ReadRequest) (b : Broker)
      → (initial_acquire codec request b).1.world.store ≡ b.world.store
  unfolding initial_acquire
  initial_acquire-store request b = grind (arith, acquire_readable-store request.ref)

  initial_acquire-small :
      (request : ReadRequest) (b : Broker) (artifact : Artifact) (object : ArtifactLease)
      → (initial_acquire codec request b).0 ≡ ok (artifact, object)
      → HasSmallArtifacts b.registry
      → artifact.bytes < 2 ^ 62
  unfolding initial_acquire
  initial_acquire-small request b artifact object h packages =
      elim (Result-cases (lookup_capability request.capability_id b.registry)) [
        | inl (e, failed) ↦ absurd (ground (arith, failed))
        | inr ((i, registry), done) ↦ elim (Option-cases (package_of_lease i registry)) [
          | inl absent ↦ absurd (ground (arith, done, absent))
          | inr (rec, present) ↦
              let (a, g, here, its) =
                acquired_package request.capability_id b.registry registry i rec done present in
              packages.small a g request.ref artifact here (
                rw (its) (
                  acquire_readable-eq-ok request.ref rec b.world artifact object
                    (ground (arith, done, present))))
        ]
      ]

  initial_first-IsAccounted :
      (first : ℕ) (key : Digest) (request : ReadRequest) (w : World)
      → IsAccounted w.store
      → IsAccounted (initial_first first key request w).1.store
  unfolding initial_first
  initial_first-IsAccounted first key request w a = ground (arith, a, sweep-IsAccounted first w a)

  initial_first-limits :
      (first : ℕ) (key : Digest) (request : ReadRequest) (w : World)
      → (initial_first first key request w).1.store.limits ≡ w.store.limits
  unfolding initial_first
  initial_first-limits first key request w = ground (arith, sweep-limits first w)

  read_attempt-IsAccounted :
      (first now later : ℕ) (draws : List (Option Bytes)) (scope : Bytes) (key : Digest)
      (request : ReadRequest) (b : Broker)
      → IsSmall b.world.store.limits
      → HasSmallArtifacts b.registry
      → IsAccounted b.world.store
      → IsAccounted (read_attempt codec first now later draws scope key request b).1.world.store
  unfolding read_attempt
  read_attempt-IsAccounted first now later draws scope key request b small packages a =
      let (answer, world) = initial_first first key request b.world in
      let asked = record b { world = world } in
      let a' = initial_first-IsAccounted first key request b.world a in
      let got = initial_acquire codec request asked in
      let same = initial_acquire-store request asked in
      elim (Option-cases answer) [
        | inr (_, known) ↦ rw (known, read_attempt) a'
        | inl fresh ↦ elim (Result-cases got.0) [
          | inl (_, failed) ↦ rw (fresh, failed, read_attempt, same) a'
          | inr ((artifact, object), done) ↦
              rw (fresh, done, read_attempt)
                (initial_last-IsAccounted now later draws scope key request artifact object
                  got.1.world (rw (same, initial_first-limits first key request b.world) small)
                  (initial_acquire-small request asked artifact object done packages) (rw same a'))
        ]
      ]

  read_initial-IsAccounted :
      (first now later : ℕ) (draws : List (Option Bytes)) (scope : Bytes) (request : ReadRequest)
      (b : Broker)
      → IsSmall b.world.store.limits
      → HasSmallArtifacts b.registry
      → IsAccounted b.world.store
      → IsAccounted (read_initial codec first now later draws scope request b).1.world.store
  unfolding read_initial
  read_initial-IsAccounted first now later draws scope request b small packages a =
      let kept =
        read_attempt-IsAccounted first now later draws scope (read_attempt_key codec scope request)
          request b small packages a in
      elim (Bool-cases (initial_invalid request)) [
        | inl bad ↦ rw (bad, read_initial) a
        | inr good ↦ elim (Bool-cases (has_prefix request.ref (codes "artifact:v1:"))) [
          | inl fit ↦ rw (good, fit, read_initial) kept
          | inr wrong ↦ rw (good, wrong, read_initial) a
        ]
      ]

  -- A read request, answered or refused, keeps the accounts of the read store: pinned and
  -- reserved bytes are the sums over the open leases, leases and attempts point at one another,
  -- and no limit is passed, when it was so before, the byte limits are below 2 ^ 62 and so is
  -- every artifact of a registered package.
  pub read-IsAccounted :
      (first now later : ℕ) (draws : List (Option Bytes)) (scope : Bytes) (request : ReadRequest)
      (b : Broker)
      → IsSmall b.world.store.limits
      → HasSmallArtifacts b.registry
      → IsAccounted b.world.store
      → IsAccounted (read codec first now later draws scope request b).1.world.store
  unfolding read
  read-IsAccounted first now later draws scope request b small packages a =
      let known = has_prefix request.ref (codes "read:") in
      elim (Bool-cases (read_bounds_invalid scope request)) [
        | inl bad ↦ rw (bad, read) a
        | inr good ↦ elim (Bool-cases known) [
          | inl handle ↦
              rw (good, handle, read)
                (read_continuation-IsAccounted now later scope request b.world a)
          | inr fresh ↦
              rw (good, fresh, read)
                (read_initial-IsAccounted first now later draws scope request b small packages a)
        ]
      ]
