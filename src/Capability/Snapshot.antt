-- ===== src/Capability/Snapshot.antt =====
-- internal/capability/snapshot.go: the store of immutable package bytes, its staging transactions,
-- snapshots and artifact leases. SHA-256 is a parameter: any function from bytes to digests.
-- Byte counters are exact numbers and their tests wrap as `int64`; a reference count is a number
-- that no reachable state decrements at 0.
pub mod Objects
pub mod Holders
pub mod Contents
pub mod Accounting
pub mod Reach
use tappet.Prelude.{
  ℕ, ◌+◌, ◌-◌, Bool, true, false, ◌||◌, Option, none, some, List, [], ◌∷◌, ltb, leb, ◌==◌,
  if◌then◌else◌, length, take, drop, Bytes, Map, lookup, insert, delete, values, gt64, Result, ok,
  err, bytes_eq, not, bytes_key,
}

-- `[sha256.Size]byte`
abbrev pub Digest : Type 0
Digest = Bytes

pub record StoreLimits : Type 0 where
  pub staging_bytes : ℕ
  pub snapshot_bytes : ℕ

abbrev pub default_store_limits : StoreLimits
default_store_limits = record { staging_bytes = 268435456; snapshot_bytes = 1073741824 }

-- `PackageArtifactMax`, 64 << 20
abbrev pub package_artifact_max : ℕ
package_artifact_max = 67108864

pub record SnapshotObject : Type 0 where
  pub content : Bytes
  pub refs : ℕ

pub record SnapshotStore : Type 0 where
  pub limits : StoreLimits
  pub staging_reserved : ℕ
  pub snapshot_reserved : ℕ
  pub snapshot_used : ℕ
  pub objects : Map Digest SnapshotObject

pub data StoreError : Type 0 where
  limits_not_positive package_too_large staging_exhausted snapshot_exhausted : StoreError
  transaction_closed declared_too_large staged_twice copy_failed artifact_grew size_changed :
      StoreError
  exhausted_at_commit : StoreError

pub record StagedArtifact : Type 0 where
  pub content : Bytes
  pub digest : Digest

pub record StagingTransaction : Type 0 where
  pub reserved : ℕ
  pub artifacts : Map Bytes StagedArtifact
  pub closed : Bool
  pub package_size : ℕ

-- What the store keeps of a package generation; `released` is its `sync.Once`.
pub record Snapshot : Type 0 where
  pub digests : Map Bytes Digest
  pub released : Bool

pub record ArtifactLease : Type 0 where
  pub digest : Digest
  pub released : Bool

unfoldable pub new_snapshot_store : StoreLimits → Result StoreError SnapshotStore
new_snapshot_store limits =
    if leb limits.staging_bytes 0 || leb limits.snapshot_bytes 0
    then err limits_not_positive
    else ok (record {
      limits = limits;
      staging_reserved = 0;
      snapshot_reserved = 0;
      snapshot_used = 0;
      objects = [];
    })

unfoldable pub begin : StagingTransaction
begin = record { reserved = 0; artifacts = []; closed = false; package_size = 0 }

-- `size < 0` cannot be: sizes are numbers.
unfoldable pub reserve :
    ℕ → StagingTransaction → SnapshotStore → Result StoreError (StagingTransaction × SnapshotStore)
reserve size t s =
    if gt64 (t.package_size + size) package_artifact_max
    then err package_too_large
    else if gt64 (s.staging_reserved + size) s.limits.staging_bytes
    then err staging_exhausted
    else if gt64 (s.snapshot_used + s.snapshot_reserved + size) s.limits.snapshot_bytes
    then err snapshot_exhausted
    else ok (
      record t { reserved = t.reserved + size; package_size = t.package_size + size },
      record s {
        staging_reserved = s.staging_reserved + size;
        snapshot_reserved = s.snapshot_reserved + size;
      },
    )

-- What `io.ReadAll(io.LimitReader(reader, n))` returns: a reader is the bytes that it still has, or
-- none where it fails.
abbrev pub read_limited : ℕ → Option Bytes → Option Bytes
read_limited n none = none
read_limited n (some bytes) = some (take n bytes)

module _ (sha256 : Bytes → Digest) where
  stage_copied : Bytes → ℕ → ℕ → StagingTransaction → Bytes → Result StoreError StagingTransaction
  stage_copied name declared maximum t copied =
      if not (length copied == declared)
      then (if ltb declared (length copied) then err artifact_grew else err size_changed)
      else if ltb maximum (length copied)
      then err declared_too_large
      else ok (record t {
        artifacts = insert name (record { content = copied; digest = sha256 copied }) t.artifacts;
      })

  unfoldable pub stage_reserved :
      Bytes → Option Bytes → ℕ → ℕ → StagingTransaction → Result StoreError StagingTransaction
  unfolding stage_copied
  stage_reserved name reader declared maximum t =
      if t.closed
      then err transaction_closed
      else if ltb maximum declared
      then err declared_too_large
      else elim (lookup name t.artifacts) [
        | some _ ↦ err staged_twice
        | none ↦ elim (read_limited (declared + 1) reader) [
          | none ↦ err copy_failed
          | some copied ↦ stage_copied name declared maximum t copied
        ]
      ]

-- `stagingTransaction.bytes`
unfoldable pub staged_bytes : Bytes → StagingTransaction → Option Bytes
staged_bytes name t = elim (lookup name t.artifacts) [ none ↦ none | some a ↦ some a.content ]

unfoldable pub abort : StagingTransaction → SnapshotStore → StagingTransaction × SnapshotStore
abort t s = if t.closed then (t, s) else (
  record t { closed = true; artifacts = [] },
  record s {
    staging_reserved = s.staging_reserved - t.reserved;
    snapshot_reserved = s.snapshot_reserved - t.reserved;
  },
)

-- The first loop of `commit`: the digests, and the bytes of the digests that the store lacks.
abbrev pub digests_of : Map Bytes StagedArtifact → Map Bytes Digest
digests_of [] = []
digests_of ((name, a) ∷ m) = (name, a.digest) ∷ digests_of m

unfoldable pub new_bytes : Map Digest SnapshotObject → Map Bytes StagedArtifact → ℕ
new_bytes objects [] = 0
new_bytes objects ((_, a) ∷ m) = elim (lookup a.digest objects) [
  | none ↦ length a.content + new_bytes objects m
  | some _ ↦ new_bytes objects m
]

-- The second loop: one more reference to the object of each artifact.
unfoldable pub retain : StagedArtifact → SnapshotStore → SnapshotStore
retain a s = elim (lookup a.digest s.objects) [
  | none ↦ record s {
    objects = insert a.digest (record { content = a.content; refs = 1 }) s.objects;
    snapshot_used = s.snapshot_used + length a.content;
  }
  | some o ↦ record s { objects = insert a.digest (record o { refs = o.refs + 1 }) s.objects }
]

unfoldable pub retain_all : Map Bytes StagedArtifact → SnapshotStore → SnapshotStore
retain_all [] s = s
retain_all ((_, a) ∷ m) s = retain_all m (retain a s)

abbrev pub return_reservation : ℕ → SnapshotStore → SnapshotStore
return_reservation n s = record s {
  staging_reserved = s.staging_reserved - n;
  snapshot_reserved = s.snapshot_reserved - n;
}

unfoldable pub commit :
    StagingTransaction
    → SnapshotStore
    → Result StoreError Snapshot × StagingTransaction × SnapshotStore
unfolding new_bytes retain_all
commit t s =
    if t.closed
    then (err transaction_closed, t, s)
    else if gt64 (s.snapshot_used + new_bytes s.objects t.artifacts) s.limits.snapshot_bytes
    then (err exhausted_at_commit, record t { closed = true }, return_reservation t.reserved s)
    else (
      ok (record { digests = digests_of t.artifacts; released = false }),
      record t { closed = true },
      return_reservation t.reserved (retain_all t.artifacts s),
    )

-- `Snapshot.Read`
unfoldable pub read : Bytes → Snapshot → SnapshotStore → Option Bytes
read name snap s = elim (lookup name snap.digests) [
  | none ↦ none
  | some d ↦ elim (lookup d s.objects) [ none ↦ none | some o ↦ some o.content ]
]

-- One reference less; the last one frees the object.
unfoldable pub drop_ref : Digest → SnapshotStore → SnapshotStore
drop_ref d s = elim (lookup d s.objects) [
  | none ↦ s
  | some o ↦
      if o.refs == 1
      then record s {
        snapshot_used = s.snapshot_used - length o.content;
        objects = delete d s.objects;
      }
      else record s { objects = insert d (record o { refs = o.refs - 1 }) s.objects }
]

unfoldable pub drop_refs : List Digest → SnapshotStore → SnapshotStore
drop_refs [] s = s
drop_refs (d ∷ ds) s = drop_refs ds (drop_ref d s)

-- `Snapshot.release`
unfoldable pub release : Snapshot → SnapshotStore → Snapshot × SnapshotStore
unfolding drop_refs
release snap s =
    if snap.released
    then (snap, s)
    else (record snap { released = true }, drop_refs (values snap.digests) s)

module _ (hex : Digest → Bytes) where
  -- `Snapshot.acquireArtifact`
  unfoldable pub acquire_artifact :
      Bytes → ℕ → Bytes → Snapshot → SnapshotStore → Option (ArtifactLease × SnapshotStore)
  acquire_artifact name expected_bytes expected_sha256 snap s = elim (lookup name snap.digests) [
    | none ↦ none
    | some d ↦ elim (lookup d s.objects) [
      | none ↦ none
      | some o ↦
          if not (length o.content == expected_bytes) || not (bytes_eq (hex d) expected_sha256)
          then none
          else some (
            record { digest = d; released = false },
            record s { objects = insert d (record o { refs = o.refs + 1 }) s.objects },
          )
    ]
  ]

-- `artifactLease.readRange`; offsets are `int64`, and `end < offset` is the wrap of the sum.
unfoldable pub range_end : ℕ → ℕ → ℕ → ℕ
range_end offset max_bytes size =
    if leb 9223372036854775808 (offset + max_bytes) || ltb size (offset + max_bytes)
    then size
    else offset + max_bytes

unfoldable pub read_range : ℕ → ℕ → ArtifactLease → SnapshotStore → Option Bytes
unfolding range_end
read_range offset max_bytes lease s = elim (lookup lease.digest s.objects) [
  | none ↦ none
  | some o ↦
      if ltb (length o.content) offset
      then none
      else some
          (take (range_end offset max_bytes (length o.content) - offset) (drop offset o.content))
]

-- `artifactLease.release`
unfoldable pub release_lease : ArtifactLease → SnapshotStore → ArtifactLease × SnapshotStore
unfolding drop_ref
release_lease lease s =
    if lease.released
    then (lease, s)
    else (record lease { released = true }, drop_ref lease.digest s)

-- What `Stats` tells: the counters and how many objects there are.
pub record StoreStats : Type 0 where
  pub staging : ℕ
  pub snapshot : ℕ
  pub used : ℕ
  pub objects : ℕ

unfoldable pub stats : SnapshotStore → StoreStats
stats s = record {
  staging = s.staging_reserved;
  snapshot = s.snapshot_reserved;
  used = s.snapshot_used;
  objects = length s.objects;
}
